-- ===== src/StdBus/Tables.antt =====
-- src/watlowlib/protocol/stdbus/tables.py: constants, and addresses on the bus as MS/TP MACs.
use watlowlib.Base.{ℕ, ◌+◌, ◌-◌, ◌≡◌, ◌↔◌, arith, ◌&&◌, leb, if◌then◌else◌}
use watlowlib.Errors.{validation_error}
use watlowlib.Result.{Result, ok, err}

-- `FrameType.DATA_EXPECTING_REPLY`
abbrev pub data_expecting_reply : ℕ
data_expecting_reply = 0x05

abbrev pub host_mac : ℕ
host_mac = 0x00

abbrev pub addr_offset : ℕ
addr_offset = 0x0f

unfoldable pub addr_to_mac : ℕ → Result ℕ
addr_to_mac addr =
    if leb 1 addr && leb addr 16 then ok (addr_offset + addr) else err validation_error

unfoldable pub mac_to_addr : ℕ → Result ℕ
mac_to_addr mac =
    if leb 0x10 mac && leb mac 0x1f then ok (mac - addr_offset) else err validation_error

abbrev pub dir_request : ℕ
dir_request = 0x01

abbrev pub dir_response : ℕ
dir_response = 0x02

abbrev pub fn_read : ℕ
fn_read = 0x03

abbrev pub fn_write : ℕ
fn_write = 0x04

-- `class ErrorCode`
abbrev pub code_no_such_object : ℕ
code_no_such_object = 0x81

abbrev pub code_no_such_attribute : ℕ
code_no_such_attribute = 0x83

abbrev pub code_no_such_instance : ℕ
code_no_such_instance = 0x84

-- The two mappings are inverse to one another: an address maps to a MAC exactly when the MAC maps
-- back to the address.
addr_to_mac-mac_to_addr : (addr mac : ℕ) → (addr_to_mac addr ≡ ok mac) ↔ (mac_to_addr mac ≡ ok addr)
unfolding addr_to_mac mac_to_addr
addr_to_mac-mac_to_addr addr mac = ground arith
