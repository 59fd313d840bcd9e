-- ===== src/StdBus/Crc.antt =====
-- src/watlowlib/protocol/stdbus/_crc.py: the two BACnet MS/TP checksums.
use watlowlib.Base.{ℕ, ◌-◌, ◌%◌, List, [], ◌∷◌, foldl, Bytes, bit_and, bit_xor, ◌+◌, ◌*◌}
use watlowlib.Base.Bits.{shl, shr}
pub mod Header
pub mod Data

-- `x ^ (x << 1) ^ … ^ (x << 7)` in `header_crc8`, then the fold to a byte.
unfoldable pub header_mix : ℕ → ℕ
header_mix x0 =
    let x : ℕ =
      bit_xor
        (bit_xor
          (bit_xor
            (bit_xor (bit_xor (bit_xor (bit_xor x0 (shl x0 1)) (shl x0 2)) (shl x0 3)) (shl x0 4))
            (shl x0 5))
          (shl x0 6))
        (shl x0 7) in
    bit_and (bit_xor (bit_and x 0xfe) (bit_and (shr x 8) 0x01)) 0xff

-- One round of the loop of `header_crc8`.
unfoldable pub header_step : ℕ → ℕ → ℕ
header_step crc b = header_mix (bit_xor crc b)

-- `~crc & mask` for a mask of ones, on a number that Python does not bound.
abbrev pub complement : ℕ → ℕ → ℕ
complement mask crc = mask - crc % (mask + 1)

unfoldable pub header_crc8 : Bytes → ℕ
unfolding header_step header_mix
header_crc8 bs = complement 0xff (foldl header_step 0xff bs)

-- What the low byte of the running checksum contributes in `data_crc16`.
unfoldable pub data_mix : ℕ → ℕ
data_mix low =
    bit_xor
      (bit_xor (bit_xor (bit_xor (bit_xor (shl low 8) (shl low 3)) (shl low 12)) (shr low 4))
        (bit_and low 0x0f))
      (shl (bit_and low 0x0f) 7)

-- One round of the loop of `data_crc16`.
unfoldable pub data_step : ℕ → ℕ → ℕ
data_step crc b =
    let low = bit_xor (bit_and crc 0xff) b in
    bit_and
      (bit_xor
        (bit_xor
          (bit_xor (bit_xor (bit_xor (bit_xor (shr crc 8) (shl low 8)) (shl low 3)) (shl low 12))
            (shr low 4))
          (bit_and low 0x0f))
        (shl (bit_and low 0x0f) 7))
      0xffff

unfoldable pub data_crc16 : Bytes → ℕ
unfolding data_step
data_crc16 bs = complement 0xffff (foldl data_step 0xffff bs)

-- `to_bytes(2, "little")`
unfoldable pub data_crc16_le_bytes : Bytes → Bytes
unfolding data_crc16
data_crc16_le_bytes bs = let crc = data_crc16 bs in crc % 256 ∷ shr crc 8 ∷ []
