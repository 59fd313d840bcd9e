-- ===== src/Tests/Fixtures.antt =====
-- Test data: a stand-in for Python's `float`, a frame, a reply and a scripted transport.
use watlowlib.Base.{ℕ, arith, [], ◌∷◌, ◌++◌, true, false, Bytes, ltb, get_or, if◌then◌else◌}
use watlowlib.Base.Int.{pos, negsuc}
use watlowlib.Errors.{overflow_error}
use watlowlib.Result.{ok, err}
use watlowlib.StdBus.Value.{Floats, PacksFour, be32, from_be32}
use watlowlib.StdBus.Framing.{Frame}
use watlowlib.Transport.Fake.{Fake, fixed, verbatim}

-- A float stands for the natural number whose 32-bit pattern it packs to.
abbrev pub whole_floats : Floats ℕ
whole_floats = record {
  of_int = λ z. elim z [ pos n ↦ ok n | negsuc n ↦ err overflow_error ];
  to_int = λ x. ok (pos x);
  pack = λ x. if ltb x 4294967296 then ok (be32 x) else err overflow_error;
  unpack = λ bs. from_be32 (get_or bs 0 0) (get_or bs 1 0) (get_or bs 2 0) (get_or bs 3 0);
}

pub whole_floats-PacksFour : PacksFour whole_floats
whole_floats-PacksFour = record { four = λ x bs e. ground arith }

-- A request for parameter 4001, instance 1, and the frame that answers 75 to it.
abbrev pub request_payload : Bytes
request_payload = 0x01 ∷ 0x03 ∷ 0x01 ∷ 0x04 ∷ 0x01 ∷ 0x01 ∷ []

abbrev pub reply_payload : Bytes
reply_payload = 0x02 ∷ 0x03 ∷ 0x01 ∷ 0x04 ∷ 0x01 ∷ 0x01 ∷ 0x01 ∷ 75 ∷ []

abbrev pub reply_frame : Frame
reply_frame = record { frame_type = 0x06; dst = 0x00; src = 0x10; payload = reply_payload }

-- The bytes of the request's frame, to the device with address 1, and of the reply's.
abbrev pub request_wire : Bytes
request_wire = 0x55 ∷ 0xff ∷ 5 ∷ 16 ∷ 0 ∷ 0 ∷ 6 ∷ 232 ∷ 1 ∷ 3 ∷ 1 ∷ 4 ∷ 1 ∷ 1 ∷ 227 ∷ 153 ∷ []

abbrev pub reply_wire : Bytes
reply_wire = 0x55 ∷ 0xff ∷ 6 ∷ 0 ∷ 16 ∷ 0 ∷ 8 ∷ 137 ∷ 2 ∷ 3 ∷ 1 ∷ 4 ∷ 1 ∷ 1 ∷ 1 ∷ 75 ∷ 33 ∷ 170 ∷ []

-- An open port that answers the request, behind three bytes of garbage.
abbrev pub scripted_port : Fake
scripted_port = record {
  script = (request_wire, fixed (verbatim ((1 ∷ 2 ∷ 3 ∷ []) ++ (reply_wire ++ [])))) ∷ [];
  queue = [];
  writes = [];
  unmatched = [];
  read_buffer = [];
  is_open = true;
  read_timeout = false;
  write_timeout = false;
}
