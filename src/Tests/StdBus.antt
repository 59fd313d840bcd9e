-- ===== src/Tests/StdBus.antt =====
-- The Std Bus stack at concrete frames and values.
use watlowlib.Base.{ℕ, ◌≡◌, ◌≢◌, refl, arith, [], ◌∷◌, ◌++◌, false, some, Bytes, IsBytes}
use watlowlib.Base.Int.{pos, negsuc}
use watlowlib.Errors.{watlow_timeout_error, frame_error}
use watlowlib.Result.{ok, err, stuck}
use watlowlib.Transport.Fake.{
  Fake, fake_transport, fake_transport-ReadsExactly, with_buffer, IsReady, read_exact,
  resolve_reply, produce, fixed, verbatim,
}
use watlowlib.StdBus.Crc.{header_crc8, data_crc16_le_bytes}
use watlowlib.StdBus.Tables.{addr_to_mac}
use watlowlib.StdBus.Framing.{preamble, encode_frame, decode_frame, decode_body}
use watlowlib.StdBus.Framing.RoundTrip.{IsFrame, decode-encode}
use watlowlib.StdBus.Framing.Canonical.{encode-decode}
use watlowlib.StdBus.Framing.Corruption.{header_corruption, payload_corruption}
use watlowlib.StdBus.Value.{Value, int}
use watlowlib.StdBus.Tlv.{tag_s32, tag_u8, encode_value, decode_value}
use watlowlib.StdBus.Tlv.Reads.{stored}
use watlowlib.StdBus.Tlv.RoundTrip.{decode-encode_value}
use watlowlib.StdBus.Payload.{
  write_request, read_response, split_param, join_param, encode_write_request, decode_payload,
  decode_read,
}
use watlowlib.StdBus.Payload.RoundTrip.{join_param-split_param, write_request_roundtrip}
use watlowlib.StdBus.Client.{
  Client, read_frame, execute, request_frame, scan, scan_round, read_rest,
}
use watlowlib.StdBus.Client.Scan.{read_frame-ne-stuck}
use watlowlib.StdBus.Client.Wire.{read_frame-encode_frame, read_frame_stray_start}
use watlowlib.StdBus.Client.Execute.{IsExchange, execute_exchange}
use watlowlib.Tests.Fixtures.{
  whole_floats, whole_floats-PacksFour, request_payload, reply_payload, reply_frame, request_wire,
  reply_wire, scripted_port,
}

reply_frame-IsFrame : IsFrame reply_frame
reply_frame-IsFrame = record {
  type_byte = omega arith;
  dst_byte = omega arith;
  src_byte = omega arith;
  short = omega arith;
}

decode-encode_example :
    (w : Bytes) × (encode_frame reply_frame ≡ ok w)
    × (decode_frame (w ++ (7 ∷ [])) ≡ ok reply_frame)
decode-encode_example = decode-encode reply_frame (7 ∷ []) reply_frame-IsFrame

reply_encoded : encode_frame reply_frame ≡ ok reply_wire
unfolding encode_frame header_crc8 data_crc16_le_bytes
reply_encoded = refl

reply_decoded : decode_frame (reply_wire ++ (7 ∷ [])) ≡ ok reply_frame
unfolding decode_frame decode_body header_crc8 data_crc16_le_bytes
reply_decoded = refl

wire-IsBytes : IsBytes (reply_wire ++ (7 ∷ []))
wire-IsBytes = ground arith

encode-decode_example :
    (w : Bytes) × (rest : Bytes) × (encode_frame reply_frame ≡ ok w)
    × (reply_wire ++ (7 ∷ []) ≡ w ++ rest)
encode-decode_example =
    encode-decode (reply_wire ++ (7 ∷ [])) reply_frame wire-IsBytes reply_decoded

-- The value 75 of the reply is changed to 76.
payload_corruption_example :
    (pre : Bytes) × (post : Bytes) × (encode_frame reply_frame
      ≡ ok (pre ++ (((2 ∷ 3 ∷ 1 ∷ 4 ∷ 1 ∷ 1 ∷ 1 ∷ []) ++ 75 ∷ []) ++ post)))
    × (decode_frame (pre ++ (((2 ∷ 3 ∷ 1 ∷ 4 ∷ 1 ∷ 1 ∷ 1 ∷ []) ++ 76 ∷ []) ++ post))
        ≡ err frame_error)
payload_corruption_example =
    payload_corruption reply_frame (2 ∷ 3 ∷ 1 ∷ 4 ∷ 1 ∷ 1 ∷ 1 ∷ []) [] 75 76 reply_frame-IsFrame
      refl tt (omega arith) (omega arith) (omega arith)

-- The source of the reply is changed to 0x11.
header_corruption_example :
    (post : Bytes) × (encode_frame reply_frame
      ≡ ok (preamble ++ (((6 ∷ 0 ∷ []) ++ 0x10 ∷ 0 ∷ 8 ∷ []) ++ post)))
    × (decode_frame (preamble ++ (((6 ∷ 0 ∷ []) ++ 0x11 ∷ 0 ∷ 8 ∷ []) ++ post)) ≡ err frame_error)
header_corruption_example =
    header_corruption reply_frame (6 ∷ 0 ∷ []) (0 ∷ 8 ∷ []) 0x10 0x11 reply_frame-IsFrame refl
      (ground arith) (ground arith) (omega arith) (omega arith) (omega arith)

minus_two : encode_value whole_floats tag_s32 (int (negsuc 1)) ≡ ok (6 ∷ 255 ∷ 255 ∷ 255 ∷ 254 ∷ [])
unfolding encode_value
minus_two = refl

decode-encode_value_example :
    (w : Value ℕ) × (stored whole_floats tag_s32 (int (negsuc 1)) ≡ ok w)
    × (decode_value whole_floats ((6 ∷ 255 ∷ 255 ∷ 255 ∷ 254 ∷ []) ++ (9 ∷ []))
        ≡ ok (w, tag_s32, 5))
decode-encode_value_example =
    decode-encode_value whole_floats whole_floats-PacksFour (int (negsuc 1))
      (6 ∷ 255 ∷ 255 ∷ 255 ∷ 254 ∷ []) (9 ∷ []) tag_s32 minus_two

one_byte : decode_value whole_floats (1 ∷ 75 ∷ 0 ∷ []) ≡ ok (int (pos 75), 1, 2)
unfolding decode_value
one_byte = refl

join_param-split_param_example :
    (join_param (split_param 4001).0 (split_param 4001).1 ≡ 4001)
    × (split_param (join_param 4 1) ≡ (4, 1))
join_param-split_param_example = join_param-split_param 4001 4 1 (omega arith)

set_point :
    encode_write_request whole_floats 7001 (int (pos 75)) 1 tag_u8
    ≡ ok (1 ∷ 4 ∷ 7 ∷ 1 ∷ 1 ∷ 1 ∷ 75 ∷ [])
unfolding encode_write_request encode_value
set_point = refl

write_request_roundtrip_example :
    (w : Value ℕ) × (stored whole_floats tag_u8 (int (pos 75)) ≡ ok w)
    × (decode_payload whole_floats (1 ∷ 4 ∷ 7 ∷ 1 ∷ 1 ∷ 1 ∷ 75 ∷ [])
        ≡ ok (write_request 7 1 1 w tag_u8))
write_request_roundtrip_example =
    write_request_roundtrip whole_floats whole_floats-PacksFour 7001 1 tag_u8 (int (pos 75))
      (1 ∷ 4 ∷ 7 ∷ 1 ∷ 1 ∷ 1 ∷ 75 ∷ []) set_point

scripted_port-IsReady : IsReady scripted_port
scripted_port-IsReady = record { opened = refl; reading = refl }

read_frame-ne-stuck_example : (read_frame fake_transport scripted_port).0 ≢ stuck
read_frame-ne-stuck_example =
    read_frame-ne-stuck fake_transport fake_transport-ReadsExactly scripted_port

read_frame-encode_frame_example :
    read_frame fake_transport
      (with_buffer scripted_port ((1 ∷ 2 ∷ 3 ∷ []) ++ (reply_wire ++ (9 ∷ []))))
    ≡ (ok reply_wire, with_buffer scripted_port (9 ∷ []))
read_frame-encode_frame_example =
    read_frame-encode_frame scripted_port reply_frame reply_wire (1 ∷ 2 ∷ 3 ∷ []) (9 ∷ [])
      scripted_port-IsReady reply_frame-IsFrame (omega arith) reply_encoded (ground arith)
      (omega arith)

frame_waiting : (read_frame fake_transport (with_buffer scripted_port reply_wire)).0 ≡ ok reply_wire
unfolding read_frame scan read_exact scan_round read_rest
frame_waiting = refl

read_frame_stray_start_example :
    read_frame fake_transport (with_buffer scripted_port (0x55 ∷ (preamble ++ (6 ∷ 0 ∷ 16 ∷ []))))
    ≡ (err watlow_timeout_error, with_buffer scripted_port [])
read_frame_stray_start_example =
    read_frame_stray_start scripted_port (6 ∷ 0 ∷ 16 ∷ []) scripted_port-IsReady (ground arith)
      (omega arith)

abbrev pub client : Client Fake
client = record { line = scripted_port; disposed = false }

request_encoded : encode_frame (request_frame 0x10 request_payload) ≡ ok request_wire
unfolding encode_frame request_frame header_crc8 data_crc16_le_bytes
request_encoded = refl

reply_found :
    resolve_reply request_wire scripted_port
    ≡ (some (fixed (verbatim ((1 ∷ 2 ∷ 3 ∷ []) ++ (reply_wire ++ [])))), [])
unfolding resolve_reply
reply_found = refl

reply_made :
    produce (fixed (verbatim ((1 ∷ 2 ∷ 3 ∷ []) ++ (reply_wire ++ [])))) request_wire
    ≡ (1 ∷ 2 ∷ 3 ∷ []) ++ (reply_wire ++ [])
unfolding produce
reply_made = refl

reply_value : decode_payload whole_floats reply_payload ≡ ok (read_response 4 1 1 (int (pos 75)) 1)
unfolding decode_payload decode_read decode_value
reply_value = refl

pub address_one : addr_to_mac 1 ≡ ok 0x10
unfolding addr_to_mac
address_one = refl

pub exchange :
    IsExchange whole_floats scripted_port request_payload 0x10 reply_frame request_wire
      (1 ∷ 2 ∷ 3 ∷ [])
      reply_wire
      []
      (fixed (verbatim ((1 ∷ 2 ∷ 3 ∷ []) ++ (reply_wire ++ []))))
      (read_response 4 1 1 (int (pos 75)) 1)
exchange = record {
  ready = scripted_port-IsReady;
  writing = refl;
  empty = refl;
  requested = request_encoded;
  found = reply_found;
  made = reply_made;
  frame_fits = reply_frame-IsFrame;
  small = omega arith;
  replied = reply_encoded;
  decoded = reply_value;
  clean = ground arith;
  room = omega arith;
}

execute_exchange_example : execute fake_transport whole_floats request_payload 1 client ≡ (
  ok (record {
    frame = reply_frame;
    payload = read_response 4 1 1 (int (pos 75)) 1;
    raw_frame = reply_wire;
  }),
  record client {
    line = with_buffer (record scripted_port { queue = []; writes = [] ++ (request_wire ∷ []) }) [];
  },
)
execute_exchange_example =
    execute_exchange whole_floats client request_payload 1 0x10 reply_frame request_wire
      (1 ∷ 2 ∷ 3 ∷ []) reply_wire [] (fixed (verbatim ((1 ∷ 2 ∷ 3 ∷ []) ++ (reply_wire ++ []))))
      (read_response 4 1 1 (int (pos 75)) 1) refl address_one exchange
