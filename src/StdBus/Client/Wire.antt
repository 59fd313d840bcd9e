-- ===== src/StdBus/Client/Wire.antt =====
-- `_read_frame` on scripted bytes: what it finds behind garbage, and what it loses.
use watlowlib.Base.{
  ℕ, zero, suc, ◌+◌, ◌/◌, ◌%◌, ◌≤◌, ◌<◌, ◌≡◌, ◌≢◌, ◌∙◌, refl, ap, arith, [], ◌∷◌, ◌++◌, none, some,
  Bytes, All, length, length-append, bit_or,
}
use watlowlib.Base.Bits.{shl}
use watlowlib.Errors.{watlow_timeout_error}
use watlowlib.Result.{ok, err}
use watlowlib.Transport.Fake.{
  Fake, fake_transport, with_buffer, IsReady, read_exact, read_exact-append, read_exact_short,
}
use watlowlib.StdBus.Crc.{header_crc8, data_crc16_le_bytes}
use watlowlib.StdBus.Framing.{Frame, preamble, encode_frame}
use watlowlib.StdBus.Framing.RoundTrip.{
  IsFrame, wire, plain_header, body_bytes, length_bytes, length-le_bytes, encode_frame-wire,
}
use watlowlib.StdBus.Client.{scan_round, scan, read_rest, read_frame}

-- No byte is 0x55, with which the preamble starts.
abbrev pub NoStart : Bytes → Type 0
NoStart g = All (λ b. b ≢ 0x55) g

module _ (s : Fake) (ready : IsReady s) where
  read_one :
      (b : ℕ) (rest : Bytes)
      → read_exact 1 (with_buffer s (b ∷ rest)) ≡ (ok (b ∷ []), with_buffer s rest)
  read_one b rest = read_exact-append s (b ∷ []) rest ready

  round_found :
      (scanned rest : Bytes)
      → scan_round fake_transport scanned (with_buffer s (0x55 ∷ 0xff ∷ rest))
        ≡ (ok none, with_buffer s rest)
  unfolding scan_round
  round_found scanned rest = rw (read_one 0x55 (0xff ∷ rest), read_one 0xff rest) refl

  round_garbage :
      (b : ℕ) (scanned rest : Bytes)
      → b ≢ 0x55
      → length scanned < 256
      → scan_round fake_transport scanned (with_buffer s (b ∷ rest))
        ≡ (ok (some (scanned ++ (b ∷ []))), with_buffer s rest)
  unfolding scan_round
  round_garbage b scanned rest ne room =
      rw (read_one b rest) (ground (arith, length-append scanned (b ∷ [])))

  -- Garbage without 0x55 is skipped, up to the preamble.
  scan_finds :
      (fuel : ℕ) (scanned g rest : Bytes)
      → NoStart g
      → length scanned + length g ≤ 256
      → length g < fuel
      → scan fake_transport fuel scanned (with_buffer s (g ++ (0x55 ∷ 0xff ∷ rest)))
        ≡ (ok tt, with_buffer s rest)
  unfolding scan
  scan_finds zero scanned g rest clean room enough = absurd (omega arith)
  scan_finds (suc fuel) scanned [] rest clean room enough = rw (round_found scanned rest) refl
  scan_finds (suc fuel) scanned (b ∷ g) rest (ne, clean) room enough =
      rw (round_garbage b scanned (g ++ (0x55 ∷ 0xff ∷ rest)) ne (omega arith)) (
        scan_finds fuel (scanned ++ (b ∷ [])) g rest clean
          (omega (arith, length-append scanned (b ∷ []))) (omega arith))

  rest_body :
      (ft d src hi lo c n : ℕ) (body rest : Bytes)
      → bit_or (shl hi 8) lo ≡ n
      → 0 < n
      → n ≤ 512
      → length body ≡ n + 2
      → read_rest fake_transport
          (with_buffer s ((ft ∷ d ∷ src ∷ hi ∷ lo ∷ c ∷ []) ++ (body ++ rest)))
        ≡ (ok (preamble ++ ((ft ∷ d ∷ src ∷ hi ∷ lo ∷ c ∷ []) ++ body)), with_buffer s rest)
  unfolding read_rest
  rest_body ft d src hi lo c n body rest e pos small size =
      rw (read_exact-append s (ft ∷ d ∷ src ∷ hi ∷ lo ∷ c ∷ []) (body ++ rest) ready, e, ← size)
        (ground (arith, read_exact-append s body rest ready))

  rest_empty :
      (ft d src hi lo c : ℕ) (rest : Bytes)
      → bit_or (shl hi 8) lo ≡ 0
      → read_rest fake_transport (with_buffer s (ft ∷ d ∷ src ∷ hi ∷ lo ∷ c ∷ rest))
        ≡ (ok (preamble ++ (ft ∷ d ∷ src ∷ hi ∷ lo ∷ c ∷ [])), with_buffer s rest)
  unfolding read_rest
  rest_empty ft d src hi lo c rest e =
      rw (read_exact-append s (ft ∷ d ∷ src ∷ hi ∷ lo ∷ c ∷ []) rest ready, e) refl

  payload_size : (p : Bytes) → 0 < length p → length (body_bytes p) ≡ length p + 2
  unfolding body_bytes
  payload_size [] h = elim h [ ]
  payload_size (b ∷ bs) h =
      omega (arith, length-append (b ∷ bs) (data_crc16_le_bytes (b ∷ bs)), length-le_bytes (b ∷ bs))

  module _ (f : Frame) (rest : Bytes) (fits : IsFrame f) (small : length f.payload ≤ 512) where
    -- The bytes of `f` behind the preamble.
    abbrev behind : Bytes → Bytes
    behind body = plain_header f ++ (header_crc8 (plain_header f) ∷ body)

    abbrev ReadsRest : Bytes → Type 0
    ReadsRest body =
        read_rest fake_transport (with_buffer s (behind body ++ rest))
        ≡ (ok (preamble ++ behind body), with_buffer s rest)

    rest_wire : (p : Bytes) → f.payload ≡ p → ReadsRest (body_bytes f.payload)
    rest_wire [] same = rw no_body (
        rest_empty f.frame_type f.dst f.src (length f.payload / 256) (length f.payload % 256)
          (header_crc8 (plain_header f)) rest
          (length_bytes (length f.payload) fits.short ∙ ap length same))
      where
        no_body : body_bytes f.payload ≡ []
        no_body = ap body_bytes same ∙ unfold body_bytes in refl
    rest_wire (b ∷ bs) same =
        rest_body f.frame_type f.dst f.src (length f.payload / 256) (length f.payload % 256)
          (header_crc8 (plain_header f)) (length f.payload) (body_bytes f.payload) rest
          (length_bytes (length f.payload) fits.short) pos small (payload_size f.payload pos)
      where
        pos : 0 < length f.payload
        pos = omega (arith, ap length same)

    frame_found :
        (g : Bytes)
        → NoStart g
        → length g ≤ 256
        → read_frame fake_transport (with_buffer s (g ++ (wire f ++ rest)))
          ≡ (ok (wire f), with_buffer s rest)
    unfolding read_frame wire
    frame_found g clean room =
        rw
          (scan_finds 257 [] g (behind (body_bytes f.payload) ++ rest) clean (omega arith)
            (omega arith))
          (rest_wire f.payload refl)

-- On an open scripted port without a forced time-out, behind at most 256 bytes of garbage without 0x55,
-- `_read_frame` returns exactly the bytes that `encode_frame` wrote for a frame whose fields fit, of up to
-- 512 payload bytes, and leaves what follows them.
pub read_frame-encode_frame :
    (s : Fake) (f : Frame) (w g rest : Bytes)
    → IsReady s
    → IsFrame f
    → length f.payload ≤ 512
    → encode_frame f ≡ ok w
    → NoStart g
    → length g ≤ 256
    → read_frame fake_transport (with_buffer s (g ++ (w ++ rest))) ≡ (ok w, with_buffer s rest)
read_frame-encode_frame s f w g rest ready fits small e clean room =
    let same : w ≡ wire f = cc (e, encode_frame-wire f fits) in
    rw same (frame_found s ready f rest fits small g clean room)

-- A round that meets 0x55 and then another byte than 0xFF drops both.
round_lost :
    (s : Fake) (ready : IsReady s) (b : ℕ) (scanned rest : Bytes)
    → b ≢ 0xff
    → length scanned + 2 ≤ 256
    → scan_round fake_transport scanned (with_buffer s (0x55 ∷ b ∷ rest))
      ≡ (ok (some (scanned ++ (0x55 ∷ b ∷ []))), with_buffer s rest)
unfolding scan_round
round_lost s ready b scanned rest ne room =
    rw (read_one s ready 0x55 (b ∷ rest), read_one s ready b rest)
      (ground (arith, length-append scanned (0x55 ∷ b ∷ [])))

round_starves :
    (s : Fake) (ready : IsReady s) (scanned : Bytes)
    → scan_round fake_transport scanned (with_buffer s [])
      ≡ (err watlow_timeout_error, with_buffer s [])
unfolding scan_round
round_starves s ready scanned = rw (read_exact_short (with_buffer s []) 1 still (omega arith)) refl
  where
    still : IsReady (with_buffer s [])
    still = record { opened = ready.opened; reading = ready.reading }

-- Without 0x55 in what is waiting, the scan takes it all and times out.
scan_starves :
    (s : Fake) (ready : IsReady s) (fuel : ℕ) (scanned g : Bytes)
    → NoStart g
    → length scanned + length g ≤ 256
    → length g < fuel
    → scan fake_transport fuel scanned (with_buffer s g)
      ≡ (err watlow_timeout_error, with_buffer s [])
unfolding scan
scan_starves s ready zero scanned g clean room enough = absurd (omega arith)
scan_starves s ready (suc fuel) scanned [] clean room enough =
    rw (round_starves s ready scanned) refl
scan_starves s ready (suc fuel) scanned (b ∷ g) (ne, clean) room enough =
    rw (round_garbage s ready b scanned g ne (omega arith)) (
      scan_starves s ready fuel (scanned ++ (b ∷ [])) g clean
        (omega (arith, length-append scanned (b ∷ []))) (omega arith))

-- On an open scripted port without a forced time-out, a stray 0x55 straight ahead of a frame hides it: the scan takes the frame's own 0x55 for the
-- byte after the stray one, drops both, and times out with nothing left, if 0x55 does not occur
-- again in the at most 250 bytes behind the preamble.
pub read_frame_stray_start :
    (s : Fake) (tail : Bytes)
    → IsReady s
    → NoStart tail
    → length tail ≤ 250
    → read_frame fake_transport (with_buffer s (0x55 ∷ (preamble ++ tail)))
      ≡ (err watlow_timeout_error, with_buffer s [])
unfolding read_frame scan
read_frame_stray_start s tail ready clean small =
    rw (round_lost s ready 0x55 [] (0xff ∷ tail) (λ e. omega (arith, e)) (omega arith)) (
      rw
        (scan_starves s ready 256 (0x55 ∷ 0x55 ∷ []) (0xff ∷ tail) ((λ e. omega (arith, e)), clean)
          (omega arith) (omega arith))
        refl)
