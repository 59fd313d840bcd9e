-- ===== src/StdBus/Framing/Canonical.antt =====
-- What `decode_frame` accepts is what `encode_frame` writes.
use watlowlib.Base.{
  ℕ, ◌+◌, ◌*◌, ◌/◌, ◌%◌, ◌≤◌, ◌<◌, ◌≡◌, ◌∙◌, refl, sym, ap, subst₂, arith, true, [], ◌∷◌, ◌++◌, ◌⊎◌,
  inl, inr, append_assoc, Bytes, IsBytes, length, take, drop, length-take, take-append-drop,
  bytes_eq, bytes_eq→eq, bit_or,
}
use watlowlib.Base.Bits.{shl, bit_or-shl}
use watlowlib.Result.{ok}
use watlowlib.StdBus.Crc.{header_crc8, data_crc16_le_bytes}
use watlowlib.StdBus.Framing.{Frame, encode_frame, decode_frame, decode_body, frame_of}
use watlowlib.StdBus.Framing.RoundTrip.{
  IsFrame, wire, body_bytes, header_then, drop_header, encode_frame-wire,
}

module _ (b0 b1 ft d s hi lo c : ℕ) (t : Bytes) where
  abbrev eight_then : Bytes
  eight_then = b0 ∷ b1 ∷ ft ∷ d ∷ s ∷ hi ∷ lo ∷ c ∷ t

  accepted_header :
      (f : Frame)
      → decode_frame eight_then ≡ ok f
      → (b0 ≡ 0x55)
        × (b1 ≡ 0xff)
        × (c ≡ header_crc8 (ft ∷ d ∷ s ∷ hi ∷ lo ∷ []))
        × (decode_body eight_then (bit_or (shl hi 8) lo) ≡ ok f)
  unfolding decode_frame
  accepted_header f e = ground arith

  accepted_body :
      (n : ℕ) (f : Frame)
      → decode_body eight_then n ≡ ok f
      → ((n ≡ 0) × (f ≡ frame_of eight_then []))
        ⊎ ((0 < n)
            × (n + 2 ≤ length t)
            × (bytes_eq (take 2 (drop (8 + n) eight_then)) (data_crc16_le_bytes (take n t)) ≡ true)
            × (f ≡ frame_of eight_then (take n t)))
  unfolding decode_body
  accepted_body n f e = ground arith

-- A buffer that starts with the wire bytes of a well-formed frame.
abbrev pub StartsWithFrame : Bytes → Frame → Type 0
StartsWithFrame buf f = IsFrame f × ((rest : Bytes) × (buf ≡ wire f ++ rest))

split_length : (hi lo : ℕ) → lo < 256 → ((hi * 256 + lo) / 256 ≡ hi) × ((hi * 256 + lo) % 256 ≡ lo)
split_length hi lo h = omega arith

module _ (ft d s hi lo c : ℕ) (t : Bytes) (h : IsBytes (header_then ft d s hi lo c t))
    (checked : c ≡ header_crc8 (ft ∷ d ∷ s ∷ hi ∷ lo ∷ [])) where
  abbrev framed : Bytes → Frame
  framed p = record { frame_type = ft; dst = d; src = s; payload = p }

  well_formed : (p : Bytes) → length p ≡ hi * 256 + lo → IsFrame (framed p)
  well_formed p e = omega arith

  wire-framed :
      (p : Bytes)
      → length p ≡ hi * 256 + lo
      → wire (framed p) ≡ header_then ft d s hi lo c (body_bytes p)
  unfolding wire
  wire-framed p e =
      rw (e, (split_length hi lo (omega arith)).0, (split_length hi lo (omega arith)).1, checked)
        refl

  short_frame : hi * 256 + lo ≡ 0 → StartsWithFrame (header_then ft d s hi lo c t) (framed [])
  short_frame e =
      (well_formed [] (sym e), (t, rw (wire-framed [] (sym e)) (unfold body_bytes in refl)))

  module _ (n : ℕ) (size : n ≡ hi * 256 + lo) (pos : 0 < n) (fits : n + 2 ≤ length t) where
    payload_length : length (take n t) ≡ n
    payload_length = omega (arith, length-take n t)

    payload_body : (p : Bytes) → 0 < length p → body_bytes p ≡ p ++ data_crc16_le_bytes p
    unfolding body_bytes
    payload_body [] k = elim k [ ]
    payload_body (b ∷ bs) k = refl

    tail_split :
        take 2 (drop n t) ≡ data_crc16_le_bytes (take n t)
        → t ≡ body_bytes (take n t) ++ drop 2 (drop n t)
    tail_split e =
        sym (take-append-drop n t)
        ∙ ap (λ (r : Bytes). take n t ++ r)
            (sym (take-append-drop 2 (drop n t)) ∙ ap (λ (r : Bytes). r ++ drop 2 (drop n t)) e)
        ∙ sym (append_assoc (take n t) (data_crc16_le_bytes (take n t)) (drop 2 (drop n t)))
        ∙ ap (λ (r : Bytes). r ++ drop 2 (drop n t))
            (sym (payload_body (take n t) (omega (arith, payload_length))))

    long_frame :
        bytes_eq
            (take 2 (drop (8 + n) (header_then ft d s hi lo c t)))
            (data_crc16_le_bytes (take n t))
          ≡ true
        → StartsWithFrame (header_then ft d s hi lo c t) (framed (take n t))
    long_frame e = (
      well_formed (take n t) (payload_length ∙ size),
      (
        drop 2 (drop n t),
        rw (wire-framed (take n t) (payload_length ∙ size))
            (ap (λ (r : Bytes). header_then ft d s hi lo c r) (tail_split same)),
      ),
    )
      where
        same : take 2 (drop n t) ≡ data_crc16_le_bytes (take n t)
        same = bytes_eq→eq _ _ (rw (drop_header ft d s hi lo c t n) at e)

canonical_body :
    (ft d s hi lo c : ℕ) (t : Bytes) (f : Frame)
    → IsBytes (header_then ft d s hi lo c t)
    → c ≡ header_crc8 (ft ∷ d ∷ s ∷ hi ∷ lo ∷ [])
    → decode_body (header_then ft d s hi lo c t) (hi * 256 + lo) ≡ ok f
    → StartsWithFrame (header_then ft d s hi lo c t) f
canonical_body ft d s hi lo c t f h checked e =
    elim (accepted_body 0x55 0xff ft d s hi lo c t (hi * 256 + lo) f e) [
      | inl (none_left, same) ↦ rw same (short_frame ft d s hi lo c t h checked none_left)
      | inr (pos, fits, sum, same) ↦
          rw same (long_frame ft d s hi lo c t h checked (hi * 256 + lo) refl pos fits sum)
    ]

canonical_header :
    (ft d s hi lo c : ℕ) (t : Bytes) (f : Frame)
    → IsBytes (header_then ft d s hi lo c t)
    → decode_frame (header_then ft d s hi lo c t) ≡ ok f
    → StartsWithFrame (header_then ft d s hi lo c t) f
canonical_header ft d s hi lo c t f h e =
    let a = accepted_header 0x55 0xff ft d s hi lo c t f e in
    canonical_body ft d s hi lo c t f h a.2 (rw (bit_or-shl 8 hi lo (omega arith)) at a.3)

canonical_eight :
    (b0 b1 ft d s hi lo c : ℕ) (t : Bytes) (f : Frame)
    → IsBytes (eight_then b0 b1 ft d s hi lo c t)
    → decode_frame (eight_then b0 b1 ft d s hi lo c t) ≡ ok f
    → StartsWithFrame (eight_then b0 b1 ft d s hi lo c t) f
canonical_eight b0 b1 ft d s hi lo c t f h e =
    let a = accepted_header b0 b1 ft d s hi lo c t f e in
    subst₂
      (λ (x y : ℕ).
        IsBytes (eight_then x y ft d s hi lo c t)
        → decode_frame (eight_then x y ft d s hi lo c t) ≡ ok f
        → StartsWithFrame (eight_then x y ft d s hi lo c t) f)
      (sym a.0) (sym a.1) (canonical_header ft d s hi lo c t f) h e

canonical :
    (buf : Bytes) (f : Frame) → IsBytes buf → decode_frame buf ≡ ok f → StartsWithFrame buf f
canonical (b0 ∷ b1 ∷ ft ∷ d ∷ s ∷ hi ∷ lo ∷ c ∷ t) f h e =
    canonical_eight b0 b1 ft d s hi lo c t f h e
canonical _ f h e = unfold decode_frame in cc

-- Whatever byte string `decode_frame` accepts begins with the encoding of the frame that it returns.
pub encode-decode :
    (buf : Bytes) (f : Frame)
    → IsBytes buf
    → decode_frame buf ≡ ok f
    → (w : Bytes) × (rest : Bytes) × (encode_frame f ≡ ok w) × (buf ≡ w ++ rest)
encode-decode buf f h e =
    let (fits, (rest, same)) = canonical buf f h e in (wire f, rest, encode_frame-wire f fits, same)
