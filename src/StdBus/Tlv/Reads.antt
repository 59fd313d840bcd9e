-- ===== src/StdBus/Tlv/Reads.antt =====
-- What `decode_value` reads of the bytes that each branch of `encode_value` writes.
use watlowlib.Base.{
  ℕ, suc, ◌+◌, ◌-◌, ◌/◌, ◌%◌, ◌^◌, ◌≤◌, ◌<◌, ◌≡◌, ◌∙◌, ◌⊎◌, inl, inr, refl, arith, List, [], ◌∷◌,
  ◌++◌, Bool, true, false, ◌&&◌, Bytes, All, length, take-append, length-append, ltb, ◌==◌,
  if◌then◌else◌, Bool-cases,
}
use watlowlib.Base.Int.{ℤ, pos, negsuc, leb_ℤ}
use watlowlib.Errors.{type_error, value_error}
use watlowlib.Result.{Result, ok, err, ◌>>=◌, >>=-eq-ok}
use watlowlib.StdBus.Value.{Value, int, float, str, raw, Floats, PacksFour, be16, be32, from_be32}
use watlowlib.StdBus.Tlv.{
  tag_u8, tag_u16, tag_u32, tag_s32, tag_float, tag_string, tag_packed, encode_ascii, rstrip_nul,
  decode_ascii, word32, signed32, magnitude, within, to_int, to_float, encode_text, encode_number,
  encode_int, decode_value,
}

be32_lem : (n : ℕ) → from_be32 (n / 16777216) (n / 65536 % 256) (n / 256 % 256) (n % 256) ≡ n
be32_lem n = omega arith

signed32-word32 :
    (z : ℤ)
    → leb_ℤ (negsuc (2 ^ 31 - 1)) z && leb_ℤ z (pos (2 ^ 31 - 1)) ≡ true
    → signed32 (word32 z) ≡ z
signed32-word32 (pos n) h = ground arith
signed32-word32 (negsuc n) h = ground arith

magnitude_lem : (hi : ℕ) (z : ℤ) → within hi z ≡ true → pos (magnitude z) ≡ z
magnitude_lem hi (pos n) h = refl
magnitude_lem hi (negsuc n) h = ground arith

IsAscii : List ℕ → Type 0
IsAscii s = All (λ c. c < 128) s

encode_ascii_lem : (s b : List ℕ) → encode_ascii s ≡ ok b → (b ≡ s) × IsAscii s
unfolding encode_ascii IsAscii
encode_ascii_lem [] b h = (ground arith, tt)
encode_ascii_lem (c ∷ s) b h = elim (Bool-cases (ltb c 128)) [
  | inl small ↦
      let (r, e, k) = >>=-eq-ok (encode_ascii s) (λ t. ok (c ∷ t)) (rw small at h) in
      ground (arith, k, encode_ascii_lem s r e)
  | inr big ↦ ground (arith, big)
]

decode_ascii_lem : (s : List ℕ) → IsAscii s → decode_ascii s ≡ s
unfolding IsAscii
decode_ascii_lem [] h = refl
decode_ascii_lem (c ∷ s) (hc, h) = ground (arith, decode_ascii_lem s h)

rstrip_nul-IsAscii : (s : List ℕ) → IsAscii s → IsAscii (rstrip_nul s)
unfolding rstrip_nul IsAscii
rstrip_nul-IsAscii [] h = tt
rstrip_nul-IsAscii (c ∷ s) (hc, h) = ground (arith, rstrip_nul-IsAscii s h)

-- The value that a reader finds: a text loses its trailing NULs, a float is rounded to four bytes,
-- and a number is converted to the type that the tag asks for.
module _ {F : Type 0} (fl : Floats F) where
  stored_text : Value F → Result (Value F)
  stored_text (str s) = ok (str (rstrip_nul s))
  stored_text (raw b) = ok (str (decode_ascii (rstrip_nul b)))
  stored_text (int z) = err type_error
  stored_text (float x) = err type_error

  unfoldable pub stored : ℕ → Value F → Result (Value F)
  unfolding stored_text
  stored tag v =
      if tag == tag_string
      then stored_text v
      else if tag == tag_float
      then (to_float fl v >>= λ x. fl.pack x >>= λ bs. ok (float (fl.unpack bs)))
      else (to_int fl v >>= λ z. ok (int z))

  -- Reading `bs`, with anything behind it, gives what is stored of `v` and takes all of `bs`.
  abbrev pub Reads : ℕ → Value F → Bytes → Bytes → Type 0
  Reads tag v bs rest =
      (w : Value F) × (stored tag v ≡ ok w)
      × (decode_value fl (bs ++ rest) ≡ ok (w, tag, length bs))

  read_text :
      (b rest : Bytes)
      → length b ≤ 0xff
      → decode_value fl ((tag_string ∷ length b ∷ b) ++ rest)
        ≡ ok (str (decode_ascii (rstrip_nul b)), tag_string, 2 + length b)
  unfolding decode_value
  read_text b rest h = rw (take-append b rest) (ground (arith, length-append b rest))

  short_text :
      (b bs rest : Bytes)
      → (if ltb 0xff (length b) then err value_error else ok (tag_string ∷ length b ∷ b)) ≡ ok bs
      → decode_value fl (bs ++ rest) ≡ ok (str (decode_ascii (rstrip_nul b)), tag_string, length bs)
  short_text b bs rest h = elim (Bool-cases (ltb 0xff (length b))) [
    | inl long ↦ ground (arith, long)
    | inr short ↦
        let same : bs ≡ tag_string ∷ length b ∷ b = cc (rw short at h) in
        rw same (read_text b rest (ground arith) ∙ two_more (length b))
  ]
    where
      two_more :
          (n : ℕ)
          → ◌≡◌ {A = Result (Value F × ℕ × ℕ)}
              (ok (str (decode_ascii (rstrip_nul b)), tag_string, 2 + n))
              (ok (str (decode_ascii (rstrip_nul b)), tag_string, suc (suc n)))
      two_more n = ground arith

  pub text-Reads :
      (v : Value F) (bs rest : Bytes) → encode_text fl v ≡ ok bs → Reads tag_string v bs rest
  unfolding encode_text stored
  text-Reads (str s) bs rest h =
      let (b, e, k) = >>=-eq-ok (encode_ascii s) _ h in
      let (same, ascii) = encode_ascii_lem s b e in
      (
        str (rstrip_nul s),
        refl,
        short_text b bs rest k
            ∙ rw (same, decode_ascii_lem (rstrip_nul s) (rstrip_nul-IsAscii s ascii)) refl,
      )
  text-Reads (raw b) bs rest h = (str (decode_ascii (rstrip_nul b)), refl, short_text b bs rest h)
  text-Reads (int z) bs rest h = cc
  text-Reads (float x) bs rest h = cc

  -- Integer types: `n` is the converted value, `bs` its bytes.
  pub int-Reads :
      (tag : ℕ) (v : Value F) (fits : ℤ → Bool) (bytes_of : ℤ → Bytes) (bs rest : Bytes)
      → (tag == tag_string) ≡ false
      → (tag == tag_float) ≡ false
      → ((n : ℤ)
          → fits n ≡ true
          → decode_value fl (bytes_of n ++ rest) ≡ ok (int n, tag, length (bytes_of n)))
      → (to_int fl v >>= λ n. encode_int fl (fits n) (bytes_of n)) ≡ ok bs
      → Reads tag v bs rest
  unfolding stored encode_int
  int-Reads tag v fits bytes_of bs rest not_text not_float back h =
      let (n, e, k) = >>=-eq-ok (to_int fl v) _ h in
      elim (Bool-cases (fits n)) [
        | inl yes_fits ↦
            let same : bytes_of n ≡ bs = cc (rw yes_fits at k) in
            (int n, rw (not_text, not_float, e) refl, rw (← same) (back n yes_fits))
        | inr no_fits ↦ ground (arith, no_fits, k)
      ]

  pub back_u8 :
      (n : ℤ) (rest : Bytes)
      → within 0xff n ≡ true
      → decode_value fl ((tag_u8 ∷ magnitude n ∷ []) ++ rest) ≡ ok (int n, tag_u8, 2)
  unfolding decode_value
  back_u8 n rest h = ground (arith, magnitude_lem 0xff n h)

  pub back_u16 :
      (n : ℤ) (rest : Bytes)
      → within 0xffff n ≡ true
      → decode_value fl ((tag_u16 ∷ be16 (magnitude n)) ++ rest) ≡ ok (int n, tag_u16, 3)
  unfolding decode_value
  back_u16 n rest h = ground (arith, magnitude_lem 0xffff n h)

  pub back_u32 :
      (n : ℤ) (rest : Bytes)
      → within 0xffffffff n ≡ true
      → decode_value fl ((tag_u32 ∷ be32 (magnitude n)) ++ rest) ≡ ok (int n, tag_u32, 5)
  unfolding decode_value
  back_u32 n rest h = ground (arith, be32_lem (magnitude n), magnitude_lem 0xffffffff n h)

  pub back_s32 :
      (n : ℤ) (rest : Bytes)
      → leb_ℤ (negsuc (2 ^ 31 - 1)) n && leb_ℤ n (pos (2 ^ 31 - 1)) ≡ true
      → decode_value fl ((tag_s32 ∷ be32 (word32 n)) ++ rest) ≡ ok (int n, tag_s32, 5)
  unfolding decode_value
  back_s32 n rest h = rw (be32_lem (word32 n), signed32-word32 n h) (ground arith)

  pub back_packed :
      (n : ℤ) (rest : Bytes)
      → within 0xffff n ≡ true
      → decode_value fl ((tag_packed ∷ 0x01 ∷ be16 (magnitude n)) ++ rest)
        ≡ ok (int n, tag_packed, 4)
  unfolding decode_value
  back_packed n rest h = ground (arith, magnitude_lem 0xffff n h)

  pub back_float :
      (bs rest : Bytes)
      → length bs ≡ 4
      → decode_value fl ((tag_float ∷ bs) ++ rest) ≡ ok (float (fl.unpack bs), tag_float, 5)
  unfolding decode_value
  back_float (a ∷ b ∷ c ∷ d ∷ []) rest h = ground arith
  back_float _ rest h = absurd (omega arith)

  pub float-Reads :
      (v : Value F) (bs rest : Bytes)
      → PacksFour fl
      → (to_float fl v >>= λ x. fl.pack x >>= λ b. ok (tag_float ∷ b)) ≡ ok bs
      → Reads tag_float v bs rest
  unfolding stored
  float-Reads v bs rest law h =
      let (x, e, k) = >>=-eq-ok (to_float fl v) _ h in
      let (b, packed, same) = >>=-eq-ok (fl.pack x) (λ r. ok (tag_float ∷ r)) k in
      let four : length b ≡ 4 = (law.four x b packed).0 in
      let whole : bs ≡ tag_float ∷ b = cc same in
      (
        float (fl.unpack b),
        rw (e, packed) refl,
        rw whole (back_float b rest four ∙ ground (arith, four)),
      )

  -- The tags that `encode_value` knows.
  pub number_tags :
      (tag : ℕ) (v : Value F) (bs : Bytes)
      → encode_number fl tag v ≡ ok bs
      → (tag ≡ tag_float)
        ⊎ ((tag ≡ tag_u8)
            ⊎ ((tag ≡ tag_u16) ⊎ ((tag ≡ tag_u32) ⊎ ((tag ≡ tag_s32) ⊎ (tag ≡ tag_packed)))))
  unfolding encode_number
  number_tags tag v bs h = ground arith
