-- ===== src/StdBus/Tlv/RoundTrip.antt =====
-- `decode_value` reads back what `encode_value` wrote.
use watlowlib.Base.{
  ℕ, ◌-◌, ◌^◌, ◌≡◌, sym, subst, ◌⊎◌, inl, inr, refl, arith, ◌++◌, ◌∷◌, [], ◌&&◌, Bytes, length,
}
use watlowlib.Base.Int.{pos, negsuc, leb_ℤ}
use watlowlib.Result.{ok}
use watlowlib.StdBus.Value.{Value, Floats, PacksFour, be16, be32}
use watlowlib.StdBus.Tlv.{
  tag_u8, tag_u16, tag_u32, tag_s32, tag_float, tag_string, tag_packed, word32, magnitude, within,
  encode_text, encode_number, encode_value, decode_value,
}
use watlowlib.StdBus.Tlv.Reads.{
  Reads, stored, text-Reads, int-Reads, back_u8, back_u16, back_u32, back_s32, back_packed,
  float-Reads, number_tags,
}

module _ {F : Type 0} (fl : Floats F) (law : PacksFour fl) (v : Value F) (bs rest : Bytes) where
  abbrev ReadsBack : ℕ → Type 0
  ReadsBack tag = encode_number fl tag v ≡ ok bs → Reads fl tag v bs rest

  reads_float : ReadsBack tag_float
  unfolding encode_number
  reads_float h = float-Reads fl v bs rest law h

  reads_u8 : ReadsBack tag_u8
  unfolding encode_number
  reads_u8 h =
      int-Reads fl tag_u8 v (within 0xff) (λ n. tag_u8 ∷ magnitude n ∷ []) bs rest refl refl
        (λ n. back_u8 fl n rest) h

  reads_u16 : ReadsBack tag_u16
  unfolding encode_number
  reads_u16 h =
      int-Reads fl tag_u16 v (within 0xffff) (λ n. tag_u16 ∷ be16 (magnitude n)) bs rest refl refl
        (λ n. back_u16 fl n rest) h

  reads_u32 : ReadsBack tag_u32
  unfolding encode_number
  reads_u32 h =
      int-Reads fl tag_u32 v (within 0xffffffff) (λ n. tag_u32 ∷ be32 (magnitude n)) bs rest refl
        refl (λ n. back_u32 fl n rest) h

  reads_s32 : ReadsBack tag_s32
  unfolding encode_number
  reads_s32 h =
      int-Reads fl tag_s32 v (λ n. leb_ℤ (negsuc (2 ^ 31 - 1)) n && leb_ℤ n (pos (2 ^ 31 - 1)))
        (λ n. tag_s32 ∷ be32 (word32 n)) bs rest refl refl (λ n. back_s32 fl n rest) h

  reads_packed : ReadsBack tag_packed
  unfolding encode_number
  reads_packed h =
      int-Reads fl tag_packed v (within 0xffff) (λ n. tag_packed ∷ 0x01 ∷ be16 (magnitude n)) bs
        rest refl refl (λ n. back_packed fl n rest) h

  number_reads : (tag : ℕ) → ReadsBack tag
  number_reads tag h = elim (number_tags fl tag v bs h) [
    | inl e ↦ subst ReadsBack (sym e) reads_float h
    | inr (inl e) ↦ subst ReadsBack (sym e) reads_u8 h
    | inr (inr (inl e)) ↦ subst ReadsBack (sym e) reads_u16 h
    | inr (inr (inr (inl e))) ↦ subst ReadsBack (sym e) reads_u32 h
    | inr (inr (inr (inr (inl e)))) ↦ subst ReadsBack (sym e) reads_s32 h
    | inr (inr (inr (inr (inr e)))) ↦ subst ReadsBack (sym e) reads_packed h
  ]

  text_or_number :
      (tag : ℕ)
      → encode_value fl tag v ≡ ok bs
      → ((tag ≡ tag_string) × (encode_text fl v ≡ ok bs)) ⊎ (encode_number fl tag v ≡ ok bs)
  unfolding encode_value
  text_or_number tag h = ground arith

  -- Whatever `encode_value` writes, `decode_value` reads back, whatever bytes follow: the value as
  -- it is stored under the tag, the tag, and the number of the bytes written. That `struct` packs a
  -- float into four bytes is a hypothesis.
  pub decode-encode_value :
      (tag : ℕ)
      → encode_value fl tag v ≡ ok bs
      → (w : Value F) × (stored fl tag v ≡ ok w)
        × (decode_value fl (bs ++ rest) ≡ ok (w, tag, length bs))
  decode-encode_value tag h = elim (text_or_number tag h) [
    | inl (e, k) ↦ subst (λ t. Reads fl t v bs rest) (sym e) (text-Reads fl v bs rest k)
    | inr k ↦ number_reads tag k
  ]
