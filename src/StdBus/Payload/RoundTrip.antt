-- ===== src/StdBus/Payload/RoundTrip.antt =====
-- Requests that this side encodes, as the decoder of the other side reads them.
use watlowlib.Base.{
  ℕ, ◌/◌, ◌%◌, ◌<◌, ◌≡◌, ◌⊎◌, inl, inr, refl, arith, [], ◌∷◌, ◌++◌, append-nil, Bytes, length,
}
use watlowlib.Errors.{value_error}
use watlowlib.Result.{ok, err, >>=-eq-ok}
use watlowlib.StdBus.Tables.{dir_request, fn_read, fn_write}
use watlowlib.StdBus.Value.{Value, Floats, PacksFour}
use watlowlib.StdBus.Tlv.{encode_value, decode_value}
use watlowlib.StdBus.Tlv.Reads.{stored}
use watlowlib.StdBus.Tlv.RoundTrip.{decode-encode_value}
use watlowlib.StdBus.Tlv.Bounds.{decode_value_bounds}
use watlowlib.StdBus.Payload.{
  read_request, write_request, split_param, join_param, to_bytes, encode_read_request,
  encode_write_request, decode_payload, decode_write, decode_read,
}

-- Class, member and instance each fit a byte.
abbrev pub Addressable : ℕ → ℕ → Type 0
Addressable pid inst = (pid / 1000 < 256) × (pid % 1000 < 256) × (inst < 256)

-- Splitting a parameter id into class and member and joining them again gives the id back, and a
-- class and a member below 1000 survive joining and splitting.
pub join_param-split_param :
    (pid cls member : ℕ)
    → member < 1000
    → (join_param (split_param pid).0 (split_param pid).1 ≡ pid)
      × (split_param (join_param cls member) ≡ (cls, member))
unfolding join_param split_param
join_param-split_param pid cls member h = ground arith

-- A read request is encoded exactly if class, member and instance fit a byte each: then the other
-- side decodes it to a read request for them, and otherwise `ValueError` is raised.
read_request_roundtrip :
    {F : Type 0} (fl : Floats F) (pid inst : ℕ)
    → (Addressable pid inst
        × ((p : Bytes) × (encode_read_request pid inst ≡ ok p)
            × (decode_payload fl p ≡ ok (read_request (pid / 1000) (pid % 1000) inst))))
      ⊎ ((¬ Addressable pid inst) × (encode_read_request pid inst ≡ err value_error))
unfolding encode_read_request decode_payload decode_read
read_request_roundtrip fl pid inst = elim fits [
  | inl h ↦
      inl (
        h,
        (dir_request ∷ fn_read ∷ 0x01 ∷ pid / 1000 ∷ pid % 1000 ∷ inst ∷ [], ground arith, refl),
      )
  | inr h ↦ inr (h, ground arith)
]
  where
    fits : Addressable pid inst ⊎ (¬ Addressable pid inst)
    fits = ground arith

module _ {F : Type 0} (fl : Floats F) (law : PacksFour fl) where
  head_fits :
      (pid inst : ℕ) (hd : Bytes)
      → to_bytes (dir_request ∷ fn_write ∷ pid / 1000 ∷ pid % 1000 ∷ inst ∷ []) ≡ ok hd
      → hd ≡ dir_request ∷ fn_write ∷ pid / 1000 ∷ pid % 1000 ∷ inst ∷ []
  unfolding to_bytes
  head_fits pid inst hd h = ground arith

  decode_written :
      (c m i : ℕ) (bs : Bytes) (w : Value F) (tag n : ℕ)
      → 1 < length bs
      → decode_value fl bs ≡ ok (w, tag, n)
      → decode_payload fl (dir_request ∷ fn_write ∷ c ∷ m ∷ i ∷ bs) ≡ ok (write_request c m i w tag)
  unfolding decode_payload decode_write
  decode_written c m i bs w tag n long e = rw e (ground arith)

  -- Whatever write request is encoded, the other side decodes to a write request for the same class,
  -- member and instance, with the value as it is stored under the tag. That `struct` packs a float
  -- into four bytes is a hypothesis.
  pub write_request_roundtrip :
      (pid inst tag : ℕ) (v : Value F) (p : Bytes)
      → encode_write_request fl pid v inst tag ≡ ok p
      → (w : Value F) × (stored fl tag v ≡ ok w)
        × (decode_payload fl p ≡ ok (write_request (pid / 1000) (pid % 1000) inst w tag))
  unfolding encode_write_request
  write_request_roundtrip pid inst tag v p h =
      let (hd, e, k) =
        >>=-eq-ok (to_bytes (dir_request ∷ fn_write ∷ pid / 1000 ∷ pid % 1000 ∷ inst ∷ [])) _ h in
      let (bs, encoded, same) = >>=-eq-ok (encode_value fl tag v) (λ t. ok (hd ++ t)) k in
      let (w, kept, read) = decode-encode_value fl law v bs [] tag encoded in
      let reads : decode_value fl bs ≡ ok (w, tag, length bs) = rw append-nil at read in
      let whole : p ≡ hd ++ bs = cc same in
      (
        w,
        kept,
        rw (whole, head_fits pid inst hd e)
            (decode_written (pid / 1000) (pid % 1000) inst bs w tag (length bs)
              ((decode_value_bounds fl bs w tag (length bs) reads).0) reads),
      )
