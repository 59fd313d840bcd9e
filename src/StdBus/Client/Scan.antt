-- ===== src/StdBus/Client/Scan.antt =====
-- The preamble scan of `_read_frame` ends on every transport: its fuel is never used up.
use watlowlib.Base.{
  ℕ, zero, suc, ◌+◌, ◌≤◌, ◌<◌, ◌≡◌, ◌≢◌, ◌⊎◌, inl, inr, refl, arith, [], ◌++◌, none, some, Bytes,
  length, length-append, take, get_or, bit_or,
}
use watlowlib.Base.Bits.{shl}
use watlowlib.Errors.{Error}
use watlowlib.Result.{Result, ok, err, stuck}
use watlowlib.Transport.{Transport, ReadsExactly}
use watlowlib.StdBus.Framing.{preamble}
use watlowlib.StdBus.Client.{scan_limit, scan_round, scan, read_rest, read_frame}

-- How a call ended, with the equation.
pub Result-cases :
    {A : Type 0} (r : Result A)
    → ((a : A) × (r ≡ ok a)) ⊎ (((e : Error) × (r ≡ err e)) ⊎ (r ≡ stuck))
Result-cases (ok a) = inl (a, refl)
Result-cases (err e) = inr (inl (e, refl))
Result-cases stuck = inr (inr refl)

module _ {S : Type 0} (t : Transport S) (law : ReadsExactly t) where
  limit_grows :
      (scanned more out : Bytes) (s : S)
      → length scanned < length more
      → (scan_limit t more s).0 ≡ ok (some out)
      → (length scanned < length out) × (length out ≤ 256)
  unfolding scan_limit
  limit_grows scanned more out s h e = ground arith

  limit_returns : (more : Bytes) (s : S) → (scan_limit t more s).0 ≢ stuck
  unfolding scan_limit
  limit_returns more s = ground arith

  -- A round that goes on has scanned more, and is within the limit.
  round_grows :
      (scanned out : Bytes) (s : S)
      → (scan_round t scanned s).0 ≡ ok (some out)
      → (length scanned < length out) × (length out ≤ 256)
  unfolding scan_round
  round_grows scanned out s e = elim (Result-cases (t.read_exact 1 s).0) [
    | inl (b, r) ↦ elim (Result-cases (t.read_exact 1 (t.read_exact 1 s).1).0) [
      | inl (b2, r2) ↦ ground (
        arith,
        r,
        r2,
        law.exact 1 s b r,
        length-append scanned b,
        length-append scanned (b ++ b2),
        length-append b b2,
      )
      | inr (inl (x, r2)) ↦ ground (arith, r, r2, law.exact 1 s b r, length-append scanned b)
      | inr (inr r2) ↦ ground (arith, r, r2, law.exact 1 s b r, length-append scanned b)
    ]
    | inr (inl (x, r)) ↦ ground (arith, r)
    | inr (inr r) ↦ ground (arith, r)
  ]

  round_returns : (scanned : Bytes) (s : S) → (scan_round t scanned s).0 ≢ stuck
  unfolding scan_round
  round_returns scanned s e = ground (arith, law.returns 1 s, law.returns 1 (t.read_exact 1 s).1)

  scan_returns :
      (fuel : ℕ) (scanned : Bytes) (s : S)
      → length scanned ≤ 256
      → 257 ≤ length scanned + fuel
      → (scan t fuel scanned s).0 ≢ stuck
  unfolding scan
  scan_returns zero scanned s small enough = absurd (omega arith)
  scan_returns (suc fuel) scanned s small enough = elim (Result-cases (scan_round t scanned s).0) [
    | inl (none, r) ↦ λ e. ground (arith, r)
    | inl (some more, r) ↦ λ e.
        ground (
          arith,
          r,
          round_grows scanned more s r,
          scan_returns fuel more (scan_round t scanned s).1,
        )
    | inr (inl (x, r)) ↦ λ e. ground (arith, r)
    | inr (inr r) ↦ λ e. round_returns scanned s r
  ]

  rest_returns : (s : S) → (read_rest t s).0 ≢ stuck
  unfolding read_rest
  rest_returns s e = elim (Result-cases (t.read_exact 6 s).0) [
    | inl (h, r) ↦ ground (
      arith,
      r,
      law.returns (bit_or (shl (get_or h 3 0) 8) (get_or h 4 0) + 2) (t.read_exact 6 s).1,
    )
    | inr (inl (x, r)) ↦ ground (arith, r)
    | inr (inr r) ↦ law.returns 6 s r
  ]

  -- `_read_frame` ends on every transport that reads exactly what it is asked for: the fuel of the
  -- scan, 257 rounds, is never used up.
  pub read_frame-ne-stuck : (s : S) → (read_frame t s).0 ≢ stuck
  unfolding read_frame
  read_frame-ne-stuck s e =
      ground
        (arith, scan_returns 257 [] s (omega arith) (omega arith), rest_returns (scan t 257 [] s).1)

  -- On every transport that reads exactly what it is asked for: what `_read_frame` returns starts with the preamble, holds a whole header, and has at most 522
  -- bytes, whatever length the header announces: the frame of a 512-byte payload with its checksums.
  read_frame_bounds :
      (s : S) (frame : Bytes)
      → (read_frame t s).0 ≡ ok frame
      → (take 2 frame ≡ preamble) × (8 ≤ length frame) × (length frame ≤ 522)
  unfolding read_frame read_rest
  read_frame_bounds s frame e = elim (Result-cases (scan t 257 [] s).0) [
    | inl (u, found) ↦ elim (Result-cases (t.read_exact 6 (scan t 257 [] s).1).0) [
      | inl (h, r) ↦
          let n : ℕ = bit_or (shl (get_or h 3 0) 8) (get_or h 4 0) in
          let s' : S = (t.read_exact 6 (scan t 257 [] s).1).1 in
          elim (Result-cases (t.read_exact (n + 2) s').0) [
            | inl (b, r2) ↦ ground (
              arith,
              found,
              r,
              r2,
              law.exact 6 (scan t 257 [] s).1 h r,
              law.exact (n + 2) s' b r2,
              length-append h b,
            )
            | inr (inl (x, r2)) ↦ ground (arith, found, r, r2, law.exact 6 (scan t 257 [] s).1 h r)
            | inr (inr r2) ↦ ground (arith, found, r, r2, law.exact 6 (scan t 257 [] s).1 h r)
          ]
      | inr (inl (x, r)) ↦ ground (arith, found, r)
      | inr (inr r) ↦ ground (arith, found, r)
    ]
    | inr (inl (x, lost)) ↦ ground (arith, lost)
    | inr (inr lost) ↦ ground (arith, lost)
  ]
