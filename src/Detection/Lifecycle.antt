-- ===== src/Detection/Lifecycle.antt =====
-- What `detect_protocol` returns and raises, and which transport is left open.
use watlowlib.Base.{
  ℕ, ◌≡◌, ◌⊎◌, inl, inr, refl, sym, ap, subst, Bool, true, false, ◌&&◌, List, [], ◌∷◌, Bytes, leb,
  Bool-cases,
}
use watlowlib.Errors.{watlow_timeout_error, protocol_unsupported_error, is_a}
use watlowlib.Result.{Result, ok, err, stuck}
use watlowlib.Exec.{Exec, continue, ◌>>◌}
use watlowlib.Devices.Session.{ProtocolKind, stdbus_kind, modbus_kind}
use watlowlib.Modbus.Client.{RaisesTyped}
use watlowlib.Modbus.Ops.{ModbusOp}
use watlowlib.Detection.{
  stdbus_answer, modbus_answer, probe_stdbus, probe_modbus, Link, Attempt, Verdict, resolved,
  unresolved, skipped, no_reply, failed, after_close, close_after, conclude, stdbus_session,
  modbus_session, try_stdbus, try_modbus, second_try, first_try, detect_protocol,
}
use watlowlib.Detection.Probes.{hardware_id_request, hardware_id_op, request_encoded, op_made}

-- The calls of a link return, or raise a `WatlowError`.
pub record IsTypedLink {W Q P : Type 0} (link : Link W Q P) : Type 0 where
  pub opens : (w : W) → RaisesTyped (link.open_link w).0
  pub drains : (w : W) → RaisesTyped (link.drain_input w).0
  pub closes : (w : W) → RaisesTyped (link.close w).0
  pub executes : (q : Q) (a : ℕ) (w : W) → RaisesTyped (link.client.execute q a w).0

-- A link was left out, or it was closed at the end of its use.
abbrev pub Released : {W Q P : Type 0} → Link W Q P → (W → Result Bool × W) → W → W → Type 0
Released link use_of w w' = (w' ≡ w) ⊎ (w' ≡ (link.close (use_of w).1).1)

-- A try settles on its protocol and leaves the link open, or it settles on none and releases it.
abbrev pub Tried :
    {W Q P : Type 0}
    → Link W Q P
    → ProtocolKind
    → (W → Result Bool × W)
    → W
    → Result Verdict × W
    → Type 0
Tried {W = W} link kind use_of w x =
    ((x ≡ (ok (resolved kind), (use_of w).1)) × ((use_of w).0 ≡ ok true))
    ⊎ ((a : Attempt) × (w' : W) × (x ≡ (ok (unresolved a), w')) × Released link use_of w w')

continue_typed :
    {S A B : Type 0} (x : Result A × S) (next : A → Exec S B)
    → RaisesTyped x.0
    → ((a : A) (s : S) → RaisesTyped (next a s).0)
    → RaisesTyped (continue x.0 next x.1).0
continue_typed (ok a, s) next h k = k a s
continue_typed (err e, s) next h k = h
continue_typed (stuck, s) next h k = h

stdbus_answer_typed : {P : Type 0} (r : Result P) → RaisesTyped r → RaisesTyped (stdbus_answer r)
unfolding stdbus_answer
stdbus_answer_typed (ok p) h = tt
stdbus_answer_typed (err e) h = elim (Bool-cases (is_a e watlow_timeout_error)) [
  | inl late ↦ rw late tt
  | inr other ↦ rw (other, h) tt
]
stdbus_answer_typed stuck h = h

modbus_answer_typed : {P : Type 0} (r : Result P) → RaisesTyped r → RaisesTyped (modbus_answer r)
unfolding modbus_answer
modbus_answer_typed (ok p) h = tt
modbus_answer_typed (err e) h = elim (Bool-cases (is_a e protocol_unsupported_error)) [
  | inl known ↦ rw known tt
  | inr unknown_ ↦ rw unknown_ (elim (Bool-cases (is_a e watlow_timeout_error)) [
    | inl late ↦ rw late tt
    | inr other ↦ rw (other, h) tt
  ])
]
modbus_answer_typed stuck h = h

module _ {W P : Type 0} where
  stdbus_session_typed :
      (link : Link W Bytes P) (address : ℕ) (w : W)
      → IsTypedLink link
      → RaisesTyped (stdbus_session link address w).0
  unfolding probe_stdbus
  stdbus_session_typed link address w t =
      continue_typed (link.open_link w) (λ u. link.drain_input >> probe_stdbus link.client address)
        (t.opens w)
        (λ u v.
          continue_typed (link.drain_input v) (λ d. probe_stdbus link.client address) (t.drains v)
            (λ d v'. rw request_encoded (
              stdbus_answer_typed (link.client.execute hardware_id_request address v').0
                (t.executes hardware_id_request address v'))))

  modbus_session_typed :
      (link : Link W ModbusOp P) (address : ℕ) (w : W)
      → IsTypedLink link
      → RaisesTyped (modbus_session link address w).0
  unfolding probe_modbus
  modbus_session_typed link address w t =
      continue_typed (link.open_link w) (λ u. probe_modbus link.client address) (t.opens w)
        (λ u v. rw op_made (
          modbus_answer_typed (link.client.execute hardware_id_op address v).0
            (t.executes hardware_id_op address v)))

module _ {W Q P : Type 0} (link : Link W Q P) (kind : ProtocolKind) where
  after_close_typed :
      (a : Attempt) (r : Result (Unit {0}))
      → RaisesTyped r
      → after_close link kind (ok (unresolved a)) r ≡ ok (unresolved a)
  unfolding after_close
  after_close_typed a (ok u) h = refl
  after_close_typed a (err e) h = rw h refl
  after_close_typed a stuck h = elim h [ ]

  conclude-Tried :
      (use_of : W → Result Bool × W) (w : W) (r : Result Bool)
      → IsTypedLink link
      → (use_of w).0 ≡ r
      → RaisesTyped r
      → Tried link kind use_of w (conclude link kind r (use_of w).1)
  unfolding conclude close_after
  conclude-Tried use_of w (ok true) t e h = inl (refl, e)
  conclude-Tried use_of w (ok false) t e h = inr (
    no_reply kind,
    (link.close (use_of w).1).1,
    ap (λ r. (r, (link.close (use_of w).1).1))
        (after_close_typed (no_reply kind) (link.close (use_of w).1).0 (t.closes (use_of w).1)),
    inr refl,
  )
  conclude-Tried use_of w (err x) t e h = rw h (
      inr (
        failed kind x,
        (link.close (use_of w).1).1,
        ap (λ r. (r, (link.close (use_of w).1).1))
            (after_close_typed (failed kind x) (link.close (use_of w).1).0 (t.closes (use_of w).1)),
        inr refl,
      ))
  conclude-Tried use_of w stuck t e h = elim h [ ]

module _ {W P R : Type 0} (stdbus : Link W Bytes P) (modbus : Link W ModbusOp R) (address : ℕ) where
  try_stdbus-Tried :
      (w : W)
      → IsTypedLink stdbus
      → Tried stdbus stdbus_kind (stdbus_session stdbus address) w (try_stdbus stdbus address w)
  unfolding try_stdbus
  try_stdbus-Tried w t = elim (Bool-cases (leb 1 address && leb address 16)) [
    | inl inside ↦ rw inside (
        conclude-Tried stdbus stdbus_kind (stdbus_session stdbus address) w
          (stdbus_session stdbus address w).0 t refl (stdbus_session_typed stdbus address w t))
    | inr outside ↦ rw outside (inr (skipped stdbus_kind, w, refl, inl refl))
  ]

  try_modbus-Tried :
      (w : W)
      → IsTypedLink modbus
      → Tried modbus modbus_kind (modbus_session modbus address) w (try_modbus modbus address w)
  unfolding try_modbus
  try_modbus-Tried w t = elim (Bool-cases (leb 1 address && leb address 247)) [
    | inl inside ↦ rw inside (
        conclude-Tried modbus modbus_kind (modbus_session modbus address) w
          (modbus_session modbus address w).0 t refl (modbus_session_typed modbus address w t))
    | inr outside ↦ rw outside (inr (skipped modbus_kind, w, refl, inl refl))
  ]

  -- How the detection may end: `between` is the world between the two tries.
  abbrev pub Detected : W → (Result ProtocolKind × List Attempt) × W → Type 0
  Detected w x =
      ((x.0 ≡ (ok stdbus_kind, []))
        × ((stdbus_session stdbus address w).0 ≡ ok true)
        × (x.1 ≡ (stdbus_session stdbus address w).1))
      ⊎ ((between : W) × (a : Attempt) × Released stdbus (stdbus_session stdbus address) w between
          × (((x.0 ≡ (ok modbus_kind, a ∷ []))
                × ((modbus_session modbus address between).0 ≡ ok true)
                × (x.1 ≡ (modbus_session modbus address between).1))
              ⊎ ((b : Attempt) × (x.0 ≡ (err protocol_unsupported_error, a ∷ b ∷ []))
                  × Released modbus (modbus_session modbus address) between x.1)))

  -- Where the calls on both transports return or raise `WatlowError`s, `detect_protocol` returns a
  -- protocol that its probe confirmed, Std Bus first, or raises a `WatlowProtocolUnsupportedError` with two
  -- attempts. The transport of the protocol that it returns is left as the probe left it; the other was
  -- left out or closed, and so are both where it raises.
  pub detect_protocol-Detected :
      (w : W)
      → IsTypedLink stdbus
      → IsTypedLink modbus
      → Detected w (detect_protocol stdbus modbus address w)
  unfolding detect_protocol first_try second_try
  detect_protocol-Detected w s m = from_first (try_stdbus stdbus address w) (try_stdbus-Tried w s)
    where
      from_second :
          (between : W) (a : Attempt) (x : Result Verdict × W)
          → Tried modbus modbus_kind (modbus_session modbus address) between x
          → Released stdbus (stdbus_session stdbus address) w between
          → Detected w (second_try a x)
      from_second between a x (inl (e, yes_)) free =
          subst (λ y. Detected w (second_try a y)) (sym e)
            (inr (between, a, free, inl (refl, yes_, refl)))
      from_second between a x (inr (b, w', e, free')) free =
          subst (λ y. Detected w (second_try a y)) (sym e)
            (inr (between, a, free, inr (b, refl, free')))

      from_first :
          (x : Result Verdict × W)
          → Tried stdbus stdbus_kind (stdbus_session stdbus address) w x
          → Detected w (first_try (try_modbus modbus address) x)
      from_first x (inl (e, yes_)) =
          subst (λ y. Detected w (first_try (try_modbus modbus address) y)) (sym e)
            (inl (refl, yes_, refl))
      from_first x (inr (a, w', e, free)) =
          subst (λ y. Detected w (first_try (try_modbus modbus address) y)) (sym e)
            (from_second w' a (try_modbus modbus address w') (try_modbus-Tried w' m) free)
