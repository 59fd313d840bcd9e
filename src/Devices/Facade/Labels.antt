-- ===== src/Devices/Facade/Labels.antt =====
-- The unit labels of a controller.
use watlowlib.Base.{
  ◌≡◌, ◌⊎◌, inl, inr, refl, sym, ap, subst, ◌∙◌, Bool, true, false, Option, Bool-cases,
}
use watlowlib.Errors.{validation_error}
use watlowlib.Result.{Result, ok, err, stuck}
use watlowlib.Exec.{continue, ◌>>=◌}
use watlowlib.StdBus.Value.{Floats}
use watlowlib.Registry.Units.{
  DisplayUnit, percent, UnitArgument, coerce_unit, display_code_for_unit,
}
use watlowlib.Registry.Spec.{Name}
use watlowlib.Devices.Facade.{
  Gateway, Controller, fetch_comms_unit_label, comms_unit_label, set_comms_unit_label,
}

-- The label of a controller that has asked for it.
settled :
    {S : Type 0} (x : Result (Option DisplayUnit) × Controller S) (c' : Controller S)
    (label : Option DisplayUnit)
    → continue x.0 (λ l c. (ok l, record c { label = l; label_loaded = true })) x.1 ≡ (ok label, c')
    → (c'.label_loaded ≡ true) × (c'.label ≡ label)
settled (ok l, c) c' label e = (cc e, cc e)
settled (err x, c) c' label e = cc e
settled (stuck, c) c' label e = cc e

module _ {F S : Type 0} (fl : Floats F) (lower : Name → Name) (gate : Gateway F S) where
  asked :
      (c : Controller S)
      → c.label_loaded ≡ true
      → comms_unit_label fl lower gate c ≡ (ok c.label, c)
  unfolding comms_unit_label
  asked c e = rw e refl

  asks :
      (c : Controller S)
      → c.label_loaded ≡ false
      → comms_unit_label fl lower gate c
        ≡ (fetch_comms_unit_label fl lower gate >>= λ l d.
              (ok l, record d { label = l; label_loaded = true }))
            c
  unfolding comms_unit_label
  asks c e = rw e refl

  -- Once `comms_unit_label` has returned a label, or that there is none, it returns the same again, and a
  -- repeated call changes nothing: the device is not asked again.
  pub comms_unit_label_again :
      (c c' : Controller S) (label : Option DisplayUnit)
      → comms_unit_label fl lower gate c ≡ (ok label, c')
      → comms_unit_label fl lower gate c' ≡ (ok label, c')
  comms_unit_label_again c c' label e = elim (Bool-cases c.label_loaded) [
    | inl loaded ↦
        subst (λ d. comms_unit_label fl lower gate d ≡ (ok label, c'))
          (ap (λ x. x.1) (sym (asked c loaded) ∙ e)) e
    | inr not_yet ↦
        let (loaded, same) =
          settled (fetch_comms_unit_label fl lower gate c) c' label (sym (asks c not_yet) ∙ e) in
        asked c' loaded ∙ ap (λ l. (ok l, c')) same
  ]

  -- A unit other than the two of temperature, and a string that names none, is refused by
  -- `set_comms_unit_label` with a `WatlowValidationError`, and nothing is written or changed.
  set_comms_unit_label_refused :
      (strip : Name → Name) (argument : UnitArgument) (confirm : Bool) (c : Controller S)
      → (coerce_unit strip lower argument ≡ ok percent)
        ⊎ (coerce_unit strip lower argument ≡ err validation_error)
      → set_comms_unit_label fl lower gate strip argument confirm c ≡ (err validation_error, c)
  unfolding set_comms_unit_label display_code_for_unit
  set_comms_unit_label_refused strip argument confirm c (inl e) = rw e refl
  set_comms_unit_label_refused strip argument confirm c (inr e) = rw e refl
