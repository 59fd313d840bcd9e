-- ===== src/Devices/Facade/Polling/Samples.antt =====
-- Which samples `poll_controller` returns.
use watlowlib.Base.{
  ℕ, ◌+◌, ◌≤◌, ◌≡◌, refl, sym, ap, subst, ◌∙◌, arith, List, [], ◌∷◌, ◌++◌, append_assoc, append-nil,
  Option, length, length-append,
}
use watlowlib.Base.Int.{ℤ}
use watlowlib.Errors.{Error}
use watlowlib.Result.{Result, ok, err, stuck}
use watlowlib.StdBus.Value.{Floats}
use watlowlib.Registry.Units.{
  DisplayUnit, UnitKind, temperature_kind, percent_kind, dimensionless_kind, enumeration_kind,
  string_kind, resolve_unit,
}
use watlowlib.Registry.Spec.{Name, ParameterSpec}
use watlowlib.Registry.Index.{ParameterRegistry, Target, by_name, resolve}
use watlowlib.Commands.Request.{ParameterEntry}
use watlowlib.Modbus.Client.{RaisesTyped}
use watlowlib.Devices.Facade.{Gateway, Controller, wire_temperature_unit, read_parameter}
use watlowlib.Devices.Facade.Values.{HasUnit, HasUnit-resolve_unit}
use watlowlib.Devices.Facade.Polling.{
  Sample, kept, poll_instances, unit_for, poll_spec, poll_from, poll_controller,
}

-- The reads of the instances of a parameter, one after the other on the session: one sample for each read
-- that is answered, none for a read that fails.
pub data Reads {F S : Type 0} (gate : Gateway F S) (spec : ParameterSpec F)
    (unit : Option DisplayUnit) : List ℤ → S → List (Sample F) → S → Type 0 where
  no_more : (s : S) → Reads gate spec unit [] s [] s
  answered :
      (n : ℤ) (ns : List ℤ) (entry : ParameterEntry F) (s s' s'' : S) (out : List (Sample F))
      → gate.read (by_name spec.name) n s ≡ (ok entry, s')
      → Reads gate spec unit ns s' out s''
      → Reads gate spec unit
          (n ∷ ns)
          s
          (record {
            parameter = spec.name;
            parameter_id = spec.parameter_id;
            instance_id = n;
            value = entry.value;
            unit = unit;
          }
            ∷ out)
          s''
  unanswered :
      (n : ℤ) (ns : List ℤ) (e : Error) (s s' s'' : S) (out : List (Sample F))
      → gate.read (by_name spec.name) n s ≡ (err e, s')
      → Reads gate spec unit ns s' out s''
      → Reads gate spec unit (n ∷ ns) s out s''

-- The parameters in their order: one that does not resolve is left out, any other is read.
pub data Polls {F S : Type 0} (gate : Gateway F S) (lower : Name → Name)
    (registry : ParameterRegistry F) (wire : Option DisplayUnit) (instances : List ℤ)
    : List Target → S → List (Sample F) → S → Type 0 where
  finished : (s : S) → Polls gate lower registry wire instances [] s [] s
  unknown :
      (t : Target) (ts : List Target) (s s' : S) (out : List (Sample F))
      → ((spec : ParameterSpec F) → ¬ (resolve lower registry t ≡ ok spec))
      → Polls gate lower registry wire instances ts s out s'
      → Polls gate lower registry wire instances (t ∷ ts) s out s'
  known :
      (t : Target) (ts : List Target) (spec : ParameterSpec F) (unit : Option DisplayUnit)
      (s s' s'' : S) (out rest : List (Sample F))
      → resolve lower registry t ≡ ok spec
      → HasUnit wire spec.unit_kind unit
      → Reads gate spec unit instances s out s'
      → Polls gate lower registry wire instances ts s' rest s''
      → Polls gate lower registry wire instances (t ∷ ts) s (out ++ rest) s''

abbrev pub product : {A B : Type 0} → List A → List B → ℕ
product [] ys = 0
product (x ∷ xs) ys = length ys + product xs ys

Reads-length :
    {F S : Type 0} {gate : Gateway F S} {spec : ParameterSpec F} {unit : Option DisplayUnit}
    {ns : List ℤ} {s s' : S} {out : List (Sample F)}
    → Reads gate spec unit ns s out s'
    → length out ≤ length ns
Reads-length (no_more s) = omega arith
Reads-length (answered n ns entry s s' s'' out e rest) = omega (arith, Reads-length rest)
Reads-length (unanswered n ns x s s' s'' out e rest) = omega (arith, Reads-length rest)

Polls-length :
    {F S : Type 0} {gate : Gateway F S} {lower : Name → Name} {registry : ParameterRegistry F}
    {wire : Option DisplayUnit} {instances : List ℤ} {ts : List Target} {s s' : S}
    {out : List (Sample F)}
    → Polls gate lower registry wire instances ts s out s'
    → length out ≤ product ts instances
Polls-length (finished s) = omega arith
Polls-length (unknown t ts s s' out e rest) = omega (arith, Polls-length rest)
Polls-length (known t ts spec unit s s' s'' out more e u reads rest) =
    omega (arith, length-append out more, Reads-length reads, Polls-length rest)

-- A part of the loop adds samples to those that were there, and keeps the wire unit.
abbrev Adds :
    {F S : Type 0}
    → List (Sample F)
    → Option DisplayUnit
    → (List (Sample F) → S → Type 0)
    → Result (List (Sample F)) × Controller S
    → Type 0
Adds {F = F} {S = S} samples wire Made x =
    (out : List (Sample F)) × (c : Controller S) × (x ≡ (ok (samples ++ out), c))
    × Made out c.session
    × (c.wire_unit ≡ wire)

module _ {F S : Type 0} (fl : Floats F) (lower : Name → Name) (gate : Gateway F S)
    (typed : (target : Target) (n : ℤ) (s : S) → RaisesTyped (gate.read target n s).0) where
  -- A read of an instance, and the reads behind it.
  first_read :
      (spec : ParameterSpec F) (unit : Option DisplayUnit) (n : ℤ) (ns : List ℤ)
      (samples : List (Sample F)) (c : Controller S) (x : Result (ParameterEntry F) × S)
      → ((before : List (Sample F)) (d : Controller S)
          → Adds before d.wire_unit
              (Reads gate spec unit ns d.session)
              (poll_instances fl lower gate spec unit ns before d))
      → gate.read (by_name spec.name) n c.session ≡ x
      → RaisesTyped x.0
      → Adds samples c.wire_unit
          (Reads gate spec unit (n ∷ ns) c.session)
          (poll_instances fl lower gate spec unit (n ∷ ns) samples c)
  unfolding poll_instances read_parameter kept
  first_read spec unit n ns samples c (ok entry, s) later e h =
      let sample : Sample F = record {
        parameter = spec.name;
        parameter_id = spec.parameter_id;
        instance_id = n;
        value = entry.value;
        unit = unit;
      } in
      let (out, c', same, reads, wire) =
        later (samples ++ (sample ∷ [])) (record c { session = s }) in
      (
        sample ∷ out,
        c',
        rw e (same ∙ ap (λ l. (ok l, c')) (append_assoc samples (sample ∷ []) out)),
        answered n ns entry c.session s c'.session out e reads,
        wire,
      )
  first_read spec unit n ns samples c (err x, s) later e h =
      let (out, c', same, reads, wire) = later samples (record c { session = s }) in
      (out, c', rw e (rw h same), unanswered n ns x c.session s c'.session out e reads, wire)
  first_read spec unit n ns samples c (stuck, s) later e h = elim h [ ]

  poll_instances-Reads :
      (spec : ParameterSpec F) (unit : Option DisplayUnit) (ns : List ℤ) (samples : List (Sample F))
      (c : Controller S)
      → Adds samples c.wire_unit
          (Reads gate spec unit ns c.session)
          (poll_instances fl lower gate spec unit ns samples c)
  unfolding poll_instances
  poll_instances-Reads spec unit [] samples c =
      ([], c, ap (λ l. (ok l, c)) (sym (append-nil samples)), no_more c.session, refl)
  poll_instances-Reads spec unit (n ∷ ns) samples c =
      first_read spec unit n ns samples c (gate.read (by_name spec.name) n c.session)
        (poll_instances-Reads spec unit ns) refl (typed (by_name spec.name) n c.session)

  -- The unit of a parameter; the session and the wire unit stay.
  unit_resolved :
      (spec : ParameterSpec F) (k : UnitKind) (c : Controller S)
      → spec.unit_kind ≡ k
      → (d : Controller S) × (unit_for fl lower gate spec c
          ≡ (ok (resolve_unit spec.unit_kind c.wire_unit), d))
        × (d.session ≡ c.session)
        × (d.wire_unit ≡ c.wire_unit)
  unfolding unit_for wire_temperature_unit resolve_unit
  unit_resolved spec temperature_kind c e = ((wire_temperature_unit c).1, rw e refl, refl, refl)
  unit_resolved spec percent_kind c e = (c, rw e refl, refl, refl)
  unit_resolved spec dimensionless_kind c e = (c, rw e refl, refl, refl)
  unit_resolved spec enumeration_kind c e = (c, rw e refl, refl, refl)
  unit_resolved spec string_kind c e = (c, rw e refl, refl, refl)

  -- A parameter that resolves.
  poll_spec-Reads :
      (spec : ParameterSpec F) (instances : List ℤ) (samples : List (Sample F)) (c : Controller S)
      → Adds samples c.wire_unit
          (Reads gate spec (resolve_unit spec.unit_kind c.wire_unit) instances c.session)
          (poll_spec fl lower gate instances samples (ok spec) c)
  unfolding poll_spec
  poll_spec-Reads spec instances samples c =
      let unit = resolve_unit spec.unit_kind c.wire_unit in
      let (d, asked, session, wire) = unit_resolved spec spec.unit_kind c refl in
      let (out, c', same, reads, wire') = poll_instances-Reads spec unit instances samples d in
      (
        out,
        c',
        rw asked same,
        subst (λ s. Reads gate spec unit instances s out c'.session) session reads,
        wire' ∙ wire,
      )

  -- A parameter, and the parameters behind it.
  first_parameter :
      (registry : ParameterRegistry F) (wire : Option DisplayUnit) (instances : List ℤ) (t : Target)
      (ts : List Target) (samples : List (Sample F)) (c : Controller S)
      (x : Result (ParameterSpec F))
      → ((before : List (Sample F)) (d : Controller S)
          → d.wire_unit ≡ wire
          → Adds before wire
              (Polls gate lower registry wire instances ts d.session)
              (poll_from fl lower gate registry instances ts before d))
      → resolve lower registry t ≡ x
      → c.wire_unit ≡ wire
      → Adds samples wire
          (Polls gate lower registry wire instances (t ∷ ts) c.session)
          (poll_from fl lower gate registry instances (t ∷ ts) samples c)
  unfolding poll_from poll_spec
  first_parameter registry wire instances t ts samples c (ok spec) later e w =
      let (out, c', same, reads, w') = poll_spec-Reads spec instances samples c in
      let (rest, c'', same', polls, w'') = later (samples ++ out) c' (w' ∙ w) in
      (
        out ++ rest,
        c'',
        rw e (rw same (same' ∙ ap (λ l. (ok l, c'')) (append_assoc samples out rest))),
        known t ts spec (resolve_unit spec.unit_kind c.wire_unit) c.session c'.session c''.session
            out rest e
            (subst (λ u. HasUnit u spec.unit_kind (resolve_unit spec.unit_kind c.wire_unit)) w
              (HasUnit-resolve_unit c.wire_unit spec.unit_kind))
            reads polls,
        w'',
      )
  first_parameter registry wire instances t ts samples c (err x) later e w =
      let (out, c', same, polls, w') = later samples c w in
      (out, c', rw e same, unknown t ts c.session c'.session out (λ spec h. cc (e, h)) polls, w')
  first_parameter registry wire instances t ts samples c stuck later e w =
      let (out, c', same, polls, w') = later samples c w in
      (out, c', rw e same, unknown t ts c.session c'.session out (λ spec h. cc (e, h)) polls, w')

  poll_from-Polls :
      (registry : ParameterRegistry F) (wire : Option DisplayUnit) (instances : List ℤ)
      (ts : List Target) (samples : List (Sample F)) (c : Controller S)
      → c.wire_unit ≡ wire
      → Adds samples wire
          (Polls gate lower registry wire instances ts c.session)
          (poll_from fl lower gate registry instances ts samples c)
  unfolding poll_from
  poll_from-Polls registry wire instances [] samples c w =
      ([], c, ap (λ l. (ok l, c)) (sym (append-nil samples)), finished c.session, w)
  poll_from-Polls registry wire instances (t ∷ ts) samples c w =
      first_parameter registry wire instances t ts samples c (resolve lower registry t)
        (poll_from-Polls registry wire instances ts) refl w

  -- Where the reads on the session return or raise `WatlowError`s, `poll_controller` raises nothing. It
  -- asks for the parameters in their order, leaves out one that does not resolve, reads each instance of
  -- any other once, in order, and returns exactly one sample for each read that is answered, with the
  -- name and the identifier of the row, the instance, the value of the entry, and the unit of the
  -- parameter: so at most one for each parameter and instance.
  pub poll_controller-Polls :
      (parameters : List Target) (instances : List ℤ) (c : Controller S)
      → (out : List (Sample F)) × (c' : Controller S) × (poll_controller fl lower gate parameters
            instances c
          ≡ (ok out, c'))
        × Polls gate lower
            (gate.registry c.session)
            c.wire_unit
            instances
            parameters
            c.session
            out
            c'.session
        × (length out ≤ product parameters instances)
  unfolding poll_controller
  poll_controller-Polls parameters instances c =
      let (out, c', same, polls, wire) =
        poll_from-Polls (gate.registry c.session) c.wire_unit instances parameters [] c refl in
      (out, c', same, polls, Polls-length polls)
