-- ===== src/Maintenance/Steps.antt =====
-- What a call of src/watlowlib/maintenance.py that returns has done.
use watlowlib.Base.{◌≡◌, refl, ap, subst, ◌∙◌, if◌then◌else◌, Bool, true, false, ◌&&◌, not}
use watlowlib.Base.Int.{ℤ, pos, ltb_ℤ}
use watlowlib.Errors.{configuration_error, confirmation_required_error}
use watlowlib.Result.{Result, ok, err, stuck}
use watlowlib.Exec.{Exec, continue}
use watlowlib.Devices.Session.{ProtocolKind, modbus_kind}
use watlowlib.Maintenance.{
  DeviceInfo, Bench, check_address, after_exit, with_controller, opened_with, verify,
  written_and_verified, change_modbus_address,
}

-- A controller was opened, `body` returned `a`, and the controller was closed.
pub record IsOpened {T C W A : Type 0} (bench : Bench T C W) (kind : ProtocolKind) (address : ℤ)
    (settings : T) (body : C → Exec W A) (a : A) (w w' : W) : Type 0 where
  pub ctl : C
  pub begun : W
  pub ended : W
  pub opens : bench.open_device kind address settings w ≡ (ok ctl, begun)
  pub acts : body ctl begun ≡ (ok a, ended)
  pub closes : bench.close ctl ended ≡ (ok tt, w')

pub continue_returned :
    {A B W : Type 0} (x : Result A × W) (next : A → Exec W B) (b : B) (w' : W)
    → continue x.0 next x.1 ≡ (ok b, w')
    → (a : A) × (w : W) × (x ≡ (ok a, w)) × (next a w ≡ (ok b, w'))
continue_returned (ok a, w) next b w' h = (a, w, refl, h)
continue_returned (err e, w) next b w' h = cc
continue_returned (stuck, w) next b w' h = cc

pub lift_returned :
    {A B W : Type 0} (r : Result A) (next : A → Exec W B) (b : B) (w w' : W)
    → continue r next w ≡ (ok b, w')
    → (a : A) × (r ≡ ok a) × (next a w ≡ (ok b, w'))
lift_returned (ok a) next b w w' h = (a, refl, h)
lift_returned (err e) next b w w' h = cc
lift_returned stuck next b w w' h = cc

address_checked :
    (confirm low high : Bool) (target value : ℤ)
    → (if not confirm
        then err confirmation_required_error
        else if not low && not high
        then ok target
        else err configuration_error)
      ≡ ok value
    → (confirm ≡ true) × (low ≡ false) × (high ≡ false) × (value ≡ target)
address_checked true false false target value h = (refl, refl, refl, cc)
address_checked false low high target value h = cc
address_checked true true high target value h = cc
address_checked true false true target value h = cc

exit_returned :
    {A : Type 0} (pending : Result A) (closed : Result (Unit {0})) (a : A)
    → after_exit pending closed ≡ ok a
    → (pending ≡ ok a) × (closed ≡ ok tt)
unfolding after_exit
exit_returned pending (ok tt) a h = (h, refl)
exit_returned pending (err e) a h = cc
exit_returned pending stuck a h = cc

module _ {T C W : Type 0} (bench : Bench T C W) where
  pub opened_with-IsOpened :
      {A : Type 0} (kind : ProtocolKind) (address : ℤ) (settings : T) (body : C → Exec W A) (a : A)
      (w w' : W)
      → opened_with bench kind address settings body w ≡ (ok a, w')
      → IsOpened bench kind address settings body a w w'
  unfolding opened_with with_controller
  opened_with-IsOpened kind address settings body a w w' h =
      let (ctl, begun, opens, rest) =
        continue_returned (bench.open_device kind address settings w)
          (λ ctl. with_controller bench ctl (body ctl)) a w' h in
      let ran = body ctl begun in
      let (acted, closed) = exit_returned ran.0 (bench.close ctl ran.1).0 a (ap (λ x. x.0) rest) in
      record {
        ctl = ctl;
        begun = begun;
        ended = ran.1;
        opens = opens;
        acts = ap (λ r. (r, ran.1)) acted;
        closes = ap (λ r. (r, (bench.close ctl ran.1).1)) closed ∙ ap (λ x. (ok tt, x.1)) rest;
      }

  written_and_verified-IsOpened :
      (kind kind' : ProtocolKind) (address address' : ℤ) (settings settings' : T)
      (body : C → Exec W (Unit {0})) (info : DeviceInfo) (w w' : W)
      → written_and_verified bench kind address settings body kind' address' settings' w
        ≡ (ok info, w')
      → (between : W) × IsOpened bench kind address settings body tt w between
        × IsOpened bench kind' address' settings'
            (λ ctl. bench.identify ctl true)
            info
            (bench.sleep between)
            w'
  unfolding written_and_verified verify
  written_and_verified-IsOpened kind kind' address address' settings settings' body info w w' h =
      let (done, between, first, second) =
        continue_returned (opened_with bench kind address settings body w)
          (λ done w. verify bench kind' address' settings' (bench.sleep w)) info w' h in
      (
        between,
        opened_with-IsOpened kind address settings body tt w between first,
        opened_with-IsOpened kind' address' settings' (λ ctl. bench.identify ctl true) info
            (bench.sleep between) w' second,
      )

  -- If `change_modbus_address` returns, the call was confirmed and the address is from 1 to 247. Then a
  -- controller was opened at the current address, the target was written to parameter 17007, and the
  -- controller was closed; after the sleep, a controller was opened at the target with the same settings,
  -- gave the device information that is returned by a strict identification, and was closed.
  pub change_modbus_address-IsOpened :
      (target current : ℤ) (settings : T) (confirm : Bool) (info : DeviceInfo) (w w' : W)
      → change_modbus_address bench target current settings confirm w ≡ (ok info, w')
      → (confirm ≡ true)
        × (ltb_ℤ target (pos 1) ≡ false)
        × (ltb_ℤ (pos 247) target ≡ false)
        × ((between : W) × IsOpened bench modbus_kind current settings
              (λ ctl. bench.write_parameter ctl 17007 target)
              tt
              w
              between
            × IsOpened bench modbus_kind target settings
                (λ ctl. bench.identify ctl true)
                info
                (bench.sleep between)
                w')
  unfolding change_modbus_address check_address
  change_modbus_address-IsOpened target current settings confirm info w w' h =
      let rest : ℤ → Exec W DeviceInfo = λ value.
        written_and_verified bench modbus_kind current settings
          (λ ctl. bench.write_parameter ctl 17007 value) modbus_kind target settings in
      let (value, checked, ran) =
        lift_returned (check_address confirm (pos 247) target) rest info w w' h in
      let (confirmed, low, high, same) =
        address_checked confirm (ltb_ℤ target (pos 1)) (ltb_ℤ (pos 247) target) target value
          checked in
      (
        confirmed,
        low,
        high,
        written_and_verified-IsOpened modbus_kind modbus_kind current target settings settings
            (λ ctl. bench.write_parameter ctl 17007 target) info w w'
            (subst (λ v. rest v w ≡ (ok info, w')) same ran),
      )
