-- ===== src/Devices/Stack/Read.antt =====
-- A read from the facade down to the bytes of a scripted port, and back.
use watlowlib.Base.{ℕ, ◌≡◌, refl, ap, ◌∙◌, List, [], ◌∷◌, ◌++◌, false, Option, Bytes}
use watlowlib.Base.Int.{ℤ, pos}
use watlowlib.Result.{ok}
use watlowlib.Transport.Fake.{Fake, ScriptedReply, fake_transport, with_buffer}
use watlowlib.StdBus.Value.{Value, Floats}
use watlowlib.StdBus.Tables.{addr_to_mac}
use watlowlib.StdBus.Framing.{Frame}
use watlowlib.StdBus.Payload.{read_response, split_param}
use watlowlib.StdBus.Client.{Client}
use watlowlib.StdBus.Client.Execute.{IsExchange, execute_exchange}
use watlowlib.Registry.Units.{
  DisplayUnit, UnitKind, temperature_kind, percent_kind, dimensionless_kind, enumeration_kind,
  string_kind, resolve_unit,
}
use watlowlib.Registry.Spec.{Name, Arith, ParameterSpec}
use watlowlib.Registry.Index.{by_name, resolve_id}
use watlowlib.Commands.Request.{ReadParameterRequest, ParameterEntry}
use watlowlib.Commands.StdBusParameters.{encode_read}
use watlowlib.Commands.Laws.{reply_entry}
use watlowlib.Devices.Session.{
  Session, supported, availability, set_availability, is_unsupported, cache_key, variant_for,
  finish, receive, send, dispatch, execute,
}
use watlowlib.Devices.Facade.Values.{HasNumber, HasUnit, number_of-HasNumber, resolve_unit-HasUnit}
use watlowlib.Devices.Facade.{
  Controller, number_of, wire_temperature_unit, reading_from_entry, read_parameter, read_named,
}
use watlowlib.Devices.Stack.{read_parameter_command, stdbus_client, stdbus_gateway}

-- A session whose client is on a port where the request for a parameter is answered by a read response
-- that carries the value `v` of the parameter `spec`.
pub record IsAnswered {F : Type 0} (fl : Floats F) (ar : Arith F) (lower : Name → Name)
    (show : ℕ → Name) (s : Session F (Client Fake)) (q : ReadParameterRequest)
    (spec : ParameterSpec F) (v : Value F) (n tag mac : ℕ) (request : Bytes) (f : Frame)
    (w g wf : Bytes) (queue : List (Bytes × ScriptedReply)) (r : ScriptedReply) : Type 0 where
  pub allowed :
      is_unsupported
        (availability s (cache_key lower show (read_parameter_command fl ar lower) s.registry q))
      ≡ false
  pub encoded : encode_read lower s.registry q ≡ ok request
  pub known : resolve_id lower s.registry spec.parameter_id ≡ ok spec
  pub live : s.client.disposed ≡ false
  pub address_mac : addr_to_mac s.address ≡ ok mac
  pub exchange :
      IsExchange fl s.client.line request mac f w g wf queue r
        (read_response (split_param spec.parameter_id).0 (split_param spec.parameter_id).1 n v tag)

module _ {F : Type 0} (fl : Floats F) (ar : Arith F) (lower : Name → Name) (show : ℕ → Name)
    (s : Session F (Client Fake)) (q : ReadParameterRequest) (spec : ParameterSpec F) (v : Value F)
    (n tag mac : ℕ) (request : Bytes) (f : Frame) (w g wf : Bytes)
    (queue : List (Bytes × ScriptedReply)) (r : ScriptedReply) where
  -- The entry that the session returns, and the session behind the exchange.
  abbrev pub answered_entry : ParameterEntry F
  answered_entry = record { spec = spec; instance_id = pos n; value = v; raw_bytes = wf }

  abbrev pub served : Session F (Client Fake)
  served = record s {
    client = record s.client {
      line =
          with_buffer
            (record s.client.line { queue = queue; writes = s.client.line.writes ++ (w ∷ []) }) [];
    };
  }

  -- A session on a scripted port, whose registry knows the parameter and which has not found it to be
  -- unsupported, reads it: it writes the encoded request once, returns the value, the instance and the
  -- raw bytes of the reply with the row of the registry, and marks the command as supported.
  pub execute-answered :
      IsAnswered fl ar lower show s q spec v n tag mac request f w g wf queue r
      → execute lower show
          (stdbus_client fake_transport fl)
          (read_parameter_command fl ar lower)
          q
          false
          s
        ≡ (
          ok answered_entry,
          set_availability
              (cache_key lower show (read_parameter_command fl ar lower) s.registry q)
              supported
              served,
        )
  unfolding execute dispatch variant_for send receive finish
  execute-answered h =
      let reply =
        (reply_entry lower s.registry spec f wf n v tag q
          (record { target = q.target; value = v; instance_id = q.instance_id }) h.known).0 in
      rw h.allowed (
        rw h.encoded (
          rw
            (execute_exchange fl s.client request s.address mac f w g wf queue r
              (read_response (split_param spec.parameter_id).0 (split_param spec.parameter_id).1 n v
                tag)
              h.live h.address_mac h.exchange)
            (rw reply refl)))

  -- What the session's reply is to the reading.
  reading_unit :
      (k : UnitKind) (e : spec.unit_kind ≡ k) (c : Controller (Session F (Client Fake)))
      (x : Option F)
      → number_of fl v ≡ ok x
      → (reading_from_entry fl answered_entry c).0
        ≡ ok (record { value = x; unit = resolve_unit k c.wire_unit })
  unfolding reading_from_entry wire_temperature_unit resolve_unit
  reading_unit temperature_kind e c x h = rw e (rw h refl)
  reading_unit percent_kind e c x h = rw e (rw h refl)
  reading_unit dimensionless_kind e c x h = rw e (rw h refl)
  reading_unit enumeration_kind e c x h = rw e (rw h refl)
  reading_unit string_kind e c x h = rw e (rw h refl)

module _ {F : Type 0} (fl : Floats F) (ar : Arith F) (lower : Name → Name) (show : ℕ → Name)
    (c : Controller (Session F (Client Fake))) (name : Name) (k : ℤ) (spec : ParameterSpec F)
    (v : Value F) (n tag mac : ℕ) (request : Bytes) (f : Frame) (w g wf : Bytes)
    (queue : List (Bytes × ScriptedReply)) (r : ScriptedReply) where
  -- On a controller over a Std Bus session and a scripted transport, where `IsAnswered` holds (the name
  -- resolves, the read is not known to be unsupported, and the scripted exchange for its request replies
  -- with a frame that carries the value `v` of the parameter), the readers by name return the number of
  -- `v`, which is a float itself, the float of an integer, and none for a text or bytes, with the unit of
  -- the parameter: the wire unit of the controller for a temperature, percent for a percentage, none for
  -- any other.
  pub read_named-answered :
      (x : Option F) (u : Option DisplayUnit)
      → IsAnswered fl ar lower show c.session
          (record { target = by_name name; instance_id = k })
          spec
          v
          n
          tag
          mac
          request
          f
          w
          g
          wf
          queue
          r
      → HasNumber fl v x
      → HasUnit c.wire_unit spec.unit_kind u
      → (read_named fl lower (stdbus_gateway fl ar lower show fake_transport) name k c).0
        ≡ ok (record { value = x; unit = u })
  unfolding read_named read_parameter stdbus_gateway
  read_named-answered x u h number unit =
      let q : ReadParameterRequest = record { target = by_name name; instance_id = k } in
      rw (execute-answered fl ar lower show c.session q spec v n tag mac request f w g wf queue r h)
        (reading_unit fl ar lower show c.session q spec v n tag mac request f w g wf queue r
            spec.unit_kind refl _ x (number_of-HasNumber fl v x number)
          ∙ ap (λ y. ok (record { value = x; unit = y }))
              (resolve_unit-HasUnit c.wire_unit spec.unit_kind u unit))
