-- ===== src/Tests/Facade.antt =====
-- The facade on a device whose parameters all read as 75, and on a scripted port.
use watlowlib.Base.{
  ℕ, ◌+◌, ◌≤◌, ◌≡◌, refl, List, length, [], ◌∷◌, ◌++◌, true, false, none, some, bytes_eq,
  if◌then◌else◌,
}
use watlowlib.Base.Int.{ℤ, pos}
use watlowlib.Errors.{watlow_timeout_error}
use watlowlib.Result.{Result, ok, err}
use watlowlib.Transport.Fake.{fake_transport, fixed, verbatim}
use watlowlib.StdBus.Value.{int}
use watlowlib.StdBus.Payload.{encode_read_request, split_param}
use watlowlib.StdBus.Client.{Client}
use watlowlib.Transport.Fake.{Fake}
use watlowlib.Registry.Units.{celsius, percent, unit, coerce_unit}
use watlowlib.Registry.Families.{no_capability}
use watlowlib.Registry.Spec.{Name, validate_instance}
use watlowlib.Registry.Index.{Target, by_name, by_id, resolve, resolve_name, get_name}
use watlowlib.Commands.Request.{ParameterEntry, resolve_request}
use watlowlib.Commands.StdBusParameters.{encode_read}
use watlowlib.Devices.Session.{Session, availability, lookup, cache_key, target_key}
use watlowlib.Devices.Facade.{
  Gateway, Controller, fetch_comms_unit_label, comms_unit_label, read_named,
}
use watlowlib.Devices.Facade.Labels.{comms_unit_label_again}
use watlowlib.Devices.Facade.Loops.{PidGains, cool_name, Agree, read_pid, write_pid, pid-Agree}
use watlowlib.Devices.Facade.Polling.{Sample, poll_controller}
use watlowlib.Devices.Facade.Polling.Samples.{Polls, poll_controller-Polls}
use watlowlib.Devices.Facade.Values.{from_int, dimensionless}
use watlowlib.Devices.Stack.{stdbus_gateway}
use watlowlib.Devices.Stack.Read.{IsAnswered, read_named-answered}
use watlowlib.Tests.Fixtures.{whole_floats, request_payload, request_wire, reply_wire, reply_frame}
use watlowlib.Tests.Registry.{small_registry, known, places, same_case, row}
use watlowlib.Tests.StdBus.{client, address_one, exchange}

abbrev entry : ParameterEntry ℕ
entry = record {
  spec = row 4001 (112 ∷ []) none;
  instance_id = pos 1;
  value = int (pos 75);
  raw_bytes = [];
}

-- The session counts the calls.
abbrev device : Gateway ℕ ℕ
device = record {
  registry = λ s. small_registry;
  read = λ target n s. (ok entry, s + 1);
  write = λ target value n confirm s. (ok entry, s + 1);
}

abbrev no_labels : Controller ℕ
no_labels = record {
  session = 0;
  wire_unit = some celsius;
  wire_unit_warned = false;
  label = none;
  label_loaded = false;
  loops = none;
  capabilities = some no_capability;
}

-- The registry of the device has no row "display_units".
first_label :
    comms_unit_label whole_floats same_case device no_labels
    ≡ (ok none, record no_labels { label_loaded = true })
unfolding comms_unit_label fetch_comms_unit_label resolve resolve_name get_name
first_label = refl

comms_unit_label_again_example :
    comms_unit_label whole_floats same_case device (record no_labels { label_loaded = true })
    ≡ (ok none, record no_labels { label_loaded = true })
comms_unit_label_again_example =
    comms_unit_label_again whole_floats same_case device no_labels
      (record no_labels { label_loaded = true }) none first_label

percent_given : coerce_unit same_case same_case (unit percent) ≡ ok percent
unfolding coerce_unit
percent_given = refl

abbrev gains : PidGains ℕ
gains = record {
  heat_proportional_band = some 25;
  cool_proportional_band = none;
  time_integral = some 180;
  time_derivative = none;
  dead_band = some 1;
}

-- A device that fails on the parameters for cooling.
abbrev read_heat_only : Target → ℤ → ℕ → Result (ParameterEntry ℕ) × ℕ
read_heat_only (by_id i) n s = (ok entry, s + 1)
read_heat_only (by_name t) n s =
    if bytes_eq t cool_name then (err watlow_timeout_error, s) else (ok entry, s + 1)

abbrev other_device : Gateway ℕ ℕ
other_device = record device { read = read_heat_only }

device-Agree : Agree device other_device
device-Agree = record {
  heat_read = refl;
  integral_read = refl;
  derivative_read = refl;
  heat_written = refl;
  integral_written = refl;
  derivative_written = refl;
}

pid-Agree_example :
    (read_pid whole_floats same_case device (pos 1) (some no_capability)
      ≡ read_pid whole_floats same_case other_device (pos 1) (some no_capability))
    × (write_pid whole_floats same_case device gains (pos 1) true (some no_capability)
        ≡ write_pid whole_floats same_case other_device gains (pos 1) true (some no_capability))
pid-Agree_example =
    pid-Agree whole_floats same_case device other_device gains (pos 1) true no_capability
      device-Agree refl

poll_controller-Polls_example :
    (out : List (Sample ℕ)) × (c : Controller ℕ) × (poll_controller whole_floats same_case device
        (by_id 4001 ∷ by_id 9 ∷ [])
        (pos 1 ∷ pos 2 ∷ [])
        no_labels
      ≡ (ok out, c))
    × Polls device same_case small_registry
        (some celsius)
        (pos 1 ∷ pos 2 ∷ [])
        (by_id 4001 ∷ by_id 9 ∷ [])
        0
        out
        c.session
    × (length out ≤ 4)
poll_controller-Polls_example =
    poll_controller-Polls whole_floats same_case device (λ target n s. tt)
      (by_id 4001 ∷ by_id 9 ∷ []) (pos 1 ∷ pos 2 ∷ []) no_labels

abbrev session : Session ℕ (Client Fake)
session = record {
  client = client;
  registry = small_registry;
  address = 1;
  cache = [];
  last_error = none;
}

abbrev show : ℕ → Name
show n = n ∷ []

answered :
    IsAnswered whole_floats places same_case show session
      (record { target = by_name (112 ∷ []); instance_id = pos 1 })
      (row 4001 (112 ∷ []) none)
      (int (pos 75))
      1
      1
      0x10
      request_payload
      reply_frame
      request_wire
      (1 ∷ 2 ∷ 3 ∷ [])
      reply_wire
      []
      (fixed (verbatim ((1 ∷ 2 ∷ 3 ∷ []) ++ (reply_wire ++ []))))
unfolding availability lookup cache_key target_key resolve resolve_name get_name encode_read
    resolve_request validate_instance encode_read_request split_param
answered = record {
  allowed = refl;
  encoded = refl;
  known = known;
  live = refl;
  address_mac = address_one;
  exchange = exchange;
}

abbrev over_port : Controller (Session ℕ (Client Fake))
over_port = record {
  session = session;
  wire_unit = some celsius;
  wire_unit_warned = false;
  label = none;
  label_loaded = false;
  loops = none;
  capabilities = none;
}

read_named-answered_example :
    (read_named whole_floats same_case
      (stdbus_gateway whole_floats places same_case show fake_transport)
      (112 ∷ [])
      (pos 1)
      over_port).0
    ≡ ok (record { value = some 75; unit = none })
read_named-answered_example =
    read_named-answered whole_floats places same_case show over_port (112 ∷ []) (pos 1)
      (row 4001 (112 ∷ []) none) (int (pos 75)) 1 1 0x10 request_payload reply_frame request_wire
      (1 ∷ 2 ∷ 3 ∷ []) reply_wire [] (fixed (verbatim ((1 ∷ 2 ∷ 3 ∷ []) ++ (reply_wire ++ []))))
      (some 75) none answered (from_int (pos 75) 75 refl) dimensionless
