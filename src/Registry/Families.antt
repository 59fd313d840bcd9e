-- ===== src/Registry/Families.antt =====
-- src/watlowlib/registry/families.py, and the capabilities of src/watlowlib/devices/capability.py.
-- `str.strip` and `str.upper` are parameters.
pub mod PartNumbers
pub mod Capabilities
use watlowlib.Base.{
  ℕ, List, [], ◌∷◌, ◌++◌, Bool, true, false, ◌&&◌, ◌||◌, not, Option, none, some, ◌==◌, leb,
  bytes_eq, if◌then◌else◌,
}
use watlowlib.Base.Text.{codes, get_text, starts_with, char_in}
use watlowlib.Registry.Pattern.{
  Pattern, one, char, seq, both, bind, give, either, nothing, some_of, match_text,
}

pub data ControllerFamily : Type 0 where
  pm rm st ezzone_limit f4t sd f4p unknown_family : ControllerFamily

-- `class PartNumber` of src/watlowlib/devices/models.py
pub record PartNumber : Type 0 where
  pub raw : List ℕ
  pub family : ControllerFamily
  pub details : List (List ℕ × List ℕ)

-- The bits of `class Capability`.
pub record Capability : Type 0 where
  pub profile : Bool
  pub limit : Bool
  pub has_cooling : Bool
  pub has_modbus : Bool
  pub has_profiles : Bool
  pub has_bluetooth : Bool
  pub has_ethernet : Bool

abbrev pub no_capability : Capability
no_capability = record {
  profile = false;
  limit = false;
  has_cooling = false;
  has_modbus = false;
  has_profiles = false;
  has_bluetooth = false;
  has_ethernet = false;
}

abbrev pub family_prefixes : List (List ℕ × ControllerFamily)
family_prefixes =
    (codes "PM", pm)
    ∷ (codes "RM", rm)
    ∷ (codes "ST", st)
    ∷ (codes "F4T", f4t)
    ∷ (codes "F4P", f4p)
    ∷ (codes "SD", sd)
    ∷ []

abbrev by_prefix : List ℕ → List (List ℕ × ControllerFamily) → ControllerFamily
by_prefix head [] = unknown_family
by_prefix head ((prefix, family) ∷ rest) =
    if starts_with prefix head then family else by_prefix head rest

abbrev pub is_letter : ℕ → Bool
is_letter c = leb b'A' c && leb c b'Z'

abbrev pub is_alnum : ℕ → Bool
is_alnum c = is_letter c || (leb b'0' c && leb c b'9')

abbrev pub is_option : ℕ → Bool
is_option c = is_alnum c || c == b'-'

-- The groups of `_PM_PART_RE`; no options where the group did not take part.
pub record PmGroups : Type 0 where
  pub size : List ℕ
  pub control : List ℕ
  pub power : List ℕ
  pub output_1 : List ℕ
  pub output_2 : List ℕ
  pub options : List ℕ

-- `$`: at the end, or ahead of a newline there.
abbrev pub at_end : Pattern (List ℕ)
at_end [] = ([], []) ∷ []
at_end (c ∷ []) = if c == 10 then ([], c ∷ []) ∷ [] else []
at_end (c ∷ d ∷ text) = []

abbrev pub options_end : Pattern (List ℕ)
options_end =
    both (λ options gap. options)
      (either (both (λ dash options. options) (char b'-') (some_of (one is_option))) nothing) at_end

-- The tail of the pattern, behind the groups of one character.
abbrev pub groups_end : List ℕ → List ℕ → List ℕ → List ℕ → List ℕ → Pattern PmGroups
groups_end size control power output_1 output_2 = bind options_end (λ options. give (record {
  size = size;
  control = control;
  power = power;
  output_1 = output_1;
  output_2 = output_2;
  options = options;
}))

unfoldable pub pm_part_re : Pattern PmGroups
pm_part_re = bind (seq (char b'P') (char b'M')) (λ prefix. bind (one is_alnum) (λ size.
    bind (one is_letter) (λ control. bind (one is_alnum) (λ power. bind (one is_alnum) (λ output_1.
      bind (one is_alnum) (λ output_2. groups_end size control power output_1 output_2))))))

abbrev pm_control_labels : List (List ℕ × List ℕ)
pm_control_labels =
    (codes "C", codes "controller")
    ∷ (codes "R", codes "ramp_soak_controller")
    ∷ (codes "E", codes "integrated_limit_control")
    ∷ (codes "L", codes "limit")
    ∷ (codes "V", codes "process_value_display")
    ∷ (codes "U", codes "dual_loop_controller")
    ∷ []

abbrev pm_power_labels : List (List ℕ × List ℕ)
pm_power_labels = (codes "1", codes "100-240VAC") ∷ (codes "3", codes "24V_AC_DC") ∷ []

-- A detail that is there only if it is known.
abbrev detail_if : List ℕ → Option (List ℕ) → List (List ℕ × List ℕ)
detail_if key none = []
detail_if key (some v) = (key, v) ∷ []

abbrev options_if : List ℕ → List (List ℕ × List ℕ)
options_if [] = []
options_if (c ∷ rest) = (codes "options", c ∷ rest) ∷ []

abbrev pub details_of : Option PmGroups → List (List ℕ × List ℕ)
details_of none = []
details_of (some parts) =
    (codes "case_size", parts.size)
    ∷ (codes "control_type", parts.control)
    ∷ (codes "power_input", parts.power)
    ∷ (codes "output_1", parts.output_1)
    ∷ (codes "output_2", parts.output_2)
    ∷ (options_if parts.options
        ++ (detail_if (codes "control_label") (get_text parts.control pm_control_labels)
            ++ detail_if (codes "power_label") (get_text parts.power pm_power_labels)))

module _ (strip upper : List ℕ → List ℕ) where
  unfoldable pub classify_family : List ℕ → ControllerFamily
  classify_family part_number = by_prefix (upper (strip part_number)) family_prefixes

  -- `_decode_pm`
  unfoldable pub decode_pm : List ℕ → List (List ℕ × List ℕ)
  decode_pm raw = details_of (match_text pm_part_re (upper (strip raw)))

  abbrev pub decode_as : List ℕ → ControllerFamily → PartNumber
  decode_as raw pm = record { raw = raw; family = pm; details = decode_pm raw }
  decode_as raw family = record { raw = raw; family = family; details = [] }

  unfoldable pub decode_part_number : List ℕ → PartNumber
  decode_part_number raw = decode_as raw (classify_family raw)

abbrev pub is_pm : ControllerFamily → Bool
is_pm pm = true
is_pm _ = false

-- `part.details.get(key, "")`
abbrev pub detail : PartNumber → List ℕ → List ℕ
detail part key = elim (get_text key part.details) [ none ↦ [] | some v ↦ v ]

abbrev first_char : List ℕ → Option ℕ
first_char [] = none
first_char (c ∷ rest) = some c

unfoldable pub pm_comms_code : PartNumber → Option ℕ
pm_comms_code part = if is_pm part.family then first_char (detail part (codes "options")) else none

-- `code is not None and code in …`
abbrev pub code_in : Option ℕ → List ℕ → Bool
code_in none set = false
code_in (some c) set = char_in c set

abbrev pub pm_comms_modbus : List ℕ
pm_comms_modbus = codes "12BDEF"

abbrev pub pm_comms_bluetooth : List ℕ
pm_comms_bluetooth = codes "BEFGHJK"

abbrev pub pm_comms_ethernet : List ℕ
pm_comms_ethernet = codes "3G"

-- `_PM_CONTROL_PROFILES`, whose members are single characters.
abbrev pub pm_control_profiles : List (List ℕ × Bool)
pm_control_profiles =
    (codes "R", true)
    ∷ (codes "B", true)
    ∷ (codes "E", true)
    ∷ (codes "N", true)
    ∷ (codes "T", true)
    ∷ []

unfoldable pub pm_comms_supports_modbus : PartNumber → Bool
unfolding pm_comms_code
pm_comms_supports_modbus part = code_in (pm_comms_code part) pm_comms_modbus

unfoldable pub capabilities_for_family : ControllerFamily → Capability
capabilities_for_family pm = no_capability
capabilities_for_family rm = record no_capability { profile = true; has_profiles = true }
capabilities_for_family st = no_capability
capabilities_for_family ezzone_limit = record no_capability { limit = true }
capabilities_for_family f4t = record no_capability { profile = true; has_profiles = true }
capabilities_for_family sd = no_capability
capabilities_for_family f4p = no_capability
capabilities_for_family unknown_family = no_capability

abbrev non_empty : List ℕ → Bool
non_empty [] = false
non_empty (c ∷ rest) = true

abbrev is_some : Option Bool → Bool
is_some none = false
is_some (some b) = true

-- Each `caps |= …` of the code, bit by bit.
unfoldable pub capabilities_for_part_number : PartNumber → Capability
unfolding pm_comms_code
capabilities_for_part_number part =
    let caps = capabilities_for_family part.family in
    let output_2 = detail part (codes "output_2") in
    let profiles = is_some (get_text (detail part (codes "control_type")) pm_control_profiles) in
    let code = pm_comms_code part in
    if not (is_pm part.family) then caps else record caps {
      has_cooling = caps.has_cooling || (non_empty output_2 && not (bytes_eq output_2 (codes "A")));
      has_profiles = caps.has_profiles || profiles;
      profile = caps.profile || profiles;
      has_modbus = caps.has_modbus || code_in code pm_comms_modbus;
      has_bluetooth = caps.has_bluetooth || code_in code pm_comms_bluetooth;
      has_ethernet = caps.has_ethernet || code_in code pm_comms_ethernet;
    }

-- `_PM_LOOPS`, whose keys are pairs of single characters.
abbrev pm_loops : List (List ℕ × ℕ)
pm_loops =
    (codes "3C", 1)
    ∷ (codes "3R", 1)
    ∷ (codes "3E", 1)
    ∷ (codes "3L", 1)
    ∷ (codes "3V", 1)
    ∷ (codes "6U", 2)
    ∷ (codes "8U", 2)
    ∷ (codes "9U", 2)
    ∷ []

-- A pair of characters as a key; no other pair of strings is one.
abbrev loops_key : List ℕ → List ℕ → Option (List ℕ)
loops_key (c ∷ []) (d ∷ []) = some (c ∷ d ∷ [])
loops_key _ _ = none

abbrev loops_of : Option (List ℕ) → ℕ
loops_of none = 1
loops_of (some key) = elim (get_text key pm_loops) [ none ↦ 1 | some n ↦ n ]

unfoldable pub default_loops : PartNumber → ℕ
default_loops part =
    if is_pm part.family
    then loops_of (loops_key (detail part (codes "case_size")) (detail part (codes "control_type")))
    else 1
