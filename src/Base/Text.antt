-- ===== src/Base/Text.antt =====
-- Texts as lists of code points, with look-up of a text in a table.
use Prim.Native.Nat.{ℕ}
use Prim.Native.Char.{code}
use Prim.Native.String.{String}
use mathlib.Core.Bool.{Bool, true, false, ◌&&◌}
use mathlib.Core.Option.{Option, none, some}
use mathlib.Core.List.{List, [], ◌∷◌}
use watlowlib.Base.Tests.{◌==◌, if◌then◌else◌}
use watlowlib.Base.Lists.{bytes_eq}

abbrev pub codes : String → List ℕ
codes String.[] = []
codes (String.◌∷◌ c s) = code c ∷ codes s

-- `text.startswith(prefix)`
abbrev pub starts_with : List ℕ → List ℕ → Bool
starts_with [] cs = true
starts_with (p ∷ ps) [] = false
starts_with (p ∷ ps) (c ∷ cs) = p == c && starts_with ps cs

-- `c in "…"`, of a character.
abbrev pub char_in : ℕ → List ℕ → Bool
char_in c [] = false
char_in c (d ∷ ds) = if c == d then true else char_in c ds

-- `table.get(key)`
abbrev pub get_text {ℓ} : {A : Type ℓ} → List ℕ → List (List ℕ × A) → Option A
get_text key [] = none
get_text key ((k, a) ∷ rest) = if bytes_eq k key then some a else get_text key rest
