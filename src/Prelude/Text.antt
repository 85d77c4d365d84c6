-- ===== src/Prelude/Text.antt =====
-- Names, ids and reason codes are whole texts that the program compares and never walks.
use Prim.Native.String.{String}
use mathlib.Core.Bool.{Bool, false, ◌||◌}
use mathlib.Core.List.{List, [], ◌∷◌}
pub use text.Mathlib.Text.{◌==◌ as str_eq}
pub use text.Mathlib.TextEquality.{eq_iff}

-- `s in xs`
abbrev pub mem : String → List String → Bool
mem s [] = false
mem s (x ∷ xs) = str_eq x s || mem s xs
