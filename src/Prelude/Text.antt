-- ===== src/Prelude/Text.antt =====
-- The parts of Go's package strings that the program uses, over the native text.
use Prim.Native.Nat.{ℕ}
use Prim.Native.Char.{Char, code}
use Prim.Native.String.{String}
use mathlib.Core.Path.{◌≡◌}
use mathlib.Core.Bool.{Bool, true, false, ◌||◌}
use mathlib.Core.List.{List, [], ◌∷◌}
use mathlib.Core.Option.{Option, none, some}
use native.Mathlib.Omega.{arith}
use text.Mathlib.Text.{◌==◌}
use text.Mathlib.TextEquality.{eq_iff}
use osscdp.Prelude.Tests.{eqb, if◌then◌else◌, is_some}

-- The code points of a text.
abbrev pub codes : String → List ℕ
codes String.[] = []
codes (String.◌∷◌ c s) = code c ∷ codes s

abbrev pub is_empty : String → Bool
is_empty String.[] = true
is_empty (String.◌∷◌ c s) = false

-- strings.CutPrefix(s, prefix): what follows the prefix, if `s` begins with it.
unfoldable pub cut_prefix : String → String → Option String
cut_prefix s String.[] = some s
cut_prefix String.[] (String.◌∷◌ d p) = none
cut_prefix (String.◌∷◌ c s) (String.◌∷◌ d p) =
    let rest = cut_prefix s p in if eqb (code c) (code d) then rest else none

-- strings.HasPrefix(s, prefix)
unfoldable pub has_prefix : String → String → Bool
unfolding cut_prefix
has_prefix s p = is_some (cut_prefix s p)

-- strings.Contains(s, sub)
unfoldable pub contains : String → String → Bool
unfolding has_prefix
contains String.[] sub = has_prefix "" sub
contains (String.◌∷◌ c s) sub = has_prefix (String.◌∷◌ c s) sub || contains s sub

push_char : Char → List String → List String
push_char c [] = String.◌∷◌ c "" ∷ []
push_char c (part ∷ parts) = String.◌∷◌ c part ∷ parts

-- strings.Split(s, "."): never empty.
unfoldable pub split_dots : String → List String
unfolding push_char
split_dots String.[] = "" ∷ []
split_dots (String.◌∷◌ c s) =
    let rest = split_dots s in if eqb (code c) b'.' then "" ∷ rest else push_char c rest

pub eq-empty : (s op : String) → is_empty s ≡ true → ("" == op) ≡ false → (s == op) ≡ false
eq-empty String.[] op h k = k
eq-empty (String.◌∷◌ c s) op h k = absurd (ground arith)

-- A text is equal to one constant only.
pub eq-other : (s a b : String) → (s == a) ≡ true → (a == b) ≡ false → (s == b) ≡ false
eq-other s a b h k = rw ((eq_iff s a).0 h) k
