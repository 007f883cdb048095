-- ===== src/Runtime/Text.antt =====
-- Go's strings.TrimSpace, with the white space of package unicode.
use osscdp.Prelude.{ℕ, String, Bool, ◌||◌, ◌&&◌, leb, eqb, if◌then◌else◌, is_empty}
use Prim.Native.Char.{code}

abbrev between : ℕ → ℕ → ℕ → Bool
between a b n = leb a n && leb n b

-- unicode.IsSpace
abbrev is_space : ℕ → Bool
is_space n =
    between 9 13 n
    || (eqb n 32
        || (eqb n 133
            || (eqb n 160
                || (eqb n 5760
                    || (between 8192 8202 n
                        || (eqb n 8232
                            || (eqb n 8233 || (eqb n 8239 || (eqb n 8287 || eqb n 12288)))))))))

unfoldable pub trim_left : String → String
trim_left String.[] = ""
trim_left (String.◌∷◌ c s) =
    let rest = trim_left s in if is_space (code c) then rest else String.◌∷◌ c s

unfoldable pub trim_right : String → String
trim_right String.[] = ""
trim_right (String.◌∷◌ c s) =
    let rest = trim_right s in if is_space (code c) && is_empty rest then "" else String.◌∷◌ c rest

unfoldable pub trim_space : String → String
unfolding trim_left trim_right
trim_space s = trim_right (trim_left s)
