-- ===== src/Base/Texts.antt =====
-- Python's methods on texts.
use Prim.Native.Char.{code}
use Prim.Native.Nat.{ℕ, zero, suc, ◌-◌}
use Prim.Native.String.{String, ◌++◌ as append_text}
use mathlib.Core.Bool.{Bool, true, false, ◌&&◌, ◌||◌}
use mathlib.Core.List.{List, [], ◌∷◌}
use text.Mathlib.Text.{◌==◌}
use oqlos.Base.Tests.{nat_eq, leb, if◌then◌else◌}

abbrev pub text_length : String → ℕ
text_length String.[] = 0
text_length (String.◌∷◌ c s) = suc (text_length s)

abbrev pub starts_with : String → String → Bool
starts_with String.[] s = true
starts_with (String.◌∷◌ c p) String.[] = false
starts_with (String.◌∷◌ c p) (String.◌∷◌ d s) = nat_eq (code c) (code d) && starts_with p s

-- `s.replace(old, new)` for an `old` that is not empty; the first `skip` characters belong to the
-- occurrence before.
unfoldable pub replace_from : ℕ → String → String → String → String
replace_from skip old new String.[] = String.[]
replace_from (suc skip) old new (String.◌∷◌ c s) = replace_from skip old new s
replace_from zero old new (String.◌∷◌ c s) = elim (starts_with old (String.◌∷◌ c s)) [
  | true ↦ append_text new (replace_from (text_length old - 1) old new s)
  | false ↦ String.◌∷◌ c (replace_from zero old new s)
]

-- Replacing an empty text changes nothing here: the program replaces it by itself.
unfoldable pub replace : String → String → String → String
unfolding replace_from
replace s old new = if old == "" then s else replace_from zero old new s

-- Python's white space, by code points
abbrev is_space : ℕ → Bool
is_space n =
    (leb 9 n && leb n 13)
    || ((leb 28 n && leb n 32)
        || (nat_eq n 133
            || (nat_eq n 160
                || (nat_eq n 5760
                    || ((leb 8192 n && leb n 8202)
                        || (nat_eq n 8232
                            || (nat_eq n 8233
                                || (nat_eq n 8239 || (nat_eq n 8287 || nat_eq n 12288)))))))))

unfoldable pub lstrip : String → String
lstrip String.[] = String.[]
lstrip (String.◌∷◌ c s) = let rest = lstrip s in if is_space (code c) then rest else String.◌∷◌ c s

unfoldable pub rstrip : String → String
rstrip String.[] = String.[]
rstrip (String.◌∷◌ c s) =
    let rest = rstrip s in if rest == "" && is_space (code c) then "" else String.◌∷◌ c rest

-- `s.strip()`
unfoldable pub strip : String → String
unfolding lstrip rstrip
strip s = rstrip (lstrip s)

abbrev onto_first : String → List String → List String
onto_first c [] = c ∷ []
onto_first c (s ∷ ss) = append_text c s ∷ ss

-- `s.split(",")`
unfoldable pub split_commas : String → List String
split_commas String.[] = "" ∷ []
split_commas (String.◌∷◌ c s) =
    let rest = split_commas s in
    if nat_eq (code c) 44 then "" ∷ rest else onto_first (String.◌∷◌ c String.[]) rest
