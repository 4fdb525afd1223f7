-- ===== src/Oql/Interpolate.antt =====
-- `VariableStore.interpolate` of packages/oqlos-core/src/oqlos/core/base.py: first every `${name}`,
-- then every `$name`, is replaced by the variable's text, where there is such a variable.
use oqlos.Base.{
  ℕ, String, Bool, true, false, ◌&&◌, ◌||◌, Option, ◌==◌, leb, nat_eq, if◌then◌else◌, get_or,
}
use Prim.Native.Char.{Char, code}
use Prim.Native.String.{◌++◌ as append_text}

-- What has been read since the last `$` that is not settled.
pub data Scan : Type 0 where
  plain dollar : Scan
  name : String → Scan

abbrev is_char : ℕ → Char → Bool
is_char n c = nat_eq (code c) n

abbrev single : Char → String
single c = String.◌∷◌ c String.[]

-- `look_up` gives the text of a variable, `none` where it is missing or None
abbrev replaced : (String → Option String) → String → String → String
replaced look_up key whole = get_or (look_up key) whole

-- `\$\{([^}]+)\}`
unfoldable pub replace_braced : (String → Option String) → Scan → String → String
replace_braced look_up plain String.[] = String.[]
replace_braced look_up dollar String.[] = "$"
replace_braced look_up (name key) String.[] = append_text "${" key
replace_braced look_up plain (String.◌∷◌ c s) = elim (is_char b'$' c) [
  | true ↦ replace_braced look_up dollar s
  | false ↦ String.◌∷◌ c (replace_braced look_up plain s)
]
replace_braced look_up dollar (String.◌∷◌ c s) = elim (is_char b'{' c) [
  | true ↦ replace_braced look_up (name "") s
  | false ↦ elim (is_char b'$' c) [
    | true ↦ append_text "$" (replace_braced look_up dollar s)
    | false ↦ append_text "$" (String.◌∷◌ c (replace_braced look_up plain s))
  ]
]
replace_braced look_up (name key) (String.◌∷◌ c s) = elim (is_char b'}' c) [
  | false ↦ replace_braced look_up (name (append_text key (single c))) s
  | true ↦
      append_text
        (if key == "" then "${}" else replaced look_up key (append_text "${" (append_text key "}")))
        (replace_braced look_up plain s)
]

abbrev within : ℕ → ℕ → Char → Bool
within low high c = leb low (code c) && leb (code c) high

abbrev starts_name : Char → Bool
starts_name c = within b'A' b'Z' c || within b'a' b'z' c || is_char b'_' c

abbrev word_value : (String → Option String) → String → String
word_value look_up key = replaced look_up key (append_text "$" key)

-- `\$([A-Za-z_]\w*)`; `is_word` is what `\w` matches
unfoldable pub replace_words : (Char → Bool) → (String → Option String) → Scan → String → String
replace_words is_word look_up plain String.[] = String.[]
replace_words is_word look_up dollar String.[] = "$"
replace_words is_word look_up (name key) String.[] = word_value look_up key
replace_words is_word look_up plain (String.◌∷◌ c s) = elim (is_char b'$' c) [
  | true ↦ replace_words is_word look_up dollar s
  | false ↦ String.◌∷◌ c (replace_words is_word look_up plain s)
]
replace_words is_word look_up dollar (String.◌∷◌ c s) = elim (starts_name c) [
  | true ↦ replace_words is_word look_up (name (single c)) s
  | false ↦ elim (is_char b'$' c) [
    | true ↦ append_text "$" (replace_words is_word look_up dollar s)
    | false ↦ append_text "$" (String.◌∷◌ c (replace_words is_word look_up plain s))
  ]
]
replace_words is_word look_up (name key) (String.◌∷◌ c s) = elim (is_word c) [
  | true ↦ replace_words is_word look_up (name (append_text key (single c))) s
  | false ↦ append_text (word_value look_up key) (elim (is_char b'$' c) [
    | true ↦ replace_words is_word look_up dollar s
    | false ↦ String.◌∷◌ c (replace_words is_word look_up plain s)
  ])
]

unfoldable pub interpolate : (Char → Bool) → (String → Option String) → String → String
unfolding replace_braced replace_words
interpolate is_word look_up text =
    replace_words is_word look_up plain (replace_braced look_up plain text)
