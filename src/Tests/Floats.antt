-- ===== src/Tests/Floats.antt =====
-- Whole numbers in place of floats, and a runtime over them.
use oqlos.Base.{
  ℕ, ◌+◌, ◌-◌, ◌*◌, ◌/◌, String, true, Option, none, some, [], ◌∷◌, ◌==◌, ltb, leb, nat_eq,
  if◌then◌else◌, one_of, run,
}
use oqlos.Base.Int.{pos, at_least}
use oqlos.Base.Float.{Float}
use oqlos.Models.{Value, bool, str}
use oqlos.Oql.World.{World, Mode, Runtime}
use oqlos.Oql.Variables.{root}

abbrev pub whole : Float ℕ
whole = record {
  of_int = λ n. at_least 0 n;
  decimal = λ m places. at_least 0 m;
  add = λ x y. x + y;
  sub = λ x y. x - y;
  mul = λ x y. x * y;
  div = λ x y. x / y;
  lt = ltb;
  le = leb;
  eq = nat_eq;
  trunc = λ x. some (pos x);
  ceil = λ x. some (pos x);
  round = λ x. some (pos x);
}

abbrev pub text_of : Value ℕ → String
text_of (str s) = s
text_of _ = "?"

abbrev pub number_text : String → Option String
number_text text = if one_of text ("5" ∷ "50" ∷ []) then some text else none

abbrev pub runtime : Mode → Runtime ℕ
runtime mode = record {
  mode = mode;
  auto_mock = true;
  skip_waits = true;
  floats = whole;
  strip = λ text. text;
  lower = λ text. text;
  upper = λ text. text;
  digits = λ text. none;
  sum = λ xs. run (λ (x y : ℕ). x + y) 0 xs;
  text = text_of;
  short = λ x. "?";
  search_number = number_text;
  parse_float = λ text. if text == "5" then some 5 else if text == "50" then some 50 else none;
  is_word = λ c. true;
  words = λ text. text ∷ [];
  unit_of = λ text. "";
  window_of = λ text. none;
  split_condition = λ text. text ∷ [];
  clause_of = λ text. none;
  clock = λ n. n;
  readings = λ n. some (("AI01", 7) ∷ []);
  answers = λ n. some (bool true);
  flow_full_scale = 10;
}

abbrev pub at_start : World ℕ
at_start = record {
  vars = root [];
  sensor_values = [];
  thresholds = [];
  evaluated = [];
  warnings = [];
  ticks = 0;
  reads = 0;
  calls = [];
  sleeps = [];
}
