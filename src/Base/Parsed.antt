-- ===== src/Base/Parsed.antt =====
-- What converting a Python value to a number gives, with `int(…)` or `float(…)`.

pub data Parsed (A : Type 0) : Type 0 where
  number : A → Parsed A
  -- TypeError or ValueError
  invalid : Parsed A
  -- OverflowError
  overflow : Parsed A
