-- ===== src/Models/Truth.antt =====
-- Python's `bool(value)`. A float is false when it is zero, which `is_zero` tells.
use oqlos.Base.{zero, Bool, true, false, not, ◌==◌}
use oqlos.Base.Int.{pos}
use oqlos.Models.{Value, null, bool, int, float, str, dict, end, list, no_more}

module _ {F : Type 0} (is_zero : F → Bool) where
  unfoldable pub truthy : Value F → Bool
  truthy null = false
  truthy (bool b) = b
  truthy (int (pos zero)) = false
  truthy (int _) = true
  truthy (float x) = not (is_zero x)
  truthy (str s) = not (s == "")
  truthy (dict end) = false
  truthy (dict _) = true
  truthy (list no_more) = false
  truthy (list _) = true
