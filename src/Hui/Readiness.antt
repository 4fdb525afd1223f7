-- ===== src/Hui/Readiness.antt =====
-- The preflight of oqlos/hardware/hui_readiness.py: which plugins a command needs, and what it
-- answers before it touches the hardware.
pub mod Report
pub mod Preflight
pub mod Agree
use oqlos.Base.{
  ℕ, zero, suc, String, Bool, true, false, not, ◌||◌, Option, none, some, List, [], ◌∷◌, ◌++◌, map,
  ◌==◌, if◌then◌else◌, any, keep,
}
use oqlos.Power.{PowerActuationFailure, power_actuation_failure}
use oqlos.Hui.Gateway.{Gateway, Probe, checked, invalid, type_error, failed}

pub record Check : Type 0 where
  pub ok : Bool
  pub plugin_id : String
  pub status : String
  pub message : String

-- `text[:n]`, in characters
unfoldable pub take_text : ℕ → String → String
take_text zero s = ""
take_text (suc n) String.[] = ""
take_text (suc n) (String.◌∷◌ c s) = String.◌∷◌ c (take_text n s)

-- `a or b` on texts
abbrev or_text : String → String → String
or_text a b = if a == "" then b else a

-- `_public_readiness` of a dict
unfoldable pub public_readiness : Bool → String → String → String → Check
unfolding take_text
public_readiness ok status message plugin_id = record {
  ok = ok;
  plugin_id = plugin_id;
  status = or_text status (if ok then "ok" else "unknown");
  message = take_text 256 message;
}

abbrev invalid_response : String → Check
invalid_response plugin_id = record {
  ok = false;
  plugin_id = plugin_id;
  status = "unknown";
  message = "Plugin readiness returned an invalid response";
}

abbrev failed_check : String → Check
failed_check plugin_id = record {
  ok = false;
  plugin_id = plugin_id;
  status = "error";
  message = "Plugin readiness check failed";
}

-- the last attempt: without `reconnect=`, any exception gives the failed check
read_again : String → Probe → Check
read_again plugin_id (checked ok status message) = public_readiness ok status message plugin_id
read_again plugin_id invalid = invalid_response plugin_id
read_again plugin_id type_error = failed_check plugin_id
read_again plugin_id failed = failed_check plugin_id

read_fresh : String → (String → Bool → Probe) → Probe → Check
unfolding read_again
read_fresh plugin_id readiness (checked ok status message) =
    public_readiness ok status message plugin_id
read_fresh plugin_id readiness invalid = invalid_response plugin_id
read_fresh plugin_id readiness type_error = read_again plugin_id (readiness plugin_id true)
read_fresh plugin_id readiness failed = failed_check plugin_id

read_uncached : {F : Type 0} → Gateway F → String → Check
unfolding read_fresh
read_uncached g plugin_id = elim g.plugin_readiness [
  | none ↦ invalid_response plugin_id
  | some readiness ↦ read_fresh plugin_id readiness (readiness plugin_id false)
]

-- a cached check that raises falls through to the plain one
read_cached : {F : Type 0} → Gateway F → String → Probe → Check
unfolding read_uncached
read_cached g plugin_id (checked ok status message) = public_readiness ok status message plugin_id
read_cached g plugin_id invalid = invalid_response plugin_id
read_cached g plugin_id _ = read_uncached g plugin_id

-- `_read_plugin_without_reconnect`
unfoldable pub read_plugin : {F : Type 0} → Gateway F → String → Check
unfolding read_cached public_readiness
read_plugin g plugin_id = elim g.plugin_cached_readiness [
  | none ↦ read_uncached g plugin_id
  | some cached_readiness ↦ read_cached g plugin_id (cached_readiness plugin_id)
]

abbrev pub mem : String → List String → Bool
mem x [] = false
mem x (y ∷ ys) = x == y || mem x ys

-- `dict.fromkeys`: the first occurrence of each id
unfoldable pub distinct : List String → List String → List String
distinct seen [] = []
distinct seen (x ∷ xs) =
    let rest = distinct (if mem x seen then seen else x ∷ seen) xs in
    if mem x seen then rest else x ∷ rest

-- What a refused command answers: the power failure, or the plugins that are required and those
-- of them that are not available.
pub data Failure : Type 0 where
  power_blocked : PowerActuationFailure → List String → Failure
  unavailable : List String → List Check → Failure

abbrev pub is_empty : {A : Type 0} → List A → Bool
is_empty [] = true
is_empty (_ ∷ _) = false

-- `required_plugins_failure` with `reconnect=False`. The ids of plugins are texts without
-- surrounding blanks, so `strip` is left out, and empty ones are dropped.
module _ {F : Type 0} (g : Gateway F) where
  abbrev read_all : List String → List Check
  read_all ids = map (read_plugin g) ids

  abbrev any_ok : List Check → Bool
  any_ok checks = any (λ (c : Check). c.ok) checks

  -- after the power gate
  unavailable_plugins : List String → Option Failure
  unfolding read_plugin
  unavailable_plugins required =
      let valve_ids = keep (λ id. mem id g.valve_controllers) required in
      let strict_ids = keep (λ id. not (mem id valve_ids)) required in
      let strict_missing = keep (λ (c : Check). not c.ok) (read_all strict_ids) in
      let valve_ready = if is_empty valve_ids then true else any_ok (read_all valve_ids) in
      let missing : List Check =
        if valve_ready then strict_missing else read_all valve_ids ++ strict_missing in
      if is_empty missing then none else some (unavailable required missing)

  unfoldable pub required_plugins_failure : List String → String → Bool → Option Failure
  unfolding distinct unavailable_plugins power_actuation_failure
  required_plugins_failure plugin_ids command check_power =
      let required = distinct [] (keep (λ id. not (id == "")) plugin_ids) in
      let blocked =
        if check_power then power_actuation_failure g.is_real g.power command false else none in
      let after_power : Option Failure = elim blocked [
        | none ↦ unavailable_plugins required
        | some failure ↦ some (power_blocked failure required)
      ] in
      if is_empty required then none else if not g.is_real then none else after_power
