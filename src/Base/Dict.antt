-- ===== src/Base/Dict.antt =====
-- Python's `dict` with string keys: entries in the order of their first insertion.
use mathlib.Core.Path.{◌≡◌, refl, ◌∙◌}
use mathlib.Core.Logic.{inl, inr}
use mathlib.Core.Option.{Option, none, some}
use mathlib.Core.List.{List, [], ◌∷◌}
use Prim.Native.String.{String}
use native.Mathlib.Omega.{arith}
use text.Mathlib.Text.{◌==◌}
use text.Mathlib.TextEquality.{eq_iff}
use oqlos.Base.Tests.{if◌then◌else◌, Bool-cases, or_else}

abbrev pub Dict {ℓ} : Type ℓ → Type ℓ
Dict V = List (String × V)

module _ {ℓ} {V : Type ℓ} where
  -- d.get(k)
  unfoldable pub get : Dict V → String → Option V
  get [] k = none
  get ((j, v) ∷ d) k = if j == k then some v else get d k

  -- d[k] = v
  unfoldable pub set : Dict V → String → V → Dict V
  set [] k v = (k, v) ∷ []
  set ((j, w) ∷ d) k v = if j == k then (j, v) ∷ d else (j, w) ∷ set d k v

  -- d.keys()
  unfoldable pub keys : Dict V → List String
  keys [] = []
  keys ((j, _) ∷ d) = j ∷ keys d

  -- d.values()
  unfoldable pub values : Dict V → List V
  values [] = []
  values ((_, v) ∷ d) = v ∷ values d

  -- d.update(other)
  unfoldable pub update : Dict V → Dict V → Dict V
  unfolding set
  update d [] = d
  update d ((k, v) ∷ rest) = update (set d k v) rest

  -- what every `dict` satisfies: no key has two entries
  abbrev pub HasDistinctKeys : Dict V → Type ℓ
  HasDistinctKeys [] = Unit {ℓ}
  HasDistinctKeys ((k, _) ∷ d) = (get d k ≡ none) × HasDistinctKeys d

  pub get-set :
      (d : Dict V) (k j : String) (v : V) → get (set d k v) j ≡ (if k == j then some v else get d j)
  unfolding get set
  get-set [] k j v = refl
  get-set ((i, w) ∷ d) k j v = ground (arith, eq_iff i k, eq_iff i j, eq_iff k j, get-set d k j v)

  HasDistinctKeys-set :
      (d : Dict V) (k : String) (v : V) → HasDistinctKeys d → HasDistinctKeys (set d k v)
  unfolding set get
  HasDistinctKeys-set [] k v h = (refl, tt)
  HasDistinctKeys-set ((j, w) ∷ d) k v h = elim (Bool-cases (j == k)) [
    | inl same ↦ rw same h
    | inr other ↦ rw other (
      get-set d k j v ∙ ground (arith, other, h.0, eq_iff k j, eq_iff j k),
      HasDistinctKeys-set d k v h.1,
    )
  ]

  pub HasDistinctKeys-update :
      (d other : Dict V) → HasDistinctKeys d → HasDistinctKeys (update d other)
  unfolding update
  HasDistinctKeys-update d [] h = h
  HasDistinctKeys-update d ((k, v) ∷ rest) h =
      HasDistinctKeys-update (set d k v) rest (HasDistinctKeys-set d k v h)

  pub get-update :
      (d other : Dict V) (k : String)
      → HasDistinctKeys other
      → get (update d other) k ≡ or_else (get other k) (get d k)
  unfolding update get
  get-update d [] k h = refl
  get-update d ((j, v) ∷ rest) k h =
      get-update (set d j v) rest k h.1 ∙ ground (arith, get-set d j k v, eq_iff j k, h.0)
