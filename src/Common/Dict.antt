-- ===== src/Common/Dict.antt =====
-- `Map<string, V>` of the runtime: an association list in insertion order. `set` of a key that
-- is present keeps its place, as the language prescribes.
use Prim.Native.String.{String}
use mathlib.Core.Path.{◌≡◌, refl}
use mathlib.Core.Bool.{Bool, true, false}
use mathlib.Core.Logic.{inl, inr}
use mathlib.Core.Option.{Option, none, some}
use mathlib.Core.List.{List, [], ◌∷◌, map}
use native.Mathlib.Omega.{arith}
use text.Mathlib.Text.{◌==◌ as str_eq}
use text.Mathlib.TextEquality.{eq_iff}
use unit_ai_specialists.Common.Tests.{if◌then◌else◌, defined, Bool-cases}

abbrev pub Dict {ℓ} : Type ℓ → Type ℓ
Dict V = List (String × V)

module _ {ℓ} {V : Type ℓ} where
  unfoldable pub get : String → Dict V → Option V
  get k [] = none
  get k ((j, v) ∷ m) = if str_eq j k then some v else get k m

  unfoldable pub set : String → V → Dict V → Dict V
  set k v [] = (k, v) ∷ []
  set k v ((j, w) ∷ m) = if str_eq j k then (j, v) ∷ m else (j, w) ∷ set k v m

  -- Every entry of the key goes; a map that `set` built has one at most.
  unfoldable pub delete : String → Dict V → Dict V
  delete k [] = []
  delete k ((j, w) ∷ m) = let rest = delete k m in if str_eq j k then rest else (j, w) ∷ rest

  abbrev pub has : String → Dict V → Bool
  has k m = defined (get k m)

  abbrev pub values : Dict V → List V
  values m = map (λ e. e.1) m

  pub get-set :
      (j k : String) (v : V) (m : Dict V)
      → get j (set k v m) ≡ (if str_eq k j then some v else get j m)
  unfolding get set
  get-set j k v [] = refl
  get-set j k v ((i, w) ∷ m) = ground (arith, eq_iff k j, eq_iff i k, eq_iff i j, get-set j k v m)

  pub get-delete :
      (j k : String) (m : Dict V) → get j (delete k m) ≡ (if str_eq k j then none else get j m)
  unfolding get delete
  get-delete j k [] = ground arith
  get-delete j k ((i, w) ∷ m) = ground (arith, eq_iff k j, eq_iff i k, eq_iff i j, get-delete j k m)

  pub has-set :
      (j k : String) (v : V) (m : Dict V)
      → has j (set k v m) ≡ (if str_eq k j then true else has j m)
  has-set j k v m = elim (Bool-cases (str_eq k j)) [
    | inl e ↦ rw (get-set, e) refl
    | inr e ↦ rw (get-set, e) refl
  ]

  pub has-delete :
      (j k : String) (m : Dict V) → has j (delete k m) ≡ (if str_eq k j then false else has j m)
  has-delete j k m = elim (Bool-cases (str_eq k j)) [
    | inl e ↦ rw (get-delete, e) refl
    | inr e ↦ rw (get-delete, e) refl
  ]
