-- ===== src/Base/Dict.antt =====
-- Dicts in insertion order. Proofs elsewhere go by the laws.
use mathlib.Core.Path.{◌≡◌, refl}
use mathlib.Core.Bool.{true, ◌||◌}
use mathlib.Core.Option.{Option, none, some}
use mathlib.Core.List.{List, [], ◌∷◌}
use native.Mathlib.Omega.{arith}
use pi_homelab.Base.Equality.{Eq, ◌==◌, contains, if◌then◌else◌}

abbrev pub Dict {ℓ κ} : Type ℓ → Type κ → Type (ℓ ⊔ κ)
Dict K V = List (K × V)

abbrev pub keys {ℓ κ} : {K : Type ℓ} {V : Type κ} → Dict K V → List K
keys [] = []
keys ((k, v) ∷ d) = k ∷ keys d

module _ {ℓ κ} {K : Type ℓ} {V : Type κ} ⦃e : Eq K⦄ where
  -- `d.get(k)`
  unfoldable pub lookup : K → Dict K V → Option V
  lookup k [] = none
  lookup k ((j, v) ∷ d) = if k == j then some v else lookup k d

  -- `d[k] = v`
  unfoldable pub insert : K → V → Dict K V → Dict K V
  insert k v [] = (k, v) ∷ []
  insert k v ((j, w) ∷ d) = if k == j then (k, v) ∷ d else (j, w) ∷ insert k v d

  -- `d.pop(k, None)`. Every entry of the key goes; a real dict has at most one.
  unfoldable pub erase : K → Dict K V → Dict K V
  erase k [] = []
  erase k ((j, w) ∷ d) = let rest = erase k d in if k == j then rest else (j, w) ∷ rest

  pub lookup-insert :
      (j k : K) (v : V) (d : Dict K V)
      → lookup j (insert k v d) ≡ (if j == k then some v else lookup j d)
  unfolding insert lookup
  lookup-insert j k v [] = ground arith
  lookup-insert j k v ((i, w) ∷ d) = ground (arith, lookup-insert j k v d)

  pub lookup-erase :
      (j k : K) (d : Dict K V) → lookup j (erase k d) ≡ (if j == k then none else lookup j d)
  unfolding erase lookup
  lookup-erase j k [] = ground arith
  lookup-erase j k ((i, w) ∷ d) = ground (arith, lookup-erase j k d)

  pub contains-keys-insert :
      (j k : K) (v : V) (d : Dict K V)
      → contains (keys (insert k v d)) j ≡ (j == k || contains (keys d) j)
  unfolding insert
  contains-keys-insert j k v [] = refl
  contains-keys-insert j k v ((i, w) ∷ d) = ground (arith, contains-keys-insert j k v d)

  -- A key that is there keeps its place.
  pub keys-insert_present :
      (k : K) (v : V) (d : Dict K V) → contains (keys d) k ≡ true → keys (insert k v d) ≡ keys d
  unfolding insert
  keys-insert_present k v [] m = cc
  keys-insert_present k v ((j, w) ∷ d) m = ground (arith, keys-insert_present k v d)

  pub contains-keys_of_lookup :
      (k : K) (v : V) (d : Dict K V) → lookup k d ≡ some v → contains (keys d) k ≡ true
  unfolding lookup
  contains-keys_of_lookup k v [] h = cc
  contains-keys_of_lookup k v ((j, w) ∷ d) h = ground (arith, contains-keys_of_lookup k v d)
