-- ===== src/Base/Dict.antt =====
-- QHash, QMap and std::unordered_map as association lists; clients go by the laws. The entries are
-- in the order of insertion. The containers have other orders, so a statement on a whole
-- dictionary is one on its contents there.
use mathlib.Core.Path.{◌≡◌, refl}
use mathlib.Core.Bool.{Bool, false}
use mathlib.Core.Logic.{◌⊎◌}
use mathlib.Core.Option.{Option, none, some}
use mathlib.Core.List.{List, [], ◌∷◌}
use native.Mathlib.Omega.{arith}
use harbour_sailfishconnect.Base.Tests.{Eq, ◌==◌, if◌then◌else◌, is_some}

abbrev pub Dict {ℓ κ} : Type ℓ → Type κ → Type (ℓ ⊔ κ)
Dict K V = List (K × V)

unfoldable pub keys {ℓ κ} : {K : Type ℓ} {V : Type κ} → Dict K V → List K
keys [] = []
keys ((k, v) ∷ d) = k ∷ keys d

unfoldable pub values {ℓ κ} : {K : Type ℓ} {V : Type κ} → Dict K V → List V
values [] = []
values ((k, v) ∷ d) = v ∷ values d

module _ {ℓ κ} {K : Type ℓ} {V : Type κ} ⦃e : Eq K⦄ where
  -- d.find(k), d.value(k)
  unfoldable pub lookup : K → Dict K V → Option V
  lookup k [] = none
  lookup k ((j, v) ∷ d) = if k == j then some v else lookup k d

  -- d.insert(k, v), d[k] = v
  unfoldable pub insert : K → V → Dict K V → Dict K V
  insert k v [] = (k, v) ∷ []
  insert k v ((j, w) ∷ d) = if k == j then (k, v) ∷ d else (j, w) ∷ insert k v d

  -- d.remove(k), d.erase(k)
  unfoldable pub erase : K → Dict K V → Dict K V
  erase k [] = []
  erase k ((j, w) ∷ d) = let rest = erase k d in if k == j then rest else (j, w) ∷ rest

  abbrev pub has_key : K → Dict K V → Bool
  has_key k d = is_some (lookup k d)

  pub lookup-insert :
      (j k : K) (v : V) (d : Dict K V)
      → lookup j (insert k v d) ≡ (if j == k then some v else lookup j d)
  unfolding insert lookup
  lookup-insert j k v [] = refl
  lookup-insert j k v ((i, w) ∷ d) =
      ground (arith, lookup-insert j k v d, e.beq_iff j k, e.beq_iff k i, e.beq_iff j i)

  pub lookup-erase :
      (j k : K) (d : Dict K V) → lookup j (erase k d) ≡ (if j == k then none else lookup j d)
  unfolding erase lookup
  lookup-erase j k [] = ground arith
  lookup-erase j k ((i, w) ∷ d) =
      ground (arith, lookup-erase j k d, e.beq_iff j k, e.beq_iff k i, e.beq_iff j i)

  pub lookup-insert_self : (k : K) (v : V) (d : Dict K V) → lookup k (insert k v d) ≡ some v
  lookup-insert_self k v d = ground (arith, lookup-insert k k v d, e.beq_iff k k)

  pub lookup-erase_self : (k : K) (d : Dict K V) → lookup k (erase k d) ≡ none
  lookup-erase_self k d = ground (arith, lookup-erase k k d, e.beq_iff k k)

  -- What a dictionary holds after an insertion is the new value, or was there.
  pub insert-cases :
      (j k : K) (v x : V) (d : Dict K V)
      → lookup j (insert k v d) ≡ some x
      → ((j ≡ k) × (v ≡ x)) ⊎ (((j == k) ≡ false) × (lookup j d ≡ some x))
  insert-cases j k v x d h = ground (arith, lookup-insert j k v d, e.beq_iff j k)

  pub erase-cases :
      (j k : K) (x : V) (d : Dict K V)
      → lookup j (erase k d) ≡ some x
      → ((j == k) ≡ false) × (lookup j d ≡ some x)
  erase-cases j k x d h = ground (arith, lookup-erase j k d)

  pub lookup-insert_other :
      (j k : K) (v : V) (d : Dict K V) → (j == k) ≡ false → lookup j (insert k v d) ≡ lookup j d
  lookup-insert_other j k v d h = ground (arith, lookup-insert j k v d)

  pub lookup-erase_other :
      (j k : K) (d : Dict K V) → (j == k) ≡ false → lookup j (erase k d) ≡ lookup j d
  lookup-erase_other j k d h = ground (arith, lookup-erase j k d)
