-- ===== src/OrderedMap.antt =====
-- `std::map`: its entries in the order of their keys. The order of the keys is an interface.
pub mod Order
pub mod Laws
pub mod Extensional
use rackkey.Common.{
  List, [], ◌∷◌, Bool, true, false, ◌&&◌, not, ◌≡◌, Option, none, some, if◌then◌else◌, length, ℕ,
}

-- `std::less` of the key type: a strict total order.
pub record Ord {ℓ} (K : Type ℓ) : Type ℓ where
  pub lt : K → K → Bool
  pub lt_irrefl : (a : K) → lt a a ≡ false
  pub lt_trans : (a b c : K) → lt a b ≡ true → lt b c ≡ true → lt a c ≡ true
  pub lt_connex : (a b : K) → lt a b ≡ false → lt b a ≡ false → a ≡ b

abbrev pub OrderedMap {ℓ κ} : Type ℓ → Type κ → Type (ℓ ⊔ κ)
OrderedMap K V = List (K × V)

module _ {ℓ} {K : Type ℓ} ⦃o : Ord K⦄ where
  -- Two keys are the same if neither is below the other.
  abbrev pub same : K → K → Bool
  same a b = not (o.lt a b) && not (o.lt b a)

module _ {ℓ κ} {K : Type ℓ} {V : Type κ} ⦃o : Ord K⦄ where
  unfoldable pub find : K → OrderedMap K V → Option V
  find k [] = none
  find k ((j, w) ∷ m) = if same j k then some w else find k m

  -- `m[k] = v`
  unfoldable pub insert : K → V → OrderedMap K V → OrderedMap K V
  insert k v [] = (k, v) ∷ []
  insert k v ((j, w) ∷ m) =
      if o.lt k j
      then (k, v) ∷ (j, w) ∷ m
      else if o.lt j k
      then (j, w) ∷ insert k v m
      else (k, v) ∷ m

  unfoldable pub erase : K → OrderedMap K V → OrderedMap K V
  erase k [] = []
  erase k ((j, w) ∷ m) = if same j k then m else (j, w) ∷ erase k m

  -- The first entry whose key is above `k`.
  unfoldable pub upper_bound : K → OrderedMap K V → Option (K × V)
  upper_bound k [] = none
  upper_bound k ((j, w) ∷ m) = if o.lt k j then some (j, w) else upper_bound k m
