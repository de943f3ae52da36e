-- ===== src/OrderedMap/Laws.antt =====
-- What the operations of an ordered map do, for any order of the keys.
use rackkey.Common.{
  ◌≡◌, refl, sym, ap, subst, ◌∙◌, arith, [], ◌∷◌, ◌++◌, true, false, Option, none, some,
  if◌then◌else◌, Bool-cases, inl, inr,
}
use package.rackkey.OrderedMap.{Ord, OrderedMap, same, find, insert, erase, upper_bound}

module _ {ℓ} {K : Type ℓ} ⦃o : Ord K⦄ where
  pub same→eq : (a b : K) → same a b ≡ true → a ≡ b
  same→eq a b h = o.lt_connex a b (ground arith) (ground arith)

  pub same_refl : (a : K) → same a a ≡ true
  same_refl a = rw (o.lt_irrefl a)

  pub same_comm : (a b : K) → same a b ≡ same b a
  same_comm a b = ground arith

  pub lt_asymm : (a b : K) → o.lt a b ≡ true → o.lt b a ≡ false
  lt_asymm a b h = ground (arith, o.lt_trans a b a h, o.lt_irrefl a)

module _ {ℓ κ} {K : Type ℓ} {V : Type κ} ⦃o : Ord K⦄ where
  -- The keys rise along the list, and all are above `k`.
  abbrev pub Above : K → OrderedMap K V → Type 0
  Above k [] = Unit {0}
  Above k ((j, w) ∷ m) = (o.lt k j ≡ true) × Above j m

  abbrev pub IsSorted : OrderedMap K V → Type 0
  IsSorted [] = Unit {0}
  IsSorted ((j, w) ∷ m) = Above j m

  Above-insert :
      (i k : K) (v : V) (m : OrderedMap K V) → o.lt i k ≡ true → Above i m → Above i (insert k v m)
  unfolding insert
  Above-insert i k v [] h s = (h, tt)
  Above-insert i k v ((j, w) ∷ m) h s = elim (Bool-cases (o.lt k j)) [
    | inl below ↦ rw below (h, (below, s.1))
    | inr not_below ↦ elim (Bool-cases (o.lt j k)) [
      | inl above ↦ rw (not_below, above) (s.0, Above-insert j k v m above s.1)
      | inr not_above ↦
          let e = o.lt_connex k j not_below not_above in
          rw (not_below, not_above) (h, subst (λ t. Above t m) (sym e) s.1)
    ]
  ]

  -- `m[k] = v` keeps the order.
  pub insert-IsSorted : (k : K) (v : V) (m : OrderedMap K V) → IsSorted m → IsSorted (insert k v m)
  unfolding insert
  insert-IsSorted k v [] s = tt
  insert-IsSorted k v ((j, w) ∷ m) s = elim (Bool-cases (o.lt k j)) [
    | inl below ↦ rw below (below, s)
    | inr not_below ↦ elim (Bool-cases (o.lt j k)) [
      | inl above ↦ rw (not_below, above) (Above-insert j k v m above s)
      | inr not_above ↦
          let e = o.lt_connex k j not_below not_above in
          rw (not_below, not_above) (subst (λ t. Above t m) (sym e) s)
    ]
  ]

  pub Above-IsSorted : (i : K) (m : OrderedMap K V) → Above i m → IsSorted m
  Above-IsSorted i [] s = tt
  Above-IsSorted i ((j, w) ∷ m) s = s.1

  pub Above-trans : (i j : K) (m : OrderedMap K V) → o.lt i j ≡ true → Above j m → Above i m
  Above-trans i j [] h s = tt
  Above-trans i j ((k, w) ∷ m) h s = (o.lt_trans i j k h s.0, s.1)

  Above-erase : (i k : K) (m : OrderedMap K V) → Above i m → Above i (erase k m)
  unfolding erase
  Above-erase i k [] s = tt
  Above-erase i k ((j, w) ∷ m) s = elim (Bool-cases (same j k)) [
    | inl hit ↦ rw hit (Above-trans i j m s.0 s.1)
    | inr miss ↦ rw miss (s.0, Above-erase j k m s.1)
  ]

  pub erase-IsSorted : (k : K) (m : OrderedMap K V) → IsSorted m → IsSorted (erase k m)
  unfolding erase
  erase-IsSorted k [] s = tt
  erase-IsSorted k ((j, w) ∷ []) s = elim (Bool-cases (same j k)) [
    | inl hit ↦ rw hit tt
    | inr miss ↦ rw miss tt
  ]
  erase-IsSorted k ((j, w) ∷ (i, x) ∷ m) s = elim (Bool-cases (same j k)) [
    | inl hit ↦ rw hit s.1
    | inr miss ↦ rw miss (Above-erase j k ((i, x) ∷ m) s)
  ]

  -- Lookup after `m[k] = v`, at any key.
  pub find-insert :
      (j k : K) (v : V) (m : OrderedMap K V)
      → find j (insert k v m) ≡ (if same k j then some v else find j m)
  unfolding find insert
  find-insert j k v [] = refl
  find-insert j k v ((i, w) ∷ m) = elim (Bool-cases (o.lt k i)) [
    | inl below ↦ rw below refl
    | inr not_below ↦ elim (Bool-cases (o.lt i k)) [
      | inl above ↦
          rw (not_below, above)
            (elim (Bool-cases (same i j)) [
              | inl hit ↦
                  let e : same k j ≡ false = rw (← same→eq i j hit) (rw (not_below, above)) in
                  rw (hit, e)
              | inr miss ↦ rw (miss, find-insert j k v m)
            ])
      | inr not_above ↦
          rw (not_below, not_above)
            (elim (Bool-cases (same k j)) [
              | inl hit ↦ rw hit
              | inr miss ↦
                  let e : same i j ≡ false = rw (← o.lt_connex k i not_below not_above) miss in
                  rw (miss, e)
            ])
    ]
  ]

  pub find_lower : (i k : K) (m : OrderedMap K V) → Above i m → same i k ≡ true → find k m ≡ none
  unfolding find
  find_lower i k [] s h = refl
  find_lower i k ((j, w) ∷ m) s h =
      let e = same→eq i k h in
      let l = subst (λ t. o.lt t j ≡ true) e s.0 in rw (lt_asymm k j l, l) (later j m s.1 l)
    where
      later : (j : K) (m : OrderedMap K V) → Above j m → o.lt k j ≡ true → find k m ≡ none
      later j [] s l = refl
      later j ((n, w) ∷ m) s l =
          let l' = o.lt_trans k j n l s.0 in rw (lt_asymm k n l', l') (later n m s.1 l')

  -- Lookup after `erase`, at any key of a sorted map.
  pub find-erase :
      (j k : K) (m : OrderedMap K V)
      → IsSorted m
      → find j (erase k m) ≡ (if same k j then none else find j m)
  unfolding find erase
  find-erase j k [] s = ground arith
  find-erase j k ((i, w) ∷ m) s = elim (Bool-cases (same i k)) [
    | inl hit ↦
        let e = same→eq i k hit in
        rw hit (elim (Bool-cases (same k j)) [
          | inl here ↦ rw here (find_lower i j m s (rw e here))
          | inr there ↦ let t : same i j ≡ false = rw e there in rw (there, t)
        ])
    | inr miss ↦ rw miss (elim (Bool-cases (same i j)) [
      | inl hit ↦
          let t : same k j ≡ false = rw (← same→eq i j hit) (same_comm k i ∙ miss) in rw (hit, t)
      | inr there ↦ rw (there, find-erase j k m (Above-IsSorted i m s))
    ])
  ]

  -- `r` is the entry of the least key above `k`, or `none` when no key is above `k`.
  abbrev pub IsNext : K → OrderedMap K V → Option (K × V) → Type (ℓ ⊔ κ)
  IsNext k m none = (i : K) (x : V) → find i m ≡ some x → o.lt k i ≡ false
  IsNext k m (some (j, w)) =
      (o.lt k j ≡ true)
      × (find j m ≡ some w)
      × ((i : K) (x : V) → find i m ≡ some x → o.lt k i ≡ true → o.lt i j ≡ false)

  -- The two cases of a lookup in a map that is not empty.
  find_cases :
      {ρ : Type 0} (i j : K) (w x : V) (m : OrderedMap K V)
      → find i ((j, w) ∷ m) ≡ some x
      → (j ≡ i → ρ)
      → (find i m ≡ some x → ρ)
      → ρ
  unfolding find
  find_cases i j w x m h here there = elim (Bool-cases (same j i)) [
    | inl hit ↦ here (same→eq j i hit)
    | inr miss ↦ there (rw miss at h)
  ]

  find-Above :
      (j i : K) (x : V) (m : OrderedMap K V) → Above j m → find i m ≡ some x → o.lt j i ≡ true
  find-Above j i x [] s h = unfold find in cc
  find-Above j i x ((n, w) ∷ m) s h =
      find_cases i n w x m h (λ e. subst (λ t. o.lt j t ≡ true) e s.0)
        (λ f. o.lt_trans j n i s.0 (find-Above n i x m s.1 f))

  IsNext-cons :
      (k j : K) (w : V) (m : OrderedMap K V) (r : Option (K × V))
      → o.lt k j ≡ false
      → Above j m
      → IsNext k m r
      → IsNext k ((j, w) ∷ m) r
  IsNext-cons k j w m none l s r =
      λ i x f. find_cases i j w x m f (λ e. subst (λ t. o.lt k t ≡ false) e l) (r i x)
  IsNext-cons k j w m (some (n, y)) l s r = (
    r.0,
    (let t = find-Above j n y m s r.1 in unfold find in rw t r.1),
    λ i x f g.
        find_cases i j w x m f (λ e. cc (g, subst (λ t. o.lt k t ≡ false) e l)) (λ f. r.2 i x f g),
  )

  pub upper_bound-IsNext : (k : K) (m : OrderedMap K V) → IsSorted m → IsNext k m (upper_bound k m)
  unfolding upper_bound
  upper_bound-IsNext k [] s = λ i x f. unfold find in cc
  upper_bound-IsNext k ((j, w) ∷ m) s = elim (Bool-cases (o.lt k j)) [
    | inl below ↦ rw below (
      below,
      unfold find in rw (o.lt_irrefl j),
      λ i x f g.
          find_cases i j w x m f (λ e. subst (λ t. o.lt t j ≡ false) e (o.lt_irrefl j))
            (λ f. lt_asymm j i (find-Above j i x m s f)),
    )
    | inr not_below ↦
        rw not_below
          (IsNext-cons k j w m _ not_below s (upper_bound-IsNext k m (Above-IsSorted j m s)))
  ]

  -- The first entry has the least key.
  pub head_least :
      (j : K) (w : V) (m : OrderedMap K V)
      → IsSorted ((j, w) ∷ m)
      → (find j ((j, w) ∷ m) ≡ some w)
        × ((i : K) (x : V) → find i ((j, w) ∷ m) ≡ some x → o.lt i j ≡ false)
  unfolding find
  head_least j w m s = (
    rw (o.lt_irrefl j),
    λ i x f.
        find_cases i j w x m f (λ e. subst (λ t. o.lt t j ≡ false) e (o.lt_irrefl j))
          (λ f. lt_asymm j i (find-Above j i x m s f)),
  )

  Above-append_lt :
      (i k : K) (v : V) (m rest : OrderedMap K V) → Above i (m ++ (k, v) ∷ rest) → o.lt i k ≡ true
  Above-append_lt i k v [] rest s = s.0
  Above-append_lt i k v ((j, w) ∷ m) rest s =
      o.lt_trans i j k s.0 (Above-append_lt j k v m rest s.1)

  -- A key above all others goes to the end.
  pub insert_last :
      (k : K) (v : V) (m rest : OrderedMap K V)
      → IsSorted (m ++ (k, v) ∷ rest)
      → insert k v m ≡ m ++ (k, v) ∷ []
  unfolding insert
  insert_last k v [] rest s = refl
  insert_last k v ((j, w) ∷ m) rest s =
      let l = Above-append_lt j k v m rest s in
      rw (lt_asymm j k l, l)
        (ap (λ t. (j, w) ∷ t) (insert_last k v m rest (Above-IsSorted j (m ++ (k, v) ∷ rest) s)))
