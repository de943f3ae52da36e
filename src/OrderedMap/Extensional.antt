-- ===== src/OrderedMap/Extensional.antt =====
-- An ordered map is determined by its lookups.
use rackkey.Common.{
  ◌≡◌, refl, sym, ap, ap₂, ◌∙◌, [], ◌∷◌, true, Option, none, some, if◌then◌else◌, Bool-cases, inl,
  inr, All,
}
use mathlib.Core.Option.{some-injective}
use package.rackkey.OrderedMap.{Ord, OrderedMap, same, find}
use package.rackkey.OrderedMap.Laws.{
  same_refl, Above, IsSorted, Above-IsSorted, find_lower, lt_asymm,
}

module _ {ℓ κ} {K : Type ℓ} {V : Type κ} ⦃o : Ord K⦄ where
  find_head : (j : K) (w : V) (m : OrderedMap K V) → find j ((j, w) ∷ m) ≡ some w
  unfolding find
  find_head j w m = rw (o.lt_irrefl j) refl

  find_below :
      (i j : K) (w : V) (m : OrderedMap K V)
      → o.lt i j ≡ true
      → Above j m
      → find i ((j, w) ∷ m) ≡ none
  unfolding find
  find_below i j w m l s = rw (lt_asymm i j l, l) (find_lower i i m (above m s) (same_refl i))
    where
      above : (m : OrderedMap K V) → Above j m → Above i m
      above [] s = tt
      above ((k, x) ∷ m) s = (o.lt_trans i j k l s.0, s.1)

  tail_find :
      (i j : K) (w : V) (m : OrderedMap K V)
      → Above j m
      → find i m ≡ (if same j i then none else find i ((j, w) ∷ m))
  unfolding find
  tail_find i j w m s = elim (Bool-cases (same j i)) [
    | inl hit ↦ rw hit (find_lower j i m s hit)
    | inr miss ↦ rw miss refl
  ]

  same_head :
      (j k : K) (w x : V) (m n : OrderedMap K V)
      → Above j m
      → Above k n
      → ((i : K) → find i ((j, w) ∷ m) ≡ find i ((k, x) ∷ n))
      → (((i : K) → find i m ≡ find i n) → m ≡ n)
      → j ≡ k
      → (j, w) ∷ m ≡ (k, x) ∷ n
  same_head j k w x m n s t f rest e =
      let v : w ≡ x =
        some-injective w x
          (sym (find_head j w m) ∙ f j ∙ ap (λ t. find t ((k, x) ∷ n)) e ∙ find_head k x n) in
      let r : m ≡ n = rest (λ i.
        tail_find i j w m s
        ∙ ap₂ (λ (b : K) (t : Option V). if same b i then none else t) e (f i)
        ∙ sym (tail_find i k x n t)) in
      ap₂ (λ (h : K × V) (t : OrderedMap K V). h ∷ t) (ap₂ (λ (a : K) (b : V). (a, b)) e v) r

  -- Two maps in order with the same lookups are the same map.
  pub ext :
      (m n : OrderedMap K V) → IsSorted m → IsSorted n → ((i : K) → find i m ≡ find i n) → m ≡ n
  ext [] [] s t f = refl
  ext [] ((j, w) ∷ n) s t f = absurd (let e = f j ∙ find_head j w n in unfold find in cc)
  ext ((j, w) ∷ m) [] s t f = absurd (let e = sym (f j) ∙ find_head j w m in unfold find in cc)
  ext ((j, w) ∷ m) ((k, x) ∷ n) s t f = elim (Bool-cases (o.lt j k)) [
    | inl below ↦
        let e : some w ≡ none = sym (find_head j w m) ∙ f j ∙ find_below j k x n below t in
        absurd cc
    | inr not_below ↦ elim (Bool-cases (o.lt k j)) [
      | inl above ↦
          let e : none ≡ some x = sym (find_below k j w m above s) ∙ f k ∙ find_head k x n in
          absurd cc
      | inr not_above ↦
          same_head j k w x m n s t f (ext m n (Above-IsSorted j m s) (Above-IsSorted k n t))
            (o.lt_connex j k not_below not_above)
    ]
  ]

  -- What holds of every lookup in a map in order holds of every entry.
  pub All-find {ρ} :
      (P : K × V → Type ρ) (m : OrderedMap K V)
      → IsSorted m
      → ((k : K) (v : V) → find k m ≡ some v → P (k, v))
      → All P m
  All-find P [] s f = tt
  All-find P ((j, w) ∷ m) s f = (
    f j w (find_head j w m),
    All-find P m (Above-IsSorted j m s) (λ k v e. f k v (in_whole k v e)),
  )
    where
      in_whole : (k : K) (v : V) → find k m ≡ some v → find k ((j, w) ∷ m) ≡ some v
      in_whole k v e = elim (Bool-cases (same j k)) [
        | inl hit ↦
            absurd (let g : none ≡ some v = sym (tail_find k j w m s ∙ rw hit refl) ∙ e in cc)
        | inr miss ↦ sym (tail_find k j w m s ∙ rw miss refl) ∙ e
      ]
