-- ===== src/MasterServer/Getting/Receipt.antt =====
-- The blocks that a get receives, in `StoreEndpoint::getHandler` of src/master/master_server.cpp:
-- whatever the order of the answers, the same map.
use rackkey.Common.{
  ℕ, ◌≡◌, refl, sym, ap, subst, ◌∙◌, arith, List, [], ◌∷◌, map, Bool, true, false, ◌||◌, ◌⊎◌,
  Bool-cases, Option-cases, inl, inr, none, some, ◌==◌, if◌then◌else◌, ==_iff,
}
use rackkey.Block.{Block}
use rackkey.DiskStorage.Reading.{is_requested}
use rackkey.OrderedMap
use rackkey.OrderedMap.Laws.{IsSorted, find-insert, insert-IsSorted}
use rackkey.OrderedMap.Order.{nat_ord}
use package.rackkey.MasterServer.Getting.{BlockMap, insert_new, insert_blocks}

insert_new-old :
    (block b : Block) (m : BlockMap)
    → OrderedMap.find block.block_num m ≡ some b
    → insert_new block m ≡ m
unfolding insert_new
insert_new-old block b m e = rw (insert_new, e) refl

insert_new-new :
    (block : Block) (m : BlockMap)
    → OrderedMap.find block.block_num m ≡ none
    → insert_new block m ≡ OrderedMap.insert block.block_num block m
unfolding insert_new
insert_new-new block m e = rw (insert_new, e) refl

module _ (value : ℕ → Block) (numbered : (n : ℕ) → (value n).block_num ≡ n) where
  -- The map has the values of the numbers that are `seen`, and no others.
  abbrev pub Holds : (ℕ → Bool) → BlockMap → Type 0
  Holds seen m = (n : ℕ) → OrderedMap.find n m ≡ (if seen n then some (value n) else none)

  insert_new-Holds :
      (k : ℕ) (seen : ℕ → Bool) (m : BlockMap)
      → Holds seen m
      → Holds (λ n. k == n || seen n) (insert_new (value k) m)
  insert_new-Holds k seen m h n = elim (Bool-cases (seen k)) [
    | inl old ↦
        let e : OrderedMap.find (value k).block_num m ≡ some (value k) =
          ap (λ t. OrderedMap.find t m) (numbered k) ∙ h k ∙ rw old refl in
        ap (OrderedMap.find n) (insert_new-old (value k) (value k) m e)
        ∙ h n
        ∙ here old (Bool-cases (k == n))
    | inr new ↦
        let e : OrderedMap.find (value k).block_num m ≡ none =
          ap (λ t. OrderedMap.find t m) (numbered k) ∙ h k ∙ rw new refl in
        ap (OrderedMap.find n) (insert_new-new (value k) m e)
        ∙ ap (λ t. OrderedMap.find n (OrderedMap.insert t (value k) m)) (numbered k)
        ∙ find-insert n k (value k) m
        ∙ ap (λ t. if OrderedMap.same k n then some (value k) else t) (h n)
        ∙ there (Bool-cases (k == n))
  ]
    where
      here :
          seen k ≡ true
          → ((k == n) ≡ true) ⊎ ((k == n) ≡ false)
          → (if seen n then some (value n) else none)
            ≡ (if k == n || seen n then some (value n) else none)
      here old (inl hit) = let e = (==_iff k n).0 hit in rw (hit, ← e, old) refl
      here old (inr miss) = rw miss refl

      there :
          ((k == n) ≡ true) ⊎ ((k == n) ≡ false)
          → (if OrderedMap.same k n
              then some (value k)
              else if seen n
              then some (value n)
              else none)
            ≡ (if k == n || seen n then some (value n) else none)
      there (inl hit) =
          let e = (==_iff k n).0 hit in
          let s : OrderedMap.same k n ≡ true = ground arith in
          rw (hit, s) (ap (λ t. some (value t)) e)
      there (inr miss) = let s : OrderedMap.same k n ≡ false = ground arith in rw (miss, s) refl

  pub insert_blocks-Holds :
      (nums : List ℕ) (seen : ℕ → Bool) (m : BlockMap)
      → Holds seen m
      → Holds (λ n. is_requested nums n || seen n) (insert_blocks (map value nums) m)
  unfolding insert_blocks is_requested
  insert_blocks-Holds [] seen m h n = h n
  insert_blocks-Holds (k ∷ nums) seen m h n =
      insert_blocks-Holds nums (λ n. k == n || seen n) (insert_new (value k) m)
        (insert_new-Holds k seen m h) n
      ∙ ap (λ (b : Bool). if b then some (value n) else none) (ground arith)

  pub insert_blocks-IsSorted :
      (blocks : List Block) (m : BlockMap) → IsSorted m → IsSorted (insert_blocks blocks m)
  unfolding insert_blocks insert_new
  insert_blocks-IsSorted [] m s = s
  insert_blocks-IsSorted (block ∷ blocks) m s =
      insert_blocks-IsSorted blocks (insert_new block m)
        (elim (Option-cases (OrderedMap.find block.block_num m)) [
          | inl e ↦
              subst IsSorted (sym (insert_new-new block m e))
                (insert-IsSorted block.block_num block m s)
          | inr (b, e) ↦ subst IsSorted (sym (insert_new-old block b m e)) s
        ])
