-- ===== src/MasterServer/Syncing/Honest.antt =====
-- An invariant of the threads of `syncWithStorageNodes`, src/master/master_server.cpp: each map is
-- that of one key, and holds only what nodes sent for the key.
use rackkey.Common.{
  ℕ, zero, suc, ◌≡◌, ◌≢◌, refl, sym, ap, subst, ◌∙◌, arith, List, [], ◌∷◌, ◌++◌, Bool, true, false,
  ◌||◌, ◌&&◌, ◌⊎◌, Bool-cases, inl, inr, Option, none, some, get_elem?, set, length, length-append,
  length-set, ◌==◌, ==_iff, get_elem?-append_last, get_elem?-append_ne,
}
use mathlib.Core.Option.{some-injective}
use rackkey.DiskStorage.Reading.{is_requested}
use rackkey.OrderedMap
use rackkey.OrderedMap.{OrderedMap}
use rackkey.OrderedMap.Laws.{find-insert, same→eq}
use rackkey.OrderedMap.Order.{nat_ord, key_ord}
use package.rackkey.MasterServer.{BlockNodeMap}
use package.rackkey.MasterServer.Putting.Sending.{stores}
use package.rackkey.MasterServer.Syncing.{assign_nums}
use package.rackkey.MasterServer.Syncing.Interleaving.{
  World, Round, Phase, waiting, holding, filled, finished, at_phase, Step, look_up_new, look_up_old,
  fill, store, Run, rest, next,
}
use package.rackkey.MasterServer.Syncing.Race.{stores-assign_nums}

-- The address that a round works at.
abbrev pub address_of : Phase → Option ℕ
address_of waiting = none
address_of (holding a) = some a
address_of (filled a) = some a
address_of finished = none

module _ {ℓ} {A : Type ℓ} where
  get_elem?-append_some :
      (xs ys : List A) (i : ℕ) (x : A) → get_elem? xs i ≡ some x → get_elem? (xs ++ ys) i ≡ some x
  get_elem?-append_some [] ys i x e = cc
  get_elem?-append_some (y ∷ xs) ys zero x e = e
  get_elem?-append_some (y ∷ xs) ys (suc i) x e = get_elem?-append_some xs ys i x e

  -- An element of a list with one element replaced is the new one or an old one.
  get_elem?-set_cases :
      (xs : List A) (i j : ℕ) (y x : A)
      → get_elem? (set xs i y) j ≡ some x
      → ((i ≡ j) × (y ≡ x)) ⊎ (get_elem? xs j ≡ some x)
  get_elem?-set_cases [] i j y x e = inr e
  get_elem?-set_cases (z ∷ xs) zero zero y x e = inl (refl, some-injective y x e)
  get_elem?-set_cases (z ∷ xs) zero (suc j) y x e = inr e
  get_elem?-set_cases (z ∷ xs) (suc i) zero y x e = inr e
  get_elem?-set_cases (z ∷ xs) (suc i) (suc j) y x e = elim (get_elem?-set_cases xs i j y x e) [
    | inl (p, q) ↦ inl (ap suc p, q)
    | inr old ↦ inr old
  ]

-- Each address belongs to one key, and the maps hold only what was `said`.
pub record IsHonest (said : List ℕ → ℕ → ℕ → Bool) (w : World) (rounds : List Round) : Type 0 where
  pub owners : List (List ℕ)
  pub sized : length owners ≡ length w.heap
  pub pointed :
      (key : List ℕ) (a : ℕ)
      → OrderedMap.find key w.pointers ≡ some a
      → get_elem? owners a ≡ some key
  pub worked :
      (i a : ℕ) (round : Round)
      → get_elem? rounds i ≡ some round
      → address_of round.phase ≡ some a
      → get_elem? owners a ≡ some round.key
  pub told :
      (i bn : ℕ) (round : Round)
      → get_elem? rounds i ≡ some round
      → is_requested round.nums bn ≡ true
      → said round.key round.id bn ≡ true
  pub held :
      (a : ℕ) (key : List ℕ) (m : BlockNodeMap) (id bn : ℕ)
      → get_elem? w.heap a ≡ some m
      → get_elem? owners a ≡ some key
      → stores m id bn ≡ true
      → said key id bn ≡ true

module _ (said : List ℕ → ℕ → ℕ → Bool) (rounds : List Round) (i : ℕ) (round : Round)
    (here : get_elem? rounds i ≡ some round) where
  -- What a step says of the round that it moves is enough for all rounds.
  moved :
      (phase : Phase) (owners owners' : List (List ℕ))
      → ((a : ℕ) (key : List ℕ) → get_elem? owners a ≡ some key → get_elem? owners' a ≡ some key)
      → ((a : ℕ) → address_of phase ≡ some a → get_elem? owners' a ≡ some round.key)
      → ((j a : ℕ) (r : Round)
          → get_elem? rounds j ≡ some r
          → address_of r.phase ≡ some a
          → get_elem? owners a ≡ some r.key)
      → (j a : ℕ) (r : Round) → get_elem? (set rounds i (at_phase round phase)) j ≡ some r
      → address_of r.phase ≡ some a
      → get_elem? owners' a ≡ some r.key
  moved phase owners owners' grow own worked j a r e f =
      elim (get_elem?-set_cases rounds i j (at_phase round phase) r e) [
        | inl (p, q) ↦
            own a (ap (λ (t : Round). address_of t.phase) q ∙ f) ∙ ap (λ (t : Round). some t.key) q
        | inr old ↦ grow a r.key (worked j a r old f)
      ]

  told_still :
      (phase : Phase)
      → ((j bn : ℕ) (r : Round)
          → get_elem? rounds j ≡ some r
          → is_requested r.nums bn ≡ true
          → said r.key r.id bn ≡ true)
      → (j bn : ℕ) (r : Round) → get_elem? (set rounds i (at_phase round phase)) j ≡ some r
      → is_requested r.nums bn ≡ true
      → said r.key r.id bn ≡ true
  told_still phase told j bn r e h =
      elim (get_elem?-set_cases rounds i j (at_phase round phase) r e) [
        | inl (p, q) ↦
            sym (ap (λ (t : Round). said t.key t.id bn) q)
            ∙ told i bn round here (ap (λ (t : Round). is_requested t.nums bn) q ∙ h)
        | inr old ↦ told j bn r old h
      ]

  -- A new map holds nothing.
  held_new :
      (w : World) (h : IsHonest said w rounds) (a : ℕ) (key : List ℕ) (m : BlockNodeMap) (id bn : ℕ)
      → get_elem? (w.heap ++ [] ∷ []) a ≡ some m
      → get_elem? (h.owners ++ round.key ∷ []) a ≡ some key
      → stores m id bn ≡ true
      → ((a == length w.heap) ≡ true) ⊎ ((a == length w.heap) ≡ false)
      → said key id bn ≡ true
  held_new w h a key m id bn e f g (inl hit) =
      let at : a ≡ length w.heap = (==_iff a (length w.heap)).0 hit in
      let blank : [] ≡ m =
        some-injective [] m (
          sym (get_elem?-append_last w.heap [])
          ∙ ap (get_elem? (w.heap ++ [] ∷ [])) (sym at)
          ∙ e) in
      absurd (let n : false ≡ true = sym (nobody id bn) ∙ ap (λ t. stores t id bn) blank ∙ g in cc)
    where
      nobody : (id bn : ℕ) → stores [] id bn ≡ false
      nobody id bn = unfold OrderedMap.find in refl
  held_new w h a key m id bn e f g (inr miss) =
      let off : a ≢ length w.heap =
        λ t. (let n : true ≡ false = sym ((==_iff a (length w.heap)).1 t) ∙ miss in cc) in
      h.held a key m id bn (sym (get_elem?-append_ne w.heap [] a off) ∙ e)
        (sym (get_elem?-append_ne h.owners round.key a (λ t. off (t ∙ h.sized))) ∙ f) g

  -- A filled map holds what it held and what the node sent.
  held_filled :
      (w : World) (h : IsHonest said w rounds) (address : ℕ) (m : BlockNodeMap)
      → address_of round.phase ≡ some address
      → get_elem? w.heap address ≡ some m
      → (a : ℕ) (key : List ℕ) (m' : BlockNodeMap) (id bn : ℕ) → get_elem? h.owners a ≡ some key
      → stores m' id bn ≡ true
      → ((address ≡ a) × (assign_nums round.id round.nums m ≡ m')) ⊎ (get_elem? w.heap a ≡ some m')
      → said key id bn ≡ true
  held_filled w h address m p there a key m' id bn f g (inr old) = h.held a key m' id bn old f g
  held_filled w h address m p there a key m' id bn f g (inl (at, e)) =
      let own : round.key ≡ key =
        some-injective round.key key
          (sym (h.worked i address round here p) ∙ ap (get_elem? h.owners) at ∙ f) in
      let now : (round.id == id && is_requested round.nums bn || stores m id bn) ≡ true =
        sym (stores-assign_nums round.id round.nums m id bn) ∙ ap (λ t. stores t id bn) e ∙ g in
      elim (Bool-cases (stores m id bn)) [
        | inl before ↦ h.held address key m id bn there (ap (get_elem? h.owners) at ∙ f) before
        | inr fresh ↦
            let same_id : round.id ≡ id = ground arith in
            let asked : is_requested round.nums bn ≡ true = ground arith in
            subst (λ t. said t id bn ≡ true) own
              (subst (λ t. said round.key t bn ≡ true) same_id (h.told i bn round here asked))
      ]

  pointed_stored :
      (w : World) (h : IsHonest said w rounds) (address : ℕ)
      → address_of round.phase ≡ some address
      → (key : List ℕ) (a : ℕ)
      → OrderedMap.find key (OrderedMap.insert round.key address w.pointers) ≡ some a
      → (OrderedMap.same round.key key ≡ true) ⊎ (OrderedMap.same round.key key ≡ false)
      → get_elem? h.owners a ≡ some key
  pointed_stored w h address p key a e (inl hit) =
      let f : some address ≡ some a =
        sym (find-insert key round.key address w.pointers ∙ rw hit refl) ∙ e in
      ap (get_elem? h.owners) (sym (some-injective address a f))
      ∙ h.worked i address round here p
      ∙ ap (λ t. some t) (same→eq round.key key hit)
  pointed_stored w h address p key a e (inr miss) =
      h.pointed key a (sym (find-insert key round.key address w.pointers ∙ rw miss refl) ∙ e)

  Step-IsHonest :
      (w after : World) (moved_round : Round)
      → IsHonest said w rounds
      → Step w round after moved_round
      → IsHonest said after (set rounds i moved_round)
  Step-IsHonest w after moved_round h (look_up_new p none_there) = record {
    owners = h.owners ++ round.key ∷ [];
    sized =
        omega
          (arith, length-append h.owners (round.key ∷ []), length-append w.heap ([] ∷ []), h.sized);
    pointed = λ key a e. get_elem?-append_some h.owners _ a key (h.pointed key a e);
    worked =
        moved (holding (length w.heap)) h.owners (h.owners ++ round.key ∷ [])
          (λ a key e. get_elem?-append_some h.owners _ a key e)
          (λ a e.
            ap (get_elem? (h.owners ++ round.key ∷ [])) (sym (some-injective _ a e) ∙ sym h.sized)
            ∙ get_elem?-append_last h.owners round.key)
          h.worked;
    told = told_still (holding (length w.heap)) h.told;
    held =
        λ a key m id bn e f g. held_new w h a key m id bn e f g (Bool-cases (a == length w.heap));
  }
  Step-IsHonest w after moved_round h (look_up_old address p there) = record {
    owners = h.owners;
    sized = h.sized;
    pointed = h.pointed;
    worked =
        moved (holding address) h.owners h.owners (λ a key e. e)
          (λ a e.
            ap (get_elem? h.owners) (sym (some-injective address a e))
            ∙ h.pointed round.key address there)
          h.worked;
    told = told_still (holding address) h.told;
    held = h.held;
  }
  Step-IsHonest w after moved_round h (fill address m p there) = record {
    owners = h.owners;
    sized = h.sized ∙ sym (length-set w.heap address (assign_nums round.id round.nums m));
    pointed = h.pointed;
    worked =
        moved (filled address) h.owners h.owners (λ a key e. e)
          (λ a e. h.worked i a round here (ap address_of p ∙ e)) h.worked;
    told = told_still (filled address) h.told;
    held = λ a key m' id bn e f g.
        held_filled w h address m (ap address_of p) there a key m' id bn f g
          (get_elem?-set_cases w.heap address a (assign_nums round.id round.nums m) m' e);
  }
  Step-IsHonest w after moved_round h (store address p) = record {
    owners = h.owners;
    sized = h.sized;
    pointed = λ key a e.
        pointed_stored w h address (ap address_of p) key a e
          (Bool-cases (OrderedMap.same round.key key));
    worked = moved finished h.owners h.owners (λ a key e. e) (λ a e. cc) h.worked;
    told = told_still finished h.told;
    held = h.held;
  }

pub Run-IsHonest :
    (said : List ℕ → ℕ → ℕ → Bool) (last : World) (ends : List Round) (w : World)
    (rounds : List Round)
    → Run last ends w rounds
    → IsHonest said w rounds
    → IsHonest said last ends
Run-IsHonest said last ends w rounds rest h = h
Run-IsHonest said last ends w rounds (next _ _ i round after middle here step run) h =
    Run-IsHonest said last ends middle (set rounds i after) run
      (Step-IsHonest said rounds i round here w middle after h step)
