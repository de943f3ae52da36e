-- ===== src/Bat/Laws.antt =====
-- The search in the table, and the bytes of headers and entries.
use rackkey.Common.{
  ℕ, zero, suc, ◌+◌, ◌≡◌, ◌≢◌, refl, sym, ap, ◌∙◌, arith, List, [], ◌∷◌, ◌==◌, ==_iff, Bool-cases,
  inl, inr, Option, none, some, get_elem?,
}
use package.rackkey.Bat.{BatEntry, Bat, find_from, find_bat_entry}

-- No two rows have the same key hash.
abbrev pub DistinctHashes : List BatEntry → Type 0
DistinctHashes table =
    (i j : ℕ) (e e' : BatEntry)
    → get_elem? table i ≡ some e
    → get_elem? table j ≡ some e'
    → e.key_hash ≡ e'.key_hash
    → i ≡ j

-- The row that a search returns, counted from `base`, has the hash.
abbrev pub FoundAt : List BatEntry → ℕ → ℕ → Option (ℕ × BatEntry) → Type 0
FoundAt table base h none = (i : ℕ) (e : BatEntry) → get_elem? table i ≡ some e → e.key_hash ≢ h
FoundAt table base h (some (at, e)) =
    (i : ℕ) × (at ≡ base + i) × (get_elem? table i ≡ some e) × (e.key_hash ≡ h)

found_later :
    (be : BatEntry) (table : List BatEntry) (base h : ℕ) (r : Option (ℕ × BatEntry))
    → be.key_hash ≢ h
    → FoundAt table (suc base) h r
    → FoundAt (be ∷ table) base h r
found_later be table base h none other f = λ i e g. later i e g
  where
    later : (i : ℕ) (e : BatEntry) → get_elem? (be ∷ table) i ≡ some e → e.key_hash ≢ h
    later zero e g = ground (arith, other)
    later (suc i) e g = f i e g
found_later be table base h (some (at, e)) other f = (suc f.0, omega (arith, f.1), f.2, f.3)

find_from-FoundAt :
    (table : List BatEntry) (base h : ℕ) → FoundAt table base h (find_from table base h)
unfolding find_from
find_from-FoundAt [] base h = λ i e g. cc
find_from-FoundAt (be ∷ table) base h = elim (Bool-cases (be.key_hash == h)) [
  | inl hit ↦ rw hit (0, omega arith, refl, (==_iff be.key_hash h).0 hit)
  | inr miss ↦ rw miss (
      found_later be table base h _ (λ e. cc (miss, (==_iff be.key_hash h).1 e))
        (find_from-FoundAt table (suc base) h))
]

-- The search returns a row with the hash, and `none` only if there is none.
pub find_bat_entry-FoundAt : (bat : Bat) (h : ℕ) → FoundAt bat.table 0 h (find_bat_entry bat h)
unfolding find_bat_entry
find_bat_entry-FoundAt bat h = find_from-FoundAt bat.table 0 h

-- Where the hashes are distinct, it returns the row that has the hash.
pub find_bat_entry_unique :
    (bat : Bat) (h i : ℕ) (e : BatEntry)
    → DistinctHashes bat.table
    → get_elem? bat.table i ≡ some e
    → e.key_hash ≡ h
    → find_bat_entry bat h ≡ some (i, e)
find_bat_entry_unique bat h i e distinct at hash =
    go (find_bat_entry bat h) (find_bat_entry-FoundAt bat h)
  where
    go : (r : Option (ℕ × BatEntry)) → FoundAt bat.table 0 h r → r ≡ some (i, e)
    go none f = absurd (f i e at hash)
    go (some (j, e')) (k, base, at', hash') =
        let same : k ≡ i = distinct k i e' e at' at (cc (hash, hash')) in
        let entry : some e' ≡ some e = sym at' ∙ ap (get_elem? bat.table) same ∙ at in
        let pos : j ≡ i = omega (arith, base, same) in ground (arith, entry, pos)

pub find_bat_entry-none :
    (bat : Bat) (h : ℕ)
    → ((i : ℕ) (e : BatEntry) → get_elem? bat.table i ≡ some e → e.key_hash ≢ h)
    → find_bat_entry bat h ≡ none
find_bat_entry-none bat h no_row = go (find_bat_entry bat h) (find_bat_entry-FoundAt bat h)
  where
    go : (r : Option (ℕ × BatEntry)) → FoundAt bat.table 0 h r → r ≡ none
    go none f = refl
    go (some (j, e)) (k, base, at, hash) = absurd (no_row k e at hash)
