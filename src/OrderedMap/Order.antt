-- ===== src/OrderedMap/Order.antt =====
-- The orders of the key types: `uint32_t` and `std::string`.
use rackkey.Common.{ℕ, ◌≡◌, refl, arith, List, [], ◌∷◌, Bool, true, false, ltb, if◌then◌else◌}
use package.rackkey.OrderedMap.{Ord}

pub ltb_irrefl : (a : ℕ) → ltb a a ≡ false
ltb_irrefl a = ground arith

pub ltb_trans : (a b c : ℕ) → ltb a b ≡ true → ltb b c ≡ true → ltb a c ≡ true
ltb_trans a b c p q = ground arith

pub ltb_connex : (a b : ℕ) → ltb a b ≡ false → ltb b a ≡ false → a ≡ b
ltb_connex a b p q = ground arith

instance abbrev pub nat_ord : Ord ℕ
nat_ord = record { lt = ltb; lt_irrefl = ltb_irrefl; lt_trans = ltb_trans; lt_connex = ltb_connex }

-- Byte by byte; a proper prefix is smaller.
abbrev pub lex_lt : List ℕ → List ℕ → Bool
lex_lt xs [] = false
lex_lt [] (y ∷ ys) = true
lex_lt (x ∷ xs) (y ∷ ys) = if ltb x y then true else if ltb y x then false else lex_lt xs ys

pub lex_lt_irrefl : (a : List ℕ) → lex_lt a a ≡ false
lex_lt_irrefl [] = refl
lex_lt_irrefl (x ∷ xs) = ground (arith, lex_lt_irrefl xs)

pub lex_lt_trans : (a b c : List ℕ) → lex_lt a b ≡ true → lex_lt b c ≡ true → lex_lt a c ≡ true
lex_lt_trans a b [] p q = q
lex_lt_trans a [] (z ∷ zs) p q = ground arith
lex_lt_trans [] (y ∷ ys) (z ∷ zs) p q = refl
lex_lt_trans (x ∷ xs) (y ∷ ys) (z ∷ zs) p q = ground (arith, lex_lt_trans xs ys zs)

pub lex_lt_connex : (a b : List ℕ) → lex_lt a b ≡ false → lex_lt b a ≡ false → a ≡ b
lex_lt_connex [] [] p q = refl
lex_lt_connex [] (y ∷ ys) p q = ground arith
lex_lt_connex (x ∷ xs) [] p q = ground arith
lex_lt_connex (x ∷ xs) (y ∷ ys) p q = ground (arith, lex_lt_connex xs ys)

instance abbrev pub key_ord : Ord (List ℕ)
key_ord = record {
  lt = lex_lt;
  lt_irrefl = lex_lt_irrefl;
  lt_trans = lex_lt_trans;
  lt_connex = lex_lt_connex;
}
