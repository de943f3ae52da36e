-- ===== src/StoreFile/Laws.antt =====
-- What a read sees after a write.
use rackkey.Common.{
  ◌++◌, ◌∙◌, ℕ, zero, suc, ◌+◌, ◌-◌, ◌≤◌, ◌<◌, ◌≡◌, refl, ap, ap₂, arith, List, [], ◌∷◌, ltb, leb,
  ◌==◌, true, ◌||◌, max, ◌⊎◌, some, if◌then◌else◌, ◌&&◌, length, length-append, get_or,
}
use package.rackkey.StoreFile.{StoreFile, range, read_at, write_at}

pub range-ext :
    (f g : ℕ → ℕ) (offset n : ℕ)
    → ((i : ℕ) → offset ≤ i → i < offset + n → f i ≡ g i)
    → range f offset n ≡ range g offset n
range-ext f g offset zero same = refl
range-ext f g offset (suc n) same =
    ap₂ (λ (b : ℕ) (bs : List ℕ). b ∷ bs) (same offset (omega arith) (omega arith))
      (range-ext f g (suc offset) n (λ i l m. same i (omega arith) (omega arith)))

pub range_list :
    (f : ℕ → ℕ) (offset : ℕ) (bytes : List ℕ)
    → ((i : ℕ) → i < length bytes → f (offset + i) ≡ get_or bytes i 0)
    → range f offset (length bytes) ≡ bytes
range_list f offset [] same = refl
range_list f offset (b ∷ bytes) same =
    ap₂ (λ (c : ℕ) (cs : List ℕ). c ∷ cs)
      (let e : offset + 0 ≡ offset = omega arith in rw e at (same 0 (omega arith)))
      (range_list f (suc offset) bytes (λ i l.
        let e : offset + suc i ≡ suc offset + i = omega arith in
        rw e at (same (suc i) (omega arith))))

-- A read of what was just written gives it back.
pub read_at-write_at :
    (f : StoreFile) (offset : ℕ) (bytes : List ℕ)
    → read_at (write_at f offset bytes) offset (length bytes) ≡ some bytes
unfolding read_at write_at
read_at-write_at f offset bytes =
    rw fits (ap some (range_list (write_at f offset bytes).byte_at offset bytes λ i l. written i l))
  where
    fits :
        (length bytes == 0
          || leb
              (offset + length bytes)
              (if ltb 0 (length bytes) then max f.size (offset + length bytes) else f.size))
        ≡ true
    fits = ground arith

    written :
        (i : ℕ)
        → i < length bytes
        → (write_at f offset bytes).byte_at (offset + i) ≡ get_or bytes i 0
    written i l =
        let e : offset + i - offset ≡ i = omega arith in
        let t : (leb offset (offset + i) && ltb (offset + i) (offset + length bytes)) ≡ true =
          ground arith in
        rw (t, e)

-- A read elsewhere is not changed by a write, nor made to fail.
pub read_at-write_at_ne :
    (f : StoreFile) (offset : ℕ) (bytes : List ℕ) (at n : ℕ)
    → at + n ≤ f.size
    → (at + n ≤ offset) ⊎ (offset + length bytes ≤ at)
    → read_at (write_at f offset bytes) at n ≡ read_at f at n
unfolding read_at write_at
read_at-write_at_ne f offset bytes at n fits apart = rw (new_fits, old_fits) (ap some same)
  where
    new_fits :
        (n == 0
          || leb
              (at + n)
              (if ltb 0 (length bytes) then max f.size (offset + length bytes) else f.size))
        ≡ true
    new_fits = ground arith

    old_fits : (n == 0 || leb (at + n) f.size) ≡ true
    old_fits = ground arith

    same : range (write_at f offset bytes).byte_at at n ≡ range f.byte_at at n
    same = range-ext _ _ at n (λ i l m. ground arith)

get_or-append_left :
    (xs ys : List ℕ) (i : ℕ) → i < length xs → get_or (xs ++ ys) i 0 ≡ get_or xs i 0
get_or-append_left [] ys i l = absurd (omega arith)
get_or-append_left (x ∷ xs) ys zero l = refl
get_or-append_left (x ∷ xs) ys (suc i) l = get_or-append_left xs ys i (omega arith)

get_or-append_right : (xs ys : List ℕ) (i : ℕ) → get_or (xs ++ ys) (length xs + i) 0 ≡ get_or ys i 0
get_or-append_right [] ys i = let e : 0 + i ≡ i = omega arith in rw e refl
get_or-append_right (x ∷ xs) ys i =
    let e : suc (length xs) + i ≡ suc (length xs + i) = omega arith in
    rw e (get_or-append_right xs ys i)

-- A read of a part of what was just written gives the part back.
pub read_at-write_at_part :
    (f : StoreFile) (offset : ℕ) (xs ys zs : List ℕ)
    → read_at (write_at f offset (xs ++ (ys ++ zs))) (offset + length xs) (length ys) ≡ some ys
unfolding read_at write_at
read_at-write_at_part f offset xs ys zs = rw fits (
    ap some (
      range_list (write_at f offset (xs ++ (ys ++ zs))).byte_at (offset + length xs) ys
        λ i l. written i l))
  where
    total : length (xs ++ (ys ++ zs)) ≡ length xs + (length ys + length zs)
    total = omega (arith, length-append xs (ys ++ zs), length-append ys zs)

    fits :
        (length ys == 0
          || leb (offset + length xs + length ys) (
              if ltb 0 (length (xs ++ (ys ++ zs)))
              then max f.size (offset + length (xs ++ (ys ++ zs)))
              else f.size))
        ≡ true
    fits = ground (arith, total)

    written :
        (i : ℕ)
        → i < length ys
        → (write_at f offset (xs ++ (ys ++ zs))).byte_at (offset + length xs + i) ≡ get_or ys i 0
    written i l =
        let e : offset + length xs + i - offset ≡ length xs + i = omega arith in
        let t : (leb offset (offset + length xs + i)
              && ltb (offset + length xs + i) (offset + length (xs ++ (ys ++ zs))))
            ≡ true =
          ground (arith, total) in
        rw (t, e) (get_or-append_right xs (ys ++ zs) i ∙ get_or-append_left ys zs i l)
