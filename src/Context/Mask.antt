-- ===== src/Context/Mask.antt =====
-- A set of indices into a list, as one flag for each of its items.
use qq_violation_bot.Prelude.{
  ℕ, zero, suc, ◌+◌, ◌≤◌, ◌≡◌, refl, Bool, true, false, List, [], ◌∷◌, length, arith, if◌then◌else◌,
}

abbrev pub empty_mask {ℓ} : {A : Type ℓ} → List A → List Bool
empty_mask [] = []
empty_mask (x ∷ xs) = false ∷ empty_mask xs

abbrev pub set_at : ℕ → List Bool → List Bool
set_at i [] = []
set_at zero (b ∷ bs) = true ∷ bs
set_at (suc i) (b ∷ bs) = b ∷ set_at i bs

abbrev pub set_all : List ℕ → List Bool → List Bool
set_all [] m = m
set_all (i ∷ is) m = set_all is (set_at i m)

-- len(kept)
abbrev pub count_set : List Bool → ℕ
count_set [] = 0
count_set (b ∷ bs) = (if b then 1 else 0) + count_set bs

-- [item for index, item in enumerate(items) if index in kept]
abbrev pub pick {ℓ} : {A : Type ℓ} → List Bool → List A → List A
pick [] xs = []
pick (b ∷ bs) [] = []
pick (b ∷ bs) (x ∷ xs) = let rest = pick bs xs in if b then x ∷ rest else rest

pub length-set_at : (i : ℕ) (m : List Bool) → length (set_at i m) ≡ length m
length-set_at i [] = refl
length-set_at zero (b ∷ bs) = refl
length-set_at (suc i) (b ∷ bs) = omega (arith, length-set_at i bs)

pub length-set_all : (is : List ℕ) (m : List Bool) → length (set_all is m) ≡ length m
length-set_all [] m = refl
length-set_all (i ∷ is) m = omega (arith, length-set_all is (set_at i m), length-set_at i m)

pub length-empty_mask {ℓ} : {A : Type ℓ} (xs : List A) → length (empty_mask xs) ≡ length xs
length-empty_mask [] = refl
length-empty_mask (x ∷ xs) = omega (arith, length-empty_mask xs)

pub count_empty {ℓ} : {A : Type ℓ} (xs : List A) → count_set (empty_mask xs) ≡ 0
count_empty [] = refl
count_empty (x ∷ xs) = omega (arith, count_empty xs)

pub count_set-set_at : (i : ℕ) (m : List Bool) → count_set (set_at i m) ≤ count_set m + 1
count_set-set_at i [] = omega arith
count_set-set_at zero (b ∷ bs) = ground arith
count_set-set_at (suc i) (b ∷ bs) = omega (arith, count_set-set_at i bs)

pub length-pick {ℓ} :
    {A : Type ℓ} (m : List Bool) (xs : List A)
    → length m ≡ length xs
    → length (pick m xs) ≡ count_set m
length-pick [] xs h = refl
length-pick (b ∷ bs) [] h = absurd (omega (arith, h))
length-pick (true ∷ bs) (x ∷ xs) h = omega (arith, length-pick bs xs (omega (arith, h)))
length-pick (false ∷ bs) (x ∷ xs) h = omega (arith, length-pick bs xs (omega (arith, h)))

-- All the flags from an index on are set.
abbrev pub SetFrom : ℕ → List Bool → Type 0
SetFrom i [] = Unit
SetFrom zero (b ∷ bs) = (b ≡ true) × SetFrom 0 bs
SetFrom (suc i) (b ∷ bs) = SetFrom i bs

pub SetFrom-length : (m : List Bool) → SetFrom (length m) m
SetFrom-length [] = tt
SetFrom-length (b ∷ bs) = SetFrom-length bs

pub SetFrom-set_at : (i : ℕ) (m : List Bool) → SetFrom (suc i) m → SetFrom i (set_at i m)
SetFrom-set_at i [] h = tt
SetFrom-set_at zero (b ∷ bs) h = (refl, h)
SetFrom-set_at (suc i) (b ∷ bs) h = SetFrom-set_at i bs h

pub count_full : (m : List Bool) → SetFrom 0 m → count_set m ≡ length m
count_full [] h = refl
count_full (true ∷ bs) h = omega (arith, count_full bs h.1)
count_full (false ∷ bs) h = absurd (cc)
