-- ===== src/Features/Lists.antt =====
-- Sorted lists of ids without repetitions: `tuple(sorted(set(values)))`.
use qq_violation_bot.Prelude.{
  ℕ, ◌<◌, ◌≡◌, refl, Bool, false, not, ◌||◌, List, [], ◌∷◌, ◌++◌, arith, ltb, ltb→lt, ==_iff, ◌==◌,
  ◌&&◌, All, if◌then◌else◌, if-ind, Bool-cases, inl, inr,
}

abbrev pub elem : ℕ → List ℕ → Bool
elem n [] = false
elem n (x ∷ xs) = n == x || elem n xs

abbrev pub insert_sorted : ℕ → List ℕ → List ℕ
insert_sorted n [] = n ∷ []
insert_sorted n (x ∷ xs) =
    if ltb n x then n ∷ x ∷ xs else if n == x then x ∷ xs else x ∷ insert_sorted n xs

abbrev pub sorted_set : List ℕ → List ℕ
sorted_set [] = []
sorted_set (x ∷ xs) = insert_sorted x (sorted_set xs)

abbrev pub remove_id : ℕ → List ℕ → List ℕ
remove_id n [] = []
remove_id n (x ∷ xs) = if x == n then remove_id n xs else x ∷ remove_id n xs

-- The ids rise, from above `low` on.
abbrev pub IsRising : ℕ → List ℕ → Type 0
IsRising low [] = Unit
IsRising low (x ∷ xs) = (low < x) × IsRising x xs

pub IsRising-weaken : (low x : ℕ) (xs : List ℕ) → low < x → IsRising x xs → IsRising low xs
IsRising-weaken low x [] h r = tt
IsRising-weaken low x (y ∷ ys) h r = (omega (arith, r.0), r.1)

pub IsRising-positive : (low : ℕ) (xs : List ℕ) → IsRising low xs → All (λ n. 0 < n) xs
IsRising-positive low [] r = tt
IsRising-positive low (x ∷ xs) r = (omega (arith, r.0), IsRising-positive x xs r.1)

pub All-snoc : (n : ℕ) (xs : List ℕ) → All (λ m. 0 < m) xs → 0 < n → All (λ m. 0 < m) (xs ++ n ∷ [])
All-snoc n [] h k = (k, tt)
All-snoc n (x ∷ xs) h k = (h.0, All-snoc n xs h.1 k)

pub IsRising-insert_sorted :
    (low n : ℕ) (xs : List ℕ) → low < n → IsRising low xs → IsRising low (insert_sorted n xs)
IsRising-insert_sorted low n [] h r = (h, tt)
IsRising-insert_sorted low n (x ∷ xs) h r =
    if-ind (IsRising low) (ltb n x) (λ less. (h, (ltb→lt n x less, r.1)))
      (λ more.
        if-ind (IsRising low) (n == x) (λ _. r)
          (λ other. (r.0, IsRising-insert_sorted x n xs (ground (arith, other, more)) r.1)))

pub IsRising-sorted_set : (xs : List ℕ) → All (λ n. 0 < n) xs → IsRising 0 (sorted_set xs)
IsRising-sorted_set [] positive = tt
IsRising-sorted_set (x ∷ xs) positive =
    IsRising-insert_sorted 0 x (sorted_set xs) positive.0 (IsRising-sorted_set xs positive.1)

pub IsRising-remove_id : (low n : ℕ) (xs : List ℕ) → IsRising low xs → IsRising low (remove_id n xs)
IsRising-remove_id low n [] r = tt
IsRising-remove_id low n (x ∷ xs) r =
    let rest = IsRising-remove_id x n xs r.1 in
    if-ind (IsRising low) (x == n) (λ _. IsRising-weaken low x (remove_id n xs) r.0 rest)
      (λ _. (r.0, rest))

-- An id below the list is put before it.
insert_least : (x : ℕ) (xs : List ℕ) → IsRising x xs → insert_sorted x xs ≡ x ∷ xs
insert_least x [] r = refl
insert_least x (y ∷ ys) r = ground (arith, r.0)

pub sorted_set-sorted : (low : ℕ) (xs : List ℕ) → IsRising low xs → sorted_set xs ≡ xs
sorted_set-sorted low [] r = refl
sorted_set-sorted low (x ∷ xs) r = rw (sorted_set-sorted x xs r.1) (insert_least x xs r.1)

insert_twice :
    (low n x : ℕ) (xs : List ℕ)
    → IsRising low (x ∷ xs)
    → insert_sorted x (insert_sorted n xs) ≡ insert_sorted n (x ∷ xs)
insert_twice low n x xs r = elim (Bool-cases (ltb n x)) [
  | inl less ↦
      let h = ltb→lt n x less in
      rw (less, insert_least n xs (IsRising-weaken n x xs h r.1)) ground
        (arith, insert_least x xs r.1)
  | inr more ↦ elim (Bool-cases (n == x)) [
    | inl same ↦
        let e = (==_iff n x).0 same in rw (more, same, e, insert_least x xs r.1) ground arith
    | inr other ↦
        rw (more, other)
          (insert_least x (insert_sorted n xs)
            (IsRising-insert_sorted x n xs (ground (arith, other, more)) r.1))
  ]
]

-- A new id at the end of a sorted list comes to its place.
pub sorted_set-append :
    (low n : ℕ) (xs : List ℕ) → IsRising low xs → sorted_set (xs ++ n ∷ []) ≡ insert_sorted n xs
sorted_set-append low n [] r = refl
sorted_set-append low n (x ∷ xs) r = rw (sorted_set-append x n xs r.1) (insert_twice low n x xs r)

pub elem-insert_sorted :
    (m n : ℕ) (xs : List ℕ) → elem m (insert_sorted n xs) ≡ (m == n || elem m xs)
elem-insert_sorted m n [] = refl
elem-insert_sorted m n (x ∷ xs) = ground (arith, elem-insert_sorted m n xs)

pub elem-remove_id : (m n : ℕ) (xs : List ℕ) → elem m (remove_id n xs) ≡ (not (m == n) && elem m xs)
elem-remove_id m n [] = ground arith
elem-remove_id m n (x ∷ xs) = ground (arith, elem-remove_id m n xs)

pub remove_id-absent : (n : ℕ) (xs : List ℕ) → elem n xs ≡ false → remove_id n xs ≡ xs
remove_id-absent n [] absent = refl
remove_id-absent n (x ∷ xs) absent = ground (arith, remove_id-absent n xs)

pub remove_id-insert_sorted :
    (n : ℕ) (xs : List ℕ) → elem n xs ≡ false → remove_id n (insert_sorted n xs) ≡ xs
remove_id-insert_sorted n [] absent = ground arith
remove_id-insert_sorted n (x ∷ xs) absent =
    ground (arith, remove_id-absent n xs, remove_id-insert_sorted n xs)
