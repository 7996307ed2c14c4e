-- ===== src/Admission/Counts.antt =====
-- The counters of the turns, and the tasks that they count.
use text.Mathlib.TextEquality.{eq_iff}
use text.Mathlib.Text.{◌==◌ as str_eq}
use qq_violation_bot.Prelude.{
  ℕ, ◌+◌, ◌-◌, ◌≤◌, ◌≡◌, refl, subst, inl, inr, Bool, false, not, some, List, [], ◌∷◌, ◌++◌, String,
  select, arith, All, length, ◌==◌, if◌then◌else◌, if-ind, Bool-cases,
}
use qq_violation_bot.Admission.Turns.{
  Pending, total, pending_of, set_pending, drop_pending, Task, drop_task, release,
}

pub total-set_pending :
    (key : String) (n : ℕ) (p : Pending)
    → total (set_pending key n p) + pending_of key p ≡ total p + n
total-set_pending key n [] = omega arith
total-set_pending key n (e ∷ es) = ground (arith, total-set_pending key n es)

pub pending_of-set_pending :
    (key key' : String) (n : ℕ) (p : Pending)
    → pending_of key' (set_pending key n p) ≡ (if str_eq key key' then n else pending_of key' p)
pending_of-set_pending key key' n [] = refl
pending_of-set_pending key key' n (e ∷ es) = elim (Bool-cases (str_eq e.0 key)) [
  | inl same ↦ ground (arith, same, eq_iff e.0 key)
  | inr other ↦ ground (
    arith,
    other,
    pending_of-set_pending key key' n es,
    eq_iff key key',
    eq_iff e.0 key',
    eq_iff e.0 key,
  )
]

pub total-drop_pending :
    (key : String) (p : Pending) → total (drop_pending key p) + pending_of key p ≡ total p
total-drop_pending key [] = refl
total-drop_pending key (e ∷ es) = ground (arith, total-drop_pending key es)

-- The tasks of a key.
unfoldable pub count_key : String → List Task → ℕ
count_key key [] = 0
count_key key (t ∷ ts) = if str_eq t.key key then count_key key ts + 1 else count_key key ts

pub count_key-append :
    (key : String) (ts : List Task) (t : Task)
    → count_key key (ts ++ t ∷ [])
      ≡ (if str_eq t.key key then count_key key ts + 1 else count_key key ts)
unfolding count_key
count_key-append key [] t = refl
count_key-append key (s ∷ ts) t = ground (arith, count_key-append key ts t)

-- No key stands twice.
abbrev pub Unique : Pending → Type 0
Unique [] = Unit
Unique (e ∷ es) = All (λ (d : String × ℕ). str_eq d.0 e.0 ≡ false) es × Unique es

abbrev Lacks : String → Pending → Type 0
Lacks key = All (λ (e : String × ℕ). str_eq e.0 key ≡ false)

Lacks-set_pending :
    (key key' : String) (n : ℕ) (p : Pending)
    → str_eq key key' ≡ false
    → Lacks key' p
    → Lacks key' (set_pending key n p)
Lacks-set_pending key key' n [] other v = (other, tt)
Lacks-set_pending key key' n (e ∷ es) other v =
    if-ind (Lacks key') (str_eq e.0 key) (λ _. (other, v.1))
      (λ _. (v.0, Lacks-set_pending key key' n es other v.1))

pub Unique-set_pending :
    (key : String) (n : ℕ) (p : Pending) → Unique p → Unique (set_pending key n p)
Unique-set_pending key n [] v = (tt, tt)
Unique-set_pending key n (e ∷ es) v =
    if-ind Unique (str_eq e.0 key)
      (λ same.
        let here : e.0 ≡ key = ground (arith, same, eq_iff e.0 key) in
        (subst (λ (k : String). Lacks k es) here v.0, v.1))
      (λ other. (
        Lacks-set_pending key e.0 n es (ground (arith, other, eq_iff key e.0, eq_iff e.0 key)) v.0,
        Unique-set_pending key n es v.1,
      ))

Lacks-drop_pending :
    (key key' : String) (p : Pending) → Lacks key' p → Lacks key' (drop_pending key p)
Lacks-drop_pending key key' [] v = tt
Lacks-drop_pending key key' (e ∷ es) v =
    if-ind (Lacks key') (str_eq e.0 key) (λ _. v.1) (λ _. (v.0, Lacks-drop_pending key key' es v.1))

Unique-drop_pending : (key : String) (p : Pending) → Unique p → Unique (drop_pending key p)
Unique-drop_pending key [] v = tt
Unique-drop_pending key (e ∷ es) v =
    if-ind Unique (str_eq e.0 key) (λ _. v.1)
      (λ _. (Lacks-drop_pending key e.0 es v.0, Unique-drop_pending key es v.1))

pending_of-Lacks : (key : String) (p : Pending) → Lacks key p → pending_of key p ≡ 0
pending_of-Lacks key [] v = refl
pending_of-Lacks key (e ∷ es) v = ground (arith, v.0, pending_of-Lacks key es v.1)

pending_of-drop_pending :
    (key key' : String) (p : Pending)
    → Unique p
    → pending_of key' (drop_pending key p) ≡ (if str_eq key key' then 0 else pending_of key' p)
pending_of-drop_pending key key' [] v = ground arith
pending_of-drop_pending key key' (e ∷ es) v = elim (Bool-cases (str_eq e.0 key)) [
  | inl same ↦
      let here : e.0 ≡ key = ground (arith, same, eq_iff e.0 key) in
      ground (arith, same, here, eq_iff key key', eq_iff e.0 key', pending_of-Lacks e.0 es v.0)
  | inr other ↦ ground (
    arith,
    other,
    pending_of-drop_pending key key' es v.1,
    eq_iff key key',
    eq_iff e.0 key',
    eq_iff e.0 key,
  )
]

pub pending_of-release :
    (key key' : String) (p : Pending)
    → Unique p
    → pending_of key' (release p key)
      ≡ (if str_eq key key' then pending_of key p - 1 else pending_of key' p)
unfolding release
pending_of-release key key' p v = ground (
  arith,
  pending_of-set_pending key key' (pending_of key p - 1) p,
  pending_of-drop_pending key key' p v,
)

pub total-release :
    (key : String) (p : Pending) → 1 ≤ pending_of key p → total (release p key) + 1 ≡ total p
unfolding release
total-release key p h =
    ground (arith, h, total-set_pending key (pending_of key p - 1) p, total-drop_pending key p)

pub count_key-drop_task :
    (key : String) (test : Task → Bool) (ts : List Task) (t : Task)
    → select test ts ≡ some t
    → count_key key ts ≡ (
        if str_eq t.key key
        then count_key key (drop_task test ts) + 1
        else count_key key (drop_task test ts))
unfolding select count_key drop_task
count_key-drop_task key test [] t e = absurd (cc)
count_key-drop_task key test (s ∷ ts) t e = elim (Bool-cases (test s)) [
  | inl hit ↦ ground (arith, hit, e)
  | inr miss ↦ ground (arith, miss, e, count_key-drop_task key test ts t)
]

pub length-drop_task :
    (test : Task → Bool) (ts : List Task) (t : Task)
    → select test ts ≡ some t
    → length ts ≡ length (drop_task test ts) + 1
unfolding select drop_task
length-drop_task test [] t e = absurd (cc)
length-drop_task test (s ∷ ts) t e = ground (arith, length-drop_task test ts t)

pub Unique-release : (key : String) (p : Pending) → Unique p → Unique (release p key)
unfolding release
Unique-release key p v =
    if-ind Unique (not (pending_of key p - 1 == 0))
      (λ _. Unique-set_pending key (pending_of key p - 1) p v) (λ _. Unique-drop_pending key p v)
