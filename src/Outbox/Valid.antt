-- ===== src/Outbox/Valid.antt =====
-- The well-formedness of the ledger, and the changes of single rows that keep it.
use qq_violation_bot.Prelude.{
  ℕ, ◌+◌, ◌≤◌, ◌≡◌, ◌≢◌, refl, sym, ap, subst, ◌∙◌, ◌⊎◌, Bool, true, false, Option, none, some,
  List, [], ◌∷◌, arith, All, All-map, All-update, update, select, exists, if◌then◌else◌, Bool-cases,
  inl, inr,
}
use qq_violation_bot.Outbox.Types.{
  Row, Attempt, Ledger, Status, pending, leased, sending, max_pending_alerts, is_delivered,
}
use qq_violation_bot.Outbox.Ops.{count_undelivered, has_key}

-- A row that waits or is leased may be sent once more.
abbrev pub slack : Status → ℕ
slack pending = 1
slack leased = 1
slack _ = 0

abbrev pub sends_now : Status → ℕ
sends_now sending = 1
sends_now _ = 0

abbrev pub in_hand : Status → Bool
in_hand leased = true
in_hand sending = true
in_hand _ = false

abbrev pub is_some {ℓ} : {A : Type ℓ} → Option A → Bool
is_some none = false
is_some (some a) = true

-- The attempts are within the limit, and the lease's columns are set in the two leased states only.
pub record IsSound (r : Row) : Type 0 where
  pub limit : r.attempt_count + slack r.status ≤ r.attempt_limit
  pub sent : sends_now r.status ≤ r.attempt_count
  pub token : is_some r.lease_token ≡ in_hand r.status
  pub until : is_some r.lease_until ≡ in_hand r.status

abbrev pub Distinct : List Row → Type 0
Distinct [] = Unit
Distinct (r ∷ rs) = All (λ s. s.event_key ≢ r.event_key) rs × Distinct rs

-- An attempt belongs to a row that has counted it.
abbrev pub Counted : Attempt → Row → Type 0
Counted a r = r.event_key ≡ a.event_key → a.attempt_number ≤ r.attempt_count

abbrev pub Covered : List Row → Attempt → Type 0
Covered rows a = (exists (has_key a.event_key) rows ≡ true) × All (Counted a) rows

pub record IsValid (l : Ledger) : Type 0 where
  pub sound : All IsSound l.rows
  pub keys : Distinct l.rows
  pub covered : All (Covered l.rows) l.attempts
  pub capacity : count_undelivered l.rows ≤ max_pending_alerts

-- What an UPDATE may do to a row.
pub record RowStep (r s : Row) : Type 0 where
  pub key : s.event_key ≡ r.event_key
  pub count : r.attempt_count ≤ s.attempt_count
  pub undelivered : is_delivered r.status ≡ true → is_delivered s.status ≡ true
  pub sound : IsSound r → IsSound s

abbrev pub Steps : (Row → Bool) → (Row → Row) → List Row → Type 0
Steps test f = All (λ r. test r ≡ true → RowStep r (f r))

module _ (test : Row → Bool) (f : Row → Row) where
  IsSound-update :
      (rows : List Row) → Steps test f rows → All IsSound rows → All IsSound (update test f rows)
  unfolding update
  IsSound-update [] h v = tt
  IsSound-update (r ∷ rs) h v = (
    elim (Bool-cases (test r)) [ inl e ↦ rw e ((h.0 e).sound v.0) | inr e ↦ rw e v.0 ],
    IsSound-update rs h.1 v.1,
  )

  apart-update :
      (k : ℕ) (rows : List Row)
      → Steps test f rows
      → All (λ s. s.event_key ≢ k) rows
      → All (λ s. s.event_key ≢ k) (update test f rows)
  unfolding update
  apart-update k [] h v = tt
  apart-update k (r ∷ rs) h v = (
    elim (Bool-cases (test r)) [ inl e ↦ rw (e, (h.0 e).key) v.0 | inr e ↦ rw e v.0 ],
    apart-update k rs h.1 v.1,
  )

  Distinct-update :
      (rows : List Row) → Steps test f rows → Distinct rows → Distinct (update test f rows)
  unfolding update
  Distinct-update [] h v = tt
  Distinct-update (r ∷ rs) h v = (
    elim (Bool-cases (test r)) [
      | inl e ↦ rw (e, (h.0 e).key) (apart-update r.event_key rs h.1 v.0)
      | inr e ↦ rw e (apart-update r.event_key rs h.1 v.0)
    ],
    Distinct-update rs h.1 v.1,
  )

  exists-update :
      (k : ℕ) (rows : List Row)
      → Steps test f rows
      → exists (has_key k) (update test f rows) ≡ exists (has_key k) rows
  unfolding update exists
  exists-update k [] h = refl
  exists-update k (r ∷ rs) h = elim (Bool-cases (test r)) [
    | inl e ↦ rw (e, (h.0 e).key, exists-update k rs h.1) refl
    | inr e ↦ rw (e, exists-update k rs h.1) refl
  ]

  Counted-update :
      (a : Attempt) (rows : List Row)
      → Steps test f rows
      → All (Counted a) rows
      → All (Counted a) (update test f rows)
  unfolding update
  Counted-update a [] h v = tt
  Counted-update a (r ∷ rs) h v = (
    elim (Bool-cases (test r)) [
      | inl e ↦ rw e (λ same. ground (arith, v.0 (sym (h.0 e).key ∙ same), (h.0 e).count))
      | inr e ↦ rw e v.0
    ],
    Counted-update a rs h.1 v.1,
  )

  undelivered-update :
      (rows : List Row)
      → Steps test f rows
      → count_undelivered (update test f rows) ≤ count_undelivered rows
  unfolding update
  undelivered-update [] h = omega arith
  undelivered-update (r ∷ rs) h =
      let rest = undelivered-update rs h.1 in
      elim (Bool-cases (test r)) [
        | inl e ↦ rw e (ground (arith, (h.0 e).undelivered))
        | inr e ↦ rw e (ground arith)
      ]

  pub IsValid-update :
      (l : Ledger)
      → Steps test f l.rows
      → IsValid l
      → IsValid (record l { rows = update test f l.rows })
  IsValid-update l h v = record {
    sound = IsSound-update l.rows h v.sound;
    keys = Distinct-update l.rows h v.keys;
    covered =
        All-map (Covered l.rows) (Covered (update test f l.rows)) l.attempts
          (λ (a : Attempt) c.
            (exists-update a.event_key l.rows h ∙ c.0, Counted-update a l.rows h c.1))
          v.covered;
    capacity = omega (arith, undelivered-update l.rows h, v.capacity);
  }

-- An UPDATE of the attempts keeps their keys and numbers.
pub IsValid-update_attempts :
    (l : Ledger) (test : Attempt → Bool) (f : Attempt → Attempt)
    → ((a : Attempt) → (f a).event_key ≡ a.event_key)
    → ((a : Attempt) → (f a).attempt_number ≡ a.attempt_number)
    → IsValid l
    → IsValid (record l { attempts = update test f l.attempts })
IsValid-update_attempts l test f key number v = record {
  sound = v.sound;
  keys = v.keys;
  covered =
      All-update (Covered l.rows) (Covered l.rows) test f l.attempts
        (λ a c. elim (Bool-cases (test a)) [ inl e ↦ rw (e, key a, number a) c | inr e ↦ rw e c ])
        v.covered;
  capacity = v.capacity;
}

abbrev pub Has : Row → List Row → Type 0
Has r [] = ⊥
Has r (s ∷ ss) = (s ≡ r) ⊎ Has r ss

pub Has-select :
    (test : Row → Bool) (rows : List Row) (r : Row) → select test rows ≡ some r → Has r rows
unfolding select
Has-select test [] r e = absurd (cc)
Has-select test (s ∷ rs) r e = elim (Bool-cases (test s)) [
  | inl hit ↦ inl (ground arith)
  | inr miss ↦ inr (Has-select test rs r (ground arith))
]

pub All-Has {κ} : (P : Row → Type κ) (rows : List Row) (r : Row) → All P rows → Has r rows → P r
All-Has P [] r h m = elim m [ ]
All-Has P (s ∷ rs) r h (inl e) = subst P e h.0
All-Has P (s ∷ rs) r h (inr m) = All-Has P rs r h.1 m

-- The keys being distinct, a row of the table is the only one with its key.
pub only_row :
    (rows : List Row) (r : Row)
    → Distinct rows
    → Has r rows
    → All (λ s. has_key r.event_key s ≡ true → s ≡ r) rows
only_row [] r d m = tt
only_row (s ∷ rs) r d (inl e) = (
  λ _. e,
  All-map _ _ rs (λ s' apart same. absurd (apart (ground (arith, ap (λ (x : Row). x.event_key) e))))
      d.0,
)
only_row (s ∷ rs) r d (inr m) = (
  λ same. absurd (All-Has (λ s'. s'.event_key ≢ s.event_key) rs r d.0 m (ground arith)),
  only_row rs r d.1 m,
)

pub Steps-all :
    (test : Row → Bool) (f : Row → Row) (rows : List Row)
    → ((r : Row) → test r ≡ true → RowStep r (f r))
    → Steps test f rows
Steps-all test f [] h = tt
Steps-all test f (r ∷ rs) h = (h r, Steps-all test f rs h)

-- An UPDATE by the key of a row that a SELECT has found.
pub Steps-only :
    (k : ℕ) (f : Row → Row) (rows : List Row) (r : Row)
    → All (λ s. has_key k s ≡ true → s ≡ r) rows
    → RowStep r (f r)
    → Steps (has_key k) f rows
Steps-only k f [] r h step = tt
Steps-only k f (s ∷ rs) r h step =
    (λ e. subst (λ t. RowStep t (f t)) (sym (h.0 e)) step, Steps-only k f rs r h.1 step)

pub find-Has :
    (rows : List Row) (r : Row)
    → Has r rows
    → All (λ s. has_key r.event_key s ≡ true → s ≡ r) rows
    → select (has_key r.event_key) rows ≡ some r
unfolding select
find-Has [] r m h = elim m [ ]
find-Has (s ∷ rs) r (inl e) h = rw e (ground arith)
find-Has (s ∷ rs) r (inr m) h = elim (Bool-cases (has_key r.event_key s)) [
  | inl hit ↦ rw hit (ap some (h.0 hit))
  | inr miss ↦ rw miss (find-Has rs r m h.1)
]

-- A row is found by its key before and after an UPDATE.
pub find-update :
    (test : Row → Bool) (f : Row → Row) (k : ℕ) (rows : List Row) (r : Row)
    → Steps test f rows
    → select (has_key k) rows ≡ some r
    → select (has_key k) (update test f rows) ≡ some (if test r then f r else r)
unfolding select update
find-update test f k [] r h e = absurd (cc)
find-update test f k (s ∷ rs) r h e = elim (Bool-cases (has_key k s)) [
  | inl hit ↦
      let found : s ≡ r = ground arith in
      elim (Bool-cases (test s)) [
        | inl t ↦ ground (arith, (h.0 t).key, found)
        | inr t ↦ ground (arith, found)
      ]
  | inr miss ↦
      let rest = find-update test f k rs r h.1 (ground arith) in
      elim (Bool-cases (test s)) [
        | inl t ↦ ground (arith, (h.0 t).key, rest)
        | inr t ↦ ground (arith, rest)
      ]
]

pub absent :
    (k : ℕ) (rows : List Row) → exists (has_key k) rows ≡ false → All (λ s. s.event_key ≢ k) rows
unfolding exists
absent k [] e = tt
absent k (s ∷ rs) e = elim (Bool-cases (has_key k s)) [
  | inl hit ↦ absurd (ground arith)
  | inr miss ↦ ((λ same. absurd (ground arith)), absent k rs (ground arith))
]
