-- ===== src/Policy/Settle/Total.antt =====
-- settle_due_cycles ends: the number of rounds is bounded by the time, and the invariant holds after.
use qq_violation_bot.Prelude.{
  ℕ, zero, suc, ◌+◌, ◌≤◌, ◌≡◌, sym, ap, true, false, none, some, List, [], ◌∷◌, arith, Bool-cases,
  Option-cases, ◌⊎◌, inl, inr, select, All,
}
use mathlib.Core.Path.{subst}
use qq_violation_bot.Policy.Types.{Db, Cycle, is_active}
use qq_violation_bot.Policy.Cycles.{active_cycle_id, has_id}
use qq_violation_bot.Policy.Invariant.{
  IsValid, IsValidFrom, IsValidFrom-weaken, IsValidFrom-SameCore, SameCore, Pointed, DueFrom,
  Rising,
}
use qq_violation_bot.Policy.Settle.{
  is_due, first_due, next_due, settle_one, left_active, settle_loop, settle_due_cycles,
}
use qq_violation_bot.Policy.Settle.Step.{Progress, advanced, stuck, Progress-settle_one}

first_due-cons :
    (now : ℕ) (c : Cycle) (cs : List Cycle) (d : Cycle)
    → first_due now (c ∷ cs) ≡ some d
    → ((d ≡ c) × (is_due now c ≡ true)) ⊎ (first_due now cs ≡ some d)
unfolding first_due
first_due-cons now c cs d e = ground arith

nothing_due : (now : ℕ) (d : Cycle) → first_due now [] ≡ some d → ⊥
unfolding first_due
nothing_due now d e = cc

first_due-All :
    (P : Cycle → Type 0) (now : ℕ) (cs : List Cycle) (d : Cycle)
    → All P cs
    → first_due now cs ≡ some d
    → P d
first_due-All P now [] d h e = absurd (nothing_due now d e)
first_due-All P now (c ∷ cs) d h e = elim (first_due-cons now c cs d e) [
  | inl here ↦ subst P (sym here.0) h.0
  | inr later ↦ first_due-All P now cs d h.1 later
]

first_due-is_due :
    (now : ℕ) (cs : List Cycle) (d : Cycle) → first_due now cs ≡ some d → is_due now d ≡ true
first_due-is_due now [] d e = absurd (nothing_due now d e)
first_due-is_due now (c ∷ cs) d e = elim (first_due-cons now c cs d e) [
  | inl here ↦ rw here.0 here.1
  | inr later ↦ first_due-is_due now cs d later
]

-- The ids are distinct, so the row that is read back by its id is the row that was found.
select_found :
    (now lo hi : ℕ) (cs : List Cycle) (d : Cycle)
    → Rising lo hi cs
    → first_due now cs ≡ some d
    → (lo ≤ d.id) × (select (has_id d.id) cs ≡ some d)
unfolding select
select_found now lo hi [] d h e = absurd (nothing_due now d e)
select_found now lo hi (c ∷ cs) d h e = elim (first_due-cons now c cs d e) [
  | inl here ↦ (ground (arith, h.0), ground arith)
  | inr later ↦
      let (le, found) = select_found now (suc c.id) hi cs d h.1 later in
      (omega arith, ground (arith, found))
]

first_due_of_next :
    (db : Db) (now : ℕ) (c : Cycle) → next_due db now ≡ some c → first_due now db.cycles ≡ some c
unfolding next_due
first_due_of_next db now c e = ground arith

module _ {t : ℕ} (db : Db) (now : ℕ) (c : Cycle) (v : IsValidFrom t db)
    (found : next_due db now ≡ some c) where
  first : first_due now db.cycles ≡ some c
  first = first_due_of_next db now c found

  -- The cycle that the loop takes is active, due, and the one that the policy row names.
  is_active_found : (is_active c.status ≡ true) × (c.due_at ≤ now)
  unfolding is_due
  is_active_found = ground (arith, first_due-is_due now db.cycles c first)

  pointer_found : active_cycle_id db ≡ some c.id
  pointer_found =
      first_due-All (Pointed (active_cycle_id db)) now db.cycles c v.pointed first
        (ground (arith, is_active_found))

  le-due_found : t ≤ c.due_at
  le-due_found = first_due-All (DueFrom t) now db.cycles c v.due first is_active_found.0

  -- When the cycles did not change, the row that is read back is still active.
  left_active_unchanged : {b : Db} → SameCore db b → left_active b c.id ≡ false
  unfolding left_active
  left_active_unchanged s =
      rw (s.cycles, (select_found now 0 db.next_cycle db.cycles c v.ids first).1, left_active)
        (ground (arith, is_active_found))

-- How the loop ends: nothing is due, or the last round reported no change and the cycle is active.
abbrev pub Finished : Db → ℕ → Type 0
Finished db now =
    (next_due db now ≡ none)
    ⊎ ((b : Db) × (c : Cycle) × (next_due b now ≡ some c)
        × (settle_one b c now ≡ (false, db))
        × (left_active db c.id ≡ false))

abbrev pub Ends : ℕ → Db → ℕ → ℕ → Type 0
Ends fuel db now settled =
    (r : ℕ × Db) × (settle_loop fuel db now settled ≡ some r) × IsValid r.1 × Finished r.1 now

-- A round that moved on leaves the rest to the loop; one that did not ends it.
round-Ends :
    {t : ℕ} (fuel : ℕ) (db : Db) (now settled : ℕ) (c : Cycle)
    → IsValidFrom t db
    → next_due db now ≡ some c
    → ((d : Db) (n : ℕ) → IsValidFrom (suc c.due_at) d → Ends fuel d now n)
    → Progress db c (settle_one db c now)
    → Ends (suc fuel) db now settled
unfolding settle_loop
round-Ends fuel db now settled c v e rec (advanced v') = elim (Bool-cases (settle_one db c now).0) [
  | inl changed ↦
      let (r, runs, rest) = again (settled + 1) in
      (r, rw (e, settle_loop, changed) runs, rest.0, rest.1)
  | inr same ↦ elim (Bool-cases (left_active (settle_one db c now).1 c.id)) [
    | inl gone ↦
        let (r, runs, rest) = again settled in
        (r, rw (e, settle_loop, same, gone) runs, rest.0, rest.1)
    | inr still ↦ (
      (settled, (settle_one db c now).1),
      rw (e, settle_loop, same, still),
      IsValidFrom-weaken {t = suc c.due_at} (omega arith) v',
      inr (db, c, e, ap (λ b. (b, (settle_one db c now).1)) same, still),
    )
  ]
]
  where
    again :
        (n : ℕ)
        → (r : ℕ × Db) × (settle_loop fuel (settle_one db c now).1 now n ≡ some r)
          × (IsValid r.1 × Finished r.1 now)
    again n = let x = rec (settle_one db c now).1 n v' in (x.0, x.1, (x.2, x.3))
round-Ends {t} fuel db now settled c v e rec (stuck same s) =
    let still = left_active_unchanged db now c v e s in
    (
      (settled, (settle_one db c now).1),
      rw (e, settle_loop, same, still),
      IsValidFrom-weaken {t = t} (omega arith) (IsValidFrom-SameCore s v),
      inr (db, c, e, ap (λ b. (b, (settle_one db c now).1)) same, still),
    )

nothing_due-Ends :
    {t : ℕ} (fuel : ℕ) (db : Db) (now settled : ℕ)
    → IsValidFrom t db
    → next_due db now ≡ none
    → Ends (suc fuel) db now settled
unfolding settle_loop
nothing_due-Ends {t} fuel db now settled v e =
    ((settled, db), rw (e, settle_loop), IsValidFrom-weaken {t = t} (omega arith) v, inl e)

settle_loop_total :
    (fuel : ℕ) (t : ℕ) (db : Db) (now settled : ℕ)
    → IsValidFrom t db
    → suc now ≤ t + fuel
    → Ends (suc fuel) db now settled
settle_loop_total zero t db now settled v room = elim (Option-cases (next_due db now)) [
  | inl e ↦ nothing_due-Ends zero db now settled v e
  | inr (c, e) ↦ absurd (omega (arith, le-due_found db now c v e, (is_active_found db now c v e).1))
]
settle_loop_total (suc fuel) t db now settled v room = elim (Option-cases (next_due db now)) [
  | inl e ↦ nothing_due-Ends (suc fuel) db now settled v e
  | inr (c, e) ↦
      round-Ends (suc fuel) db now settled c v e
        (λ d n v'.
          settle_loop_total fuel (suc c.due_at) d now n v'
            (omega (arith, le-due_found db now c v e)))
        (Progress-settle_one db c v (pointer_found db now c v e) now)
]

-- On a well-formed scope, whatever the time, the `while True` of settle_due_cycles ends within
-- `now + 2` rounds. It leaves the scope well-formed, and either no cycle is due any more (or the
-- scope is under review), or the last round reported no change and left its cycle active.
pub settle_due_cycles-total :
    (db : Db) (now : ℕ)
    → IsValid db
    → (r : ℕ × Db) × (settle_due_cycles db now ≡ some r) × IsValid r.1 × Finished r.1 now
unfolding settle_due_cycles
settle_due_cycles-total db now v = settle_loop_total (suc now) 0 db now 0 v (omega arith)
