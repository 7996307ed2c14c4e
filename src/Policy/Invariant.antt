-- ===== src/Policy/Invariant.antt =====
pub mod Keep
-- The well-formedness of a scope's tables, and how the smallest operations treat it.
use qq_violation_bot.Prelude.{
  ℕ, suc, ◌≤◌, ◌≡◌, ◌∙◌, Bool, true, false, Option, none, some, List, [], ◌∷◌, ◌++◌, arith, All,
  All-map, All-update, update, ◌==◌, ==_iff, if◌then◌else◌, Bool-cases, inl, inr,
}
use qq_violation_bot.Policy.Types.{Db, Policy, Cycle, is_open, is_active}
use qq_violation_bot.Policy.Events.{update_policy}
use qq_violation_bot.Policy.Cycles.{active_cycle_id, update_cycle, has_id}

abbrev pub op_count : Db → ℕ
op_count db = elim db.policy [ none ↦ 0 | some p ↦ p.v102_operation_count ]

-- The ids of the rows rise, from `lo` on and below `hi`.
abbrev pub Rising : ℕ → ℕ → List Cycle → Type 0
Rising lo hi [] = lo ≤ hi
Rising lo hi (c ∷ cs) = (lo ≤ c.id) × Rising (suc c.id) hi cs

-- An open row is the one that the policy row points at.
abbrev pub Pointed : Option ℕ → Cycle → Type 0
Pointed a c = is_open c.status ≡ true → a ≡ some c.id

-- An active row is due at `t` or later.
abbrev pub DueFrom : ℕ → Cycle → Type 0
DueFrom t c = is_active c.status ≡ true → t ≤ c.due_at

abbrev pub Closed : Cycle → Type 0
Closed c = is_open c.status ≡ false

pub record IsValidFrom (t : ℕ) (db : Db) : Type 0 where
  pub limit : op_count db ≤ 5
  pub pointed : All (Pointed (active_cycle_id db)) db.cycles
  pub due : All (DueFrom t) db.cycles
  pub ids : Rising 0 db.next_cycle db.cycles

-- At most five operations, at most one open cycle, which the policy row names, and ids in order.
abbrev pub IsValid : Db → Type 0
IsValid = IsValidFrom 0

-- The same with no open cycle at all.
pub record IsIdle (db : Db) : Type 0 where
  pub limit : op_count db ≤ 5
  pub closed : All Closed db.cycles
  pub ids : Rising 0 db.next_cycle db.cycles

-- Two states that agree on all that the invariant reads.
pub record SameCore (a b : Db) : Type 0 where
  pub ops : op_count b ≡ op_count a
  pub pointer : active_cycle_id b ≡ active_cycle_id a
  pub cycles : b.cycles ≡ a.cycles
  pub next : b.next_cycle ≡ a.next_cycle

pub SameCore-trans : {a b c : Db} → SameCore a b → SameCore b c → SameCore a c
SameCore-trans p q = record {
  ops = q.ops ∙ p.ops;
  pointer = q.pointer ∙ p.pointer;
  cycles = q.cycles ∙ p.cycles;
  next = q.next ∙ p.next;
}

pub IsValidFrom-SameCore : {t : ℕ} {a b : Db} → SameCore a b → IsValidFrom t a → IsValidFrom t b
IsValidFrom-SameCore s v = record {
  limit = rw s.ops v.limit;
  pointed = rw (s.pointer, s.cycles) v.pointed;
  due = rw s.cycles v.due;
  ids = rw (s.next, s.cycles) v.ids;
}

pub IsIdle-SameCore : {a b : Db} → SameCore a b → IsIdle a → IsIdle b
IsIdle-SameCore s v = record {
  limit = rw s.ops v.limit;
  closed = rw s.cycles v.closed;
  ids = rw (s.next, s.cycles) v.ids;
}

not_open : (c : Cycle) → is_open c.status ≡ false → is_active c.status ≡ false
not_open c h = ground arith

pub IsIdle-Pointed : (a : Option ℕ) {db : Db} → IsIdle db → All (Pointed a) db.cycles
IsIdle-Pointed a {db} v =
    All-map Closed (Pointed a) db.cycles (λ c h o. absurd (ground arith)) v.closed

pub IsIdle-IsValidFrom : (t : ℕ) {db : Db} → IsIdle db → IsValidFrom t db
IsIdle-IsValidFrom t {db} v = record {
  limit = v.limit;
  pointed = IsIdle-Pointed (active_cycle_id db) v;
  due = All-map Closed (DueFrom t) db.cycles (λ c h o. absurd (ground arith)) v.closed;
  ids = v.ids;
}

pub IsValidFrom-weaken : {s t : ℕ} {db : Db} → s ≤ t → IsValidFrom t db → IsValidFrom s db
IsValidFrom-weaken {s} {t} {db} le v = record {
  limit = v.limit;
  pointed = v.pointed;
  due = All-map (DueFrom t) (DueFrom s) db.cycles (λ c h o. ground (arith, h o)) v.due;
  ids = v.ids;
}

-- A valid scope whose pointer is empty has no open cycle.
pub IsIdle-of_no_pointer :
    {t : ℕ} {db : Db} → IsValidFrom t db → active_cycle_id db ≡ none → IsIdle db
IsIdle-of_no_pointer {t} {db} v e = record {
  limit = v.limit;
  closed =
      All-map (Pointed (active_cycle_id db)) Closed db.cycles
        (λ c h. elim (Bool-cases (is_open c.status)) [ inl o ↦ absurd (cc (h o)) | inr n ↦ n ])
        v.pointed;
  ids = v.ids;
}

Rising-weaken : (lo lo' hi : ℕ) (cs : List Cycle) → lo' ≤ lo → Rising lo hi cs → Rising lo' hi cs
Rising-weaken lo lo' hi [] le h = omega arith
Rising-weaken lo lo' hi (c ∷ cs) le h = (omega arith, h.1)

pub Rising-append :
    (lo hi : ℕ) (cs : List Cycle) (c : Cycle)
    → c.id ≡ hi
    → Rising lo hi cs
    → Rising lo (suc hi) (cs ++ c ∷ [])
Rising-append lo hi [] c e h = (omega arith, omega arith)
Rising-append lo hi (d ∷ cs) c e h = (h.0, Rising-append (suc d.id) hi cs c e h.1)

pub Rising-update :
    (lo hi : ℕ) (test : Cycle → Bool) (f : Cycle → Cycle) (cs : List Cycle)
    → ((c : Cycle) → (f c).id ≡ c.id)
    → Rising lo hi cs
    → Rising lo hi (update test f cs)
unfolding update
Rising-update lo hi test f [] keep h = h
Rising-update lo hi test f (c ∷ cs) keep h =
    let same : (if test c then f c else c).id ≡ c.id = ground (arith, keep c) in
    (omega (arith, same), rw same (Rising-update (suc c.id) hi test f cs keep h.1))

-- UPDATE … WHERE id=? on the open cycle, by a change that keeps the id and moves the due time, or
-- ends the activity.
pub IsValidFrom-update_cycle :
    {s : ℕ} {db : Db} (t i : ℕ) (f : Cycle → Cycle)
    → ((c : Cycle) → (f c).id ≡ c.id)
    → ((c : Cycle) → c.id ≡ i → DueFrom t (f c))
    → active_cycle_id db ≡ some i
    → IsValidFrom s db
    → IsValidFrom t (update_cycle i f db)
unfolding update_cycle
IsValidFrom-update_cycle {s} {db} t i f keep moved e v = record {
  limit = v.limit;
  pointed =
      All-update (Pointed (active_cycle_id db)) (Pointed (active_cycle_id db)) (has_id i) f
        db.cycles (λ c h o. ground (arith, keep c, h)) v.pointed;
  due =
      All-update (Pointed (active_cycle_id db)) (DueFrom t) (has_id i) f db.cycles
        (λ c h. elim (Bool-cases (c.id == i)) [
          | inl here ↦ rw here (moved c ((==_iff c.id i).0 here))
          | inr other ↦ rw other (λ o. absurd (ground (arith, h (ground arith))))
        ])
        v.pointed;
  ids = Rising-update 0 db.next_cycle (has_id i) f db.cycles keep v.ids;
}

-- UPDATE … WHERE id=? of columns that the invariant does not read, on whatever row.
pub IsValidFrom-touch_cycle :
    {t : ℕ} {db : Db} (i : ℕ) (f : Cycle → Cycle)
    → ((c : Cycle) → ((f c).id ≡ c.id) × ((f c).status ≡ c.status) × ((f c).due_at ≡ c.due_at))
    → IsValidFrom t db
    → IsValidFrom t (update_cycle i f db)
unfolding update_cycle
IsValidFrom-touch_cycle {t} {db} i f keep v = record {
  limit = v.limit;
  pointed =
      All-update (Pointed (active_cycle_id db)) (Pointed (active_cycle_id db)) (has_id i) f
        db.cycles (λ c h o. ground (arith, keep c, h)) v.pointed;
  due =
      All-update (DueFrom t) (DueFrom t) (has_id i) f db.cycles (λ c h o. ground (arith, keep c, h))
        v.due;
  ids = Rising-update 0 db.next_cycle (has_id i) f db.cycles (λ c. (keep c).0) v.ids;
}

-- The same by a change that closes the row: no cycle is open any more.
pub IsIdle-update_cycle :
    {s : ℕ} {db : Db} (i : ℕ) (f : Cycle → Cycle)
    → ((c : Cycle) → (f c).id ≡ c.id)
    → ((c : Cycle) → Closed (f c))
    → active_cycle_id db ≡ some i
    → IsValidFrom s db
    → IsIdle (update_cycle i f db)
unfolding update_cycle
IsIdle-update_cycle {s} {db} i f keep closes e v = record {
  limit = v.limit;
  closed =
      All-update (Pointed (active_cycle_id db)) Closed (has_id i) f db.cycles
        (λ c h. elim (Bool-cases (c.id == i)) [
          | inl here ↦ rw here (closes c)
          | inr other ↦ rw other (ground (arith, h))
        ])
        v.pointed;
  ids = Rising-update 0 db.next_cycle (has_id i) f db.cycles keep v.ids;
}

pub IsValidFrom-of_cycles :
    {t : ℕ} {a b : Db}
    → op_count b ≤ 5
    → active_cycle_id b ≡ active_cycle_id a
    → b.cycles ≡ a.cycles
    → b.next_cycle ≡ a.next_cycle
    → IsValidFrom t a
    → IsValidFrom t b
IsValidFrom-of_cycles limit pointer same next v = record {
  limit = limit;
  pointed = rw (pointer, same) v.pointed;
  due = rw same v.due;
  ids = rw (next, same) v.ids;
}

-- A state with the same rows of cycles and a count within the limit.
pub IsIdle-of_cycles :
    {a b : Db}
    → op_count b ≤ 5
    → b.cycles ≡ a.cycles
    → b.next_cycle ≡ a.next_cycle
    → IsIdle a
    → IsIdle b
IsIdle-of_cycles limit same next v = record {
  limit = limit;
  closed = rw same v.closed;
  ids = rw (next, same) v.ids;
}

module _ (f : Policy → Policy) (db : Db) where
  pub cycles-update_policy : (update_policy f db).cycles ≡ db.cycles
  unfolding update_policy
  cycles-update_policy = ground arith

  pub next_cycle-update_policy : (update_policy f db).next_cycle ≡ db.next_cycle
  unfolding update_policy
  next_cycle-update_policy = ground arith

  -- A change of the policy row that keeps its count within the limit.
  pub IsIdle-update_policy :
      ((p : Policy) → p.v102_operation_count ≤ 5 → (f p).v102_operation_count ≤ 5)
      → IsIdle db
      → IsIdle (update_policy f db)
  IsIdle-update_policy keep v =
      IsIdle-of_cycles {a = db} limit cycles-update_policy next_cycle-update_policy v
    where
      limit : op_count (update_policy f db) ≤ 5
      limit =
          elim db.policy
              as (λ o.
                op_count (record db { policy = o }) ≤ 5
                → op_count (update_policy f (record db { policy = o })) ≤ 5) [
                  | none ↦ λ h. unfold update_policy in h
                  | some p ↦ λ h. unfold update_policy in keep p h
                ]
            v.limit

  pub SameCore-update_policy :
      ((p : Policy) → (f p).v102_operation_count ≡ p.v102_operation_count)
      → ((p : Policy) → (f p).active_cycle_id ≡ p.active_cycle_id)
      → SameCore db (update_policy f db)
  unfolding update_policy
  SameCore-update_policy ops pointer = record {
    ops = grind arith;
    pointer = grind arith;
    cycles = cycles-update_policy;
    next = next_cycle-update_policy;
  }
