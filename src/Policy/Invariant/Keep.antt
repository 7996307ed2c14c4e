-- ===== src/Policy/Invariant/Keep.antt =====
-- The operations of the event log, of the pending actions and of the counts keep what the invariant
-- reads; those of the cycles keep the invariant.
use qq_violation_bot.Prelude.{
  ℕ, suc, ◌≤◌, ◌<◌, ◌≡◌, refl, ◌∙◌, Bool, true, false, Option, none, some, List, [], ◌∷◌, ◌++◌,
  String, arith, All, All-append, select, select_test, Bool-cases, inl, inr, leb, ◌==◌, ◌&&◌,
}
use qq_violation_bot.Policy.Types.{
  Db, Policy, Cycle, CycleType, NoCycleReason, ActionType, Payload, terminal_status,
  operation_limit, zero_count, is_terminal, is_normal_or_slow, is_normal, is_open, cancelled,
  normal,
}
use qq_violation_bot.Policy.Count.{Cutoff, sync_count_state, current_count}
use qq_violation_bot.Policy.Events.{
  NewEvent, insert_event, ensure_policy_state, create_pending_action, resolve_pending_actions,
}
use qq_violation_bot.Policy.Cycles.{
  active_cycle_id, active_cycle, update_cycle, set_no_cycle, open_cycle, start_cycle,
  cancel_active_cycle, record_reduction, apply_reduction, cycle_row, length_days, reduction_amount,
  clear_pointer, close_row, find_open, has_id,
}
use qq_violation_bot.Policy.Settle.{set_pending_due, set_payload, continue_normal}
use qq_violation_bot.Policy.Invariant.{
  op_count, IsValidFrom, IsIdle, Pointed, Closed, SameCore, IsIdle-update_cycle,
  IsIdle-update_policy, IsIdle-of_cycles, IsValidFrom-of_cycles, IsIdle-IsValidFrom, IsIdle-Pointed,
  IsIdle-SameCore, IsValidFrom-SameCore, Rising-append,
}

pub SameCore-insert_event : (db : Db) (e : NewEvent) → SameCore db (insert_event db e).2
unfolding insert_event
SameCore-insert_event db e = record {
  ops = ground arith;
  pointer = ground arith;
  cycles = ground arith;
  next = ground arith;
}

pub SameCore-sync : (db : Db) (cut : Cutoff) → SameCore db (sync_count_state db cut)
unfolding sync_count_state
SameCore-sync db cut = record { ops = refl; pointer = refl; cycles = refl; next = refl }

pub SameCore-ensure : (db : Db) → SameCore db (ensure_policy_state db).1
unfolding ensure_policy_state
SameCore-ensure db = record {
  ops = ground arith;
  pointer = ground arith;
  cycles = ground arith;
  next = ground arith;
}

-- The row that comes back is the one in the tables.
pub op_count-ensure :
    (db : Db)
    → (ensure_policy_state db).0.v102_operation_count ≡ op_count (ensure_policy_state db).1
unfolding ensure_policy_state
op_count-ensure db = ground arith

pub policy-ensure : (db : Db) → (ensure_policy_state db).1.policy ≡ some (ensure_policy_state db).0
unfolding ensure_policy_state
policy-ensure db = ground arith

pub SameCore-refl : (db : Db) → SameCore db db
SameCore-refl db = record { ops = refl; pointer = refl; cycles = refl; next = refl }

pub SameCore-create_pending :
    (db : Db) (a : ActionType) (why : String) (e : ℕ)
    → SameCore db (create_pending_action db a why e).1
unfolding create_pending_action
SameCore-create_pending db a why e = record {
  ops = ground arith;
  pointer = ground arith;
  cycles = ground arith;
  next = ground arith;
}

pub SameCore-resolve :
    (db : Db) (e : ℕ) (types : ActionType → Bool) → SameCore db (resolve_pending_actions db e types)
unfolding resolve_pending_actions
SameCore-resolve db e types = record {
  ops = ground arith;
  pointer = ground arith;
  cycles = ground arith;
  next = ground arith;
}

pub SameCore-set_pending_due : (i due : ℕ) (db : Db) → SameCore db (set_pending_due i due db)
unfolding set_pending_due
SameCore-set_pending_due i due db = record {
  ops = refl;
  pointer = refl;
  cycles = refl;
  next = refl;
}

pub SameCore-set_payload : (e : ℕ) (x : Payload) (db : Db) → SameCore db (set_payload e x db)
unfolding set_payload
SameCore-set_payload e x db = record { ops = refl; pointer = refl; cycles = refl; next = refl }

pub IsIdle-set_no_cycle :
    {db : Db} (why : NoCycleReason) (tag : Bool) → IsIdle db → IsIdle (set_no_cycle db why tag)
unfolding set_no_cycle
IsIdle-set_no_cycle {db} why tag v = IsIdle-update_policy _ db (λ p h. h) v

op_count-record_reduction :
    (db : Db) (applied : ℕ) → op_count db < 5 → op_count (record_reduction db applied) ≤ 5
unfolding record_reduction
op_count-record_reduction db applied h = ground arith

-- A reduction below the limit of five.
pub IsIdle-record_reduction :
    (db : Db) (applied : ℕ) → op_count db < 5 → IsIdle db → IsIdle (record_reduction db applied)
unfolding record_reduction
IsIdle-record_reduction db applied h v =
    IsIdle-of_cycles {a = db} (op_count-record_reduction db applied h) (ground arith) (ground arith)
      v

pub IsValidFrom-record_reduction :
    {t : ℕ} (db : Db) (applied : ℕ)
    → op_count db < 5
    → IsValidFrom t db
    → IsValidFrom t (record_reduction db applied)
unfolding record_reduction
IsValidFrom-record_reduction db applied h v =
    IsValidFrom-of_cycles {a = db} (op_count-record_reduction db applied h) (ground arith)
      (ground arith) (ground arith) v

-- What _start_cycle inserts, read back from the tables.
module _ (db : Db) (t : CycleType) (start level caused_by sequence generation : ℕ) where
  unfoldable pub new_cycle : Cycle
  new_cycle = cycle_row db.next_cycle t start level sequence generation

  pub cycles-open_cycle :
      (open_cycle db t start level caused_by sequence generation).cycles
      ≡ db.cycles ++ new_cycle ∷ []
  unfolding open_cycle new_cycle
  cycles-open_cycle = ground arith

  pub next_cycle-open_cycle :
      (open_cycle db t start level caused_by sequence generation).next_cycle ≡ suc db.next_cycle
  unfolding open_cycle
  next_cycle-open_cycle = ground arith

  pub op_count-open_cycle :
      op_count (open_cycle db t start level caused_by sequence generation) ≡ op_count db
  unfolding open_cycle
  op_count-open_cycle = ground arith

  pub active_cycle_id-open_cycle :
      (p : Policy)
      → db.policy ≡ some p
      → active_cycle_id (open_cycle db t start level caused_by sequence generation)
        ≡ some db.next_cycle
  unfolding open_cycle
  active_cycle_id-open_cycle p e = ground arith

  due-new_cycle : start < new_cycle.due_at
  unfolding new_cycle cycle_row length_days
  due-new_cycle = ground arith

  -- The new cycle is the only open one, and it is due after its start.
  pub IsValidFrom-open_cycle :
      (p : Policy)
      → db.policy ≡ some p
      → IsIdle db
      → IsValidFrom (suc start) (open_cycle db t start level caused_by sequence generation)
  unfolding new_cycle cycle_row
  IsValidFrom-open_cycle p e v = record {
    limit = rw op_count-open_cycle v.limit;
    pointed =
        rw (cycles-open_cycle, active_cycle_id-open_cycle p e)
          (All-append _ db.cycles _ (IsIdle-Pointed (some db.next_cycle) v) (λ _. refl));
    due =
        rw cycles-open_cycle
          (All-append _ db.cycles _ (IsIdle-IsValidFrom (suc start) v).due (λ _. due-new_cycle));
    ids =
        rw (cycles-open_cycle, next_cycle-open_cycle)
          (Rising-append 0 db.next_cycle db.cycles new_cycle refl v.ids);
  }

module _ (db : Db) (t : CycleType) (start caused_by sequence generation : ℕ) where
  -- From a scope with no open cycle, whether the cycle is opened or refused.
  pub IsValidFrom-start_cycle :
      IsIdle db → IsValidFrom (suc start) (start_cycle db t start caused_by sequence generation).1
  unfolding start_cycle
  IsValidFrom-start_cycle v =
      let (policy, db') = ensure_policy_state db in
      elim (Bool-cases (is_terminal db'.business.status)) [
        | inl e ↦ rw e (refused terminal_status true)
        | inr e ↦
            rw e (elim (Bool-cases (leb 5 policy.v102_operation_count && is_normal_or_slow t)) [
              | inl e ↦ rw e (refused operation_limit false)
              | inr e ↦ rw e (elim (Bool-cases (current_count db'.business == 0 && is_normal t)) [
                | inl e ↦ rw e (refused zero_count false)
                | inr e ↦ rw e (
                    IsValidFrom-open_cycle _ t start _ caused_by sequence generation _
                      (policy-ensure db) idle)
              ])
            ])
      ]
    where
      idle : IsIdle (ensure_policy_state db).1
      idle = IsIdle-SameCore (SameCore-ensure db) v

      refused :
          (why : NoCycleReason) (tag : Bool)
          → IsValidFrom (suc start) (set_no_cycle (ensure_policy_state db).1 why tag)
      refused why tag = IsIdle-IsValidFrom (suc start) (IsIdle-set_no_cycle why tag idle)

-- From a scope with no open cycle, a settlement goes on from the due time of the settled cycle.
pub IsValidFrom-continue_normal :
    (db : Db) (c : Cycle) (e : ℕ) → IsIdle db → IsValidFrom (suc c.due_at) (continue_normal db c e)
unfolding continue_normal
IsValidFrom-continue_normal db c e v = elim (Bool-cases (current_count db.business == 0)) [
  | inl e ↦ rw e (refused zero_count)
  | inr e ↦ rw e (elim (Bool-cases (leb 5 (ensure_policy_state db).0.v102_operation_count)) [
    | inl e ↦ rw e (refused operation_limit)
    | inr e ↦ rw e (IsValidFrom-start_cycle _ normal c.due_at _ 0 c.replay_generation idle)
  ])
]
  where
    idle : IsIdle (ensure_policy_state db).1
    idle = IsIdle-SameCore (SameCore-ensure db) v

    refused :
        (why : NoCycleReason)
        → IsValidFrom (suc c.due_at) (set_no_cycle (ensure_policy_state db).1 why false)
    refused why = IsIdle-IsValidFrom (suc c.due_at) (IsIdle-set_no_cycle why false idle)

-- A reduction is made below the limit of five only.
pub reduction_room :
    (n current : ℕ) (p : Policy)
    → (reduction_amount n current p == 0) ≡ false
    → p.v102_operation_count < 5
unfolding reduction_amount
reduction_room n current p h = ground arith

pub IsValidFrom-apply_reduction :
    {t : ℕ} (db : Db) (n : ℕ) (cut : Cutoff)
    → IsValidFrom t db
    → IsValidFrom t (apply_reduction db n cut).1
unfolding apply_reduction
IsValidFrom-apply_reduction {t} db n cut v =
    IsValidFrom-SameCore (SameCore-sync _ cut) (elim (Bool-cases (amount == 0)) [
      | inl e ↦ rw e ensured
      | inr e ↦ rw e (
          IsValidFrom-record_reduction _ _
            (rw (← op_count-ensure (sync_count_state db cut)) (reduction_room n _ _ e)) ensured)
    ])
  where
    amount : ℕ
    amount =
        reduction_amount n (current_count (sync_count_state db cut).business)
          (ensure_policy_state (sync_count_state db cut)).0

    ensured : IsValidFrom t (ensure_policy_state (sync_count_state db cut)).1
    ensured =
        IsValidFrom-SameCore (SameCore-ensure _) (IsValidFrom-SameCore (SameCore-sync db cut) v)

find_open-pointer : (db : Db) (o : Option ℕ) (c : Cycle) → find_open o db ≡ some c → o ≡ some c.id
unfolding find_open
find_open-pointer db none c e = absurd (cc)
find_open-pointer db (some i) c e =
    ground (arith, select_test (λ (d : Cycle). has_id i d && is_open d.status) db.cycles c e)

-- The active cycle is the one that the policy row names.
pub active_cycle-pointer :
    (db : Db) (c : Cycle) → active_cycle db ≡ some c → active_cycle_id db ≡ some c.id
unfolding active_cycle
active_cycle-pointer db c e = find_open-pointer db (active_cycle_id db) c e

-- In a valid scope where no cycle is found, none is open.
Closed-of_none :
    (o : Option ℕ) (cs : List Cycle)
    → All (Pointed o) cs
    → elim o [ none ↦ none | some i ↦ select (λ (d : Cycle). has_id i d && is_open d.status) cs ]
      ≡ none
    → All Closed cs
unfolding select
Closed-of_none o [] h e = tt
Closed-of_none none (c ∷ cs) h e = (ground (arith, h.0), Closed-of_none none cs h.1 refl)
Closed-of_none (some i) (c ∷ cs) h e =
    (ground (arith, h.0), Closed-of_none (some i) cs h.1 (ground (arith, h.0)))

pub IsIdle-of_no_active : {t : ℕ} (db : Db) → IsValidFrom t db → active_cycle db ≡ none → IsIdle db
unfolding active_cycle find_open
IsIdle-of_no_active db v e = record {
  limit = v.limit;
  closed = Closed-of_none (active_cycle_id db) db.cycles v.pointed (ground arith);
  ids = v.ids;
}

-- Whatever cycle the scope has, cancelling it leaves none open.
pub IsIdle-cancel_active_cycle :
    {t : ℕ} (db : Db) (why : String) → IsValidFrom t db → IsIdle (cancel_active_cycle db why)
unfolding cancel_active_cycle
IsIdle-cancel_active_cycle {t} db why v =
    IsIdle-update_policy clear_pointer _ (λ p h. h) (closed_one (active_cycle db) refl)
  where
    closed_one :
        (o : Option Cycle)
        → active_cycle db ≡ o
        → IsIdle (elim o [ none ↦ db | some c ↦ update_cycle c.id (close_row cancelled why) db ])
    closed_one none e = IsIdle-of_no_active db v e
    closed_one (some c) e =
        IsIdle-update_cycle c.id (close_row cancelled why) (λ d. refl) (λ d. refl)
          (active_cycle-pointer db c e) v

pub active_cycle_id-record_reduction :
    (db : Db) (n : ℕ) → active_cycle_id (record_reduction db n) ≡ active_cycle_id db
unfolding record_reduction
active_cycle_id-record_reduction db n = ground arith

pub active_cycle_id-apply_reduction :
    (db : Db) (n : ℕ) (cut : Cutoff)
    → active_cycle_id (apply_reduction db n cut).1 ≡ active_cycle_id db
unfolding apply_reduction
active_cycle_id-apply_reduction db n cut =
    (SameCore-sync _ cut).pointer ∙ elim (Bool-cases (amount == 0)) [
      | inl e ↦ rw e ensured
      | inr e ↦ rw e (active_cycle_id-record_reduction _ amount ∙ ensured)
    ]
  where
    amount : ℕ
    amount =
        reduction_amount n (current_count (sync_count_state db cut).business)
          (ensure_policy_state (sync_count_state db cut)).0

    ensured : active_cycle_id (ensure_policy_state (sync_count_state db cut)).1 ≡ active_cycle_id db
    ensured = (SameCore-ensure (sync_count_state db cut)).pointer ∙ (SameCore-sync db cut).pointer
