-- ===== src/Policy/Settle/Step.antt =====
-- One round of settle_due_cycles: the invariant, and what the round moves forward.
use qq_violation_bot.Prelude.{
  ℕ, suc, ◌<◌, ◌≡◌, refl, ◌∙◌, Bool, false, ◌&&◌, none, some, arith, if-ind, Bool-cases,
  Option-cases, inl, inr, ◌==◌, ltb, if◌then◌else◌,
}
use qq_violation_bot.Policy.Types.{
  Db, Cycle, normal, slow, stop, final_warning, consulted, stop_due_for_decision, cycle_stop_due,
  cycle_payload, stop_decision, stop_suggestion, final_warning_recovery_review, recovery_payload,
  rejected_cycle_closed, cycle_rejected_close, is_normal, CycleType, final_warning_recovered,
  cycle_final_recovery, cycle_settled, cycle_settlement, settlement_payload, action_eq,
  remove_member,
}
use qq_violation_bot.Policy.Events.{
  NewEvent, insert_event, update_policy, find_pending, ensure_policy_state,
}
use qq_violation_bot.Policy.Count.{through, sync_count_state, current_count}
use qq_violation_bot.Policy.Cycles.{
  active_cycle_id, update_cycle, apply_reduction, record_reduction, reduction_amount,
}
use qq_violation_bot.Policy.Invariant.{
  IsValidFrom, IsIdle, SameCore, SameCore-trans, IsValidFrom-SameCore, IsIdle-SameCore, op_count,
  IsValidFrom-update_cycle, IsIdle-update_cycle, IsIdle-update_policy, Closed,
}
use qq_violation_bot.Policy.Invariant.Keep.{
  SameCore-refl, SameCore-insert_event, SameCore-sync, SameCore-ensure, SameCore-create_pending,
  SameCore-set_pending_due, SameCore-set_payload, IsValidFrom-continue_normal,
  IsValidFrom-apply_reduction, active_cycle_id-apply_reduction, IsValidFrom-record_reduction,
  active_cycle_id-record_reduction, reduction_room, op_count-ensure, IsValidFrom-start_cycle,
}
use qq_violation_bot.Policy.Settle.{
  due_event, await_decision, mark_stop_due, recover_final_warning, settle_final_warning,
  recovered_row, settled_policy, settled_row, rejected_row, extended_row, settle_rejected,
  settle_bad, settle_good, finish_good, settle_cycle, settle_one, set_payload, continue_normal,
  is_good, blocks_settlement,
}

-- A round that returns `r` from `db` on the cycle `c` has moved the due time on, or it reports no
-- change and has made none to the cycles.
pub data Progress (db : Db) (c : Cycle) (r : Bool × Db) : Type 0 where
  advanced : IsValidFrom (suc c.due_at) r.1 → Progress db c r
  stuck : r.0 ≡ false → SameCore db r.1 → Progress db c r

module _ {t : ℕ} (db : Db) (c : Cycle) (v : IsValidFrom t db)
    (at : active_cycle_id db ≡ some c.id) where
  awaiting :
      {b : Db} → SameCore db b → IsValidFrom (suc c.due_at) (update_cycle c.id await_decision b)
  awaiting s =
      IsValidFrom-update_cycle (suc c.due_at) c.id await_decision (λ d. refl) (λ d _ h. absurd (cc))
        (s.pointer ∙ at) (IsValidFrom-SameCore s v)

  closing :
      {b : Db} (f : Cycle → Cycle)
      → ((d : Cycle) → (f d).id ≡ d.id)
      → ((d : Cycle) → Closed (f d))
      → SameCore db b
      → IsIdle (update_cycle c.id f b)
  closing f keep closes s =
      IsIdle-update_cycle c.id f keep closes (s.pointer ∙ at) (IsValidFrom-SameCore s v)

  Progress-mark_stop_due : (now : ℕ) → Progress db c (mark_stop_due db c now)
  unfolding mark_stop_due
  Progress-mark_stop_due now =
      let e =
        due_event c stop_due_for_decision (cycle_stop_due c.id c.due_at) (cycle_payload c.id) now
          0 in
      elim (Bool-cases (insert_event db e).1) [
        | inl new ↦ rw new (
            advanced (
              awaiting (
                SameCore-trans (SameCore-insert_event db e) (
                  SameCore-trans (SameCore-create_pending _ stop_decision _ _)
                    (SameCore-set_pending_due _ c.due_at _)))))
        | inr old ↦ rw old (stuck refl (SameCore-insert_event db e))
      ]

  Progress-settle_bad : (now : ℕ) → Progress db c (settle_bad db c now)
  unfolding settle_bad
  Progress-settle_bad now = advanced (
      awaiting (
        SameCore-trans (SameCore-insert_event db _)
          (SameCore-create_pending _ stop_suggestion _ _)))

  recover_core : (n now before e : ℕ) → Db
  recover_core n now before e =
      set_payload e (recovery_payload c.id 2 (some n) before)
        (apply_reduction (record db { business = record db.business { status = consulted } }) 2
          (through c.due_at)).1

  IsIdle-recover :
      (n now before e : ℕ)
      → IsIdle (
          update_policy
            (settled_policy e)
            (update_cycle c.id (recovered_row e) (recover_core n now before e)))
  unfolding recover_core
  IsIdle-recover n now before e =
      IsIdle-update_policy (settled_policy e) _ (λ p h. h)
        (IsIdle-update_cycle c.id (recovered_row e) (λ d. refl) (λ d. refl)
          ((SameCore-set_payload e _ _).pointer ∙ active_cycle_id-apply_reduction _ 2 _ ∙ at)
          (IsValidFrom-SameCore (SameCore-set_payload e _ _) (
            IsValidFrom-apply_reduction _ 2 (through c.due_at)
              (IsValidFrom-SameCore consulted_core v))))
    where
      consulted_core :
          SameCore db (record db { business = record db.business { status = consulted } })
      consulted_core = record { ops = refl; pointer = refl; cycles = refl; next = refl }

  valid-recover_final_warning :
      (now before e : ℕ) → IsValidFrom (suc c.due_at) (recover_final_warning db c now before e)
  unfolding recover_final_warning recover_core
  valid-recover_final_warning now before e = elim (Bool-cases (applied == 0 && ltb before 2)) [
    | inl yes' ↦
        rw yes' (
          IsValidFrom-SameCore (SameCore-create_pending _ final_warning_recovery_review _ _)
            gone_on)
    | inr no' ↦ rw no' gone_on
  ]
    where
      applied : ℕ
      applied =
          (apply_reduction (record db { business = record db.business { status = consulted } }) 2
            (through c.due_at)).0

      gone_on : IsValidFrom (suc c.due_at) (
          continue_normal
            (update_policy
              (settled_policy e)
              (update_cycle c.id (recovered_row e) (recover_core applied now before e)))
            c
            e)
      gone_on = IsValidFrom-continue_normal _ c e (IsIdle-recover applied now before e)

  Progress-settle_rejected : (now : ℕ) → Progress db c (settle_rejected db c now)
  unfolding settle_rejected
  Progress-settle_rejected now =
      let e =
        due_event c rejected_cycle_closed (cycle_rejected_close c.id c.due_at) (cycle_payload c.id)
          now c.replay_generation in
      elim (Bool-cases (insert_event db e).1) [
        | inr old ↦ rw old (stuck refl (SameCore-insert_event db e))
        | inl new ↦ rw new (elim (Bool-cases (is_normal c.cycle_type)) [
          | inl n ↦ rw n (
              advanced (
                IsValidFrom-start_cycle _ normal c.due_at _ 0 c.replay_generation (
                  IsIdle-update_policy _ _ (λ p h. h)
                    (closing (rejected_row _) (λ d. refl) (λ d. refl)
                      (SameCore-insert_event db e)))))
          | inr n ↦ rw n (
              advanced (
                IsValidFrom-update_cycle (suc c.due_at) c.id (extended_row c.due_at) (λ d. refl)
                  (λ d _ h. omega arith) ((SameCore-insert_event db e).pointer ∙ at)
                  (IsValidFrom-SameCore (SameCore-insert_event db e) v)))
        ])
      ]

  -- The reduction of a good cycle is below the limit, since the amount was computed from the row.
  valid-finish_good :
      {b : Db} (applied e : ℕ)
      → SameCore db b
      → ((applied == 0) ≡ false → op_count b < 5)
      → IsValidFrom (suc c.due_at) (finish_good b c applied e)
  unfolding finish_good
  valid-finish_good {b} applied e s room = IsValidFrom-continue_normal _ c e (
      IsIdle-SameCore (SameCore-sync _ (through c.due_at)) (
        IsIdle-update_policy (settled_policy e) _ (λ p h. h)
          (IsIdle-update_cycle c.id (settled_row e) (λ d. refl) (λ d. refl) pointer valid)))
    where
      valid : IsValidFrom t (if applied == 0 then b else record_reduction b applied)
      valid = elim (Bool-cases (applied == 0)) [
        | inl none' ↦ rw none' (IsValidFrom-SameCore s v)
        | inr more ↦
            rw more (IsValidFrom-record_reduction b applied (room more) (IsValidFrom-SameCore s v))
      ]

      pointer : active_cycle_id (if applied == 0 then b else record_reduction b applied) ≡ some c.id
      pointer = elim (Bool-cases (applied == 0)) [
        | inl none' ↦ rw none' (s.pointer ∙ at)
        | inr more ↦ rw more (active_cycle_id-record_reduction b applied ∙ s.pointer ∙ at)
      ]

module _ {t : ℕ} (db : Db) (c : Cycle) (v : IsValidFrom t db)
    (at : active_cycle_id db ≡ some c.id) where
  Progress-settle_final_warning : (now : ℕ) → Progress db c (settle_final_warning db c now)
  unfolding settle_final_warning
  Progress-settle_final_warning now =
      elim (Option-cases (find_pending db (action_eq remove_member))) [
        | inr (p, e) ↦
            rw (e, settle_final_warning) (advanced (awaiting db c v at (SameCore-refl db)))
        | inl e ↦
            rw (e, settle_final_warning)
              (elim (Bool-cases (insert_event synced ev).1) [
                | inl new ↦ rw new (
                    advanced (
                      valid-recover_final_warning _ c (IsValidFrom-SameCore same v)
                        (same.pointer ∙ at) now _ _))
                | inr old ↦ rw old (stuck refl same)
              ])
      ]
    where
      synced : Db
      synced = sync_count_state db (through c.due_at)

      ev : NewEvent
      ev =
          due_event c final_warning_recovered (cycle_final_recovery c.id c.due_at)
            (recovery_payload c.id 2 none (current_count synced.business)) now 0

      same : SameCore db (insert_event synced ev).2
      same = SameCore-trans (SameCore-sync db (through c.due_at)) (SameCore-insert_event synced ev)

  Progress-settle_good : (now : ℕ) → Progress db c (settle_good db c now)
  unfolding settle_good
  Progress-settle_good now = elim (Bool-cases (insert_event ensured ev).1) [
    | inl new ↦ rw new (
        advanced (
          valid-finish_good db c v at applied _ same (λ more.
            rw ((SameCore-insert_event ensured ev).ops, ← op_count-ensure synced)
              (reduction_room 1 _ _ more))))
    | inr old ↦ rw old (stuck refl same)
  ]
    where
      synced : Db
      synced = sync_count_state db (through c.due_at)

      ensured : Db
      ensured = (ensure_policy_state synced).1

      applied : ℕ
      applied = reduction_amount 1 (current_count synced.business) (ensure_policy_state synced).0

      ev : NewEvent
      ev =
          due_event c cycle_settled (cycle_settlement c.id c.due_at c.replay_generation)
            (settlement_payload c.id 1 applied) now c.replay_generation

      same : SameCore db (insert_event ensured ev).2
      same =
          SameCore-trans (SameCore-sync db (through c.due_at))
            (SameCore-trans (SameCore-ensure synced) (SameCore-insert_event ensured ev))

  Progress-settle_cycle : (now : ℕ) → Progress db c (settle_cycle db c now)
  unfolding settle_cycle
  Progress-settle_cycle now = elim (Option-cases (find_pending db blocks_settlement)) [
    | inr (p, e) ↦ rw (e, settle_cycle) (advanced (awaiting db c v at (SameCore-refl db)))
    | inl e ↦
        rw (e, settle_cycle)
          (if-ind (Progress db c) c.suggestion_rejected {x = settle_rejected db c now}
            {y = if is_good c then settle_good db c now else settle_bad db c now}
            (λ _. Progress-settle_rejected db c v at now)
            (λ _.
              if-ind (Progress db c) (is_good c) {x = settle_good db c now}
                {y = settle_bad db c now} (λ _. Progress-settle_good now)
                (λ _. Progress-settle_bad db c v at now)))
  ]

  -- Every round moves the due time of the scope on, or reports that it changed nothing.
  pub Progress-settle_one : (now : ℕ) → Progress db c (settle_one db c now)
  unfolding settle_one
  Progress-settle_one now = go c.cycle_type
    where
      go :
          (y : CycleType)
          → Progress db c (elim y [
            | stop ↦ mark_stop_due db c now
            | final_warning ↦ settle_final_warning db c now
            | normal ↦ settle_cycle db c now
            | slow ↦ settle_cycle db c now
          ])
      go stop = Progress-mark_stop_due db c v at now
      go final_warning = Progress-settle_final_warning now
      go normal = Progress-settle_cycle now
      go slow = Progress-settle_cycle now
