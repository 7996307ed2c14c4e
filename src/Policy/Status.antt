-- ===== src/Policy/Status.antt =====
-- process_status_change of deduction_policy.py, from its UPDATE of the status on.
pub mod Process
use qq_violation_bot.Prelude.{
  ℕ, refl, Bool, true, false, not, ◌&&◌, ◌||◌, Option, none, some, leb, if◌then◌else◌, if-ind,
  arith,
}
use qq_violation_bot.Policy.Types.{
  Db, Policy, Cycle, CycleType, Status, ActionType, normal_status, consulted, last_warning, left,
  removed, blacklisted, zero_count, operation_limit, terminal_status, normal, slow, stop,
  final_warning, stop_suggestion, stop_decision, remove_member, action_eq,
}
use qq_violation_bot.Policy.Count.{current_count}
use qq_violation_bot.Policy.Events.{
  ensure_policy_state, update_policy, resolve_pending_actions, policy_scope_under_review,
  not_review,
}
use qq_violation_bot.Policy.Cycles.{active_cycle, set_no_cycle, start_cycle, cancel_active_cycle}
use qq_violation_bot.Policy.Invariant.{
  IsValid, IsIdle, IsValidFrom, IsIdle-SameCore, IsValidFrom-SameCore, IsValidFrom-weaken, SameCore,
  SameCore-update_policy,
}
use qq_violation_bot.Policy.Invariant.Keep.{
  SameCore-resolve, SameCore-ensure, IsIdle-cancel_active_cycle, IsIdle-set_no_cycle,
  IsValidFrom-start_cycle,
}

abbrev pub set_status : Status → Db → Db
set_status s db = let b = db.business in record db { business = record b { status = s } }

abbrev pub is_normal_status : Status → Bool
is_normal_status normal_status = true
is_normal_status _ = false

abbrev pub was_terminal : Policy → Bool
was_terminal p = elim p.no_cycle_reason [
  | none ↦ false
  | some r ↦ elim r [ zero_count ↦ false | operation_limit ↦ false | terminal_status ↦ true ]
]

abbrev pub in_final_warning : Option Cycle → Bool
in_final_warning none = false
in_final_warning (some c) = elim c.cycle_type [
  | normal ↦ false
  | slow ↦ false
  | stop ↦ false
  | final_warning ↦ true
]

abbrev pub is_stop_action : ActionType → Bool
is_stop_action a = action_eq stop_suggestion a || action_eq stop_decision a

abbrev pub is_recovery_action : ActionType → Bool
is_recovery_action a = is_stop_action a || action_eq remove_member a

unfoldable pub end_policy : Db → ℕ → Db
end_policy db e =
    let db' = resolve_pending_actions (cancel_active_cycle db "terminal_status") e not_review in
    set_no_cycle db' terminal_status true

unfoldable pub start_final_warning : Db → ℕ → ℕ → ℕ → Db
start_final_warning db at e generation =
    let db₁ = cancel_active_cycle db "final_warning_started" in
    (start_cycle (resolve_pending_actions db₁ e is_stop_action) final_warning at e 0 generation).1

unfoldable pub start_consulted : Db → ℕ → ℕ → ℕ → Db
start_consulted db at e generation =
    (start_cycle (cancel_active_cycle db "consulted_status_started") slow at e 0 generation).1

-- The recovery: a slow cycle from a count of three on, else a normal one.
unfoldable pub recover : Db → ℕ → ℕ → ℕ → Db
recover db at e generation =
    let db₁ = cancel_active_cycle db "normal_status_recovered" in
    let db₂ = resolve_pending_actions db₁ e is_recovery_action in
    let t : CycleType = if leb 3 (current_count db₂.business) then slow else normal in
    (start_cycle db₂ t at e 0 generation).1

unfoldable pub return_to_normal : Db → ℕ → Status → ℕ → ℕ → Db
return_to_normal db at previous e generation =
    let (policy, db') = ensure_policy_state db in
    let recovering =
      not (is_normal_status previous)
      || was_terminal policy
      || in_final_warning (active_cycle db') in
    if recovering && not (policy_scope_under_review db') then recover db' at e generation else db'

unfoldable pub status_branch : Db → ℕ → Status → Status → ℕ → ℕ → Db
status_branch db at status previous e generation = elim status [
  | normal_status ↦ return_to_normal db at previous e generation
  | consulted ↦ start_consulted db at e generation
  | last_warning ↦ start_final_warning db at e generation
  | left ↦ end_policy db e
  | removed ↦ end_policy db e
  | blacklisted ↦ end_policy db e
]

abbrev pub note_event : ℕ → Policy → Policy
note_event e p = record p { last_processed_event_id = some e }

-- `previous` is the status of the latest event before this one, or the row's.
unfoldable pub apply_status : Db → ℕ → Status → Status → ℕ → ℕ → Db
apply_status db at status previous e generation =
    update_policy (note_event e)
      (status_branch (set_status status db) at status previous e generation)

IsIdle-end_policy : (db : Db) (e : ℕ) → IsValid db → IsIdle (end_policy db e)
unfolding end_policy
IsIdle-end_policy db e v = IsIdle-set_no_cycle terminal_status true (
    IsIdle-SameCore (SameCore-resolve _ e not_review)
      (IsIdle-cancel_active_cycle db "terminal_status" v))

IsValid-at_zero : {t : ℕ} {db : Db} → IsValidFrom t db → IsValid db
IsValid-at_zero {t} v = IsValidFrom-weaken {t = t} (omega arith) v

IsValid-start_final_warning :
    (db : Db) (at e g : ℕ) → IsValid db → IsValid (start_final_warning db at e g)
unfolding start_final_warning
IsValid-start_final_warning db at e g v = IsValid-at_zero (
    IsValidFrom-start_cycle _ final_warning at e 0 g (
      IsIdle-SameCore (SameCore-resolve _ e is_stop_action)
        (IsIdle-cancel_active_cycle db "final_warning_started" v)))

IsValid-start_consulted : (db : Db) (at e g : ℕ) → IsValid db → IsValid (start_consulted db at e g)
unfolding start_consulted
IsValid-start_consulted db at e g v = IsValid-at_zero (
    IsValidFrom-start_cycle _ slow at e 0 g
      (IsIdle-cancel_active_cycle db "consulted_status_started" v))

IsValid-recover : (db : Db) (at e g : ℕ) → IsValid db → IsValid (recover db at e g)
unfolding recover
IsValid-recover db at e g v = IsValid-at_zero (
    IsValidFrom-start_cycle _ _ at e 0 g (
      IsIdle-SameCore (SameCore-resolve _ e is_recovery_action)
        (IsIdle-cancel_active_cycle db "normal_status_recovered" v)))

IsValid-return_to_normal :
    (db : Db) (at : ℕ) (previous : Status) (e g : ℕ)
    → IsValid db
    → IsValid (return_to_normal db at previous e g)
unfolding return_to_normal
IsValid-return_to_normal db at previous e g v =
    let (policy, db') = ensure_policy_state db in
    let valid = IsValidFrom-SameCore (SameCore-ensure db) v in
    if-ind IsValid
      ((not (is_normal_status previous)
          || was_terminal policy
          || in_final_warning (active_cycle db'))
        && not (policy_scope_under_review db'))
      {x = recover db' at e g} {y = db'} (λ _. IsValid-recover db' at e g valid) (λ _. valid)

-- What a change to a status leaves.
abbrev pub IsSettledFor : Status → Db → Type 0
IsSettledFor normal_status db = IsValid db
IsSettledFor consulted db = IsValid db
IsSettledFor last_warning db = IsValid db
IsSettledFor left db = IsIdle db
IsSettledFor removed db = IsIdle db
IsSettledFor blacklisted db = IsIdle db

SameCore-note_event : (e : ℕ) (db : Db) → SameCore db (update_policy (note_event e) db)
SameCore-note_event e db = SameCore-update_policy _ _ (λ p. refl) (λ p. refl)

IsValid-set_status : (s : Status) (db : Db) → IsValid db → IsValid (set_status s db)
IsValid-set_status s db v =
    IsValidFrom-SameCore (record { ops = refl; pointer = refl; cycles = refl; next = refl }) v

-- On a well-formed scope: after a change to a terminal status no cycle is open, at most five
-- operations are counted and the cycles' ids rise; after a change to any other status the scope is
-- well-formed.
pub apply_status-IsSettledFor :
    (db : Db) (at : ℕ) (status previous : Status) (e g : ℕ)
    → IsValid db
    → IsSettledFor status (apply_status db at status previous e g)
unfolding apply_status status_branch
apply_status-IsSettledFor db at normal_status previous e g v =
    IsValidFrom-SameCore (SameCore-note_event e _)
      (IsValid-return_to_normal _ at previous e g (IsValid-set_status normal_status db v))
apply_status-IsSettledFor db at consulted previous e g v =
    IsValidFrom-SameCore (SameCore-note_event e _)
      (IsValid-start_consulted _ at e g (IsValid-set_status consulted db v))
apply_status-IsSettledFor db at last_warning previous e g v =
    IsValidFrom-SameCore (SameCore-note_event e _)
      (IsValid-start_final_warning _ at e g (IsValid-set_status last_warning db v))
apply_status-IsSettledFor db at left previous e g v =
    IsIdle-SameCore (SameCore-note_event e _) (IsIdle-end_policy _ e (IsValid-set_status left db v))
apply_status-IsSettledFor db at removed previous e g v =
    IsIdle-SameCore (SameCore-note_event e _)
      (IsIdle-end_policy _ e (IsValid-set_status removed db v))
apply_status-IsSettledFor db at blacklisted previous e g v =
    IsIdle-SameCore (SameCore-note_event e _)
      (IsIdle-end_policy _ e (IsValid-set_status blacklisted db v))
