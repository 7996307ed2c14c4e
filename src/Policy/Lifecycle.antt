-- ===== src/Policy/Lifecycle.antt =====
-- The life of a scope as a step relation: the scheduler's settlement, the administrator's decisions,
-- the review, the replay's reset, mutes and changes of status, in any order.
use qq_violation_bot.Prelude.{
  ℕ, suc, ◌≤◌, ◌≡◌, true, false, Option, some, List, [], ◌∷◌, String, if◌then◌else◌,
}
use qq_violation_bot.Policy.Types.{Db, Cycle, Event, Key, PolicyOutcome, is_open}
use qq_violation_bot.Policy.Events.{NewEvent, insert_event}
use qq_violation_bot.Policy.Invariant.{op_count}
use qq_violation_bot.Policy.Manual.{ok, clear_manual_stop}
use qq_violation_bot.Prelude.{ok as returned}
use qq_violation_bot.Policy.Types.{
  ViolationRecord, StatusJob, Status, Severity, RecoveryMode, is_terminal, is_normal_or_slow,
}
use qq_violation_bot.Policy.Count.{Cutoff}
use qq_violation_bot.Policy.Cycles.{active_cycle, apply_reduction}
use qq_violation_bot.Policy.Settle.{settle_due_cycles}
use qq_violation_bot.Policy.Invariant.{IsIdle}
use qq_violation_bot.Policy.Manual.{start_manual_stop, renew_manual_stop, reject_stop_suggestion}
use qq_violation_bot.Policy.Status.{apply_status}
use qq_violation_bot.Policy.Records.{apply_mute}
use qq_violation_bot.Policy.Replay.{reset_member_group_projection}
use qq_violation_bot.Policy.Resolve.{resolve_policy_review}

-- The number of rows that idx_v102_cycles_one_active ranges over.
abbrev pub open_cycles : List Cycle → ℕ
open_cycles [] = 0
open_cycles (c ∷ cs) = if is_open c.status then suc (open_cycles cs) else open_cycles cs

module _ (fingerprint : Db → String) where
  -- What one call leaves of a scope. A mute comes where a terminal status has no open cycle, and at
  -- five operations no normal or slow cycle is active; other components write the records, the
  -- waiting changes of status, and the names of other scopes' events.
  pub data Step (db : Db) : Db → Type 0 where
    settled : (now n : ℕ) {db' : Db} → settle_due_cycles db now ≡ some (n, db') → Step db db'
    started :
        (at : ℕ) (why : String) (k : Key) (by : Option ℕ) (g : ℕ) (r : PolicyOutcome × Db)
        → start_manual_stop db at why k by g ≡ ok r
        → Step db r.1
    cleared :
        (at : ℕ) (why : String) (k : Key) (by : Option ℕ) (g : ℕ) (r : PolicyOutcome × Db)
        → clear_manual_stop db at why k by g ≡ ok r
        → Step db r.1
    renewed :
        (at : ℕ) (why : String) (k : Key) (by : Option ℕ) (g : ℕ) (r : PolicyOutcome × Db)
        → renew_manual_stop db at why k by g ≡ ok r
        → Step db r.1
    rejected :
        (at : ℕ) (why : String) (k : Key) (by : Option ℕ) (g : ℕ) (r : PolicyOutcome × Db)
        → reject_stop_suggestion db at why k by g ≡ ok r
        → Step db r.1
    reviewed :
        (i : ℕ) (mode : RecoveryMode) (expected : String) (at : ℕ) (reason actor : String)
        (key : Key) (r : PolicyOutcome × Db)
        → resolve_policy_review fingerprint db i mode expected at reason actor key ≡ returned r
        → Step db r.1
    reset : (trigger : ℕ) → Step db (reset_member_group_projection db trigger)
    noted : (e : NewEvent) → Step db (insert_event db e).2
    muted :
        (s : Severity) (e at ingested g : ℕ)
        → (is_terminal db.business.status ≡ true → IsIdle db)
        → ((c : Cycle)
            → 5 ≤ op_count db
            → active_cycle db ≡ some c
            → is_normal_or_slow c.cycle_type ≡ false)
        → Step db (apply_mute db s e at ingested g).1
    status_applied :
        (at : ℕ) (status previous : Status) (e g : ℕ)
        → Step db (apply_status db at status previous e g)
    reduced : (n : ℕ) (cut : Cutoff) → Step db (apply_reduction db n cut).1
    written :
        (rs : List ViolationRecord) (js : List StatusJob) (es : List Event)
        → Step db (record db { records = rs; jobs = js; other_events = es })

  pub data Run (db : Db) : Db → Type 0 where
    rest : Run db db
    more : {db' db'' : Db} → Run db db' → Step db' db'' → Run db db''
