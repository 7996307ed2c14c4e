-- ===== src/Outbox/Ops.antt =====
-- The methods of AlertOutbox that change the ledger. Each runs in one transaction, which is rolled
-- back when it raises.
use Prim.Native.Char.{Char}
use Prim.Native.Nat.{min}
use text.Mathlib.Text.{◌==◌ as str_eq}
use qq_violation_bot.Prelude.{
  ℕ, suc, ◌+◌, ◌-◌, ◌*◌, ◌^◌, Bool, true, false, not, ◌&&◌, ◌||◌, Option, none, some, List, [], ◌∷◌,
  ◌++◌, String, Result, ok, raise, select, exists, update, length, take, ltb, leb, ◌==◌,
  if◌then◌else◌,
}
use qq_violation_bot.Outbox.Types.{
  Row, Attempt, Ledger, Claim, Status, AttemptStatus, Outcome, Action, pending, leased, sending,
  delivered, delivery_unknown, exhausted, started, finished_delivered, finished_rejected,
  finished_unknown, not_sent, was_delivered, was_rejected, was_unknown, retry, confirm_delivered,
  max_report_chars, max_pending_alerts, default_attempt_limit, lease_seconds, alert_id_of,
  is_pending, is_leased, is_sending, is_delivered, is_unresolved,
}

-- The arguments of `enqueue`; `key` is the digest of event_identity.
pub record Report : Type 0 where
  pub key : ℕ
  pub self_id : String
  pub source_group_id : ℕ
  pub source_message_id : String
  pub report_group_id : ℕ
  pub rule_generation : List Char
  pub report_text : List Char

pub data Error : Type 0 where
  bad_report bad_generation full duplicate_alert duplicate_attempt : Error

abbrev pub has_key : ℕ → Row → Bool
has_key k r = r.event_key == k

-- SELECT COUNT(*) … WHERE status<>'delivered'
abbrev pub count_undelivered : List Row → ℕ
count_undelivered [] = 0
count_undelivered (r ∷ rs) =
    if is_delivered r.status then count_undelivered rs else suc (count_undelivered rs)

abbrev pub new_row : Report → ℕ → Row
new_row p now = record {
  event_key = p.key;
  alert_id = alert_id_of p.key;
  self_id = p.self_id;
  source_group_id = p.source_group_id;
  source_message_id = p.source_message_id;
  report_group_id = p.report_group_id;
  rule_generation = p.rule_generation;
  report_text = p.report_text;
  status = pending;
  attempt_count = 0;
  attempt_limit = 5;
  next_attempt_at = now;
  lease_token = none;
  lease_until = none;
  last_error = "";
  receipt_message_id = [];
  created_at = now;
  updated_at = now;
  delivered_at = none;
}

-- The key, whether the row is new, and the ledger. UNIQUE(alert_id) refuses a second key with the
-- same twelve digits.
unfoldable pub enqueue : Ledger → Report → ℕ → Result Error (ℕ × Bool × Ledger)
enqueue l p now =
    if length p.report_text == 0 || ltb max_report_chars (length p.report_text)
    then raise bad_report
    else if ltb 512 (length p.rule_generation)
    then raise bad_generation
    else if exists (has_key p.key) l.rows
    then ok (p.key, false, l)
    else if leb max_pending_alerts (count_undelivered l.rows)
    then raise full
    else if exists (λ (r : Row). r.alert_id == alert_id_of p.key) l.rows
    then raise duplicate_alert
    else ok (p.key, true, record l { rows = l.rows ++ new_row p now ∷ [] })

-- lease_until<=now
abbrev pub lease_ended : ℕ → Row → Bool
lease_ended now r = elim r.lease_until [ none ↦ false | some t ↦ leb t now ]

abbrev pub abandoned : ℕ → Row → Bool
abandoned now r = is_leased r.status && lease_ended now r

abbrev pub interrupted : ℕ → Row → Bool
interrupted now r = is_sending r.status && lease_ended now r

abbrev pub free_row : ℕ → Row → Row
free_row now r = record r {
  status = pending;
  lease_token = none;
  lease_until = none;
  updated_at = now;
}

abbrev pub interrupted_row : ℕ → Row → Row
interrupted_row now r = record r {
  status = delivery_unknown;
  last_error = "send_interrupted";
  lease_token = none;
  lease_until = none;
  updated_at = now;
}

abbrev pub is_attempt : ℕ → ℕ → Attempt → Bool
is_attempt k n a = a.event_key == k && a.attempt_number == n

abbrev pub interrupted_attempt : ℕ → Attempt → Attempt
interrupted_attempt now a = record a {
  status = finished_unknown;
  error_code = "send_interrupted";
  finished_at = some now;
}

-- The loop over the rows whose send was interrupted.
unfoldable pub interrupt_attempts : ℕ → List Row → List Attempt → List Attempt
interrupt_attempts now [] attempts = attempts
interrupt_attempts now (r ∷ rs) attempts = interrupt_attempts now rs (
    if interrupted now r
    then update (is_attempt r.event_key r.attempt_count) (interrupted_attempt now) attempts
    else attempts)

unfoldable pub recover : Ledger → ℕ → Ledger
unfolding interrupt_attempts
recover l now =
    let freed = update (abandoned now) (free_row now) l.rows in
    record l {
      rows = update (interrupted now) (interrupted_row now) freed;
      attempts = interrupt_attempts now freed l.attempts;
    }

-- `event_key IS NULL OR event_key=?`
abbrev pub is_wanted : Option ℕ → Row → Bool
is_wanted none r = true
is_wanted (some k) r = r.event_key == k

abbrev pub is_due : ℕ → String → Option ℕ → Row → Bool
is_due now self key r =
    is_pending r.status && str_eq r.self_id self && leb r.next_attempt_at now && is_wanted key r

-- ORDER BY created_at,event_key LIMIT 1
abbrev pub before : Row → Row → Bool
before r s =
    ltb r.created_at s.created_at || (r.created_at == s.created_at && leb r.event_key s.event_key)

unfoldable pub first_of : (Row → Bool) → List Row → Option Row
first_of test [] = none
first_of test (r ∷ rs) =
    let rest = first_of test rs in
    if test r
    then elim rest [ none ↦ some r | some s ↦ if before r s then some r else some s ]
    else rest

abbrev pub lease_row : ℕ → ℕ → Row → Row
lease_row now token r = record r {
  status = leased;
  lease_token = some token;
  lease_until = some (now + lease_seconds);
  updated_at = now;
}

-- `token` is the fresh uuid4.
unfoldable pub claim : Ledger → ℕ → String → Option ℕ → ℕ → Option Claim × Ledger
unfolding first_of
claim l now self key token =
    let l' = recover l now in
    elim (first_of (is_due now self key) l'.rows) [
      | none ↦ (none, l')
      | some r ↦ (
        some (record {
          event_key = r.event_key;
          lease_token = token;
          attempt_count = r.attempt_count;
        }),
        record l' { rows = update (has_key r.event_key) (lease_row now token) l'.rows },
      )
    ]

-- event_key=? AND lease_token=?
abbrev pub holds : Claim → Row → Bool
holds c r =
    r.event_key == c.event_key && elim r.lease_token [ none ↦ false | some t ↦ t == c.lease_token ]

abbrev pub release_row : ℕ → Row → Row
release_row now r = record (free_row now r) { next_attempt_at = now + 5 }

unfoldable pub release : Ledger → Claim → ℕ → Ledger
release l c now = record l {
  rows = update (λ (r : Row). holds c r && is_leased r.status) (release_row now) l.rows;
}

-- lease_until>now
abbrev pub lease_runs : ℕ → Row → Bool
lease_runs now r = elim r.lease_until [ none ↦ false | some t ↦ ltb now t ]

abbrev pub may_send : Claim → ℕ → Row → Bool
may_send c now r = holds c r && is_leased r.status && lease_runs now r

abbrev pub send_row : ℕ → Row → Row
send_row now r = record r {
  status = sending;
  attempt_count = r.attempt_count + 1;
  updated_at = now;
}

abbrev pub new_attempt : ℕ → ℕ → ℕ → Attempt
new_attempt k n now = record {
  event_key = k;
  attempt_number = n;
  status = started;
  started_at = now;
  finished_at = none;
  error_code = "";
  receipt_message_id = [];
}

-- The number of the attempt is read back from the updated row.
abbrev pub attempt_count_of : ℕ → List Row → ℕ
attempt_count_of k rows = elim (select (has_key k) rows) [ none ↦ 0 | some r ↦ r.attempt_count ]

-- Whether the send may start, with the claim's new count, and the ledger.
-- PRIMARY KEY(event_key,attempt_number) refuses a second row of an attempt.
unfoldable pub begin_send : Ledger → Claim → ℕ → Result Error (Bool × Claim × Ledger)
begin_send l c now =
    let rows = update (may_send c now) (send_row now) l.rows in
    let n = attempt_count_of c.event_key rows in
    if not (exists (may_send c now) l.rows)
    then ok (false, c, l)
    else if exists (is_attempt c.event_key n) l.attempts
    then raise duplicate_attempt
    else ok (
      true,
      record c { attempt_count = n },
      record l { rows = rows; attempts = l.attempts ++ new_attempt c.event_key n now ∷ [] },
    )

-- `status` of `finish`.
abbrev pub finish_status : Outcome → Row → Status
finish_status was_delivered r = delivered
finish_status was_rejected r = if leb r.attempt_limit r.attempt_count then exhausted else pending
finish_status was_unknown r = delivery_unknown

unfoldable pub retry_delay : ℕ → ℕ
retry_delay attempts = min 300 (5 * 2 ^ min (attempts - 1) 6)

abbrev pub finish_error : Outcome → String
finish_error was_delivered = ""
finish_error was_rejected = "onebot_rejected"
finish_error was_unknown = "send_result_unknown"

abbrev pub delivered_time : Outcome → ℕ → Option ℕ
delivered_time was_delivered now = some now
delivered_time _ now = none

abbrev pub attempt_status : Outcome → AttemptStatus
attempt_status was_delivered = finished_delivered
attempt_status was_rejected = finished_rejected
attempt_status was_unknown = finished_unknown

unfoldable pub finish_row : Row → Outcome → ℕ → List Char → Row → Row
unfolding retry_delay
finish_row current outcome now receipt r = record r {
  status = finish_status outcome current;
  last_error = finish_error outcome;
  next_attempt_at = now + retry_delay current.attempt_count;
  lease_token = none;
  lease_until = none;
  receipt_message_id = take 128 receipt;
  updated_at = now;
  delivered_at = delivered_time outcome now;
}

abbrev pub finish_attempt : Outcome → ℕ → List Char → Attempt → Attempt
finish_attempt outcome now receipt a = record a {
  status = attempt_status outcome;
  error_code = finish_error outcome;
  finished_at = some now;
  receipt_message_id = take 128 receipt;
}

unfoldable pub finish : Ledger → Claim → Outcome → ℕ → List Char → Bool × Ledger
finish l c outcome now receipt =
    elim (select (λ (r : Row). holds c r && is_sending r.status) l.rows) [
      | none ↦ (false, l)
      | some r ↦ (
        true,
        record l {
          rows = update (has_key c.event_key) (finish_row r outcome now receipt) l.rows;
          attempts =
              update (is_attempt c.event_key r.attempt_count) (finish_attempt outcome now receipt)
                l.attempts;
        },
      )
    ]

abbrev pub abort_row : ℕ → Row → Row
abort_row now r = record (release_row now r) { attempt_limit = r.attempt_limit + 1 }

abbrev pub abort_attempt : ℕ → Attempt → Attempt
abort_attempt now a = record a {
  status = not_sent;
  finished_at = some now;
  error_code = "feature_disabled";
}

unfoldable pub abort_unsent : Ledger → Claim → ℕ → Ledger
abort_unsent l c now =
    let mine = λ (r : Row). holds c r && is_sending r.status in
    if exists mine l.rows
    then record l {
      rows = update mine (abort_row now) l.rows;
      attempts = update (is_attempt c.event_key c.attempt_count) (abort_attempt now) l.attempts;
    }
    else l

abbrev pub resolved_status : Action → Status
resolved_status retry = pending
resolved_status confirm_delivered = delivered

abbrev pub resolved_time : Action → ℕ → Option ℕ
resolved_time retry now = none
resolved_time confirm_delivered now = some now

abbrev pub resolve_row : Action → ℕ → Row → Row
resolve_row action now r = record r {
  status = resolved_status action;
  next_attempt_at = now;
  last_error = "";
  updated_at = now;
  attempt_limit = r.attempt_count + default_attempt_limit;
  delivered_at = resolved_time action now;
}

unfoldable pub resolve : Ledger → ℕ → Action → List Char → ℕ → Bool × Ledger
resolve l alert action actor now =
    elim (select (λ (r : Row). r.alert_id == alert && is_unresolved r.status) l.rows) [
      | none ↦ (false, l)
      | some r ↦ (
        true,
        record l {
          rows = update (has_key r.event_key) (resolve_row action now) l.rows;
          actions =
              l.actions
              ++ record {
                event_key = r.event_key;
                action = action;
                actor = take 128 actor;
                created_at = now;
              }
                ∷ [];
        },
      )
    ]
