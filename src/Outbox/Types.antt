-- ===== src/Outbox/Types.antt =====
-- The tables of content_alert_outbox, content_alert_attempts and content_alert_operator_actions, as
-- lists of rows, oldest first. Times are natural numbers of one unit, for the REAL columns. A digest
-- of SHA-256 is the number that its hexadecimal digits write, an empty `lease_token` is `none`.
use Prim.Native.Char.{Char}
use qq_violation_bot.Prelude.{ℕ, ◌/◌, ◌^◌, Bool, true, false, Option, List, String}

pub data Status : Type 0 where
  pending leased sending delivered delivery_unknown exhausted : Status

-- content_alert_outbox
pub record Row : Type 0 where
  pub event_key : ℕ
  pub alert_id : ℕ
  pub self_id : String
  pub source_group_id : ℕ
  pub source_message_id : String
  pub report_group_id : ℕ
  pub rule_generation : List Char
  pub report_text : List Char
  pub status : Status
  pub attempt_count : ℕ
  pub attempt_limit : ℕ
  pub next_attempt_at : ℕ
  pub lease_token : Option ℕ
  pub lease_until : Option ℕ
  pub last_error : String
  pub receipt_message_id : List Char
  pub created_at : ℕ
  pub updated_at : ℕ
  pub delivered_at : Option ℕ

-- The outcomes of _send_ that `finish` takes, and the status of an attempt.
pub data AttemptStatus : Type 0 where
  started finished_delivered finished_rejected finished_unknown not_sent : AttemptStatus

pub data Outcome : Type 0 where
  was_delivered was_rejected was_unknown : Outcome

-- content_alert_attempts
pub record Attempt : Type 0 where
  pub event_key : ℕ
  pub attempt_number : ℕ
  pub status : AttemptStatus
  pub started_at : ℕ
  pub finished_at : Option ℕ
  pub error_code : String
  pub receipt_message_id : List Char

pub data Action : Type 0 where
  retry confirm_delivered : Action

-- content_alert_operator_actions
pub record OperatorAction : Type 0 where
  pub event_key : ℕ
  pub action : Action
  pub actor : List Char
  pub created_at : ℕ

pub record Ledger : Type 0 where
  pub rows : List Row
  pub attempts : List Attempt
  pub actions : List OperatorAction

-- What `claim` returns of a row, and the other calls take.
pub record Claim : Type 0 where
  pub event_key : ℕ
  pub lease_token : ℕ
  pub attempt_count : ℕ

abbrev pub max_report_chars : ℕ
max_report_chars = 2048

abbrev pub max_pending_alerts : ℕ
max_pending_alerts = 10000

abbrev pub default_attempt_limit : ℕ
default_attempt_limit = 5

abbrev pub lease_seconds : ℕ
lease_seconds = 90

-- The first twelve of the 64 hexadecimal digits.
abbrev pub alert_id_of : ℕ → ℕ
alert_id_of key = key / 2 ^ 208

abbrev pub is_pending : Status → Bool
is_pending pending = true
is_pending _ = false

abbrev pub is_leased : Status → Bool
is_leased leased = true
is_leased _ = false

abbrev pub is_sending : Status → Bool
is_sending sending = true
is_sending _ = false

abbrev pub is_delivered : Status → Bool
is_delivered delivered = true
is_delivered _ = false

-- status IN ('delivery_unknown','exhausted')
abbrev pub is_unresolved : Status → Bool
is_unresolved delivery_unknown = true
is_unresolved exhausted = true
is_unresolved _ = false
