-- ===== src/Outbox/Tests.antt =====
-- Runs of the ledger, and the theorems at concrete reports.
use qq_violation_bot.Prelude.{
  ◌≤◌, ◌<◌, ◌≡◌, ◌⊎◌, refl, true, false, none, some, [], ◌∷◌, arith, select, ok, exists, update,
}
use qq_violation_bot.Outbox.Types.{Row, Ledger, Claim, delivered, exhausted, pending, was_rejected}
use qq_violation_bot.Outbox.Ops.{
  Report, enqueue, new_row, lease_row, send_row, new_attempt, claim, recover, begin_send, finish,
}
use qq_violation_bot.Outbox.Valid.{IsSound, IsValid}
use qq_violation_bot.Outbox.Send.{Starts, begin_send-Starts}
use qq_violation_bot.Outbox.Steps.{
  here, next, by_itself, enqueued, recovered, claimed, ended, start, further, Reach-IsValid,
}
use qq_violation_bot.Outbox.Settled.{find, AutomaticReach-find}
use qq_violation_bot.Outbox.Once.{begin_send_once, finish_rejected, claim_abandoned}

abbrev report : Report
report = record {
  key = 77;
  self_id = "10001";
  source_group_id = 20;
  source_message_id = "m1";
  report_group_id = 30;
  rule_generation = [];
  report_text = "x" ∷ [];
}

abbrev none_yet : Ledger
none_yet = record { rows = []; attempts = []; actions = [] }

none_yet-IsValid : IsValid none_yet
none_yet-IsValid = record { sound = tt; keys = tt; covered = tt; capacity = omega arith }

abbrev one_row : Row → Ledger
one_row r = record { rows = r ∷ []; attempts = []; actions = [] }

abbrev leased_row : Row
leased_row = lease_row 100 5 (new_row report 100)

abbrev sent_row : Row
sent_row = send_row 101 leased_row

abbrev delivered_row : Row
delivered_row = record (new_row report 100) { status = delivered; attempt_count = 1 }

one_row-IsValid : (r : Row) → IsSound r → IsValid (one_row r)
one_row-IsValid r s = record {
  sound = (s, tt);
  keys = (tt, tt);
  covered = tt;
  capacity = ground arith;
}

leased-IsValid : IsValid (one_row leased_row)
leased-IsValid =
    one_row-IsValid leased_row
      (record { limit = omega arith; sent = omega arith; token = refl; until = refl })

sent-IsValid : IsValid (one_row sent_row)
sent-IsValid =
    one_row-IsValid sent_row
      (record { limit = omega arith; sent = omega arith; token = refl; until = refl })

delivered-IsValid : IsValid (one_row delivered_row)
delivered-IsValid =
    one_row-IsValid delivered_row
      (record { limit = omega arith; sent = omega arith; token = refl; until = refl })

abbrev holder : Claim
holder = record { event_key = 77; lease_token = 5; attempt_count = 0 }

abbrev after_send : Ledger
after_send = record (one_row sent_row) { attempts = new_attempt 77 1 101 ∷ [] }

begins :
    begin_send (one_row leased_row) holder 101
    ≡ ok (true, record holder { attempt_count = 1 }, after_send)
unfolding begin_send exists select update
begins = refl

queued : enqueue none_yet report 100 ≡ ok (77, true, one_row (new_row report 100))
unfolding enqueue exists
queued = refl

known : enqueue (one_row leased_row) report 200 ≡ ok (77, false, one_row leased_row)
unfolding enqueue exists
known = refl

Reach-IsValid_example : IsValid (claim (one_row (new_row report 100)) 100 "10001" none 5).1
Reach-IsValid_example =
    Reach-IsValid
      (next (next here (by_itself (enqueued report 100 77 true queued)))
        (by_itself (claimed 100 "10001" none 5)))
      none_yet-IsValid

AutomaticReach-find_example :
    find (finish (recover (one_row delivered_row) 500) holder was_rejected 600 []).1 77
    ≡ some delivered_row
AutomaticReach-find_example =
    AutomaticReach-find 77 delivered_row
      (further (further start (recovered 500)) (ended holder was_rejected 600 [])) delivered-IsValid
      (unfold select in refl) refl

begin_send-Starts_example : Starts (begin_send (one_row leased_row) holder 101)
begin_send-Starts_example = begin_send-Starts (one_row leased_row) holder 101 leased-IsValid

begin_send_once_example :
    begin_send after_send (record holder { attempt_count = 1 }) 102
    ≡ ok (false, record holder { attempt_count = 1 }, after_send)
begin_send_once_example =
    begin_send_once (one_row leased_row) after_send holder (record holder { attempt_count = 1 }) 101
      102 leased-IsValid begins

finish_rejected_example :
    (s : Row) × (find (finish (one_row sent_row) holder was_rejected 102 []).1 77 ≡ some s)
    × (((s.status ≡ pending)
          × (s.attempt_count < s.attempt_limit)
          × (107 ≤ s.next_attempt_at)
          × (s.next_attempt_at ≤ 402))
        ⊎ ((s.status ≡ exhausted) × (s.attempt_count ≡ s.attempt_limit)))
finish_rejected_example =
    finish_rejected (one_row sent_row) holder 102 [] sent_row sent-IsValid (unfold select in refl)

claim_abandoned_example :
    (c : Claim) × ((claim (one_row leased_row) 200 "10001" (some 77) 6).0 ≡ some c)
    × (c.event_key ≡ 77)
claim_abandoned_example =
    claim_abandoned (one_row leased_row) 200 77 6 leased_row leased-IsValid (unfold select in refl)
      refl refl (omega arith)
