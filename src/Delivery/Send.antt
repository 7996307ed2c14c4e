-- ===== src/Delivery/Send.antt =====
-- deliver_replies of delivery.py with a ledger. What the world answers while one part is handled is a
-- `Turn`; a cancellation while the part is sent counts as a failed send, after which it is raised
-- again. No other task changes the rows meanwhile.
use Prim.Native.Char.{Char}
use qq_violation_bot.Prelude.{
  Bool, true, false, not, List, [], ◌∷◌, Result, ok, raise, if◌then◌else◌,
}
use qq_violation_bot.Delivery.Ledger.{
  Part, PartStatus, pending, sending, sent, archived, unknown, cancelled, PlanError, plan,
  claim_part, transition,
}

-- The outcome of `send`: the receipt of the answer, DeliveryNotSent, any other exception by its name.
pub data SendResult : Type 0 where
  received : List Char → SendResult
  not_sent : SendResult
  failed : List Char → SendResult

-- `chat_turn_allowed() and allowed()` at its three places, the result of `send`, and whether
-- `after_send` returns.
pub record Turn : Type 0 where
  pub may_start : Bool
  pub may_claim : Bool
  pub may_send : Bool
  pub result : SendResult
  pub after_send : Bool

-- What the loop's body leaves: the row, whether the message may have been sent, whether the reply
-- counts as delivered, and whether the loop goes on.
pub record Handled : Type 0 where
  pub part : Part
  pub was_sent : Bool
  pub was_delivered : Bool
  pub goes_on : Bool

abbrev pub stopped : Part → Handled
stopped p = record { part = p; was_sent = false; was_delivered = false; goes_on = false }

-- The part of a received answer: the row is marked, then archived.
unfoldable pub mark_sent : Turn → List Char → Part → Handled
mark_sent t receipt p =
    let (marked, p₁) = transition sending sent receipt [] p in
    let (_, p₂) = transition sent archived receipt [] p₁ in
    if marked
    then (if t.after_send
        then record { part = p₂; was_sent = true; was_delivered = true; goes_on = true }
        else record { part = p₁; was_sent = true; was_delivered = true; goes_on = false })
    else record { part = p₁; was_sent = true; was_delivered = false; goes_on = false }

unfoldable pub send_claimed : Turn → SendResult → Part → Handled
send_claimed t not_sent p = stopped (transition sending pending [] [] p).1
send_claimed t (failed error) p = record {
  part = (transition sending unknown [] error p).1;
  was_sent = true;
  was_delivered = false;
  goes_on = false;
}
send_claimed t (received receipt) p = mark_sent t receipt p

unfoldable pub send_pending : Turn → Part → Handled
send_pending t p =
    let (claimed, p₁) = claim_part p in
    if not t.may_claim
    then stopped p
    else if not claimed
    then stopped p₁
    else if not t.may_send
    then stopped (transition sending pending [] [] p₁).1
    else send_claimed t t.result p₁

-- A row that an earlier run left sent: only its archiving is made up for.
unfoldable pub archive_sent : Turn → Part → Handled
archive_sent t p =
    if t.after_send
    then record {
      part = (transition sent archived p.receipt [] p).1;
      was_sent = false;
      was_delivered = true;
      goes_on = true;
    }
    else stopped p

unfoldable pub handle_part : Turn → PartStatus → Part → Handled
handle_part t archived p = record {
  part = p;
  was_sent = false;
  was_delivered = true;
  goes_on = true;
}
handle_part t sending p = stopped p
handle_part t unknown p = stopped p
handle_part t cancelled p = stopped p
handle_part t sent p = if t.may_start then archive_sent t p else stopped p
handle_part t pending p = if t.may_start then send_pending t p else stopped p

-- The rows after a run, for each whether it may have been sent in the run, and the replies delivered.
pub record Delivery : Type 0 where
  pub parts : List Part
  pub sends : List Bool
  pub delivered : List (List Char)

abbrev pub none_sent : List Part → List Bool
none_sent [] = []
none_sent (p ∷ ps) = false ∷ none_sent ps

abbrev pub untouched : List Part → Delivery
untouched ps = record { parts = ps; sends = none_sent ps; delivered = [] }

abbrev pub counted : Handled → List Char → List (List Char) → List (List Char)
counted h text rest = if h.was_delivered then text ∷ rest else rest

abbrev pub after_part : Handled → List Char → Delivery → Delivery
after_part h text d = record {
  parts = h.part ∷ d.parts;
  sends = h.was_sent ∷ d.sends;
  delivered = counted h text d.delivered;
}

-- The loop over the rows; `turns` has the turn of each of them.
unfoldable pub deliver_parts : List Turn → List Part → Delivery
deliver_parts turns [] = untouched []
deliver_parts [] (p ∷ ps) = untouched (p ∷ ps)
deliver_parts (t ∷ turns) (p ∷ ps) =
    let h = handle_part t p.status p in
    let rest = deliver_parts turns ps in
    after_part h p.reply_text (if h.goes_on then rest else untouched ps)

-- The rows of the event after the plan, and the run over those that it returns.
unfoldable pub deliver_replies :
    List Turn → List Part → Bool → List (List Char) → Result PlanError (List Part × Delivery)
deliver_replies turns rows live texts = elim (plan rows live false texts) [
  | raise e ↦ raise e
  | ok r ↦ ok (r.0, deliver_parts turns r.1)
]
