-- ===== src/Delivery/Ledger.antt =====
-- DeliveryLedger of delivery_store.py, for one event key: its rows in the order of their part
-- numbers. The columns that only name the conversation, and updated_at, are left out.
use Prim.Native.Char.{Char}
use qq_violation_bot.Prelude.{
  ℕ, Bool, true, false, ◌&&◌, List, [], ◌∷◌, map, Result, ok, raise, length, take, leb, ltb,
  if◌then◌else◌,
}

pub data PartStatus : Type 0 where
  pending sending sent archived unknown cancelled : PartStatus

abbrev pub status_code : PartStatus → ℕ
status_code pending = 0
status_code sending = 1
status_code sent = 2
status_code archived = 3
status_code unknown = 4
status_code cancelled = 5

pub record Part : Type 0 where
  pub reply_text : List Char
  pub status : PartStatus
  pub receipt : List Char
  pub error : List Char

-- ValueError("invalid delivery plan")
pub data PlanError : Type 0 where
  invalid_plan : PlanError

abbrev pub is_short : List (List Char) → Bool
is_short [] = true
is_short (text ∷ texts) = leb (length text) 1200 && is_short texts

abbrev pub is_valid_plan : List (List Char) → Bool
is_valid_plan texts = ltb 0 (length texts) && (leb (length texts) 3 && is_short texts)

abbrev pub new_part : Bool → List Char → Part
new_part no_reply text = record {
  reply_text = text;
  status = if no_reply then cancelled else pending;
  receipt = [];
  error = if no_reply then "n" ∷ "o" ∷ "_" ∷ "r" ∷ "e" ∷ "p" ∷ "l" ∷ "y" ∷ [] else [];
}

abbrev pub insert_parts : List Part → List Part → List Part
insert_parts [] new = new
insert_parts (p ∷ ps) new = p ∷ ps

-- The rows after the call, and those it returns; `live` is whether the private source message is
-- still there, true where there is none to look for.
unfoldable pub plan :
    List Part → Bool → Bool → List (List Char) → Result PlanError (List Part × List Part)
plan rows live no_reply texts =
    if is_valid_plan texts
    then (if live
        then (let rows' = insert_parts rows (map (new_part no_reply) texts) in ok (rows', rows'))
        else ok (rows, []))
    else raise invalid_plan

abbrev pub is_pending : PartStatus → Bool
is_pending pending = true
is_pending _ = false

-- The UPDATE of one row: whether it was in the state `before`.
abbrev pub same_status : PartStatus → PartStatus → Bool
same_status a b = leb (status_code a) (status_code b) && leb (status_code b) (status_code a)

unfoldable pub claim_part : Part → Bool × Part
claim_part p =
    if same_status p.status pending then (true, record p { status = sending }) else (false, p)

unfoldable pub transition : PartStatus → PartStatus → List Char → List Char → Part → Bool × Part
transition before after receipt error p =
    if same_status p.status before
    then (true, record p { status = after; receipt = take 200 receipt; error = take 80 error })
    else (false, p)

-- One row that is never sent.
abbrev pub complete_without_reply : List Part → Bool → Result PlanError (List Part × List Part)
complete_without_reply rows live = plan rows live true ([] ∷ [])
