-- ===== src/Delivery/Tests.antt =====
-- Runs over the parts of a reply, and a theorem at concrete inputs.
use qq_violation_bot.Prelude.{◌≡◌, refl, true, false, [], ◌∷◌, All}
use qq_violation_bot.Delivery.Ledger.{Part, pending, sent, archived, plan, claim_part, transition}
use qq_violation_bot.Delivery.Send.{
  Turn, received, failed, send_claimed, send_pending, archive_sent, handle_part, deliver_parts,
}
use qq_violation_bot.Delivery.Plan.{Keeps, plan-Keeps}
use qq_violation_bot.Delivery.Once.{NeverBoth, deliver_parts-NeverBoth}
use qq_violation_bot.Delivery.Complete.{
  texts, deliver_parts_complete, IsPrefix, deliver_parts-IsPrefix,
}

abbrev first_part : Part
first_part = record { reply_text = "a" ∷ []; status = sent; receipt = []; error = [] }

abbrev second_part : Part
second_part = record { reply_text = "b" ∷ []; status = pending; receipt = []; error = [] }

abbrev good : Turn
good = record {
  may_start = true;
  may_claim = true;
  may_send = true;
  result = received ("1" ∷ []);
  after_send = true;
}

abbrev lost : Turn
lost = record good { result = failed ("T" ∷ []) }

-- A send whose result is lost is not repeated.
lost_once :
    (deliver_parts (good ∷ lost ∷ []) (first_part ∷ second_part ∷ [])).sends ≡ false ∷ true ∷ []
unfolding deliver_parts handle_part archive_sent send_pending send_claimed claim_part transition
lost_once = refl

deliver_parts-NeverBoth_example :
    NeverBoth
      (deliver_parts (good ∷ lost ∷ []) (first_part ∷ second_part ∷ [])).sends
      (deliver_parts
        (good ∷ good ∷ [])
        (deliver_parts (good ∷ lost ∷ []) (first_part ∷ second_part ∷ [])).parts).sends
deliver_parts-NeverBoth_example =
    deliver_parts-NeverBoth (good ∷ lost ∷ []) (good ∷ good ∷ []) (first_part ∷ second_part ∷ [])

deliver_parts_complete_example :
    ((deliver_parts (good ∷ good ∷ []) (first_part ∷ second_part ∷ [])).delivered
      ≡ texts (first_part ∷ second_part ∷ []))
    × All
        (λ p. p.status ≡ archived)
        (deliver_parts (good ∷ good ∷ []) (first_part ∷ second_part ∷ [])).parts
deliver_parts_complete_example =
    deliver_parts_complete (good ∷ good ∷ []) (first_part ∷ second_part ∷ [])
      ((refl, refl, refl, refl, (_, refl)), ((refl, refl, refl, refl, (_, refl)), tt))
      (refl, (refl, tt))

deliver_parts-IsPrefix_example :
    IsPrefix
      (deliver_parts (good ∷ lost ∷ []) (first_part ∷ second_part ∷ [])).delivered
      (texts (first_part ∷ second_part ∷ []))
deliver_parts-IsPrefix_example =
    deliver_parts-IsPrefix (good ∷ lost ∷ []) (first_part ∷ second_part ∷ [])

plan-Keeps_example :
    Keeps
      (second_part ∷ [])
      (("c" ∷ []) ∷ [])
      true
      (plan (second_part ∷ []) true false (("c" ∷ []) ∷ []))
plan-Keeps_example = plan-Keeps second_part [] true false (("c" ∷ []) ∷ [])
