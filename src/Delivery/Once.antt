-- ===== src/Delivery/Once.antt =====
-- No part is sent by two runs.
use Prim.Native.Char.{Char}
use qq_violation_bot.Prelude.{
  ◌≡◌, refl, Bool, false, not, ◌&&◌, List, [], ◌∷◌, Bool-cases, if-ind, if◌then◌else◌, inl, inr,
  arith,
}
use qq_violation_bot.Delivery.Ledger.{
  Part, PartStatus, pending, sending, sent, archived, unknown, cancelled, is_pending, claim_part,
  transition,
}
use qq_violation_bot.Delivery.Send.{
  Turn, SendResult, received, not_sent, failed, Handled, Delivery, mark_sent, send_claimed,
  send_pending, archive_sent, handle_part, none_sent, untouched, deliver_parts,
}

-- No flag is set in both lists at one place.
abbrev pub NeverBoth : List Bool → List Bool → Type 0
NeverBoth [] ys = Unit
NeverBoth (x ∷ xs) [] = Unit
NeverBoth (x ∷ xs) (y ∷ ys) = ((x && y) ≡ false) × NeverBoth xs ys

abbrev Leaves : Handled → Type 0
Leaves h = (h.was_sent && is_pending h.part.status) ≡ false

Leaves-send_claimed :
    (t : Turn) (r : SendResult) (text receipt error : List Char)
    → Leaves (
        send_claimed t r
          (record { reply_text = text; status = sending; receipt = receipt; error = error }))
unfolding send_claimed mark_sent transition
Leaves-send_claimed t not_sent text receipt error = refl
Leaves-send_claimed t (failed e) text receipt error = refl
Leaves-send_claimed t (received r) text receipt error =
    if-ind Leaves t.after_send (λ _. refl) (λ _. refl)

-- A row that may have been sent is not pending afterwards.
Leaves-handle_part :
    (t : Turn) (s : PartStatus) (text receipt error : List Char)
    → Leaves (
        handle_part t s
          (record { reply_text = text; status = s; receipt = receipt; error = error }))
unfolding handle_part send_pending archive_sent claim_part transition
Leaves-handle_part t archived text receipt error = refl
Leaves-handle_part t sending text receipt error = refl
Leaves-handle_part t unknown text receipt error = refl
Leaves-handle_part t cancelled text receipt error = refl
Leaves-handle_part t sent text receipt error =
    if-ind Leaves t.may_start (λ _. if-ind Leaves t.after_send (λ _. refl) (λ _. refl)) (λ _. refl)
Leaves-handle_part t pending text receipt error =
    if-ind Leaves t.may_start
      (λ _.
        if-ind Leaves (not t.may_claim) (λ _. refl)
          (λ _.
            if-ind Leaves (not t.may_send) (λ _. refl)
              (λ _. Leaves-send_claimed t t.result text receipt error)))
      (λ _. refl)

-- A row that is not pending is not sent.
unsent :
    (t : Turn) (s : PartStatus) (p : Part)
    → is_pending s ≡ false
    → (handle_part t s p).was_sent ≡ false
unfolding handle_part archive_sent
unsent t pending p h = absurd (cc)
unsent t archived p h = refl
unsent t sending p h = refl
unsent t unknown p h = refl
unsent t cancelled p h = refl
unsent t sent p h =
    if-ind (λ (d : Handled). d.was_sent ≡ false) t.may_start
      (λ _. if-ind (λ (d : Handled). d.was_sent ≡ false) t.after_send (λ _. refl) (λ _. refl))
      (λ _. refl)

NeverBoth-none_sent : (ps : List Part) (ys : List Bool) → NeverBoth (none_sent ps) ys
NeverBoth-none_sent [] ys = tt
NeverBoth-none_sent (p ∷ ps) [] = tt
NeverBoth-none_sent (p ∷ ps) (y ∷ ys) = (refl, NeverBoth-none_sent ps ys)

none_sent-NeverBoth : (xs : List Bool) (ps : List Part) → NeverBoth xs (none_sent ps)
none_sent-NeverBoth [] ps = tt
none_sent-NeverBoth (x ∷ xs) [] = tt
none_sent-NeverBoth (x ∷ xs) (p ∷ ps) = (ground arith, none_sent-NeverBoth xs ps)

-- One row in two runs: the first run leaves it in a state in which the second one does not send it.
handled_twice :
    (t t' : Turn) (p : Part)
    → ((handle_part t p.status p).was_sent
        && (handle_part t'
            (handle_part t p.status p).part.status
            (handle_part t p.status p).part).was_sent)
      ≡ false
handled_twice t t' p =
    let h = handle_part t p.status p in
    elim (Bool-cases (is_pending h.part.status)) [
      | inr over ↦ rw (unsent t' h.part.status h.part over) ground arith
      | inl open_ ↦
          let left : (h.was_sent && is_pending h.part.status) ≡ false =
            Leaves-handle_part t p.status p.reply_text p.receipt p.error in
          let none_ : h.was_sent ≡ false = ground (arith, left, open_) in rw none_ refl
    ]

-- Two runs over the rows of an event, with any answers of the world in each: no part that the first
-- run may have sent, that is which the send call did not refuse before it began, is sent by the
-- second one.
pub deliver_parts-NeverBoth :
    (turns turns' : List Turn) (ps : List Part)
    → NeverBoth
        (deliver_parts turns ps).sends
        (deliver_parts turns' (deliver_parts turns ps).parts).sends
unfolding deliver_parts
deliver_parts-NeverBoth turns turns' [] = tt
deliver_parts-NeverBoth [] turns' (p ∷ ps) = NeverBoth-none_sent (p ∷ ps) _
deliver_parts-NeverBoth (t ∷ turns) [] (p ∷ ps) = (ground arith, none_sent-NeverBoth _ _)
deliver_parts-NeverBoth (t ∷ turns) (t' ∷ turns') (p ∷ ps) =
    let h = handle_part t p.status p in
    let h' = handle_part t' h.part.status h.part in
    let Tail : Delivery → Type 0 = λ d.
      NeverBoth d.sends
        (if h'.goes_on then deliver_parts turns' d.parts else untouched d.parts).sends in
    (
      handled_twice t t' p,
      if-ind Tail h.goes_on {x = deliver_parts turns ps} {y = untouched ps}
          (λ _.
            if-ind (λ (d : Delivery). NeverBoth (deliver_parts turns ps).sends d.sends) h'.goes_on
              {x = deliver_parts turns' (deliver_parts turns ps).parts}
              {y = untouched (deliver_parts turns ps).parts}
              (λ _. deliver_parts-NeverBoth turns turns' ps)
              (λ _. none_sent-NeverBoth _ (deliver_parts turns ps).parts))
          (λ _. NeverBoth-none_sent ps _),
    )
