-- ===== src/Delivery/Complete.antt =====
-- What a run delivers.
use Prim.Native.Char.{Char}
use qq_violation_bot.Prelude.{
  ◌≡◌, refl, ap, Bool, true, false, not, List, [], ◌∷◌, ◌++◌, Bool-cases, if-ind, inl, inr, All,
}
use qq_violation_bot.Delivery.Ledger.{
  Part, PartStatus, pending, sending, sent, archived, unknown, cancelled, claim_part, transition,
}
use qq_violation_bot.Delivery.Send.{
  Turn, SendResult, received, not_sent, failed, Handled, mark_sent, send_claimed, send_pending,
  archive_sent, handle_part, deliver_parts,
}

abbrev pub texts : List Part → List (List Char)
texts [] = []
texts (p ∷ ps) = p.reply_text ∷ texts ps

-- Everything is allowed, the message is answered, and what follows it returns.
abbrev pub IsGood : Turn → Type 0
IsGood t =
    (t.may_start ≡ true)
    × (t.may_claim ≡ true)
    × (t.may_send ≡ true)
    × (t.after_send ≡ true)
    × ((r : List Char) × (t.result ≡ received r))

-- A part that is still to be sent, or that was sent for sure.
abbrev pub is_open : PartStatus → Bool
is_open pending = true
is_open sent = true
is_open archived = true
is_open _ = false

abbrev Archives : Handled → Type 0
Archives h = (h.part.status ≡ archived) × (h.was_delivered ≡ true) × (h.goes_on ≡ true)

Archives-handle_part :
    (t : Turn) (s : PartStatus) (text receipt error : List Char)
    → IsGood t
    → is_open s ≡ true
    → Archives (
        handle_part t s
          (record { reply_text = text; status = s; receipt = receipt; error = error }))
unfolding handle_part send_pending send_claimed mark_sent archive_sent claim_part transition
Archives-handle_part t pending text receipt error g h =
    let (start, claim, send, after, (receipt', answer)) = g in
    rw (start, claim, send, answer, after) (refl, refl, refl)
Archives-handle_part t sent text receipt error g h =
    let (start, claim, send, after, answer) = g in rw (start, after) (refl, refl, refl)
Archives-handle_part t archived text receipt error g h = (refl, refl, refl)
Archives-handle_part t sending text receipt error g h = absurd (cc)
Archives-handle_part t unknown text receipt error g h = absurd (cc)
Archives-handle_part t cancelled text receipt error g h = absurd (cc)

-- A good turn for each part.
abbrev pub Enough : List Turn → List Part → Type 0
Enough turns [] = Unit
Enough [] (p ∷ ps) = ⊥
Enough (t ∷ turns) (p ∷ ps) = IsGood t × Enough turns ps

-- A run where each part is pending, sent or archived, and each turn is allowed, answered and archived,
-- delivers all the replies in their order and archives every part.
pub deliver_parts_complete :
    (turns : List Turn) (ps : List Part)
    → Enough turns ps
    → All (λ p. is_open p.status ≡ true) ps
    → ((deliver_parts turns ps).delivered ≡ texts ps)
      × All (λ p. p.status ≡ archived) (deliver_parts turns ps).parts
unfolding deliver_parts
deliver_parts_complete turns [] good open_ = (refl, tt)
deliver_parts_complete [] (p ∷ ps) good open_ = absurd good
deliver_parts_complete (t ∷ turns) (p ∷ ps) good open_ =
    let done : Archives (handle_part t p.status p) =
      Archives-handle_part t p.status p.reply_text p.receipt p.error good.0 open_.0 in
    let rest = deliver_parts_complete turns ps good.1 open_.1 in
    rw (done.2, done.1) (ap (λ l. p.reply_text ∷ l) rest.0, (done.0, rest.1))

abbrev pub IsPrefix : List (List Char) → List (List Char) → Type 0
IsPrefix xs ys = (zs : List (List Char)) × (xs ++ zs ≡ ys)

-- A reply that does not count as delivered ends the loop.
abbrev Stops : Handled → Type 0
Stops h = h.goes_on ≡ true → h.was_delivered ≡ true

Stops-send_claimed : (t : Turn) (r : SendResult) (p : Part) → Stops (send_claimed t r p)
unfolding send_claimed mark_sent transition
Stops-send_claimed t not_sent p = λ h. absurd (cc)
Stops-send_claimed t (failed e) p = λ h. absurd (cc)
Stops-send_claimed t (received r) p =
    if-ind Stops (transition sending sent r [] p).0
      (λ _. if-ind Stops t.after_send (λ _ h. refl) (λ _ h. refl)) (λ _ h. absurd (cc))

Stops-handle_part : (t : Turn) (s : PartStatus) (p : Part) → Stops (handle_part t s p)
unfolding handle_part send_pending archive_sent
Stops-handle_part t archived p = λ h. refl
Stops-handle_part t sending p = λ h. absurd (cc)
Stops-handle_part t unknown p = λ h. absurd (cc)
Stops-handle_part t cancelled p = λ h. absurd (cc)
Stops-handle_part t sent p =
    if-ind Stops t.may_start (λ _. if-ind Stops t.after_send (λ _ h. refl) (λ _ h. absurd (cc)))
      (λ _ h. absurd (cc))
Stops-handle_part t pending p =
    if-ind Stops t.may_start
      (λ _.
        if-ind Stops (not t.may_claim) (λ _ h. absurd (cc))
          (λ _.
            if-ind Stops (not (claim_part p).0) (λ _ h. absurd (cc))
              (λ _.
                if-ind Stops (not t.may_send) (λ _ h. absurd (cc))
                  (λ _. Stops-send_claimed t t.result (claim_part p).1))))
      (λ _ h. absurd (cc))

-- Whatever the world answers, the replies that a run delivers are the first ones of the plan, in its
-- order and without a gap.
pub deliver_parts-IsPrefix :
    (turns : List Turn) (ps : List Part) → IsPrefix (deliver_parts turns ps).delivered (texts ps)
unfolding deliver_parts
deliver_parts-IsPrefix turns [] = ([], refl)
deliver_parts-IsPrefix [] (p ∷ ps) = (texts (p ∷ ps), refl)
deliver_parts-IsPrefix (t ∷ turns) (p ∷ ps) =
    let h = handle_part t p.status p in
    let rest = deliver_parts-IsPrefix turns ps in
    elim (Bool-cases h.goes_on) [
      | inl on ↦
          rw (on, Stops-handle_part t p.status p on) (rest.0, ap (λ l. p.reply_text ∷ l) rest.1)
      | inr off ↦ rw off (elim (Bool-cases h.was_delivered) [
        | inl yes_ ↦ rw yes_ (texts ps, refl)
        | inr no_ ↦ rw no_ (texts (p ∷ ps), refl)
      ])
    ]
