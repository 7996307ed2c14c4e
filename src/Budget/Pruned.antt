-- ===== src/Budget/Pruned.antt =====
-- The speakers of the returned data: those of the directory that the data refer to.
use qq_violation_bot.Prelude.{
  ℕ, zero, suc, ◌+◌, ◌-◌, ◌≡◌, refl, subst, sym, ap, ◌∙◌, inl, inr, Bool, true, ◌||◌, ◌&&◌, List,
  [], ◌∷◌, String, arith, length, take, drop, leb, ltb, if-ind, Bool-cases,
}
use qq_violation_bot.Budget.Types.{
  PromptBudget, BudgetedPromptData, SpeakerIdentity, RawPrompt, string_eq,
}
use qq_violation_bot.Budget.Fit.{prompt_data_chars, trim_tail}
use qq_violation_bot.Budget.Order.{List-cases, drop_oldest_none}
use qq_violation_bot.Budget.Apply.{
  Part, searches, images, topics, member_facts, set_part, member, is_used, is_replied,
  used_speakers, prune_speakers, trim_part, trim_parts, drop_oldest, drop_context,
  trim_relationship, trim_persona, trim_texts, trim_current, fit_total, fit_parts,
  apply_prompt_budget,
}

-- Every reference that the first test meets, the second meets.
abbrev Within : (String → Bool) → (String → Bool) → Type 0
Within f g = (r : String) → f r ≡ true → g r ≡ true

used_twice :
    (f g : String → Bool) (ss : List SpeakerIdentity)
    → Within f g
    → used_speakers f (used_speakers g ss) ≡ used_speakers f ss
used_twice f g [] h = refl
used_twice f g (s ∷ ss) h = elim (Bool-cases (g s.ref)) [
  | inl e ↦ ground (arith, used_twice f g ss h, e)
  | inr e ↦ ground (arith, used_twice f g ss h, e, h s.ref)
]

member-drop :
    (r : String) (n : ℕ) (ss : List String) → member r (drop n ss) ≡ true → member r ss ≡ true
member-drop r zero ss h = h
member-drop r (suc n) [] h = h
member-drop r (suc n) (s ∷ ss) h = ground (arith, member-drop r n ss)

member-take :
    (r : String) (n : ℕ) (ss : List String) → member r (take n ss) ≡ true → member r ss ≡ true
member-take r zero ss h = absurd (cc)
member-take r (suc n) [] h = h
member-take r (suc n) (s ∷ ss) h = ground (arith, member-take r n ss, h)

-- In a disjunction such as that of `is_used`, one part is replaced by a narrower one.
or_second :
    (a b b' x y z : Bool)
    → (b' ≡ true → b ≡ true)
    → (a || b' || x || y || z) ≡ true
    → (a || b || x || y || z) ≡ true
or_second a b b' x y z h k = ground arith

or_third :
    (a b c c' x y : Bool)
    → (c' ≡ true → c ≡ true)
    → (a || b || c' || x || y) ≡ true
    → (a || b || c || x || y) ≡ true
or_third a b c c' x y h k = ground arith

-- Pruning now or pruning the whole directory gives the same speakers.
abbrev pub IsPruned : List SpeakerIdentity → BudgetedPromptData → Type 0
IsPruned all d = used_speakers (is_used d) d.speakers ≡ used_speakers (is_used d) all

IsPruned-narrow :
    (all : List SpeakerIdentity) (d d' : BudgetedPromptData)
    → d'.speakers ≡ d.speakers
    → Within (is_used d') (is_used d)
    → IsPruned all d
    → IsPruned all d'
IsPruned-narrow all d d' e w h =
    ap (used_speakers (is_used d')) e
    ∙ sym (used_twice (is_used d') (is_used d) d.speakers w)
    ∙ ap (used_speakers (is_used d')) h
    ∙ used_twice (is_used d') (is_used d) all w

IsPruned-prune :
    (all : List SpeakerIdentity) (d : BudgetedPromptData)
    → IsPruned all d
    → IsPruned all (prune_speakers d)
IsPruned-prune all d h = used_twice (is_used d) (is_used d) d.speakers (λ r e. e) ∙ h

IsPruned-trim_part :
    (all : List SpeakerIdentity) (n : ℕ) (p : Part) (d : BudgetedPromptData)
    → IsPruned all d
    → IsPruned all (trim_part n p d)
unfolding trim_part
IsPruned-trim_part all n searches d h = IsPruned-prune all d h
IsPruned-trim_part all n images d h = IsPruned-prune all d h
IsPruned-trim_part all n topics d h = IsPruned-prune all d h
IsPruned-trim_part all n member_facts d h =
    let d' = set_part member_facts d (trim_tail d.facts (prompt_data_chars d - n)) in
    IsPruned-prune all d' (
      IsPruned-narrow all d d' refl
        (λ r e.
          or_third (string_eq r d.current_speaker_ref) (member r d.context_speaker_refs)
            (member r d.fact_speaker_refs) (member r d'.fact_speaker_refs)
            (member r d.current_at_speaker_refs) (is_replied d r)
            (member-take r (length d'.facts) d.fact_speaker_refs) e)
        h)

IsPruned-trim_parts :
    (all : List SpeakerIdentity) (n : ℕ) (ps : List Part) (d : BudgetedPromptData)
    → IsPruned all d
    → IsPruned all (trim_parts n ps d)
unfolding trim_parts
IsPruned-trim_parts all n [] d h = h
IsPruned-trim_parts all n (p ∷ ps) d h =
    if-ind (IsPruned all) (leb (prompt_data_chars d) n) (λ e. h)
      (λ e. IsPruned-trim_parts all n ps (trim_part n p d) (IsPruned-trim_part all n p d h))

IsPruned-drop_oldest :
    (all : List SpeakerIdentity) (d : BudgetedPromptData)
    → IsPruned all d
    → IsPruned all (drop_oldest d)
IsPruned-drop_oldest all d h = elim (List-cases d.context) [
  | inl e ↦ subst (IsPruned all) (drop_oldest_none d e) h
  | inr (m, ms, e) ↦
      let d' : BudgetedPromptData =
        let t = d.truncation in
        record d {
          context = ms;
          context_message_ids = drop 1 d.context_message_ids;
          context_speaker_refs = drop 1 d.context_speaker_refs;
          truncation = record t {
            context_messages_removed = t.context_messages_removed + 1;
            context_chars_removed = t.context_chars_removed + length m;
          };
        } in
      rw e (
        IsPruned-prune all d' (
          IsPruned-narrow all d d' refl
            (λ r k.
              or_second (string_eq r d.current_speaker_ref) (member r d.context_speaker_refs)
                (member r d'.context_speaker_refs) (member r d.fact_speaker_refs)
                (member r d.current_at_speaker_refs) (is_replied d r)
                (member-drop r 1 d.context_speaker_refs) k)
            h))
]

IsPruned-drop_context :
    (all : List SpeakerIdentity) (least n fuel : ℕ) (d : BudgetedPromptData)
    → IsPruned all d
    → IsPruned all (drop_context least n fuel d)
unfolding drop_context
IsPruned-drop_context all least n zero d h = h
IsPruned-drop_context all least n (suc fuel) d h =
    if-ind (IsPruned all) (ltb least (length d.context) && ltb n (prompt_data_chars d))
      (λ e. IsPruned-drop_context all least n fuel (drop_oldest d) (IsPruned-drop_oldest all d h))
      (λ e. h)

IsPruned-trim_texts :
    (all : List SpeakerIdentity) (n : ℕ) (d : BudgetedPromptData)
    → IsPruned all d
    → IsPruned all (trim_texts n d)
unfolding trim_texts trim_relationship trim_persona
IsPruned-trim_texts all n d h =
    if-ind (IsPruned all) (leb (prompt_data_chars d) n) (λ e. h)
      (λ e.
        if-ind (IsPruned all) (leb (prompt_data_chars (trim_relationship n d)) n) (λ e'. h)
          (λ e'. h))

IsPruned-trim_current :
    (all : List SpeakerIdentity) (n : ℕ) (d : BudgetedPromptData)
    → IsPruned all d
    → IsPruned all (trim_current n d)
unfolding trim_current
IsPruned-trim_current all n d h =
    if-ind (IsPruned all) (leb (prompt_data_chars d) n) (λ e. h) (λ e. h)

speakers-fit_total :
    (all : List SpeakerIdentity) (n : ℕ) (d : BudgetedPromptData)
    → IsPruned all d
    → (fit_total n d).speakers ≡ used_speakers (is_used (fit_total n d)) all
unfolding fit_total
speakers-fit_total all n d h =
    let ps = searches ∷ images ∷ topics ∷ member_facts ∷ [] in
    let d₁ = trim_parts n ps d in
    let d₂ = drop_context 2 n (length d₁.context) d₁ in
    let d₃ = trim_texts n d₂ in
    let d₄ = drop_context 0 n (length d₃.context) d₃ in
    IsPruned-trim_current all n d₄ (
      IsPruned-drop_context all 0 n (length d₃.context) d₃ (
        IsPruned-trim_texts all n d₂ (
          IsPruned-drop_context all 2 n (length d₁.context) d₁ (IsPruned-trim_parts all n ps d h))))

-- The speakers of the returned data are those of the directory, in its order, whose reference is
-- that of the current speaker, of a kept message, of a kept fact, of a mention or of the author
-- replied to: the prunings in between lose no speaker that is still in use.
pub apply_prompt_budget-speakers :
    (raw : RawPrompt) (budget : PromptBudget)
    → (apply_prompt_budget raw budget).speakers
      ≡ used_speakers (is_used (apply_prompt_budget raw budget)) raw.identities
unfolding apply_prompt_budget fit_parts
apply_prompt_budget-speakers raw budget =
    speakers-fit_total raw.identities budget.total_chars (fit_parts budget raw) refl
