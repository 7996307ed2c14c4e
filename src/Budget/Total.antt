-- ===== src/Budget/Total.antt =====
-- The prompt that apply_prompt_budget returns fits into the total.
use qq_violation_bot.Prelude.{
  ℕ, zero, suc, ◌-◌, ◌≡◌, ◌≤◌, ◌⊎◌, inl, inr, List, [], ◌∷◌, arith, length, leb, ltb, length-take,
  refl, Bool-cases, All, if-ind, ◌&&◌, leb→le,
}
use qq_violation_bot.Budget.Types.{Text, PromptBudget, BudgetedPromptData, RawPrompt}
use qq_violation_bot.Budget.Fit.{total_length, prompt_data_chars}
use qq_violation_bot.Budget.Chars.{trim_tail_kept}
use qq_violation_bot.Budget.Apply.{
  Part, searches, images, topics, member_facts, part, trim_part, trim_parts, drop_oldest,
  drop_context, trim_relationship, trim_persona, trim_texts, trim_current, max, fit_total,
  fit_parts, apply_prompt_budget,
}

abbrev Fits : ℕ → BudgetedPromptData → Type 0
Fits total d = prompt_data_chars d ≤ total

-- No text of the first is longer than the second's.
abbrev Smaller : BudgetedPromptData → BudgetedPromptData → Type 0
Smaller a b =
    (length a.persona ≤ length b.persona)
    × (total_length a.context ≤ total_length b.context)
    × (total_length a.facts ≤ total_length b.facts)
    × (length a.relationship ≤ length b.relationship)
    × (total_length a.open_topics ≤ total_length b.open_topics)
    × (total_length a.image_descriptions ≤ total_length b.image_descriptions)
    × (total_length a.web_search_data ≤ total_length b.web_search_data)
    × (length a.current ≤ length b.current)

Smaller-refl : (d : BudgetedPromptData) → Smaller d d
Smaller-refl d = ground arith

Smaller-trans : (a b c : BudgetedPromptData) → Smaller a b → Smaller b c → Smaller a c
Smaller-trans a b c h k = ground arith

chars-Smaller : (a b : BudgetedPromptData) → Smaller a b → prompt_data_chars a ≤ prompt_data_chars b
chars-Smaller a b h = ground arith

part-Smaller :
    (p : Part) (a b : BudgetedPromptData)
    → Smaller a b
    → total_length (part p a) ≤ total_length (part p b)
part-Smaller searches a b h = ground arith
part-Smaller images a b h = ground arith
part-Smaller topics a b h = ground arith
part-Smaller member_facts a b h = ground arith

Smaller-trim_part : (n : ℕ) (p : Part) (d : BudgetedPromptData) → Smaller (trim_part n p d) d
unfolding trim_part
Smaller-trim_part n searches d =
    ground (arith, trim_tail_kept d.web_search_data (prompt_data_chars d - n))
Smaller-trim_part n images d =
    ground (arith, trim_tail_kept d.image_descriptions (prompt_data_chars d - n))
Smaller-trim_part n topics d =
    ground (arith, trim_tail_kept d.open_topics (prompt_data_chars d - n))
Smaller-trim_part n member_facts d =
    ground (arith, trim_tail_kept d.facts (prompt_data_chars d - n))

trim_part-Fits :
    (n : ℕ) (p : Part) (d : BudgetedPromptData)
    → Fits n (trim_part n p d) ⊎ (total_length (part p (trim_part n p d)) ≡ 0)
unfolding trim_part
trim_part-Fits n searches d =
    ground (arith, trim_tail_kept d.web_search_data (prompt_data_chars d - n))
trim_part-Fits n images d =
    ground (arith, trim_tail_kept d.image_descriptions (prompt_data_chars d - n))
trim_part-Fits n topics d = ground (arith, trim_tail_kept d.open_topics (prompt_data_chars d - n))
trim_part-Fits n member_facts d = ground (arith, trim_tail_kept d.facts (prompt_data_chars d - n))

Smaller-trim_parts :
    (n : ℕ) (ps : List Part) (d : BudgetedPromptData) → Smaller (trim_parts n ps d) d
unfolding trim_parts
Smaller-trim_parts n [] d = Smaller-refl d
Smaller-trim_parts n (p ∷ ps) d = elim (Bool-cases (leb (prompt_data_chars d) n)) [
  | inl e ↦ rw e (Smaller-refl d)
  | inr e ↦ rw e (
      Smaller-trans (trim_parts n ps (trim_part n p d)) (trim_part n p d) d
        (Smaller-trim_parts n ps (trim_part n p d)) (Smaller-trim_part n p d))
]

trim_parts-Fits :
    (n : ℕ) (ps : List Part) (d : BudgetedPromptData)
    → Fits n (trim_parts n ps d) ⊎ All (λ p. total_length (part p (trim_parts n ps d)) ≡ 0) ps
unfolding trim_parts
trim_parts-Fits n [] d = inr tt
trim_parts-Fits n (p ∷ ps) d =
    let d' = trim_part n p d in
    let r = trim_parts n ps d' in
    let small = Smaller-trim_parts n ps d' in
    if-ind (λ r. Fits n r ⊎ All (λ q. total_length (part q r) ≡ 0) (p ∷ ps))
      (leb (prompt_data_chars d) n) (λ e. inl (leb→le (prompt_data_chars d) n e))
      (λ e. elim (trim_parts-Fits n ps d') [
        | inl fits ↦ inl fits
        | inr zeros ↦ elim (trim_part-Fits n p d) [
          | inl fits ↦ inl (omega (arith, chars-Smaller r d' small, fits))
          | inr left ↦ inr (omega (arith, part-Smaller p r d' small, left), zeros)
        ]
      ])

Smaller-drop_oldest : (d : BudgetedPromptData) → Smaller (drop_oldest d) d
Smaller-drop_oldest d = elim d.context [ [] ↦ ground arith | m ∷ ms ↦ ground arith ]

length-drop_oldest :
    (d : BudgetedPromptData) → length (drop_oldest d).context ≡ length d.context - 1
length-drop_oldest d = elim d.context [ [] ↦ ground arith | m ∷ ms ↦ ground arith ]

Smaller-drop_context :
    (least n fuel : ℕ) (d : BudgetedPromptData) → Smaller (drop_context least n fuel d) d
unfolding drop_context
Smaller-drop_context least n zero d = Smaller-refl d
Smaller-drop_context least n (suc fuel) d =
    if-ind (λ r. Smaller r d) (ltb least (length d.context) && ltb n (prompt_data_chars d))
      (λ e.
        Smaller-trans (drop_context least n fuel (drop_oldest d)) (drop_oldest d) d
          (Smaller-drop_context least n fuel (drop_oldest d)) (Smaller-drop_oldest d))
      (λ e. Smaller-refl d)

drop_context-Fits :
    (least n fuel : ℕ) (d : BudgetedPromptData)
    → length d.context ≤ fuel
    → Fits n (drop_context least n fuel d) ⊎ (length (drop_context least n fuel d).context ≤ least)
unfolding drop_context
drop_context-Fits least n zero d h = inr (omega (arith, h))
drop_context-Fits least n (suc fuel) d h =
    if-ind (λ r. Fits n r ⊎ (length r.context ≤ least))
      (ltb least (length d.context) && ltb n (prompt_data_chars d))
      (λ e. drop_context-Fits least n fuel (drop_oldest d) (omega (arith, length-drop_oldest d, h)))
      (λ e. ground arith)

no_context : (vs : List Text) → length vs ≤ 0 → total_length vs ≡ 0
no_context [] h = refl
no_context (v ∷ vs) h = absurd (omega (arith, h))

Smaller-trim_relationship : (n : ℕ) (d : BudgetedPromptData) → Smaller (trim_relationship n d) d
unfolding trim_relationship
Smaller-trim_relationship n d =
    ground (arith, length-take (length d.relationship - (prompt_data_chars d - n)) d.relationship)

trim_relationship-Fits :
    (n : ℕ) (d : BudgetedPromptData)
    → Fits n (trim_relationship n d) ⊎ (length (trim_relationship n d).relationship ≡ 0)
unfolding trim_relationship
trim_relationship-Fits n d =
    ground (arith, length-take (length d.relationship - (prompt_data_chars d - n)) d.relationship)

Smaller-trim_persona : (n : ℕ) (d : BudgetedPromptData) → Smaller (trim_persona n d) d
unfolding trim_persona
Smaller-trim_persona n d =
    ground (arith, length-take (length d.persona - (prompt_data_chars d - n)) d.persona)

trim_persona-Fits :
    (n : ℕ) (d : BudgetedPromptData)
    → Fits n (trim_persona n d) ⊎ (length (trim_persona n d).persona ≡ 0)
unfolding trim_persona
trim_persona-Fits n d =
    ground (arith, length-take (length d.persona - (prompt_data_chars d - n)) d.persona)

Smaller-trim_texts : (n : ℕ) (d : BudgetedPromptData) → Smaller (trim_texts n d) d
unfolding trim_texts
Smaller-trim_texts n d =
    let d' = trim_relationship n d in
    let small = Smaller-trim_relationship n d in
    if-ind (λ r. Smaller r d) (leb (prompt_data_chars d) n) (λ e. Smaller-refl d)
      (λ e.
        if-ind (λ r. Smaller r d) (leb (prompt_data_chars d') n) (λ e'. small)
          (λ e'. Smaller-trans (trim_persona n d') d' d (Smaller-trim_persona n d') small))

abbrev NoTexts : BudgetedPromptData → Type 0
NoTexts d = (length d.relationship ≡ 0) × (length d.persona ≡ 0)

trim_texts-Fits :
    (n : ℕ) (d : BudgetedPromptData) → Fits n (trim_texts n d) ⊎ NoTexts (trim_texts n d)
unfolding trim_texts
trim_texts-Fits n d =
    let d' = trim_relationship n d in
    let r = trim_persona n d' in
    let small = Smaller-trim_persona n d' in
    if-ind (λ r. Fits n r ⊎ NoTexts r) (leb (prompt_data_chars d) n)
      (λ e. inl (leb→le (prompt_data_chars d) n e))
      (λ e.
        if-ind (λ r. Fits n r ⊎ NoTexts r) (leb (prompt_data_chars d') n)
          (λ e'. inl (leb→le (prompt_data_chars d') n e'))
          (λ e'. elim (trim_relationship-Fits n d) [
            | inl fits ↦ inl (omega (arith, chars-Smaller r d' small, fits))
            | inr left ↦ elim (trim_persona-Fits n d') [
              | inl fits ↦ inl fits
              | inr gone ↦ inr (omega (arith, left, small.3), gone)
            ]
          ]))

-- Nothing but the current message is left.
abbrev OnlyCurrent : BudgetedPromptData → Type 0
OnlyCurrent d = prompt_data_chars d ≤ length d.current

trim_current-Fits :
    (n : ℕ) (d : BudgetedPromptData) → 1 ≤ n → Fits n d ⊎ OnlyCurrent d → Fits n (trim_current n d)
unfolding trim_current
trim_current-Fits n d h k =
    if-ind (Fits n) (leb (prompt_data_chars d) n) (λ e. leb→le (prompt_data_chars d) n e)
      (λ e.
        ground
          (arith, length-take (max 1 (length d.current - (prompt_data_chars d - n))) d.current))

-- The four loops together.
fit_total-Fits : (n : ℕ) (d : BudgetedPromptData) → 1 ≤ n → Fits n (fit_total n d)
unfolding fit_total
fit_total-Fits n d h =
    let ps = searches ∷ images ∷ topics ∷ member_facts ∷ [] in
    let d₁ = trim_parts n ps d in
    let d₂ = drop_context 2 n (length d₁.context) d₁ in
    let d₃ = trim_texts n d₂ in
    let d₄ = drop_context 0 n (length d₃.context) d₃ in
    let s₂ = Smaller-drop_context 2 n (length d₁.context) d₁ in
    let s₃ = Smaller-trim_texts n d₂ in
    let s₄ = Smaller-drop_context 0 n (length d₃.context) d₃ in
    let s₁₄ = Smaller-trans d₄ d₂ d₁ (Smaller-trans d₄ d₃ d₂ s₄ s₃) s₂ in
    trim_current-Fits n d₄ h (elim (trim_parts-Fits n ps d) [
      | inl fits ↦ inl (omega (arith, chars-Smaller d₄ d₁ s₁₄, fits))
      | inr parts ↦ elim (trim_texts-Fits n d₂) [
        | inl fits ↦ inl (omega (arith, chars-Smaller d₄ d₃ s₄, fits))
        | inr texts ↦ elim (drop_context-Fits 0 n (length d₃.context) d₃ (omega arith)) [
          | inl fits ↦ inl fits
          | inr empty ↦ inr (ground (arith, no_context d₄.context empty))
        ]
      ]
    ])

-- With a total of one character at least, which PromptBudget enforces, all the texts of the
-- returned data together have at most `total_chars` characters.
pub apply_prompt_budget-total :
    (raw : RawPrompt) (budget : PromptBudget)
    → 1 ≤ budget.total_chars
    → prompt_data_chars (apply_prompt_budget raw budget) ≤ budget.total_chars
unfolding apply_prompt_budget
apply_prompt_budget-total raw budget h = fit_total-Fits budget.total_chars (fit_parts budget raw) h
