-- ===== src/Literals/Grow.antt =====
-- Walks through a trie, and how the insertion of a text changes them.
use qq_violation_bot.Prelude.{
  ℕ, ◌≤◌, ◌<◌, ◌≡◌, refl, sym, ap, subst, ◌∙◌, inl, inr, ◌&&◌, Option, none, some, List, [], ◌∷◌,
  ◌++◌, arith, Result, ok, raise, length, ◌==◌, if◌then◌else◌, Bool-cases, Option-cases,
}
use qq_violation_bot.Literals.Types.{Text, Node, PatternError, next_node, terminal_at, add_child}
use qq_violation_bot.Literals.Build.{insert_chars, reaches}
use qq_violation_bot.Literals.Nodes.{
  next_bound, next-add_child, terminal-add_child, length-add_child,
}

unfoldable pub walk : List Node → ℕ → Text → Option ℕ
walk ns i [] = some i
walk ns i (c ∷ cs) = elim (next_node ns i c) [ none ↦ none | some j ↦ walk ns j cs ]

-- Each node has a label: the text on the way to it.
pub record IsTrie (label : ℕ → Text) (ns : List Node) : Type 0 where
  pub root : label 0 ≡ []
  pub rooted : 0 < length ns
  pub edges :
      (i c k : ℕ) → next_node ns i c ≡ some k → (k < length ns) × (label k ≡ label i ++ c ∷ [])

append_assoc : (s t u : Text) → (s ++ t) ++ u ≡ s ++ (t ++ u)
append_assoc [] t u = refl
append_assoc (c ∷ s) t u = ap (λ (x : Text). c ∷ x) (append_assoc s t u)

append_nil : (s : Text) → s ++ [] ≡ s
append_nil [] = refl
append_nil (c ∷ s) = ap (λ (x : Text). c ∷ x) (append_nil s)

-- A walk leads to the node with the label that it reads.
pub walk-label :
    (label : ℕ → Text) (ns : List Node) (i k : ℕ) (w : Text)
    → IsTrie label ns
    → walk ns i w ≡ some k
    → label k ≡ label i ++ w
unfolding walk
walk-label label ns i k [] v e =
    let same : i ≡ k = cc in
    subst (λ (x : ℕ). label x ≡ label i ++ []) same (sym (append_nil (label i)))
walk-label label ns i k (c ∷ cs) v e = elim (Option-cases (next_node ns i c)) [
  | inl stop ↦ let wrong : ◌≡◌ {A = Option ℕ} none (some k) = rw (stop, walk) at e in absurd (cc)
  | inr (j, next) ↦
      let rest : walk ns j cs ≡ some k = rw (next, walk) at e in
      walk-label label ns j k cs v rest
      ∙ ap (λ (x : Text). x ++ cs) (v.edges i c j next).1
      ∙ append_assoc (label i) (c ∷ []) cs
]

-- What the walks of one trie find the other one finds too.
abbrev pub Extends : List Node → List Node → Type 0
Extends ns ms = (i c k : ℕ) → next_node ns i c ≡ some k → next_node ms i c ≡ some k

pub walk-Extends :
    (ns ms : List Node) (i k : ℕ) (w : Text)
    → Extends ns ms
    → walk ns i w ≡ some k
    → walk ms i w ≡ some k
unfolding walk
walk-Extends ns ms i k [] more e = e
walk-Extends ns ms i k (c ∷ cs) more e = elim (Option-cases (next_node ns i c)) [
  | inl stop ↦ let wrong : ◌≡◌ {A = Option ℕ} none (some k) = rw (stop, walk) at e in absurd (cc)
  | inr (j, next) ↦
      let rest : walk ns j cs ≡ some k = rw (next, walk) at e in
      rw (more i c j next, walk) (walk-Extends ns ms j k cs more rest)
]

-- The trie that an insertion from node `i` leaves, with the node it ends at.
pub record Grown (label : ℕ → Text) (ns : List Node) (i : ℕ) (cs : Text) (j : ℕ) (ms : List Node)
    : Type 0 where
  pub new_label : ℕ → Text
  pub trie : IsTrie new_label ms
  pub kept : (k : ℕ) → k < length ns → new_label k ≡ label k
  pub walked : walk ms i cs ≡ some j
  pub inside : j < length ms
  pub longer : length ns ≤ length ms
  pub more : Extends ns ms
  pub terminals : (k : ℕ) → terminal_at ms k ≡ terminal_at ns k

abbrev pub GrownBy :
    (ℕ → Text) → List Node → ℕ → Text → Result PatternError (ℕ × List Node) → Type 0
GrownBy label ns i cs (raise e) = Unit
GrownBy label ns i cs (ok r) = Grown label ns i cs r.0 r.1

abbrev label_with : (ℕ → Text) → ℕ → Text → ℕ → Text
label_with label n t k = if k == n then t else label k

label_old : (label : ℕ → Text) (n : ℕ) (t : Text) (k : ℕ) → k < n → label_with label n t k ≡ label k
label_old label n t k h = ground arith

label_new : (label : ℕ → Text) (n : ℕ) (t : Text) → label_with label n t n ≡ t
label_new label n t = ground arith

IsTrie-add_child :
    (label : ℕ → Text) (ns : List Node) (i c : ℕ)
    → i < length ns
    → IsTrie label ns
    → IsTrie (label_with label (length ns) (label i ++ c ∷ [])) (add_child ns i c)
IsTrie-add_child label ns i c inside v = record {
  root = label_old label (length ns) (label i ++ c ∷ []) 0 v.rooted ∙ v.root;
  rooted = omega (arith, length-add_child ns i c);
  edges = λ i' c' k e. elim (Bool-cases ((i' == i) && (c' == c))) [
    | inl hit ↦
        let at : i' ≡ i = ground arith in
        let by : c' ≡ c = ground arith in
        let to : k ≡ length ns = ground (arith, next-add_child ns i c i' c' inside) in
        (
          omega (arith, length-add_child ns i c),
          ap (label_with label (length ns) (label i ++ c ∷ [])) to
              ∙ label_new label (length ns) (label i ++ c ∷ [])
              ∙ subst (λ (x : ℕ). label i ++ c ∷ [] ≡ label i ++ x ∷ []) (sym by) refl
              ∙ ap (λ (x : Text). x ++ c' ∷ [])
                  (sym (
                    ap (label_with label (length ns) (label i ++ c ∷ [])) at
                    ∙ label_old label (length ns) (label i ++ c ∷ []) i inside)),
        )
    | inr miss ↦
        let old : next_node ns i' c' ≡ some k =
          ground (arith, next-add_child ns i c i' c' inside) in
        let (bound, label_k) = v.edges i' c' k old in
        (
          omega (arith, bound, length-add_child ns i c),
          label_old label (length ns) (label i ++ c ∷ []) k bound
              ∙ label_k
              ∙ ap (λ (x : Text). x ++ c' ∷ [])
                  (sym (
                    label_old label (length ns) (label i ++ c ∷ []) i'
                      (next_bound ns i' c' k old))),
        )
  ];
}

Extends-add_child :
    (ns : List Node) (i c : ℕ)
    → i < length ns
    → next_node ns i c ≡ none
    → Extends ns (add_child ns i c)
Extends-add_child ns i c inside free i' c' k e = elim (Bool-cases ((i' == i) && (c' == c))) [
  | inl hit ↦ let at : i' ≡ i = ground arith in let by : c' ≡ c = ground arith in absurd (cc)
  | inr miss ↦ next-add_child ns i c i' c' inside ∙ ground arith
]

GrownBy-through :
    (label : ℕ → Text) (ns : List Node) (i c : ℕ) (cs : Text) (j : ℕ)
    → next_node ns i c ≡ some j
    → (r : Result PatternError (ℕ × List Node)) → GrownBy label ns j cs r
    → GrownBy label ns i (c ∷ cs) r
unfolding walk
GrownBy-through label ns i c cs j next (raise e) g = tt
GrownBy-through label ns i c cs j next (ok r) g = record {
  new_label = g.new_label;
  trie = g.trie;
  kept = g.kept;
  walked = rw (g.more i c j next, walk) g.walked;
  inside = g.inside;
  longer = g.longer;
  more = g.more;
  terminals = g.terminals;
}

GrownBy-child :
    (label : ℕ → Text) (ns : List Node) (i c : ℕ) (cs : Text)
    → i < length ns
    → next_node ns i c ≡ none
    → (r : Result PatternError (ℕ × List Node))
    → GrownBy (label_with label (length ns) (label i ++ c ∷ [])) (add_child ns i c) (length ns) cs r
    → GrownBy label ns i (c ∷ cs) r
unfolding walk
GrownBy-child label ns i c cs inside free (raise e) g = tt
GrownBy-child label ns i c cs inside free (ok r) g =
    let child : next_node (add_child ns i c) i c ≡ some (length ns) =
      next-add_child ns i c i c inside ∙ ground arith in
    record {
      new_label = g.new_label;
      trie = g.trie;
      kept = λ k h.
          g.kept k (omega (arith, h, length-add_child ns i c))
          ∙ label_old label (length ns) (label i ++ c ∷ []) k h;
      walked = rw (g.more i c (length ns) child, walk) g.walked;
      inside = g.inside;
      longer = omega (arith, g.longer, length-add_child ns i c);
      more = λ i' c' k e. g.more i' c' k (Extends-add_child ns i c inside free i' c' k e);
      terminals = λ k. g.terminals k ∙ terminal-add_child ns i c k;
    }

pub GrownBy-insert_chars :
    (max_nodes : Option ℕ) (cs : Text) (label : ℕ → Text) (ns : List Node) (i : ℕ)
    → i < length ns
    → IsTrie label ns
    → GrownBy label ns i cs (insert_chars max_nodes ns i cs)
unfolding insert_chars walk
GrownBy-insert_chars max_nodes [] label ns i inside v = record {
  new_label = label;
  trie = v;
  kept = λ k h. refl;
  walked = refl;
  inside = inside;
  longer = omega arith;
  more = λ i c k e. e;
  terminals = λ k. refl;
}
GrownBy-insert_chars max_nodes (c ∷ cs) label ns i inside v =
    elim (Option-cases (next_node ns i c)) [
      | inr (j, next) ↦
          rw (next, insert_chars)
            (GrownBy-through label ns i c cs j next (insert_chars max_nodes ns j cs)
              (GrownBy-insert_chars max_nodes cs label ns j (v.edges i c j next).0 v))
      | inl free ↦ elim (Bool-cases (reaches (length ns) max_nodes)) [
        | inl full ↦ rw (free, full, insert_chars) tt
        | inr room ↦
            rw (free, room, insert_chars)
              (GrownBy-child label ns i c cs inside free
                (insert_chars max_nodes (add_child ns i c) (length ns) cs)
                (GrownBy-insert_chars max_nodes cs _ (add_child ns i c) (length ns)
                  (omega (arith, length-add_child ns i c))
                  (IsTrie-add_child label ns i c inside v)))
      ]
    ]
