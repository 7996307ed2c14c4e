-- ===== src/Literals/Lookup.antt =====
-- A built trie has, behind each text, the record with that text and no other.
use qq_violation_bot.Prelude.{
  ℕ, zero, suc, ◌≡◌, refl, sym, ap, subst, ◌∙◌, inl, inr, true, false, some, List, [], ◌∷◌, ◌++◌,
  arith, length, ◌==◌, Bool-cases,
}
use qq_violation_bot.Literals.Types.{
  Text, same_text, Node, item, set_item, terminal_at, with_terminal,
}
use qq_violation_bot.Literals.Build.{has_text}
use qq_violation_bot.Literals.Nodes.{
  length-set_item, item-append, item-append_last, item-append_inv, next-set_terminal,
  terminal-set_terminal, terminal_bound,
}
use qq_violation_bot.Literals.Grow.{walk, IsTrie, walk-label, Extends, walk-Extends, Grown}

pub same_text_refl : (t : Text) → same_text t t ≡ true
same_text_refl [] = refl
same_text_refl (c ∷ t) = ground (arith, same_text_refl t)

pub same_text_eq : (s t : Text) → same_text s t ≡ true → s ≡ t
same_text_eq [] [] h = refl
same_text_eq [] (b ∷ t) h = absurd (cc)
same_text_eq (a ∷ s) [] h = absurd (cc)
same_text_eq (a ∷ s) (b ∷ t) h =
    let heads : a ≡ b = ground (arith, h) in
    let tails : s ≡ t = same_text_eq s t (ground (arith, h)) in cc

-- A text that is none of the patterns.
item_fresh : (t : Text) (ps : List Text) (r : ℕ) → has_text t ps ≡ false → item r ps ≡ some t → ⊥
unfolding item
item_fresh t [] r fresh e = cc
item_fresh t (p ∷ ps) zero fresh e =
    let same : t ≡ p = cc in
    let hit : same_text t p ≡ true =
      subst (λ (x : Text). same_text t x ≡ true) same (same_text_refl t) in
    ground (arith, hit, fresh)
item_fresh t (p ∷ ps) (suc r) fresh e = item_fresh t ps r (ground (arith, fresh)) e

-- The nodes hold the patterns: a terminal is the record of the node's label, and each record's pattern
-- leads to its terminal.
pub record Holds (ns : List Node) (ps : List Text) : Type 0 where
  pub label : ℕ → Text
  pub trie : IsTrie label ns
  pub named : (k r : ℕ) → terminal_at ns k ≡ some r → item r ps ≡ some (label k)
  pub found :
      (r : ℕ) (p : Text)
      → item r ps ≡ some p
      → (k : ℕ) × (walk ns 0 p ≡ some k) × (terminal_at ns k ≡ some r)

pub Holds-grown :
    (ns : List Node) (ps : List Text) (p : Text) (j : ℕ) (ms : List Node) (v : Holds ns ps)
    → has_text p ps ≡ false
    → Grown v.label ns 0 p j ms
    → Holds (set_item j (with_terminal (length ps)) ms) (ps ++ p ∷ [])
Holds-grown ns ps p j ms v fresh g =
    let label_j : g.new_label j ≡ p =
      walk-label g.new_label ms 0 j p g.trie g.walked ∙ ap (λ (x : Text). x ++ p) g.trie.root in
    let ms' : List Node = set_item j (with_terminal (length ps)) ms in
    let more : Extends ns ms' =
      λ i c k e. next-set_terminal ms j (length ps) i c ∙ g.more i c k e in
    record {
      label = g.new_label;
      trie = record {
        root = g.trie.root;
        rooted = omega (arith, g.trie.rooted, length-set_item j (with_terminal (length ps)) ms);
        edges = λ i c k e.
            let (bound, name) =
              g.trie.edges i c k (sym (next-set_terminal ms j (length ps) i c) ∙ e) in
            (omega (arith, bound, length-set_item j (with_terminal (length ps)) ms), name);
      };
      named = λ k r e. elim (Bool-cases (k == j)) [
        | inl at ↦
            let last : r ≡ length ps =
              ground (arith, terminal-set_terminal ms j (length ps) k g.inside, e, at) in
            let here : k ≡ j = ground (arith, at) in
            ap (λ (x : ℕ). item x (ps ++ p ∷ [])) last
            ∙ item-append_last ps p
            ∙ ap some (sym label_j ∙ ap g.new_label (sym here))
        | inr away ↦
            let old : terminal_at ns k ≡ some r =
              sym (g.terminals k)
              ∙ ground (arith, terminal-set_terminal ms j (length ps) k g.inside, e, away) in
            item-append r ps (v.label k) p (v.named k r old)
            ∙ ap some (sym (g.kept k (terminal_bound ns k r old)))
      ];
      found = λ r q e. elim (item-append_inv r ps q p e) [
        | inl old ↦
            let (k, walked, ended) = v.found r q old in
            let walked' : walk ms' 0 q ≡ some k = walk-Extends ns ms' 0 k q more walked in
            (
              k,
              walked',
              elim (Bool-cases (k == j)) [
                | inl at ↦
                    let here : k ≡ j = ground (arith, at) in
                    let label_k : g.new_label k ≡ q =
                      walk-label g.new_label ms 0 k q g.trie
                        (walk-Extends ns ms 0 k q g.more walked)
                      ∙ ap (λ (x : Text). x ++ q) g.trie.root in
                    let same : q ≡ p = sym label_k ∙ ap g.new_label here ∙ label_j in
                    absurd (item_fresh p ps r fresh (old ∙ ap some same))
                | inr away ↦
                    terminal-set_terminal ms j (length ps) k g.inside
                    ∙ ground (arith, away, g.terminals k, ended)
              ],
            )
        | inr (at, same) ↦
            let walked' : walk ms' 0 q ≡ some j =
              subst (λ (x : Text). walk ms' 0 x ≡ some j) (sym same)
                (walk-Extends ms ms' 0 j p (λ i c k e. next-set_terminal ms j (length ps) i c ∙ e)
                  g.walked) in
            (j, walked', terminal-set_terminal ms j (length ps) j g.inside ∙ ground (arith, at))
      ];
    }
