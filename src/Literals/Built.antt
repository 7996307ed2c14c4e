-- ===== src/Literals/Built.antt =====
-- What __init__ builds: a trie that holds the normalized patterns of the records.
use text.Mathlib.Text.{◌==◌ as str_eq}
use qq_violation_bot.Prelude.{
  ℕ, zero, suc, ◌+◌, ◌≡◌, refl, sym, ap, subst, ◌∙◌, Bool, false, Option, some, List, [], ◌∷◌, ◌++◌,
  String, arith, Result, ok, raise, length, ltb, if◌then◌else◌, if-ind,
}
use qq_violation_bot.Literals.Types.{
  Text, empty_node, bad_groups, Node, PatternError, Builder, Matcher, item, set_item, next_node,
  terminal_at, with_terminal,
}
use qq_violation_bot.Literals.Build.{
  has_text, has_key, is_empty, insert_chars, publish_record, add_pattern, add_patterns,
  empty_builder, build,
}
use qq_violation_bot.Literals.Grow.{GrownBy, GrownBy-insert_chars}
use qq_violation_bot.Literals.Lookup.{Holds, Holds-grown}

-- The normalized patterns of the records.
abbrev pub normals : (Text → Text) → List (String × Text) → List Text
normals normalize [] = []
normals normalize (r ∷ rs) = normalize r.1 ∷ normals normalize rs

length-normals : (n : Text → Text) (rs : List (String × Text)) → length (normals n rs) ≡ length rs
length-normals n [] = refl
length-normals n (r ∷ rs) = rw (length-normals n rs) refl

normals-append :
    (n : Text → Text) (rs : List (String × Text)) (key : String) (pattern : Text)
    → normals n (rs ++ (key, pattern) ∷ []) ≡ normals n rs ++ n pattern ∷ []
normals-append n [] key pattern = refl
normals-append n (r ∷ rs) key pattern =
    ap (λ (x : List Text). n r.1 ∷ x) (normals-append n rs key pattern)

no_edge : (i c k : ℕ) → next_node (empty_node ∷ []) i c ≡ some k → ⊥
unfolding next_node item
no_edge zero c k e = cc
no_edge (suc i) c k e = cc

no_terminal : (k r : ℕ) → terminal_at (empty_node ∷ []) k ≡ some r → ⊥
unfolding terminal_at item
no_terminal zero r e = cc
no_terminal (suc k) r e = cc

no_item : (r : ℕ) (p : Text) → item r [] ≡ some p → ⊥
unfolding item
no_item r p e = cc

module _ (normalize : Text → Text) where
  pub record IsBuilt (b : Builder) : Type 0 where
    pub seen : b.seen_patterns ≡ normals normalize b.records
    pub holds : Holds b.nodes b.seen_patterns

  abbrev pub Built : Result PatternError Builder → Type 0
  Built (raise e) = Unit
  Built (ok b) = IsBuilt b

  Built-publish :
      (b : Builder) (key : String) (pattern : Text) (v : IsBuilt b)
      → has_text (normalize pattern) b.seen_patterns ≡ false
      → (r : Result PatternError (ℕ × List Node))
      → GrownBy v.holds.label b.nodes 0 (normalize pattern) r
      → Built (elim r [
        | raise e ↦ raise e
        | ok r ↦ ok (publish_record b key pattern (normalize pattern) r)
      ])
  Built-publish b key pattern v fresh (raise e) g = tt
  Built-publish b key pattern v fresh (ok r) g =
      let count : length b.seen_patterns ≡ length b.records =
        ap length v.seen ∙ length-normals normalize b.records in
      record {
        seen =
            ap (λ (x : List Text). x ++ normalize pattern ∷ []) v.seen
            ∙ sym (normals-append normalize b.records key pattern);
        holds =
            subst
              (λ (n : ℕ).
                Holds (set_item r.0 (with_terminal n) r.1)
                  (b.seen_patterns ++ normalize pattern ∷ []))
              count
              (Holds-grown b.nodes b.seen_patterns (normalize pattern) r.0 r.1 v.holds fresh g);
      }

  Built-add_pattern :
      (max_patterns : ℕ) (max_nodes : Option ℕ) (b : Builder) (p : String × Text)
      → IsBuilt b
      → Built (add_pattern normalize max_patterns max_nodes b p)
  unfolding add_pattern
  Built-add_pattern max_patterns max_nodes b (key, pattern) v =
      if-ind Built (ltb max_patterns (length b.records + 1)) (λ _. tt)
        (λ _.
          if-ind Built (str_eq key "") (λ _. tt)
            (λ _.
              if-ind Built (has_key key b.seen_keys) (λ _. tt)
                (λ _.
                  if-ind Built (is_empty (normalize pattern)) (λ _. tt)
                    (λ _.
                      if-ind Built (has_text (normalize pattern) b.seen_patterns) (λ _. tt)
                        (λ fresh.
                          Built-publish b key pattern v fresh
                            (insert_chars max_nodes b.nodes 0 (normalize pattern))
                            (GrownBy-insert_chars max_nodes (normalize pattern) v.holds.label
                              b.nodes 0 v.holds.trie.rooted v.holds.trie))))))

  Built-rest :
      (r : Result PatternError Builder) (f : Builder → Result PatternError Builder)
      → ((b : Builder) → IsBuilt b → Built (f b))
      → Built r
      → Built (elim r [ raise e ↦ raise e | ok b ↦ f b ])
  Built-rest (raise e) f g w = tt
  Built-rest (ok b) f g w = g b w

  Built-add_patterns :
      (max_patterns : ℕ) (max_nodes : Option ℕ) (ps : List (String × Text)) (b : Builder)
      → IsBuilt b
      → Built (add_patterns normalize max_patterns max_nodes b ps)
  unfolding add_patterns
  Built-add_patterns max_patterns max_nodes [] b v = v
  Built-add_patterns max_patterns max_nodes (p ∷ ps) b v =
      Built-rest (add_pattern normalize max_patterns max_nodes b p)
        (λ b'. add_patterns normalize max_patterns max_nodes b' ps)
        (λ b' w. Built-add_patterns max_patterns max_nodes ps b' w)
        (Built-add_pattern max_patterns max_nodes b p v)

  IsBuilt-empty : IsBuilt (empty_builder normalize)
  IsBuilt-empty = record {
    seen = refl;
    holds = record {
      label = λ k. [];
      trie = record {
        root = refl;
        rooted = omega arith;
        edges = λ i c k e. absurd (no_edge i c k e);
      };
      named = λ k r e. absurd (no_terminal k r e);
      found = λ r p e. absurd (no_item r p e);
    };
  }

  abbrev pub HoldsRecords : Result PatternError Matcher → Type 0
  HoldsRecords (raise e) = Unit
  HoldsRecords (ok m) = Holds m.nodes (normals normalize m.records)

  HoldsRecords-rest :
      (r : Result PatternError Builder) (test : Builder → Bool) (f : Builder → Matcher)
      → ((b : Builder) → (f b).nodes ≡ b.nodes)
      → ((b : Builder) → (f b).records ≡ b.records)
      → Built r
      → HoldsRecords
          (elim r [ raise e ↦ raise e | ok b ↦ if test b then raise bad_groups else ok (f b) ])
  HoldsRecords-rest (raise e) test f nodes records w = tt
  HoldsRecords-rest (ok b) test f nodes records w =
      if-ind HoldsRecords (test b) (λ _. tt)
        (λ _. subst (Holds (f b).nodes) (ap (normals normalize) (sym (records b))) (
          subst (λ (ns : List Node). Holds ns (normals normalize b.records)) (sym (nodes b))
            (subst (Holds b.nodes) w.seen w.holds)))

  pub HoldsRecords-build :
      (patterns : List (String × Text)) (max_patterns : ℕ) (max_nodes : Option ℕ)
      (overlap_groups : Option (List (String × String))) (max_text_chars max_candidates : Option ℕ)
      → HoldsRecords (
          build normalize patterns max_patterns max_nodes overlap_groups max_text_chars
            max_candidates)
  unfolding build
  HoldsRecords-build patterns max_patterns max_nodes overlap_groups max_text_chars max_candidates =
      HoldsRecords-rest
        (add_patterns normalize max_patterns max_nodes (empty_builder normalize) patterns) _ _
        (λ b. refl) (λ b. refl)
        (Built-add_patterns max_patterns max_nodes patterns (empty_builder normalize) IsBuilt-empty)
