-- ===== src/Literals/Equal.antt =====
-- The scan through the trie, and a scan that compares each part of the text with each pattern.
use qq_violation_bot.Prelude.{
  ℕ, zero, suc, ◌+◌, ◌≡◌, refl, sym, ap, subst, ◌∙◌, inl, inr, true, Option, none, some, List, [],
  ◌∷◌, ◌++◌, String, arith, Result, ok, raise, if◌then◌else◌, Bool-cases, Option-cases,
}
use qq_violation_bot.Literals.Types.{
  Text, same_text, Node, ScanError, Matcher, Hit, item, next_node, terminal_at,
}
use qq_violation_bot.Literals.Build.{build}
use qq_violation_bot.Literals.Scan.{Scan, hit, add_candidate, scan_ends, scan_starts}
use qq_violation_bot.Literals.Grow.{walk, walk-label}
use qq_violation_bot.Literals.Lookup.{Holds, same_text_eq, same_text_refl}
use qq_violation_bot.Literals.Built.{normals, HoldsRecords, HoldsRecords-build}

-- The first index of a text.
abbrev pub find_pattern : List Text → Text → Option ℕ
find_pattern [] w = none
find_pattern (p ∷ ps) w =
    if same_text p w
    then some 0
    else elim (find_pattern ps w) [ none ↦ none | some r ↦ some (suc r) ]

-- The parts of a text that are patterns: those from `start` on that begin with `u`, which is read, and
-- then all.
unfoldable pub occurrences_from : List Text → ℕ → ℕ → Text → Text → List Hit
occurrences_from ps start end_ u [] = []
occurrences_from ps start end_ u (c ∷ cs) =
    let rest = occurrences_from ps start (end_ + 1) (u ++ c ∷ []) cs in
    elim (find_pattern ps (u ++ c ∷ [])) [ none ↦ rest | some r ↦ hit r start (end_ + 1) ∷ rest ]

unfoldable pub occurrences : List Text → ℕ → Text → List Hit
occurrences ps start [] = []
occurrences ps start (c ∷ cs) =
    occurrences_from ps start start [] (c ∷ cs) ++ occurrences ps (start + 1) cs

-- The candidates in turn, up to the limit.
unfoldable pub add_candidates : Matcher → List Hit → Scan → Result ScanError Scan
add_candidates m [] s = ok s
add_candidates m (h ∷ hs) s = elim (add_candidate m s h) [
  | raise e ↦ raise e
  | ok s' ↦ add_candidates m hs s'
]

find_item : (ps : List Text) (w : Text) (r : ℕ) → find_pattern ps w ≡ some r → item r ps ≡ some w
unfolding item
find_item [] w r e = absurd (cc)
find_item (p ∷ ps) w r e = elim (Bool-cases (same_text p w)) [
  | inl same ↦
      let first : r ≡ zero = ground (arith, e, same) in
      subst (λ (x : ℕ). item x (p ∷ ps) ≡ some w) (sym first) (ap some (same_text_eq p w same))
  | inr miss ↦ elim (Option-cases (find_pattern ps w)) [
    | inl fails ↦ absurd (ground (arith, e, miss, fails))
    | inr (k, hits) ↦
        let next : r ≡ suc k = ground (arith, e, miss, hits) in
        subst (λ (x : ℕ). item x (p ∷ ps) ≡ some w) (sym next) (find_item ps w k hits)
  ]
]

item_found : (ps : List Text) (w : Text) (r : ℕ) → item r ps ≡ some w → find_pattern ps w ≡ none → ⊥
unfolding item
item_found [] w r e fails = cc
item_found (p ∷ ps) w zero e fails =
    let same : p ≡ w = cc in
    let hit : same_text p w ≡ true =
      subst (λ (x : Text). same_text p x ≡ true) same (same_text_refl p) in
    ground (arith, hit, fails)
item_found (p ∷ ps) w (suc r) e fails = item_found ps w r e (ground (arith, fails))

walk-append :
    (ns : List Node) (i : ℕ) (u w : Text) (j : ℕ)
    → walk ns i u ≡ some j
    → walk ns i (u ++ w) ≡ walk ns j w
unfolding walk
walk-append ns i [] w j e = let same : i ≡ j = cc in ap (λ (x : ℕ). walk ns x w) same
walk-append ns i (c ∷ u) w j e = elim (Option-cases (next_node ns i c)) [
  | inl stop ↦ let wrong : ◌≡◌ {A = Option ℕ} none (some j) = rw (stop, walk) at e in absurd (cc)
  | inr (k, next) ↦
      let rest : walk ns k u ≡ some j = rw (next, walk) at e in
      rw (next, walk) (walk-append ns k u w j rest)
]

abbrev and_then : (Scan → Result ScanError Scan) → Result ScanError Scan → Result ScanError Scan
and_then f (raise e) = raise e
and_then f (ok s) = f s

after_candidate :
    (r : Result ScanError Scan) (f g : Scan → Result ScanError Scan)
    → ((s : Scan) → f s ≡ g s)
    → and_then f r ≡ and_then g r
after_candidate (raise e) f g h = refl
after_candidate (ok s) f g h = h s

and_then_twice :
    (r : Result ScanError Scan) (f g : Scan → Result ScanError Scan)
    → and_then (λ s. and_then g (f s)) r ≡ and_then g (and_then f r)
and_then_twice (raise e) f g = refl
and_then_twice (ok s) f g = refl

module _ (m : Matcher) (ps : List Text) (v : Holds m.nodes ps) where
  -- Behind a walk stands the record of the text that it reads.
  terminal_find :
      (w : Text) (k : ℕ) → walk m.nodes 0 w ≡ some k → terminal_at m.nodes k ≡ find_pattern ps w
  terminal_find w k e = elim (Option-cases (find_pattern ps w)) [
    | inr (r, hits) ↦
        let (j, walked, ended) = v.found r w (find_item ps w r hits) in let same : j ≡ k = cc in cc
    | inl fails ↦ elim (Option-cases (terminal_at m.nodes k)) [
      | inl none_ ↦ none_ ∙ sym fails
      | inr (r, ended) ↦
          let label_k : v.label k ≡ w =
            walk-label v.label m.nodes 0 k w v.trie e ∙ ap (λ (x : Text). x ++ w) v.trie.root in
          absurd (item_found ps w r (v.named k r ended ∙ ap some label_k) fails)
    ]
  ]

  -- No pattern goes on where the walk stops.
  find_stop : (w : Text) → walk m.nodes 0 w ≡ none → find_pattern ps w ≡ none
  find_stop w e = elim (Option-cases (find_pattern ps w)) [
    | inl fails ↦ fails
    | inr (r, hits) ↦ let (j, walked, ended) = v.found r w (find_item ps w r hits) in absurd (cc)
  ]

  walk-stop : (i : ℕ) (u w : Text) → walk m.nodes i u ≡ none → walk m.nodes i (u ++ w) ≡ none
  unfolding walk
  walk-stop i [] w e = absurd (cc)
  walk-stop i (c ∷ u) w e = elim (Option-cases (next_node m.nodes i c)) [
    | inl stop ↦ rw (stop, walk) refl
    | inr (k, next) ↦
        let rest : walk m.nodes k u ≡ none = rw (next, walk) at e in
        rw (next, walk) (walk-stop k u w rest)
  ]

  occurrences_stop :
      (start end_ : ℕ) (u cs : Text)
      → walk m.nodes 0 u ≡ none
      → occurrences_from ps start end_ u cs ≡ []
  unfolding occurrences_from
  occurrences_stop start end_ u [] e = refl
  occurrences_stop start end_ u (c ∷ cs) e =
      let stop : walk m.nodes 0 (u ++ c ∷ []) ≡ none = walk-stop 0 u (c ∷ []) e in
      rw (find_stop (u ++ c ∷ []) stop, occurrences_from)
        (occurrences_stop start (end_ + 1) (u ++ c ∷ []) cs stop)

  scan_ends-occurrences :
      (start end_ i : ℕ) (u cs : Text) (s : Scan)
      → walk m.nodes 0 u ≡ some i
      → scan_ends m start end_ i cs s ≡ add_candidates m (occurrences_from ps start end_ u cs) s
  unfolding scan_ends add_candidates occurrences_from walk
  scan_ends-occurrences start end_ i u [] s e = refl
  scan_ends-occurrences start end_ i u (c ∷ cs) s e =
      let step : walk m.nodes 0 (u ++ c ∷ []) ≡ walk m.nodes i (c ∷ []) =
        walk-append m.nodes 0 u (c ∷ []) i e in
      elim (Option-cases (next_node m.nodes i c)) [
        | inl stop ↦
            let stopped : walk m.nodes 0 (u ++ c ∷ []) ≡ none = step ∙ rw (stop, walk) refl in
            let empty : occurrences_from ps start end_ u (c ∷ cs) ≡ [] =
              rw (find_stop (u ++ c ∷ []) stopped, occurrences_from)
                (occurrences_stop start (end_ + 1) (u ++ c ∷ []) cs stopped) in
            let left : scan_ends m start end_ i (c ∷ cs) s ≡ ok s = rw (stop, scan_ends) refl in
            left ∙ ap (λ (hs : List Hit). add_candidates m hs s) (sym empty)
        | inr (j, next) ↦
            let walked : walk m.nodes 0 (u ++ c ∷ []) ≡ some j = step ∙ rw (next, walk) refl in
            let same : terminal_at m.nodes j ≡ find_pattern ps (u ++ c ∷ []) =
              terminal_find (u ++ c ∷ []) j walked in
            let later : (t : Scan)
                → scan_ends m start (end_ + 1) j cs t
                  ≡ add_candidates m (occurrences_from ps start (end_ + 1) (u ++ c ∷ []) cs) t =
              λ t. scan_ends-occurrences start (end_ + 1) j (u ++ c ∷ []) cs t walked in
            elim (Option-cases (find_pattern ps (u ++ c ∷ []))) [
              | inl fails ↦ rw (next, same, fails, scan_ends, occurrences_from) (later s)
              | inr (r, hits) ↦
                  rw (next, same, hits, scan_ends, occurrences_from)
                    (after_candidate (add_candidate m s (hit r start (end_ + 1))) _ _ later)
            ]
      ]

add_candidates-append :
    (m : Matcher) (hs ks : List Hit) (s : Scan)
    → add_candidates m (hs ++ ks) s ≡ and_then (add_candidates m ks) (add_candidates m hs s)
unfolding add_candidates
add_candidates-append m [] ks s = refl
add_candidates-append m (h ∷ hs) ks s =
    after_candidate (add_candidate m s h) _ _ (λ t. add_candidates-append m hs ks t)
    ∙ and_then_twice (add_candidate m s h) (add_candidates m hs) (add_candidates m ks)

scan_starts-occurrences :
    (m : Matcher) (ps : List Text) (v : Holds m.nodes ps) (text : Text) (start : ℕ) (s : Scan)
    → scan_starts m start text s ≡ add_candidates m (occurrences ps start text) s
unfolding scan_starts add_candidates occurrences walk
scan_starts-occurrences m ps v [] start s = refl
scan_starts-occurrences m ps v (c ∷ cs) start s =
    ap (and_then (scan_starts m (start + 1) cs))
      (scan_ends-occurrences m ps v start start 0 [] (c ∷ cs) s refl)
    ∙ after_candidate (add_candidates m (occurrences_from ps start start [] (c ∷ cs)) s) _ _
        (λ t. scan_starts-occurrences m ps v cs (start + 1) t)
    ∙ sym (
        add_candidates-append m (occurrences_from ps start start [] (c ∷ cs))
          (occurrences ps (start + 1) cs) s)

-- The scan of a built matcher finds the candidates that a comparison of each part of the text with each
-- normalized pattern finds, in the same order, and raises exactly where their number passes the limit.
pub scan_starts-build :
    (normalize : Text → Text) (patterns : List (String × Text)) (max_patterns : ℕ)
    (max_nodes : Option ℕ) (overlap_groups : Option (List (String × String)))
    (max_text_chars max_candidates : Option ℕ) (m : Matcher) (text : Text) (s : Scan)
    → build normalize patterns max_patterns max_nodes overlap_groups max_text_chars max_candidates
      ≡ ok m
    → scan_starts m 0 text s ≡ add_candidates m (occurrences (normals normalize m.records) 0 text) s
scan_starts-build normalize patterns max_patterns max_nodes overlap_groups max_text_chars
      max_candidates m text s e =
    scan_starts-occurrences m (normals normalize m.records)
      (subst (HoldsRecords normalize) e (
        HoldsRecords-build normalize patterns max_patterns max_nodes overlap_groups max_text_chars
          max_candidates))
      text 0 s
