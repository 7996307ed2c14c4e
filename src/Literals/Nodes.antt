-- ===== src/Literals/Nodes.antt =====
-- What a new child and a new terminal change in the lookups of a trie.
use qq_violation_bot.Prelude.{
  ℕ, zero, suc, ◌+◌, ◌<◌, ◌≡◌, refl, ap, ◌∙◌, inl, inr, ◌⊎◌, ◌&&◌, some, List, [], ◌∷◌, ◌++◌, arith,
  length, length-append, ◌==◌, if◌then◌else◌,
}
use qq_violation_bot.Literals.Types.{
  Node, item, set_item, next_node, terminal_at, empty_node, with_edge, add_child, with_terminal,
}

module _ {ℓ} {A : Type ℓ} where
  pub length-set_item : (i : ℕ) (f : A → A) (xs : List A) → length (set_item i f xs) ≡ length xs
  unfolding set_item
  length-set_item i f [] = refl
  length-set_item zero f (x ∷ xs) = refl
  length-set_item (suc i) f (x ∷ xs) = rw (length-set_item i f xs) refl

  pub item_bound : (i : ℕ) (xs : List A) (x : A) → item i xs ≡ some x → i < length xs
  unfolding item
  item_bound i [] x e = absurd (cc)
  item_bound zero (y ∷ xs) x e = omega arith
  item_bound (suc i) (y ∷ xs) x e = omega (arith, item_bound i xs x e)

  pub item-append :
      (i : ℕ) (xs : List A) (x y : A) → item i xs ≡ some x → item i (xs ++ y ∷ []) ≡ some x
  unfolding item
  item-append i [] x y e = absurd (cc)
  item-append zero (z ∷ xs) x y e = e
  item-append (suc i) (z ∷ xs) x y e = item-append i xs x y e

  pub item-append_last : (xs : List A) (y : A) → item (length xs) (xs ++ y ∷ []) ≡ some y
  unfolding item
  item-append_last [] y = refl
  item-append_last (x ∷ xs) y = item-append_last xs y

  -- The entries of a list with one more.
  pub item-append_inv :
      (i : ℕ) (xs : List A) (x y : A)
      → item i (xs ++ y ∷ []) ≡ some x
      → (item i xs ≡ some x) ⊎ ((i ≡ length xs) × (x ≡ y))
  unfolding item
  item-append_inv zero [] x y e = inr (refl, cc)
  item-append_inv (suc i) [] x y e = absurd (cc)
  item-append_inv zero (z ∷ xs) x y e = inl e
  item-append_inv (suc i) (z ∷ xs) x y e = elim (item-append_inv i xs x y e) [
    | inl old ↦ inl old
    | inr (at, same) ↦ inr (rw at refl, same)
  ]

-- A node without edges changes no lookup.
next-append_empty :
    (ns : List Node) (i c : ℕ) → next_node (ns ++ empty_node ∷ []) i c ≡ next_node ns i c
unfolding next_node item
next-append_empty [] zero c = refl
next-append_empty [] (suc i) c = refl
next-append_empty (n ∷ ns) zero c = refl
next-append_empty (n ∷ ns) (suc i) c = next-append_empty ns i c

next-set_append :
    (ns : List Node) (i c k i' c' : ℕ)
    → i < length ns
    → next_node (set_item i (with_edge c k) ns ++ empty_node ∷ []) i' c'
      ≡ (if (i' == i) && (c' == c) then some k else next_node ns i' c')
unfolding next_node item set_item
next-set_append [] i c k i' c' h = absurd (omega (arith, h))
next-set_append (n ∷ ns) zero c k zero c' h = refl
next-set_append (n ∷ ns) zero c k (suc i') c' h = ground (arith, next-append_empty ns i' c')
next-set_append (n ∷ ns) (suc i) c k zero c' h = ground arith
next-set_append (n ∷ ns) (suc i) c k (suc i') c' h =
    let same : (suc i' == suc i) ≡ (i' == i) = ground arith in
    rw same (next-set_append ns i c k i' c' (omega (arith, h)))

-- The lookups after a new child: its own edge, and the old ones.
pub next-add_child :
    (ns : List Node) (i c i' c' : ℕ)
    → i < length ns
    → next_node (add_child ns i c) i' c'
      ≡ (if (i' == i) && (c' == c) then some (length ns) else next_node ns i' c')
unfolding add_child
next-add_child ns i c i' c' h = next-set_append ns i c (length ns) i' c' h

terminal-append_empty :
    (ns : List Node) (i : ℕ) → terminal_at (ns ++ empty_node ∷ []) i ≡ terminal_at ns i
unfolding terminal_at item
terminal-append_empty [] zero = refl
terminal-append_empty [] (suc i) = refl
terminal-append_empty (n ∷ ns) zero = refl
terminal-append_empty (n ∷ ns) (suc i) = terminal-append_empty ns i

terminal-set_edge :
    (ns : List Node) (i c k i' : ℕ)
    → terminal_at (set_item i (with_edge c k) ns) i' ≡ terminal_at ns i'
unfolding terminal_at item set_item
terminal-set_edge [] i c k i' = refl
terminal-set_edge (n ∷ ns) zero c k zero = refl
terminal-set_edge (n ∷ ns) zero c k (suc i') = refl
terminal-set_edge (n ∷ ns) (suc i) c k zero = refl
terminal-set_edge (n ∷ ns) (suc i) c k (suc i') = terminal-set_edge ns i c k i'

pub terminal-add_child :
    (ns : List Node) (i c i' : ℕ) → terminal_at (add_child ns i c) i' ≡ terminal_at ns i'
unfolding add_child
terminal-add_child ns i c i' =
    terminal-append_empty (set_item i (with_edge c (length ns)) ns) i'
    ∙ terminal-set_edge ns i c (length ns) i'

pub length-add_child : (ns : List Node) (i c : ℕ) → length (add_child ns i c) ≡ length ns + 1
unfolding add_child
length-add_child ns i c =
    length-append (set_item i (with_edge c (length ns)) ns) (empty_node ∷ [])
    ∙ ap (λ (n : ℕ). n + 1) (length-set_item i (with_edge c (length ns)) ns)

-- A terminal changes no edge.
pub next-set_terminal :
    (ns : List Node) (i r i' c : ℕ)
    → next_node (set_item i (with_terminal r) ns) i' c ≡ next_node ns i' c
unfolding next_node item set_item
next-set_terminal [] i r i' c = refl
next-set_terminal (n ∷ ns) zero r zero c = refl
next-set_terminal (n ∷ ns) zero r (suc i') c = refl
next-set_terminal (n ∷ ns) (suc i) r zero c = refl
next-set_terminal (n ∷ ns) (suc i) r (suc i') c = next-set_terminal ns i r i' c

pub terminal-set_terminal :
    (ns : List Node) (i r i' : ℕ)
    → i < length ns
    → terminal_at (set_item i (with_terminal r) ns) i'
      ≡ (if i' == i then some r else terminal_at ns i')
unfolding terminal_at item set_item
terminal-set_terminal [] i r i' h = absurd (omega (arith, h))
terminal-set_terminal (n ∷ ns) zero r zero h = refl
terminal-set_terminal (n ∷ ns) zero r (suc i') h = ground arith
terminal-set_terminal (n ∷ ns) (suc i) r zero h = ground arith
terminal-set_terminal (n ∷ ns) (suc i) r (suc i') h =
    let same : (suc i' == suc i) ≡ (i' == i) = ground arith in
    rw same (terminal-set_terminal ns i r i' (omega (arith, h)))

-- A node with a terminal is one of the nodes.
pub terminal_bound : (ns : List Node) (i r : ℕ) → terminal_at ns i ≡ some r → i < length ns
unfolding terminal_at item
terminal_bound [] i r e = absurd (cc)
terminal_bound (n ∷ ns) zero r e = omega arith
terminal_bound (n ∷ ns) (suc i) r e = omega (arith, terminal_bound ns i r e)

-- A node with an edge is one of the nodes.
pub next_bound : (ns : List Node) (i c k : ℕ) → next_node ns i c ≡ some k → i < length ns
unfolding next_node item
next_bound [] i c k e = absurd (cc)
next_bound (n ∷ ns) zero c k e = omega arith
next_bound (n ∷ ns) (suc i) c k e = omega (arith, next_bound ns i c k e)
