-- ===== src/Names/WildcardTree/Removal.antt =====
-- src/wildcardtree.cpp: what `remove` takes out of the trie.
use otx.Prelude.{
  ℕ, ◌≡◌, refl, sym, ap, subst, ◌∙◌, inl, inr, Bool, true, false, not, ◌&&◌, none, some, List, [],
  ◌∷◌, arith, ◌==◌, if◌then◌else◌, ==_iff, Bool-cases, Option-cases,
}
use otx.Names.WildcardTree.{
  breakpoint, children, get_child, set_child, erase_child, is_bare, remove_at, remove, Node,
  Children, node, nil, child,
}
use otx.Names.WildcardTree.Insertion.{
  contains, same, get_child-erase_child, below, contains-cons, contains-nil, contains-set,
}

-- A node without children and mark contains nothing.
is_bare-contains : (s : List ℕ) (n : Node) → is_bare n ≡ true → contains s n ≡ false
unfolding contains get_child
is_bare-contains [] (node b nil) h = ground (arith, h)
is_bare-contains (x ∷ s) (node b nil) h = refl
is_bare-contains s (node b (child c n cs)) h = absurd (cc (h))

contains-erase :
    (d ch : ℕ) (s : List ℕ) (b : Bool) (cs : Children)
    → contains (d ∷ s) (node b (erase_child ch cs))
      ≡ (if d == ch then false else below s (get_child d cs))
contains-erase d ch s b cs =
    contains-cons d s (node b (erase_child ch cs))
    ∙ ap (below s) (get_child-erase_child ch d cs)
    ∙ branch (d == ch)
  where
    branch :
        (t : Bool)
        → below s (if t then none else get_child d cs)
          ≡ (if t then false else below s (get_child d cs))
    branch true = refl
    branch false = refl

-- The names behind the way back.
remove-step :
    (d ch : ℕ) (s : List ℕ) (b : Bool) (k : Node) (cs : Children)
    → contains (d ∷ s) (node b (if is_bare k then erase_child ch cs else set_child ch k cs))
      ≡ (if d == ch then contains s k else below s (get_child d cs))
remove-step d ch s b k cs = elim (Bool-cases (is_bare k)) [
  | inl bare ↦ rw (bare) (ground (arith, contains-erase d ch s b cs, is_bare-contains s k bare))
  | inr full ↦ rw (full) (contains-set d ch s b k cs)
]

pub remove_at-nil : (n : Node) → remove_at [] n ≡ some (node false (children n))
unfolding remove_at
remove_at-nil n = refl

-- One step of the way back of `remove`.
pub remove_at-cons :
    (ch : ℕ) (str : List ℕ) (n k k' : Node)
    → get_child ch (children n) ≡ some k
    → remove_at str k ≡ some k'
    → remove_at (ch ∷ str) n
      ≡ some (
          node
            (breakpoint n)
            (if is_bare k' then erase_child ch (children n) else set_child ch k' (children n)))
unfolding remove_at
remove_at-cons ch str n k k' e e' = rw (e, e', remove_at) refl

pub remove_at-absent :
    (ch : ℕ) (str : List ℕ) (n : Node)
    → get_child ch (children n) ≡ none
    → remove_at (ch ∷ str) n ≡ none
unfolding remove_at
remove_at-absent ch str n e = rw (e, remove_at) refl

pub remove_at-broken :
    (ch : ℕ) (str : List ℕ) (n k : Node)
    → get_child ch (children n) ≡ some k
    → remove_at str k ≡ none
    → remove_at (ch ∷ str) n ≡ none
unfolding remove_at
remove_at-broken ch str n k e e' = rw (e, e', remove_at) refl

contains-unmark :
    (s : List ℕ) (n : Node)
    → contains s (node false (children n)) ≡ (contains s n && not (same s []))
unfolding contains
contains-unmark [] n = ground arith
contains-unmark (x ∷ s) n = ground arith

-- The names below a node whose child was replaced on the way back.
back-step :
    (s : List ℕ) (ch : ℕ) (str : List ℕ) (n k k' : Node)
    → get_child ch (children n) ≡ some k
    → ((u : List ℕ) → contains u k' ≡ (contains u k && not (same u str)))
    → contains s (
        node
          (breakpoint n)
          (if is_bare k' then erase_child ch (children n) else set_child ch k' (children n)))
      ≡ (contains s n && not (same s (ch ∷ str)))
back-step [] ch str n k k' e h = ground (
  arith,
  contains-nil n,
  contains-nil (
      node (breakpoint n)
        (if is_bare k' then erase_child ch (children n) else set_child ch k' (children n))),
)
back-step (d ∷ s) ch str n k k' e h = ground (
  arith,
  remove-step d ch s (breakpoint n) k' (children n),
  contains-cons d s n,
  h s,
  e,
  ==_iff d ch,
)

contains-remove_at :
    (str s : List ℕ) (n m : Node)
    → remove_at str n ≡ some m
    → contains s m ≡ (contains s n && not (same s str))
contains-remove_at [] s n m h =
    subst (λ o. below s o ≡ (contains s n && not (same s []))) (sym (remove_at-nil n) ∙ h)
      (contains-unmark s n)
contains-remove_at (ch ∷ str) s n m h = elim (Option-cases (get_child ch (children n))) [
  | inl absent ↦ absurd (cc (sym h ∙ remove_at-absent ch str n absent))
  | inr (k, e) ↦ elim (Option-cases (remove_at str k)) [
    | inl broken ↦ absurd (cc (sym h ∙ remove_at-broken ch str n k e broken))
    | inr (k', e') ↦
        subst (λ o. below s o ≡ (contains s n && not (same s (ch ∷ str))))
          (sym (remove_at-cons ch str n k k' e e') ∙ h)
          (back-step s ch str n k k' e (λ u. contains-remove_at str u k k' e'))
  ]
]

contains-broken : (str : List ℕ) (n : Node) → remove_at str n ≡ none → contains str n ≡ false
contains-broken [] n h = absurd (cc (sym h ∙ remove_at-nil n))
contains-broken (ch ∷ str) n h = elim (Option-cases (get_child ch (children n))) [
  | inl absent ↦ contains-cons ch str n ∙ ap (below str) absent
  | inr (k, e) ↦ elim (Option-cases (remove_at str k)) [
    | inl broken ↦ contains-cons ch str n ∙ ap (below str) e ∙ contains-broken str k broken
    | inr (k', e') ↦ absurd (cc (sym h ∙ remove_at-cons ch str n k k' e e'))
  ]
]

same_eq : (xs ys : List ℕ) → same xs ys ≡ true → xs ≡ ys
same_eq [] [] h = refl
same_eq [] (y ∷ ys) h = absurd (cc (h))
same_eq (x ∷ xs) [] h = absurd (cc (h))
same_eq (x ∷ xs) (y ∷ ys) h = ground (arith, h, same_eq xs ys, ==_iff x y)

-- After the removal of a name the trie does not contain the name, and otherwise what it contained.
pub contains-remove :
    (str s : List ℕ) (n : Node) → contains s (remove str n) ≡ (contains s n && not (same s str))
unfolding remove
contains-remove str s n = elim (Option-cases (remove_at str n)) [
  | inl broken ↦
      rw (broken, remove)
        (elim (Bool-cases (same s str)) [
          | inl gone ↦ ground (
            arith,
            gone,
            ap (λ u. contains u n) (same_eq s str gone),
            contains-broken str n broken,
          )
          | inr other ↦ ground (arith, other)
        ])
  | inr (m, e) ↦ rw (e, remove) (contains-remove_at str s n m e)
]
