-- ===== src/Names/WildcardTree/Marks.antt =====
-- src/wildcardtree.cpp: `insert` and `remove` leave no unmarked leaf, so what `findOne` answers is
-- a name of the trie.
use otx.Prelude.{
  ℕ, ◌≡◌, refl, sym, ap, subst, ◌∙◌, ◌≢◌, inl, inr, Bool, true, false, ◌||◌, Option, none, some,
  List, [], ◌∷◌, ◌++◌, arith, ◌==◌, Bool-cases, Option-cases, if-both, if-cases,
}
use otx.Names.WildcardTree.{
  breakpoint, children, empty_node, get_child, set_child, erase_child, add_child, insert, is_bare,
  remove_at, remove, walk, find_one, Node, Children, node, nil, child, no_error,
}
use otx.Names.WildcardTree.Insertion.{contains}
use otx.Names.WildcardTree.Removal.{
  remove_at-nil, remove_at-cons, remove_at-absent, remove_at-broken,
}
use otx.Names.WildcardTree.Lookup.{
  MarkedLeaves, MarkedChildren, chain-contains, walk-cons, walk-absent, walk-nil, walk-contains,
  find_one-Finds, find_one-Only, Finds,
}

-- All leaves below a root are marked.
abbrev pub Grown : Node → Type 0
Grown n = MarkedChildren (children n)

leaves-Grown : (n : Node) → MarkedLeaves n → Grown n
leaves-Grown (node b nil) h = tt
leaves-Grown (node b (child c n cs)) h = h

leaves_of : (n : Node) → Grown n → is_bare n ≡ false → MarkedLeaves n
leaves_of (node true nil) h e = refl
leaves_of (node false nil) h e = absurd (cc (e))
leaves_of (node b (child c n cs)) h e = h

get_child-MarkedLeaves :
    (ch : ℕ) (cs : Children) (k : Node)
    → MarkedChildren cs
    → get_child ch cs ≡ some k
    → MarkedLeaves k
unfolding get_child
get_child-MarkedLeaves ch nil k h e = absurd (cc (e))
get_child-MarkedLeaves ch (child c m cs) k h e = elim (Bool-cases (c == ch)) [
  | inl same_letter ↦ subst (λ o. MarkedAt o) (first same_letter) h.0
  | inr other ↦ get_child-MarkedLeaves ch cs k h.1 (later other)
]
  where
    MarkedAt : Option Node → Type 0
    MarkedAt none = Unit
    MarkedAt (some n) = MarkedLeaves n

    first : (c == ch) ≡ true → some m ≡ some k
    first t = ground (arith, t, e)

    later : (c == ch) ≡ false → get_child ch cs ≡ some k
    later t = ground (arith, t, e)

set_child-MarkedLeaves :
    (ch : ℕ) (b : Bool) (k : Node) (cs : Children)
    → MarkedChildren cs
    → MarkedLeaves k
    → MarkedLeaves (node b (set_child ch k cs))
unfolding set_child
set_child-MarkedLeaves ch b k nil h m = (m, tt)
set_child-MarkedLeaves ch b k (child c n cs) h m =
    if-both (λ ds. MarkedLeaves (node b ds)) (c == ch) (child c k cs)
      (child c n (set_child ch k cs)) (m, h.1)
      (h.0, leaves-Grown (node b (set_child ch k cs)) (set_child-MarkedLeaves ch b k cs h.1 m))

erase_child-Marked :
    (ch : ℕ) (cs : Children) → MarkedChildren cs → MarkedChildren (erase_child ch cs)
unfolding erase_child
erase_child-Marked ch nil h = tt
erase_child-Marked ch (child c n cs) h =
    if-both MarkedChildren (c == ch) (erase_child ch cs) (child c n (erase_child ch cs))
      (erase_child-Marked ch cs h.1) (h.0, erase_child-Marked ch cs h.1)

mark-MarkedLeaves : (n : Node) → Grown n → MarkedLeaves (node (breakpoint n || true) (children n))
mark-MarkedLeaves (node true nil) h = refl
mark-MarkedLeaves (node false nil) h = refl
mark-MarkedLeaves (node b (child c n cs)) h = h

add_child-MarkedLeaves :
    (ch : ℕ) (cs : Children) → MarkedChildren cs → MarkedLeaves (add_child ch true cs)
add_child-MarkedLeaves ch cs h = elim (Option-cases (get_child ch cs)) [
  | inl absent ↦ rw (absent, add_child) refl
  | inr (m, e) ↦
      rw (e, add_child) (mark-MarkedLeaves m (leaves-Grown m (get_child-MarkedLeaves ch cs m h e)))
]

add_child-Grown : (ch : ℕ) (cs : Children) → MarkedChildren cs → Grown (add_child ch false cs)
add_child-Grown ch cs h = elim (Option-cases (get_child ch cs)) [
  | inl absent ↦ rw (absent, add_child) tt
  | inr (m, e) ↦ rw (e, add_child) (leaves-Grown m (get_child-MarkedLeaves ch cs m h e))
]

insert-MarkedLeaves : (str : List ℕ) (n : Node) → str ≢ [] → Grown n → MarkedLeaves (insert str n)
unfolding insert
insert-MarkedLeaves [] n e h = absurd (e refl)
insert-MarkedLeaves (ch ∷ []) (node b cs) e h =
    set_child-MarkedLeaves ch b (add_child ch true cs) cs h (add_child-MarkedLeaves ch cs h)
insert-MarkedLeaves (ch ∷ c ∷ str) (node b cs) e h =
    set_child-MarkedLeaves ch b (insert (c ∷ str) (add_child ch false cs)) cs h (
      insert-MarkedLeaves (c ∷ str) (add_child ch false cs) (λ q. absurd (cc (q)))
        (add_child-Grown ch cs h))

remove_at-Grown : (str : List ℕ) (n m : Node) → Grown n → remove_at str n ≡ some m → Grown m
remove_at-Grown [] n m h e = subst GrownAt (sym (remove_at-nil n) ∙ e) h
  where
    GrownAt : Option Node → Type 0
    GrownAt none = Unit
    GrownAt (some k) = Grown k
remove_at-Grown (ch ∷ str) n m h e = elim (Option-cases (get_child ch (children n))) [
  | inl absent ↦ absurd (cc (sym e ∙ remove_at-absent ch str n absent))
  | inr (k, a) ↦ elim (Option-cases (remove_at str k)) [
    | inl broken ↦ absurd (cc (sym e ∙ remove_at-broken ch str n k a broken))
    | inr (k', r) ↦ subst GrownAt (sym (remove_at-cons ch str n k k' a r) ∙ e) (
        if-cases MarkedChildren (is_bare k') (erase_child ch (children n))
          (set_child ch k' (children n)) (λ bare. erase_child-Marked ch (children n) h)
          (λ full. leaves-Grown (node (breakpoint n) (set_child ch k' (children n))) (
            set_child-MarkedLeaves ch (breakpoint n) k' (children n) h (
              leaves_of k'
                (remove_at-Grown str k k'
                  (leaves-Grown k (get_child-MarkedLeaves ch (children n) k h a)) r)
                full))))
  ]
]
  where
    GrownAt : Option Node → Type 0
    GrownAt none = Unit
    GrownAt (some k) = Grown k

-- What is done to a trie.
pub data Edit : Type 0 where
  inserted removed : List ℕ → Edit

unfoldable pub edits : List Edit → Node → Node
edits [] n = n
edits (inserted str ∷ es) n = edits es (insert str n)
edits (removed str ∷ es) n = edits es (remove str n)

-- No empty name is inserted.
abbrev pub Named : List Edit → Type 0
Named [] = Unit {0}
Named (inserted str ∷ es) = (str ≢ []) × Named es
Named (removed str ∷ es) = Named es

remove-Grown : (str : List ℕ) (n : Node) → Grown n → Grown (remove str n)
unfolding remove
remove-Grown str n h = elim (Option-cases (remove_at str n)) [
  | inl broken ↦ rw (broken, remove) h
  | inr (m, e) ↦ rw (e, remove) (remove_at-Grown str n m h e)
]

edits-Grown : (es : List Edit) (n : Node) → Named es → Grown n → Grown (edits es n)
unfolding edits
edits-Grown [] n k h = h
edits-Grown (inserted str ∷ es) n k h =
    edits-Grown es (insert str n) k.1
      (leaves-Grown (insert str n) (insert-MarkedLeaves str n k.0 h))
edits-Grown (removed str ∷ es) n k h = edits-Grown es (remove str n) k (remove-Grown str n h)

MarkedAt : Option Node → Type 0
MarkedAt none = Unit
MarkedAt (some k) = MarkedLeaves k

walk_on-MarkedLeaves :
    (query : List ℕ) (k m : Node) → MarkedLeaves k → walk query k ≡ some m → MarkedLeaves m
unfolding MarkedAt
walk_on-MarkedLeaves [] k m l w = subst MarkedAt (sym (walk-nil k) ∙ w) l
walk_on-MarkedLeaves (ch ∷ query) k m l w = elim (Option-cases (get_child ch (children k))) [
  | inl absent ↦ absurd (cc (sym w ∙ walk-absent ch query k absent))
  | inr (c, a) ↦
      walk_on-MarkedLeaves query c m (get_child-MarkedLeaves ch (children k) c (leaves-Grown k l) a)
        (sym (walk-cons ch query k c a) ∙ w)
]

walk-MarkedLeaves :
    (ch : ℕ) (query : List ℕ) (n m : Node) → Grown n → walk (ch ∷ query) n ≡ some m → MarkedLeaves m
walk-MarkedLeaves ch query n m h e = elim (Option-cases (get_child ch (children n))) [
  | inl absent ↦ absurd (cc (sym e ∙ walk-absent ch query n absent))
  | inr (k, a) ↦
      walk_on-MarkedLeaves query k m (get_child-MarkedLeaves ch (children n) k h a)
        (sym (walk-cons ch query n k a) ∙ e)
]

-- In a trie that is built up from nothing by insertions of names that are not empty and by
-- removals, the answer to a query that is not empty is a name of the trie, and the only one that
-- begins with the query.
pub find_one-edits :
    (es : List Edit) (ch : ℕ) (query name : List ℕ)
    → Named es
    → find_one (ch ∷ query) (edits es (empty_node false)) ≡ no_error name
    → (contains name (edits es (empty_node false)) ≡ true)
      × ((s : List ℕ)
          → contains (ch ∷ query ++ s) (edits es (empty_node false)) ≡ true
          → ch ∷ query ++ s ≡ name)
find_one-edits es ch query name k h = (
  ap (λ s. contains s n) f.whole
      ∙ walk-contains (ch ∷ query) f.rest n f.at f.walked
      ∙ chain-contains f.at f.rest (walk-MarkedLeaves ch query n f.at grown f.walked) f.chained,
  λ s m. find_one-Only (ch ∷ query) name s n h m,
)
  where
    n : Node
    n = edits es (empty_node false)

    grown : Grown n
    grown = edits-Grown es (empty_node false) k tt

    f : Finds (ch ∷ query) name n
    f = find_one-Finds (ch ∷ query) name n h
