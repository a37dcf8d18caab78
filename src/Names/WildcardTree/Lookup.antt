-- ===== src/Names/WildcardTree/Lookup.antt =====
-- src/wildcardtree.cpp: what `findOne` answers.
use otx.Prelude.{
  ℕ, ◌≡◌, refl, sym, ap, ap₂, subst, ◌∙◌, inl, inr, Bool, true, false, ◌&&◌, Option, none, some,
  List, [], ◌∷◌, ◌++◌, arith, ◌==◌, ==_iff, ==_refl, Bool-cases, Option-cases, &&-eq-true,
}
use otx.Names.WildcardTree.{
  children, get_child, chain, found, walk, find_one, Node, Children, node, nil, child, not_online,
  no_error,
}
use otx.Names.WildcardTree.Insertion.{contains, below, contains-cons, contains-nil}

-- Every leaf is marked: what is below the root after insertions and removals.
abbrev mutual
  pub MarkedLeaves : Node → Type 0
  MarkedLeaves (node b nil) = b ≡ true
  MarkedLeaves (node b (child c n cs)) = MarkedChildren (child c n cs)

  pub MarkedChildren : Children → Type 0
  MarkedChildren nil = Unit {0}
  MarkedChildren (child c n cs) = MarkedLeaves n × MarkedChildren cs

-- The chain behind a node with one child.
chain-link :
    (b : Bool) (c : ℕ) (n : Node) (rest : List ℕ)
    → chain (node b (child c n nil)) ≡ some rest
    → (b ≡ false) × ((tail : List ℕ) × (chain n ≡ some tail) × (rest ≡ c ∷ tail))
unfolding chain
chain-link b c n rest h = elim (Bool-cases b) [
  | inl marked ↦ absurd (ground (arith, h, marked))
  | inr plain ↦ (
    plain,
    elim (Option-cases (chain n)) [
      | inl none_ ↦ absurd (ground (arith, h, none_, plain))
      | inr (tail, e) ↦ (tail, e, ground (arith, h, e, plain))
    ],
  )
]

contains-link :
    (b : Bool) (c x : ℕ) (n : Node) (s : List ℕ)
    → contains (x ∷ s) (node b (child c n nil)) ≡ (c == x && contains s n)
unfolding contains get_child
contains-link b c x n s = ground arith

chain-leaf : (b : Bool) (rest : List ℕ) → chain (node b nil) ≡ some rest → [] ≡ rest
unfolding chain
chain-leaf b rest h = cc (h)

chain-fork :
    (b : Bool) (c d : ℕ) (n k : Node) (cs : Children) (rest : List ℕ)
    → ¬ (chain (node b (child c n (child d k cs))) ≡ some rest)
unfolding chain
chain-fork b c d n k cs rest h = cc (h)

chain-only : (n : Node) (rest s : List ℕ) → chain n ≡ some rest → contains s n ≡ true → s ≡ rest
unfolding contains get_child
chain-only (node b nil) rest [] h m = chain-leaf b rest h
chain-only (node b nil) rest (x ∷ s) h m = absurd (cc (m))
chain-only (node b (child c n nil)) rest [] h m = absurd (cc (sym m ∙ (chain-link b c n rest h).0))
chain-only (node b (child c n nil)) rest (x ∷ s) h m =
    let (plain, (tail, e, r)) = chain-link b c n rest h in
    let (same_letter, within) =
      &&-eq-true (c == x) (contains s n) (sym (contains-link b c x n s) ∙ m) in
    ap₂ ◌∷◌ (sym ((==_iff c x).0 same_letter)) (chain-only n tail s e within) ∙ sym r
chain-only (node b (child c n (child d k cs))) rest s h m = absurd (chain-fork b c d n k cs rest h)

pub chain-contains :
    (n : Node) (rest : List ℕ) → MarkedLeaves n → chain n ≡ some rest → contains rest n ≡ true
chain-contains (node b nil) rest k h =
    subst (λ s. contains s (node b nil) ≡ true) (chain-leaf b rest h)
      (contains-nil (node b nil) ∙ k)
chain-contains (node b (child c n nil)) rest k h =
    let (plain, (tail, e, r)) = chain-link b c n rest h in
    subst (λ s. contains s (node b (child c n nil)) ≡ true) (sym r)
      (contains-link b c c n tail ∙ ap₂ ◌&&◌ (==_refl c) (chain-contains n tail k.0 e))
chain-contains (node b (child c n (child d m cs))) rest k h =
    absurd (chain-fork b c d n m cs rest h)

pub walk-cons :
    (ch : ℕ) (query : List ℕ) (n k : Node)
    → get_child ch (children n) ≡ some k
    → walk (ch ∷ query) n ≡ walk query k
unfolding walk
walk-cons ch query n k e = rw (e, walk) refl

pub walk-absent :
    (ch : ℕ) (query : List ℕ) (n : Node)
    → get_child ch (children n) ≡ none
    → walk (ch ∷ query) n ≡ none
unfolding walk
walk-absent ch query n e = rw (e, walk) refl

pub walk-nil : (n : Node) → walk [] n ≡ some n
unfolding walk
walk-nil n = refl

pub walk-contains :
    (query s : List ℕ) (n m : Node) → walk query n ≡ some m → contains (query ++ s) n ≡ contains s m
walk-contains [] s n m h = ap (below s) (sym (walk-nil n) ∙ h)
walk-contains (ch ∷ query) s n m h = elim (Option-cases (get_child ch (children n))) [
  | inl absent ↦ absurd (cc (sym h ∙ walk-absent ch query n absent))
  | inr (k, e) ↦
      contains-cons ch (query ++ s) n
      ∙ ap (below (query ++ s)) e
      ∙ walk-contains query s k m (sym (walk-cons ch query n k e) ∙ h)
]

-- Where `findOne` finds a name: the node of the query, and the chain behind it.
pub record Finds (query name : List ℕ) (n : Node) : Type 0 where
  pub at : Node
  pub rest : List ℕ
  pub walked : walk query n ≡ some at
  pub chained : chain at ≡ some rest
  pub whole : name ≡ query ++ rest

found-name :
    (query name : List ℕ) (o : Option (List ℕ))
    → found query o ≡ no_error name
    → (rest : List ℕ) × (o ≡ some rest) × (name ≡ query ++ rest)
found-name query name none h = absurd (cc (h))
found-name query name (some rest) h = (rest, refl, cc (h))

find_one-at :
    (query : List ℕ) (n m : Node) → walk query n ≡ some m → find_one query n ≡ found query (chain m)
unfolding find_one
find_one-at query n m e = rw (e, find_one) refl

find_one-nowhere : (query : List ℕ) (n : Node) → walk query n ≡ none → find_one query n ≡ not_online
unfolding find_one
find_one-nowhere query n e = rw (e, find_one) refl

pub find_one-Finds :
    (query name : List ℕ) (n : Node) → find_one query n ≡ no_error name → Finds query name n
find_one-Finds query name n h = elim (Option-cases (walk query n)) [
  | inl absent ↦ absurd (cc (sym h ∙ find_one-nowhere query n absent))
  | inr (m, e) ↦
      let (rest, c, w) = found-name query name (chain m) (sym (find_one-at query n m e) ∙ h) in
      record { at = m; rest = rest; walked = e; chained = c; whole = w }
]

-- A name that is answered is the only name of the trie that begins with the query.
pub find_one-Only :
    (query name s : List ℕ) (n : Node)
    → find_one query n ≡ no_error name
    → contains (query ++ s) n ≡ true
    → query ++ s ≡ name
find_one-Only query name s n h m =
    let f = find_one-Finds query name n h in
    ap (◌++◌ query)
      (chain-only f.at f.rest s f.chained (sym (walk-contains query s n f.at f.walked) ∙ m))
    ∙ sym f.whole

-- Where the walk finds no node, the trie has no name that begins with the query.
walk-none : (query s : List ℕ) (n : Node) → walk query n ≡ none → contains (query ++ s) n ≡ false
walk-none [] s n h = absurd (cc (sym h ∙ walk-nil n))
walk-none (ch ∷ query) s n h = elim (Option-cases (get_child ch (children n))) [
  | inl absent ↦ contains-cons ch (query ++ s) n ∙ ap (below (query ++ s)) absent
  | inr (k, e) ↦
      contains-cons ch (query ++ s) n
      ∙ ap (below (query ++ s)) e
      ∙ walk-none query s k (sym (walk-cons ch query n k e) ∙ h)
]
