-- ===== src/Names/WildcardTree/Insertion.antt =====
-- src/wildcardtree.cpp: the trie as a set of names, and what `insert` adds to it.
use otx.Prelude.{
  ℕ, ◌≡◌, refl, sym, ap, ◌∙◌, ◌≢◌, inl, inr, Bool, true, false, ◌&&◌, ◌||◌, Option, none, some,
  List, [], ◌∷◌, arith, ◌==◌, if◌then◌else◌, ==_iff, Option-cases,
}
use otx.Names.WildcardTree.{
  breakpoint, children, empty_node, get_child, set_child, erase_child, add_child, insert, Node,
  Children, node, nil, child,
}

-- A name is in the trie.
unfoldable pub contains : List ℕ → Node → Bool
contains [] n = breakpoint n
contains (ch ∷ str) n = elim (get_child ch (children n)) [ none ↦ false | some m ↦ contains str m ]

abbrev pub same : List ℕ → List ℕ → Bool
same [] [] = true
same [] (y ∷ ys) = false
same (x ∷ xs) [] = false
same (x ∷ xs) (y ∷ ys) = x == y && same xs ys

get_child-set_child :
    (ch d : ℕ) (n : Node) (cs : Children)
    → get_child d (set_child ch n cs) ≡ (if d == ch then some n else get_child d cs)
unfolding get_child set_child
get_child-set_child ch d n nil = ground (arith, ==_iff d ch)
get_child-set_child ch d n (child c m cs) =
    ground (arith, get_child-set_child ch d n cs, ==_iff d ch, ==_iff c ch, ==_iff c d)

pub get_child-erase_child :
    (ch d : ℕ) (cs : Children)
    → get_child d (erase_child ch cs) ≡ (if d == ch then none else get_child d cs)
unfolding get_child erase_child
get_child-erase_child ch d nil = ground arith
get_child-erase_child ch d (child c m cs) =
    ground (arith, get_child-erase_child ch d cs, ==_iff d ch, ==_iff c ch, ==_iff c d)

-- What a trie contains below a character's child, if there is one.
abbrev pub below : List ℕ → Option Node → Bool
below s none = false
below s (some m) = contains s m

pub contains-cons :
    (d : ℕ) (s : List ℕ) (n : Node) → contains (d ∷ s) n ≡ below s (get_child d (children n))
unfolding contains
contains-cons d s n = elim (Option-cases (get_child d (children n))) [
  | inl absent ↦ rw (absent, contains) refl
  | inr (m, e) ↦ rw (e, contains) refl
]

pub contains-nil : (n : Node) → contains [] n ≡ breakpoint n
unfolding contains
contains-nil n = refl

contains-empty_node : (s : List ℕ) (b : Bool) → contains s (empty_node b) ≡ (same s [] && b)
unfolding contains get_child
contains-empty_node [] b = refl
contains-empty_node (x ∷ s) b = refl

-- A node marked by `addChild`.
contains-mark :
    (s : List ℕ) (b : Bool) (n : Node)
    → contains s (node (breakpoint n || b) (children n)) ≡ (contains s n || same s [] && b)
unfolding contains
contains-mark [] b n = refl
contains-mark (x ∷ s) b n = ground arith

contains-add_child :
    (s : List ℕ) (ch : ℕ) (b : Bool) (cs : Children)
    → contains s (add_child ch b cs) ≡ (below s (get_child ch cs) || same s [] && b)
contains-add_child s ch b cs = elim (Option-cases (get_child ch cs)) [
  | inl absent ↦ rw (absent, add_child) (contains-empty_node s b)
  | inr (m, e) ↦ rw (e, add_child) (contains-mark s b m)
]

-- The names below a node with a child set, and with a child erased.
pub contains-set :
    (d ch : ℕ) (s : List ℕ) (b : Bool) (k : Node) (cs : Children)
    → contains (d ∷ s) (node b (set_child ch k cs))
      ≡ (if d == ch then contains s k else below s (get_child d cs))
contains-set d ch s b k cs =
    contains-cons d s (node b (set_child ch k cs))
    ∙ ap (below s) (get_child-set_child ch d k cs)
    ∙ branch (d == ch)
  where
    branch :
        (t : Bool)
        → below s (if t then some k else get_child d cs)
          ≡ (if t then contains s k else below s (get_child d cs))
    branch true = refl
    branch false = refl

-- The names after a child of a node is replaced by one that differs in some.
insert-step :
    (d ch : ℕ) (s : List ℕ) (b t : Bool) (k : Node) (cs : Children)
    → contains s k ≡ (t || below s (get_child ch cs))
    → contains (d ∷ s) (node b (set_child ch k cs)) ≡ (d == ch && t || contains (d ∷ s) (node b cs))
insert-step d ch s b t k cs h =
    ground (arith, contains-set d ch s b k cs, contains-cons d s (node b cs), h, ==_iff d ch)

-- After the insertion of a name that is not empty the trie contains the name, and otherwise what
-- it contained.
pub contains-insert :
    (str s : List ℕ) (n : Node)
    → str ≢ []
    → contains s (insert str n) ≡ (same s str || contains s n)
unfolding insert
contains-insert [] s n h = absurd (h refl)
contains-insert (ch ∷ []) [] (node b cs) h =
    contains-nil (node b (set_child ch (add_child ch true cs) cs)) ∙ sym (contains-nil (node b cs))
contains-insert (ch ∷ []) (d ∷ s) (node b cs) h =
    insert-step d ch s b (same s []) (add_child ch true cs) cs
      (ground (arith, contains-add_child s ch true cs))
contains-insert (ch ∷ c ∷ str) [] (node b cs) h =
    contains-nil (node b (set_child ch (insert (c ∷ str) (add_child ch false cs)) cs))
    ∙ sym (contains-nil (node b cs))
contains-insert (ch ∷ c ∷ str) (d ∷ s) (node b cs) h =
    insert-step d ch s b (same s (c ∷ str)) (insert (c ∷ str) (add_child ch false cs)) cs (
      ground (
        arith,
        contains-add_child s ch false cs,
        contains-insert (c ∷ str) s (add_child ch false cs) (λ e. absurd (cc (e))),
      ))
