-- ===== src/Files/Otb/View.antt =====
-- The node of a printed tree stands for the tree: its offsets delimit its escaped properties.
use otx.Files.Otb.Parse.{node_at, grow, body, parse_tree-print}
use otx.Prelude.{
  ℕ, zero, suc, ◌+◌, ◌-◌, ◌≤◌, ◌≡◌, refl, sym, ap, ap₂, subst, ◌∙◌, true, false, ◌||◌, some, List,
  [], ◌∷◌, ◌++◌, append-nil, append_assoc, arith, ltb, length, take, drop,
}
use otx.Files.Otb.{
  start_byte, end_byte, snoc, is_leaf, mark_end, complete, attach, parse_tree, is_zeros, same,
  accepts, load_tree, unescape, Node, Nodes, Partial, nil, cons,
}
use otx.Files.Otb.Tree.{
  escape, print, print_forest, unescape-escape, view, view_all, Tree, Forest, tree, empty, plant,
}

-- The bytes stand in the contents from the offset on.
abbrev Occurs : List ℕ → ℕ → List ℕ → Type 0
Occurs contents at xs = (post : List ℕ) × (drop at contents ≡ xs ++ post)

drop-nil {ℓ} : {A : Type ℓ} (n : ℕ) → drop {A = A} n [] ≡ []
drop-nil zero = refl
drop-nil (suc n) = refl

drop-add {ℓ} : {A : Type ℓ} (m n : ℕ) (xs : List A) → drop (m + n) xs ≡ drop n (drop m xs)
drop-add zero n xs = ap (λ k. drop k xs) (omega arith)
drop-add (suc m) n [] = drop-nil (suc m + n) ∙ sym (drop-nil n)
drop-add (suc m) n (x ∷ xs) =
    let e : suc m + n ≡ suc (m + n) = omega arith in ap (λ k. drop k (x ∷ xs)) e ∙ drop-add m n xs

drop-append {ℓ} : {A : Type ℓ} (xs ys : List A) → drop (length xs) (xs ++ ys) ≡ ys
drop-append [] ys = refl
drop-append (x ∷ xs) ys = drop-append xs ys

take-append {ℓ} : {A : Type ℓ} (xs ys : List A) → take (length xs) (xs ++ ys) ≡ xs
take-append [] ys = refl
take-append (x ∷ xs) ys = ap (◌∷◌ x) (take-append xs ys)

Occurs-append :
    (contents : List ℕ) (at : ℕ) (xs ys : List ℕ)
    → Occurs contents at (xs ++ ys)
    → Occurs contents at xs × Occurs contents (at + length xs) ys
Occurs-append contents at xs ys (post, e) = (
  (ys ++ post, e ∙ append_assoc xs ys post),
  (
    post,
    drop-add at (length xs) contents
        ∙ ap (drop (length xs)) (e ∙ append_assoc xs ys post)
        ∙ drop-append xs (ys ++ post),
  ),
)

-- The slice of a node's properties.
slice-Occurs :
    (contents : List ℕ) (at : ℕ) (xs : List ℕ)
    → Occurs contents at xs
    → take (at + length xs - at) (drop at contents) ≡ xs
slice-Occurs contents at xs (post, e) =
    let n : at + length xs - at ≡ length xs = omega arith in rw (n, e) (take-append xs post)

is_leaf-snoc : (ns : Nodes) (n : Node) → is_leaf (snoc ns n) ≡ false
is_leaf-snoc nil n = refl
is_leaf-snoc (cons m ns) n = refl

abbrev join : Forest → Forest → Forest
join empty us = us
join (plant t ts) us = plant t (join ts us)

join-empty : (ts : Forest) → join ts empty ≡ ts
join-empty empty = refl
join-empty (plant t ts) = ap (plant t) (join-empty ts)

join_assoc : (ts us vs : Forest) → join (join ts us) vs ≡ join ts (join us vs)
join_assoc empty us vs = refl
join_assoc (plant t ts) us vs = ap (plant t) (join_assoc ts us vs)

view_all-snoc :
    (contents : List ℕ) (ns : Nodes) (n : Node)
    → view_all contents (snoc ns n) ≡ join (view_all contents ns) (plant (view contents n) empty)
unfolding view
view_all-snoc contents nil n = refl
view_all-snoc contents (cons m ns) n = ap (plant (view contents m)) (view_all-snoc contents ns n)

-- What a forest leaves of the node that it grows in.
record Grown (it : ℕ) (ts : Forest) (p : Partial) : Type 0 where
  same_type : (grow it ts p).type ≡ p.type
  same_begins : (grow it ts p).begins ≡ p.begins
  ends_before :
      is_leaf p.children ≡ false
      → (is_leaf (grow it ts p).children ≡ false) × ((grow it ts p).ends ≡ p.ends)

mark_end-same :
    (it : ℕ) (p : Partial)
    → ((mark_end it p).type ≡ p.type)
      × ((mark_end it p).begins ≡ p.begins)
      × ((mark_end it p).children ≡ p.children)
mark_end-same it p = (ground arith, ground arith, ground arith)

grow-Grown : (ts : Forest) (it : ℕ) (p : Partial) → Grown it ts p
unfolding grow
grow-Grown empty it p = record {
  same_type = refl;
  same_begins = refl;
  ends_before = λ h. (h, refl);
}
grow-Grown (plant t ts) it p =
    let n = node_at it t in
    let g = grow-Grown ts (it + length (print t)) (attach n (mark_end it p)) in
    let (st, sb, sc) = mark_end-same it p in
    record {
      same_type = g.same_type ∙ st;
      same_begins = g.same_begins ∙ sb;
      ends_before = λ h.
          let (leaf, ends) = g.ends_before (is_leaf-snoc (mark_end it p).children n) in
          (leaf, ends ∙ (rw h refl));
    }

-- A node without children yet gets its end where its forest begins.
grow-ends :
    (ts : Forest) (it : ℕ) (p : Partial)
    → is_leaf p.children ≡ true
    → (mark_end (it + length (print_forest ts)) (grow it ts p)).ends ≡ it
unfolding grow print
grow-ends empty it p h = rw h (omega arith)
grow-ends (plant t ts) it p h =
    let n = node_at it t in
    let g = grow-Grown ts (it + length (print t)) (attach n (mark_end it p)) in
    let (leaf, ends) = g.ends_before (is_leaf-snoc (mark_end it p).children n) in
    rw leaf (ends ∙ (rw h refl))

view_all-leaf : (contents : List ℕ) (ts : Forest) → join (view_all contents nil) ts ≡ ts
unfolding view
view_all-leaf contents ts = refl

-- A finished node with the right offsets stands for its tree.
view-complete :
    (contents : List ℕ) (q : Partial) (type begins : ℕ) (props : List ℕ) (children : Forest)
    → q.type ≡ type
    → q.begins ≡ begins
    → q.ends ≡ begins + length (escape props)
    → Occurs contents begins (escape props)
    → view_all contents q.children ≡ children
    → view contents (complete q) ≡ tree type props children
unfolding view
view-complete contents q type begins props children et eb ee o ec =
    rw (et, eb, ee, ec)
      (ap (λ l. tree type l children)
        (ap (unescape false) (slice-Occurs contents begins (escape props) o)
          ∙ unescape-escape props))

mutual
  unfolding node_at grow print

  view-node_at :
      (contents : List ℕ) (t : Tree) (it : ℕ)
      → Occurs contents it (print t)
      → view contents (node_at it t) ≡ t
  view-node_at contents (tree type props children) it o =
      let begins = it + 1 + 1 in
      let ends = begins + length (escape props) in
      let p : Partial = record { type = type; begins = begins; ends = 0; children = nil } in
      let forest = print_forest children in
      let (head, rest) =
        Occurs-append contents it (start_byte ∷ type ∷ []) (body (tree type props children)) o in
      let (op, os) =
        Occurs-append contents (it + 2) (escape props) (forest ++ end_byte ∷ []) rest in
      let (oc, oe) =
        Occurs-append contents (it + 2 + length (escape props)) forest (end_byte ∷ []) os in
      let two : it + 2 ≡ begins = omega arith in
      let g = grow-Grown children ends p in
      let (st, sb, sc) = mark_end-same (ends + length forest) (grow ends children p) in
      view-complete contents (mark_end (ends + length forest) (grow ends children p)) type begins
        props children (st ∙ g.same_type) (sb ∙ g.same_begins) (grow-ends children ends p refl)
        (subst (λ k. Occurs contents k (escape props)) two op)
        (ap (view_all contents) sc
          ∙ view_all-grow contents children ends p
              (subst (λ k. Occurs contents (k + length (escape props)) forest) two oc)
          ∙ view_all-leaf contents children)

  view_all-grow :
      (contents : List ℕ) (ts : Forest) (it : ℕ) (p : Partial)
      → Occurs contents it (print_forest ts)
      → view_all contents (grow it ts p).children ≡ join (view_all contents p.children) ts
  view_all-grow contents empty it p o = sym (join-empty (view_all contents p.children))
  view_all-grow contents (plant t ts) it p o =
      let (ot, os) = Occurs-append contents it (print t) (print_forest ts) o in
      let n = node_at it t in
      let (st, sb, sc) = mark_end-same it p in
      view_all-grow contents ts (it + length (print t)) (attach n (mark_end it p)) os
      ∙ ap (λ l. join l ts)
          (view_all-snoc contents (mark_end it p).children n
            ∙ ap₂ (λ l u. join l (plant u empty)) (ap (view_all contents) sc)
                (view-node_at contents t it ot))
      ∙ join_assoc (view_all contents p.children) (plant t empty) ts

view-parse_tree :
    (t : Tree) → (n : Node) × ((parse_tree (print t) ≡ some n) × (view (print t) n ≡ t))
view-parse_tree t =
    (node_at 0 t, (parse_tree-print t, view-node_at (print t) t 0 ([], sym (append-nil (print t)))))

-- A file that holds an identifier of four bytes, the expected one or zeros, and a tree of typed nodes
-- printed with its marks escaped, which takes four bytes at least, is accepted, and the node that
-- the loader returns stands for the same tree, with the same types, the same properties once the
-- escapes are taken out and the same children in the same order, whatever bytes the types and the
-- properties are.
pub view-load_tree :
    (a b c d : ℕ) (accepted : List ℕ) (t : Tree)
    → (same (a ∷ b ∷ c ∷ d ∷ []) accepted || is_zeros (a ∷ b ∷ c ∷ d ∷ [])) ≡ true
    → 4 ≤ length (print t)
    → (n : Node) × ((load_tree accepted (a ∷ b ∷ c ∷ d ∷ print t) ≡ some n)
        × (view (print t) n ≡ t))
unfolding load_tree accepts
view-load_tree a b c d accepted t known long =
    let (n, (parsed, same_tree)) = view-parse_tree t in (n, (loaded n parsed, same_tree))
  where
    enough : ltb 7 (suc (suc (suc (suc (length (print t)))))) ≡ true
    enough = ground (arith, long)

    loaded :
        (n : Node)
        → parse_tree (print t) ≡ some n
        → load_tree accepted (a ∷ b ∷ c ∷ d ∷ print t) ≡ some n
    loaded n parsed = rw (known, enough) parsed
