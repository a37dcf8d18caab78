-- ===== src/Paths/Rounds.antt =====
-- The rounds of the search keep every node and where it is, and the node that is found satisfies
-- the condition of the search.

use otx.Prelude.{
  ℕ, ◌+◌, ◌%◌, ◌≤◌, ◌≡◌, refl, sym, subst, ◌∙◌, Bool, true, false, Option, none, some, List, [],
  ◌∷◌, arith, leb, if-both, if-cases, Option-both, length, get_elem?,
}
use otx.Chat.Maps.{find}
use otx.Paths.{
  max_nodes, key, create_open_node, change_node, close_node, reopen_node, get_node_by_position,
  get_map_walk_cost, get_tile_walk_cost, is_skipped, visit, visit_all, Node, AStarNodes, Setting,
}
use otx.Paths.Array.{Extends, added-Extends, changed-Extends, IsReached-Extends}
use otx.Paths.Search.{changed-IsSearched, IsSearched}

module _ (e : Setting) (sx sy : ℕ) where
  Extends-refl : (ns : List Node) → Extends ns ns
  Extends-refl ns l p h = (p, (h, (omega arith, (refl, refl))))

  pub Extends-trans : (ks ls ms : List Node) → Extends ks ls → Extends ls ms → Extends ks ms
  Extends-trans ks ls ms f g l p h = first (f l p h)
    where
      first :
          (q : Node) × ((get_elem? ls l ≡ some q) × ((q.f ≤ p.f) × ((q.x ≡ p.x) × (q.y ≡ p.y))))
          → (r : Node) × ((get_elem? ms l ≡ some r) × ((r.f ≤ p.f) × ((r.x ≡ p.x) × (r.y ≡ p.y))))
      first (q, (o, (c, (u, v)))) = second (g l q o)
        where
          second :
              (r : Node) × ((get_elem? ms l ≡ some r) × ((r.f ≤ q.f) × ((r.x ≡ q.x) × (r.y ≡ q.y))))
              → (r : Node) × ((get_elem? ms l ≡ some r)
                  × ((r.f ≤ p.f) × ((r.x ≡ p.x) × (r.y ≡ p.y))))
          second (r, (w, (d, (x, y)))) = (r, (w, (omega (arith, c, d), (x ∙ u, y ∙ v))))

  abbrev ExtendsAny : AStarNodes → Option AStarNodes → Type 0
  ExtendsAny a none = Unit {0}
  ExtendsAny a (some b) = Extends a.nodes b.nodes

  cheaper_cost : (a b : ℕ) → leb a b ≡ false → b ≤ a
  cheaper_cost a b q = ground (arith, q)

  visit-Extends :
      (i : ℕ) (n : Node) (dx dy : ℕ) (a : AStarNodes)
      → ExtendsAny a (visit e (sx, sy) i n (dx, dy) a)
  unfolding visit get_node_by_position create_open_node reopen_node
  visit-Extends i n dx dy a =
      if-both (ExtendsAny a) (is_skipped e (sx, sy) x y) _ _ (Extends-refl a.nodes) (
        Option-both (ExtendsAny a) (find (key x y) a.node_table) _ _
          (λ _.
            if-both (ExtendsAny a) (e.can_walk_to x y) _ (some a)
              (if-both (ExtendsAny a) (leb max_nodes (length a.nodes)) none _ tt
                (added-Extends a.nodes _))
              (Extends-refl a.nodes))
          (λ k _.
            Option-both (ExtendsAny a) (get_elem? a.nodes k) (some a) _ (λ _. Extends-refl a.nodes)
              (λ m o.
                if-cases (ExtendsAny a) (leb m.f new_f) (some a) _ (λ _. Extends-refl a.nodes)
                  (λ q. changed k m o (cheaper_cost m.f new_f q)))))
    where
      x : ℕ
      x = (n.x + dx) % 65536

      y : ℕ
      y = (n.y + dy) % 65536

      new_f : ℕ
      new_f = n.f + get_map_walk_cost n x y + get_tile_walk_cost e x y

      changed :
          (k : ℕ) (m : Node)
          → get_elem? a.nodes k ≡ some m
          → new_f ≤ m.f
          → Extends a.nodes
              (change_node k (λ d. record d { f = new_f; parent = some i; is_open = true }) a.nodes)
      changed k m o c =
          changed-Extends k _ a.nodes
            (λ d q. (subst (λ b. new_f ≤ b.f) (same m d (sym o ∙ q)) c, (refl, refl)))
        where
          same : (a b : Node) → some a ≡ some b → a ≡ b
          same a b z = cc

  pub visit_all-Extends :
      (i : ℕ) (n : Node) (ds : List (ℕ × ℕ)) (a : AStarNodes)
      → Extends a.nodes (visit_all e (sx, sy) i n ds a).1.nodes
  unfolding visit_all
  visit_all-Extends i n [] a = Extends-refl a.nodes
  visit_all-Extends i n ((dx, dy) ∷ ds) a =
      Option-both After (visit e (sx, sy) i n (dx, dy) a) (true, a) _ (λ _. Extends-refl a.nodes)
        (λ b q.
          Extends-trans a.nodes b.nodes _ (subst (ExtendsAny a) q (visit-Extends i n dx dy a))
            (visit_all-Extends i n ds b))
    where
      After : Bool × AStarNodes → Type 0
      After r = Extends a.nodes r.1.nodes

  pub close_node-Extends : (i : ℕ) (a : AStarNodes) → Extends a.nodes (close_node i a).nodes
  unfolding close_node
  close_node-Extends i a = changed-Extends i _ a.nodes (λ n _. (omega arith, (refl, refl)))

  pub close_node-IsSearched :
      (i : ℕ) (a : AStarNodes) → IsSearched e sx sy a → IsSearched e sx sy (close_node i a)
  unfolding close_node
  close_node-IsSearched i a s =
      changed-IsSearched e sx sy i _ a (a.closed_nodes + 1)
        (λ n q. (
          (omega arith, (refl, refl)),
          IsReached-Extends e sx sy a.nodes _ (record n { is_open = false })
              (close_node-Extends i a) (s.reached i n q),
        ))
        s

  -- The node that is found is in the array, and the condition of the search held at it.
  abbrev pub IsFound : Option ℕ → List Node → Type 0
  IsFound none ns = Unit {0}
  IsFound (some k) ns =
      (m : Node) × ((get_elem? ns k ≡ some m)
        × ((b : ℕ) × ((e.path_condition (sx, sy) (m.x, m.y) b).0 ≡ true)))

  pub IsFound-Extends :
      (o : Option ℕ) (ns ms : List Node) → Extends ns ms → IsFound o ns → IsFound o ms
  IsFound-Extends none ns ms x f = tt
  IsFound-Extends (some k) ns ms x (m, (g, (b, h))) = moved (x k m g)
    where
      moved :
          (q : Node) × ((get_elem? ms k ≡ some q) × ((q.f ≤ m.f) × ((q.x ≡ m.x) × (q.y ≡ m.y))))
          → IsFound (some k) ms
      moved (q, (o, (_, (u, v)))) = (q, (o, (b, rw (u, v) h)))
