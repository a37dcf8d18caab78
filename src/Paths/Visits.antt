-- ===== src/Paths/Visits.antt =====
-- A visit of a neighbour keeps that each node of the search is the start or was reached from a
-- cheaper one, and keeps the node it starts from.

use otx.Prelude.{
  ℕ, ◌+◌, ◌%◌, ◌≤◌, ◌<◌, ◌≡◌, refl, sym, ap, subst, ◌∙◌, ◌≢◌, inl, inr, Bool, true, false, Option,
  none, some, List, [], ◌∷◌, ◌++◌, arith, leb, ◌==◌, if◌then◌else◌, if-both, if-cases, Option-both,
  length, All, get_elem?,
}
use otx.Chat.Maps.{find}
use otx.Paths.{
  max_nodes, key, create_open_node, change_node, reopen_node, get_node_by_position, distance,
  get_map_walk_cost, get_tile_walk_cost, is_skipped, visit, visit_all, Node, AStarNodes, Setting,
}
use otx.Paths.Routes.{IsBeside, IsReached}
use otx.Paths.Array.{change_node-off, added-old}
use otx.Paths.Steps.{IsStep, IsInner, IsStep-IsBeside}
use otx.Paths.Search.{changed-IsSearched, added-IsSearched, IsSearched}

module _ (e : Setting) (sx sy : ℕ) where
  -- Tiles that can be walked to are away from the edge of the map.
  abbrev pub IsInland : Type 0
  IsInland = (x y : ℕ) → e.can_walk_to x y ≡ true → IsInner x × IsInner y

  pub IsInner-node :
      (ns : List Node) (n : Node)
      → IsInland
      → IsInner sx × IsInner sy
      → IsReached e (sx, sy) ns n
      → IsInner n.x × IsInner n.y
  IsInner-node ns n inland start (inl (_, (p, (q, _)))) = rw (p, q) start
  IsInner-node ns n inland start (inr (k, (p, o, (g, (lt, (b, w)))))) = inland n.x n.y w

  abbrev pub Searched : AStarNodes → Type 0
  Searched a = IsSearched e sx sy a

  -- What a visit keeps: the search, and the node it starts from.
  abbrev pub Kept : ℕ → Node → AStarNodes → Type 0
  Kept i n a = Searched a × (get_elem? a.nodes i ≡ some n)

  abbrev pub KeptAny : ℕ → Node → Option AStarNodes → Type 0
  KeptAny i n none = Unit {0}
  KeptAny i n (some a) = Kept i n a

  some_cost : (n : Node) (x y : ℕ) → 1 ≤ get_map_walk_cost n x y
  unfolding get_map_walk_cost
  some_cost n x y =
      if-both (λ c. 1 ≤ c) (distance n.x x == distance n.y y) 25 10 (omega arith) (omega arith)

  -- A node that is known and dearer gets the cheaper way.
  reopened :
      (i : ℕ) (n : Node) (dx dy : ℕ) (a : AStarNodes) (k : ℕ) (m : Node) (new_f : ℕ)
      → IsStep (dx, dy)
      → IsInner n.x × IsInner n.y
      → Searched a
      → get_elem? a.nodes i ≡ some n
      → get_elem? a.nodes k ≡ some m
      → n.f < new_f
      → new_f < m.f
      → (c : Node) × ((get_elem? a.nodes k ≡ some c)
          × ((key c.x c.y ≡ key ((n.x + dx) % 65536) ((n.y + dy) % 65536)) × (c.y < 65536)))
      → Kept i n (reopen_node k m i new_f a)
  unfolding reopen_node
  reopened i n dx dy a k m new_f step inner s at o dearer cheaper (c, (u, (v, w))) = (
    changed-IsSearched e sx sy k g a _
        (λ d q. (gentle d (same d c (sym q ∙ u)), way d q (same d c (sym q ∙ u)))) s,
    kept,
  )
    where
      g : Node → Node
      g d = record d { f = new_f; parent = some i; is_open = true }

      same : (a b : Node) → some a ≡ some b → a ≡ b
      same a b z = cc

      dear : (d : Node) → d ≡ c → new_f < d.f
      dear d z = subst (λ b. new_f < b.f) (same m c (sym o ∙ u) ∙ sym z) cheaper

      gentle : (d : Node) → d ≡ c → ((g d).f ≤ d.f) × (((g d).x ≡ d.x) × ((g d).y ≡ d.y))
      gentle d z = (omega (arith, dear d z), (refl, refl))

      apart : i ≢ k
      apart z = absurd (
          omega (
            arith,
            dearer,
            cheaper,
            ap (λ b. b.f) (same n m (sym at ∙ (ap (get_elem? a.nodes) z ∙ o))),
          ))

      kept : get_elem? (change_node k g a.nodes) i ≡ some n
      kept = change_node-off k g a.nodes i apart ∙ at

      walked :
          (d : Node) → new_f < d.f → IsReached e (sx, sy) a.nodes d → e.can_walk_to d.x d.y ≡ true
      walked d z (inl (_, (_, (_, f)))) = absurd (omega (arith, z, f))
      walked d z (inr (l, (p, r, (q, (lt, (b, h)))))) = h

      way :
          (d : Node)
          → get_elem? a.nodes k ≡ some d
          → d ≡ c
          → IsReached e (sx, sy) (change_node k g a.nodes) (g d)
      way d q z = inr (
        i,
        (
          n,
          refl,
          (
            kept,
            (
              dearer,
              (
                IsStep-IsBeside n (g d) dx dy inner.0 inner.1 step dx_at dy_at,
                walked d (dear d z) (s.reached k d q),
              ),
            ),
          ),
        ),
      )
        where
          dy_at : d.y ≡ (n.y + dy) % 65536
          dy_at = ap (λ b. b.y) z ∙ omega (arith, v, w)

          dx_at : d.x ≡ (n.x + dx) % 65536
          dx_at = ap (λ b. b.x) z ∙ omega (arith, v, w)

  over_cost : (a b : ℕ) → leb a b ≡ false → b < a
  over_cost a b q = ground (arith, q)

  visit-Kept :
      (i : ℕ) (n : Node) (dx dy : ℕ) (a : AStarNodes)
      → IsInland
      → IsInner sx × IsInner sy
      → IsStep (dx, dy)
      → Kept i n a
      → KeptAny i n (visit e (sx, sy) i n (dx, dy) a)
  unfolding visit get_node_by_position create_open_node reopen_node
  visit-Kept i n dx dy a inland start step (s, at) =
      if-both (KeptAny i n) (is_skipped e (sx, sy) x y) _ _ (s, at)
        (Option-both (KeptAny i n) (find (key x y) a.node_table) _ _ (λ _. unknown)
          (λ k f. known k f))
    where
      x : ℕ
      x = (n.x + dx) % 65536

      y : ℕ
      y = (n.y + dy) % 65536

      new_f : ℕ
      new_f = n.f + get_map_walk_cost n x y + get_tile_walk_cost e x y

      dearer : n.f < new_f
      dearer = omega (arith, some_cost n x y)

      inner : IsInner n.x × IsInner n.y
      inner = IsInner-node a.nodes n inland start (s.reached i n at)

      fresh : Node
      fresh = record { parent = some i; f = new_f; x = x; y = y; is_open = true }

      beside : IsBeside n fresh
      beside = IsStep-IsBeside n fresh dx dy inner.0 inner.1 step refl refl

      unknown : KeptAny i n (if e.can_walk_to x y then create_open_node i x y new_f a else some a)
      unknown =
          if-cases (KeptAny i n) (e.can_walk_to x y) _ (some a)
            (λ w. if-both (KeptAny i n) (leb max_nodes (length a.nodes)) none _ tt (added w))
            (λ _. (s, at))
        where
          added :
              e.can_walk_to x y ≡ true
              → Kept i n (record a {
                nodes = a.nodes ++ fresh ∷ [];
                node_table = (key x y, length a.nodes) ∷ a.node_table;
              })
          added w = (
            added-IsSearched e sx sy fresh a (omega arith)
                (inr (i, (n, refl, (added-old a.nodes fresh i n at, (dearer, (beside, w)))))) s,
            added-old a.nodes fresh i n at,
          )

      known :
          (k : ℕ)
          → find (key x y) a.node_table ≡ some k
          → KeptAny i n (elim (get_elem? a.nodes k) [
            | none ↦ some a
            | some m ↦ if leb m.f new_f then some a else some (reopen_node k m i new_f a)
          ])
      known k f =
          Option-both (KeptAny i n) (get_elem? a.nodes k) (some a) _ (λ _. (s, at))
            (λ m o.
              if-cases (KeptAny i n) (leb m.f new_f) (some a) _ (λ _. (s, at))
                (λ q.
                  reopened i n dx dy a k m new_f step inner s at o dearer (over_cost m.f new_f q)
                    (s.placed (key x y) k f)))

  pub visit_all-Kept :
      (i : ℕ) (n : Node) (ds : List (ℕ × ℕ)) (a : AStarNodes)
      → IsInland
      → IsInner sx × IsInner sy
      → All IsStep ds
      → Kept i n a
      → Kept i n (visit_all e (sx, sy) i n ds a).1
  unfolding visit_all
  visit_all-Kept i n [] a inland start steps s = s
  visit_all-Kept i n ((dx, dy) ∷ ds) a inland start steps s =
      Option-both After (visit e (sx, sy) i n (dx, dy) a) (true, a) _ (λ _. s)
        (λ b q.
          visit_all-Kept i n ds b inland start steps.1
            (subst (KeptAny i n) q (visit-Kept i n dx dy a inland start steps.0 s)))
    where
      After : Bool × AStarNodes → Type 0
      After r = Kept i n r.1
