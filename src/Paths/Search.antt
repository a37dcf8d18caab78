-- ===== src/Paths/Search.antt =====
-- The search knows each of its nodes by its position, and each is the start or was reached from
-- one that is cheaper; a change of a node and a new node keep that.

use otx.Prelude.{
  ℕ, zero, suc, ◌≤◌, ◌<◌, ◌≡◌, refl, sym, subst, ◌∙◌, ◌≢◌, ◌⊎◌, inl, inr, true, false, none, some,
  [], ◌∷◌, ◌++◌, arith, ◌==◌, ==_iff, Bool-cases, Option-cases, if-cases, length, get_elem?,
}
use otx.Chat.Maps.{find}
use otx.Paths.{key, start_nodes, change_node, Node, AStarNodes, Setting}
use otx.Paths.Routes.{IsReached, AllReached}
use otx.Paths.Array.{
  change_node-at, change_node-off, added-old, added-new, added-either, Extends, added-Extends,
  changed-Extends, IsReached-Extends, change_node-none,
}

module _ (e : Setting) (sx sy : ℕ) where
  -- Every node was reached, and the table knows where each of its nodes is.
  pub record IsSearched (a : AStarNodes) : Type 0 where
    pub reached : AllReached e (sx, sy) a.nodes
    pub placed :
        (i k : ℕ)
        → find i a.node_table ≡ some k
        → (m : Node) × ((get_elem? a.nodes k ≡ some m) × ((key m.x m.y ≡ i) × (m.y < 65536)))

  pub start_nodes-IsSearched : sy < 65536 → IsSearched (start_nodes sx sy)
  unfolding start_nodes
  start_nodes-IsSearched b = record { reached = first; placed = table }
    where
      origin : Node
      origin = record { parent = none; f = 0; x = sx; y = sy; is_open = true }

      same : (n : Node) → some origin ≡ some n → origin ≡ n
      same n q = cc

      first : AllReached e (sx, sy) (origin ∷ [])
      first zero n h =
          subst (IsReached e (sx, sy) (origin ∷ [])) (same n h) (inl (refl, (refl, (refl, refl))))
      first (suc j) n h = cc

      table :
          (i k : ℕ)
          → find i ((key sx sy, 0) ∷ []) ≡ some k
          → (m : Node) × ((get_elem? (origin ∷ []) k ≡ some m)
              × ((key m.x m.y ≡ i) × (m.y < 65536)))
      table i k h =
          if-cases
            (λ o.
              o ≡ some k
              → (m : Node) × ((get_elem? (origin ∷ []) k ≡ some m)
                  × ((key m.x m.y ≡ i) × (m.y < 65536))))
            (i == key sx sy) (some 0) none (λ q r. here ((==_iff i (key sx sy)).0 q) (zeroth r))
            (λ _ r. absurd (none_some r)) h
        where
          none_some : none ≢ some k
          none_some q = cc

          zeroth : some 0 ≡ some k → 0 ≡ k
          zeroth q = cc

          here :
              i ≡ key sx sy
              → 0 ≡ k
              → (m : Node) × ((get_elem? (origin ∷ []) k ≡ some m)
                  × ((key m.x m.y ≡ i) × (m.y < 65536)))
          here q z =
              subst
                (λ l.
                  (m : Node) × ((get_elem? (origin ∷ []) l ≡ some m)
                    × ((key m.x m.y ≡ i) × (m.y < 65536))))
                z (origin, (refl, (sym q, b)))

  -- A change of one node that does not move and gets no dearer.
  pub changed-IsSearched :
      (k : ℕ) (g : Node → Node) (a : AStarNodes) (closed : ℕ)
      → ((n : Node)
          → get_elem? a.nodes k ≡ some n
          → (((g n).f ≤ n.f) × (((g n).x ≡ n.x) × ((g n).y ≡ n.y)))
            × IsReached e (sx, sy) (change_node k g a.nodes) (g n))
      → IsSearched a
      → IsSearched (record a { nodes = change_node k g a.nodes; closed_nodes = closed })
  changed-IsSearched k g a closed h s = record { reached = all; placed = table }
    where
      longer : Extends a.nodes (change_node k g a.nodes)
      longer = changed-Extends k g a.nodes (λ n f. (h n f).0)

      all : AllReached e (sx, sy) (change_node k g a.nodes)
      all j n f = elim (Bool-cases (j == k)) [
        | inl q ↦ at_k ((==_iff j k).0 q) (Option-cases (get_elem? a.nodes k))
        | inr q ↦
            IsReached-Extends e sx sy a.nodes _ n longer
              (s.reached j n (sym (change_node-off k g a.nodes j (apart q)) ∙ f))
      ]
        where
          apart : (j == k) ≡ false → j ≢ k
          apart q r = ground (arith, q, r)

          at_k :
              j ≡ k
              → (get_elem? a.nodes k ≡ none) ⊎ ((m : Node) × (get_elem? a.nodes k ≡ some m))
              → IsReached e (sx, sy) (change_node k g a.nodes) n
          at_k q (inl o) = absurd (
              none_some (
                sym (change_node-none k g a.nodes o)
                ∙ subst (λ i. get_elem? (change_node k g a.nodes) i ≡ some n) q f))
            where
              none_some : none ≢ some n
              none_some z = cc
          at_k q (inr (m, o)) =
              subst (IsReached e (sx, sy) (change_node k g a.nodes)) same (h m o).1
            where
              same : g m ≡ n
              same = some_inj (g m) n (
                  sym (change_node-at k g a.nodes m o)
                  ∙ (subst (λ i. get_elem? (change_node k g a.nodes) i ≡ some n) q f))
                where
                  some_inj : (a b : Node) → some a ≡ some b → a ≡ b
                  some_inj a b z = cc

      table :
          (i l : ℕ)
          → find i a.node_table ≡ some l
          → (m : Node) × ((get_elem? (change_node k g a.nodes) l ≡ some m)
              × ((key m.x m.y ≡ i) × (m.y < 65536)))
      table i l f = along (s.placed i l f)
        where
          along :
              (m : Node) × ((get_elem? a.nodes l ≡ some m) × ((key m.x m.y ≡ i) × (m.y < 65536)))
              → (m : Node) × ((get_elem? (change_node k g a.nodes) l ≡ some m)
                  × ((key m.x m.y ≡ i) × (m.y < 65536)))
          along (m, (u, (v, w))) = moved (longer l m u)
            where
              moved :
                  (q : Node) × ((get_elem? (change_node k g a.nodes) l ≡ some q)
                      × ((q.f ≤ m.f) × ((q.x ≡ m.x) × (q.y ≡ m.y))))
                  → (q : Node) × ((get_elem? (change_node k g a.nodes) l ≡ some q)
                      × ((key q.x q.y ≡ i) × (q.y < 65536)))
              moved (q, (c, (_, (x, y)))) = (q, (c, (omega (arith, x, y, v), omega (arith, y, w))))

  pub added-IsSearched :
      (m : Node) (a : AStarNodes)
      → m.y < 65536
      → IsReached e (sx, sy) (a.nodes ++ m ∷ []) m
      → IsSearched a
      → IsSearched (record a {
        nodes = a.nodes ++ m ∷ [];
        node_table = (key m.x m.y, length a.nodes) ∷ a.node_table;
      })
  added-IsSearched m a b r s = record { reached = all; placed = table }
    where
      all : AllReached e (sx, sy) (a.nodes ++ m ∷ [])
      all j n f = elim (added-either a.nodes m j n f) [
        | inl h ↦ IsReached-Extends e sx sy a.nodes _ n (added-Extends a.nodes m) (s.reached j n h)
        | inr h ↦ subst (IsReached e (sx, sy) (a.nodes ++ m ∷ [])) h r
      ]

      Placed : ℕ → ℕ → Type 0
      Placed i k =
          (n : Node) × ((get_elem? (a.nodes ++ m ∷ []) k ≡ some n)
            × ((key n.x n.y ≡ i) × (n.y < 65536)))

      old :
          (i k : ℕ)
          → (n : Node) × ((get_elem? a.nodes k ≡ some n) × ((key n.x n.y ≡ i) × (n.y < 65536)))
          → Placed i k
      old i k (n, (u, v)) = (n, (added-old a.nodes m k n u, v))

      table :
          (i k : ℕ) → find i ((key m.x m.y, length a.nodes) ∷ a.node_table) ≡ some k → Placed i k
      table i k h =
          if-cases (λ o. o ≡ some k → Placed i k) (i == key m.x m.y) (some (length a.nodes))
            (find i a.node_table) (λ q z. here ((==_iff i (key m.x m.y)).0 q) (same z))
            (λ _ z. old i k (s.placed i k z)) h
        where
          same : some (length a.nodes) ≡ some k → length a.nodes ≡ k
          same q = cc

          here : i ≡ key m.x m.y → length a.nodes ≡ k → Placed i k
          here q z = subst (Placed i) z (m, (added-new a.nodes m, (sym q, b)))
