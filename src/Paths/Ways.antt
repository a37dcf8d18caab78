-- ===== src/Paths/Ways.antt =====
-- Whatever rounds the search takes, the directions to the node that is found are a way there.

use otx.Prelude.{
  ℕ, suc, ◌<◌, ◌≡◌, refl, subst, Bool, true, not, ◌&&◌, ◌||◌, Option, none, some, [], arith, ltb,
  ◌==◌, if◌then◌else◌, &&-eq-true, if-both, if-cases, Option-both, get_elem?,
}
use otx.Paths.{
  start_nodes, get_best_node, close_node, neighbors_of, visit_all, ends, round, walk_back, Node,
  AStarNodes, Setting, State, Outcome, IsRun, running, finished, failed, begun, gone_on,
}
use otx.Paths.Routes.{Leads, walk_back-Leads}
use otx.Paths.Steps.{neighbors_of-IsStep, IsInner}
use otx.Paths.Search.{start_nodes-IsSearched, IsSearched}
use otx.Paths.Visits.{IsInland, visit_all-Kept}
use otx.Paths.Rounds.{
  Extends-trans, visit_all-Extends, close_node-Extends, close_node-IsSearched, IsFound,
  IsFound-Extends,
}

module _ (e : Setting) (sx sy : ℕ) where
  -- What the loop keeps.
  abbrev pub IsKept : State → Type 0
  IsKept s = IsSearched e sx sy s.search × IsFound e sx sy s.found s.search.nodes

  abbrev KeptBy : Outcome → Type 0
  KeptBy (running s) = IsKept s
  KeptBy (finished s) = IsKept s × ((k : ℕ) × (s.found ≡ some k))
  KeptBy failed = Unit {0}

  ended : (o : Option ℕ) (s : State) → s.found ≡ o → IsKept s → KeptBy (ends o s)
  ended none s q h = tt
  ended (some i) s q h = (h, (i, q))

  round-IsKept :
      (s : State)
      → IsInland e sx sy
      → IsInner sx × IsInner sy
      → IsKept s
      → KeptBy (round e (sx, sy) s)
  unfolding round
  round-IsKept s inland start h =
      if-both KeptBy (not (e.max_search_dist == 0) || ltb s.search.closed_nodes 100) _ _
        (Option-both KeptBy (get_best_node s.search) _ _ (λ _. ended s.found s refl h)
          (λ i _.
            Option-both KeptBy (get_elem? s.search.nodes i) failed _ (λ _. tt)
              (λ n o. looked i n o)))
        (ended s.found s refl h)
    where
      hit : Node → Bool
      hit n = (e.path_condition (sx, sy) (n.x, n.y) s.best_match).0

      best : Node → ℕ
      best n = (e.path_condition (sx, sy) (n.x, n.y) s.best_match).1

      now : ℕ → Node → Option ℕ
      now i n = if hit n then some i else s.found

      visited : ℕ → Node → Bool × AStarNodes
      visited i n = visit_all e (sx, sy) i n (neighbors_of e s.search n) s.search

      marked : ℕ → Node → State
      marked i n = record { search = s.search; found = now i n; best_match = best n }

      closed : ℕ → Node → State
      closed i n = record {
        search = close_node i (visited i n).1;
        found = now i n;
        best_match = best n;
      }

      met : (i : ℕ) (n : Node) → hit n ≡ true → now i n ≡ some i
      met i n q = rw (q) refl

      now-IsFound :
          (i : ℕ) (n : Node)
          → get_elem? s.search.nodes i ≡ some n
          → IsFound e sx sy (now i n) s.search.nodes
      now-IsFound i n o =
          if-cases (λ k. IsFound e sx sy k s.search.nodes) (hit n) (some i) s.found
            (λ q. (n, (o, (s.best_match, q)))) (λ _. h.1)

      searched : (i : ℕ) (n : Node) → get_elem? s.search.nodes i ≡ some n → IsKept (closed i n)
      searched i n o = (
        close_node-IsSearched e sx sy i (visited i n).1
            (visit_all-Kept e sx sy i n (neighbors_of e s.search n) s.search inland start
              (neighbors_of-IsStep e s.search n) (h.0, o)).0,
        IsFound-Extends e sx sy (now i n) s.search.nodes _
            (Extends-trans e sx sy s.search.nodes (visited i n).1.nodes _
              (visit_all-Extends e sx sy i n (neighbors_of e s.search n) s.search)
              (close_node-Extends e sx sy i (visited i n).1))
            (now-IsFound i n o),
      )

      looked :
          (i : ℕ) (n : Node)
          → get_elem? s.search.nodes i ≡ some n
          → KeptBy (
              if hit n && best n == 0 then finished (marked i n) else elim (now i n) [
                | none ↦ if (visited i n).0 then failed else running (closed i n)
                | some k ↦ running (closed i n)
              ])
      looked i n o =
          if-cases KeptBy (hit n && best n == 0) (finished (marked i n)) _
            (λ q. ((h.0, now-IsFound i n o), (i, met i n (&&-eq-true (hit n) (best n == 0) q).0)))
            (λ _.
              Option-both KeptBy (now i n) _ _
                (λ _. if-both KeptBy (visited i n).0 failed _ tt (searched i n o))
                (λ k _. searched i n o))

  begun-IsKept :
      sy < 65536 → IsKept (record { search = start_nodes sx sy; found = none; best_match = 0 })
  begun-IsKept b = (start_nodes-IsSearched e sx sy b, tt)

  run-IsKept : {s : State} → IsInland e sx sy → IsInner sx × IsInner sy → IsRun e sx sy s → IsKept s
  run-IsKept inland start begun = begun-IsKept (omega (arith, start.1.1))
  run-IsKept inland start (gone_on {s} {t} r q) =
      subst KeptBy q (round-IsKept s inland start (run-IsKept inland start r))

  -- A node was found that the condition holds at, and its directions lead to it.
  abbrev pub IsWay : State → Type 0
  IsWay t =
      (k : ℕ) × ((t.found ≡ some k)
        × ((n : Node) × ((get_elem? t.search.nodes k ≡ some n)
              × (((b : ℕ) × ((e.path_condition (sx, sy) (n.x, n.y) b).0 ≡ true))
                  × Leads e (sx, sy) (walk_back (suc n.f) t.search.nodes n []) n.x n.y))))

  -- Where the tiles that can be walked to and the start are away from the edge of the map, when the
  -- loop of the path finder finishes after any rounds, it has a node, at which the condition of the
  -- search held, and the directions collected along its parents lead from the start to the node
  -- over tiles that can be walked to.
  pub round-Leads :
      (s t : State)
      → IsInland e sx sy
      → IsInner sx × IsInner sy
      → IsRun e sx sy s
      → round e (sx, sy) s ≡ finished t
      → IsWay t
  round-Leads s t inland start r q =
      led (subst KeptBy q (round-IsKept s inland start (run-IsKept inland start r)))
    where
      led : IsKept t × ((k : ℕ) × (t.found ≡ some k)) → IsWay t
      led ((a, f), (k, z)) = way (subst (λ o. IsFound e sx sy o t.search.nodes) z f)
        where
          way : IsFound e sx sy (some k) t.search.nodes → IsWay t
          way (n, (g, h)) = (
            k,
            (
              z,
              (
                n,
                (
                  g,
                  (
                    h,
                    walk_back-Leads (suc n.f) e sx sy t.search.nodes n [] n.x n.y a.reached
                        (a.reached k n g) (omega arith) (refl, refl),
                  ),
                ),
              ),
            ),
          )
