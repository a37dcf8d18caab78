-- ===== src/Paths/Array.antt =====
-- The array of nodes after a node is added or changed: what was reached stays so, when no node moves
-- and none gets dearer.

use otx.Prelude.{
  ℕ, zero, suc, ◌≤◌, ◌<◌, ◌≡◌, refl, sym, ap, subst, ◌∙◌, ◌≢◌, ◌⊎◌, inl, inr, false, none, some,
  List, [], ◌∷◌, ◌++◌, arith, ◌==◌, ==_iff, Bool-cases, length, get_elem?,
}
use otx.Paths.{change_node, Node, Setting}
use otx.Paths.Routes.{IsBeside, IsReached}

get_elem?-bound : (ns : List Node) (j : ℕ) (n : Node) → get_elem? ns j ≡ some n → j < length ns
get_elem?-bound [] j n h = cc
get_elem?-bound (m ∷ ns) zero n h = omega arith
get_elem?-bound (m ∷ ns) (suc j) n h = omega (arith, get_elem?-bound ns j n h)

pub change_node-at :
    (k : ℕ) (g : Node → Node) (ns : List Node) (n : Node)
    → get_elem? ns k ≡ some n
    → get_elem? (change_node k g ns) k ≡ some (g n)
unfolding change_node
change_node-at k g [] n h = cc
change_node-at zero g (m ∷ ns) n h = changed h
  where
    changed : some m ≡ some n → some (g m) ≡ some (g n)
    changed q = cc
change_node-at (suc k) g (m ∷ ns) n h = change_node-at k g ns n h

pub change_node-off :
    (k : ℕ) (g : Node → Node) (ns : List Node) (j : ℕ)
    → j ≢ k
    → get_elem? (change_node k g ns) j ≡ get_elem? ns j
unfolding change_node
change_node-off k g [] j h = refl
change_node-off zero g (m ∷ ns) zero h = absurd (h refl)
change_node-off zero g (m ∷ ns) (suc j) h = refl
change_node-off (suc k) g (m ∷ ns) zero h = refl
change_node-off (suc k) g (m ∷ ns) (suc j) h = change_node-off k g ns j (λ e. h (ap suc e))

pub added-old :
    (ns : List Node) (m : Node) (j : ℕ) (n : Node)
    → get_elem? ns j ≡ some n
    → get_elem? (ns ++ m ∷ []) j ≡ some n
added-old [] m j n h = cc
added-old (l ∷ ns) m zero n h = h
added-old (l ∷ ns) m (suc j) n h = added-old ns m j n h

pub added-new : (ns : List Node) (m : Node) → get_elem? (ns ++ m ∷ []) (length ns) ≡ some m
added-new [] m = refl
added-new (l ∷ ns) m = added-new ns m

pub added-either :
    (ns : List Node) (m : Node) (j : ℕ) (n : Node)
    → get_elem? (ns ++ m ∷ []) j ≡ some n
    → (get_elem? ns j ≡ some n) ⊎ (m ≡ n)
added-either [] m zero n h = inr (last h)
  where
    last : some m ≡ some n → m ≡ n
    last q = cc
added-either [] m (suc j) n h = inl h
added-either (l ∷ ns) m zero n h = inl h
added-either (l ∷ ns) m (suc j) n h = added-either ns m j n h

-- One array grows into another.
abbrev pub Extends : List Node → List Node → Type 0
Extends ns ms =
    (l : ℕ) (p : Node)
    → get_elem? ns l ≡ some p
    → (q : Node) × ((get_elem? ms l ≡ some q) × ((q.f ≤ p.f) × ((q.x ≡ p.x) × (q.y ≡ p.y))))

pub added-Extends : (ns : List Node) (m : Node) → Extends ns (ns ++ m ∷ [])
added-Extends ns m l p h = (p, (added-old ns m l p h, (omega arith, (refl, refl))))

pub changed-Extends :
    (k : ℕ) (g : Node → Node) (ns : List Node)
    → ((n : Node) → get_elem? ns k ≡ some n → ((g n).f ≤ n.f) × (((g n).x ≡ n.x) × ((g n).y ≡ n.y)))
    → Extends ns (change_node k g ns)
changed-Extends k g ns h l p e = elim (Bool-cases (l == k)) [
  | inl q ↦ here ((==_iff l k).0 q)
  | inr q ↦ (p, (change_node-off k g ns l (apart q) ∙ e, (omega arith, (refl, refl))))
]
  where
    apart : (l == k) ≡ false → l ≢ k
    apart q r = ground (arith, q, r)

    here :
        l ≡ k
        → (q : Node) × ((get_elem? (change_node k g ns) l ≡ some q)
            × ((q.f ≤ p.f) × ((q.x ≡ p.x) × (q.y ≡ p.y))))
    here r = (
      g p,
      (
        subst (λ i. get_elem? (change_node k g ns) i ≡ some (g p)) (sym r)
            (change_node-at k g ns p found),
        h p found,
      ),
    )
      where
        found : get_elem? ns k ≡ some p
        found = subst (λ i. get_elem? ns i ≡ some p) r e

pub IsReached-Extends :
    (e : Setting) (sx sy : ℕ) (ns ms : List Node) (n : Node)
    → Extends ns ms
    → IsReached e (sx, sy) ns n
    → IsReached e (sx, sy) ms n
IsReached-Extends e sx sy ns ms n x (inl r) = inl r
IsReached-Extends e sx sy ns ms n x (inr (k, (p, o, (g, (lt, (b, w)))))) = moved (x k p g)
  where
    moved :
        (q : Node) × ((get_elem? ms k ≡ some q) × ((q.f ≤ p.f) × ((q.x ≡ p.x) × (q.y ≡ p.y))))
        → IsReached e (sx, sy) ms n
    moved (q, (h, (c, (u, v)))) = inr (k, (q, o, (h, (omega (arith, c, lt), (beside, w)))))
      where
        beside : IsBeside q n
        beside = rw (u, v) b

pub change_node-none :
    (k : ℕ) (g : Node → Node) (ns : List Node)
    → get_elem? ns k ≡ none
    → get_elem? (change_node k g ns) k ≡ none
unfolding change_node
change_node-none k g [] h = refl
change_node-none zero g (m ∷ ns) h = cc
change_node-none (suc k) g (m ∷ ns) h = change_node-none k g ns h
