-- ===== src/Topology/Layers.antt =====
-- The graphs whose nodes can be ranked, and the walk of packages/topology/validation.py.
use compute_weaver.Base.{
  ℕ, zero, suc, ◌+◌, ◌≤◌, ◌<◌, ◌≡◌, refl, inl, inr, List, [], ◌∷◌, arith, ◌==◌, if◌then◌else◌, Name,
  Bool-cases, length, All, All-map, All-map₂,
}
use compute_weaver.Topology.{Relationship}
use compute_weaver.Topology.Counts.{count, Within, Within-full, Within-antisym}
use compute_weaver.Topology.Kahn.{pending, Nodes, Ordered, Settled}

-- The nodes have ranks that rise from a parent to its child, so no path comes back.
abbrev pub Ranked : List Relationship → (Name → ℕ) → Type 0
Ranked rs rank = All (λ r. rank r.parent_id < rank r.child_id) rs

-- the place of a node, counted from the first that left the queue
pub rank_in : List Name → Name → ℕ
rank_in [] x = 0
rank_in (y ∷ done) x = let rest = rank_in done x in if y == x then length done + 1 else rest

rank_in-le : (done : List Name) (x : Name) → rank_in done x ≤ length done
unfolding rank_in
rank_in-le [] x = omega arith
rank_in-le (y ∷ done) x = ground (arith, rank_in-le done x)

-- `p` leaves the queue before `c` may.
abbrev Before : List Relationship → Name → Name → Type 0
Before rs p c = (done : List Name) → pending rs done c ≡ 0 → 1 ≤ count p done

parents-Before : (rs : List Relationship) → All (λ r. Before rs r.parent_id r.child_id) rs
unfolding pending
parents-Before [] = tt
parents-Before (r ∷ rs) = (
  λ done e. ground arith,
  All-map (λ q. Before rs q.parent_id q.child_id) (λ q. Before (r ∷ rs) q.parent_id q.child_id) rs
      (λ q h done e. h done (ground arith)) (parents-Before rs),
)

rank_in-lt :
    (rs : List Relationship) (done : List Name) (p c : Name)
    → Ordered rs done
    → Before rs p c
    → 1 ≤ count c done
    → (1 ≤ count p done) × (rank_in done p < rank_in done c)
unfolding rank_in Ordered count
rank_in-lt rs [] p c o before h = ground arith
rank_in-lt rs (x ∷ done) p c (o₀, o₁, o₂) before h = elim (Bool-cases (x == c)) [
  | inl t ↦ ground (arith, before done (ground (arith, o₁)), rank_in-le done p, o₀)
  | inr f ↦ ground (arith, rank_in-lt rs done p c o₂ before, o₀, h)
]

module _ (known : List Name) (rs : List Relationship) (nodes : Nodes known rs)
    (visited : List Name) where
  visited_known : Settled known rs [] visited → Within visited known
  unfolding Settled
  visited_known h c = ground (arith, h c)

  -- A walk that meets all nodes ranks them.
  pub complete→Ranked :
      Settled known rs [] visited
      → Ordered rs visited
      → length visited ≡ length known
      → Ranked rs (rank_in visited)
  complete→Ranked h o e =
      let all_visited = Within-full visited known (visited_known h) e in
      All-map₂ (λ r. (1 ≤ count r.parent_id known) × (1 ≤ count r.child_id known))
        (λ r. Before rs r.parent_id r.child_id)
        (λ r. rank_in visited r.parent_id < rank_in visited r.child_id) rs
        (λ r ends before.
          (rank_in-lt rs visited r.parent_id r.child_id o before
            (omega (arith, all_visited r.child_id, ends.1))).1)
        nodes.ends (parents-Before rs)

  pending-zero :
      (rank : Name → ℕ) (qs : List Relationship) (c : Name)
      → All (λ r. (1 ≤ count r.parent_id known) × (1 ≤ count r.child_id known)) qs
      → Ranked qs rank
      → ((p : Name) → rank p < rank c → 1 ≤ count p known → 1 ≤ count p visited)
      → pending qs visited c ≡ 0
  unfolding pending
  pending-zero rank [] c ends ranked f = refl
  pending-zero rank (r ∷ qs) c ends ranked f =
      ground (arith, pending-zero rank qs c ends.1 ranked.1 f, f r.parent_id, ends.0, ranked.0)

  Ranked-free :
      (rank : Name → ℕ) (n : ℕ) (c : Name)
      → Settled known rs [] visited
      → Ranked rs rank
      → rank c < n
      → pending rs visited c ≡ 0
  unfolding Settled
  Ranked-free rank zero c h ranked k = ground arith
  Ranked-free rank (suc n) c h ranked k = pending-zero rank rs c nodes.ends ranked (λ p before here.
      ground (arith, h p, Ranked-free rank n p h ranked (omega (arith, before, k))))

  -- The walk meets all nodes of a graph that can be ranked.
  pub Ranked→complete :
      (rank : Name → ℕ)
      → Settled known rs [] visited
      → Ranked rs rank
      → length visited ≡ length known
  unfolding Settled
  Ranked→complete rank h ranked =
      Within-antisym visited known (visited_known h)
        (λ c. ground (arith, h c, Ranked-free rank (rank c + 1) c h ranked (omega arith)))
