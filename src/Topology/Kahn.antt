-- ===== src/Topology/Kahn.antt =====
-- The queue of packages/topology/validation.py: what stands in it and what has left it.
use compute_weaver.Base.{
  ℕ, zero, suc, ◌+◌, ◌-◌, ◌≤◌, ◌≡◌, refl, ◌&&◌, Option, some, List, [], ◌∷◌, ◌++◌, arith, leb, ◌==◌,
  if◌then◌else◌, Name, length, All, length-append,
}
use compute_weaver.Topology.{Relationship, children, indegree, decrement, release, drain}
use compute_weaver.Topology.Counts.{count, count-append, Within-length}

-- the relationships to `c` whose parent has not left the queue
unfoldable pub pending : List Relationship → List Name → Name → ℕ
unfolding count
pending [] done c = 0
pending (r ∷ rs) done c =
    let rest = pending rs done c in
    if (r.child_id == c) && (count r.parent_id done == 0) then rest + 1 else rest

pub pending-none : (rs : List Relationship) (c : Name) → pending rs [] c ≡ indegree rs c
unfolding pending indegree count
pending-none [] c = refl
pending-none (r ∷ rs) c = ground (arith, pending-none rs c)

pending-step :
    (rs : List Relationship) (done : List Name) (x c : Name)
    → count x done ≡ 0
    → pending rs done c ≡ pending rs (x ∷ done) c + count c (children rs x)
unfolding pending children count
pending-step [] done x c e = ground arith
pending-step (r ∷ rs) done x c e = ground (arith, pending-step rs done x c e, e)

release-count :
    (cs : List Name) (left : Name → ℕ) (queue : List Name) (c : Name)
    → (release cs left queue).0 c ≡ left c - count c cs
unfolding release count
release-count [] left queue c = ground arith
release-count (x ∷ cs) left queue c =
    ground (
      arith,
      release-count cs (decrement x left) (if left x == 1 then queue ++ x ∷ [] else queue) c,
    )

-- A node is queued when its last pending relationship goes.
release-queue :
    (cs : List Name) (left : Name → ℕ) (queue : List Name) (c : Name)
    → count c (release cs left queue).1
      ≡ count c queue + (if leb 1 (left c) && leb (left c) (count c cs) then 1 else 0)
unfolding release count
release-queue [] left queue c = ground arith
release-queue (x ∷ cs) left queue c = ground (
  arith,
  release-queue cs (decrement x left) (if left x == 1 then queue ++ x ∷ [] else queue) c,
  count-append c queue (x ∷ []),
)

-- The nodes of `known` stand in the graph, and each once.
pub record Nodes (known : List Name) (rs : List Relationship) : Type 0 where
  pub once : (c : Name) → count c known ≤ 1
  pub ends : All (λ r. (1 ≤ count r.parent_id known) × (1 ≤ count r.child_id known)) rs

pub pending-known :
    (known : List Name) (rs : List Relationship) (done : List Name) (c : Name)
    → All (λ r. (1 ≤ count r.parent_id known) × (1 ≤ count r.child_id known)) rs
    → 1 ≤ pending rs done c
    → 1 ≤ count c known
unfolding pending
pending-known known [] done c h k = ground arith
pending-known known (r ∷ rs) done c h k = ground (arith, pending-known known rs done c h.1, h.0, k)

-- Each node left the queue after all its parents, and once.
unfoldable pub Ordered : List Relationship → List Name → Type 0
unfolding pending count
Ordered rs [] = Unit
Ordered rs (x ∷ done) = (count x done ≡ 0) × (pending rs done x ≡ 0) × Ordered rs done

module _ (known : List Name) (rs : List Relationship) where
  unfoldable pub Settled : List Name → List Name → Type 0
  unfolding pending count
  Settled queue done =
      (c : Name)
      → count c done + count c queue ≡ (if pending rs done c == 0 then count c known else 0)

  pub record IsLoop (left : Name → ℕ) (queue done : List Name) : Type 0 where
    pub counts : (c : Name) → left c ≡ pending rs done c
    pub settled : Settled queue done
    pub ordered : Ordered rs done

  module _ (nodes : Nodes known rs) (left : Name → ℕ) (x : Name) (queue done : List Name) where
    head_fresh : Settled (x ∷ queue) done → (count x done ≡ 0) × (pending rs done x ≡ 0)
    unfolding Settled count
    head_fresh h = (ground (arith, h x, nodes.once x), ground (arith, h x))

    step-IsLoop :
        IsLoop left (x ∷ queue) done
        → IsLoop
            (release (children rs x) left queue).0
            (release (children rs x) left queue).1
            (x ∷ done)
    unfolding Settled Ordered count
    step-IsLoop h =
        let fresh = head_fresh h.settled in
        record {
          counts = λ c. ground (
            arith,
            release-count (children rs x) left queue c,
            h.counts c,
            pending-step rs done x c fresh.0,
          );
          settled = λ c. ground (
            arith,
            release-queue (children rs x) left queue c,
            h.counts c,
            h.settled c,
            pending-step rs done x c fresh.0,
            pending-known known rs done c nodes.ends,
            nodes.once c,
          );
          ordered = (fresh.0, fresh.1, h.ordered);
        }

  settled_within :
      (left : Name → ℕ) (queue done : List Name)
      → IsLoop left queue done
      → length done + length queue ≤ length known
  unfolding Settled
  settled_within left queue done h = omega (
    arith,
    length-append done queue,
    Within-length (done ++ queue) known
        (λ c. ground (arith, h.settled c, count-append c done queue)),
  )

  -- what the drain ends with, when its fuel is enough
  unfoldable pub Searched : Option (List Name) → Type 0
  Searched out =
      (visited : List Name) × (out ≡ some visited) × Settled [] visited × Ordered rs visited

  pub drain-Searched :
      (nodes : Nodes known rs) (fuel : ℕ) (left : Name → ℕ) (queue done : List Name)
      → IsLoop left queue done
      → length known ≤ length done + fuel
      → Searched (drain (children rs) fuel left queue done)
  unfolding drain Searched
  drain-Searched nodes fuel left [] done h k = (done, refl, h.settled, h.ordered)
  drain-Searched nodes zero left (x ∷ queue) done h k =
      ground (arith, settled_within left (x ∷ queue) done h)
  drain-Searched nodes (suc fuel) left (x ∷ queue) done h k =
      drain-Searched nodes fuel (release (children rs x) left queue).0
        (release (children rs x) left queue).1 (x ∷ done) (step-IsLoop nodes left x queue done h)
        (omega (arith, k))
