-- ===== src/Topology/Descendants/Reach.antt =====
-- `descendants` of packages/topology/validation.py finds what can be reached.
use mathlib.Core.Path.{subst}
use compute_weaver.Topology.Descendants.{walk_down, descendants}
use compute_weaver.Base.{
  ℕ, zero, suc, ◌+◌, ◌≤◌, ◌≡◌, refl, ◌↔◌, inl, inr, true, false, ◌||◌, some, List, [], ◌∷◌, ◌++◌,
  arith, ◌==◌, if◌then◌else◌, Name, Bool-cases, ==→eq, length, All, elem, length-append,
  elem-append, All-concat, ok,
}
use compute_weaver.Topology.{Asset, Relationship, ids, by_id, children}
use compute_weaver.Topology.Boundaries.{Related, IsSound}

-- `x` lies below `root`, one relationship or more
pub data Below (rs : List Relationship) (root : Name) : Name → Type 0 where
  child : (x : Name) → elem x (children rs root) ≡ true → Below rs root x
  further : (x y : Name) → Below rs root x → elem y (children rs x) ≡ true → Below rs root y

-- the relationships whose parent is not seen yet
unseen : List Relationship → List Name → ℕ
unseen [] seen = 0
unseen (r ∷ rs) seen = let rest = unseen rs seen in if elem r.parent_id seen then rest else rest + 1

unseen-step :
    (rs : List Relationship) (seen : List Name) (x : Name)
    → elem x seen ≡ false
    → unseen rs (x ∷ seen) + length (children rs x) ≡ unseen rs seen
unfolding unseen children
unseen-step [] seen x e = refl
unseen-step (r ∷ rs) seen x e = ground (arith, unseen-step rs seen x e, e)

unseen-none : (rs : List Relationship) → unseen rs [] ≡ length rs
unfolding unseen
unseen-none [] = refl
unseen-none (r ∷ rs) = ground (arith, unseen-none rs)

children_le : (rs : List Relationship) (x : Name) → length (children rs x) ≤ length rs
unfolding children
children_le [] x = omega arith
children_le (r ∷ rs) x = ground (arith, children_le rs x)

by_id-id : (assets : List Asset) (x : Name) (a : Asset) → by_id assets x ≡ some a → a.id ≡ x
unfolding by_id
by_id-id [] x a e = cc
by_id-id (b ∷ assets) x a e = elim (Bool-cases (b.id == x)) [
  | inl t ↦ ground (arith, ==→eq b.id x t)
  | inr f ↦ by_id-id assets x a (ground arith)
]

-- Every child has an asset.
known_children :
    (assets : List Asset) (rs : List Relationship) (x : Name)
    → All (Related assets) rs
    → All (λ y. (a : Asset) × (by_id assets y ≡ some a)) (children rs x)
unfolding children Related
known_children assets [] x h = tt
known_children assets (r ∷ rs) x ((parent, below, p, c, t), more) =
    let rest = known_children assets rs x more in
    elim (Bool-cases (r.parent_id == x)) [ inl q ↦ rw q ((below, c), rest) | inr q ↦ rw q rest ]

ids-append :
    (x : Name) (output : List Asset) (a : Asset)
    → elem x (ids (output ++ a ∷ [])) ≡ (elem x (ids output) || (x == a.id))
ids-append x [] a = ground arith
ids-append x (b ∷ output) a = ground (arith, ids-append x output a)

module _ (assets : List Asset) (rs : List Relationship) (root : Name) where
  -- what holds in the loop
  record IsWalk (queue seen : List Name) (output : List Asset) : Type 0 where
    below : (x : Name) → (elem x seen || elem x queue) ≡ true → Below rs root x
    closed :
        (x y : Name)
        → elem x seen ≡ true
        → elem y (children rs x) ≡ true
        → (elem y seen || elem y queue) ≡ true
    started : (y : Name) → elem y (children rs root) ≡ true → (elem y seen || elem y queue) ≡ true
    written : (x : Name) → elem x (ids output) ≡ elem x seen

  -- what the loop returns
  abbrev Found : List Asset → Type 0
  Found output = (x : Name) → (elem x (ids output) ≡ true) ↔ Below rs root x

  all_seen :
      (seen : List Name) (output : List Asset)
      → IsWalk [] seen output
      → (x : Name) → Below rs root x
      → elem x seen ≡ true
  all_seen seen output h _ (child x e) = ground (arith, h.started x e)
  all_seen seen output h _ (further x y b e) =
      ground (arith, h.closed x y (all_seen seen output h x b) e)

  skip-IsWalk :
      (item : Name) (queue seen : List Name) (output : List Asset)
      → elem item seen ≡ true
      → IsWalk (item ∷ queue) seen output
      → IsWalk queue seen output
  skip-IsWalk item queue seen output e h = record {
    below = λ x k. h.below x (ground (arith, k));
    closed = λ x y k l. ground (arith, h.closed x y k l, e);
    started = λ y l. ground (arith, h.started y l, e);
    written = h.written;
  }

  visit-IsWalk :
      (item : Name) (queue seen : List Name) (output : List Asset) (a : Asset)
      → a.id ≡ item
      → IsWalk (item ∷ queue) seen output
      → IsWalk (queue ++ children rs item) (item ∷ seen) (output ++ a ∷ [])
  visit-IsWalk item queue seen output a e h = record {
    below = λ x k. elim (Bool-cases (elem x seen || elem x (item ∷ queue))) [
      | inl t ↦ h.below x t
      | inr f ↦
          further item x (h.below item (ground arith))
            (ground (arith, f, k, elem-append x queue (children rs item)))
    ];
    closed = λ x y k l. elim (Bool-cases (x == item)) [
      | inl t ↦
          let here : elem y (children rs item) ≡ true =
            subst (λ z. elem y (children rs z) ≡ true) (==→eq x item t) l in
          ground (arith, here, elem-append y queue (children rs item))
      | inr f ↦
          ground
            (arith, h.closed x y (ground (arith, k, f)) l, elem-append y queue (children rs item))
    ];
    started = λ y l. ground (arith, h.started y l, elem-append y queue (children rs item));
    written = λ x. ground (arith, ids-append x output a, h.written x, e);
  }

  walk_down-finds :
      (related : All (Related assets) rs) (fuel : ℕ) (queue seen : List Name) (output : List Asset)
      → IsWalk queue seen output
      → All (λ x. (a : Asset) × (by_id assets x ≡ some a)) queue
      → length queue + unseen rs seen ≤ fuel
      → (found : List Asset) × (walk_down assets rs fuel queue seen output ≡ ok found) × Found found
  unfolding walk_down
  walk_down-finds related fuel [] seen output h known enough = (
    output,
    refl,
    λ x. (
      λ e. h.below x (ground (arith, h.written x, e)),
      λ b. ground (arith, h.written x, all_seen seen output h x b),
    ),
  )
  walk_down-finds related zero (item ∷ queue) seen output h known enough =
      absurd (omega (arith, enough))
  walk_down-finds related (suc fuel) (item ∷ queue) seen output h known enough =
      elim (Bool-cases (elem item seen)) [
        | inl t ↦
            rw (t, walk_down)
              (walk_down-finds related fuel queue seen output
                (skip-IsWalk item queue seen output t h) known.1 (omega (arith, enough)))
        | inr f ↦
            let (a, e) = known.0 in
            rw (f, e, walk_down)
              (walk_down-finds related fuel (queue ++ children rs item) (item ∷ seen)
                (output ++ a ∷ [])
                (visit-IsWalk item queue seen output a (by_id-id assets item a e) h)
                (All-concat (λ x. (b : Asset) × (by_id assets x ≡ some b)) queue (children rs item)
                  known.1 (known_children assets rs item related))
                (omega (
                  arith,
                  enough,
                  unseen-step rs seen item f,
                  length-append queue (children rs item),
                )))
      ]

-- In a topology that is accepted, `descendants` returns for every asset, after at most twice as many
-- rounds as there are relationships: the assets that it returns are exactly those that lie below the
-- root, over one relationship or more.
pub descendants-reach :
    (assets : List Asset) (rs : List Relationship) (root : Name) (top : Asset)
    → IsSound assets rs
    → by_id assets root ≡ some top
    → (found : List Asset) × (descendants assets rs root ≡ ok found)
      × ((x : Name) → (elem x (ids found) ≡ true) ↔ Below rs root x)
unfolding descendants
descendants-reach assets rs root top sound e =
    let start : IsWalk assets rs root (children rs root) [] [] = record {
      below = λ x k. child x (ground (arith, k));
      closed = λ x y k l. ground (arith, k);
      started = λ y l. ground (arith, l);
      written = λ x. refl;
    } in
    rw (e, descendants)
      (walk_down-finds assets rs root sound.related (length rs + length rs) (children rs root) [] []
        start (known_children assets rs root sound.related)
        (omega (arith, children_le rs root, unseen-none rs)))
