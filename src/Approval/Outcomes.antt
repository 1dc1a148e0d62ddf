-- ===== src/Approval/Outcomes.antt =====
-- A decision is final.
use compute_weaver.Base.{
  ◌≡◌, refl, sym, inl, inr, true, false, some, List, [], ◌∷◌, arith, ◌==◌, if◌then◌else◌, Name,
  Bool-cases, Option-cases, ==→eq, find,
}
use mathlib.Core.Path.{subst}
use compute_weaver.Approval.Soundness.{
  Call, creating, approving, rejecting, modifying, fresh, after, after_all,
}
use compute_weaver.Approval.{
  is_pending, ApprovalRequest, Requests, has_id, store_request, create, reject, modify_request,
  approve, Change, Vote, rejected, Moment, change_request, expired, add_vote,
}

pub find-store_request :
    (id : Name) (r : ApprovalRequest) (rows : Requests)
    → find (has_id id) (store_request r rows)
      ≡ (if r.id == id then some r else find (has_id id) rows)
unfolding store_request
find-store_request id r [] = refl
find-store_request id r (old ∷ rows) = ground (arith, find-store_request id r rows)

pub find-has_id :
    (id : Name) (rows : Requests) (r : ApprovalRequest)
    → find (has_id id) rows ≡ some r
    → (r.id == id) ≡ true
find-has_id id [] r e = cc
find-has_id id (old ∷ rows) r e = ground (arith, find-has_id id rows r)

-- A request that is no longer pending keeps every field, whatever is called.
module _ (id : Name) (r : ApprovalRequest) (settled : is_pending r.status ≡ false) where
  create_settled :
      (q : ApprovalRequest) (rows : Requests)
      → find (has_id id) rows ≡ some r
      → find (has_id id) (create q rows).1 ≡ some r
  unfolding create
  create_settled q rows e = ground (arith, find-store_request id q rows, eq_id q)
    where
      eq_id : (q : ApprovalRequest) → (q.id == id) ≡ true → find (has_id q.id) rows ≡ some r
      eq_id q h = subst (λ k. find (has_id k) rows ≡ some r) (sym (==→eq q.id id h)) e

  same_request_found :
      (id' : Name) (r' : ApprovalRequest) (rows : Requests)
      → find (has_id id) rows ≡ some r
      → find (has_id id') rows ≡ some r'
      → (r'.id == id) ≡ true
      → r ≡ r'
  same_request_found id' r' rows e e' h =
      let p : id' ≡ id =
        omega (arith, ==→eq r'.id id' (find-has_id id' rows r' e'), ==→eq r'.id id h) in
      let q : find (has_id id) rows ≡ some r' = subst (λ k. find (has_id k) rows ≡ some r') p e' in
      cc

  -- a pending request is another one, and so is what replaces it
  write_settled :
      (id' : Name) (r' r'' : ApprovalRequest) (rows : Requests)
      → find (has_id id) rows ≡ some r
      → find (has_id id') rows ≡ some r'
      → r''.id ≡ r'.id
      → is_pending r'.status ≡ true
      → find (has_id id) (store_request r'' rows) ≡ some r
  write_settled id' r' r'' rows e e' same p = elim (Bool-cases (r'.id == id)) [
    | inl h ↦ ground (arith, settled, same_request_found id' r' rows e e' h)
    | inr h ↦ ground (arith, find-store_request id r'' rows)
  ]

  approve_settled :
      (id' : Name) (v : Vote) (now : Moment) (rows : Requests)
      → find (has_id id) rows ≡ some r
      → find (has_id id) (approve id' v now rows).1 ≡ some r
  unfolding approve
  approve_settled id' v now rows e = elim (Option-cases (find (has_id id') rows)) [
    | inl e' ↦ ground arith
    | inr (r', e') ↦ ground (
      arith,
      write_settled id' r' (record r' { status = expired }) rows e e',
      write_settled id' r' (add_vote v r') rows e e',
    )
  ]

  reject_settled :
      (id' : Name) (rows : Requests)
      → find (has_id id) rows ≡ some r
      → find (has_id id) (reject id' rows).1 ≡ some r
  unfolding reject
  reject_settled id' rows e = elim (Option-cases (find (has_id id') rows)) [
    | inl e' ↦ ground arith
    | inr (r', e') ↦
        ground (arith, write_settled id' r' (record r' { status = rejected }) rows e e')
  ]

  modify_settled :
      (id' : Name) (c : Change) (rows : Requests)
      → find (has_id id) rows ≡ some r
      → find (has_id id) (modify_request id' c rows).1 ≡ some r
  unfolding modify_request
  modify_settled id' c rows e = elim (Option-cases (find (has_id id') rows)) [
    | inl e' ↦ ground arith
    | inr (r', e') ↦ ground (arith, write_settled id' r' (change_request c r') rows e e')
  ]

  after_settled :
      (c : Call) (rows : Requests)
      → find (has_id id) rows ≡ some r
      → find (has_id id) (after c rows) ≡ some r
  unfolding after
  after_settled (creating q) rows e = create_settled (fresh q) rows e
  after_settled (approving id' v now) rows e = approve_settled id' v now rows e
  after_settled (rejecting id') rows e = reject_settled id' rows e
  after_settled (modifying id' c) rows e = modify_settled id' c rows e

-- A request that is approved, rejected or expired stays as it is, in every field, after any further
-- calls on any requests.
pub decision_final :
    (id : Name) (r : ApprovalRequest) (cs : List Call) (rows : Requests)
    → is_pending r.status ≡ false
    → find (has_id id) rows ≡ some r
    → find (has_id id) (after_all cs rows) ≡ some r
unfolding after_all
decision_final id r [] rows settled e = e
decision_final id r (c ∷ cs) rows settled e =
    decision_final id r cs (after c rows) settled (after_settled id r settled c rows e)
