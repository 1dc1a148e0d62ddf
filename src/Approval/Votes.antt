-- ===== src/Approval/Votes.antt =====
-- What makes a request's votes count.
use compute_weaver.Base.{
  ◌≡◌, refl, Bool, true, false, not, ◌||◌, List, [], ◌∷◌, ◌++◌, arith, ◌==◌, Name, length, All,
  elem, All-append,
}
use compute_weaver.Base.Int.{pos, leb_ℤ}
use compute_weaver.Approval.{
  ApprovalStatus, approved, Vote, ApprovalRequest, is_below_minimum, add_vote, has_voted,
}

-- No actor has voted twice.
abbrev pub Distinct : List Vote → Type 0
Distinct [] = Unit
Distinct (v ∷ vs) = (has_voted v.actor vs ≡ false) × Distinct vs

abbrev pub NotBy : Name → Vote → Type 0
NotBy requester v = (v.actor == requester) ≡ false

abbrev pub HasRole : List Name → Vote → Type 0
HasRole roles v = elem v.role roles ≡ true

abbrev pub is_approved : ApprovalStatus → Bool
is_approved approved = true
is_approved _ = false

-- The votes are of distinct actors other than the requester, each with a required role; the
-- required count is not below the risk's minimum, and is reached if the request is approved.
pub record Sound (r : ApprovalRequest) : Type 0 where
  pub minimum : is_below_minimum r ≡ false
  pub distinct : Distinct r.approvals
  pub independent : All (NotBy r.requested_by) r.approvals
  pub roles : All (HasRole r.required_roles) r.approvals
  pub counted :
      (not (is_approved r.status) || leb_ℤ r.required_count (pos (length r.approvals))) ≡ true

has_voted-append :
    (actor : Name) (vs : List Vote) (v : Vote)
    → has_voted actor (vs ++ v ∷ []) ≡ (has_voted actor vs || (v.actor == actor))
has_voted-append actor [] v = ground arith
has_voted-append actor (w ∷ vs) v = ground (arith, has_voted-append actor vs v)

Distinct-append :
    (vs : List Vote) (v : Vote)
    → Distinct vs
    → has_voted v.actor vs ≡ false
    → Distinct (vs ++ v ∷ [])
Distinct-append [] v d h = (refl, tt)
Distinct-append (w ∷ vs) v d h = ground (arith, Distinct-append vs v, has_voted-append w.actor vs v)

pub add_vote-Sound :
    (v : Vote) (r : ApprovalRequest)
    → Sound r
    → has_voted v.actor r.approvals ≡ false
    → (v.actor == r.requested_by) ≡ false
    → elem v.role r.required_roles ≡ true
    → Sound (add_vote v r)
add_vote-Sound v r h fresh other role = record {
  minimum = h.minimum;
  distinct = Distinct-append r.approvals v h.distinct fresh;
  independent = All-append (NotBy r.requested_by) r.approvals v h.independent other;
  roles = All-append (HasRole r.required_roles) r.approvals v h.roles role;
  counted = ground arith;
}

-- A status other than approved asks nothing of the count.
pub set_status-Sound :
    (r : ApprovalRequest) (status : ApprovalStatus)
    → is_approved status ≡ false
    → Sound r
    → Sound (record r { status = status })
set_status-Sound r status e h = record {
  minimum = h.minimum;
  distinct = h.distinct;
  independent = h.independent;
  roles = h.roles;
  counted = ground arith;
}
