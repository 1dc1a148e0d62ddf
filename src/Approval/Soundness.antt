-- ===== src/Approval/Soundness.antt =====
-- Every request of the workflow stays sound.
use compute_weaver.Base.{
  ◌≡◌, refl, inl, inr, false, List, [], ◌∷◌, arith, Name, Bool-cases, Option-cases, length, find,
  All, All-find, ok,
}
use compute_weaver.Approval.{
  pending, expired, Moment, Vote, ApprovalRequest, Requests, has_id, store_request, add_vote,
  approve_request, Change, validate_modification, change_request, create, reject, modify_request,
  is_below_minimum, approve, rejected,
}
use compute_weaver.Approval.Votes.{Sound, add_vote-Sound, set_status-Sound}

store-Sound :
    (r : ApprovalRequest) (rows : Requests)
    → Sound r
    → All Sound rows
    → All Sound (store_request r rows)
unfolding store_request
store-Sound r [] s h = (s, tt)
store-Sound r (old ∷ rows) s h = elim (Bool-cases (has_id r.id old)) [
  | inl e ↦ rw e (s, h.1)
  | inr e ↦ rw e (h.0, store-Sound r rows s h.1)
]

approve_request-Sound :
    (r : ApprovalRequest) (v : Vote) (now : Moment) (rows : Requests)
    → Sound r
    → All Sound rows
    → All Sound (approve_request r v now rows).1
unfolding approve_request
approve_request-Sound r v now rows s h = ground (
  arith,
  store-Sound (record r { status = expired }) rows (set_status-Sound r expired refl s) h,
  store-Sound (add_vote v r) rows,
  add_vote-Sound v r s,
)

-- Only a request with no votes is modified, and not below its risk's minimum.
change-Sound :
    (r : ApprovalRequest) (c : Change)
    → validate_modification r.status r.requested_by r.risk c (length r.approvals) ≡ ok tt
    → Sound (change_request c r)
unfolding validate_modification
change-Sound r c e =
    let unvoted : r.approvals ≡ [] = ground arith in
    record {
      minimum = ground arith;
      distinct = rw unvoted tt;
      independent = rw unvoted tt;
      roles = rw unvoted tt;
      counted = ground arith;
    }

-- what the API hands to `create`: a request with no votes, pending
abbrev pub fresh : ApprovalRequest → ApprovalRequest
fresh r = record r { approvals = []; status = pending }

fresh-Sound : (r : ApprovalRequest) → is_below_minimum r ≡ false → Sound (fresh r)
fresh-Sound r e = record {
  minimum = e;
  distinct = tt;
  independent = tt;
  roles = tt;
  counted = refl;
}

create-Sound :
    (r : ApprovalRequest) (rows : Requests) → All Sound rows → All Sound (create (fresh r) rows).1
unfolding create
create-Sound r rows h = elim (Bool-cases (is_below_minimum r)) [
  | inl e ↦ rw e h
  | inr e ↦ ground (arith, store-Sound (fresh r) rows (fresh-Sound r e) h)
]

approve-Sound :
    (id : Name) (v : Vote) (now : Moment) (rows : Requests)
    → All Sound rows
    → All Sound (approve id v now rows).1
unfolding approve
approve-Sound id v now rows h = elim (Option-cases (find (has_id id) rows)) [
  | inl e ↦ rw (e, approve) h
  | inr (r, e) ↦
      rw (e, approve) (approve_request-Sound r v now rows (All-find Sound (has_id id) rows r h e) h)
]

reject-Sound : (id : Name) (rows : Requests) → All Sound rows → All Sound (reject id rows).1
unfolding reject
reject-Sound id rows h = elim (Option-cases (find (has_id id) rows)) [
  | inl e ↦ rw (e, reject) h
  | inr (r, e) ↦ ground (
    arith,
    store-Sound (record r { status = rejected }) rows
        (set_status-Sound r rejected refl (All-find Sound (has_id id) rows r h e)) h,
  )
]

modify-Sound :
    (id : Name) (c : Change) (rows : Requests)
    → All Sound rows
    → All Sound (modify_request id c rows).1
unfolding modify_request
modify-Sound id c rows h = elim (Option-cases (find (has_id id) rows)) [
  | inl e ↦ rw (e, modify_request) h
  | inr (r, e) ↦ ground (arith, store-Sound (change_request c r) rows, change-Sound r c)
]

pub data Call : Type 0 where
  creating : ApprovalRequest → Call
  approving : Name → Vote → Moment → Call
  rejecting : Name → Call
  modifying : Name → Change → Call

unfoldable pub after : Call → Requests → Requests
after (creating r) rows = (create (fresh r) rows).1
after (approving id v now) rows = (approve id v now rows).1
after (rejecting id) rows = (reject id rows).1
after (modifying id c) rows = (modify_request id c rows).1

unfoldable pub after_all : List Call → Requests → Requests
unfolding after
after_all [] rows = rows
after_all (c ∷ cs) rows = after_all cs (after c rows)

after-Sound : (c : Call) (rows : Requests) → All Sound rows → All Sound (after c rows)
unfolding after
after-Sound (creating r) rows h = create-Sound r rows h
after-Sound (approving id v now) rows h = approve-Sound id v now rows h
after-Sound (rejecting id) rows h = reject-Sound id rows h
after-Sound (modifying id c) rows h = modify-Sound id c rows h

after_all-Sound :
    (cs : List Call) (rows : Requests) → All Sound rows → All Sound (after_all cs rows)
unfolding after_all
after_all-Sound [] rows h = h
after_all-Sound (c ∷ cs) rows h = after_all-Sound cs (after c rows) (after-Sound c rows h)

-- Whatever is created (with no votes, pending), approved, rejected and modified, from no requests
-- and whether the calls raise or not: the votes of every request are by distinct actors other than
-- its requester, each with a role that it requires; its required count is not below the minimum of
-- its risk; and if it is approved, it has at least that many votes.
pub requests-Sound : (cs : List Call) → All Sound (after_all cs [])
requests-Sound cs = after_all-Sound cs [] tt
