-- ===== src/Approval/Database.antt =====
-- packages/approval/workflow.py: `ApprovalWorkflow` over a database runtime, on the tables
-- `approvals` and `approval_votes`. Each method is one transaction; where a method then calls
-- `get`, that is another. Every stored vote has the decision "approved".
pub mod Expiry
use compute_weaver.Base.{
  ℕ, ◌+◌, Bool, not, ◌&&◌, Option, none, some, List, [], ◌∷◌, ◌++◌, map, leb, ◌==◌, if◌then◌else◌,
  Name, truthy, length, any, keep, find, sort_on, elem, ok, err, Method, pure, or_raise, raise_if,
  ◌>>=◌, ◌>>◌, Pool, transaction, tenant_transaction,
}
use compute_weaver.Base.Int.{}
use compute_weaver.Approval.{
  approved, rejected, expired, is_pending, is_rejected, Moment, Vote, ApprovalRequest, Error,
  below_minimum, roles_required, id_taken, unknown_id, not_pending, naive_moment, approval_expired,
  own_request, wrong_role, tenant_required, invalid_tenant, same_requirements, is_below_minimum,
  lacks_roles, mixed, status_for, Change, validate_modification, change_request,
}

-- A row of `approvals`: the request, whose `approvals` field stays empty, and its version.
pub record ApprovalRow : Type 0 where
  pub request : ApprovalRequest
  pub version : ℕ

-- a row of `approval_votes`
pub record VoteRow : Type 0 where
  pub approval_id : Name
  pub tenant_id : Name
  pub vote : Vote
  pub decided_at : ℕ

pub record Tables : Type 0 where
  pub approvals : List ApprovalRow
  pub votes : List VoteRow

-- `WHERE tenant_id = %s AND id = %s`
abbrev pub is_row : Name → Name → ApprovalRow → Bool
is_row tenant id row = (row.request.tenant_id == tenant) && (row.request.id == id)

-- `UPDATE approvals SET …, version = version + 1` on the rows that pass
pub update_rows :
    (ApprovalRow → Bool) → (ApprovalRequest → ApprovalRequest) → List ApprovalRow → List ApprovalRow
update_rows p f [] = []
update_rows p f (row ∷ rows) =
    let rest = update_rows p f rows in
    if p row
    then record { request = f row.request; version = row.version + 1 } ∷ rest
    else row ∷ rest

-- `WHERE tenant_id = %s AND approval_id = %s`
abbrev pub is_vote : Name → Name → VoteRow → Bool
is_vote tenant id row = (row.tenant_id == tenant) && (row.approval_id == id)

abbrev pub votes_of : Name → Name → Tables → List VoteRow
votes_of tenant id s = keep (is_vote tenant id) s.votes

-- `ORDER BY decided_at, actor_id`: two stable sorts
pub ordered_votes : Name → Name → Tables → List Vote
ordered_votes tenant id s =
    map (λ row. row.vote)
      (sort_on (λ row. row.decided_at) (sort_on (λ row. row.vote.actor) (votes_of tenant id s)))

abbrev pub with_votes : Name → Name → Tables → ApprovalRequest → ApprovalRequest
with_votes tenant id s r = record r { approvals = ordered_votes tenant id s }

pub create_row : ApprovalRequest → Method Tables Error (Unit {0})
create_row r s = elim (find (is_row r.tenant_id r.id) s.approvals) [
  | some existing ↦ (if same_requirements existing.request r then ok tt else err id_taken, s)
  | none ↦ (
    ok tt,
    record s {
      approvals = record { request = record r { approvals = [] }; version = 1 } ∷ s.approvals;
    },
  )
]

-- `with self._runtime.tenant_connection(tenant_id) …` behind `if not tenant_id: raise`
module _ (pool : Pool Tables) where
  pub create_db : ApprovalRequest → Method Tables Error (Unit {0})
  unfolding create_row
  create_db r = do
    raise_if (is_below_minimum r) below_minimum
    raise_if (lacks_roles r.required_count r.required_roles) roles_required
    tenant_transaction pool invalid_tenant r.tenant_id (create_row r)

  abbrev pub in_tenant :
      {A : Type 0} → Option Name → (Name → Method Tables Error A) → Method Tables Error A
  in_tenant tenant m = do
    t ← or_raise (truthy tenant) tenant_required
    tenant_transaction pool invalid_tenant t (m t)

-- `INSERT INTO approval_votes`, and the update of the status that the count of votes gives
pub record_vote : Name → ApprovalRow → Vote → Moment → Tables → Tables
unfolding update_rows
record_vote tenant row v now s =
    let id = row.request.id in
    let votes =
      s.votes
      ++ record { approval_id = id; tenant_id = tenant; vote = v; decided_at = now.at } ∷ [] in
    let count = length (keep (is_vote tenant id) votes) in
    record {
      approvals =
          update_rows (is_row tenant id)
            (λ r. record r { status = status_for count row.request.required_count }) s.approvals;
      votes = votes;
    }

-- The block of `approve`: the request to return at once (a vote that was there), or `none` when the
-- vote has been recorded and `get` follows.
pub approve_row : Name → Vote → Moment → Name → Method Tables Error (Option ApprovalRequest)
unfolding update_rows record_vote ordered_votes
approve_row id v now tenant s = elim (find (is_row tenant id) s.approvals) [
  | none ↦ (err unknown_id, s)
  | some row ↦
      let r = row.request in
      if not (is_pending r.status)
      then (err not_pending, s)
      else if mixed now r.expires_at
      then (err naive_moment, s)
      else if leb r.expires_at.at now.at
      then (
        err approval_expired,
        record s {
          approvals =
              update_rows (is_row tenant id) (λ q. record q { status = expired }) s.approvals;
        },
      )
      else if v.actor == r.requested_by
      then (err own_request, s)
      else if not (elem v.role r.required_roles)
      then (err wrong_role, s)
      else if any (λ w. w.vote.actor == v.actor) (votes_of tenant id s)
      then (ok (some (with_votes tenant id s r)), s)
      else (ok none, record_vote tenant row v now s)
]

pub get_row : Name → Name → Method Tables Error ApprovalRequest
unfolding ordered_votes
get_row id tenant s = (
  elim (find (is_row tenant id) s.approvals) [
    | none ↦ err unknown_id
    | some row ↦ ok (with_votes tenant id s row.request)
  ],
  s,
)

-- `UPDATE … AND status = 'pending' RETURNING id`, and what is read when no row came back
pub reject_row : Name → Name → Method Tables Error (Unit {0})
unfolding update_rows
reject_row id tenant s =
    elim (find (λ row. is_row tenant id row && is_pending row.request.status) s.approvals) [
      | some row ↦ (
        ok tt,
        record s {
          approvals =
              update_rows (λ row. is_row tenant id row && is_pending row.request.status)
                (λ q. record q { status = rejected }) s.approvals;
        },
      )
      | none ↦ elim (find (is_row tenant id) s.approvals) [
        | none ↦ (err unknown_id, s)
        | some existing ↦
            (if is_rejected existing.request.status then ok tt else err not_pending, s)
      ]
    ]

pub modify_row : Name → Change → Name → Method Tables Error (Unit {0})
unfolding update_rows
modify_row id c tenant s = elim (find (is_row tenant id) s.approvals) [
  | none ↦ (err unknown_id, s)
  | some row ↦
      elim (validate_modification row.request.status row.request.requested_by row.request.risk c
        (length (votes_of tenant id s))) [
          | err e ↦ (err e, s)
          | ok _ ↦ (
            ok tt,
            record s { approvals = update_rows (is_row tenant id) (change_request c) s.approvals },
          )
        ]
]

module _ (pool : Pool Tables) where
  pub get_db : Name → Option Name → Method Tables Error ApprovalRequest
  unfolding get_row
  get_db id tenant = in_tenant pool tenant (get_row id)

  pub approve_db : Name → Vote → Moment → Option Name → Method Tables Error ApprovalRequest
  unfolding approve_row get_db
  approve_db id v now tenant = do
    done ← in_tenant pool tenant (approve_row id v now)
    elim done [ some r ↦ pure r | none ↦ get_db id tenant ]

  pub reject_db : Name → Option Name → Method Tables Error ApprovalRequest
  unfolding reject_row get_db
  reject_db id tenant = do in_tenant pool tenant (reject_row id); get_db id tenant

  pub modify_db : Name → Change → Option Name → Method Tables Error ApprovalRequest
  unfolding modify_row get_db
  modify_db id c tenant = do in_tenant pool tenant (modify_row id c); get_db id tenant
