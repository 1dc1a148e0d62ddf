-- ===== src/Approval.antt =====
-- packages/approval/workflow.py: `ApprovalWorkflow` without a database runtime.
-- A frozenset is the sorted list of its members. A moment is a number of microseconds, with whether
-- the `datetime` knows its time zone: Python refuses to compare one that does with one that does not.
pub mod Votes
pub mod Soundness
pub mod Outcomes
pub mod Database
mod Tests
use compute_weaver.Base.{
  ℕ, Bool, true, false, not, ◌&&◌, ◌||◌, none, some, List, [], ◌∷◌, ◌++◌, ltb, leb, ◌==◌,
  if◌then◌else◌, Name, length, any, keep, find, sort_on, elem, Result, ok, err, Method, raise_if,
  ◌>>=◌, ◌>>◌,
}
use compute_weaver.Base.Int.{ℤ, pos, ltb_ℤ, leb_ℤ}
use compute_weaver.Risk.{RiskLevel, level, minimum_approvals}

pub data ApprovalStatus : Type 0 where
  pending approved rejected expired : ApprovalStatus

abbrev pub is_pending : ApprovalStatus → Bool
is_pending pending = true
is_pending _ = false

abbrev pub is_rejected : ApprovalStatus → Bool
is_rejected rejected = true
is_rejected _ = false

pub record Moment : Type 0 where
  pub at : ℕ
  pub aware : Bool

-- an element of `approvals`
pub record Vote : Type 0 where
  pub actor : Name
  pub role : Name

pub record ApprovalRequest : Type 0 where
  pub id : Name
  pub plan_id : Name
  pub tenant_id : Name
  pub risk : RiskLevel
  pub requested_by : Name
  pub expires_at : Moment
  pub required_roles : List Name
  pub required_count : ℤ
  pub approvals : List Vote
  pub status : ApprovalStatus

pub data Error : Type 0 where
  below_minimum roles_required id_taken unknown_id not_pending naive_moment approval_expired : Error
  own_request wrong_role not_modifiable not_requester weak_requirements naive_expiry : Error
  tenant_required invalid_tenant : Error

-- the workflow's `_requests`, in insertion order
abbrev pub Requests : Type 0
Requests = List ApprovalRequest

abbrev pub has_id : Name → ApprovalRequest → Bool
has_id id r = r.id == id

-- `self._requests[request.id] = request`
pub store_request : ApprovalRequest → Requests → Requests
store_request r [] = r ∷ []
store_request r (old ∷ rows) =
    let rest = store_request r rows in if has_id r.id old then r ∷ rows else old ∷ rest

abbrev pub same_names : List Name → List Name → Bool
same_names [] [] = true
same_names (x ∷ xs) (y ∷ ys) = (x == y) && same_names xs ys
same_names _ _ = false

abbrev pub same_votes : List Vote → List Vote → Bool
same_votes [] [] = true
same_votes (x ∷ xs) (y ∷ ys) = (x.actor == y.actor) && (x.role == y.role) && same_votes xs ys
same_votes _ _ = false

abbrev pub status_code : ApprovalStatus → ℕ
status_code pending = 0
status_code approved = 1
status_code rejected = 2
status_code expired = 3

abbrev pub same_ℤ : ℤ → ℤ → Bool
same_ℤ a b = leb_ℤ a b && leb_ℤ b a

abbrev pub same_moment : Moment → Moment → Bool
same_moment m n = (m.at == n.at) && (if m.aware then n.aware else not n.aware)

-- the requirements that both branches of `create` compare
abbrev pub same_requirements : ApprovalRequest → ApprovalRequest → Bool
same_requirements a b =
    (a.plan_id == b.plan_id)
    && (level a.risk == level b.risk)
    && (a.requested_by == b.requested_by)
    && same_moment a.expires_at b.expires_at
    && same_names a.required_roles b.required_roles
    && same_ℤ a.required_count b.required_count

-- `==` of the dataclass
pub same_request : ApprovalRequest → ApprovalRequest → Bool
same_request a b =
    (a.id == b.id)
    && (a.tenant_id == b.tenant_id)
    && same_requirements a b
    && same_votes a.approvals b.approvals
    && (status_code a.status == status_code b.status)

-- the two guards of `create`
abbrev pub is_below_minimum : ApprovalRequest → Bool
is_below_minimum r = ltb_ℤ r.required_count (pos (minimum_approvals r.risk))

abbrev pub lacks_roles : ℤ → List Name → Bool
lacks_roles count [] = ltb_ℤ (pos 0) count
lacks_roles count (_ ∷ _) = false

pub create_new : ApprovalRequest → Method Requests Error (Unit {0})
unfolding same_request store_request
create_new r rows = elim (find (has_id r.id) rows) [
  | some existing ↦ (if same_request existing r then ok tt else err id_taken, rows)
  | none ↦ (ok tt, store_request r rows)
]

pub create : ApprovalRequest → Method Requests Error (Unit {0})
unfolding create_new
create r = do
  raise_if (is_below_minimum r) below_minimum
  raise_if (lacks_roles r.required_count r.required_roles) roles_required
  create_new r

abbrev pub mixed : Moment → Moment → Bool
mixed m n = if m.aware then not n.aware else n.aware

-- `APPROVED if len(approvals) >= required_count else PENDING`
abbrev pub status_for : ℕ → ℤ → ApprovalStatus
status_for votes count = if leb_ℤ count (pos votes) then approved else pending

abbrev pub add_vote : Vote → ApprovalRequest → ApprovalRequest
add_vote v r =
    let approvals = r.approvals ++ v ∷ [] in
    record r { approvals = approvals; status = status_for (length approvals) r.required_count }

abbrev pub has_voted : Name → List Vote → Bool
has_voted actor votes = any (λ v. v.actor == actor) votes

-- past the lookup of `approve`
pub approve_request : ApprovalRequest → Vote → Moment → Method Requests Error ApprovalRequest
unfolding store_request
approve_request r v now rows =
    if not (is_pending r.status)
    then (err not_pending, rows)
    else if mixed now r.expires_at
    then (err naive_moment, rows)
    else if leb r.expires_at.at now.at
    then (err approval_expired, store_request (record r { status = expired }) rows)
    else if v.actor == r.requested_by
    then (err own_request, rows)
    else if not (elem v.role r.required_roles)
    then (err wrong_role, rows)
    else if has_voted v.actor r.approvals
    then (ok r, rows)
    else (ok (add_vote v r), store_request (add_vote v r) rows)

-- In memory the tenant is not read.
pub approve : Name → Vote → Moment → Method Requests Error ApprovalRequest
unfolding approve_request
approve id v now rows = elim (find (has_id id) rows) [
  | none ↦ (err unknown_id, rows)
  | some r ↦ approve_request r v now rows
]

pub reject : Name → Method Requests Error ApprovalRequest
unfolding store_request
reject id rows = elim (find (has_id id) rows) [
  | none ↦ (err unknown_id, rows)
  | some r ↦
      let r' = record r { status = rejected } in
      if is_rejected r.status
      then (ok r, rows)
      else if not (is_pending r.status)
      then (err not_pending, rows)
      else (ok r', store_request r' rows)
]

pub record Change : Type 0 where
  pub actor_id : Name
  pub expires_at : Moment
  pub required_roles : List Name
  pub required_count : ℤ

-- `required_count and not required_roles`
abbrev pub lacks_any_role : ℤ → List Name → Bool
lacks_any_role count [] = not (same_ℤ count (pos 0))
lacks_any_role count (_ ∷ _) = false

-- `_validate_modification`: what it raises, if anything
pub validate_modification : ApprovalStatus → Name → RiskLevel → Change → ℕ → Result Error (Unit {0})
validate_modification status requested_by risk c vote_count =
    if not (is_pending status) || ltb 0 vote_count
    then err not_modifiable
    else if not (c.actor_id == requested_by)
    then err not_requester
    else if ltb_ℤ c.required_count (pos (minimum_approvals risk))
        || lacks_any_role c.required_count c.required_roles
    then err weak_requirements
    else if not c.expires_at.aware
    then err naive_expiry
    else ok tt

abbrev pub change_request : Change → ApprovalRequest → ApprovalRequest
change_request c r = record r {
  expires_at = c.expires_at;
  required_roles = c.required_roles;
  required_count = c.required_count;
}

pub modify_request : Name → Change → Method Requests Error ApprovalRequest
unfolding validate_modification store_request
modify_request id c rows = elim (find (has_id id) rows) [
  | none ↦ (err unknown_id, rows)
  | some r ↦ elim (validate_modification r.status r.requested_by r.risk c (length r.approvals)) [
    | err e ↦ (err e, rows)
    | ok _ ↦ (ok (change_request c r), store_request (change_request c r) rows)
  ]
]

pub get : Name → Method Requests Error ApprovalRequest
get id rows = (elim (find (has_id id) rows) [ none ↦ err unknown_id | some r ↦ ok r ], rows)

pub list : Name → Requests → List ApprovalRequest
list tenant rows = sort_on (λ r. r.id) (keep (λ r. r.tenant_id == tenant) rows)
