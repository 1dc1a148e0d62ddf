-- ===== src/Approval/Database/Expiry.antt =====
-- What is left of a raise inside a transaction.
use compute_weaver.Base.{
  ◌+◌, ◌≤◌, ◌<◌, ◌≡◌, false, some, List, [], ◌∷◌, arith, Name, find, err, Pool,
}
use compute_weaver.Approval.{
  pending, expired, Moment, Vote, not_pending, approval_expired, Requests, has_id, store_request,
  mixed, approve,
}
use compute_weaver.Approval.Outcomes.{find-store_request, find-has_id}
use compute_weaver.Approval.Database.{
  ApprovalRow, Tables, is_row, update_rows, approve_row, approve_db,
}

-- the row whose request has expired, as the UPDATE writes it
abbrev pub closed : ApprovalRow → ApprovalRow
closed row = record { request = record row.request { status = expired }; version = row.version + 1 }

find-expired :
    (tenant id : Name) (rows : List ApprovalRow) (row : ApprovalRow)
    → find (is_row tenant id) rows ≡ some row
    → find
        (is_row tenant id)
        (update_rows (is_row tenant id) (λ q. record q { status = expired }) rows)
      ≡ some (closed row)
unfolding update_rows
find-expired tenant id [] row e = ground arith
find-expired tenant id (x ∷ rows) row e = ground (arith, find-expired tenant id rows row)

-- A vote on a pending request whose expiry has come raises, over the database and in memory. The
-- database's block writes the status "expired" and the next version into the row before it raises, and
-- the rollback takes both back: the tables are as they were, so another vote after the expiry raises
-- for the expiry again. In memory the request is stored as expired, and another vote raises because
-- the request is not pending.
pub late_vote_rolled_back :
    (pool : Pool Tables) (id tenant : Name) (v w : Vote) (now later : Moment) (s : Tables)
    (row : ApprovalRow) (rows : Requests)
    → 0 < tenant
    → find (is_row tenant id) s.approvals ≡ some row
    → find (has_id id) rows ≡ some row.request
    → row.request.status ≡ pending
    → mixed now row.request.expires_at ≡ false
    → mixed later row.request.expires_at ≡ false
    → row.request.expires_at.at ≤ now.at
    → now.at ≤ later.at
    → let block = approve_row id v now tenant s in
      let t = (approve_db pool id v now (some tenant) s).1 in
      let memory = approve id v now rows in
      (block.0 ≡ err approval_expired)
      × (find (is_row tenant id) block.1.approvals ≡ some (closed row))
      × (approve_db pool id v now (some tenant) s ≡ (err approval_expired, s))
      × ((approve_db pool id w later (some tenant) t).0 ≡ err approval_expired)
      × (memory
          ≡ (err approval_expired, store_request (record row.request { status = expired }) rows))
      × ((approve id w later memory.1).0 ≡ err not_pending)
unfolding approve_row approve_db approve
late_vote_rolled_back pool id tenant v w now later s row rows named e e' p m m' late after = (
  ground arith,
  ground (arith, find-expired tenant id s.approvals row e),
  ground (arith, pool.abort_rolls_back s (approve_row id v now tenant s).1),
  ground (
    arith,
    pool.abort_rolls_back s (approve_row id v now tenant s).1,
    pool.abort_rolls_back s (approve_row id w later tenant s).1,
  ),
  ground arith,
  ground (
    arith,
    find-has_id id rows row.request e',
    find-store_request id (record row.request { status = expired }) rows,
  ),
)
