-- ===== src/Approval/Tests.antt =====
-- A request of risk L3 by actor 1 that needs two votes of role 9, and expires at 100.
use compute_weaver.Base.{
  ℕ, ◌≡◌, refl, true, some, List, [], ◌∷◌, arith, Name, find, All, err, rollback,
}
use compute_weaver.Base.Int.{pos}
use compute_weaver.Risk.{l3}
use compute_weaver.Approval.{
  pending, approved, expired, Moment, Vote, ApprovalRequest, not_pending, approval_expired, has_id,
  store_request, create, approve,
}
use compute_weaver.Approval.Votes.{Sound}
use compute_weaver.Approval.Soundness.{
  Call, creating, approving, rejecting, after_all, requests-Sound,
}
use compute_weaver.Approval.Outcomes.{decision_final}
use compute_weaver.Approval.Database.{Tables, ApprovalRow, is_row, approve_row, approve_db}
use compute_weaver.Approval.Database.Expiry.{closed, late_vote_rolled_back}

abbrev at_time : ℕ → Moment
at_time t = record { at = t; aware = true }

abbrev asked : ApprovalRequest
asked = record {
  id = 5;
  plan_id = 6;
  tenant_id = 7;
  risk = l3;
  requested_by = 1;
  expires_at = at_time 100;
  required_roles = 9 ∷ [];
  required_count = pos 2;
  approvals = [];
  status = pending;
}

abbrev vote_of : Name → Vote
vote_of actor = record { actor = actor; role = 9 }

-- the requester's vote and a repeated vote do not count
abbrev script : List Call
script =
    creating asked
    ∷ approving 5 (vote_of 1) (at_time 10)
    ∷ approving 5 (vote_of 2) (at_time 11)
    ∷ approving 5 (vote_of 2) (at_time 12)
    ∷ approving 5 (vote_of 3) (at_time 13)
    ∷ []

abbrev granted : ApprovalRequest
granted = record asked { approvals = vote_of 2 ∷ vote_of 3 ∷ []; status = approved }

after_script : after_all script [] ≡ granted ∷ []
unfolding after_all create approve
after_script = refl

requests-Sound_example : All Sound (after_all script [])
requests-Sound_example = requests-Sound script

decision_final_example :
    find
      (has_id 5)
      (after_all (rejecting 5 ∷ approving 5 (vote_of 4) (at_time 200) ∷ []) (granted ∷ []))
    ≡ some granted
decision_final_example =
    decision_final 5 granted (rejecting 5 ∷ approving 5 (vote_of 4) (at_time 200) ∷ [])
      (granted ∷ []) refl refl

abbrev row : ApprovalRow
row = record { request = asked; version = 1 }

abbrev tables : Tables
tables = record { approvals = row ∷ []; votes = [] }

late_vote_rolled_back_example :
    let block = approve_row 5 (vote_of 2) (at_time 100) 7 tables in
    let t = (approve_db rollback 5 (vote_of 2) (at_time 100) (some 7) tables).1 in
    let memory = approve 5 (vote_of 2) (at_time 100) (asked ∷ []) in
    (block.0 ≡ err approval_expired)
    × (find (is_row 7 5) block.1.approvals ≡ some (closed row))
    × (approve_db rollback 5 (vote_of 2) (at_time 100) (some 7) tables
        ≡ (err approval_expired, tables))
    × ((approve_db rollback 5 (vote_of 3) (at_time 120) (some 7) t).0 ≡ err approval_expired)
    × (memory
        ≡ (err approval_expired, store_request (record asked { status = expired }) (asked ∷ [])))
    × ((approve 5 (vote_of 3) (at_time 120) memory.1).0 ≡ err not_pending)
late_vote_rolled_back_example =
    late_vote_rolled_back rollback 5 7 (vote_of 2) (vote_of 3) (at_time 100) (at_time 120) tables
      row (asked ∷ []) (omega arith) refl refl refl refl refl (omega arith) (omega arith)
