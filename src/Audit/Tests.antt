-- ===== src/Audit/Tests.antt =====
-- Two tenants in one log. The digest here packs the fields that vary into one number.
use compute_weaver.Base.{ℕ, ◌+◌, ◌*◌, ◌≡◌, refl, true, false, List, [], ◌∷◌, arith, Name, rollback}
use compute_weaver.Audit.{Entry, AuditRecord, genesis, new_record, append, verify, verify_tenant}
use compute_weaver.Audit.Chains.{append_all, verify-append_all}
use compute_weaver.Audit.Database
use compute_weaver.Audit.Tampering.{verify_fixes_records}
use compute_weaver.Audit.Tenants.{verify_tenant_refuses, verify_tenant-append_all}

abbrev entry_of : Name → Name → Entry
entry_of tenant action = record {
  actor_id = 1;
  tenant_id = tenant;
  action = action;
  resource = 1;
  outcome = 1;
  correlation_id = 1;
}

abbrev digest : ℕ → Entry → Name → Name
digest now entry previous = 2 + now + 10 * entry.tenant_id + 100 * entry.action + 1000 * previous

abbrev calls : List (ℕ × Entry)
calls = (1, entry_of 5 7) ∷ (2, entry_of 6 7) ∷ (3, entry_of 5 8) ∷ []

verify-append_all_example : verify digest (append_all digest calls []) ≡ true
verify-append_all_example = verify-append_all digest calls

verify_tenant-append_all_example :
    verify_tenant digest 6 (Database.append_all digest rollback calls []) ≡ true
verify_tenant-append_all_example = verify_tenant-append_all digest rollback 6 calls

verify_tenant_refuses_example :
    let log = (append digest 1 (entry_of 5 7) []).1 in
    verify_tenant digest 6 (append digest 2 (entry_of 6 7) log).1 ≡ false
verify_tenant_refuses_example =
    verify_tenant_refuses digest 2 (entry_of 6 7) (append digest 1 (entry_of 5 7) []).1
      (unfold append in refl) (unfold append in omega arith)

abbrev log : List AuditRecord
log = new_record digest 1 (entry_of 5 7) genesis ∷ []

verify_fixes_records_example : log ≡ log
verify_fixes_records_example =
    verify_fixes_records digest log log refl (λ _. (refl, refl, refl), tt) refl
      (unfold verify new_record in refl) (unfold verify new_record in refl)
