-- ===== src/Audit/Database.antt =====
-- packages/observability/audit.py: `_append_postgres` and `records` over the table `audit_records`,
-- whose rows stand in the order of their sequence numbers.
use compute_weaver.Base.{ℕ, List, [], ◌∷◌, ◌++◌, Name, ok, Method, Pool, tenant_transaction}
use compute_weaver.Audit.{Entry, AuditRecord, last_hash, of_tenant, new_record}

pub data Error : Type 0 where
  invalid_tenant : Error

module _ (digest : ℕ → Entry → Name → Name) where
  -- the block of the transaction, which holds the tenant's lock
  unfoldable pub append_row : ℕ → Entry → Method (List AuditRecord) Error AuditRecord
  append_row timestamp entry rows =
      let r = new_record digest timestamp entry (last_hash (of_tenant entry.tenant_id rows)) in
      (ok r, rows ++ r ∷ [])

  unfoldable pub append_postgres :
      Pool (List AuditRecord) → ℕ → Entry → Method (List AuditRecord) Error AuditRecord
  unfolding append_row
  append_postgres pool timestamp entry =
      tenant_transaction pool invalid_tenant entry.tenant_id (append_row timestamp entry)

  -- the table after a sequence of calls, each of which may raise
  unfoldable pub append_all :
      Pool (List AuditRecord) → List (ℕ × Entry) → List AuditRecord → List AuditRecord
  append_all pool [] rows = rows
  append_all pool ((now, entry) ∷ calls) rows =
      append_all pool calls (append_postgres pool now entry rows).1
