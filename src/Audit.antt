-- ===== src/Audit.antt =====
-- packages/observability/audit.py: `AuditLog`, a chain of records in which each holds the hash of
-- the one before it.
pub mod Database
pub mod Chains
pub mod Tampering
pub mod Tenants
mod Tests
use compute_weaver.Base.{ℕ, Bool, true, ◌&&◌, List, [], ◌∷◌, ◌++◌, ◌==◌, Name, keep}

-- what a caller gives to `append`
pub record Entry : Type 0 where
  pub actor_id : Name
  pub tenant_id : Name
  pub action : Name
  pub resource : Name
  pub outcome : Name
  pub correlation_id : Name

pub record AuditRecord : Type 0 where
  pub timestamp : ℕ
  pub entry : Entry
  pub previous_hash : Name
  pub record_hash : Name

-- the text "GENESIS"
abbrev pub genesis : Name
genesis = 1

-- `self._records[-1].record_hash if self._records else "GENESIS"`
pub last_hash : List AuditRecord → Name
last_hash [] = genesis
last_hash (r ∷ []) = r.record_hash
last_hash (r ∷ r' ∷ rs) = last_hash (r' ∷ rs)

-- `records` of one tenant, in memory
abbrev pub of_tenant : Name → List AuditRecord → List AuditRecord
of_tenant tenant records = keep (λ r. r.entry.tenant_id == tenant) records

-- `digest` is SHA-256 over the canonical JSON text of a record without its own hash.
module _ (digest : ℕ → Entry → Name → Name) where
  pub new_record : ℕ → Entry → Name → AuditRecord
  new_record timestamp entry previous = record {
    timestamp = timestamp;
    entry = entry;
    previous_hash = previous;
    record_hash = digest timestamp entry previous;
  }

  -- `append` without a runtime
  pub append : ℕ → Entry → List AuditRecord → AuditRecord × List AuditRecord
  unfolding new_record last_hash
  append now entry records =
      let r = new_record now entry (last_hash records) in (r, records ++ r ∷ [])

  -- the loop of `verify` and of `verify_tenant`, from the hash of the record before
  pub verify_from : Name → List AuditRecord → Bool
  verify_from previous [] = true
  verify_from previous (r ∷ rs) =
      (r.previous_hash == previous)
      && (digest r.timestamp r.entry r.previous_hash == r.record_hash)
      && verify_from r.record_hash rs

  pub verify : List AuditRecord → Bool
  unfolding verify_from
  verify records = verify_from genesis records

  pub verify_tenant : Name → List AuditRecord → Bool
  unfolding verify_from
  verify_tenant tenant records = verify_from genesis (of_tenant tenant records)
