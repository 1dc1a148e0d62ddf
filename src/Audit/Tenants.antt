-- ===== src/Audit/Tenants.antt =====
-- The chain of one tenant: kept apart in the database, and mixed with the others in memory.
use compute_weaver.Base.{
  ℕ, ◌≡◌, refl, ◌≢◌, inl, inr, true, false, List, [], ◌∷◌, ◌++◌, arith, ◌==◌, if◌then◌else◌, Name,
  Bool-cases, ==→eq, Pool, tenant_transaction_keeps,
}
use compute_weaver.Audit.{
  Entry, AuditRecord, genesis, last_hash, of_tenant, new_record, append, verify_from, verify_tenant,
}
use mathlib.Core.Path.{subst}
use compute_weaver.Audit.Database.{append_postgres, append_row, append_all, invalid_tenant}
use compute_weaver.Audit.Chains.{verify-extend}

of_tenant-append :
    (tenant : Name) (rs : List AuditRecord) (r : AuditRecord)
    → of_tenant tenant (rs ++ r ∷ [])
      ≡ (if r.entry.tenant_id == tenant then of_tenant tenant rs ++ r ∷ [] else of_tenant tenant rs)
of_tenant-append tenant [] r = refl
of_tenant-append tenant (x ∷ rs) r = ground (arith, of_tenant-append tenant rs r)

module _ (digest : ℕ → Entry → Name → Name) where
  append_row-verify_own :
      (now : ℕ) (entry : Entry) (rows : List AuditRecord)
      → verify_tenant digest entry.tenant_id rows ≡ true
      → verify_tenant digest entry.tenant_id (append_row digest now entry rows).1 ≡ true
  unfolding verify_tenant append_row
  append_row-verify_own now entry rows h =
      let own : (entry.tenant_id == entry.tenant_id) ≡ true = ground arith in
      rw of_tenant-append (
        unfold new_record in
        rw own (verify-extend digest (of_tenant entry.tenant_id rows) now entry h))

  append_row-verify_tenant :
      (tenant : Name) (now : ℕ) (entry : Entry) (rows : List AuditRecord)
      → verify_tenant digest tenant rows ≡ true
      → verify_tenant digest tenant (append_row digest now entry rows).1 ≡ true
  append_row-verify_tenant tenant now entry rows h = elim (Bool-cases (entry.tenant_id == tenant)) [
    | inl e ↦
        subst
          (λ t.
            verify_tenant digest t rows ≡ true
            → verify_tenant digest t (append_row digest now entry rows).1 ≡ true)
          (==→eq entry.tenant_id tenant e) (append_row-verify_own now entry rows) h
    | inr e ↦ unfold verify_tenant append_row new_record in rw of_tenant-append (rw e h)
  ]

  append_all-verify_tenant :
      (pool : Pool (List AuditRecord)) (tenant : Name) (calls : List (ℕ × Entry))
      (rows : List AuditRecord)
      → verify_tenant digest tenant rows ≡ true
      → verify_tenant digest tenant (append_all digest pool calls rows) ≡ true
  unfolding append_all append_postgres
  append_all-verify_tenant pool tenant [] rows h = h
  append_all-verify_tenant pool tenant ((now, entry) ∷ calls) rows h =
      append_all-verify_tenant pool tenant calls (append_postgres digest pool now entry rows).1 (
        tenant_transaction_keeps (λ rs. verify_tenant digest tenant rs ≡ true) pool invalid_tenant
          entry.tenant_id (append_row digest now entry) rows h
          (append_row-verify_tenant tenant now entry rows h))

  -- In the database every tenant's own chain verifies after any sequence of appends by any tenants,
  -- raising or not.
  pub verify_tenant-append_all :
      (pool : Pool (List AuditRecord)) (tenant : Name) (calls : List (ℕ × Entry))
      → verify_tenant digest tenant (append_all digest pool calls []) ≡ true
  verify_tenant-append_all pool tenant calls =
      append_all-verify_tenant pool tenant calls [] (unfold verify_tenant in refl)

  -- In memory, the first record of a tenant that is appended to a log whose last hash is not
  -- "GENESIS", so after any other tenant's record, makes `verify_tenant` refuse that tenant.
  pub verify_tenant_refuses :
      (now : ℕ) (entry : Entry) (records : List AuditRecord)
      → of_tenant entry.tenant_id records ≡ []
      → last_hash records ≢ genesis
      → verify_tenant digest entry.tenant_id (append digest now entry records).1 ≡ false
  unfolding verify_tenant verify_from append
  verify_tenant_refuses now entry records none_yet late =
      rw (of_tenant-append, none_yet) (ground arith)
