-- ===== src/Audit/Chains.antt =====
-- What is appended verifies.
use compute_weaver.Base.{ℕ, ◌≡◌, refl, true, List, [], ◌∷◌, ◌++◌, arith, Name}
use compute_weaver.Audit.{
  Entry, AuditRecord, genesis, last_hash, new_record, append, verify_from, verify,
}

module _ (digest : ℕ → Entry → Name → Name) where
  -- a chain that ends in the last hash is extended by a record of that hash
  verify_from-append :
      (p : Name) (rs : List AuditRecord) (now : ℕ) (entry : Entry)
      → verify_from digest p rs ≡ true
      → verify_from digest p (
          rs ++ new_record digest now entry (elim rs [ [] ↦ p | x ∷ xs ↦ last_hash (x ∷ xs) ]) ∷ [])
        ≡ true
  unfolding verify_from new_record last_hash
  verify_from-append p [] now entry h = ground arith
  verify_from-append p (r ∷ []) now entry h = ground arith
  verify_from-append p (r ∷ r' ∷ rs) now entry h =
      ground (arith, verify_from-append r.record_hash (r' ∷ rs) now entry)

  pub verify-extend :
      (rs : List AuditRecord) (now : ℕ) (entry : Entry)
      → verify_from digest genesis rs ≡ true
      → verify_from digest genesis (rs ++ new_record digest now entry (last_hash rs) ∷ []) ≡ true
  unfolding last_hash
  verify-extend [] now entry h = verify_from-append genesis [] now entry h
  verify-extend (r ∷ rs) now entry h = verify_from-append genesis (r ∷ rs) now entry h

  -- the log in memory after a sequence of calls of `append`
  pub append_all : List (ℕ × Entry) → List AuditRecord → List AuditRecord
  append_all [] records = records
  append_all ((now, entry) ∷ calls) records = append_all calls (append digest now entry records).1

  append-verify :
      (now : ℕ) (entry : Entry) (records : List AuditRecord)
      → verify digest records ≡ true
      → verify digest (append digest now entry records).1 ≡ true
  unfolding verify append
  append-verify now entry records h = verify-extend records now entry h

  append_all-verify :
      (calls : List (ℕ × Entry)) (records : List AuditRecord)
      → verify digest records ≡ true
      → verify digest (append_all calls records) ≡ true
  unfolding append_all
  append_all-verify [] records h = h
  append_all-verify ((now, entry) ∷ calls) records h =
      append_all-verify calls (append digest now entry records).1
        (append-verify now entry records h)

  -- Whatever is appended to the empty log in memory, `verify` accepts it.
  pub verify-append_all : (calls : List (ℕ × Entry)) → verify digest (append_all calls []) ≡ true
  verify-append_all calls = append_all-verify calls [] (unfold verify in refl)
