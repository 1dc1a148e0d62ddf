-- ===== src/Audit/Tampering.antt =====
-- A verified chain is fixed by its length and its last hash.
use compute_weaver.Base.{ℕ, ◌≡◌, refl, sym, ◌∙◌, true, List, [], ◌∷◌, arith, Name, length}
use compute_weaver.Audit.{Entry, AuditRecord, genesis, last_hash, verify_from, verify}

-- the last hash of a chain that starts from `p`
end_hash : Name → List AuditRecord → Name
end_hash p [] = p
end_hash p (r ∷ rs) = end_hash r.record_hash rs

last_hash-eq : (rs : List AuditRecord) → last_hash rs ≡ end_hash genesis rs
unfolding last_hash end_hash
last_hash-eq [] = refl
last_hash-eq (r ∷ []) = refl
last_hash-eq (r ∷ r' ∷ rs) = last_hash-eq (r' ∷ rs)

module _ (digest : ℕ → Entry → Name → Name) where
  -- The records that stand at one place of two logs do not collide: if their digests agree, so do
  -- their contents.
  abbrev pub NoCollision : List AuditRecord → List AuditRecord → Type 0
  NoCollision (r ∷ rs) (s ∷ ss) =
      (digest r.timestamp r.entry r.previous_hash ≡ digest s.timestamp s.entry s.previous_hash
        → (r.timestamp ≡ s.timestamp) × (r.entry ≡ s.entry) × (r.previous_hash ≡ s.previous_hash))
      × NoCollision rs ss
  NoCollision _ _ = Unit {0}

  chains_agree :
      (p q : Name) (rs ss : List AuditRecord)
      → length rs ≡ length ss
      → NoCollision rs ss
      → end_hash p rs ≡ end_hash q ss
      → verify_from digest p rs ≡ true
      → verify_from digest q ss ≡ true
      → (p ≡ q) × (rs ≡ ss)
  unfolding verify_from end_hash
  chains_agree p q [] [] len apart ends v w = (ends, refl)
  chains_agree p q [] (s ∷ ss) len apart ends v w = absurd (omega arith)
  chains_agree p q (r ∷ rs) [] len apart ends v w = absurd (omega arith)
  chains_agree p q (r ∷ rs) (s ∷ ss) len apart ends v w =
      ground (arith, chains_agree r.record_hash s.record_hash rs ss, apart)

  -- Two logs of the same length that `verify` accepts, that end in the same hash, and whose digests
  -- do not collide where records stand at one place, are the same log: no record of an accepted log
  -- can be altered in place, or records exchanged, while the last hash stays.
  pub verify_fixes_records :
      (records altered : List AuditRecord)
      → length records ≡ length altered
      → NoCollision records altered
      → last_hash records ≡ last_hash altered
      → verify digest records ≡ true
      → verify digest altered ≡ true
      → records ≡ altered
  unfolding verify
  verify_fixes_records records altered len apart ends v w =
      (chains_agree genesis genesis records altered len apart
        (sym (last_hash-eq records) ∙ ends ∙ last_hash-eq altered) v w).1
