-- ===== src/Resources/Rows.antt =====
-- Finding a row after one has been stored.
use compute_weaver.Base.{ℕ, ◌≡◌, refl, true, some, List, [], ◌∷◌, arith, if◌then◌else◌, Name, find}
use compute_weaver.Resources.{StoredResource, keyed, keyed_at, store_row}

module _ {Body : Type 0} where
  pub find-store_row :
      (t k i : Name) (r : StoredResource Body) (rows : List (StoredResource Body))
      → find (keyed t k i) (store_row (keyed r.tenant_id r.kind r.id) r rows)
        ≡ (if keyed t k i r then some r else find (keyed t k i) rows)
  unfolding store_row
  find-store_row t k i r [] = refl
  find-store_row t k i r (old ∷ rows) = ground (arith, find-store_row t k i r rows)

  pub find-store_row_at :
      (t k i : Name) (v : ℕ) (r : StoredResource Body) (rows : List (StoredResource Body))
      → find (keyed_at t k i v) (store_row (keyed_at r.tenant_id r.kind r.id r.version) r rows)
        ≡ (if keyed_at t k i v r then some r else find (keyed_at t k i v) rows)
  unfolding store_row
  find-store_row_at t k i v r [] = refl
  find-store_row_at t k i v r (old ∷ rows) = ground (arith, find-store_row_at t k i v r rows)

  -- a row that is found has the key
  pub find-keyed :
      (t k i : Name) (rows : List (StoredResource Body)) (r : StoredResource Body)
      → find (keyed t k i) rows ≡ some r
      → keyed t k i r ≡ true
  find-keyed t k i [] r e = cc
  find-keyed t k i (old ∷ rows) r e = ground (arith, find-keyed t k i rows r)
