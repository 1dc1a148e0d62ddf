-- ===== src/Resources/Versions.antt =====
-- The stored versions of a resource are exactly 1 up to the current one, which is the last of them.
use compute_weaver.Base.{
  ℕ, ◌≡◌, inl, inr, ◌&&◌, none, some, List, [], ◌∷◌, arith, leb, Name, is_some, Option-cases, find,
}
use compute_weaver.Resources.{
  Codec, StoredResource, ResourceStore, Request, keyed, keyed_at, next_version, previous_of,
  new_resource, put_new, put, init, put_all,
}
use compute_weaver.Resources.Rows.{find-store_row, find-store_row_at}

module _ {Body : Type 0} where
  -- the version of the current resource, 0 if there is none
  pub latest : Name → Name → Name → ResourceStore Body → ℕ
  latest tenant kind id s = elim (find (keyed tenant kind id) s.items) [
    | none ↦ 0
    | some r ↦ r.version
  ]

  pub record IsVersioned (s : ResourceStore Body) : Type 0 where
    pub contiguous :
        (t k i : Name) (v : ℕ)
        → is_some (find (keyed_at t k i v) s.versions) ≡ (leb 1 v && leb v (latest t k i s))
    pub current :
        (t k i : Name) (r : StoredResource Body)
        → find (keyed t k i) s.items ≡ some r
        → find (keyed_at t k i r.version) s.versions ≡ some r

  init-IsVersioned : IsVersioned init
  unfolding latest
  init-IsVersioned = record { contiguous = λ t k i v. ground arith; current = λ t k i r e. cc }

module _ {Body : Type 0} (codec : Codec Body) where
  put_new-IsVersioned :
      (q : Request Body) (s : ResourceStore Body)
      → IsVersioned s
      → IsVersioned (put_new codec q s).1
  unfolding put_new latest
  put_new-IsVersioned q s h =
      let r = new_resource codec q (next_version (previous_of q s)) in
      record {
        contiguous = λ t k i v. ground (
          arith,
          h.contiguous t k i v,
          find-store_row t k i r s.items,
          find-store_row_at t k i v r s.versions,
        );
        current = λ t k i r' e. ground (
          arith,
          h.current t k i r',
          find-store_row t k i r s.items,
          find-store_row_at t k i r'.version r s.versions,
          h.contiguous t k i r'.version,
        );
      }

  pub put-IsVersioned :
      (q : Request Body) (s : ResourceStore Body) → IsVersioned s → IsVersioned (put codec q s).1
  unfolding put
  put-IsVersioned q s h = elim (Option-cases (s.idempotency q.tenant_id q.idempotency_key)) [
    | inl e ↦ rw (e, put) (put_new-IsVersioned q s h)
    | inr (replay, e) ↦ rw (e, put) h
  ]

  put_all-IsVersioned :
      (qs : List (Request Body)) (s : ResourceStore Body)
      → IsVersioned s
      → IsVersioned (put_all codec qs s)
  unfolding put_all
  put_all-IsVersioned [] s h = h
  put_all-IsVersioned (q ∷ qs) s h =
      put_all-IsVersioned qs (put codec q s).1 (put-IsVersioned q s h)

  -- From the empty store, after any puts, raising or not: a version of a resource can be read
  -- exactly when it is one of 1 up to the version of the current resource (none, when there is no
  -- resource), and the version read at the current number is the current resource.
  pub versions_contiguous : (qs : List (Request Body)) → IsVersioned (put_all codec qs init)
  versions_contiguous qs = put_all-IsVersioned qs init init-IsVersioned
