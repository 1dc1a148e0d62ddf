-- ===== src/Resources/Concurrency.antt =====
-- Optimistic concurrency: a put replaces only the resource whose etag its `If-Match` names.
use compute_weaver.Base.{
  ℕ, ◌+◌, ◌≡◌, ◌≢◌, true, false, ◌&&◌, none, some, arith, ◌==◌, if◌then◌else◌, Name, Result, ok,
  err, is_ok,
}
use compute_weaver.Resources.{
  Codec, StoredResource, ResourceStore, Error, conflict, Request, is_stale, next_version,
  previous_of, get, new_resource, put,
}
use compute_weaver.Resources.Rows.{find-store_row}

module _ {Body : Type 0} (codec : Codec Body) where
  -- What `get` of any resource answers after a put that returned `r`.
  abbrev pub Saved :
      Name
      → Name
      → Name
      → Request Body
      → ResourceStore Body
      → Result Error (StoredResource Body) × ResourceStore Body
      → Type 0
  Saved t k i q s (ok r, s') =
      (is_stale (previous_of q s) q.if_match ≡ false)
      × (r.version ≡ next_version (previous_of q s))
      × (r.body ≡ codec.with_id q.body q.resource_id)
      × (get k i t s' ≡ (
          if (q.tenant_id == t) && (q.kind == k) && (q.resource_id == i)
          then ok r
          else get k i t s))
  Saved t k i q s (err e, s') =
      (is_stale (previous_of q s) q.if_match ≡ true) × (e ≡ conflict) × (s' ≡ s)

  -- A put under a fresh idempotency key raises a conflict exactly when there is a resource and
  -- `if_match` is not its etag, and then changes nothing. Otherwise it returns the body with its
  -- id at the next version, `get` returns this for the resource, and for every other tenant, kind
  -- or id what it returned before.
  pub put-Saved :
      (t k i : Name) (q : Request Body) (s : ResourceStore Body)
      → s.idempotency q.tenant_id q.idempotency_key ≡ none
      → Saved t k i q s (put codec q s)
  unfolding put get
  put-Saved t k i q s fresh =
      ground (
        arith,
        find-store_row t k i (new_resource codec q (next_version (previous_of q s))) s.items,
      )

  -- Of two puts of one resource under fresh and different keys that name the same etag, the second
  -- conflicts once the first has succeeded, if no two versions of the resource have one etag.
  pub no_lost_update :
      (q q' : Request Body) (s : ResourceStore Body) (previous : StoredResource Body)
      → ((v w : ℕ) (b c : Body)
          → codec.etag_hash q.tenant_id q.kind v b ≡ codec.etag_hash q.tenant_id q.kind w c
          → v ≡ w)
      → (b : Body) → previous_of q s ≡ some previous
      → previous.etag ≡ codec.etag_hash q.tenant_id q.kind previous.version b
      → q.if_match ≡ some previous.etag
      → q'.if_match ≡ some previous.etag
      → (q'.tenant_id ≡ q.tenant_id) × (q'.kind ≡ q.kind) × (q'.resource_id ≡ q.resource_id)
      → s.idempotency q.tenant_id q.idempotency_key ≡ none
      → s.idempotency q.tenant_id q'.idempotency_key ≡ none
      → q.idempotency_key ≢ q'.idempotency_key
      → let (r, t) = put codec q s in (is_ok r ≡ true) × (put codec q' t ≡ (err conflict, t))
  unfolding put
  no_lost_update q q' s previous apart b found etag m m' same fresh fresh' ne = ground (
    arith,
    apart previous.version (previous.version + 1) b (codec.with_id q.body q.resource_id),
    find-store_row q.tenant_id q.kind q.resource_id (new_resource codec q (previous.version + 1))
        s.items,
  )
