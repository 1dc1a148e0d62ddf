-- ===== src/Resources.antt =====
-- apps/api/store.py: `ResourceStore`, the tenant-scoped resource repository in memory.
-- A value of a dict carries its own key, so `_items` and `_versions` are lists of resources in
-- insertion order.
pub mod Rows
pub mod Versions
pub mod Concurrency
pub mod Replays
mod Tests
use compute_weaver.Base.{
  ℕ, ◌+◌, Bool, true, false, not, ◌&&◌, Option, none, some, List, [], ◌∷◌, ◌==◌, if◌then◌else◌,
  Name, keep, find, sort_on, Result, ok, err, Method, raise,
}
use compute_weaver.Base.Dict.{Dict₂, empty₂, insert₂}

-- The JSON bodies, the two SHA-256 digests of their canonical texts, and `{**body, "id": id}`.
pub record Codec (Body : Type 0) : Type 0 where
  pub with_id : Body → Name → Body
  pub request_hash : Name → Name → Body → Name
  pub etag_hash : Name → Name → ℕ → Body → Name

pub record StoredResource (Body : Type 0) : Type 0 where
  pub kind : Name
  pub id : Name
  pub tenant_id : Name
  pub version : ℕ
  pub etag : Name
  pub body : Body

-- a value of `_idempotency`
pub record Replay (Body : Type 0) : Type 0 where
  pub request_hash : Name
  pub resource : StoredResource Body

pub record ResourceStore (Body : Type 0) : Type 0 where
  pub items : List (StoredResource Body)
  pub versions : List (StoredResource Body)
  pub idempotency : Dict₂ (Replay Body)

pub data Error : Type 0 where
  key_reused conflict missing : Error

pub record Request (Body : Type 0) : Type 0 where
  pub kind : Name
  pub resource_id : Name
  pub tenant_id : Name
  pub body : Body
  pub idempotency_key : Name
  pub if_match : Option Name

module _ {Body : Type 0} where
  abbrev pub init : ResourceStore Body
  init = record { items = []; versions = []; idempotency = empty₂ }

  -- the key `(tenant_id, kind, resource_id)` of `_items`
  abbrev pub keyed : Name → Name → Name → StoredResource Body → Bool
  keyed tenant kind id r = (r.tenant_id == tenant) && (r.kind == kind) && (r.id == id)

  -- the key `(tenant_id, kind, resource_id, version)` of `_versions`
  abbrev pub keyed_at : Name → Name → Name → ℕ → StoredResource Body → Bool
  keyed_at tenant kind id version r = keyed tenant kind id r && (r.version == version)

  -- `d[key] = r`
  pub store_row :
      (StoredResource Body → Bool)
      → StoredResource Body
      → List (StoredResource Body)
      → List (StoredResource Body)
  store_row same r [] = r ∷ []
  store_row same r (old ∷ rows) =
      let rest = store_row same r rows in if same old then r ∷ rows else old ∷ rest

  -- `previous and if_match != previous.etag`
  abbrev pub is_stale : Option (StoredResource Body) → Option Name → Bool
  is_stale none if_match = false
  is_stale (some previous) none = true
  is_stale (some previous) (some etag) = not (etag == previous.etag)

  abbrev pub next_version : Option (StoredResource Body) → ℕ
  next_version none = 1
  next_version (some previous) = previous.version + 1

  abbrev pub previous_of : Request Body → ResourceStore Body → Option (StoredResource Body)
  previous_of q s = find (keyed q.tenant_id q.kind q.resource_id) s.items

  pub get : Name → Name → Name → ResourceStore Body → Result Error (StoredResource Body)
  get kind resource_id tenant s = elim (find (keyed tenant kind resource_id) s.items) [
    | none ↦ err missing
    | some r ↦ ok r
  ]

  pub get_version : Name → Name → Name → ℕ → ResourceStore Body → Result Error (StoredResource Body)
  get_version kind resource_id tenant version s =
      elim (find (keyed_at tenant kind resource_id version) s.versions) [
        | none ↦ err missing
        | some r ↦ ok r
      ]

  pub list : Name → Name → ResourceStore Body → List (StoredResource Body)
  list kind tenant s =
      sort_on (λ r. r.id) (keep (λ r. (r.tenant_id == tenant) && (r.kind == kind)) s.items)

  -- Each version that the comprehension lists is looked up by its own key.
  pub history : Name → Name → Name → ResourceStore Body → List (StoredResource Body)
  history kind resource_id tenant s =
      sort_on (λ r. r.version) (keep (keyed tenant kind resource_id) s.versions)

module _ {Body : Type 0} (codec : Codec Body) where
  abbrev pub request_hash : Request Body → Name
  request_hash q = codec.request_hash q.kind q.resource_id q.body

  pub new_resource : Request Body → ℕ → StoredResource Body
  new_resource q version =
      let normalized = codec.with_id q.body q.resource_id in
      record {
        kind = q.kind;
        id = q.resource_id;
        tenant_id = q.tenant_id;
        version = version;
        etag = codec.etag_hash q.tenant_id q.kind version normalized;
        body = normalized;
      }

  -- the three writes at the end of `put`
  pub save : Request Body → StoredResource Body → ResourceStore Body → ResourceStore Body
  unfolding store_row
  save q r s = record {
    items = store_row (keyed q.tenant_id q.kind q.resource_id) r s.items;
    versions = store_row (keyed_at q.tenant_id q.kind q.resource_id r.version) r s.versions;
    idempotency =
        insert₂ q.tenant_id q.idempotency_key
          (record { request_hash = request_hash q; resource = r }) s.idempotency;
  }

  -- past the idempotency check
  pub put_new : Request Body → Method (ResourceStore Body) Error (StoredResource Body)
  unfolding new_resource save
  put_new q s =
      let previous = previous_of q s in
      let r = new_resource q (next_version previous) in
      if is_stale previous q.if_match then (err conflict, s) else (ok r, save q r s)

  pub put : Request Body → Method (ResourceStore Body) Error (StoredResource Body)
  unfolding put_new
  put q s = elim (s.idempotency q.tenant_id q.idempotency_key) [
    | some replay ↦
        (if request_hash q == replay.request_hash then ok replay.resource else err key_reused, s)
    | none ↦ put_new q s
  ]

  -- the store after a sequence of puts, each of which may raise
  pub put_all : List (Request Body) → ResourceStore Body → ResourceStore Body
  put_all [] s = s
  put_all (q ∷ qs) s = put_all qs (put q s).1
