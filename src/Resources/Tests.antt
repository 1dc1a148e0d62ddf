-- ===== src/Resources/Tests.antt =====
-- The store with numbers for bodies; a version's etag is its number.
use compute_weaver.Base.{
  ℕ, ◌+◌, ◌*◌, ◌≡◌, refl, true, Option, none, some, [], ◌∷◌, map, arith, Name, err, is_ok,
}
use compute_weaver.Resources.{
  Codec, StoredResource, ResourceStore, conflict, Request, init, history, put, put_all,
}
use compute_weaver.Resources.Versions.{IsVersioned, versions_contiguous}
use compute_weaver.Resources.Concurrency.{Saved, put-Saved, no_lost_update}

abbrev codec : Codec ℕ
codec = record {
  with_id = λ b id. b;
  request_hash = λ kind id b. kind + 10 * id + 100 * b;
  etag_hash = λ tenant kind v b. v;
}

abbrev request : ℕ → Name → Option Name → Request ℕ
request b key if_match = record {
  kind = 1;
  resource_id = 2;
  tenant_id = 3;
  body = b;
  idempotency_key = key;
  if_match = if_match;
}

abbrev stored : ResourceStore ℕ
stored = put_all codec (request 5 1 none ∷ request 6 2 none ∷ request 6 3 (some 1) ∷ []) init

stored-history : map (λ r. r.body) (history 1 2 3 stored) ≡ 5 ∷ 6 ∷ []
unfolding history put_all put
stored-history = refl

versions_contiguous_example : IsVersioned stored
versions_contiguous_example =
    versions_contiguous codec (request 5 1 none ∷ request 6 2 none ∷ request 6 3 (some 1) ∷ [])

put-Saved_example :
    Saved codec 3 1 2 (request 7 4 (some 2)) stored (put codec (request 7 4 (some 2)) stored)
unfolding put_all put
put-Saved_example = put-Saved codec 3 1 2 (request 7 4 (some 2)) stored refl

-- version 2, with its etag 2
abbrev second : StoredResource ℕ
second = record { kind = 1; id = 2; tenant_id = 3; version = 2; etag = 2; body = 6 }

no_lost_update_example :
    let (r, t) = put codec (request 7 4 (some 2)) stored in
    (is_ok r ≡ true) × (put codec (request 8 5 (some 2)) t ≡ (err conflict, t))
unfolding put_all put
no_lost_update_example =
    no_lost_update codec (request 7 4 (some 2)) (request 8 5 (some 2)) stored second
      (λ v w b c e. e) 6 refl refl refl refl (refl, refl, refl) refl refl (omega arith)
