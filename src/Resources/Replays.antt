-- ===== src/Resources/Replays.antt =====
-- Idempotent retries.
use compute_weaver.Base.{◌≡◌, some, List, [], ◌∷◌, arith, Name, ok}
use compute_weaver.Resources.{
  Codec, StoredResource, Replay, ResourceStore, Request, request_hash, put, put_all,
}

module _ {Body : Type 0} (codec : Codec Body) where
  put_keeps_replay :
      (t k : Name) (replay : Replay Body) (q : Request Body) (s : ResourceStore Body)
      → s.idempotency t k ≡ some replay
      → (put codec q s).1.idempotency t k ≡ some replay
  unfolding put
  put_keeps_replay t k replay q s e = ground arith

  put_all_keeps_replay :
      (t k : Name) (replay : Replay Body) (qs : List (Request Body)) (s : ResourceStore Body)
      → s.idempotency t k ≡ some replay
      → (put_all codec qs s).idempotency t k ≡ some replay
  unfolding put_all
  put_all_keeps_replay t k replay [] s e = e
  put_all_keeps_replay t k replay (q ∷ qs) s e =
      put_all_keeps_replay t k replay qs (put codec q s).1 (put_keeps_replay t k replay q s e)

  put-replay :
      (q : Request Body) (s : ResourceStore Body) (r : StoredResource Body)
      → (put codec q s).0 ≡ ok r
      → (put codec q s).1.idempotency q.tenant_id q.idempotency_key
        ≡ some (record { request_hash = request_hash codec q; resource = r })
  unfolding put
  put-replay q s r e = ground arith

  -- A put that has succeeded can be retried after any other puts: it returns the same resource
  -- again and changes nothing.
  pub put_retry :
      (q : Request Body) (qs : List (Request Body)) (s : ResourceStore Body)
      (r : StoredResource Body)
      → (put codec q s).0 ≡ ok r
      → let t = put_all codec qs (put codec q s).1 in put codec q t ≡ (ok r, t)
  unfolding put
  put_retry q qs s r e = ground (
    arith,
    put_all_keeps_replay q.tenant_id q.idempotency_key
        (record { request_hash = request_hash codec q; resource = r }) qs (put codec q s).1
        (put-replay q s r e),
  )
