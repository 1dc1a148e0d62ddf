-- ===== src/Quota/Database/Histories.antt =====
-- The tables of the quota ledger agree after any sequence of calls.
use compute_weaver.Base.{
  ℕ, ◌≡◌, refl, inl, inr, false, ◌||◌, Option, List, [], ◌∷◌, Name, truthy, Bool-cases,
  Option-cases, any, Pool, tenant_transaction_keeps,
}
use compute_weaver.Base.Int.{ℤ, pos, negsuc, pos_part, is_negative}
use compute_weaver.Quota.{Quota, invalid_tenant, has_negative_limit}
use compute_weaver.Quota.Database.{
  Tables, held, release_row, configure_db, Reservation, reserve_db, release_db, reserve_row,
  store_limits,
}
use compute_weaver.Quota.Database.Accounts.{
  IsBalanced, no_rows, no_rows-IsBalanced, release_row-IsBalanced, reserve_row-IsBalanced,
  store_limits-IsBalanced,
}

pub data Call : Type 0 where
  configuring : Name → Quota → Call
  reserving : Name → ℤ → ℤ → Option Name → Call
  releasing : Name → ℤ → ℤ → Option Name → ℕ → Call

never_held :
    (tenant key : Name) (g : ℕ) (hours : ℤ) (rows : List Reservation)
    → (any (held tenant key (negsuc g) hours) rows ≡ false)
      × (any (held tenant key hours (negsuc g)) rows ≡ false)
never_held tenant key g hours [] = (refl, refl)
never_held tenant key g (pos k) (r ∷ rows) = never_held tenant key g (pos k) rows
never_held tenant key g (negsuc k) (r ∷ rows) = never_held tenant key g (negsuc k) rows

release_call-IsBalanced :
    (tenant key : Name) (gpus hours : ℤ) (now : ℕ) (s : Tables)
    → IsBalanced s
    → IsBalanced (release_row tenant key gpus hours now s).1
unfolding release_row
release_call-IsBalanced tenant key (negsuc g) hours now s b =
    rw (never_held tenant key g hours s.reservations).0 b
release_call-IsBalanced tenant key gpus (negsuc k) now s b =
    rw (never_held tenant key k gpus s.reservations).1 b
release_call-IsBalanced tenant key (pos g) (pos k) now s b =
    elim (Bool-cases (any (held tenant key (pos g) (pos k)) s.reservations)) [
      | inl e ↦ rw e (release_row-IsBalanced tenant key g k now s b e)
      | inr e ↦ rw e b
    ]

module _ (pool : Pool Tables) where
  pub after : Call → Tables → Tables
  after (configuring tenant quota) s = (configure_db pool tenant quota s).1
  after (reserving tenant gpus hours key) s = (reserve_db pool tenant gpus hours key s).1
  after (releasing tenant gpus hours key now) s = (release_db pool tenant gpus hours key now s).1

  pub after_all : List Call → Tables → Tables
  unfolding after
  after_all [] s = s
  after_all (c ∷ cs) s = after_all cs (after c s)

  configure_db-IsBalanced :
      (tenant : Name) (quota : Quota) (s : Tables)
      → IsBalanced s
      → IsBalanced (configure_db pool tenant quota s).1
  unfolding configure_db
  configure_db-IsBalanced tenant quota s b = elim (Bool-cases (has_negative_limit quota)) [
    | inl e ↦ rw e b
    | inr e ↦ rw e (
        tenant_transaction_keeps IsBalanced pool invalid_tenant tenant (store_limits tenant quota) s
          b (store_limits-IsBalanced tenant quota s b e))
  ]

  reserve_db-IsBalanced :
      (tenant : Name) (gpus hours : ℤ) (key : Option Name) (s : Tables)
      → IsBalanced s
      → IsBalanced (reserve_db pool tenant gpus hours key s).1
  unfolding reserve_db
  reserve_db-IsBalanced tenant gpus hours key s b =
      elim (Bool-cases (is_negative gpus || is_negative hours)) [
        | inl e ↦ rw e b
        | inr e ↦ elim (Option-cases (truthy key)) [
          | inl n ↦ rw (e, n) b
          | inr (k, n) ↦
              rw (e, n)
                (tenant_transaction_keeps IsBalanced pool invalid_tenant tenant
                  (reserve_row tenant k (record { gpus = pos_part gpus; hours = pos_part hours })) s
                  b
                  (reserve_row-IsBalanced tenant k
                    (record { gpus = pos_part gpus; hours = pos_part hours }) s b))
        ]
      ]

  release_db-IsBalanced :
      (tenant : Name) (gpus hours : ℤ) (key : Option Name) (now : ℕ) (s : Tables)
      → IsBalanced s
      → IsBalanced (release_db pool tenant gpus hours key now s).1
  unfolding release_db
  release_db-IsBalanced tenant gpus hours key now s b = elim (Option-cases (truthy key)) [
    | inl n ↦ rw n b
    | inr (k, n) ↦ rw n (
        tenant_transaction_keeps IsBalanced pool invalid_tenant tenant
          (release_row tenant k gpus hours now) s b
          (release_call-IsBalanced tenant k gpus hours now s b))
  ]

  after-IsBalanced : (c : Call) (s : Tables) → IsBalanced s → IsBalanced (after c s)
  unfolding after
  after-IsBalanced (configuring tenant quota) s b = configure_db-IsBalanced tenant quota s b
  after-IsBalanced (reserving tenant gpus hours key) s b =
      reserve_db-IsBalanced tenant gpus hours key s b
  after-IsBalanced (releasing tenant gpus hours key now) s b =
      release_db-IsBalanced tenant gpus hours key now s b

  after_all-IsBalanced : (cs : List Call) (s : Tables) → IsBalanced s → IsBalanced (after_all cs s)
  unfolding after_all
  after_all-IsBalanced [] s b = b
  after_all-IsBalanced (c ∷ cs) s b = after_all-IsBalanced cs (after c s) (after-IsBalanced c s b)

  -- From empty tables, after any sequence of configure, reserve and release calls, raising or not:
  -- no two reservations have the same tenant and key; what each tenant's ledger row counts as used
  -- (GPUs, GPU hours and jobs) is the sum over its reservations that are not released, 0 for a
  -- tenant with no row; and no row counts more than its limits.
  pub calls-IsBalanced : (cs : List Call) → IsBalanced (after_all cs no_rows)
  calls-IsBalanced cs = after_all-IsBalanced cs no_rows no_rows-IsBalanced
