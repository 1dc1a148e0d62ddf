-- ===== src/Forecasting/Database/Live.antt =====
-- At most one version of a model is in production in the table of packages/forecasting/registry.py.
use compute_weaver.Base.{
  ℕ, ◌+◌, ◌≤◌, ◌≡◌, refl, sym, inl, inr, Bool, true, false, ◌&&◌, List, [], ◌∷◌, ◌++◌, map, arith,
  ◌==◌, if◌then◌else◌, Name, Bool-cases, Option-cases, any, keep, find, Pool,
  tenant_transaction_keeps,
}
use compute_weaver.Forecasting.{ModelVersion, tenant_required, is_production, keyed, is_live}
use compute_weaver.Forecasting.Database.{
  Row, has_key, in_production, in_archive, insert_row, archive_rows, promote_row, switch, newest,
  roll_back, register_db, promote_db, rollback_db, Call, registering, promoting, rolling_back, run,
  run_all,
}

-- how many rows pass
abbrev pub number : (Row → Bool) → List Row → ℕ
number p [] = 0
number p (r ∷ rows) = let rest = number p rows in if p r then rest + 1 else rest

number-append :
    (p : Row → Bool) (rows : List Row) (r : Row)
    → number p (rows ++ r ∷ []) ≡ number p rows + (if p r then 1 else 0)
number-append p [] r = ground arith
number-append p (x ∷ rows) r = ground (arith, number-append p rows r)

not-any-number : (p : Row → Bool) (rows : List Row) → any p rows ≡ false → number p rows ≡ 0
not-any-number p [] e = refl
not-any-number p (x ∷ rows) e = ground (arith, not-any-number p rows)

-- Keys are unique, and one version at most is in production.
pub record IsTable (rows : List Row) : Type 0 where
  pub keys : (t n v : Name) → number (has_key t n v) rows ≤ 1
  pub live : (t n : Name) → number (in_production t n) rows ≤ 1

module _ (tenant name version : Name) (now : ℕ) where
  abbrev moved : Row → Row
  moved x = promote_row tenant name version now (archive_rows tenant name now x)

  moved-key : (t n v : Name) (x : Row) → has_key t n v (moved x) ≡ has_key t n v x
  moved-key t n v x = ground arith

  moved-live :
      (t n : Name) (x : Row)
      → in_production t n (moved x) ≡ (
          if (t == tenant) && (n == name)
          then has_key tenant name version x
          else in_production t n x)
  moved-live t n x = ground arith

  number-keys :
      (t n v : Name) (rows : List Row)
      → number (has_key t n v) (map moved rows) ≡ number (has_key t n v) rows
  number-keys t n v [] = refl
  number-keys t n v (x ∷ rows) = rw (moved-key t n v x, number-keys t n v rows) refl

  number-live :
      (t n : Name) (rows : List Row)
      → number (in_production t n) (map moved rows) ≡ (
          if (t == tenant) && (n == name)
          then number (has_key tenant name version) rows
          else number (in_production t n) rows)
  number-live t n [] = ground arith
  number-live t n (x ∷ rows) = elim (Bool-cases ((t == tenant) && (n == name))) [
    | inl q ↦ rw (moved-live t n x, number-live t n rows, q) refl
    | inr q ↦ rw (moved-live t n x, number-live t n rows, q) refl
  ]

  switch-IsTable :
      (rows : List Row) → IsTable rows → IsTable (switch tenant name version now rows).1
  unfolding switch
  switch-IsTable rows h = elim (Option-cases (find (has_key tenant name version) rows)) [
    | inl e ↦ rw (e, switch) h
    | inr (r, e) ↦
        rw (e, switch)
          (record {
            keys = λ t n v. omega (arith, h.keys t n v, number-keys t n v rows);
            live = λ t n. elim (Bool-cases ((t == tenant) && (n == name))) [
              | inl q ↦ ground (arith, q, number-live t n rows, h.keys tenant name version)
              | inr q ↦ ground (arith, q, number-live t n rows, h.live t n)
            ];
          })
  ]

number-insert :
    (p : Row → Bool) (rows : List Row) (r : Row)
    → number p rows ≤ 1
    → (p r ≡ true → number p rows ≡ 0)
    → number p (rows ++ r ∷ []) ≤ 1
number-insert p rows r h k = elim (Bool-cases (p r)) [
  | inl t ↦ ground (arith, number-append p rows r, k t, t)
  | inr f ↦ ground (arith, number-append p rows r, h, f)
]

key_fresh :
    (tenant : Name) (m : ModelVersion) (rows : List Row)
    → any (has_key tenant m.name m.version) rows ≡ false
    → (t n v : Name) → ((tenant == t) && keyed n v m) ≡ true
    → number (has_key t n v) rows ≡ 0
key_fresh tenant m rows f t n v k =
    let a : tenant ≡ t = ground (arith, k) in
    let b : m.name ≡ n = ground (arith, k) in
    let c : m.version ≡ v = ground (arith, k) in
    rw (sym a, sym b, sym c) (not-any-number (has_key tenant m.name m.version) rows f)

live_fresh :
    (tenant : Name) (m : ModelVersion) (rows : List Row)
    → (is_production m.stage && any (in_production tenant m.name) rows) ≡ false
    → (t n : Name) → ((tenant == t) && is_live n m) ≡ true
    → number (in_production t n) rows ≡ 0
live_fresh tenant m rows f t n k =
    let a : tenant ≡ t = ground (arith, k) in
    let b : m.name ≡ n = ground (arith, k) in
    let none_live : any (in_production tenant m.name) rows ≡ false = ground (arith, f, k) in
    rw (sym a, sym b) (not-any-number (in_production tenant m.name) rows none_live)

insert_row-IsTable :
    (tenant : Name) (m : ModelVersion) (now : ℕ) (rows : List Row)
    → IsTable rows
    → IsTable (insert_row tenant m now rows).1
unfolding insert_row
insert_row-IsTable tenant m now rows h =
    let new : Row = record { tenant = tenant; model = m; updated_at = now } in
    elim (Bool-cases (any (has_key tenant m.name m.version) rows)) [
      | inl t ↦ rw (t, insert_row) h
      | inr f ↦
          elim (Bool-cases (is_production m.stage && any (in_production tenant m.name) rows)) [
            | inl t ↦ rw (f, t, insert_row) h
            | inr g ↦
                rw (f, g, insert_row)
                  (record {
                    keys = λ t n v.
                        number-insert (has_key t n v) rows new (h.keys t n v)
                          (λ k. key_fresh tenant m rows f t n v k);
                    live = λ t n.
                        number-insert (in_production t n) rows new (h.live t n)
                          (λ k. live_fresh tenant m rows g t n k);
                  })
          ]
    ]

roll_back-IsTable :
    (tenant name : Name) (now : ℕ) (rows : List Row)
    → IsTable rows
    → IsTable (roll_back tenant name now rows).1
unfolding roll_back
roll_back-IsTable tenant name now rows h =
    elim (Option-cases (newest (keep (in_archive tenant name) rows))) [
      | inl e ↦ rw (e, roll_back) h
      | inr (r, e) ↦ rw (e, roll_back) (switch-IsTable tenant name r.model.version now rows h)
    ]

module _ (pool : Pool (List Row)) where
  run-IsTable : (c : Call) (rows : List Row) → IsTable rows → IsTable (run pool c rows)
  unfolding run register_db promote_db rollback_db
  run-IsTable (registering tenant m now) rows h =
      tenant_transaction_keeps IsTable pool tenant_required tenant (insert_row tenant m now) rows h
        (insert_row-IsTable tenant m now rows h)
  run-IsTable (promoting tenant name version now) rows h =
      tenant_transaction_keeps IsTable pool tenant_required tenant (switch tenant name version now)
        rows h (switch-IsTable tenant name version now rows h)
  run-IsTable (rolling_back tenant name now) rows h =
      tenant_transaction_keeps IsTable pool tenant_required tenant (roll_back tenant name now) rows
        h (roll_back-IsTable tenant name now rows h)

  run_all-keeps : (cs : List Call) (rows : List Row) → IsTable rows → IsTable (run_all pool cs rows)
  unfolding run_all
  run_all-keeps [] rows h = h
  run_all-keeps (c ∷ cs) rows h = run_all-keeps cs (run pool c rows) (run-IsTable c rows h)

  -- From the empty table, after any calls of register, promote and rollback, raising or not, of any
  -- tenants: a tenant has every version of a model once at most, and at most one version of a model is
  -- in production.
  pub run_all-IsTable : (cs : List Call) → IsTable (run_all pool cs [])
  run_all-IsTable cs =
      run_all-keeps cs [] (record { keys = λ t n v. omega arith; live = λ t n. omega arith })
