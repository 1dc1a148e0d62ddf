-- ===== src/Quota/Database/Accounts.antt =====
-- The two tables of the quota ledger agree: what a ledger row counts as used is the sum of the
-- reservations that are not released.
use compute_weaver.Base.{
  ℕ, ◌≡◌, refl, inl, inr, Bool, true, false, not, ◌&&◌, none, some, List, [], ◌∷◌, arith, ◌==◌,
  if◌then◌else◌, Name, is_some, Bool-cases, Option-cases, any, find,
}
use compute_weaver.Base.Int.{ℤ, pos, negsuc}
use compute_weaver.Quota.{
  Usage, unused, exceeds, add_job, drop_job, Quota, has_negative_limit, Demand, empty,
}
use compute_weaver.Quota.Database.{
  Ledger, Reservation, Tables, keyed, held, usage_db, mark_released, discharge, store_limits,
  reserve_row,
}

abbrev pub is_active : Name → Reservation → Bool
is_active tenant r = (r.tenant == tenant) && not (is_some r.released_at)

-- the active reservations of a tenant
pub active : Name → List Reservation → Usage
active tenant [] = unused
active tenant (r ∷ rows) =
    let rest = active tenant rows in
    if is_active tenant r then add_job rest (record { gpus = r.gpus; hours = r.hours }) else rest

-- No two reservations have the same tenant and key.
abbrev pub Unique : List Reservation → Type 0
Unique [] = Unit
Unique (r ∷ rows) = (find (keyed r.tenant r.key) rows ≡ none) × Unique rows

pub record IsBalanced (s : Tables) : Type 0 where
  pub unique : Unique s.reservations
  pub counted : (tenant : Name) → active tenant s.reservations ≡ usage_db tenant s
  pub limited :
      (tenant : Name) (l : Ledger) → s.ledgers tenant ≡ some l → exceeds l.used l.max ≡ false

mark_fresh :
    (tenant key : Name) (gpus hours : ℤ) (now : ℕ) (rows : List Reservation)
    → find (keyed tenant key) rows ≡ none
    → mark_released (held tenant key gpus hours) now rows ≡ rows
unfolding mark_released
mark_fresh tenant key gpus hours now [] h = refl
mark_fresh tenant key (pos g) (pos k) now (r ∷ rows) h =
    ground (arith, mark_fresh tenant key (pos g) (pos k) now rows)
mark_fresh tenant key (pos g) (negsuc k) now (r ∷ rows) h =
    ground (arith, mark_fresh tenant key (pos g) (negsuc k) now rows)
mark_fresh tenant key (negsuc g) k now (r ∷ rows) h =
    ground (arith, mark_fresh tenant key (negsuc g) k now rows)

-- Releasing keeps keys apart.
mark-keyed :
    (p : Reservation → Bool) (now : ℕ) (tenant key : Name) (rows : List Reservation)
    → find (keyed tenant key) rows ≡ none
    → find (keyed tenant key) (mark_released p now rows) ≡ none
unfolding mark_released
mark-keyed p now tenant key [] h = refl
mark-keyed p now tenant key (r ∷ rows) h = ground (arith, mark-keyed p now tenant key rows)

mark-Unique :
    (p : Reservation → Bool) (now : ℕ) (rows : List Reservation)
    → Unique rows
    → Unique (mark_released p now rows)
unfolding mark_released
mark-Unique p now [] h = tt
mark-Unique p now (r ∷ rows) h =
    ground (arith, mark-Unique p now rows, mark-keyed p now r.tenant r.key rows)

-- No other reservation has the key of one that is held.
held-fresh :
    (tenant key : Name) (g k : ℕ) (r : Reservation) (rows : List Reservation)
    → held tenant key (pos g) (pos k) r ≡ true
    → find (keyed r.tenant r.key) rows ≡ none
    → find (keyed tenant key) rows ≡ none
held-fresh tenant key g k r rows h fresh =
    let p : tenant ≡ r.tenant = ground arith in
    let q : key ≡ r.key = ground arith in rw (p, q) fresh

-- A release takes one reservation's amounts off its tenant, and nothing off the others.
active-mark :
    (tenant key other : Name) (g k now : ℕ) (rows : List Reservation)
    → Unique rows
    → any (held tenant key (pos g) (pos k)) rows ≡ true
    → active other rows ≡ (
        let rest = active other (mark_released (held tenant key (pos g) (pos k)) now rows) in
        if other == tenant then add_job rest (record { gpus = g; hours = k }) else rest)
unfolding mark_released active
active-mark tenant key other g k now [] u h = cc
active-mark tenant key other g k now (r ∷ rows) u h =
    elim (Bool-cases (held tenant key (pos g) (pos k) r)) [
      | inl e ↦
          rw
            (
              e,
              mark_fresh tenant key (pos g) (pos k) now rows
                  (held-fresh tenant key g k r rows e u.0),
            )
            (ground arith)
      | inr e ↦ rw e (ground (arith, active-mark tenant key other g k now rows))
    ]

exceeds-drop_job :
    (used : Usage) (quota : Quota) (g k : ℕ)
    → exceeds used quota ≡ false
    → exceeds (drop_job used (pos g) (pos k)) quota ≡ false
unfolding exceeds
exceeds-drop_job used quota g k h = ground arith

-- Releasing at once what is held leaves balanced tables balanced.
pub release_row-IsBalanced :
    (tenant key : Name) (g k now : ℕ) (s : Tables)
    → IsBalanced s
    → any (held tenant key (pos g) (pos k)) s.reservations ≡ true
    → IsBalanced (record {
      ledgers = discharge tenant (pos g) (pos k) s.ledgers;
      reservations = mark_released (held tenant key (pos g) (pos k)) now s.reservations;
    })
unfolding discharge usage_db
release_row-IsBalanced tenant key g k now s b h = record {
  unique = mark-Unique (held tenant key (pos g) (pos k)) now s.reservations b.unique;
  counted = λ t. ground (
    arith,
    b.counted t,
    b.counted tenant,
    active-mark tenant key t g k now s.reservations b.unique h,
  );
  limited = λ t l e. elim (Option-cases (s.ledgers tenant)) [
    | inl none_there ↦ ground (arith, b.limited t l)
    | inr (l', e') ↦
        ground (arith, b.limited t l, exceeds-drop_job l'.used l'.max g k, b.limited tenant l' e')
  ];
}

-- a quota without a negative limit allows no usage at all
exceeds-unused : (quota : Quota) → has_negative_limit quota ≡ false → exceeds unused quota ≡ false
unfolding exceeds
exceeds-unused quota h = ground arith

pub reserve_row-IsBalanced :
    (tenant key : Name) (d : Demand) (s : Tables)
    → IsBalanced s
    → IsBalanced (reserve_row tenant key d s).1
unfolding reserve_row active usage_db
reserve_row-IsBalanced tenant key d s b = record {
  unique = ground (arith, b.unique);
  counted = λ t. ground (arith, b.counted t, b.counted tenant);
  limited = λ t l e. ground (arith, b.limited t l);
}

pub store_limits-IsBalanced :
    (tenant : Name) (quota : Quota) (s : Tables)
    → IsBalanced s
    → has_negative_limit quota ≡ false
    → IsBalanced (store_limits tenant quota s).1
unfolding store_limits usage_db
store_limits-IsBalanced tenant quota s b h = record {
  unique = ground (arith, b.unique);
  counted = λ t. ground (arith, b.counted t);
  limited = λ t l e. ground (arith, b.limited t l, exceeds-unused quota);
}

abbrev pub no_rows : Tables
no_rows = record { ledgers = empty; reservations = [] }

pub no_rows-IsBalanced : IsBalanced no_rows
unfolding active usage_db
no_rows-IsBalanced = record { unique = tt; counted = λ t. refl; limited = λ t l e. cc }
