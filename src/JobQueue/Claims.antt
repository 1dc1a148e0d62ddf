-- ===== src/JobQueue/Claims.antt =====
-- What `claim` takes.
use compute_weaver.Base.{
  ℕ, ◌+◌, ◌≤◌, ◌≡◌, refl, ◌⊎◌, inl, inr, Bool, true, false, not, ◌&&◌, ◌||◌, Option, none, some,
  List, [], ◌∷◌, map, arith, ltb, leb, ◌==◌, if◌then◌else◌, Name, Bool-cases, Option-cases, any,
  All, All-map, IsAmong, ok,
}
use mathlib.Core.Path.{subst}
use compute_weaver.Base.Sorting.{All-unkeep}
use compute_weaver.JobQueue.{
  unlocked, pending, running, succeeded, dead_letter, update_rows, leased, JobRow, claimable,
  before, candidate, has_id, sooner, DurableJob, claim, durable, Queue,
}

-- `first` is claimable, stands among the rows, and no claimable row is due before it.
abbrev IsFirst : ℕ → List JobRow → Option JobRow → Type 0
IsFirst now rows none = All (λ row. claimable now row ≡ false) rows
IsFirst now rows (some first) =
    (claimable now first ≡ true)
    × (any (has_id first.id) rows ≡ true)
    × All (λ row. (not (claimable now row) || before first row) ≡ true) rows

before_trans : (a b c : JobRow) → before a b ≡ true → before b c ≡ true → before a c ≡ true
unfolding before
before_trans a b c h k = ground arith

before_flip : (a b : JobRow) → before a b ≡ false → before b a ≡ true
unfolding before
before_flip a b h = ground arith

before_refl : (a : JobRow) → before a a ≡ true
unfolding before
before_refl a = ground arith

weaken :
    (now : ℕ) (a b : JobRow) (rows : List JobRow)
    → before a b ≡ true
    → All (λ row. (not (claimable now row) || before b row) ≡ true) rows
    → All (λ row. (not (claimable now row) || before a row) ≡ true) rows
weaken now a b [] h all_rows = tt
weaken now a b (row ∷ rows) h all_rows =
    (ground (arith, all_rows.0, before_trans a b row), weaken now a b rows h all_rows.1)

none-weaken :
    (now : ℕ) (a : JobRow) (rows : List JobRow)
    → All (λ row. claimable now row ≡ false) rows
    → All (λ row. (not (claimable now row) || before a row) ≡ true) rows
none-weaken now a [] h = tt
none-weaken now a (row ∷ rows) h = (rw h.0 refl, none-weaken now a rows h.1)

-- a claimable row joins rows whose first is known
IsFirst-sooner :
    (now : ℕ) (row : JobRow) (rows : List JobRow) (rest : Option JobRow)
    → claimable now row ≡ true
    → IsFirst now rows rest
    → IsFirst now (row ∷ rows) (some (sooner row rest))
unfolding sooner
IsFirst-sooner now row rows none c h =
    (c, ground arith, (ground (arith, before_refl row), none-weaken now row rows h))
IsFirst-sooner now row rows (some b) c h = elim (Bool-cases (before row b)) [
  | inl e ↦
      let p : row ≡ sooner row (some b) = rw e in
      subst (λ f. IsFirst now (row ∷ rows) (some f)) p
        (c, ground arith, (ground (arith, before_refl row), weaken now row b rows e h.2))
  | inr e ↦
      let p : b ≡ sooner row (some b) = rw e in
      subst (λ f. IsFirst now (row ∷ rows) (some f)) p
        (h.0, ground (arith, h.1), (ground (arith, before_flip row b), h.2))
]

IsFirst-skip :
    (now : ℕ) (row : JobRow) (rows : List JobRow) (rest : Option JobRow)
    → claimable now row ≡ false
    → IsFirst now rows rest
    → IsFirst now (row ∷ rows) rest
IsFirst-skip now row rows none c h = (c, h)
IsFirst-skip now row rows (some b) c h = (h.0, ground (arith, h.1), (rw c refl, h.2))

candidate-IsFirst : (now : ℕ) (rows : List JobRow) → IsFirst now rows (candidate now rows)
unfolding candidate
candidate-IsFirst now [] = tt
candidate-IsFirst now (row ∷ rows) = elim (Bool-cases (claimable now row)) [
  | inl e ↦ rw e (IsFirst-sooner now row rows (candidate now rows) e (candidate-IsFirst now rows))
  | inr e ↦ rw e (IsFirst-skip now row rows (candidate now rows) e (candidate-IsFirst now rows))
]

-- a row after the claim of row `id`
abbrev pub taken : Name → ℕ → ℕ → JobRow → JobRow
taken worker until id row =
    if row.id == id
    then record row {
      status = running;
      attempt = row.attempt + 1;
      leased_by = some worker;
      lease_expires_at = some until;
    }
    else row

-- the job that stands for a claimed row
abbrev pub Stands : JobRow → ℕ → DurableJob → Type 0
Stands row until job =
    (job.id ≡ row.id)
    × (job.tenant_id ≡ row.tenant_id)
    × (job.kind ≡ row.kind)
    × (job.payload ≡ row.payload)
    × (job.idempotency_key ≡ row.idempotency_key)
    × (job.attempt ≡ row.attempt + 1)
    × (job.max_attempts ≡ row.max_attempts)
    × (job.lease_expires_at ≡ until)

-- the row is pending and due, or running on a lease that is over
abbrev pub is_due : ℕ → JobRow → Bool
is_due now row = elim row.status [
  | pending ↦ leb row.available_at now
  | running ↦ elim row.lease_expires_at [ none ↦ false | some t ↦ leb t now ]
  | succeeded ↦ false
  | dead_letter ↦ false
]

abbrev pub can_take : (ℕ → Bool) → ℕ → JobRow → Bool
can_take locked now row = not (locked row.id) && is_due now row

-- by due time and then id
abbrev pub no_later : JobRow → JobRow → Bool
no_later a b =
    if a.available_at == b.available_at then leb a.id b.id else ltb a.available_at b.available_at

-- what a claim that did not raise returned, and the queue `t` after it
abbrev pub Claimed : (ℕ → Bool) → Name → ℕ → ℕ → Queue → Queue → Option DurableJob → Type 0
Claimed locked worker lease_seconds now s t none =
    All (λ row. can_take locked now row ≡ false) s.rows × (t ≡ s)
Claimed locked worker lease_seconds now s t (some job) =
    (row : JobRow) × IsAmong row s.rows
    × (can_take locked now row ≡ true)
    × All (λ r. (not (can_take locked now r) || no_later row r) ≡ true) s.rows
    × Stands row (now + lease_seconds) job
    × (t ≡ record s { rows = map (taken worker (now + lease_seconds) row.id) s.rows })

claimable-is_due : (now : ℕ) (row : JobRow) → claimable now row ≡ is_due now row
unfolding claimable
claimable-is_due now row = ground arith

none_taken :
    (locked : ℕ → Bool) (now : ℕ) (rows : List JobRow)
    → All (λ row. claimable now row ≡ false) (unlocked locked rows)
    → All (λ row. can_take locked now row ≡ false) rows
none_taken locked now rows h =
    All-map (λ row. not (locked row.id) ≡ true → claimable now row ≡ false)
      (λ row. can_take locked now row ≡ false) rows
      (λ row k. elim (Bool-cases (locked row.id)) [
        | inl l ↦ ground (arith, l)
        | inr l ↦
            let free = k (ground (arith, l)) in ground (arith, l, free, claimable-is_due now row)
      ])
      (All-unkeep (λ row. claimable now row ≡ false) (λ row. not (locked row.id)) rows h)

none_sooner :
    (locked : ℕ → Bool) (now : ℕ) (first : JobRow) (rows : List JobRow)
    → All (λ row. (not (claimable now row) || before first row) ≡ true) (unlocked locked rows)
    → All (λ row. (not (can_take locked now row) || no_later first row) ≡ true) rows
unfolding before
none_sooner locked now first rows h =
    All-map
      (λ row. not (locked row.id) ≡ true → (not (claimable now row) || before first row) ≡ true)
      (λ row. (not (can_take locked now row) || no_later first row) ≡ true) rows
      (λ row k. elim (Bool-cases (locked row.id)) [
        | inl l ↦ ground (arith, l)
        | inr l ↦
            let last = k (ground (arith, l)) in ground (arith, l, last, claimable-is_due now row)
      ])
      (All-unkeep (λ row. (not (claimable now row) || before first row) ≡ true)
        (λ row. not (locked row.id)) rows h)

candidate-IsAmong :
    (now : ℕ) (rows : List JobRow) (row : JobRow) → candidate now rows ≡ some row → IsAmong row rows
unfolding candidate sooner
candidate-IsAmong now [] row e = absurd cc
candidate-IsAmong now (r ∷ rows) row e = elim (Option-cases (candidate now rows)) [
  | inl n ↦ elim (Bool-cases (claimable now r)) [
    | inl c ↦ inl (ground arith)
    | inr c ↦ absurd (ground arith)
  ]
  | inr (first, n) ↦
      let rest = candidate-IsAmong now rows first n in
      elim (Bool-cases (claimable now r)) [
        | inr c ↦ inr (subst (λ x. IsAmong x rows) (ground arith) rest)
        | inl c ↦ elim (Bool-cases (before r first)) [
          | inl b ↦ inl (ground arith)
          | inr b ↦ inr (subst (λ x. IsAmong x rows) (ground arith) rest)
        ]
      ]
]

IsAmong-unlocked :
    (locked : ℕ → Bool) (rows : List JobRow) (row : JobRow)
    → IsAmong row (unlocked locked rows)
    → IsAmong row rows × (locked row.id ≡ false)
IsAmong-unlocked locked [] row h = absurd h
IsAmong-unlocked locked (r ∷ rows) row h = elim (Bool-cases (locked r.id)) [
  | inl l ↦
      let skip : unlocked locked (r ∷ rows) ≡ unlocked locked rows = rw l refl in
      let (among, free) = IsAmong-unlocked locked rows row (subst (IsAmong row) skip h) in
      (inr among, free)
  | inr l ↦
      let stay : unlocked locked (r ∷ rows) ≡ r ∷ unlocked locked rows = rw l refl in
      let h' : (row ≡ r) ⊎ IsAmong row (unlocked locked rows) = subst (IsAmong row) stay h in
      elim h' [
        | inl e ↦ (inl e, rw e l)
        | inr k ↦ let (among, free) = IsAmong-unlocked locked rows row k in (inr among, free)
      ]
]

update_rows-taken :
    (worker : Name) (until id : ℕ) (rows : List JobRow)
    → update_rows (has_id id) (leased worker until) rows ≡ map (taken worker until id) rows
unfolding update_rows
update_rows-taken worker until id [] = refl
update_rows-taken worker until id (row ∷ rows) =
    ground (arith, update_rows-taken worker until id rows)

-- A claim with a lease of at least five seconds never raises. It returns no job only if no row that
-- is not locked by another transaction can be claimed (is due and pending, or running on a lease that
-- is over), and then changes nothing. Otherwise it takes the claimable row of the queue that comes
-- first by due time and then id: the job has the row's tenant, kind, payload, key and limit of
-- attempts, whatever that is, with one attempt more, and in the queue the row of that id is running
-- with that attempt and the worker's lease, the others as they were.
pub claim-Claimed :
    (locked : ℕ → Bool) (worker : Name) (lease_seconds now : ℕ) (s : Queue)
    → 5 ≤ lease_seconds
    → (job : Option DurableJob) × ((claim locked worker lease_seconds now s).0 ≡ ok job)
      × Claimed locked worker lease_seconds now s (claim locked worker lease_seconds now s).1 job
unfolding claim
claim-Claimed locked worker lease_seconds now s h =
    let rows = unlocked locked s.rows in
    elim (Option-cases (candidate now rows)) [
      | inl e ↦ (
        none,
        ground arith,
        (
          none_taken locked now s.rows (subst (IsFirst now rows) e (candidate-IsFirst now rows)),
          ground arith,
        ),
      )
      | inr (row, e) ↦
          let (due, there, first) = subst (IsFirst now rows) e (candidate-IsFirst now rows) in
          let (among, free) =
            IsAmong-unlocked locked s.rows row (candidate-IsAmong now rows row e) in
          (
            some (durable (now + lease_seconds) row),
            ground arith,
            (
              row,
              among,
              ground (arith, free, due, claimable-is_due now row),
              none_sooner locked now row s.rows first,
              (refl, refl, refl, refl, refl, refl, refl, refl),
              ground (arith, update_rows-taken worker (now + lease_seconds) row.id s.rows),
            ),
          )
    ]
