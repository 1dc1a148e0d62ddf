-- ===== src/Quota/Database/Once.antt =====
-- A reservation in the database is released at most once, and is not revived.
use compute_weaver.Base.{
  ℕ, ◌≡◌, refl, inl, inr, false, Option, List, [], ◌∷◌, arith, Name, is_blank, truthy, Bool-cases,
  Option-cases, any, Pool,
}
use compute_weaver.Base.Int.{ℤ, pos, negsuc}
use compute_weaver.Quota.Database.{
  Reservation, Tables, held, release_db, mark_released, release_row,
}

any-mark :
    (tenant key : Name) (gpus hours : ℤ) (now : ℕ) (rows : List Reservation)
    → any (held tenant key gpus hours) (mark_released (held tenant key gpus hours) now rows) ≡ false
unfolding mark_released
any-mark tenant key gpus hours now [] = refl
any-mark tenant key (pos g) (pos k) now (r ∷ rows) =
    ground (arith, any-mark tenant key (pos g) (pos k) now rows)
any-mark tenant key (pos g) (negsuc k) now (r ∷ rows) =
    any-mark tenant key (pos g) (negsuc k) now rows
any-mark tenant key (negsuc g) k now (r ∷ rows) = any-mark tenant key (negsuc g) k now rows

release_row_once :
    (tenant key : Name) (gpus hours : ℤ) (now later : ℕ) (s : Tables)
    → let t = (release_row tenant key gpus hours now s).1 in
      (release_row tenant key gpus hours later t).1 ≡ t
unfolding release_row
release_row_once tenant key gpus hours now later s =
    elim (Bool-cases (any (held tenant key gpus hours) s.reservations)) [
      | inl e ↦ rw (e, any-mark)
      | inr e ↦ rw (e, e)
    ]

-- A release that is repeated, at whatever time, changes nothing: neither the usage nor the row.
pub release_once :
    (pool : Pool Tables) (tenant : Name) (gpus hours : ℤ) (key : Option Name) (now later : ℕ)
    (s : Tables)
    → let t = (release_db pool tenant gpus hours key now s).1 in
      (release_db pool tenant gpus hours key later t).1 ≡ t
unfolding release_db
release_once pool tenant gpus hours key now later s = elim (Option-cases (truthy key)) [
  | inl n ↦ rw n
  | inr (k, n) ↦ elim (Bool-cases (is_blank tenant)) [
    | inl b ↦ rw (n, b)
    | inr b ↦ rw (n, b) (release_row_once tenant k gpus hours now later s)
  ]
]
