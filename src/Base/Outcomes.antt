-- ===== src/Base/Outcomes.antt =====
-- What a call ends with, and methods that change an object and may raise.
use mathlib.Core.Path.{◌≡◌, refl}
use mathlib.Core.Bool.{Bool, true, false}
use mathlib.Core.Logic.{◌⊎◌, inl, inr}
use mathlib.Core.Option.{Option, none, some}
use compute_weaver.Base.Tests.{Name, is_blank, Bool-cases, if◌then◌else◌}

-- The value that a call returns, or the exception that it raises.
pub data Result {ℓ κ} (E : Type ℓ) (A : Type κ) : Type (ℓ ⊔ κ) where
  ok : A → Result E A
  err : E → Result E A

abbrev pub is_ok {ℓ κ} : {E : Type ℓ} {A : Type κ} → Result E A → Bool
is_ok (ok _) = true
is_ok (err _) = false

pub Result-cases {ℓ κ} :
    {E : Type ℓ} {A : Type κ} (r : Result E A) → ((a : A) × (r ≡ ok a)) ⊎ ((e : E) × (r ≡ err e))
Result-cases (ok a) = inl (a, refl)
Result-cases (err e) = inr (e, refl)

-- A method of an object with state `S`. What was written before a raise stays written, so the state
-- comes back beside the exception too.
abbrev pub Method : Type 0 → Type 0 → Type 0 → Type 0
Method S E A = S → Result E A × S

module _ {S E A : Type 0} where
  abbrev pub pure : A → Method S E A
  pure a s = (ok a, s)

  abbrev pub raise : E → Method S E A
  raise e s = (err e, s)

  abbrev pub gets : (S → A) → Method S E A
  gets f s = (ok (f s), s)

  abbrev pub or_raise : Option A → E → Method S E A
  or_raise none e = raise e
  or_raise (some a) _ = pure a

  abbrev pub lift : Result E A → Method S E A
  lift r s = (r, s)

module _ {S E : Type 0} where
  abbrev pub raise_if : Bool → E → Method S E (Unit {0})
  raise_if c e s = (if c then err e else ok tt, s)

  abbrev pub modify : (S → S) → Method S E (Unit {0})
  modify f s = (ok tt, f s)

infixl 5 ◌>>=◌ ◌>>◌
abbrev pub ◌>>=◌ : {S E A B : Type 0} → Method S E A → (A → Method S E B) → Method S E B
◌>>=◌ m f s = let (r, s') = m s in elim r [ ok a ↦ f a s' | err e ↦ raise e s' ]

abbrev pub ◌>>◌ : {S E A B : Type 0} → Method S E A → Method S E B → Method S E B
m >> k = m >>= λ _. k

-- `with pool.connection()` of psycopg_pool: `abort before now` is the database after a block that
-- began at `before` has raised at `now`. The pool's documentation says that it rolls back.
pub record Pool (S : Type 0) : Type 0 where
  pub abort : S → S → S
  pub abort_rolls_back : (before now : S) → abort before now ≡ before

abbrev pub settle : {S E A : Type 0} → Pool S → S → Result E A × S → Result E A × S
settle pool s (ok a, s') = (ok a, s')
settle pool s (err e, s') = (err e, pool.abort s s')

-- the block under `with`
abbrev pub transaction : {S E A : Type 0} → Pool S → Method S E A → Method S E A
transaction pool m s = settle pool s (m s)

settle_keeps :
    {S E A : Type 0} (P : S → Type 0) (pool : Pool S) (s : S) (out : Result E A × S)
    → P s
    → P out.1
    → P (settle pool s out).1
settle_keeps P pool s (ok a, s') before after = after
settle_keeps P pool s (err e, s') before after = rw pool.abort_rolls_back before

-- What holds before a transaction, and after its block, holds after the transaction.
pub transaction_keeps :
    {S E A : Type 0} (P : S → Type 0) (pool : Pool S) (m : Method S E A) (s : S)
    → P s
    → P (m s).1
    → P (transaction pool m s).1
transaction_keeps P pool m s before after = settle_keeps P pool s (m s) before after

abbrev pub rollback : {S : Type 0} → Pool S
rollback = record { abort = λ before now. before; abort_rolls_back = λ before now. refl }

-- `PostgresRuntime.tenant_connection` of packages/persistence/postgres.py: a transaction of one
-- tenant, whose name is not empty. (Names hold no NUL.)
abbrev pub tenant_transaction : {S E A : Type 0} → Pool S → E → Name → Method S E A → Method S E A
tenant_transaction pool e tenant m = do raise_if (is_blank tenant) e; transaction pool m

pub tenant_transaction_keeps :
    {S E A : Type 0} (P : S → Type 0) (pool : Pool S) (e : E) (tenant : Name) (m : Method S E A)
    (s : S)
    → P s
    → P (m s).1
    → P (tenant_transaction pool e tenant m s).1
tenant_transaction_keeps P pool e tenant m s before after = elim (Bool-cases (is_blank tenant)) [
  | inl b ↦ rw b before
  | inr b ↦ rw b (settle_keeps P pool s (m s) before after)
]
