-- ===== src/Quota/Service.antt =====
-- `QuotaLedger.reserve` as the callers see it, in memory and over the database.
use compute_weaver.Base.{
  ◌≡◌, sym, ap, ◌∙◌, inl, inr, Bool, false, ◌||◌, Option, arith, Name, is_blank, truthy, Bool-cases,
  Option-cases, Result, ok, err, Method, Pool, settle,
}
use compute_weaver.Base.Int.{ℤ, pos_part, is_negative}
use compute_weaver.Quota.{Demand, QuotaLedger, Error, reserve, reserve_demand, reserve_new}
use compute_weaver.Quota.Database.{Tables, reserve_db, reserve_row, charge}

-- a ledger that changes nothing when it answers no
pub record QuotaService (S : Type 0) : Type 0 where
  pub reserve_gpus : Name → ℤ → ℤ → Option Name → Method S Error Bool
  pub refused_keeps :
      (tenant : Name) (gpus hours : ℤ) (key : Option Name) (s t : S)
      → reserve_gpus tenant gpus hours key s ≡ (ok false, t)
      → t ≡ s

pub memory_refused_keeps :
    (tenant : Name) (gpus hours : ℤ) (key : Option Name) (s t : QuotaLedger)
    → reserve tenant gpus hours key s ≡ (ok false, t)
    → t ≡ s
unfolding reserve reserve_demand reserve_new
memory_refused_keeps tenant gpus hours key s t e = ground arith

unfoldable pub memory_service : QuotaService QuotaLedger
memory_service = record { reserve_gpus = reserve; refused_keeps = memory_refused_keeps }

settled_refusal :
    (pool : Pool Tables) (s t : Tables) (out : Result Error Bool × Tables)
    → (out.0 ≡ ok false → out.1 ≡ s)
    → settle pool s out ≡ (ok false, t)
    → t ≡ s
settled_refusal pool s t (ok a, u) keeps e = sym (ap (λ o. o.1) e) ∙ keeps (ap (λ o. o.0) e)
settled_refusal pool s t (err a, u) keeps e = ground arith

row_refusal :
    (tenant key : Name) (d : Demand) (s : Tables)
    → (reserve_row tenant key d s).0 ≡ ok false
    → (reserve_row tenant key d s).1 ≡ s
unfolding reserve_row charge
row_refusal tenant key d s e = ground arith

database_refused_keeps :
    (pool : Pool Tables) (tenant : Name) (gpus hours : ℤ) (key : Option Name) (s t : Tables)
    → reserve_db pool tenant gpus hours key s ≡ (ok false, t)
    → t ≡ s
unfolding reserve_db
database_refused_keeps pool tenant gpus hours key s t e = elim (Option-cases (truthy key)) [
  | inl n ↦ ground arith
  | inr (k, n) ↦
      let d : Demand = record { gpus = pos_part gpus; hours = pos_part hours } in
      let out = reserve_row tenant k d s in
      elim (Bool-cases (is_negative gpus || is_negative hours)) [
        | inl b ↦ ground arith
        | inr b ↦ elim (Bool-cases (is_blank tenant)) [
          | inl c ↦ ground arith
          | inr c ↦ settled_refusal pool s t out (row_refusal tenant k d s) (ground arith)
        ]
      ]
]

pub database_service : Pool Tables → QuotaService Tables
database_service pool = record {
  reserve_gpus = reserve_db pool;
  refused_keeps = database_refused_keeps pool;
}
