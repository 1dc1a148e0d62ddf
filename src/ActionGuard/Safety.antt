-- ===== src/ActionGuard/Safety.antt =====
-- What an action that the guard allows is sure to satisfy.
use compute_weaver.Base.{
  ◌+◌, ◌≤◌, ◌<◌, ◌≡◌, refl, inl, inr, true, false, ◌&&◌, Option, none, some, List, [], ◌∷◌, ◌++◌,
  arith, leb, Name, All, elem, ok, Result-cases,
}
use compute_weaver.Base.Dict.{Dict}
use compute_weaver.Risk.{level}
use compute_weaver.Approval.{Moment, ApprovalRequest}
use compute_weaver.ActionGuard.{
  Parameter, number, Bound, Action, Reason, ActionGuard, prohibited_energy_commands, is_within,
  bound_reasons, is_approved, approval_reasons, is_empty, evaluate, basic_reasons, GuardDecision,
}

abbrev Within : Option Parameter → Bound → Type 0
Within (some (number v)) b = is_within b v ≡ true
Within _ b = true ≡ false

abbrev pub IsBounded : Dict Parameter → Bound → Type 0
IsBounded parameters b = Within (parameters b.name) b

-- the approval that an action of risk L2 or more needs
abbrev pub Covers : Action → Moment → Option ApprovalRequest → Type 0
Covers a now none = true ≡ false
Covers a now (some r) =
    (is_approved r.status ≡ true)
    × (r.plan_id ≡ a.plan_id)
    × (r.tenant_id ≡ a.tenant_id)
    × (now.at < r.expires_at.at)

pub record IsSafe (g : ActionGuard) (a : Action) (version : Name) (now : Moment)
    (approval : Option ApprovalRequest) : Type 0 where
  pub listed : elem a.kind g.whitelist ≡ true
  pub high_level : elem a.kind prohibited_energy_commands ≡ false
  pub current : version ≡ a.expected_state_version
  pub fresh : now.at ≤ a.created_at.at + g.max_age
  pub bounded : All (IsBounded a.parameters) a.bounds
  pub covered : leb 2 (level a.risk) ≡ true → Covers a now approval

is_empty-append : (xs ys : List Reason) → is_empty (xs ++ ys) ≡ (is_empty xs && is_empty ys)
is_empty-append [] ys = refl
is_empty-append (x ∷ xs) ys = refl

bounds_kept :
    (parameters : Dict Parameter) (bounds : List Bound) (rs : List Reason)
    → bound_reasons parameters bounds ≡ ok rs
    → is_empty rs ≡ true
    → All (IsBounded parameters) bounds
unfolding bound_reasons
bounds_kept parameters [] rs e h = tt
bounds_kept parameters (b ∷ bounds) rs e h = elim (Result-cases (bound_reasons parameters bounds)) [
  | inl (qs, n) ↦ (ground arith, bounds_kept parameters bounds qs n (ground arith))
  | inr (f, n) ↦ ground arith
]

approval_kept :
    (a : Action) (now : Moment) (approval : Option ApprovalRequest) (rs : List Reason)
    → approval_reasons a now approval ≡ ok rs
    → is_empty rs ≡ true
    → leb 2 (level a.risk) ≡ true
    → Covers a now approval
unfolding approval_reasons
approval_kept a now none rs e h high = ground arith
approval_kept a now (some r) rs e h high = ground arith

basic_kept :
    (g : ActionGuard) (a : Action) (version : Name) (now : Moment)
    → is_empty (basic_reasons g a version now) ≡ true
    → (elem a.kind g.whitelist ≡ true)
      × (elem a.kind prohibited_energy_commands ≡ false)
      × (version ≡ a.expected_state_version)
      × (now.at ≤ a.created_at.at + g.max_age)
unfolding basic_reasons
basic_kept g a version now h = ground arith

decide-IsSafe :
    (g : ActionGuard) (a : Action) (version : Name) (now : Moment)
    (approval : Option ApprovalRequest) (bs rs : List Reason)
    → bound_reasons a.parameters a.bounds ≡ ok bs
    → approval_reasons a now approval ≡ ok rs
    → is_empty (basic_reasons g a version now ++ (bs ++ rs)) ≡ true
    → IsSafe g a version now approval
decide-IsSafe g a version now approval bs rs e f h =
    let parts : (is_empty (basic_reasons g a version now) && (is_empty bs && is_empty rs)) ≡ true =
      rw (← is_empty-append bs rs, ← is_empty-append (basic_reasons g a version now) (bs ++ rs))
        h in
    let (listed, high_level, current, fresh) = basic_kept g a version now (ground arith) in
    record {
      listed = listed;
      high_level = high_level;
      current = current;
      fresh = fresh;
      bounded = bounds_kept a.parameters a.bounds bs e (ground arith);
      covered = approval_kept a now approval rs f (ground arith);
    }

-- An action that the guard allows is of a listed kind that is no low-level energy command, expects
-- the state's version, is not older than the guard's age, has a number within each of its bounds,
-- and, from risk L2 on, has an approved approval of its plan and tenant that is not yet expired.
pub evaluate-IsSafe :
    (g : ActionGuard) (a : Action) (version : Name) (now : Moment)
    (approval : Option ApprovalRequest) (d : GuardDecision)
    → evaluate g a version now approval ≡ ok d
    → d.allowed ≡ true
    → IsSafe g a version now approval
unfolding evaluate
evaluate-IsSafe g a version now approval d e h =
    elim (Result-cases (bound_reasons a.parameters a.bounds)) [
      | inr (x, n) ↦ ground arith
      | inl (bs, n) ↦ elim (Result-cases (approval_reasons a now approval)) [
        | inr (x, m) ↦ ground arith
        | inl (rs, m) ↦ decide-IsSafe g a version now approval bs rs n m (ground arith)
      ]
    ]
