-- ===== src/Policy.antt =====
-- packages/policy/engine.py and models.py: policies and `PolicyEngine` in memory. A value of a fact or
-- a rule is a number, a text or a list of texts; `part_of` is Python's substring test. `_policies` is
-- a list in insertion order: a policy carries its key.
pub mod Decisions
pub mod Conflicts
mod Tests
use compute_weaver.Base.{
  ℕ, ◌<◌, Bool, true, false, not, ◌&&◌, ◌||◌, none, some, List, [], ◌∷◌, ◌++◌, map, ltb, ◌==◌,
  if◌then◌else◌, Name, length, any, keep, find, elem, Result, ok, err, Method, raise,
}
use compute_weaver.Base.Int.{ℤ, ltb_ℤ, leb_ℤ}
use compute_weaver.Base.Dict.{Dict}
use compute_weaver.Base.Sorting.{sort_by}

pub data Enforcement : Type 0 where
  hard soft : Enforcement

pub data Value : Type 0 where
  number : ℤ → Value
  text : Name → Value
  texts : List Name → Value

pub data Operator : Type 0 where
  eq ne lt lte gt gte within contains : Operator
  unsupported : Name → Operator

pub record PolicyRule : Type 0 where
  pub field : Name
  pub operator : Operator
  pub value : Value

pub record Policy : Type 0 where
  pub id : Name
  pub version : ℕ
  pub tenant_id : Name
  pub site_ids : List Name
  pub rule : PolicyRule
  pub enforcement : Enforcement
  pub priority : ℤ
  pub owner : Name
  pub published : Bool

-- `type_error` is Python's, of a comparison of different types
pub data PolicyError : Type 0 where
  unsupported_operator type_error not_safety_admin : PolicyError
  conflict : Name → ℕ → PolicyError

abbrev pub same_texts : List Name → List Name → Bool
same_texts [] [] = true
same_texts [] (_ ∷ _) = false
same_texts (_ ∷ _) [] = false
same_texts (x ∷ xs) (y ∷ ys) = (x == y) && same_texts xs ys

-- `a == b`
abbrev pub equal : Value → Value → Bool
equal (number a) (number b) = leb_ℤ a b && leb_ℤ b a
equal (text a) (text b) = a == b
equal (texts a) (texts b) = same_texts a b
equal _ _ = false

-- `a < b` of lists
abbrev pub texts_below : List Name → List Name → Bool
texts_below xs [] = false
texts_below [] (_ ∷ _) = true
texts_below (x ∷ xs) (y ∷ ys) = ltb x y || ((x == y) && texts_below xs ys)

-- `a < b`
abbrev pub less : Value → Value → Result PolicyError Bool
less (number a) (number b) = ok (ltb_ℤ a b)
less (text a) (text b) = ok (ltb a b)
less (texts a) (texts b) = ok (texts_below a b)
less _ _ = err type_error

-- `a <= b`, of one type, is that `b < a` is false
abbrev pub less_equal : Value → Value → Result PolicyError Bool
less_equal a b = elim (less b a) [ ok below ↦ ok (not below) | err e ↦ err e ]

module _ (part_of : Name → Name → Bool) where
  -- `a in b`
  abbrev pub contained : Value → Value → Result PolicyError Bool
  contained (text a) (text b) = ok (part_of a b)
  contained (text a) (texts b) = ok (elem a b)
  contained (number a) (texts b) = ok false
  contained (texts a) (texts b) = ok false
  contained _ _ = err type_error

  abbrev pub operate : Operator → Value → Value → Result PolicyError Bool
  operate eq actual value = ok (equal actual value)
  operate ne actual value = ok (not (equal actual value))
  operate lt actual value = less actual value
  operate lte actual value = less_equal actual value
  operate gt actual value = less value actual
  operate gte actual value = less_equal value actual
  operate within actual value = contained actual value
  operate contains actual value = contained value actual
  operate (unsupported _) actual value = err unsupported_operator

  abbrev pub evaluate_rule : PolicyRule → Dict Value → Result PolicyError Bool
  evaluate_rule rule facts = elim (facts rule.field) [
    | none ↦ ok false
    | some actual ↦ operate rule.operator actual rule.value
  ]

-- `frozenset &`, as a test
abbrev pub meet : List Name → List Name → Bool
meet xs ys = any (λ x. elem x ys) xs

abbrev pub is_eq : Operator → Bool
is_eq eq = true
is_eq _ = false

abbrev pub same_priority : ℤ → ℤ → Bool
same_priority a b = leb_ℤ a b && leb_ℤ b a

-- the condition of `_validate_against`
abbrev pub conflicts : Policy → Policy → Bool
conflicts policy other =
    other.published
    && (other.tenant_id == policy.tenant_id)
    && meet other.site_ids policy.site_ids
    && (other.rule.field == policy.rule.field)
    && same_priority other.priority policy.priority
    && is_eq other.rule.operator
    && is_eq policy.rule.operator
    && not (equal other.rule.value policy.rule.value)

pub validate_against : Policy → List Policy → Result PolicyError (Unit {0})
validate_against policy existing = elim (find (conflicts policy) existing) [
  | none ↦ ok tt
  | some other ↦ err (conflict other.id other.version)
]

abbrev pub tenant_policies : Name → List Policy → List Policy
tenant_policies tenant policies = keep (λ p. p.tenant_id == tenant) policies

-- the key `(id, version)`
abbrev pub same_key : Policy → Policy → Bool
same_key a b = (a.id == b.id) && (a.version == b.version)

-- `self._policies[(id, version)] = policy`
pub store_policy : Policy → List Policy → List Policy
store_policy policy [] = policy ∷ []
store_policy policy (p ∷ ps) =
    let rest = store_policy policy ps in if same_key p policy then policy ∷ ps else p ∷ rest

abbrev pub is_hard : Enforcement → Bool
is_hard hard = true
is_hard soft = false

abbrev pub as_published : Policy → Policy
as_published policy = record policy { published = true }

-- `safety` says whether `"safety_admin" in actor_roles`
pub publish : Policy → Bool → Method (List Policy) PolicyError Policy
unfolding validate_against store_policy
publish policy safety policies =
    if is_hard policy.enforcement && not safety
    then (err not_safety_admin, policies)
    else elim (validate_against policy (tenant_policies policy.tenant_id policies)) [
      | err e ↦ (err e, policies)
      | ok _ ↦ (ok (as_published policy), store_policy (as_published policy) policies)
    ]

-- the engine after a sequence of calls, each of which may raise
pub publish_all : List (Policy × Bool) → List Policy → List Policy
unfolding publish
publish_all [] policies = policies
publish_all ((policy, safety) ∷ calls) policies =
    publish_all calls (publish policy safety policies).1

pub record PolicyDecision : Type 0 where
  pub allowed : Bool
  pub hard_violations : List Name
  pub warnings : List Name
  pub active_policies : List (Name × ℕ)
  pub explanation : List (Name × ℕ × Bool)

abbrev pub is_active : Name → Name → Policy → Bool
is_active tenant site p =
    p.published && (p.tenant_id == tenant) && ((length p.site_ids == 0) || elem site p.site_ids)

-- before by `(-priority, id)`
abbrev pub prior : Policy → Policy → Bool
prior a b = ltb_ℤ b.priority a.priority || (same_priority a.priority b.priority && ltb a.id b.id)

abbrev pub start : List (Name × ℕ) → PolicyDecision
start active = record {
  allowed = true;
  hard_violations = [];
  warnings = [];
  active_policies = active;
  explanation = [];
}

-- what the loop appends for a policy
abbrev pub judge : Policy → Bool → PolicyDecision → PolicyDecision
judge p matched d = record d {
  hard_violations =
      if not matched && is_hard p.enforcement
      then d.hard_violations ++ p.id ∷ []
      else d.hard_violations;
  warnings =
      if not matched && not (is_hard p.enforcement) then d.warnings ++ p.id ∷ [] else d.warnings;
  explanation = d.explanation ++ (p.id, p.version, matched) ∷ [];
}

module _ (part_of : Name → Name → Bool) (facts : Dict Value) where
  pub judge_each : List Policy → PolicyDecision → Result PolicyError PolicyDecision
  judge_each [] d = ok d
  judge_each (p ∷ ps) d = elim (evaluate_rule part_of p.rule facts) [
    | err e ↦ err e
    | ok matched ↦ judge_each ps (judge p matched d)
  ]

  pub active_sorted : Name → Name → List Policy → List Policy
  unfolding sort_by
  active_sorted tenant site policies =
      sort_by prior (keep (is_active tenant site) (tenant_policies tenant policies))

  abbrev pub conclude : PolicyDecision → PolicyDecision
  conclude d = record d { allowed = length d.hard_violations == 0 }

  pub evaluate : Name → Name → List Policy → Result PolicyError PolicyDecision
  unfolding judge_each active_sorted
  evaluate tenant site policies =
      let active = active_sorted tenant site policies in
      elim (judge_each active (start (map (λ p. (p.id, p.version)) active))) [
        | err e ↦ err e
        | ok d ↦ ok (conclude d)
      ]
