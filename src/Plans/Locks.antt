-- ===== src/Plans/Locks.antt =====
-- Optimistic locking of plans.
use compute_weaver.Base.{
  ◌+◌, ◌≡◌, not, ◌&&◌, some, arith, ◌==◌, if◌then◌else◌, Name, ok, err, is_ok,
}
use compute_weaver.Base.Dict.{Dict}
use compute_weaver.Plans.{
  active, GovernedPlan, lock_conflict, is_approved, has_violations, differs, Transition, transition,
}

-- After a transition of a plan has succeeded, any other that expects the same version of the plan
-- raises a lock conflict and changes nothing; the plan's version is one up, and no other plan has
-- changed.
pub transition_locks :
    (t u : Transition) (other : Name) (plan : GovernedPlan) (plans : Dict GovernedPlan)
    → (transition t plans).0 ≡ ok plan
    → u.plan_id ≡ t.plan_id
    → u.expected_version ≡ t.expected_version
    → let plans' = (transition t plans).1 in
      (transition u plans' ≡ (err lock_conflict, plans'))
      × (plan.version ≡ t.expected_version + 1)
      × (plans' other ≡ (if other == t.plan_id then some plan else plans other))
unfolding transition
transition_locks t u other plan plans e same expects = ground arith

-- A plan becomes active exactly by a transition that expects its version, from approved, with no
-- hard violations, and with the state version that the plan was made for.
pub activation_iff :
    (t : Transition) (plan : GovernedPlan) (plans : Dict GovernedPlan)
    → plans t.plan_id ≡ some plan
    → t.target ≡ active
    → is_ok (transition t plans).0 ≡ (
        (plan.version == t.expected_version)
        && is_approved plan.state
        && not (has_violations plan)
        && not (differs t.current_state_version plan.state_version))
unfolding transition
activation_iff t plan plans e target = ground arith
