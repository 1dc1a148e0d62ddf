-- ===== src/Policy/Tests.antt =====
-- Runs of packages/policy/engine.py on small inputs.
use compute_weaver.Base.{
  ℕ, ◌≡◌, refl, ◌↔◌, Bool, true, false, List, [], ◌∷◌, ◌==◌, Name, length, All, ok,
}
use compute_weaver.Base.Int.{pos}
use compute_weaver.Base.Dict.{Dict, empty, insert}
use compute_weaver.Policy.{
  hard, Value, number, Operator, eq, lte, gt, Policy, publish_all, start, evaluate,
}
use compute_weaver.Policy.Decisions.{Applies, Passes, evaluate-Passes}
use compute_weaver.Policy.Conflicts.{IsConsistent, publish_all-IsConsistent}

abbrev limit : Name → Name → List Name → Operator → ℕ → Policy
limit id tenant sites operator value = record {
  id = id;
  version = 1;
  tenant_id = tenant;
  site_ids = sites;
  rule = record { field = 7; operator = operator; value = number (pos value) };
  enforcement = hard;
  priority = pos 10;
  owner = 3;
  published = false;
}

abbrev load : ℕ → Dict Value
load n = insert 7 (number (pos n)) empty

abbrev engine : List Policy
engine = publish_all ((limit 1 4 (5 ∷ []) lte 80, true) ∷ (limit 2 4 [] gt 10, false) ∷ []) []

abbrev part : Name → Name → Bool
part a b = a == b

decision_runs :
    (engine ≡ record (limit 1 4 (5 ∷ []) lte 80) { published = true } ∷ [])
    × (evaluate part (load 80) 4 5 engine
        ≡ ok (record (start ((1, 1) ∷ [])) { explanation = (1, 1, true) ∷ [] }))
    × (evaluate part (load 81) 4 5 engine
        ≡ ok (record (start ((1, 1) ∷ [])) {
          allowed = false;
          hard_violations = 1 ∷ [];
          explanation = (1, 1, false) ∷ [];
        }))
unfolding evaluate publish_all
decision_runs = (refl, refl, refl)

-- A policy for all sites names none, so it meets no other: the two contradict each other everywhere.
global_run :
    length (publish_all ((limit 1 4 [] eq 1, true) ∷ (limit 2 4 [] eq 2, true) ∷ []) []) ≡ 2
unfolding publish_all
global_run = refl

-- The key has no tenant: the policy of tenant 4 is gone once tenant 6 publishes under its id and version.
lost_run :
    publish_all ((limit 1 4 [] lte 80, true) ∷ (limit 1 6 [] lte 99, true) ∷ []) []
    ≡ record (limit 1 6 [] lte 99) { published = true } ∷ []
unfolding publish_all
lost_run = refl

evaluate-Passes_example : (false ≡ true) ↔ All (λ p. Applies 4 5 p → Passes part (load 81) p) engine
unfolding evaluate publish_all
evaluate-Passes_example =
    evaluate-Passes part (load 81) 4 5 engine
      (record (start ((1, 1) ∷ [])) {
        allowed = false;
        hard_violations = 1 ∷ [];
        explanation = (1, 1, false) ∷ [];
      })
      refl

publish_all-IsConsistent_example :
    IsConsistent
      (publish_all ((limit 1 4 (5 ∷ []) eq 1, true) ∷ (limit 2 4 (5 ∷ []) eq 2, true) ∷ []) [])
publish_all-IsConsistent_example =
    publish_all-IsConsistent
      ((limit 1 4 (5 ∷ []) eq 1, true) ∷ (limit 2 4 (5 ∷ []) eq 2, true) ∷ [])
