-- ===== src/Policy/Decisions.antt =====
-- What the decisions of packages/policy/engine.py rest on.
use mathlib.Core.Path.{subst}
use compute_weaver.Base.Sorting.{All-unsort_by, All-unkeep, All-kept, All-keep, All-sort_by}
use compute_weaver.Base.{
  ◌≡◌, refl, ◌↔◌, ◌⊎◌, inl, inr, Bool, true, false, List, [], ◌∷◌, map, arith, ◌==◌, Name,
  Bool-cases, List-cases, ==→eq, eq→==, length, keep, All, elem, length-append, All-map, ok,
  Result-cases,
}
use compute_weaver.Base.Dict.{Dict}
use compute_weaver.Policy.{
  Value, Policy, evaluate_rule, tenant_policies, is_hard, PolicyDecision, is_active, prior, start,
  judge, judge_each, active_sorted, conclude, evaluate,
}

-- the policies that count at a site: published, of the tenant, for that site or for all
abbrev pub Applies : Name → Name → Policy → Type 0
Applies tenant site p =
    (p.published ≡ true)
    × (p.tenant_id ≡ tenant)
    × ((p.site_ids ≡ []) ⊎ (elem site p.site_ids ≡ true))

Applies-is_active :
    (tenant site : Name) (p : Policy) → Applies tenant site p → is_active tenant site p ≡ true
Applies-is_active tenant site p (live, own, inl all_sites) =
    let none_named : length p.site_ids ≡ 0 = rw all_sites refl in
    ground (arith, live, own, none_named)
Applies-is_active tenant site p (live, own, inr here) = ground (arith, live, own, here)

is_active-Applies :
    (tenant site : Name) (p : Policy) → is_active tenant site p ≡ true → Applies tenant site p
is_active-Applies tenant site p e = elim (List-cases p.site_ids) [
  | inl n ↦ (ground (arith, e), ground (arith, e), inl n)
  | inr (x, xs, n) ↦
      let named : (length p.site_ids == 0) ≡ false = rw n (ground arith) in
      (ground (arith, e), ground (arith, e), inr (ground (arith, e, named)))
]

module _ (part_of : Name → Name → Bool) (facts : Dict Value) where
  -- a hard policy that the facts meet; a soft one
  abbrev pub Passes : Policy → Type 0
  Passes p = is_hard p.enforcement ≡ true → evaluate_rule part_of p.rule facts ≡ ok true

  judged_before :
      (p : Policy) (matched : Bool) (d : PolicyDecision)
      → length (judge p matched d).hard_violations ≡ 0
      → length d.hard_violations ≡ 0
  judged_before p matched d h = ground (arith, h, length-append d.hard_violations (p.id ∷ []))

  judged_now :
      (p : Policy) (matched : Bool) (d : PolicyDecision)
      → is_hard p.enforcement ≡ true
      → length (judge p matched d).hard_violations ≡ 0
      → evaluate_rule part_of p.rule facts ≡ ok matched
      → evaluate_rule part_of p.rule facts ≡ ok true
  judged_now p true d firm h e = e
  judged_now p false d firm h e =
      ground (arith, firm, h, length-append d.hard_violations (p.id ∷ []))

  judged_after :
      (p : Policy) (matched : Bool) (d : PolicyDecision)
      → length d.hard_violations ≡ 0
      → evaluate_rule part_of p.rule facts ≡ ok matched
      → Passes p
      → length (judge p matched d).hard_violations ≡ 0
  judged_after p matched d h e passes = elim (Bool-cases (is_hard p.enforcement)) [
    | inl t ↦ let m : matched ≡ true = ground (arith, passes t, e) in ground (arith, m, h)
    | inr f ↦ ground (arith, f, h)
  ]

  judge_each-Passes :
      (ps : List Policy) (d d' : PolicyDecision)
      → judge_each part_of facts ps d ≡ ok d'
      → length d'.hard_violations ≡ 0
      → (length d.hard_violations ≡ 0) × All Passes ps
  unfolding judge_each
  judge_each-Passes [] d d' e h = (ground arith, tt)
  judge_each-Passes (p ∷ ps) d d' e h = elim (Result-cases (evaluate_rule part_of p.rule facts)) [
    | inr (x, m) ↦ ground arith
    | inl (matched, m) ↦
        let (before, rest) = judge_each-Passes ps (judge p matched d) d' (ground arith) h in
        (judged_before p matched d before, (λ firm. judged_now p matched d firm before m, rest))
  ]

  Passes-judge_each :
      (ps : List Policy) (d d' : PolicyDecision)
      → judge_each part_of facts ps d ≡ ok d'
      → length d.hard_violations ≡ 0
      → All Passes ps
      → length d'.hard_violations ≡ 0
  unfolding judge_each
  Passes-judge_each [] d d' e h passes = ground arith
  Passes-judge_each (p ∷ ps) d d' e h passes =
      elim (Result-cases (evaluate_rule part_of p.rule facts)) [
        | inr (x, m) ↦ ground arith
        | inl (matched, m) ↦
            Passes-judge_each ps (judge p matched d) d' (ground arith)
              (judged_after p matched d h m passes.0) passes.1
      ]

  sorted→all :
      (tenant site : Name) (ps : List Policy)
      → All Passes (active_sorted part_of facts tenant site ps)
      → All (λ p. Applies tenant site p → Passes p) ps
  unfolding active_sorted
  sorted→all tenant site ps h =
      All-map (λ p. (p.tenant_id == tenant) ≡ true → is_active tenant site p ≡ true → Passes p)
        (λ p. Applies tenant site p → Passes p) ps
        (λ p k applies.
          k (eq→== p.tenant_id tenant applies.1) (Applies-is_active tenant site p applies))
        (All-unkeep (λ p. is_active tenant site p ≡ true → Passes p) (λ p. p.tenant_id == tenant) ps
          (All-unkeep Passes (is_active tenant site) (tenant_policies tenant ps) (
            All-unsort_by Passes prior (keep (is_active tenant site) (tenant_policies tenant ps))
              h)))

  all→sorted :
      (tenant site : Name) (ps : List Policy)
      → All (λ p. Applies tenant site p → Passes p) ps
      → All Passes (active_sorted part_of facts tenant site ps)
  unfolding active_sorted
  all→sorted tenant site ps h =
      All-sort_by Passes prior (keep (is_active tenant site) (tenant_policies tenant ps)) (
        All-kept Passes (is_active tenant site) (tenant_policies tenant ps) (
          All-keep (λ p. is_active tenant site p ≡ true → Passes p) (λ p. p.tenant_id == tenant) ps
            (All-map (λ p. Applies tenant site p → Passes p)
              (λ p. is_active tenant site p ≡ true → Passes p) ps
              (λ p k e. k (is_active-Applies tenant site p e)) h)))

  -- If `evaluate` returns, it allows exactly when the facts meet every hard policy of the tenant that
  -- is published and applies to the site; soft policies never forbid.
  pub evaluate-Passes :
      (tenant site : Name) (ps : List Policy) (d : PolicyDecision)
      → evaluate part_of facts tenant site ps ≡ ok d
      → (d.allowed ≡ true) ↔ All (λ p. Applies tenant site p → Passes p) ps
  unfolding evaluate
  evaluate-Passes tenant site ps d e =
      let active = active_sorted part_of facts tenant site ps in
      let first = start (map (λ p. (p.id, p.version)) active) in
      elim (Result-cases (judge_each part_of facts active first)) [
        | inr (x, m) ↦ ground arith
        | inl (done, m) ↦
            let same : conclude part_of facts done ≡ d = ground arith in
            subst
              (λ (q : PolicyDecision).
                (q.allowed ≡ true) ↔ All (λ p. Applies tenant site p → Passes p) ps)
              same
              (
                λ t.
                    sorted→all tenant site ps
                      (judge_each-Passes active first done m
                        (==→eq (length done.hard_violations) 0 t)).1,
                λ passes.
                    eq→== (length done.hard_violations) 0 (
                      Passes-judge_each active first done m refl
                        (all→sorted tenant site ps passes)),
              )
      ]
