-- ===== src/Policy/Conflicts.antt =====
-- Published policies of packages/policy/engine.py do not contradict each other.
use compute_weaver.Base.Sorting.{All-unkeep}
use compute_weaver.Base.{
  ◌≡◌, refl, inl, inr, Bool, true, false, not, ◌&&◌, ◌||◌, none, List, [], ◌∷◌, arith, ◌==◌, Name,
  Bool-cases, Option-cases, find, All, elem, All-map, ok, Result-cases,
}
use compute_weaver.Policy.{
  Value, number, text, texts, Policy, same_texts, equal, meet, conflicts, validate_against,
  publish_all, publish, store_policy, is_hard, tenant_policies, same_key, as_published,
}

same_texts_comm : (xs ys : List Name) → same_texts xs ys ≡ same_texts ys xs
same_texts_comm [] [] = refl
same_texts_comm [] (y ∷ ys) = refl
same_texts_comm (x ∷ xs) [] = refl
same_texts_comm (x ∷ xs) (y ∷ ys) = ground (arith, same_texts_comm xs ys)

equal_comm : (a b : Value) → equal a b ≡ equal b a
equal_comm (number a) (number b) = ground arith
equal_comm (number a) (text b) = refl
equal_comm (number a) (texts b) = refl
equal_comm (text a) (number b) = refl
equal_comm (text a) (text b) = ground arith
equal_comm (text a) (texts b) = refl
equal_comm (texts a) (number b) = refl
equal_comm (texts a) (text b) = refl
equal_comm (texts a) (texts b) = same_texts_comm a b

meet-none : (xs : List Name) → meet xs [] ≡ false
meet-none [] = refl
meet-none (x ∷ xs) = meet-none xs

meet-cons : (y : Name) (ys xs : List Name) → meet xs (y ∷ ys) ≡ (elem y xs || meet xs ys)
meet-cons y ys [] = refl
meet-cons y ys (x ∷ xs) = ground (arith, meet-cons y ys xs)

meet_comm : (xs ys : List Name) → meet xs ys ≡ meet ys xs
meet_comm xs [] = meet-none xs
meet_comm xs (y ∷ ys) = ground (arith, meet-cons y ys xs, meet_comm xs ys)

-- The two are of different tenants, or do not demand two values of one field with one priority at a
-- site that they share.
abbrev pub Agree : Policy → Policy → Type 0
Agree p q = conflicts p q ≡ false

-- the same, whichever of the two comes first, of published policies
Agree-comm : (p q : Policy) → p.published ≡ true → Agree q p → Agree p q
Agree-comm p q e h =
    ground (arith, e, h, meet_comm p.site_ids q.site_ids, equal_comm p.rule.value q.rule.value)

-- any two policies of the list agree
unfoldable pub AllAgree : List Policy → Type 0
AllAgree [] = Unit
AllAgree (p ∷ ps) = All (Agree p) ps × AllAgree ps

-- what the engine's list is to be
pub record IsConsistent (ps : List Policy) : Type 0 where
  pub agree : AllAgree ps
  pub all_published : All (λ p. p.published ≡ true) ps

store_policy-All :
    (P : Policy → Type 0) (new : Policy) (ps : List Policy)
    → All P ps
    → P new
    → All P (store_policy new ps)
unfolding store_policy
store_policy-All P new [] h n = (n, tt)
store_policy-All P new (p ∷ ps) h n = elim (Bool-cases (same_key p new)) [
  | inl t ↦ rw t (n, h.1)
  | inr f ↦ rw f (h.0, store_policy-All P new ps h.1 n)
]

store_policy-AllAgree :
    (new : Policy) (ps : List Policy)
    → All (λ p. p.published ≡ true) ps
    → All (Agree new) ps
    → AllAgree ps
    → AllAgree (store_policy new ps)
unfolding store_policy AllAgree
store_policy-AllAgree new [] live fresh h = (tt, tt)
store_policy-AllAgree new (p ∷ ps) live fresh h = elim (Bool-cases (same_key p new)) [
  | inl t ↦ rw t (fresh.1, h.1)
  | inr f ↦ rw f (
    store_policy-All (Agree p) new ps h.0 (Agree-comm p new live.0 fresh.0),
    store_policy-AllAgree new ps live.1 fresh.1 h.1,
  )
]

find-none : (c : Policy → Bool) (ps : List Policy) → find c ps ≡ none → All (λ p. c p ≡ false) ps
find-none c [] e = tt
find-none c (p ∷ ps) e = elim (Bool-cases (c p)) [
  | inl t ↦ ground arith
  | inr f ↦ (f, find-none c ps (ground arith))
]

validated-Agree :
    (policy : Policy) (ps : List Policy) (u : Unit {0})
    → validate_against policy (tenant_policies policy.tenant_id ps) ≡ ok u
    → All (Agree policy) ps
unfolding validate_against
validated-Agree policy ps u e =
    elim (Option-cases (find (conflicts policy) (tenant_policies policy.tenant_id ps))) [
      | inr (q, f) ↦ ground arith
      | inl f ↦
          All-map (λ p. (p.tenant_id == policy.tenant_id) ≡ true → Agree policy p) (Agree policy) ps
            (λ p h. elim (Bool-cases (p.tenant_id == policy.tenant_id)) [
              | inl t ↦ h t
              | inr g ↦ ground (arith, g)
            ])
            (All-unkeep (Agree policy) (λ p. p.tenant_id == policy.tenant_id) ps
              (find-none (conflicts policy) (tenant_policies policy.tenant_id ps) f))
    ]

publish-IsConsistent :
    (policy : Policy) (safety : Bool) (ps : List Policy)
    → IsConsistent ps
    → IsConsistent (publish policy safety ps).1
unfolding publish
publish-IsConsistent policy safety ps h =
    elim (Bool-cases (is_hard policy.enforcement && not safety)) [
      | inl t ↦ rw (t, publish) h
      | inr f ↦
          elim (Result-cases (validate_against policy (tenant_policies policy.tenant_id ps))) [
            | inr (x, e) ↦ rw (f, e, publish) h
            | inl (u, e) ↦
                rw (f, e, publish)
                  (record {
                    agree =
                        store_policy-AllAgree (as_published policy) ps h.all_published
                          (validated-Agree policy ps u e) h.agree;
                    all_published =
                        store_policy-All (λ p. p.published ≡ true) (as_published policy) ps
                          h.all_published refl;
                  })
          ]
    ]

publish_all-keeps :
    (calls : List (Policy × Bool)) (ps : List Policy)
    → IsConsistent ps
    → IsConsistent (publish_all calls ps)
unfolding publish_all
publish_all-keeps [] ps h = h
publish_all-keeps ((policy, safety) ∷ calls) ps h =
    publish_all-keeps calls (publish policy safety ps).1 (publish-IsConsistent policy safety ps h)

-- After any calls of `publish` on a new engine, raising or not, all its policies are published, and
-- no two policies of one tenant demand by `eq` two different values of one field, with one priority
-- and at a site that both name.
pub publish_all-IsConsistent : (calls : List (Policy × Bool)) → IsConsistent (publish_all calls [])
unfolding AllAgree
publish_all-IsConsistent calls =
    publish_all-keeps calls [] (record { agree = tt; all_published = tt })
