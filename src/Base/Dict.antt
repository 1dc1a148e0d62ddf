-- ===== src/Base/Dict.antt =====
-- A Python dict that the code reads and writes by key and never walks: the function from its keys.
use mathlib.Core.Option.{Option, none, some}
use mathlib.Core.Path.{◌≡◌, sym, subst}
use mathlib.Core.Logic.{inl, inr}
use native.Mathlib.Omega.{arith}
use compute_weaver.Base.Tests.{Name, ◌==◌, if◌then◌else◌, Bool-cases, ==→eq}
use mathlib.Core.Bool.{◌&&◌}

abbrev pub Dict : Type 0 → Type 0
Dict V = Name → Option V

abbrev pub empty : {V : Type 0} → Dict V
empty _ = none

-- `d[k] = v`
abbrev pub insert : {V : Type 0} → Name → V → Dict V → Dict V
insert k v d j = if j == k then some v else d j

-- What holds of all items, and of a new one, holds of all items with the new one.
pub insert-All {ℓ} :
    {V : Type 0} (P : Name → V → Type ℓ) (k : Name) (v : V) (d : Dict V)
    → ((j : Name) (w : V) → d j ≡ some w → P j w)
    → P k v
    → (j : Name) (w : V) → insert k v d j ≡ some w
    → P j w
insert-All P k v d h p j w e = elim (Bool-cases (j == k)) [
  | inr f ↦ h j w (ground arith)
  | inl t ↦ subst (λ i. P i w) (sym (==→eq j k t)) (subst (P k) (ground arith) p)
]

-- `d.get(k, default)`
abbrev pub get_or : {V : Type 0} → Option V → V → V
get_or none v = v
get_or (some v) _ = v

-- a dict keyed by a pair
abbrev pub Dict₂ : Type 0 → Type 0
Dict₂ V = Name → Name → Option V

abbrev pub empty₂ : {V : Type 0} → Dict₂ V
empty₂ _ _ = none

abbrev pub insert₂ : {V : Type 0} → Name → Name → V → Dict₂ V → Dict₂ V
insert₂ a b v d i j = if (i == a) && (j == b) then some v else d i j
