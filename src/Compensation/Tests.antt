-- ===== src/Compensation/Tests.antt =====
-- Runs of packages/execution/compensation.py on small inputs.
use compute_weaver.Base.{ℕ, ◌+◌, ◌≡◌, refl, [], ◌∷◌, arith, ok, err}
use compute_weaver.Compensation.{Operation, failed, execute_transaction}
use compute_weaver.Compensation.Undo.{execute_transaction-atomic, run, IsReversible}

-- adds 5; the evidence is the number before
abbrev add_five : Operation ℕ ℕ
add_five = record { apply = λ w. (ok w, w + 5); compensate = λ before w. (ok before, before) }

abbrev refused : Operation ℕ ℕ
refused = record { apply = λ w. (err 9, w); compensate = λ before w. (err 8, w) }

add_five-IsReversible : IsReversible add_five
add_five-IsReversible = (λ w e h. ground arith, λ w evidence h. ground arith)

refused-IsReversible : IsReversible refused
refused-IsReversible = (λ w e h. refl, λ w evidence h. ground arith)

execute_transaction-atomic_example :
    execute_transaction (add_five ∷ add_five ∷ refused ∷ []) 3 ≡ (err (failed 9), 3)
unfolding run
execute_transaction-atomic_example =
    execute_transaction-atomic (add_five ∷ add_five ∷ refused ∷ []) 3
      (add_five-IsReversible, (add_five-IsReversible, (refused-IsReversible, tt)))
