-- ===== src/Reductions/UnorderedSet/Tests.antt =====
-- am++/reductions.hpp, unordered_set_remove_duplicates: tests, with numbers that stand for themselves.
use ampp.Prelude.{ℕ, ◌<◌, ◌≡◌, Bool, List, [], ◌∷◌, Option, none, some, ◌==◌, length, arith}
use ampp.Reductions.UnorderedSet.{Layer, init, clear, run}
use ampp.Reductions.UnorderedSet.Firsts.{ToRanks, run-firsts}
use ampp.Reductions.UnorderedSet.Bounds.{IsBounded, run-size}

abbrev same_number : ℕ → ℕ → Bool
same_number a b = a == b

abbrev program : List (ℕ × ℕ × Option ℕ)
program = (7, 1, none) ∷ (7, 0, some 2) ∷ (7, 1, some 1) ∷ (8, 1, none) ∷ []

program-ToRanks : ToRanks (λ a. a) same_number 2 program
program-ToRanks = (omega arith, (omega arith, (omega arith, (omega arith, tt))))

run-firsts_example :
    (s : Layer ℕ ℕ) × (run (λ a. a) same_number 2 (some (init (λ a. a) same_number 2)) program
      ≡ some s)
    × (s.sent ≡ (7, 1) ∷ (7, 0) ∷ (8, 1) ∷ [])
run-firsts_example = run-firsts (λ a. a) same_number 2 program program-ToRanks (omega arith)

run-size_example :
    (s : Layer ℕ ℕ) × (run (λ a. a) same_number 2 (some (init (λ a. a) same_number 2)) program
      ≡ some s)
    × IsBounded (λ a. a) same_number 2 s
    × ((d : ℕ) → d < 2 → length ((clear (λ a. a) same_number 2 s).cache d) ≡ 0)
run-size_example = run-size (λ a. a) same_number 2 program program-ToRanks
