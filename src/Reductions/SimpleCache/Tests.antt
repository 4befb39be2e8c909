-- ===== src/Reductions/SimpleCache/Tests.antt =====
-- am++/reductions.hpp, simple_cache_remove_duplicates: tests, with two cells for each of two ranks.
use ampp.Prelude.{
  ℕ, ◌+◌, ◌%◌, ◌<◌, ◌≡◌, ◌≢◌, refl, List, [], ◌∷◌, some, ◌==◌, arith, All, Option, none,
}
use ampp.Reductions.SimpleCache.{
  assert, is_valid_rank, send, Policy, Layer, Op, sends, flushes, get_size, init, run,
}
use ampp.Reductions.SimpleCache.Cells.{Lawful}
use ampp.Reductions.SimpleCache.Covered.{send-resend, requested, Passed, run-covers}

abbrev numbers : Policy ℕ ℕ
numbers = record {
  stored_value = λ a. a;
  hash = λ v size. v % size;
  matches = λ a v. a == v;
  dummy_value = λ h size. h + 1;
}

in_range : (v : ℕ) → v % get_size 1 < get_size 1
unfolding get_size
in_range v = omega arith

dummy : (h : ℕ) → h < get_size 1 → (h + 1) % get_size 1 ≢ h
unfolding get_size
dummy h lt e = omega (arith, lt, e)

numbers-Lawful : Lawful numbers (get_size 1)
numbers-Lawful = record { in_range = in_range; exact = λ a v e. ground (arith, e); dummy = dummy }

some_cell : 0 < get_size 1
unfolding get_size
some_cell = omega arith

-- Ranks 4 and 5 are the possible destinations.
abbrev rank : ℕ → ℕ
rank i = i + 4

abbrev program : List (Op ℕ)
program = sends 7 4 ∷ sends 7 4 ∷ sends 7 5 ∷ flushes 4 ∷ sends 7 4 ∷ sends 9 4 ∷ sends 7 4 ∷ []

run-covers_example :
    (s : Layer ℕ ℕ) × (run numbers 1 2 rank (some (init numbers 1 2 rank 6 (λ c. 0))) program
      ≡ some s)
    × All (Passed numbers 1 2 rank numbers-Lawful some_cell s.sent) (requested program)
run-covers_example =
    run-covers numbers 1 2 rank numbers-Lawful some_cell 6 (λ c. 0) program
      (λ i lt. omega (arith, lt))
      (at_4, (at_4, ((1, omega arith, refl), (at_4, (at_4, (at_4, tt))))))
  where
    at_4 : (i : ℕ) × (i < 2) × (rank i ≡ 4)
    at_4 = (0, omega arith, refl)

abbrev get : Layer ℕ ℕ → Option (Layer ℕ ℕ) → Layer ℕ ℕ
get s none = s
get s (some s') = s'

abbrev start : Layer ℕ ℕ
start = init numbers 1 2 rank 6 (λ c. 0)

abbrev once : Layer ℕ ℕ
once = get start (send numbers 1 2 rank 7 5 start)

abbrev twice : Layer ℕ ℕ
twice = get once (send numbers 1 2 rank 7 5 once)

once_sent : send numbers 1 2 rank 7 5 start ≡ some once
unfolding init send assert is_valid_rank get_size
once_sent = refl

twice_sent : send numbers 1 2 rank 7 5 once ≡ some twice
unfolding init send assert is_valid_rank get_size
twice_sent = refl

send-resend_example : twice.sent ≡ once.sent
send-resend_example =
    send-resend numbers 1 2 rank numbers-Lawful some_cell 7 5 start once twice refl once_sent
      twice_sent
