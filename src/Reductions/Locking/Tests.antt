-- ===== src/Reductions/Locking/Tests.antt =====
-- am++/reductions.hpp, locking_cache_binop_reduction: tests, with sums of numbers.
use ampp.Prelude.{
  ℕ, ◌+◌, ◌<◌, ◌≡◌, ◌≢◌, refl, Bool, true, List, [], ◌∷◌, some, ◌==◌, ==_iff, if◌then◌else◌, arith,
}
use ampp.Reductions.Combine.{
  Policy, get_size, get_bucket, get_dummy_value, is_identity, integral_dummy_value,
}
use ampp.Reductions.Combine.Dummies.{Found, get_dummy_value-found}
use ampp.Reductions.Combine.Weights.{Weight, Lawful, amount}
use ampp.Reductions.Locking.{Layer, Op, to_send, to_flush, flush, init, run}
use ampp.Reductions.Locking.Programs.{requested, run-flush-amount}
use ampp.Reductions.Locking.Forgotten.{sends-forgotten}

-- Messages are pairs of a key and a number, and the numbers for a key are added.
abbrev sums : Policy (ℕ × ℕ) ℕ ℕ
sums = record {
  combine = λ a b. a + b;
  opt_identity = some 0;
  get_key = λ m. m.0;
  get_value = λ m. m.1;
  make_keyval = λ k v. (k, v);
  hash_key = λ k. k;
  same_key = λ k l. k == l;
  same_value = λ v w. v == w;
  dummy_value = integral_dummy_value;
  default_value = 0;
}

sums-Lawful : Lawful sums
sums-Lawful = record {
  same_key_iff = λ k l. ==_iff k l;
  same_value_iff = λ v w. ==_iff v w;
  get_key-make_keyval = λ k v. refl;
  get_value-make_keyval = λ k v. refl;
}

identity_zero : (a : ℕ × ℕ) → is_identity sums a ≡ true → a.1 ≡ 0
unfolding is_identity
identity_zero a e = ground (arith, e)

abbrev sum_weight : Weight sums ℕ
sum_weight = record {
  unit = 0;
  plus = λ x y. x + y;
  of_value = λ v. v;
  plus_comm = λ x y. omega arith;
  plus_assoc = λ x y z. omega arith;
  plus-unit = λ x. omega arith;
  of_value-combine = λ a b. refl;
  of_value-identity = identity_zero;
}

some_cell : 0 < get_size 1
unfolding get_size
some_cell = omega arith

differ :
    get_bucket sums (get_size 1) (integral_dummy_value 0)
    ≢ get_bucket sums (get_size 1) (integral_dummy_value 1)
unfolding get_bucket integral_dummy_value get_size
differ e = omega (arith, e)

dummies : (h : ℕ) → h < get_size 1 → Found sums 4 (get_size 1) h
dummies h lt = get_dummy_value-found sums 4 (get_size 1) 0 1 (omega arith) (omega arith) differ h

get_dummy_value-found_example :
    (k : ℕ) × (get_dummy_value sums 4 (get_size 1) 1 ≡ some k)
    × (get_bucket sums (get_size 1) k ≢ 1)
get_dummy_value-found_example =
    get_dummy_value-found sums 4 (get_size 1) 0 1 (omega arith) (omega arith) differ 1

-- Keys 3 and 5 share a cell for rank 1, and messages for rank 0 come between.
abbrev program : List (Op (ℕ × ℕ))
program =
    to_send (3, 10) 1
    ∷ to_send (3, 5) 1
    ∷ to_send (4, 7) 0
    ∷ to_send (5, 2) 1
    ∷ to_flush 0
    ∷ to_send (3, 1) 1
    ∷ []

run-flush-amount_example :
    (s : Layer (ℕ × ℕ)) × (did : Bool) × (s' : Layer (ℕ × ℕ)) × (run sums
        (λ n. n)
        1
        4
        (init sums (λ n. n) 1 4 2 (λ j. 1) (λ j. (0, 9)))
        program
      ≡ some s)
    × (flush sums (λ n. n) 1 4 1 s ≡ some (did, s'))
    × ((k : ℕ)
        → amount sums sum_weight k 1 s'.sent ≡ amount sums sum_weight k 1 (requested program))
run-flush-amount_example =
    run-flush-amount sums (λ n. n) 1 4 sums-Lawful sum_weight some_cell 2 dummies (λ k. refl)
      (λ j. 1) (λ j. (0, 9)) program 1
      (omega arith, (omega arith, (omega arith, (omega arith, (omega arith, (omega arith, tt))))))
      (omega arith)

-- A layer in which a message for rank 0 was the first to be put into a cell.
abbrev first_sent : Layer (ℕ × ℕ)
first_sent = record {
  locks = λ j. 0;
  values = λ j. if j == 0 then (4, 7) else (integral_dummy_value j, 0);
  any_filled_entries = 1;
  sent = [];
  flush_objects = 0 ∷ [];
}

abbrev for_rank_1 : List (Op (ℕ × ℕ))
for_rank_1 = to_send (3, 10) 1 ∷ to_send (4, 5) 1 ∷ []

sends-forgotten_example :
    (s' : Layer (ℕ × ℕ)) × (run sums (λ n. n) 1 4 (some first_sent) for_rank_1 ≡ some s')
    × (s'.flush_objects ≡ 0 ∷ [])
sends-forgotten_example =
    sends-forgotten sums (λ n. n) 1 4 2 some_cell for_rank_1 first_sent
      (omega arith, (omega arith, tt)) (record { free = λ j lt. refl; set = refl })
