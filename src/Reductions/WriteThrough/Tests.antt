-- ===== src/Reductions/WriteThrough/Tests.antt =====
-- am++/reductions.hpp, per_thread_wt_cache_binop_reduction: tests, with minima of numbers.
use Prim.Native.Nat.{min}
use ampp.Prelude.{
  ℕ, ◌+◌, ◌<◌, ◌≡◌, ◌≢◌, refl, ap, true, List, [], ◌∷◌, Option, none, some, ◌==◌, ==_iff, arith,
}
use ampp.Reductions.Combine.{Policy, get_size, get_bucket, is_identity, integral_dummy_value}
use ampp.Reductions.Combine.Dummies.{Found, get_dummy_value-found}
use ampp.Reductions.Combine.Weights.{Weight, Lawful, amount}
use ampp.Reductions.WriteThrough.{Layer, Sizes, init, run, ranks_below}
use ampp.Reductions.WriteThrough.Combined.{Possible, requested, run-combines}

-- Messages are pairs of a key and a distance, and the least distance counts.
abbrev distances : Policy (ℕ × ℕ) ℕ ℕ
distances = record {
  combine = λ a b. min a b;
  opt_identity = none;
  get_key = λ m. m.0;
  get_value = λ m. m.1;
  make_keyval = λ k v. (k, v);
  hash_key = λ k. k;
  same_key = λ k l. k == l;
  same_value = λ v w. v == w;
  dummy_value = integral_dummy_value;
  default_value = 0;
}

distances-Lawful : Lawful distances
distances-Lawful = record {
  same_key_iff = λ k l. ==_iff k l;
  same_value_iff = λ v w. ==_iff v w;
  get_key-make_keyval = λ k v. refl;
  get_value-make_keyval = λ k v. refl;
}

-- The least of some distances, if any.
abbrev least : Option ℕ → Option ℕ → Option ℕ
least none y = y
least (some a) none = some a
least (some a) (some b) = some (min a b)

least_comm : (x y : Option ℕ) → least x y ≡ least y x
least_comm none none = refl
least_comm none (some b) = refl
least_comm (some a) none = refl
least_comm (some a) (some b) = ap some (omega arith)

least_assoc : (x y z : Option ℕ) → least (least x y) z ≡ least x (least y z)
least_assoc none y z = refl
least_assoc (some a) none z = refl
least_assoc (some a) (some b) none = refl
least_assoc (some a) (some b) (some c) = ap some (omega arith)

least-none : (x : Option ℕ) → least x none ≡ x
least-none none = refl
least-none (some a) = refl

least_self : (x : Option ℕ) → least x x ≡ x
least_self none = refl
least_self (some a) = ap some (omega arith)

never : (a : ℕ × ℕ) → is_identity distances a ≡ true → ◌≡◌ {A = Option ℕ} (some a.1) none
unfolding is_identity
never a e = ground (arith, e)

abbrev least_weight : Weight distances (Option ℕ)
least_weight = record {
  unit = none;
  plus = least;
  of_value = λ v. some v;
  plus_comm = least_comm;
  plus_assoc = least_assoc;
  plus-unit = least-none;
  of_value-combine = λ a b. refl;
  of_value-identity = never;
}

-- Two threads, two possible destinations among three ranks, and two cells for each.
abbrev sizes : Sizes
sizes = record { lg_size = 1; num_possible_dests = 2; num_threads = 2; num_ranks = 3; fuel = 4 }

abbrev rank : ℕ → ℕ
rank i = i + 1

some_cell : 0 < get_size 1
unfolding get_size
some_cell = omega arith

differ :
    get_bucket distances (get_size 1) (integral_dummy_value 0)
    ≢ get_bucket distances (get_size 1) (integral_dummy_value 1)
unfolding get_bucket integral_dummy_value get_size
differ e = omega (arith, e)

dummies : (h : ℕ) → h < get_size 1 → Found distances 4 (get_size 1) h
dummies h lt =
    get_dummy_value-found distances 4 (get_size 1) 0 1 (omega arith) (omega arith) differ h

valid : ranks_below 3 rank 2 ≡ true
unfolding ranks_below
valid = refl

abbrev program : List ((ℕ × ℕ) × ℕ × ℕ)
program = ((7, 9), 1, 0) ∷ ((7, 5), 1, 0) ∷ ((7, 6), 1, 0) ∷ ((8, 4), 2, 1) ∷ ((7, 3), 1, 1) ∷ []

program-Possible : Possible sizes rank program
program-Possible = (
  (omega arith, at_1),
  (
    (omega arith, at_1),
    ((omega arith, at_1), ((omega arith, (1, omega arith, refl)), ((omega arith, at_1), tt))),
  ),
)
  where
    at_1 : (i : ℕ) × (i < 2) × (rank i ≡ 1)
    at_1 = (0, omega arith, refl)

run-combines_example :
    (s : Layer (ℕ × ℕ)) × (run distances sizes (init distances sizes rank (λ c. (0, 0))) program
      ≡ some s)
    × ((k d : ℕ)
        → amount distances least_weight k d s.sent
          ≡ amount distances least_weight k d (requested program))
run-combines_example =
    run-combines distances sizes rank distances-Lawful least_weight least_self some_cell dummies
      valid (λ c. (0, 0)) program program-Possible
