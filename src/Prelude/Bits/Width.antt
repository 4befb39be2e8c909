-- ===== src/Prelude/Bits/Width.antt =====
-- Binary digits: powers of two and std::bit_width.
use Prim.Native.Nat.{ℕ, zero, suc, ◌-◌, ◌/◌, ◌^◌, ◌≤◌, ◌<◌, bit_and}
use mathlib.Core.Path.{◌≡◌, refl, ap}
use mathlib.Core.Logic.{inl, inr}
use mathlib.Core.Bool.{false}
use native.Mathlib.Nat.{two-pow-succ}
use native.Mathlib.Omega.{arith}
use ampp.Prelude.Tests.{◌==◌, if◌then◌else◌, Bool-cases}
use ampp.Prelude.Bits.{bit_and_step, zero-bit_and, digit_induction}

pub pow_pos : (k : ℕ) → 0 < 2 ^ k
pow_pos zero = omega arith
pow_pos (suc k) = omega (arith, two-pow-succ k, pow_pos k)

pub pow-lt_inverse : (j k : ℕ) → 2 ^ j < 2 ^ k → j < k
pow-lt_inverse zero zero lt = absurd (omega (arith, lt))
pow-lt_inverse zero (suc k) lt = omega arith
pow-lt_inverse (suc j) zero lt = absurd (omega (arith, lt, two-pow-succ j, pow_pos j))
pow-lt_inverse (suc j) (suc k) lt =
    omega (arith, pow-lt_inverse j k (omega (arith, lt, two-pow-succ j, two-pow-succ k)))

-- std::bit_width: how often a number can be halved before it is 0.
width_loop : ℕ → ℕ → ℕ
width_loop zero a = 0
width_loop (suc n) a = let rest = suc (width_loop n (a / 2)) in if a == 0 then 0 else rest

pub bit_width : ℕ → ℕ
unfolding width_loop
bit_width a = width_loop a a

width_loop_fuel : (n m a : ℕ) → a ≤ n → a ≤ m → width_loop n a ≡ width_loop m a
unfolding width_loop
width_loop_fuel zero zero a p q = refl
width_loop_fuel zero (suc m) a p q = ground (arith, p)
width_loop_fuel (suc n) zero a p q = ground (arith, q)
width_loop_fuel (suc n) (suc m) a p q = elim (Bool-cases (a == 0)) [
  | inl nothing ↦ rw nothing refl
  | inr some_digit ↦
      rw some_digit (ap suc (width_loop_fuel n m (a / 2) (omega (arith, p)) (omega (arith, q))))
]

bit_width_step : (a : ℕ) → 0 < a → bit_width a ≡ suc (bit_width (a / 2))
unfolding bit_width width_loop
bit_width_step zero pos = absurd (omega (arith, pos))
bit_width_step (suc a) pos =
    let some_digit : (suc a == 0) ≡ false = ground arith in
    rw some_digit (ap suc (width_loop_fuel a (suc a / 2) (suc a / 2) (omega arith) (omega arith)))

pub lt-bit_width : (j a : ℕ) → 2 ^ j ≤ a → j < bit_width a
lt-bit_width zero a le = omega (arith, bit_width_step a (omega (arith, le)))
lt-bit_width (suc j) a le =
    let half : 2 ^ j ≤ a / 2 = omega (arith, le, two-pow-succ j) in
    omega (arith, bit_width_step a (omega (arith, half, pow_pos j)), lt-bit_width j (a / 2) half)

pub bit_and_power : (k : ℕ) → bit_and (2 ^ k) (2 ^ k - 1) ≡ 0
bit_and_power zero = omega (arith, bit_and_step 1 0, zero-bit_and 0)
bit_and_power (suc k) = omega (
  arith,
  bit_and_step (2 ^ suc k) (2 ^ suc k - 1),
  two-pow-succ k,
  pow_pos k,
  ap (λ (x : ℕ). bit_and x ((2 ^ suc k - 1) / 2)) half,
  ap (bit_and (2 ^ k)) less,
  bit_and_power k,
)
  where
    half : 2 ^ suc k / 2 ≡ 2 ^ k
    half = omega (arith, two-pow-succ k)

    less : (2 ^ suc k - 1) / 2 ≡ 2 ^ k - 1
    less = omega (arith, two-pow-succ k, pow_pos k)

no_digits : bit_width 0 ≤ 0
unfolding bit_width width_loop
no_digits = omega arith

pub bit_width-le : (a : ℕ) → bit_width a ≤ a
bit_width-le =
    digit_induction (λ a. bit_width a ≤ a) no_digits
      (λ a pos ih. omega (arith, bit_width_step a pos, ih, pos))
