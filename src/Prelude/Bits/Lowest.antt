-- ===== src/Prelude/Bits/Lowest.antt =====
-- Binary digits: the lowest one among the digits of a number, and how many ones there are.
use Prim.Native.Nat.{ℕ, zero, suc, ◌+◌, ◌-◌, ◌*◌, ◌/◌, ◌%◌, ◌^◌, ◌≤◌, ◌<◌, bit_and, bit_xor}
use mathlib.Core.Path.{◌≡◌, refl, ap}
use mathlib.Core.Logic.{◌⊎◌, inl, inr}
use native.Mathlib.Nat.{two-pow-succ}
use native.Mathlib.Omega.{arith}
use ampp.Prelude.Tests.{◌==◌, if◌then◌else◌, Bool-cases}
use ampp.Prelude.Bits.{bit_and_step, zero-bit_and, bit_xor_step, digit_induction, bit_xor-zero}

-- The lowest of the digits that are one, and how many digits are one. The first argument is at least
-- the second.
low_loop : ℕ → ℕ → ℕ
low_loop zero a = 0
low_loop (suc n) a = let rest = low_loop n (a / 2) in if a % 2 == 1 then 1 else rest * 2

ones_loop : ℕ → ℕ → ℕ
ones_loop zero a = 0
ones_loop (suc n) a = ones_loop n (a / 2) + a % 2

pub lowest_one : ℕ → ℕ
unfolding low_loop
lowest_one a = low_loop a a

pub ones : ℕ → ℕ
unfolding ones_loop
ones a = ones_loop a a

low_loop_fuel : (n m a : ℕ) → a ≤ n → a ≤ m → low_loop n a ≡ low_loop m a
unfolding low_loop
low_loop_fuel zero zero a p q = refl
low_loop_fuel zero (suc m) a p q =
    ground (arith, p, low_loop_fuel zero m (a / 2) (omega (arith, p)) (omega (arith, p)))
low_loop_fuel (suc n) zero a p q =
    ground (arith, q, low_loop_fuel n zero (a / 2) (omega (arith, q)) (omega (arith, q)))
low_loop_fuel (suc n) (suc m) a p q = elim (Bool-cases (a % 2 == 1)) [
  | inl odd ↦ rw odd refl
  | inr even ↦
      rw even
        (ap (λ (x : ℕ). x * 2) (low_loop_fuel n m (a / 2) (omega (arith, p)) (omega (arith, q))))
]

ones_loop_fuel : (n m a : ℕ) → a ≤ n → a ≤ m → ones_loop n a ≡ ones_loop m a
unfolding ones_loop
ones_loop_fuel zero zero a p q = refl
ones_loop_fuel zero (suc m) a p q =
    omega (arith, p, ones_loop_fuel zero m (a / 2) (omega (arith, p)) (omega (arith, p)))
ones_loop_fuel (suc n) zero a p q =
    omega (arith, q, ones_loop_fuel n zero (a / 2) (omega (arith, q)) (omega (arith, q)))
ones_loop_fuel (suc n) (suc m) a p q =
    ap (λ (x : ℕ). x + a % 2) (ones_loop_fuel n m (a / 2) (omega (arith, p)) (omega (arith, q)))

pub lowest_one-odd : (a : ℕ) → a % 2 ≡ 1 → lowest_one a ≡ 1
unfolding lowest_one low_loop
lowest_one-odd zero odd = absurd (omega (arith, odd))
lowest_one-odd (suc a) odd = ground (arith, odd)

pub lowest_one-even : (a : ℕ) → 0 < a → a % 2 ≡ 0 → lowest_one a ≡ lowest_one (a / 2) * 2
unfolding lowest_one low_loop
lowest_one-even zero pos even = absurd (omega (arith, pos))
lowest_one-even (suc a) pos even =
    let fuel = low_loop_fuel a (suc a / 2) (suc a / 2) (omega arith) (omega arith) in
    ground (arith, even, fuel)

pub ones_step : (a : ℕ) → ones a ≡ ones (a / 2) + a % 2
unfolding ones ones_loop
ones_step zero = refl
ones_step (suc a) =
    omega (arith, ones_loop_fuel a (suc a / 2) (suc a / 2) (omega arith) (omega arith))

pub ones-zero : ones 0 ≡ 0
unfolding ones ones_loop
ones-zero = refl

-- Every number that is not zero is odd, or twice a number that is not zero.
parity : (a : ℕ) → 0 < a → (a % 2 ≡ 1) ⊎ ((a % 2 ≡ 0) × (0 < a / 2))
parity a pos = elim (Bool-cases (a % 2 == 1)) [
  | inl odd ↦ inl (ground (arith, odd))
  | inr even ↦ inr (ground (arith, even, pos), ground (arith, even, pos))
]

-- Induction on the digits of a number that is not zero, from the lowest one up.
pub low_induction {ℓ} :
    (P : ℕ → Type ℓ)
    → ((a : ℕ) → a % 2 ≡ 1 → P a)
    → ((a : ℕ) → 0 < a → a % 2 ≡ 0 → 0 < a / 2 → P (a / 2) → P a)
    → (a : ℕ) → 0 < a
    → P a
low_induction P odd even =
    digit_induction (λ a. 0 < a → P a) (λ pos. absurd (omega (arith, pos)))
      (λ a pos ih again. elim (parity a pos) [
        | inl e ↦ odd a e
        | inr (e, half) ↦ even a pos e half (ih half)
      ])

pub lowest_one-pos : (a : ℕ) → 0 < a → 0 < lowest_one a
lowest_one-pos =
    low_induction (λ a. 0 < lowest_one a) (λ a odd. omega (arith, lowest_one-odd a odd))
      (λ a pos even half ih. omega (arith, lowest_one-even a pos even, ih))

pub lowest_one-le : (a : ℕ) → 0 < a → lowest_one a ≤ a
lowest_one-le =
    low_induction (λ a. lowest_one a ≤ a) (λ a odd. omega (arith, lowest_one-odd a odd, odd))
      (λ a pos even half ih. omega (arith, lowest_one-even a pos even, ih))

-- Taking the lowest one away.
pub bit_xor-lowest_one : (a : ℕ) → 0 < a → bit_xor a (lowest_one a) + lowest_one a ≡ a
bit_xor-lowest_one =
    low_induction (λ a. bit_xor a (lowest_one a) + lowest_one a ≡ a)
      (λ a odd. odd_case a odd (lowest_one-odd a odd))
      (λ a pos even half ih.
        even_case a (lowest_one a) (lowest_one (a / 2)) even (lowest_one-even a pos even) ih)
  where
    odd_case : (a : ℕ) → a % 2 ≡ 1 → lowest_one a ≡ 1 → bit_xor a (lowest_one a) + lowest_one a ≡ a
    odd_case a odd e =
        omega (arith, ap (bit_xor a) e, e, bit_xor_step a 1, bit_xor-zero (a / 2), odd)

    even_case :
        (a l h : ℕ) → a % 2 ≡ 0 → l ≡ h * 2 → bit_xor (a / 2) h + h ≡ a / 2 → bit_xor a l + l ≡ a
    even_case a l h even e ih =
        let half : l / 2 ≡ h = omega (arith, e) in
        omega (arith, bit_xor_step a l, ap (bit_xor (a / 2)) half, ih, even, e)

pub ones-lowest_one : (a : ℕ) → 0 < a → suc (ones (a - lowest_one a)) ≡ ones a
ones-lowest_one =
    low_induction (λ a. suc (ones (a - lowest_one a)) ≡ ones a)
      (λ a odd. odd_case a (lowest_one a) odd (lowest_one-odd a odd))
      (λ a pos even half ih.
        even_case a (lowest_one a) (lowest_one (a / 2)) even (lowest_one-even a pos even)
          (lowest_one-le (a / 2) half) ih)
  where
    odd_case : (a l : ℕ) → a % 2 ≡ 1 → l ≡ 1 → suc (ones (a - l)) ≡ ones a
    odd_case a l odd e =
        let half : (a - l) / 2 ≡ a / 2 = omega (arith, odd, e) in
        omega (arith, ones_step (a - l), ones_step a, ap ones half, odd, e)

    even_case :
        (a l h : ℕ)
        → a % 2 ≡ 0
        → l ≡ h * 2
        → h ≤ a / 2
        → suc (ones (a / 2 - h)) ≡ ones (a / 2)
        → suc (ones (a - l)) ≡ ones a
    even_case a l h even e le ih =
        let half : (a - l) / 2 ≡ a / 2 - h = omega (arith, even, e, le) in
        omega (arith, ones_step (a - l), ones_step a, ap ones half, ih, even, e, le)

pub ones-eq_zero : (a : ℕ) → ones a ≡ 0 → a ≡ 0
ones-eq_zero =
    digit_induction (λ a. ones a ≡ 0 → a ≡ 0) (λ e. refl)
      (λ a pos ih e. omega (arith, ones_step a, e, ih (omega (arith, ones_step a, e))))

pub ones-le : (k a : ℕ) → a < 2 ^ k → ones a ≤ k
ones-le zero a lt =
    let none_a : a ≡ 0 = omega (arith, lt) in omega (arith, ap ones none_a, ones-zero)
ones-le (suc k) a lt =
    omega
      (arith, two-pow-succ k, ones_step a, ones-le k (a / 2) (omega (arith, lt, two-pow-succ k)))

-- A number and its complement have no digit in common.
bit_and_complement : (k a b : ℕ) → a + b + 1 ≡ 2 ^ k → bit_and a b ≡ 0
bit_and_complement zero a b e =
    let none_a : a ≡ 0 = omega (arith, e) in
    omega (arith, ap (λ (x : ℕ). bit_and x b) none_a, zero-bit_and b)
bit_and_complement (suc k) a b e = omega (
  arith,
  two-pow-succ k,
  bit_and_step a b,
  e,
  bit_and_complement k (a / 2) (b / 2) (omega (arith, e, two-pow-succ k)),
)

-- A number and its negation have the lowest one in common.
pub bit_and_negated : (k a b : ℕ) → 0 < a → 0 < b → a + b ≡ 2 ^ k → bit_and a b ≡ lowest_one a
bit_and_negated zero a b pos pos_b e = absurd (omega (arith, pos, pos_b, e))
bit_and_negated (suc k) a b pos pos_b e = elim (parity a pos) [
  | inl odd ↦ omega (
    arith,
    two-pow-succ k,
    bit_and_step a b,
    e,
    odd,
    lowest_one-odd a odd,
    bit_and_complement k (a / 2) (b / 2) (omega (arith, e, odd, two-pow-succ k)),
  )
  | inr (even, half) ↦ omega (
    arith,
    two-pow-succ k,
    bit_and_step a b,
    e,
    even,
    lowest_one-even a pos even,
    bit_and_negated k (a / 2) (b / 2) half (omega (arith, e, even, pos_b, two-pow-succ k))
        (omega (arith, e, even, two-pow-succ k)),
  )
]

pub bit_and-lowest_one : (a : ℕ) → 0 < a → bit_and (lowest_one a) (lowest_one a - 1) ≡ 0
bit_and-lowest_one =
    low_induction (λ a. bit_and (lowest_one a) (lowest_one a - 1) ≡ 0)
      (λ a odd. odd_case (lowest_one a) (lowest_one-odd a odd))
      (λ a pos even half ih.
        even_case (lowest_one a) (lowest_one (a / 2)) (lowest_one-even a pos even)
          (lowest_one-pos (a / 2) half) ih)
  where
    odd_case : (l : ℕ) → l ≡ 1 → bit_and l (l - 1) ≡ 0
    odd_case l e =
        let none_half : l / 2 ≡ 0 = omega (arith, e) in
        omega (
          arith,
          bit_and_step l (l - 1),
          ap (λ (x : ℕ). bit_and x ((l - 1) / 2)) none_half,
          zero-bit_and ((l - 1) / 2),
          e,
        )

    even_case : (l h : ℕ) → l ≡ h * 2 → 0 < h → bit_and h (h - 1) ≡ 0 → bit_and l (l - 1) ≡ 0
    even_case l h e pos ih =
        let half : l / 2 ≡ h = omega (arith, e) in
        let less : (l - 1) / 2 ≡ h - 1 = omega (arith, e, pos) in
        omega (
          arith,
          bit_and_step l (l - 1),
          ap (λ (x : ℕ). bit_and x ((l - 1) / 2)) half,
          ap (bit_and h) less,
          ih,
          e,
          pos,
        )

-- The lowest one is a power of two.
pub lowest_one-power : (a : ℕ) → 0 < a → (j : ℕ) × (lowest_one a ≡ 2 ^ j)
lowest_one-power =
    low_induction (λ a. (j : ℕ) × (lowest_one a ≡ 2 ^ j)) (λ a odd. (0, lowest_one-odd a odd))
      (λ a pos even half (j, e).
        (suc j, omega (arith, lowest_one-even a pos even, e, two-pow-succ j)))
