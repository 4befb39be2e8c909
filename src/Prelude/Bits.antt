-- ===== src/Prelude/Bits.antt =====
-- Binary digits: laws of `bit_and` and `bit_xor`.
pub mod Lowest
pub mod Width
use Prim.Native.Nat.{
  ℕ, zero, suc, ◌+◌, ◌-◌, ◌*◌, ◌/◌, ◌%◌, ◌^◌, ◌≤◌, ◌<◌, min, bit_and, bit_xor, digits, differ,
  bit_and-bitwise, bit_xor-bitwise,
}
use mathlib.Core.Path.{◌≡◌, refl, sym, ap, ◌∙◌}
use mathlib.Core.Logic.{◌≢◌}
use mathlib.Core.Logic.{◌⊎◌, inl, inr}
use native.Mathlib.Nat.{two-pow-succ}
use native.Mathlib.Omega.{arith}
use ampp.Prelude.Tests.{◌==◌, if◌then◌else◌, Bool-cases}

module _ (z : ℕ → ℕ) (f : ℕ → ℕ → ℕ) where
  -- Rounds beyond the first operand change nothing.
  spare_rounds : (x y k l : ℕ) → x ≤ k → x ≤ l → digits z f k x y ≡ digits z f l x y
  spare_rounds (suc x) y (suc k) (suc l) hk hl =
      let rest = spare_rounds (suc x / 2) (y / 2) k l (omega (arith, hk)) (omega (arith, hl)) in
      omega (arith, rest)
  spare_rounds zero y (suc k) (suc l) hk hl = refl
  spare_rounds zero y (suc k) zero hk hl = refl
  spare_rounds zero y zero (suc l) hk hl = refl
  spare_rounds zero y zero zero hk hl = refl
  spare_rounds (suc x) y zero l hk hl = absurd (omega (arith, hk))
  spare_rounds (suc x) y k zero hk hl = absurd (omega (arith, hl))

  -- One digit and the rest.
  halved :
      (x y : ℕ)
      → digits z f (suc x) (suc x) y
        ≡ digits z f (suc x / 2) (suc x / 2) (y / 2) * 2 + f (suc x % 2) (y % 2)
  halved x y =
      let rest = spare_rounds (suc x / 2) (y / 2) x (suc x / 2) (omega arith) (omega arith) in
      omega (arith, rest)

pub zero-bit_and : (b : ℕ) → bit_and 0 b ≡ 0
zero-bit_and b = bit_and-bitwise 0 b

pub zero-bit_xor : (b : ℕ) → bit_xor 0 b ≡ b
zero-bit_xor b = bit_xor-bitwise 0 b

pub bit_and_step : (a b : ℕ) → bit_and a b ≡ bit_and (a / 2) (b / 2) * 2 + min (a % 2) (b % 2)
bit_and_step zero b = let rest = zero-bit_and (b / 2) in omega (arith, rest, zero-bit_and b)
bit_and_step (suc a) b =
    let whole = bit_and-bitwise (suc a) b in
    omega (arith, whole, halved (λ x. 0) min a b, bit_and-bitwise (suc a / 2) (b / 2))

-- The exclusive or of two digits, as arithmetic reads it.
differ_digits : (x y : ℕ) → x < 2 → y < 2 → differ x y ≡ (x + y) % 2
differ_digits zero y p q = omega (arith, q)
differ_digits (suc zero) zero p q = refl
differ_digits (suc zero) (suc zero) p q = refl
differ_digits (suc zero) (suc (suc y)) p q = absurd (omega (arith, q))
differ_digits (suc (suc x)) y p q = absurd (omega (arith, p))

pub bit_xor_step : (a b : ℕ) → bit_xor a b ≡ bit_xor (a / 2) (b / 2) * 2 + (a + b) % 2
bit_xor_step zero b = omega (arith, zero-bit_xor b, zero-bit_xor (b / 2))
bit_xor_step (suc a) b =
    let whole = bit_xor-bitwise (suc a) b in
    let last = differ_digits (suc a % 2) (b % 2) (omega arith) (omega arith) in
    omega (arith, whole, last, halved (λ x. x) differ a b, bit_xor-bitwise (suc a / 2) (b / 2))

-- Induction on the digits of a number.
pub digit_induction {ℓ} :
    (P : ℕ → Type ℓ) → P 0 → ((a : ℕ) → 0 < a → P (a / 2) → P a) → (a : ℕ) → P a
digit_induction P base step a = below (suc a) a (omega arith)
  where
    below : (n a : ℕ) → a < n → P a
    below zero a lt = absurd (omega (arith, lt))
    below (suc n) zero lt = base
    below (suc n) (suc a) lt = step (suc a) (omega arith) (below n (suc a / 2) (omega (arith, lt)))

pub bit_xor_self : (a : ℕ) → bit_xor a a ≡ 0
bit_xor_self =
    digit_induction (λ a. bit_xor a a ≡ 0) (zero-bit_xor 0)
      (λ a pos ih. omega (arith, bit_xor_step a a, ih))

pub bit_xor-zero : (a : ℕ) → bit_xor a 0 ≡ a
bit_xor-zero =
    digit_induction (λ a. bit_xor a 0 ≡ a) (zero-bit_xor 0)
      (λ a pos ih. omega (arith, bit_xor_step a 0, ih))

pub bit_xor_comm : (a b : ℕ) → bit_xor a b ≡ bit_xor b a
bit_xor_comm =
    digit_induction (λ a. (b : ℕ) → bit_xor a b ≡ bit_xor b a)
      (λ b. zero-bit_xor b ∙ sym (bit_xor-zero b))
      (λ a pos ih b. omega (arith, bit_xor_step a b, bit_xor_step b a, ih (b / 2)))

bit_xor_half : (a b : ℕ) → bit_xor a b / 2 ≡ bit_xor (a / 2) (b / 2)
bit_xor_half a b = omega (arith, bit_xor_step a b)

pub bit_xor_assoc : (a b c : ℕ) → bit_xor (bit_xor a b) c ≡ bit_xor a (bit_xor b c)
bit_xor_assoc =
    digit_induction (λ a. (b c : ℕ) → bit_xor (bit_xor a b) c ≡ bit_xor a (bit_xor b c))
      (λ b c. ap (λ (x : ℕ). bit_xor x c) (zero-bit_xor b) ∙ sym (zero-bit_xor (bit_xor b c)))
      (λ a pos ih b c. omega (
        arith,
        bit_xor_step (bit_xor a b) c,
        bit_xor_step a (bit_xor b c),
        bit_xor_step a b,
        bit_xor_step b c,
        ap (λ (x : ℕ). bit_xor x (c / 2)) (bit_xor_half a b),
        ap (λ (x : ℕ). bit_xor (a / 2) x) (bit_xor_half b c),
        ih (b / 2) (c / 2),
      ))

pub bit_xor_cancel : (a b : ℕ) → bit_xor a (bit_xor a b) ≡ b
bit_xor_cancel a b =
    sym (bit_xor_assoc a a b) ∙ ap (λ (x : ℕ). bit_xor x b) (bit_xor_self a) ∙ zero-bit_xor b

pub bit_xor-zero_eq : (a b : ℕ) → bit_xor a b ≡ 0 → b ≡ a
bit_xor-zero_eq a b e = sym (bit_xor_cancel a b) ∙ ap (bit_xor a) e ∙ bit_xor-zero a

pub bit_xor-lt : (k a b : ℕ) → a < 2 ^ k → b < 2 ^ k → bit_xor a b < 2 ^ k
bit_xor-lt zero a b la lb =
    let none_a : a ≡ 0 = omega (arith, la) in
    let none_b : b ≡ 0 = omega (arith, lb) in
    omega (arith, ap (λ (x : ℕ). bit_xor x b) none_a, ap (bit_xor 0) none_b, zero-bit_xor 0)
bit_xor-lt (suc k) a b la lb = omega (
  arith,
  two-pow-succ k,
  bit_xor_step a b,
  bit_xor-lt k (a / 2) (b / 2) (omega (arith, la, two-pow-succ k))
      (omega (arith, lb, two-pow-succ k)),
)
