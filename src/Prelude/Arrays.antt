-- ===== src/Prelude/Arrays.antt =====
-- Arrays as functions of an index, and rows of equal size laid out one after the other.
use Prim.Native.Nat.{ℕ, ◌+◌, ◌-◌, ◌*◌, ◌/◌, ◌%◌, ◌<◌}
use mathlib.Core.Path.{◌≡◌, ap, ◌∙◌}
use mathlib.Core.Logic.{inl, inr}
use mathlib.Core.Bool.{false}
use native.Mathlib.Nat.{
  mul_comm, mul-le-mul_right, mul-add-mod_self_left, mod-eq_of_lt, mul-add-div_right, div-eq_of_lt,
}
use native.Mathlib.Omega.{arith}
use ampp.Prelude.Tests.{◌==◌, ltb, if◌then◌else◌, Bool-cases}

abbrev pub store {ℓ} : {A : Type ℓ} → (ℕ → A) → ℕ → A → ℕ → A
store f i v j = if i == j then v else f j

-- What holds of the value that is written, and of the others, holds after the write.
pub store-cases {ℓ κ} :
    {A : Type ℓ} (P : A → Type κ) (f : ℕ → A) (i : ℕ) (v : A) (c : ℕ)
    → (i ≡ c → P v)
    → ((i == c) ≡ false → P (f c))
    → P (store f i v c)
store-cases P f i v c written kept = elim (Bool-cases (i == c)) [
  | inl here ↦ rw here (written (ground (arith, here)))
  | inr away ↦ rw away (kept away)
]

-- The place of an element of a row in the row, and the number of the row.
pub row_parts :
    (size i h : ℕ) → h < size → ((i * size + h) % size ≡ h) × ((i * size + h) / size ≡ i)
row_parts size i h lt = (
  ap (λ n. (n + h) % size) (mul_comm i size) ∙ mul-add-mod_self_left size i h ∙ mod-eq_of_lt lt,
  mul-add-div_right {m = size} (omega (arith, lt)) i h
      ∙ ap (λ n. i + n) (div-eq_of_lt lt)
      ∙ omega arith,
)

pub row-lt : (n size i h : ℕ) → i < n → h < size → i * size + h < n * size
row-lt n size i h li lh =
    omega (arith, mul-le-mul_right {m = i + 1} {n = n} size (omega (arith, li)), one_more i, lh)
  where
    one_more : (j : ℕ) → (j + 1) * size ≡ j * size + size
    one_more j = omega arith

-- A remainder of a number below twice the modulus.
pub mod_once : (x n : ℕ) → x < n + n → x % n ≡ (if ltb x n then x else x - n)
mod_once x n lt = elim (Bool-cases (ltb x n)) [
  | inl below ↦ rw below (mod-eq_of_lt (ground (arith, below)))
  | inr above ↦
      let split : x ≡ n * 1 + (x - n) = ground (arith, above) in
      rw above (
        ap (λ (y : ℕ). y % n) split
        ∙ mul-add-mod_self_left n 1 (x - n)
        ∙ mod-eq_of_lt (ground (arith, above, lt)))
]
