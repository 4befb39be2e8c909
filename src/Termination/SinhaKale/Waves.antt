-- ===== src/Termination/SinhaKale/Waves.antt =====
-- The arithmetic of two waves of reductions: if both find as many messages handled as built, and as
-- many as each other, then nothing was outstanding in between.
use ampp.Prelude.{ℕ, zero, suc, ◌+◌, ◌≤◌, ◌<◌, ◌≡◌, arith}

unfoldable pub total : ℕ → (ℕ → ℕ) → ℕ
total zero f = 0
total (suc n) f = total n f + f n

total_mono : (n : ℕ) (f g : ℕ → ℕ) → ((i : ℕ) → i < n → f i ≤ g i) → total n f ≤ total n g
unfolding total
total_mono zero f g h = omega arith
total_mono (suc n) f g h =
    omega (arith, total_mono n f g (λ i lt. h i (omega arith)), h n (omega arith))

-- A count between two samples whose totals agree has that total too.
pub total-between :
    (n : ℕ) (f g h : ℕ → ℕ)
    → ((i : ℕ) → i < n → f i ≤ g i)
    → ((i : ℕ) → i < n → g i ≤ h i)
    → total n f ≡ total n h
    → total n g ≡ total n f
total-between n f g h fg gh e = omega (arith, total_mono n f g fg, total_mono n g h gh)
