-- ===== src/Prelude/Sums.antt =====
-- Sums over the elements of a list, and over the others of one element.
use Prim.Native.Nat.{ℕ, zero, suc, ◌+◌, ◌≤◌}
use mathlib.Core.Path.{◌≡◌, refl, ap}
use mathlib.Core.List.{List, [], ◌∷◌, ◌++◌}
use mathlib.Core.Option.{Option, none, some}
use native.Mathlib.Omega.{arith}
use ampp.Prelude.Lists.{get_elem?, set}

module _ {A : Type 0} where
  abbrev pub sum : (A → ℕ) → List (A) → ℕ
  sum f [] = 0
  sum f (w ∷ ws) = f w + sum f ws

  abbrev pub without : ℕ → List (A) → List (A)
  without k [] = []
  without zero (w ∷ ws) = ws
  without (suc k) (w ∷ ws) = w ∷ without k ws

  pub sum-without :
      (f : A → ℕ) (k : ℕ) (ws : List (A)) (w : A)
      → get_elem? ws k ≡ some w
      → sum f ws ≡ f w + sum f (without k ws)
  sum-without f k [] w e = ground (arith, e)
  sum-without f zero (v ∷ ws) w e = ap (λ o. sum_of o) e
    where
      sum_of : Option (A) → ℕ
      sum_of none = 0
      sum_of (some u) = f u + sum f ws
  sum-without f (suc k) (v ∷ ws) w e = omega (arith, sum-without f k ws w e)

  pub sum-set :
      (f : A → ℕ) (k : ℕ) (ws : List (A)) (w v : A)
      → get_elem? ws k ≡ some w
      → sum f (set ws k v) ≡ f v + sum f (without k ws)
  sum-set f k [] w v e = ground (arith, e)
  sum-set f zero (u ∷ ws) w v e = refl
  sum-set f (suc k) (u ∷ ws) w v e = omega (arith, sum-set f k ws w v e)

  pub sum_mono : (f g : A → ℕ) → ((w : A) → f w ≤ g w) → (ws : List (A)) → sum f ws ≤ sum g ws
  sum_mono f g le [] = omega arith
  sum_mono f g le (w ∷ ws) = omega (arith, le w, sum_mono f g le ws)

  -- Where one quantity is nowhere, neither is another that comes only with it.
  pub sum-zero :
      (f g : A → ℕ) → ((w : A) → f w ≡ 0 → g w ≡ 0) → (ws : List (A)) → sum f ws ≡ 0 → sum g ws ≡ 0
  sum-zero f g with_it [] e = refl
  sum-zero f g with_it (w ∷ ws) e =
      omega (arith, with_it w (omega (arith, e)), sum-zero f g with_it ws (omega (arith, e)))

  pub sum-append : (f : A → ℕ) (xs ys : List A) → sum f (xs ++ ys) ≡ sum f xs + sum f ys
  sum-append f [] ys = omega arith
  sum-append f (x ∷ xs) ys = omega (arith, sum-append f xs ys)
