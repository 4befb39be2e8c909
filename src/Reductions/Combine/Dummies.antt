-- ===== src/Reductions/Combine/Dummies.antt =====
-- am++/reductions.hpp, get_dummy_value: a key for a cell in which it is never looked for.
use ampp.Prelude.{
  ℕ, zero, suc, ◌+◌, ◌<◌, ◌≤◌, ◌≡◌, ◌≢◌, refl, some, ◌==◌, arith, Bool-cases, inl, inr,
}
use native.Mathlib.Nat.{mod-lt}
use ampp.Reductions.Combine.{Policy, get_bucket, dummy_from, get_dummy_value}

module _ {Arg Key Value : Type 0} (policy : Policy Arg Key Value) where
  -- What the search gives.
  abbrev pub Found : ℕ → ℕ → ℕ → Type 0
  Found fuel size h =
      (k : Key) × (get_dummy_value policy fuel size h ≡ some k) × (get_bucket policy size k ≢ h)

  pub get_bucket-lt : (size : ℕ) (k : Key) → 0 < size → get_bucket policy size k < size
  unfolding get_bucket
  get_bucket-lt size k some_cell = mod-lt _ some_cell

  dummy_from-found :
      (fuel i size h j : ℕ)
      → i ≤ j
      → j < i + fuel
      → get_bucket policy size (policy.dummy_value j) ≢ h
      → (k : Key) × (dummy_from policy fuel i size h ≡ some k) × (get_bucket policy size k ≢ h)
  unfolding dummy_from
  dummy_from-found zero i size h j le lt away = absurd (omega (arith, le, lt))
  dummy_from-found (suc fuel) i size h j le lt away =
      elim (Bool-cases (get_bucket policy size (policy.dummy_value i) == h)) [
        | inl same ↦
            let (k, made, other) =
              dummy_from-found fuel (i + 1) size h j (ground (arith, le, same, away))
                (omega (arith, lt)) away in
            (k, rw same made, other)
        | inr other ↦ (policy.dummy_value i, rw other refl, λ e. ground (arith, other, e))
      ]

  -- If two of the first `fuel` dummy keys lie in different buckets, then for every cell the search
  -- ends within `fuel` rounds, with a key of another bucket than that cell's.
  pub get_dummy_value-found :
      (fuel size i j : ℕ)
      → i < fuel
      → j < fuel
      → get_bucket policy size (policy.dummy_value i)
        ≢ get_bucket policy size (policy.dummy_value j)
      → (h : ℕ)
      → (k : Key) × (get_dummy_value policy fuel size h ≡ some k) × (get_bucket policy size k ≢ h)
  unfolding get_dummy_value
  get_dummy_value-found fuel size i j li lj differ h =
      elim (Bool-cases (get_bucket policy size (policy.dummy_value i) == h)) [
        | inl same ↦
            dummy_from-found fuel 0 size h j (omega arith) (omega (arith, lj))
              (λ e. differ (ground (arith, same, e)))
        | inr other ↦
            dummy_from-found fuel 0 size h i (omega arith) (omega (arith, li))
              (λ e. ground (arith, other, e))
      ]
