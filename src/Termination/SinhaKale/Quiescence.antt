-- ===== src/Termination/SinhaKale/Quiescence.antt =====
-- src/mpi_sinha_kale_ramkumar_termination_detector.cpp: what the end of an epoch means for all ranks.
use ampp.Prelude.{ℕ, suc, ◌+◌, ◌^◌, ◌≤◌, ◌<◌, ◌≡◌, sym, ◌∙◌, true, List, [], ◌∷◌, arith, length}
use ampp.Termination.SinhaKale.{Counts, Detector, u64}
use ampp.Termination.SinhaKale.Waves.{total, total-between}
use ampp.Termination.SinhaKale.Phases.{Reach, settled, terminated-settled}

-- MPI_Iallreduce with MPI_SUM over `n` ranks. Rank `i` has built `nc i t` and handled `np i t`
-- messages by time `t`, and hands in wave `k` what it has counted by time `sampled k i`. A wave ends
-- at a rank only when every rank has handed in its counts, so the next wave samples later.
pub record Allreduce (n : ℕ) (np nc sampled : ℕ → ℕ → ℕ) (result : ℕ → Counts) : Type 0 where
  pub np_grows : (i t t' : ℕ) → t ≤ t' → np i t ≤ np i t'
  pub nc_grows : (i t t' : ℕ) → t ≤ t' → nc i t ≤ nc i t'
  pub np_summed : (k : ℕ) → (result k).np ≡ u64 (total n (λ i. np i (sampled k i)))
  pub nc_summed : (k : ℕ) → (result k).nc ≡ u64 (total n (λ i. nc i (sampled k i)))
  pub in_turn : (k i j : ℕ) → sampled k i ≤ sampled (suc k) j

-- The results that a detector has seen, the latest first, are those of the waves.
abbrev pub Results : (ℕ → Counts) → List Counts → Type 0
Results result [] = Unit
Results result (r ∷ rs) = (r ≡ result (length rs)) × Results result rs

-- A time between the samples of one wave and those of the next.
abbrev pub Between : ℕ → (ℕ → ℕ → ℕ) → ℕ → ℕ → Type 0
Between n sampled k t = (i : ℕ) → i < n → (sampled k i ≤ t) × (t ≤ sampled (suc k) i)

module _ (n : ℕ) (np nc sampled : ℕ → ℕ → ℕ) (result : ℕ → Counts)
    (waves : Allreduce n np nc sampled result)
    (np_fits : (k : ℕ) → total n (λ i. np i (sampled k i)) < 2 ^ 64)
    (nc_fits : (k : ℕ) → total n (λ i. nc i (sampled k i)) < 2 ^ 64) where
  quiet-Between :
      (k t : ℕ)
      → Between n sampled k t
      → (result k).np ≡ (result k).nc
      → (result (suc k)).np ≡ (result (suc k)).nc
      → (result (suc k)).nc ≡ (result k).nc
      → total n (λ i. np i t) ≡ total n (λ i. nc i t)
  quiet-Between k t within b b' same =
      let handled =
        total-between n (λ i. np i (sampled k i)) (λ i. np i t) (λ i. np i (sampled (suc k) i))
          (λ i lt. waves.np_grows i _ _ (within i lt).0)
          (λ i lt. waves.np_grows i _ _ (within i lt).1) (omega (arith, facts)) in
      let made =
        total-between n (λ i. nc i (sampled k i)) (λ i. nc i t) (λ i. nc i (sampled (suc k) i))
          (λ i lt. waves.nc_grows i _ _ (within i lt).0)
          (λ i lt. waves.nc_grows i _ _ (within i lt).1) (omega (arith, facts)) in
      omega (arith, handled, made, facts)
    where
      facts :
          ((result k).np ≡ total n (λ i. np i (sampled k i)))
          × ((result k).nc ≡ total n (λ i. nc i (sampled k i)))
          × ((result (suc k)).np ≡ total n (λ i. np i (sampled (suc k) i)))
          × ((result (suc k)).nc ≡ total n (λ i. nc i (sampled (suc k) i)))
      facts = (
        omega (arith, waves.np_summed k, np_fits k),
        omega (arith, waves.nc_summed k, nc_fits k),
        omega (arith, waves.np_summed (suc k), np_fits (suc k)),
        omega (arith, waves.nc_summed (suc k), nc_fits (suc k)),
      )

  settled-quiet :
      (h : List Counts)
      → Results result h
      → settled h ≡ true
      → (k : ℕ) × (length h ≡ k + 2)
        × ((t : ℕ) → Between n sampled k t → total n (λ i. np i t) ≡ total n (λ i. nc i t))
  settled-quiet [] r e = cc
  settled-quiet (x ∷ []) r e = ground (arith, e)
  settled-quiet (x ∷ y ∷ h) r e = (
    length h,
    omega arith,
    λ t within.
        quiet-Between (length h) t within (ground (arith, r, e)) (ground (arith, r, e))
          (ground (arith, r, e)),
  )

  -- Let the waves sum the counts of `n` ranks, let counts only grow and let no sum reach 2 ^ 64. If
  -- a rank's detector that sees the waves in turn ends the epoch, then it has seen at least two, and
  -- at every time between the samples of the last two as many messages had been handled as built on
  -- all ranks together.
  pub terminated-quiet :
      {d : Detector} {h : List Counts}
      → Reach d h
      → Results result h
      → d.terminated ≡ true
      → (k : ℕ) × (length h ≡ k + 2)
        × ((t : ℕ) → Between n sampled k t → total n (λ i. np i t) ≡ total n (λ i. nc i t))
  terminated-quiet {h} r agree t = settled-quiet h agree (sym (terminated-settled r).0 ∙ t)
