-- ===== src/Termination/SinhaKale/Tests.antt =====
-- src/mpi_sinha_kale_ramkumar_termination_detector.cpp: tests, with two ranks.
use ampp.Prelude.{
  ℕ, zero, suc, ◌+◌, ◌^◌, ◌≤◌, ◌<◌, ◌≡◌, refl, true, List, [], ◌∷◌, Option, none, some, arith,
  length, leb, if◌then◌else◌,
}
use ampp.Messaging.TaskResult.{TaskResult, tr_idle}
use ampp.Termination.SinhaKale.{
  Counts, Detector, initialize, begin_epoch, message_being_built, setup_end_epoch_with_value,
  poll_for_events,
}
use ampp.Termination.SinhaKale.Waves.{total}
use ampp.Termination.SinhaKale.Phases.{
  Reach, ended, polled, settled, UnsettledBefore, terminated-settled,
}
use ampp.Termination.SinhaKale.Quiescence.{Allreduce, Between, terminated-quiet}

-- At time 1 rank 0 has built a message, at time 2 rank 1 has handled it.
abbrev nc : ℕ → ℕ → ℕ
nc zero t = if leb 1 t then 1 else 0
nc (suc i) t = 0

abbrev np : ℕ → ℕ → ℕ
np (suc zero) t = if leb 2 t then 1 else 0
np i t = 0

-- Wave k is sampled at time k.
abbrev sampled : ℕ → ℕ → ℕ
sampled k i = k

abbrev result : ℕ → Counts
result k = record { np = if leb 2 k then 1 else 0; nc = if leb 1 k then 1 else 0; user_value = 5 }

nc_grows : (i t t' : ℕ) → t ≤ t' → nc i t ≤ nc i t'
nc_grows zero t t' le = ground (arith, le)
nc_grows (suc i) t t' le = omega arith

np_grows : (i t t' : ℕ) → t ≤ t' → np i t ≤ np i t'
np_grows zero t t' le = omega arith
np_grows (suc zero) t t' le = ground (arith, le)
np_grows (suc (suc i)) t t' le = omega arith

total_np : (k : ℕ) → total 2 (λ i. np i (sampled k i)) ≡ (if leb 2 k then 1 else 0)
unfolding total
total_np k = ground arith

total_nc : (k : ℕ) → total 2 (λ i. nc i (sampled k i)) ≡ (if leb 1 k then 1 else 0)
unfolding total
total_nc k = ground arith

two_ranks : Allreduce 2 np nc sampled result
two_ranks = record {
  np_grows = np_grows;
  nc_grows = nc_grows;
  np_summed = λ k. ground (arith, total_np k);
  nc_summed = λ k. ground (arith, total_nc k);
  in_turn = λ k i j. omega arith;
}

np_fits : (k : ℕ) → total 2 (λ i. np i (sampled k i)) < 2 ^ 64
np_fits k = ground (arith, total_np k)

nc_fits : (k : ℕ) → total 2 (λ i. nc i (sampled k i)) < 2 ^ 64
nc_fits k = ground (arith, total_nc k)

abbrev get : Detector → Option Detector → Detector
get d none = d
get d (some d') = d'

abbrev get_polled : Detector → Option (TaskResult × Detector) → TaskResult × Detector
get_polled d none = (tr_idle, d)
get_polled d (some p) = p

-- Rank 0 builds its message before the first wave's result arrives, and sees four waves.
abbrev begun : Detector
begun = get initialize (begin_epoch initialize)

abbrev counted : Detector
counted = get begun (message_being_built begun)

abbrev at_end : Detector
at_end = get counted (setup_end_epoch_with_value 5 counted)

abbrev after : ℕ → Detector
after zero = at_end
after (suc k) = (get_polled (after k) (poll_for_events true (some (result k)) (after k))).1

abbrev results : List Counts
results = result 3 ∷ result 2 ∷ result 1 ∷ result 0 ∷ []

rank_0 : Reach (after 4) results
unfolding begin_epoch initialize message_being_built setup_end_epoch_with_value poll_for_events
rank_0 =
    polled
      (polled
        (polled (polled (ended counted 5 refl) true (some (result 0)) refl) true (some (result 1))
          refl)
        true (some (result 2)) refl)
      true (some (result 3)) refl

after_4 : (after 4).terminated ≡ true
unfolding begin_epoch initialize message_being_built setup_end_epoch_with_value poll_for_events
after_4 = refl

terminated-settled_example : ((after 4).terminated ≡ settled results) × UnsettledBefore results
terminated-settled_example = terminated-settled rank_0

terminated-quiet_example :
    (k : ℕ) × (length results ≡ k + 2)
    × ((t : ℕ) → Between 2 sampled k t → total 2 (λ i. np i t) ≡ total 2 (λ i. nc i t))
terminated-quiet_example =
    terminated-quiet 2 np nc sampled result two_ranks np_fits nc_fits rank_0
      (refl, (refl, (refl, (refl, tt)))) after_4
