-- ===== src/Termination/BlueGene/Tests.antt =====
-- src/mpi_sinha_kale_ramkumar_termination_detector_bgp.cpp: tests. Times are numbers, a reduction is due
-- ten after the last one, and counts have 32 bits.
use ampp.Prelude.{ℕ, ◌+◌, ◌≡◌, refl, Bool, true, ◌&&◌, not, [], ◌∷◌, Option, none, some, leb}
use ampp.Messaging.TaskResult.{TaskResult}
use ampp.Termination.SinhaKale.{Counts}
use ampp.Termination.SinhaKale.Phases.{settled, UnsettledBefore}
use ampp.Termination.BlueGene.{
  BlueGene, initialize, begin_epoch, message_being_built, message_handled,
  setup_end_epoch_with_value, reduction_done, start_reduction, decide, poll_for_events, add_nc,
  add_np, wrap,
}
use ampp.Termination.BlueGene.Phases.{Reach, ended, completed, polled, undecided, Reach-settled}

abbrev due : ℕ → ℕ → Bool
due now last = leb (last + 10) now

abbrev both : Counts
both = record { np = 1; nc = 1; user_value = 5 }

abbrev get : BlueGene ℕ → Option (BlueGene ℕ) → BlueGene ℕ
get d none = d
get d (some d') = d'

abbrev get_polled : BlueGene ℕ → Option (TaskResult × BlueGene ℕ) → BlueGene ℕ
get_polled d none = d
get_polled d (some p) = p.1

abbrev begun : BlueGene ℕ
begun = get (initialize 32 0 due) (begin_epoch 32 0 due (initialize 32 0 due))

abbrev counted : BlueGene ℕ
counted =
    let built = get begun (message_being_built 32 0 due begun) in
    get built (message_handled 32 0 due built)

abbrev at_end : BlueGene ℕ
at_end = get counted (setup_end_epoch_with_value 32 0 due 5 counted)

-- Two reductions: the first is done while the detector is not polled.
abbrev first : BlueGene ℕ
first = get_polled at_end (poll_for_events 32 0 due true 20 none at_end)

abbrev done_once : BlueGene ℕ
done_once = reduction_done 32 0 due (some both) first

abbrev second : BlueGene ℕ
second = get_polled done_once (poll_for_events 32 0 due true 25 none done_once)

abbrev last : BlueGene ℕ
last = get_polled second (poll_for_events 32 0 due true 35 (some both) second)

two_sums : Reach 32 0 due last (both ∷ both ∷ [])
unfolding initialize begin_epoch message_being_built message_handled setup_end_epoch_with_value
    reduction_done start_reduction decide poll_for_events add_nc add_np wrap
two_sums =
    polled
      (polled (completed (polled (ended counted 5 refl) true 20 none refl) (some both)) true 25 none
        refl)
      true 35 (some both) refl

last_ends : last.terminated ≡ true
unfolding initialize begin_epoch message_being_built message_handled setup_end_epoch_with_value
    reduction_done start_reduction decide poll_for_events add_nc add_np wrap
last_ends = refl

Reach-settled_example :
    (last.terminated ≡ (settled (both ∷ both ∷ []) && not (undecided last)))
    × UnsettledBefore (both ∷ both ∷ [])
Reach-settled_example = Reach-settled 32 0 due two_sums
