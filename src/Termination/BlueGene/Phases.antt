-- ===== src/Termination/BlueGene/Phases.antt =====
-- src/mpi_sinha_kale_ramkumar_termination_detector_bgp.cpp: the two phases as a statement about the
-- sums that DCMF has delivered to the detector, the latest first.
use ampp.Prelude.{
  ℕ, ◌≡◌, refl, sym, subst, ◌∙◌, Bool, true, false, ◌&&◌, not, List, [], ◌∷◌, ◌++◌, Option, none,
  some, arith, if◌then◌else◌, inl, inr, Bool-cases,
}
use ampp.Messaging.TaskResult.{TaskResult, tr_idle}
use ampp.Termination.SinhaKale.{Counts}
use ampp.Termination.SinhaKale.Phases.{
  balanced_head, latest_nc, settled, UnsettledBefore, some_pair_snd,
}
use ampp.Termination.BlueGene.{
  BlueGene, setup_end_epoch_with_value, message_being_built, message_received, message_handled,
  increase_activity_count, decrease_activity_count, reduction_done, start_reduction, decide,
  poll_for_events, add_nc, add_np,
}

-- The sums that DCMF delivers now, if a reduction is under way.
abbrev pub delivered : {Time : Type 0} → Option Counts → BlueGene Time → List Counts
delivered none d = []
delivered (some g) d = if d.iallreduce_really_active then g ∷ [] else []

-- Sums have been delivered that no poll has looked at.
abbrev pub undecided : {Time : Type 0} → BlueGene Time → Bool
undecided d = d.iallreduce_active && not d.iallreduce_really_active

module _ {Time : Type 0} (bits : ℕ) (never : Time) (due : Time → Time → Bool) where
  -- The sums that DCMF delivers when a poll advances it.
  abbrev pub delivered_in : Bool → Time → Option Counts → BlueGene Time → List Counts
  delivered_in false now advance d = []
  delivered_in true now advance d =
      if d.terminated then [] else delivered advance (start_reduction bits never due now d)

  -- A rank's detector from the end of its part of the epoch on, with the sums delivered to it: it
  -- counts messages and polls, and DCMF delivers sums in polls or between them.
  pub data Reach : BlueGene Time → List Counts → Type 0 where
    ended :
        (d : BlueGene Time) {d' : BlueGene Time} (value : ℕ)
        → setup_end_epoch_with_value bits never due value d ≡ some d'
        → Reach d' []
    built :
        {d d' : BlueGene Time} {h : List Counts}
        → Reach d h
        → message_being_built bits never due d ≡ some d'
        → Reach d' h
    received :
        {d d' : BlueGene Time} {h : List Counts}
        → Reach d h
        → message_received bits never due d ≡ some d'
        → Reach d' h
    handled :
        {d d' : BlueGene Time} {h : List Counts}
        → Reach d h
        → message_handled bits never due d ≡ some d'
        → Reach d' h
    increased :
        {d : BlueGene Time} {h : List Counts}
        → Reach d h
        → (v : ℕ) → Reach (increase_activity_count bits never due v d) h
    decreased :
        {d : BlueGene Time} {h : List Counts}
        → Reach d h
        → (v : ℕ) → Reach (decrease_activity_count bits never due v d) h
    completed :
        {d : BlueGene Time} {h : List Counts}
        → Reach d h
        → (sums : Option Counts)
        → Reach (reduction_done bits never due sums d) (delivered sums d ++ h)
    polled :
        {d d' : BlueGene Time} {h : List Counts} {r : TaskResult}
        → Reach d h
        → (idle : Bool) (now : Time) (advance : Option Counts)
        → poll_for_events bits never due idle now advance d ≡ some (r, d')
        → Reach d' (delivered_in idle now advance d ++ h)

  -- A reduction is to be started.
  record Starting (d : BlueGene Time) (h : List Counts) : Type 0 where
    counting : d.in_td ≡ true
    going : d.terminated ≡ false
    started : d.start_iallreduce ≡ true
    active : d.iallreduce_active ≡ false
    really : d.iallreduce_really_active ≡ false
    latest : d.global_counts.nc ≡ latest_nc h
    phased : d.phase ≡ (if balanced_head h then 2 else 1)
    open_end : settled h ≡ false
    before : UnsettledBefore h

  -- A reduction is under way.
  record Running (d : BlueGene Time) (h : List Counts) : Type 0 where
    counting : d.in_td ≡ true
    going : d.terminated ≡ false
    started : d.start_iallreduce ≡ false
    active : d.iallreduce_active ≡ true
    really : d.iallreduce_really_active ≡ true
    previous : d.prev_nc ≡ latest_nc h
    phased : d.phase ≡ (if balanced_head h then 2 else 1)
    open_end : settled h ≡ false
    before : UnsettledBefore h

  -- The latest sums have been delivered, and no poll has looked at them.
  record Delivered (d : BlueGene Time) (g : Counts) (h : List Counts) : Type 0 where
    counting : d.in_td ≡ true
    going : d.terminated ≡ false
    started : d.start_iallreduce ≡ false
    active : d.iallreduce_active ≡ true
    really : d.iallreduce_really_active ≡ false
    latest : d.global_counts ≡ g
    previous : d.prev_nc ≡ latest_nc h
    phased : d.phase ≡ (if balanced_head h then 2 else 1)
    open_end : settled h ≡ false
    before : UnsettledBefore h

  record Finished (d : BlueGene Time) (h : List Counts) : Type 0 where
    done : d.terminated ≡ true
    active : d.iallreduce_active ≡ false
    really : d.iallreduce_really_active ≡ false
    over : settled h ≡ true
    before : UnsettledBefore h

  data Inv (d : BlueGene Time) : List Counts → Type 0 where
    starting : {h : List Counts} → Starting d h → Inv d h
    running : {h : List Counts} → Running d h → Inv d h
    with_sums : {g : Counts} {h : List Counts} → Delivered d g h → Inv d (g ∷ h)
    finished : {h : List Counts} → Finished d h → Inv d h

  Inv-settled :
      {d : BlueGene Time} {h : List Counts}
      → Inv d h
      → (d.terminated ≡ (settled h && not (undecided d))) × UnsettledBefore h
  Inv-settled (starting s) = (ground (arith, s), s.before)
  Inv-settled (running s) = (ground (arith, s), s.before)
  Inv-settled (with_sums s) = (ground (arith, s), (s.open_end, s.before))
  Inv-settled (finished s) = (ground (arith, s), s.before)

  reduction_done-Inv :
      (sums : Option Counts) {d : BlueGene Time} {h : List Counts}
      → Inv d h
      → Inv (reduction_done bits never due sums d) (delivered sums d ++ h)
  unfolding reduction_done
  reduction_done-Inv none i = i
  reduction_done-Inv (some g) (starting s) = simp s.really (starting s)
  reduction_done-Inv (some g) (running s) = simp s.really (with_sums (ground (arith, s)))
  reduction_done-Inv (some g) (with_sums s) = simp s.really (with_sums s)
  reduction_done-Inv (some g) (finished s) = simp s.really (finished s)

  start_reduction-Inv :
      (now : Time) {d : BlueGene Time} {h : List Counts}
      → d.terminated ≡ false
      → Inv d h
      → Inv (start_reduction bits never due now d) h
        × ((start_reduction bits never due now d).terminated ≡ false)
        × ((start_reduction bits never due now d).in_td ≡ true)
  unfolding start_reduction
  start_reduction-Inv now {d} t (starting s) =
      elim (Bool-cases (due now d.last_iallreduce_done_time)) [
        | inl ready ↦ simp (s.started, ready) (running (ground (arith, s)), t, s.counting)
        | inr early ↦ simp (s.started, early) (starting s, t, s.counting)
      ]
  start_reduction-Inv now t (running s) = simp s.started (running s, t, s.counting)
  start_reduction-Inv now t (with_sums s) = simp s.started (with_sums s, t, s.counting)
  start_reduction-Inv now t (finished s) = absurd (ground (arith, s, t))

  decide-Inv :
      (now : Time) {d d' : BlueGene Time} {g : Counts} {h : List Counts} {r : TaskResult}
      → Delivered d g h
      → decide bits never due now d ≡ some (r, d')
      → Inv d' (g ∷ h)
  unfolding decide
  decide-Inv now {d} {d'} {g} {h} s e = elim (Bool-cases d'.terminated) [
    | inl over ↦ finished (ground (arith, e, s, over))
    | inr going ↦ starting (ground (arith, e, s, going))
  ]

  -- Counting leaves the detection alone.
  record Same (d d' : BlueGene Time) : Type 0 where
    counting : d'.in_td ≡ d.in_td
    running : d'.terminated ≡ d.terminated
    global : d'.global_counts ≡ d.global_counts
    started : d'.start_iallreduce ≡ d.start_iallreduce
    active : d'.iallreduce_active ≡ d.iallreduce_active
    really : d'.iallreduce_really_active ≡ d.iallreduce_really_active
    phased : d'.phase ≡ d.phase
    previous : d'.prev_nc ≡ d.prev_nc

  Same-Inv : {d d' : BlueGene Time} {h : List Counts} → Same d d' → Inv d h → Inv d' h
  Same-Inv same (starting s) = starting (ground (arith, s, same))
  Same-Inv same (running s) = running (ground (arith, s, same))
  Same-Inv same (with_sums s) = with_sums (ground (arith, s, same))
  Same-Inv same (finished s) = finished (ground (arith, s, same))

  -- What a poll does when it has advanced DCMF.
  abbrev look : Time → BlueGene Time → BlueGene Time → Option (TaskResult × BlueGene Time)
  look now d d' =
      if d.iallreduce_active
      then if not d'.iallreduce_really_active
        then decide bits never due now d'
        else some (tr_idle, d')
      else some (tr_idle, d)

  nothing_delivered :
      (sums : Option Counts) (d : BlueGene Time)
      → d.iallreduce_really_active ≡ false
      → (reduction_done bits never due sums d ≡ d) × (delivered sums d ≡ [])
  unfolding reduction_done
  nothing_delivered none d e = (refl, refl)
  nothing_delivered (some g) d e = (simp e refl, simp e refl)

  look-Inv :
      (now : Time) (advance : Option Counts) {d d' : BlueGene Time} {h : List Counts}
      {r : TaskResult}
      → Inv d h
      → d.terminated ≡ false
      → look now d (reduction_done bits never due advance d) ≡ some (r, d')
      → Inv d' (delivered advance d ++ h)
  unfolding reduction_done
  look-Inv now advance {d} {d'} {h} (starting s) going e =
      let idles : look now d (reduction_done bits never due advance d) ≡ some (tr_idle, d) =
        simp s.active refl in
      subst (λ sums. Inv d' (sums ++ h)) (sym (nothing_delivered advance d s.really).1)
        (subst (λ x. Inv x h) (some_pair_snd (sym idles ∙ e)) (starting s))
  look-Inv now none {d} {d'} {h} (running s) going e =
      let idles : look now d d ≡ some (tr_idle, d) = simp (s.active, s.really) refl in
      subst (λ x. Inv x h) (some_pair_snd (sym idles ∙ e)) (running s)
  look-Inv now (some g) {d} {d'} {h} (running s) going e =
      let after = record d { global_counts = g; iallreduce_really_active = false } in
      let sums : Delivered after g h = ground (arith, s) in
      simp s.really (decide-Inv now sums (sym (simp (s.active, s.really) refl) ∙ e))
  look-Inv now advance {d} {d'} (with_sums {g} {h} s) going e =
      let (same, nothing) = nothing_delivered advance d s.really in
      simp nothing (decide-Inv now s (sym (simp (same, s.active, s.really) refl) ∙ e))
  look-Inv now advance (finished s) going e = absurd (ground (arith, s, going))

  poll_stopped :
      (idle : Bool) (now : Time) (advance : Option Counts) (d : BlueGene Time)
      → d.terminated ≡ true
      → (poll_for_events bits never due idle now advance d ≡ some (tr_idle, d))
        × (delivered_in idle now advance d ≡ [])
  unfolding poll_for_events
  poll_stopped false now advance d t = (refl, refl)
  poll_stopped true now advance d t = (simp t refl, simp t refl)

  poll_going :
      (now : Time) (advance : Option Counts) (d : BlueGene Time)
      → d.terminated ≡ false
      → d.in_td ≡ true
      → let d1 = start_reduction bits never due now d in
        poll_for_events bits never due true now advance d
        ≡ look now d1 (reduction_done bits never due advance d1)
  unfolding poll_for_events
  poll_going now advance d t n = simp (t, n) refl

  delivered_going :
      (now : Time) (advance : Option Counts) (d : BlueGene Time)
      → d.terminated ≡ false
      → delivered advance (start_reduction bits never due now d) ≡ delivered_in true now advance d
  delivered_going now advance d t = simp t refl

  Inv-in_td :
      {d : BlueGene Time} {h : List Counts} → Inv d h → d.terminated ≡ false → d.in_td ≡ true
  Inv-in_td (starting s) t = s.counting
  Inv-in_td (running s) t = s.counting
  Inv-in_td (with_sums s) t = s.counting
  Inv-in_td (finished s) t = absurd (ground (arith, s, t))

  poll-Inv :
      (idle : Bool) (now : Time) (advance : Option Counts) {d d' : BlueGene Time} {h : List Counts}
      {r : TaskResult}
      → Inv d h
      → poll_for_events bits never due idle now advance d ≡ some (r, d')
      → Inv d' (delivered_in idle now advance d ++ h)
  unfolding poll_for_events
  poll-Inv false now advance {d} {d'} {h} i e = subst (λ x. Inv x h) (some_pair_snd e) i
  poll-Inv true now advance {d} {d'} {h} i e = elim (Bool-cases d.terminated) [
    | inl t ↦
        let (same, nothing) = poll_stopped true now advance d t in
        simp t (subst (λ x. Inv x h) (some_pair_snd (sym same ∙ e)) i)
    | inr t ↦
        let (i', t', n') = start_reduction-Inv now t i in
        subst (λ sums. Inv d' (sums ++ h)) (delivered_going now advance d t)
          (look-Inv now advance i' t' (sym (poll_going now advance d t (Inv-in_td i t)) ∙ e))
  ]

  Reach-Inv : {d : BlueGene Time} {h : List Counts} → Reach d h → Inv d h
  unfolding setup_end_epoch_with_value message_being_built message_received message_handled
      increase_activity_count decrease_activity_count add_nc add_np
  Reach-Inv (ended d {d'} value e) =
      let was : d.terminated ≡ false = ground (arith, e) in starting (ground (arith, e, was))
  Reach-Inv (built r e) = Same-Inv (ground (arith, e)) (Reach-Inv r)
  Reach-Inv (received r e) = Same-Inv (ground (arith, e)) (Reach-Inv r)
  Reach-Inv (handled r e) = Same-Inv (ground (arith, e)) (Reach-Inv r)
  Reach-Inv (increased r v) = Same-Inv (ground arith) (Reach-Inv r)
  Reach-Inv (decreased r v) = Same-Inv (ground arith) (Reach-Inv r)
  Reach-Inv (completed r sums) = reduction_done-Inv sums (Reach-Inv r)
  Reach-Inv (polled r idle now advance e) = poll-Inv idle now advance (Reach-Inv r) e

  -- The detector says that the epoch is over exactly when the two latest sums that were delivered to it
  -- are both balanced and count equally many messages, and a poll has looked at the latest; and no two
  -- earlier ones in a row were so.
  pub Reach-settled :
      {d : BlueGene Time} {h : List Counts}
      → Reach d h
      → (d.terminated ≡ (settled h && not (undecided d))) × UnsettledBefore h
  Reach-settled r = Inv-settled (Reach-Inv r)
