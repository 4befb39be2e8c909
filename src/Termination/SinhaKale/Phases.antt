-- ===== src/Termination/SinhaKale/Phases.antt =====
-- src/mpi_sinha_kale_ramkumar_termination_detector.cpp: the two phases as a statement about the
-- results of the reductions that the detector has seen, the latest first.
use ampp.Prelude.{
  ℕ, ◌≡◌, refl, sym, ap, subst, ◌∙◌, Bool, true, false, ◌&&◌, List, [], ◌∷◌, ◌++◌, Option, none,
  some, arith, ◌⊎◌, ◌==◌, if◌then◌else◌, inl, inr, Bool-cases,
}
use ampp.Messaging.TaskResult.{TaskResult, tr_idle}
use ampp.Termination.SinhaKale.{
  Counts, Detector, message_being_built, message_received, message_handled, increase_activity_count,
  decrease_activity_count, setup_end_epoch_with_value, poll_for_events, decide, start_reduction,
  test_reduction, add_nc, add_np,
}

-- As many messages handled as built.
abbrev pub balanced : Counts → Bool
balanced r = r.np == r.nc

abbrev pub balanced_head : List Counts → Bool
balanced_head [] = false
balanced_head (r ∷ rs) = balanced r

abbrev pub latest_nc : List Counts → ℕ
latest_nc [] = 0
latest_nc (r ∷ rs) = r.nc

-- The two latest results are balanced and agree.
abbrev pub settled : List Counts → Bool
settled [] = false
settled (r ∷ rs) = balanced r && (balanced_head rs && (r.nc == latest_nc rs))

-- The two latest results before the last did not settle the matter, nor did any before them.
abbrev pub UnsettledBefore : List Counts → Type 0
UnsettledBefore [] = Unit
UnsettledBefore (r ∷ rs) = (settled rs ≡ false) × UnsettledBefore rs

-- The result that a poll takes in.
abbrev pub seen : Bool → Option Counts → Detector → List Counts
seen false c d = []
seen true none d = []
seen true (some g) d = if d.terminated then [] else g ∷ []

-- A rank's detector from the end of its part of the epoch on: it counts messages and polls.
pub data Reach : Detector → List Counts → Type 0 where
  ended :
      (d : Detector) {d' : Detector} (value : ℕ)
      → setup_end_epoch_with_value value d ≡ some d'
      → Reach d' []
  built :
      {d d' : Detector} {h : List Counts} → Reach d h → message_being_built d ≡ some d' → Reach d' h
  received :
      {d d' : Detector} {h : List Counts} → Reach d h → message_received d ≡ some d' → Reach d' h
  handled :
      {d d' : Detector} {h : List Counts} → Reach d h → message_handled d ≡ some d' → Reach d' h
  increased :
      {d : Detector} {h : List Counts} → Reach d h → (v : ℕ) → Reach (increase_activity_count v d) h
  decreased :
      {d : Detector} {h : List Counts} → Reach d h → (v : ℕ) → Reach (decrease_activity_count v d) h
  polled :
      {d d' : Detector} {h : List Counts} {r : TaskResult}
      → Reach d h
      → (idle : Bool) (c : Option Counts) → poll_for_events idle c d ≡ some (r, d')
      → Reach d' (seen idle c d ++ h)

-- Either a reduction is to be started, or one is under way with the latest count kept.
abbrev Mode : Detector → List Counts → Type 0
Mode d h =
    ((d.start_iallreduce ≡ true) × (d.iallreduce_active ≡ false))
    ⊎ ((d.start_iallreduce ≡ false) × (d.iallreduce_active ≡ true) × (d.prev_nc ≡ latest_nc h))

pub record Inv (d : Detector) (h : List Counts) : Type 0 where
  pub counting : d.in_td ≡ true
  pub latest : d.terminated ≡ false → d.global_counts.nc ≡ latest_nc h
  pub mode : d.terminated ≡ false → Mode d h
  pub phased : d.terminated ≡ false → d.phase ≡ (if balanced_head h then 2 else 1)
  pub done : d.terminated ≡ settled h
  pub before : UnsettledBefore h

pub some_pair_snd {ℓ κ} :
    {A : Type ℓ} {B : Type κ} {a a' : A} {b b' : B}
    → ◌≡◌ {A = Option (A × B)} (some (a, b)) (some (a', b'))
    → b ≡ b'
some_pair_snd e = ground (arith, e)

-- A reduction is under way.
record Pending (d : Detector) (h : List Counts) : Type 0 where
  counting : d.in_td ≡ true
  running : d.terminated ≡ false
  started : d.start_iallreduce ≡ false
  active : d.iallreduce_active ≡ true
  previous : d.prev_nc ≡ latest_nc h
  phased : d.phase ≡ (if balanced_head h then 2 else 1)
  open_end : settled h ≡ false
  before : UnsettledBefore h

start_reduction-Pending :
    (d : Detector) (h : List Counts)
    → d.terminated ≡ false
    → Inv d h
    → Pending (start_reduction d) h
unfolding start_reduction
start_reduction-Pending d h t i = ground (arith, i.latest t, i.mode t, i.phased t)

Pending-Inv :
    (d : Detector) (h : List Counts) → Pending d h → d.global_counts.nc ≡ latest_nc h → Inv d h
Pending-Inv d h p e = record {
  counting = p.counting;
  latest = λ t. e;
  mode = λ t. inr (p.started, p.active, p.previous);
  phased = λ t. p.phased;
  done = p.running ∙ sym p.open_end;
  before = p.before;
}

decide-Inv :
    (d d' : Detector) (h : List Counts) (r : TaskResult) (g : Counts)
    → decide g d ≡ some (r, d')
    → Pending d h
    → Inv d' (g ∷ h)
unfolding decide
decide-Inv d d' h r g e p = ground (arith, p)

start_reduction-global : (d : Detector) → (start_reduction d).global_counts ≡ d.global_counts
unfolding start_reduction
start_reduction-global d = ground arith

poll_running :
    (c : Option Counts) (d : Detector)
    → d.terminated ≡ false
    → d.in_td ≡ true
    → (start_reduction d).iallreduce_active ≡ true
    → poll_for_events true c d ≡ test_reduction c (start_reduction d)
unfolding poll_for_events
poll_running c d t n a = ground (arith, t, n, a)

poll_stopped :
    (idle : Bool) (c : Option Counts) (d : Detector)
    → d.terminated ≡ true
    → (poll_for_events idle c d ≡ some (tr_idle, d)) × (seen idle c d ≡ [])
unfolding poll_for_events
poll_stopped false c d t = (refl, refl)
poll_stopped true none d t = (ground (arith, t), refl)
poll_stopped true (some g) d t = (ground (arith, t), ground (arith, t))

poll_busy : (c : Option Counts) (d : Detector) → poll_for_events false c d ≡ some (tr_idle, d)
unfolding poll_for_events
poll_busy c d = refl

-- What `poll_for_events` makes of a detector that is still at work.
running-Inv :
    (d d' : Detector) (h : List Counts) (r : TaskResult) (c : Option Counts)
    → test_reduction c (start_reduction d) ≡ some (r, d')
    → d.terminated ≡ false
    → Inv d h
    → Inv d' (seen true c d ++ h)
unfolding test_reduction
running-Inv d d' h r none e t i =
    subst (λ x. Inv x h) (some_pair_snd e)
      (Pending-Inv (start_reduction d) h (start_reduction-Pending d h t i)
        (ap (λ (g : Counts). g.nc) (start_reduction-global d) ∙ i.latest t))
running-Inv d d' h r (some g) e t i =
    rw t (decide-Inv (start_reduction d) d' h r g e (start_reduction-Pending d h t i))

poll_for_events-Inv :
    (d d' : Detector) (h : List Counts) (r : TaskResult) (idle : Bool) (c : Option Counts)
    → poll_for_events idle c d ≡ some (r, d')
    → Inv d h
    → Inv d' (seen idle c d ++ h)
poll_for_events-Inv d d' h r false c e i =
    subst (λ x. Inv x h) (some_pair_snd (sym (poll_busy c d) ∙ e)) i
poll_for_events-Inv d d' h r true c e i = elim (Bool-cases d.terminated) [
  | inl t ↦
      let (same, nothing) = poll_stopped true c d t in
      rw nothing (subst (λ x. Inv x h) (some_pair_snd (sym same ∙ e)) i)
  | inr t ↦
      let p = start_reduction-Pending d h t i in
      running-Inv d d' h r c (sym (poll_running c d t i.counting p.active) ∙ e) t i
]

-- Counting leaves the detection alone.
record Same (d d' : Detector) : Type 0 where
  counting : d'.in_td ≡ d.in_td
  running : d'.terminated ≡ d.terminated
  global : d'.global_counts ≡ d.global_counts
  started : d'.start_iallreduce ≡ d.start_iallreduce
  active : d'.iallreduce_active ≡ d.iallreduce_active
  phased : d'.phase ≡ d.phase
  previous : d'.prev_nc ≡ d.prev_nc

Same-Inv : (d d' : Detector) (h : List Counts) → Same d d' → Inv d h → Inv d' h
Same-Inv d d' h s i = record {
  counting = s.counting ∙ i.counting;
  latest = λ t. ground (arith, s, i.latest);
  mode = λ t. ground (arith, s, i.mode);
  phased = λ t. ground (arith, s, i.phased);
  done = s.running ∙ i.done;
  before = i.before;
}

Reach-Inv : {d : Detector} {h : List Counts} → Reach d h → Inv d h
unfolding setup_end_epoch_with_value message_being_built message_received message_handled
    increase_activity_count decrease_activity_count add_nc add_np
Reach-Inv (ended d {d'} value e) =
    let was : d.terminated ≡ false = ground (arith, e) in
    record {
      counting = ground (arith, e);
      latest = λ t. ground (arith, e);
      mode = λ t. ground (arith, e);
      phased = λ t. ground (arith, e);
      done = ground (arith, e, was);
      before = tt;
    }
Reach-Inv (built {d} {d'} {h} r e) = Same-Inv d d' h (ground (arith, e)) (Reach-Inv r)
Reach-Inv (received {d} {d'} {h} r e) = Same-Inv d d' h (ground (arith, e)) (Reach-Inv r)
Reach-Inv (handled {d} {d'} {h} r e) = Same-Inv d d' h (ground (arith, e)) (Reach-Inv r)
Reach-Inv (increased {d} {h} r v) = Same-Inv d _ h (ground (arith)) (Reach-Inv r)
Reach-Inv (decreased {d} {h} r v) = Same-Inv d _ h (ground (arith)) (Reach-Inv r)
Reach-Inv (polled {d} {d'} {h} {r = res} r idle c e) =
    poll_for_events-Inv d d' h res idle c e (Reach-Inv r)

-- A detector says that the epoch is over exactly when the two latest results of its reductions are
-- both balanced and count equally many messages, and it said nothing at any earlier result.
pub terminated-settled :
    {d : Detector} {h : List Counts} → Reach d h → (d.terminated ≡ settled h) × UnsettledBefore h
terminated-settled r = ((Reach-Inv r).done, (Reach-Inv r).before)
