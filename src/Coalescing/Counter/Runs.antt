-- ===== src/Coalescing/Counter/Runs.antt =====
-- am++/counter_coalesced_message_type.hpp: over any schedule, no message is lost or sent twice.
use ampp.Prelude.{
  ℕ, ◌+◌, ◌≤◌, ◌<◌, ◌≡◌, refl, sym, ap, ◌∙◌, true, List, [], ◌∷◌, ◌++◌, Option, none, some, leb,
  if◌then◌else◌, length, arith, All, ◌⊎◌, Bool-cases, inl, inr, get_elem?, set, replicate,
}
use ampp.Coalescing.Counter.{
  Buffer, Worker, Choice, call_send, call_message_being_built, call_flush, go, sender_active, taken,
  step_at, put_back, step_from, run, new_buffer, idle, spinning, claiming, writing, closing,
  closed_registering, closed_counting, registering, counting, sent_one, waiting, clearing, emptying,
  releasing, passing, loading, comparing, swapping,
}
use ampp.Coalescing.Counter.Totals.{
  sum, without, sum-without, sum-set, pending, closes, owns, target, passes,
}
use ampp.Coalescing.Counter.Invariant.{Inv, threads_Any, is_full}
use ampp.Coalescing.Counter.Quiet.{reorder}
use ampp.Coalescing.Counter.Steps.{step-Keeps, init-Inv, sum-replicate, length-sum}
use ampp.Coalescing.Counter.Weighed.{
  weigh, weigh_all, holds, stored, gain, weight_of, weigh-taken-none,
}
use ampp.Coalescing.Counter.Kept.{step-Weighs, expected}

-- The messages that threads begin to send in a schedule.
abbrev starts : {A : Type 0} → Option (Worker A) → Choice A → List A
starts none c = []
starts (some idle) (call_send a) = a ∷ []
starts (some idle) call_message_being_built = []
starts (some idle) call_flush = []
starts (some idle) (go f) = []
starts (some w) c = []

abbrev pub accepted :
    {A : Type 0} → Option (List (Worker A) × Buffer A) → List (ℕ × Choice A) → List A
accepted none ts = []
accepted (some s) [] = []
accepted (some (ws, b)) ((k, c) ∷ ts) =
    starts (get_elem? ws k) c ++ accepted (step_from (k, c) (some (ws, b))) ts

module _ {A : Type 0} (v : A → ℕ) where
  abbrev pub total_of : List A → ℕ
  total_of [] = 0
  total_of (a ∷ ms) = v a + total_of ms

  total_of-append : (xs ys : List A) → total_of (xs ++ ys) ≡ total_of xs + total_of ys
  total_of-append [] ys = omega arith
  total_of-append (x ∷ xs) ys = omega (arith, total_of-append xs ys)

  starts-gain : (w : Worker A) (c : Choice A) → total_of (starts (some w) c) ≡ gain v w c
  unfolding gain
  starts-gain idle (call_send a) = omega arith
  starts-gain idle call_message_being_built = refl
  starts-gain idle call_flush = refl
  starts-gain idle (go f) = refl
  starts-gain (spinning a) c = refl
  starts-gain (claiming a) c = refl
  starts-gain (writing a j) c = refl
  starts-gain closing c = refl
  starts-gain closed_registering c = refl
  starts-gain closed_counting c = refl
  starts-gain registering c = refl
  starts-gain counting c = refl
  starts-gain sent_one c = refl
  starts-gain (waiting f x) c = refl
  starts-gain (clearing f x) c = refl
  starts-gain (emptying f x items) c = refl
  starts-gain (releasing f items) c = refl
  starts-gain (passing f items) c = refl
  starts-gain loading c = refl
  starts-gain (comparing x) c = refl
  starts-gain (swapping x) c = refl

  abbrev everything : List (Worker A) → Buffer A → ℕ
  everything ws b = sum (holds v) ws + stored v b

  -- What a step of the system does.
  abbrev Moves : ℕ → ℕ → Option (List (Worker A) × Buffer A) → Type 0
  Moves m total r =
      (ws : List (Worker A)) × (b : Buffer A) × (r ≡ some (ws, b))
      × Inv m b ws
      × (everything ws b ≡ total)

  step_at-Moves :
      (m k : ℕ) (c : Choice A) (o : Option (Worker A)) (ws : List (Worker A)) (b : Buffer A)
      → get_elem? ws k ≡ o
      → Inv m b ws
      → Moves m (everything ws b + total_of (starts o c)) (step_at k c o (ws, b))
  unfolding step_at put_back
  step_at-Moves m k c none ws b e inv = (ws, b, refl, inv, omega arith)
  step_at-Moves m k c (some w) ws b e inv =
      let first =
        reorder m b ws (w ∷ without k ws) (λ f. sym (sum-without f k ws w e))
          (length-sum (w ∷ without k ws)
            ∙ sym (sum-without (λ u. 1) k ws w e)
            ∙ sym (length-sum ws))
          inv in
      let (w', b', made, inv') = step-Keeps m c w b (without k ws) first in
      let weighed : holds v w' + stored v b' ≡ expected v c w b =
        sym (ap (weight_of v (expected v c w b)) made)
        ∙ step-Weighs v m c w b (without k ws) first in
      (
        set ws k w',
        b',
        ap (put_back k ws) made,
        reorder m b' (w' ∷ without k ws) (set ws k w') (λ f. sum-set f k ws w w' e)
            (length-sum (set ws k w')
              ∙ sum-set (λ u. 1) k ws w w' e
              ∙ sym (length-sum (w' ∷ without k ws)))
            inv',
        omega (
          arith,
          sum-set (holds v) k ws w w' e,
          sum-without (holds v) k ws w e,
          starts-gain w c,
          weighed,
        ),
      )

  step_from-Moves :
      (m k : ℕ) (c : Choice A) (ws : List (Worker A)) (b : Buffer A)
      → Inv m b ws
      → Moves m
          (everything ws b + total_of (starts (get_elem? ws k) c))
          (step_from (k, c) (some (ws, b)))
  unfolding step_from
  step_from-Moves m k c ws b inv = step_at-Moves m k c (get_elem? ws k) ws b refl inv

  run-Moves :
      (m : ℕ) (ts : List (ℕ × Choice A)) (ws : List (Worker A)) (b : Buffer A)
      → Inv m b ws
      → Moves m (everything ws b + total_of (accepted (some (ws, b)) ts)) (run (some (ws, b)) ts)
  unfolding run
  run-Moves m [] ws b inv = (ws, b, refl, inv, omega arith)
  run-Moves m ((k, c) ∷ ts) ws b inv =
      let (ws1, b1, made, inv1, moved1) = step_from-Moves m k c ws b inv in
      let (ws2, b2, rest, inv2, moved2) = run-Moves m ts ws1 b1 inv1 in
      (
        ws2,
        b2,
        ap (λ r. run r ts) made ∙ rest,
        inv2,
        omega (
          arith,
          moved1,
          moved2,
          total_of-append (starts (get_elem? ws k) c)
              (accepted (step_from (k, c) (some (ws, b))) ts),
          ap (λ (r : Option (List (Worker A) × Buffer A)). total_of (accepted r ts)) made,
        ),
      )

  -- Let a buffer have at least one slot, and slots and threads together be fewer than 2 ^ 31. At the
  -- end of every schedule, the messages that threads have begun to send weigh as much as those that
  -- threads have in hand, those in the buffer and those that have been sent, for all weights of messages.
  pub run-kept :
      (m n : ℕ) (ts : List (ℕ × Choice A))
      → 0 < m
      → m + n < sender_active
      → (ws : List (Worker A)) × (b : Buffer A) × (run (some (replicate n idle, new_buffer m)) ts
          ≡ some (ws, b))
        × (sum (holds v) ws + (weigh v (taken b.max_count b.slots) + weigh_all v b.sent)
            ≡ total_of (accepted (some (replicate n idle, new_buffer m)) ts))
  unfolding new_buffer holds
  run-kept m n ts pos lt =
      let (ws, b, made, inv, moved) =
        run-Moves m ts (replicate n idle) (new_buffer m) (init-Inv m n pos lt) in
      (ws, b, made, omega (arith, moved, sum-replicate (holds v) n refl, weigh-taken-none v m))

module _ {A : Type 0} where
  -- Let a buffer have at least one slot, and slots and threads together be fewer than 2 ^ 31. Then
  -- every schedule of the threads runs without a failed assertion, and at its end at most one thread
  -- has closed the buffer and every message sent has between one slot and all slots of a buffer, each
  -- of them written.
  pub run-safe :
      (m n : ℕ) (ts : List (ℕ × Choice A))
      → 0 < m
      → m + n < sender_active
      → (ws : List (Worker A)) × (b : Buffer A) × (run (some (replicate n idle, new_buffer m)) ts
          ≡ some (ws, b))
        × (sum owns ws ≤ 1)
        × All (λ xs. is_full m xs ≡ true) b.sent
  run-safe m n ts pos lt =
      let (ws, b, made, inv, moved) =
        run-Moves (λ a. 0) m ts (replicate n idle) (new_buffer m) (init-Inv m n pos lt) in
      (ws, b, made, inv.owner, inv.sent_full)

  -- Let a buffer have at least one slot, and slots and threads together be fewer than 2 ^ 31. At the
  -- end of every schedule, the exchanges that registered the buffer, each of which makes its thread
  -- tell the layer below of one message being built, are as many as the messages that have been sent
  -- or are about to be, and one more if the buffer is registered.
  pub run-registered :
      (m n : ℕ) (ts : List (ℕ × Choice A))
      → 0 < m
      → m + n < sender_active
      → (ws : List (Worker A)) × (b : Buffer A) × (run (some (replicate n idle, new_buffer m)) ts
          ≡ some (ws, b))
        × (b.registrations
            ≡ length b.sent + sum passes ws + (if b.registered_with_td then 1 else 0))
  run-registered m n ts pos lt =
      let (ws, b, made, inv, moved) =
        run-Moves (λ a. 0) m ts (replicate n idle) (new_buffer m) (init-Inv m n pos lt) in
      (ws, b, made, inv.told)

  -- Let a buffer have at least one slot, and slots and threads together be fewer than 2 ^ 31. At the
  -- end of every schedule, a slot is free or a thread is about to close the buffer or has closed it;
  -- and no thread waits for messages to be written that no thread is about to write.
  pub run-awake :
      (m n : ℕ) (ts : List (ℕ × Choice A))
      → 0 < m
      → m + n < sender_active
      → (ws : List (Worker A)) × (b : Buffer A) × (run (some (replicate n idle, new_buffer m)) ts
          ≡ some (ws, b))
        × ((b.count_allocated < m) ⊎ (0 < sum (closes m) ws + sum owns ws))
        × ((sum (target m) ws ≤ b.count_written) ⊎ (0 < sum pending ws))
  run-awake m n ts pos lt =
      let (ws, b, made, inv, moved) =
        run-Moves (λ a. 0) m ts (replicate n idle) (new_buffer m) (init-Inv m n pos lt) in
      let any = threads_Any m ws in
      (
        ws,
        b,
        made,
        elim (Bool-cases (leb m b.count_allocated)) [
          | inl full ↦ inr (ground (arith, inv.closer, full))
          | inr free ↦ inl (ground (arith, free))
        ],
        elim (Bool-cases (leb (sum (target m) ws) b.count_written)) [
          | inl done ↦ inl (ground (arith, done))
          | inr early ↦ inr (ground (arith, inv.counted, early, any.no_target))
        ],
      )
