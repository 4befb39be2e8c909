-- ===== src/Coalescing/Counter/Steps.antt =====
-- am++/counter_coalesced_message_type.hpp: whichever thread takes a step, the buffer stays consistent.
use ampp.Prelude.{
  ℕ, zero, suc, ◌+◌, ◌<◌, ◌≡◌, refl, Bool, true, false, List, [], ◌∷◌, ◌++◌, none, ◌==◌, length,
  arith, Bool-cases, inl, inr, replicate, length-replicate,
}
use ampp.Coalescing.Counter.{
  Buffer, Worker, Choice, call_send, call_message_being_built, call_flush, go, sender_active,
  register, taken, return_to, step, new_buffer, idle, spinning, claiming, writing, closing,
  closed_registering, closed_counting, registering, counting, sent_one, waiting, clearing, emptying,
  releasing, passing, loading, comparing, swapping,
}
use ampp.Coalescing.Counter.Totals.{
  sum, claims, pending, writes, closes, owns, target, extent, settled, registers, passes,
}
use ampp.Coalescing.Counter.Invariant.{Inv, breaks}
use ampp.Coalescing.Counter.Full.{taken-is_full}
use ampp.Coalescing.Counter.Quiet.{
  idle-Quiet, spinning-Quiet, sent_one-Quiet, loading-Quiet, comparing-Quiet, swapping-Quiet,
  quiet_step,
}
use ampp.Coalescing.Counter.Safe.{
  spinning_step, claiming_step, writing_step, closed_counting_step, waiting_step, swapping_step,
  small_written,
}
use ampp.Coalescing.Counter.Claiming.{next_small, Keeps}
use ampp.Coalescing.Counter.Filling.{
  registering_done, closed_registering_done, register_done, counting_done,
}
use ampp.Coalescing.Counter.Owning.{clearing_done}
use ampp.Coalescing.Counter.Passing.{emptying_done, releasing_done, passing_done}
use ampp.Coalescing.Counter.Writing.{closing_full}

module _ {A : Type 0} where
  comparing_step :
      (m : ℕ) (c : Choice A) (x : ℕ) (b : Buffer A) (rest : List (Worker A))
      → Inv m b (comparing x ∷ rest)
      → Keeps m c (comparing x) b rest
  unfolding step
  comparing_step m c x b rest inv = elim (Bool-cases (x == b.last_active)) [
    | inl same ↦ (
      swapping x,
      b,
      rw same refl,
      quiet_step m b.last_active (comparing x) (swapping x) b rest (comparing-Quiet m x)
          (swapping-Quiet m x) inv,
    )
    | inr changed ↦ (
      idle,
      record b { last_active = x },
      rw changed refl,
      quiet_step m x (comparing x) idle b rest (comparing-Quiet m x) (idle-Quiet m) inv,
    )
  ]

  sent_one_step :
      (m : ℕ) (flushes : Bool) (b : Buffer A) (rest : List (Worker A))
      → Inv m b (sent_one ∷ rest)
      → Keeps m (go flushes) sent_one b rest
  unfolding step
  sent_one_step m true b rest inv = (
    loading,
    b,
    refl,
    quiet_step m b.last_active sent_one loading b rest (sent_one-Quiet m) (loading-Quiet m) inv,
  )
  sent_one_step m false b rest inv = (
    idle,
    b,
    refl,
    quiet_step m b.last_active sent_one idle b rest (sent_one-Quiet m) (idle-Quiet m) inv,
  )

  counting_step :
      (m : ℕ) (c : Choice A) (b : Buffer A) (rest : List (Worker A))
      → Inv m b (counting ∷ rest)
      → Keeps m c counting b rest
  unfolding step
  counting_step m c b rest inv = (
    sent_one,
    record b { count_written = b.count_written + 1 },
    rw (next_small b.count_written (small_written m b (counting ∷ rest) inv)) refl,
    counting_done m b rest inv,
  )

  idle_step :
      (m : ℕ) (c : Choice A) (b : Buffer A) (rest : List (Worker A))
      → Inv m b (idle ∷ rest)
      → Keeps m c idle b rest
  unfolding step register
  idle_step m (call_send a) b rest inv = (
    spinning a,
    b,
    refl,
    quiet_step m b.last_active idle (spinning a) b rest (idle-Quiet m) (spinning-Quiet m a) inv,
  )
  idle_step m call_message_being_built b rest inv =
      (idle, register b, refl, register_done m b rest inv)
  idle_step m call_flush b rest inv = (
    loading,
    b,
    refl,
    quiet_step m b.last_active idle loading b rest (idle-Quiet m) (loading-Quiet m) inv,
  )
  idle_step m (go f) b rest inv = (idle, b, refl, inv)

  -- Whichever thread takes a step, no assertion fails.
  pub step-Keeps :
      (m : ℕ) (c : Choice A) (w : Worker A) (b : Buffer A) (rest : List (Worker A))
      → Inv m b (w ∷ rest)
      → Keeps m c w b rest
  unfolding step register
  step-Keeps m c idle b rest inv = idle_step m c b rest inv
  step-Keeps m c (spinning a) b rest inv = spinning_step m c a b rest inv
  step-Keeps m c (claiming a) b rest inv = claiming_step m c a b rest inv
  step-Keeps m c (writing a x) b rest inv = writing_step m c a x b rest inv
  step-Keeps m c closing b rest inv = (
    closed_registering,
    record b { count_allocated = sender_active },
    refl,
    closing_full m b rest inv,
  )
  step-Keeps m c closed_registering b rest inv =
      (closed_counting, register b, refl, closed_registering_done m b rest inv)
  step-Keeps m c closed_counting b rest inv = closed_counting_step m c b rest inv
  step-Keeps m c registering b rest inv =
      (counting, register b, refl, registering_done m b rest inv)
  step-Keeps m c counting b rest inv = counting_step m c b rest inv
  step-Keeps m (go f) sent_one b rest inv = sent_one_step m f b rest inv
  step-Keeps m (call_send a) sent_one b rest inv = (sent_one, b, refl, inv)
  step-Keeps m call_message_being_built sent_one b rest inv = (sent_one, b, refl, inv)
  step-Keeps m call_flush sent_one b rest inv = (sent_one, b, refl, inv)
  step-Keeps m c (waiting f n) b rest inv = waiting_step m c f n b rest inv
  step-Keeps m c (clearing f n) b rest inv = (
    emptying f n (taken n b.slots),
    record b { slots = λ i. none; registered_with_td = false },
    refl,
    clearing_done m f n (taken n b.slots) b rest inv (taken-is_full m f n b rest inv),
  )
  step-Keeps m c (emptying f n items) b rest inv = (
    releasing f items,
    record b { count_written = 0 },
    refl,
    emptying_done m f n items b rest inv,
  )
  step-Keeps m c (releasing f items) b rest inv =
      (passing f items, record b { count_allocated = 0 }, refl, releasing_done m f items b rest inv)
  step-Keeps m c (passing f items) b rest inv = (
    return_to f,
    record b { sent = b.sent ++ items ∷ [] },
    refl,
    passing_done m f items b rest inv,
  )
  step-Keeps m c loading b rest inv = (
    comparing b.count_allocated,
    b,
    refl,
    quiet_step m b.last_active loading (comparing b.count_allocated) b rest (loading-Quiet m)
        (comparing-Quiet m b.count_allocated) inv,
  )
  step-Keeps m c (comparing x) b rest inv = comparing_step m c x b rest inv
  step-Keeps m (go f) (swapping x) b rest inv = swapping_step m f x b rest inv
  step-Keeps m (call_send a) (swapping x) b rest inv = (swapping x, b, refl, inv)
  step-Keeps m call_message_being_built (swapping x) b rest inv = (swapping x, b, refl, inv)
  step-Keeps m call_flush (swapping x) b rest inv = (swapping x, b, refl, inv)

  pub length-sum : (ws : List (Worker A)) → length ws ≡ sum (λ w. 1) ws
  length-sum [] = refl
  length-sum (w ∷ ws) = omega (arith, length-sum ws)

  pub sum-replicate : (f : Worker A → ℕ) (n : ℕ) → f idle ≡ 0 → sum f (replicate n idle) ≡ 0
  sum-replicate f zero e = refl
  sum-replicate f (suc n) e = omega (arith, e, sum-replicate f n e)

  pub init-Inv :
      (m n : ℕ) → 0 < m → m + n < sender_active → Inv {A = A} m (new_buffer m) (replicate n idle)
  unfolding new_buffer claims pending writes closes owns target extent settled registers passes
      breaks
  init-Inv m n pos lt =
      let at_rest : Worker A = idle in
      let len = length-replicate n at_rest in
      let free = sum-replicate owns n refl in
      record {
        size = refl;
        some_slot = pos;
        small = ground (arith, len, lt);
        owner = omega (arith, free);
        room = ground (arith, free, len, sum-replicate claims n refl);
        active = ground (arith, free);
        counted = ground (arith, free, pos, sum-replicate pending n refl);
        targets = ground (arith, sum-replicate (target m) n refl);
        closer = ground (arith, free, pos, sum-replicate (closes m) n refl);
        settles = ground (arith, sum-replicate settled n refl);
        slot = λ i. ground (arith, free, pos, sum-replicate (writes i) n refl);
        registered = ground (arith, free, pos);
        bounds = sum-replicate (breaks m) n refl;
        sent_full = tt;
        told = ground (arith, sum-replicate passes n refl);
      }
