-- ===== src/Coalescing/Counter/Invariant.antt =====
-- am++/counter_coalesced_message_type.hpp: how the counters of a buffer and the threads agree.
use ampp.Prelude.{
  ℕ, ◌+◌, ◌≤◌, ◌<◌, ◌≡◌, refl, Bool, true, false, ◌&&◌, ◌||◌, List, [], ◌∷◌, Option, none, some,
  ◌==◌, ltb, leb, if◌then◌else◌, length, arith, All,
}
use ampp.Coalescing.Counter.{
  Buffer, Worker, sender_active, idle, spinning, claiming, writing, closing, closed_registering,
  closed_counting, registering, counting, sent_one, waiting, clearing, emptying, releasing, passing,
  loading, comparing, swapping,
}
use ampp.Coalescing.Counter.Totals.{
  sum, sum_mono, sum-zero, claims, pending, writes, closes, owns, target, extent, settled,
  registers, passes,
}

module _ {A : Type 0} where
  abbrev pub filled : Option A → ℕ
  filled none = 0
  filled (some a) = 1

  -- As many slots as `n`, all of them written.
  abbrev pub all_filled : List (Option A) → Bool
  all_filled [] = true
  all_filled (none ∷ xs) = false
  all_filled (some a ∷ xs) = all_filled xs

  -- A message that may be sent: at least one slot, at most `m`, and all written.
  abbrev pub is_full : ℕ → List (Option A) → Bool
  is_full m xs = all_filled xs && (ltb 0 (length xs) && leb (length xs) m)

  -- Breaks a bound.
  unfoldable pub breaks : ℕ → Worker A → ℕ
  breaks m (writing a i) = if leb m i then 1 else 0
  breaks m (waiting f c) = if c == 0 || ltb m c then 1 else 0
  breaks m (clearing f c) = if c == 0 || ltb m c then 1 else 0
  breaks m (emptying f c items) = if is_full m items then 0 else 1
  breaks m (releasing f items) = if is_full m items then 0 else 1
  breaks m (passing f items) = if is_full m items then 0 else 1
  breaks m _ = 0

  -- How many slots of the buffer have been given away.
  abbrev pub limit : ℕ → Buffer A → List (Worker A) → ℕ
  limit m b ws =
      if sum owns ws == 0
      then if leb m b.count_allocated then m else b.count_allocated
      else sum (extent m) ws

  pub record Inv (m : ℕ) (b : Buffer A) (ws : List (Worker A)) : Type 0 where
    pub size : b.max_count ≡ m
    pub some_slot : 0 < m
    pub small : m + length ws < sender_active
    pub owner : sum owns ws ≤ 1
    pub room :
        b.count_allocated + sum claims ws
        ≤ (if sum owns ws == 0 then m else sender_active) + length ws
    pub active : (if sum owns ws == 0 then 0 else sender_active) ≤ b.count_allocated
    pub counted : sum pending ws + b.count_written ≡ (
        if sum owns ws == 0
        then if leb m b.count_allocated then m else b.count_allocated
        else sum (target m) ws)
    pub targets : sum (target m) ws ≤ m
    pub closer :
        sum (closes m) ws
        ≡ (if sum owns ws == 0 then if leb m b.count_allocated then 1 else 0 else 0)
    pub settles : sum settled ws ≤ b.count_written
    pub slot :
        (i : ℕ) → sum (writes i) ws + filled (b.slots i) ≡ (if ltb i (limit m b ws) then 1 else 0)
    pub registered :
        (if limit m b ws == 0 then 0 else 1)
        ≤ (if b.registered_with_td then 1 else 0) + sum registers ws
    pub bounds : sum (breaks m) ws ≡ 0
    pub sent_full : All (λ xs. is_full m xs ≡ true) b.sent
    pub told :
        b.registrations ≡ length b.sent + sum passes ws + (if b.registered_with_td then 1 else 0)

  -- What holds of any threads.
  pub record Any (m : ℕ) (ws : List (Worker A)) : Type 0 where
    pub slot_pending : (i : ℕ) → sum (writes i) ws ≤ sum pending ws
    pub registers_pending : sum registers ws ≤ sum pending ws
    pub closes_pending : sum (closes m) ws ≤ sum pending ws
    pub claims-length : sum claims ws ≤ length ws
    pub no_target : sum owns ws ≡ 0 → sum (target m) ws ≡ 0
    pub no_extent : sum owns ws ≡ 0 → sum (extent m) ws ≡ 0
    pub no_settled : sum owns ws ≡ 0 → sum settled ws ≡ 0

  -- What holds of a thread.
  pub record Each (m : ℕ) (w : Worker A) : Type 0 where
    pub slot_pending : (i : ℕ) → writes i w ≤ pending w
    pub registers_pending : registers w ≤ pending w
    pub closes_pending : closes m w ≤ pending w
    pub claims_one : claims w ≤ 1
    pub no_target : owns w ≡ 0 → target m w ≡ 0
    pub no_extent : owns w ≡ 0 → extent m w ≡ 0
    pub no_settled : owns w ≡ 0 → settled w ≡ 0

  pub thread_Each : (m : ℕ) (w : Worker A) → Each m w
  unfolding claims pending writes closes owns target extent settled registers
  thread_Each m idle = record {
    slot_pending = λ i. omega arith;
    registers_pending = omega arith;
    closes_pending = omega arith;
    claims_one = omega arith;
    no_target = λ z. refl;
    no_extent = λ z. refl;
    no_settled = λ z. refl;
  }
  thread_Each m (spinning a) = record {
    slot_pending = λ i. omega arith;
    registers_pending = omega arith;
    closes_pending = omega arith;
    claims_one = omega arith;
    no_target = λ z. refl;
    no_extent = λ z. refl;
    no_settled = λ z. refl;
  }
  thread_Each m (claiming a) = record {
    slot_pending = λ i. omega arith;
    registers_pending = omega arith;
    closes_pending = omega arith;
    claims_one = omega arith;
    no_target = λ z. refl;
    no_extent = λ z. refl;
    no_settled = λ z. refl;
  }
  thread_Each m (writing a j) = record {
    slot_pending = λ i. ground arith;
    registers_pending = ground arith;
    closes_pending = ground arith;
    claims_one = omega arith;
    no_target = λ z. refl;
    no_extent = λ z. refl;
    no_settled = λ z. refl;
  }
  thread_Each m closing = record {
    slot_pending = λ i. omega arith;
    registers_pending = omega arith;
    closes_pending = omega arith;
    claims_one = omega arith;
    no_target = λ z. refl;
    no_extent = λ z. refl;
    no_settled = λ z. refl;
  }
  thread_Each m closed_registering = record {
    slot_pending = λ i. omega arith;
    registers_pending = omega arith;
    closes_pending = omega arith;
    claims_one = omega arith;
    no_target = λ z. absurd (omega (arith, z));
    no_extent = λ z. absurd (omega (arith, z));
    no_settled = λ z. absurd (omega (arith, z));
  }
  thread_Each m closed_counting = record {
    slot_pending = λ i. omega arith;
    registers_pending = omega arith;
    closes_pending = omega arith;
    claims_one = omega arith;
    no_target = λ z. absurd (omega (arith, z));
    no_extent = λ z. absurd (omega (arith, z));
    no_settled = λ z. absurd (omega (arith, z));
  }
  thread_Each m registering = record {
    slot_pending = λ i. omega arith;
    registers_pending = omega arith;
    closes_pending = omega arith;
    claims_one = omega arith;
    no_target = λ z. refl;
    no_extent = λ z. refl;
    no_settled = λ z. refl;
  }
  thread_Each m counting = record {
    slot_pending = λ i. omega arith;
    registers_pending = omega arith;
    closes_pending = omega arith;
    claims_one = omega arith;
    no_target = λ z. refl;
    no_extent = λ z. refl;
    no_settled = λ z. refl;
  }
  thread_Each m sent_one = record {
    slot_pending = λ i. omega arith;
    registers_pending = omega arith;
    closes_pending = omega arith;
    claims_one = omega arith;
    no_target = λ z. refl;
    no_extent = λ z. refl;
    no_settled = λ z. refl;
  }
  thread_Each m (waiting f c) = record {
    slot_pending = λ i. omega arith;
    registers_pending = omega arith;
    closes_pending = omega arith;
    claims_one = omega arith;
    no_target = λ z. absurd (omega (arith, z));
    no_extent = λ z. absurd (omega (arith, z));
    no_settled = λ z. absurd (omega (arith, z));
  }
  thread_Each m (clearing f c) = record {
    slot_pending = λ i. omega arith;
    registers_pending = omega arith;
    closes_pending = omega arith;
    claims_one = omega arith;
    no_target = λ z. absurd (omega (arith, z));
    no_extent = λ z. absurd (omega (arith, z));
    no_settled = λ z. absurd (omega (arith, z));
  }
  thread_Each m (emptying f c items) = record {
    slot_pending = λ i. omega arith;
    registers_pending = omega arith;
    closes_pending = omega arith;
    claims_one = omega arith;
    no_target = λ z. absurd (omega (arith, z));
    no_extent = λ z. absurd (omega (arith, z));
    no_settled = λ z. absurd (omega (arith, z));
  }
  thread_Each m (releasing f items) = record {
    slot_pending = λ i. omega arith;
    registers_pending = omega arith;
    closes_pending = omega arith;
    claims_one = omega arith;
    no_target = λ z. absurd (omega (arith, z));
    no_extent = λ z. absurd (omega (arith, z));
    no_settled = λ z. absurd (omega (arith, z));
  }
  thread_Each m (passing f items) = record {
    slot_pending = λ i. omega arith;
    registers_pending = omega arith;
    closes_pending = omega arith;
    claims_one = omega arith;
    no_target = λ z. refl;
    no_extent = λ z. refl;
    no_settled = λ z. refl;
  }
  thread_Each m loading = record {
    slot_pending = λ i. omega arith;
    registers_pending = omega arith;
    closes_pending = omega arith;
    claims_one = omega arith;
    no_target = λ z. refl;
    no_extent = λ z. refl;
    no_settled = λ z. refl;
  }
  thread_Each m (comparing x) = record {
    slot_pending = λ i. omega arith;
    registers_pending = omega arith;
    closes_pending = omega arith;
    claims_one = omega arith;
    no_target = λ z. refl;
    no_extent = λ z. refl;
    no_settled = λ z. refl;
  }
  thread_Each m (swapping x) = record {
    slot_pending = λ i. omega arith;
    registers_pending = omega arith;
    closes_pending = omega arith;
    claims_one = omega arith;
    no_target = λ z. refl;
    no_extent = λ z. refl;
    no_settled = λ z. refl;
  }

  pub threads_Any : (m : ℕ) (ws : List (Worker A)) → Any m ws
  threads_Any m ws = record {
    slot_pending = λ i. sum_mono (writes i) pending (λ w. (thread_Each m w).slot_pending i) ws;
    registers_pending = sum_mono registers pending (λ w. (thread_Each m w).registers_pending) ws;
    closes_pending = sum_mono (closes m) pending (λ w. (thread_Each m w).closes_pending) ws;
    claims-length = sum-length ws;
    no_target = sum-zero owns (target m) (λ w. (thread_Each m w).no_target) ws;
    no_extent = sum-zero owns (extent m) (λ w. (thread_Each m w).no_extent) ws;
    no_settled = sum-zero owns settled (λ w. (thread_Each m w).no_settled) ws;
  }
    where
      sum-length : (vs : List (Worker A)) → sum claims vs ≤ length vs
      sum-length [] = omega arith
      sum-length (v ∷ vs) = omega (arith, (thread_Each m v).claims_one, sum-length vs)
