-- ===== src/Coalescing/Counter/Totals.antt =====
-- am++/counter_coalesced_message_type.hpp: quantities of the threads, and their sums.
use ampp.Prelude.{ℕ, suc, ◌==◌, if◌then◌else◌}
pub use ampp.Prelude.Sums.{sum, without, sum-without, sum-set, sum_mono, sum-zero}
use ampp.Coalescing.Counter.{
  Worker, claiming, writing, closing, closed_registering, closed_counting, registering, counting,
  waiting, clearing, emptying, releasing, passing,
}

module _ {A : Type 0} where
  -- About to take a slot.
  unfoldable pub claims : Worker A → ℕ
  claims (claiming a) = 1
  claims _ = 0

  -- Has a slot that is not counted as written.
  unfoldable pub pending : Worker A → ℕ
  pending (writing a i) = 1
  pending closing = 1
  pending closed_registering = 1
  pending closed_counting = 1
  pending registering = 1
  pending counting = 1
  pending _ = 0

  -- About to write slot `i`.
  unfoldable pub writes : ℕ → Worker A → ℕ
  writes i (writing a j) = if j == i then 1 else 0
  writes i _ = 0

  -- Has the last slot of a buffer that is not closed, for buffers of `m` slots.
  unfoldable pub closes : ℕ → Worker A → ℕ
  closes m (writing a i) = if suc i == m then 1 else 0
  closes m closing = 1
  closes m _ = 0

  -- Has closed the buffer.
  unfoldable pub owns : Worker A → ℕ
  owns closed_registering = 1
  owns closed_counting = 1
  owns (waiting f c) = 1
  owns (clearing f c) = 1
  owns (emptying f c items) = 1
  owns (releasing f items) = 1
  owns _ = 0

  -- How many messages are to be counted as written in the buffer it has closed.
  unfoldable pub target : ℕ → Worker A → ℕ
  target m closed_registering = m
  target m closed_counting = m
  target m (waiting f c) = c
  target m (clearing f c) = c
  target m (emptying f c items) = c
  target m _ = 0

  -- How many slots the memory of the buffer it has closed holds.
  unfoldable pub extent : ℕ → Worker A → ℕ
  extent m closed_registering = m
  extent m closed_counting = m
  extent m (waiting f c) = c
  extent m (clearing f c) = c
  extent m _ = 0

  -- How many messages are known to be written.
  unfoldable pub settled : Worker A → ℕ
  settled (clearing f c) = c
  settled (emptying f c items) = c
  settled _ = 0

  -- Will see to the registration.
  unfoldable pub registers : Worker A → ℕ
  registers (writing a i) = if i == 0 then 1 else 0
  registers closing = 1
  registers closed_registering = 1
  registers registering = 1
  registers _ = 0

  -- Has messages to pass on.
  unfoldable pub passes : Worker A → ℕ
  passes (emptying f c items) = 1
  passes (releasing f items) = 1
  passes (passing f items) = 1
  passes _ = 0
