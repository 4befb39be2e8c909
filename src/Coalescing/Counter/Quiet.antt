-- ===== src/Coalescing/Counter/Quiet.antt =====
-- am++/counter_coalesced_message_type.hpp: threads that have no part in the buffer, and their order.
use ampp.Prelude.{ℕ, ◌≡◌, refl, List, ◌∷◌, length, arith}
use ampp.Coalescing.Counter.{Buffer, Worker, idle, spinning, sent_one, loading, comparing, swapping}
use ampp.Coalescing.Counter.Totals.{
  sum, claims, pending, writes, closes, owns, target, extent, settled, registers, passes,
}
use ampp.Coalescing.Counter.Invariant.{Inv, breaks}

module _ {A : Type 0} where
  -- A thread that has no part in the buffer.
  pub record Quiet (m : ℕ) (w : Worker A) : Type 0 where
    pub no_slot : (i : ℕ) → writes i w ≡ 0
    pub no_claims : claims w ≡ 0
    pub no_pending : pending w ≡ 0
    pub no_closes : closes m w ≡ 0
    pub no_owns : owns w ≡ 0
    pub no_target : target m w ≡ 0
    pub no_extent : extent m w ≡ 0
    pub no_settled : settled w ≡ 0
    pub no_registers : registers w ≡ 0
    pub no_passes : passes w ≡ 0
    pub no_breaks : breaks m w ≡ 0

  pub idle-Quiet : (m : ℕ) → Quiet m idle
  unfolding claims pending writes closes owns target extent settled registers passes breaks
  idle-Quiet m = record {
    no_slot = λ i. refl;
    no_claims = refl;
    no_pending = refl;
    no_closes = refl;
    no_owns = refl;
    no_target = refl;
    no_extent = refl;
    no_settled = refl;
    no_registers = refl;
    no_passes = refl;
    no_breaks = refl;
  }

  pub spinning-Quiet : (m : ℕ) (a : A) → Quiet m (spinning a)
  unfolding claims pending writes closes owns target extent settled registers passes breaks
  spinning-Quiet m a = record {
    no_slot = λ i. refl;
    no_claims = refl;
    no_pending = refl;
    no_closes = refl;
    no_owns = refl;
    no_target = refl;
    no_extent = refl;
    no_settled = refl;
    no_registers = refl;
    no_passes = refl;
    no_breaks = refl;
  }

  pub sent_one-Quiet : (m : ℕ) → Quiet m sent_one
  unfolding claims pending writes closes owns target extent settled registers passes breaks
  sent_one-Quiet m = record {
    no_slot = λ i. refl;
    no_claims = refl;
    no_pending = refl;
    no_closes = refl;
    no_owns = refl;
    no_target = refl;
    no_extent = refl;
    no_settled = refl;
    no_registers = refl;
    no_passes = refl;
    no_breaks = refl;
  }

  pub loading-Quiet : (m : ℕ) → Quiet m loading
  unfolding claims pending writes closes owns target extent settled registers passes breaks
  loading-Quiet m = record {
    no_slot = λ i. refl;
    no_claims = refl;
    no_pending = refl;
    no_closes = refl;
    no_owns = refl;
    no_target = refl;
    no_extent = refl;
    no_settled = refl;
    no_registers = refl;
    no_passes = refl;
    no_breaks = refl;
  }

  pub comparing-Quiet : (m : ℕ) (x : ℕ) → Quiet m (comparing x)
  unfolding claims pending writes closes owns target extent settled registers passes breaks
  comparing-Quiet m x = record {
    no_slot = λ i. refl;
    no_claims = refl;
    no_pending = refl;
    no_closes = refl;
    no_owns = refl;
    no_target = refl;
    no_extent = refl;
    no_settled = refl;
    no_registers = refl;
    no_passes = refl;
    no_breaks = refl;
  }

  pub swapping-Quiet : (m : ℕ) (x : ℕ) → Quiet m (swapping x)
  unfolding claims pending writes closes owns target extent settled registers passes breaks
  swapping-Quiet m x = record {
    no_slot = λ i. refl;
    no_claims = refl;
    no_pending = refl;
    no_closes = refl;
    no_owns = refl;
    no_target = refl;
    no_extent = refl;
    no_settled = refl;
    no_registers = refl;
    no_passes = refl;
    no_breaks = refl;
  }

  -- A step between such places, which may write last_active.
  pub quiet_step :
      (m x : ℕ) (v w : Worker A) (b : Buffer A) (rest : List (Worker A))
      → Quiet m v
      → Quiet m w
      → Inv m b (v ∷ rest)
      → Inv m (record b { last_active = x }) (w ∷ rest)
  quiet_step m x v w b rest p q inv = record {
    size = inv.size;
    some_slot = inv.some_slot;
    small = inv.small;
    sent_full = inv.sent_full;
    owner = ground (arith, inv.owner, p.no_owns, q.no_owns);
    room = ground (arith, inv.room, p.no_owns, q.no_owns, p.no_claims, q.no_claims);
    active = ground (arith, inv.active, p.no_owns, q.no_owns);
    counted = ground (
      arith, inv.counted, p.no_owns, q.no_owns, p.no_pending, q.no_pending, p.no_target,
      q.no_target,
    );
    targets = ground (arith, inv.targets, p.no_target, q.no_target);
    closer = ground (arith, inv.closer, p.no_owns, q.no_owns, p.no_closes, q.no_closes);
    settles = ground (arith, inv.settles, p.no_settled, q.no_settled);
    registered = ground (
      arith, inv.registered, p.no_owns, q.no_owns, p.no_extent, q.no_extent, p.no_registers,
      q.no_registers,
    );
    bounds = ground (arith, inv.bounds, p.no_breaks, q.no_breaks);
    told = ground (arith, inv.told, p.no_passes, q.no_passes);
    slot = λ i. ground (
      arith,
      inv.slot i,
      p.no_slot i,
      q.no_slot i,
      p.no_owns,
      q.no_owns,
      p.no_extent,
      q.no_extent,
    );
  }

  -- The threads' order does not matter.
  pub reorder :
      (m : ℕ) (b : Buffer A) (vs ws : List (Worker A))
      → ((f : Worker A → ℕ) → sum f ws ≡ sum f vs)
      → length ws ≡ length vs
      → Inv m b vs
      → Inv m b ws
  reorder m b vs ws same len inv = record {
    size = inv.size;
    some_slot = inv.some_slot;
    small = ground (arith, inv.small, len);
    sent_full = inv.sent_full;
    owner = ground (arith, inv.owner, len, same owns);
    room = ground (arith, inv.room, len, same owns, same claims);
    active = ground (arith, inv.active, len, same owns);
    counted = ground (arith, inv.counted, len, same owns, same pending, same (target m));
    targets = ground (arith, inv.targets, len, same (target m));
    closer = ground (arith, inv.closer, len, same owns, same (closes m));
    settles = ground (arith, inv.settles, len, same settled);
    registered = ground (arith, inv.registered, len, same owns, same (extent m), same registers);
    bounds = ground (arith, inv.bounds, len, same (breaks m));
    told = ground (arith, inv.told, len, same passes);
    slot = λ i. ground (arith, inv.slot i, same (writes i), same owns, same (extent m));
  }
