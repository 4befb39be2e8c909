-- ===== src/Coalescing/Counter/Filling.antt =====
-- am++/counter_coalesced_message_type.hpp: how messages are registered and counted as written.
use ampp.Prelude.{ℕ, suc, ◌+◌, true, false, List, ◌∷◌, if◌then◌else◌, arith}
use ampp.Coalescing.Counter.{
  Buffer, Worker, idle, closed_registering, closed_counting, registering, counting, sent_one,
  waiting,
}
use ampp.Coalescing.Counter.Totals.{
  claims, pending, writes, closes, owns, target, extent, settled, registers, passes,
}
use ampp.Coalescing.Counter.Invariant.{Inv, threads_Any, breaks}

module _ {A : Type 0} where
  pub registering_done :
      (m : ℕ) (b : Buffer A) (rest : List (Worker A))
      → Inv m b (registering ∷ rest)
      → Inv m
          (record b {
            registered_with_td = true;
            registrations = if b.registered_with_td then b.registrations else suc b.registrations;
          })
          (counting ∷ rest)
  unfolding claims pending writes closes owns target extent settled registers passes breaks
  registering_done m b rest inv =
      let any = threads_Any m rest in
      record {
        size = inv.size;
        some_slot = inv.some_slot;
        small = inv.small;
        owner = ground (arith, inv.owner);
        room = ground (arith, inv.room);
        active = ground (arith, inv.active);
        counted = ground (arith, inv.counted);
        targets = ground (arith, inv.targets);
        closer = ground (arith, inv.closer);
        settles = ground (arith, inv.settles);
        slot = λ i. ground (arith, inv.slot i);
        registered = ground (arith, inv.registered);
        bounds = ground (arith, inv.bounds);
        sent_full = inv.sent_full;
        told = ground (arith, inv.told);
      }

  pub closed_registering_done :
      (m : ℕ) (b : Buffer A) (rest : List (Worker A))
      → Inv m b (closed_registering ∷ rest)
      → Inv m
          (record b {
            registered_with_td = true;
            registrations = if b.registered_with_td then b.registrations else suc b.registrations;
          })
          (closed_counting ∷ rest)
  unfolding claims pending writes closes owns target extent settled registers passes breaks
  closed_registering_done m b rest inv =
      let any = threads_Any m rest in
      record {
        size = inv.size;
        some_slot = inv.some_slot;
        small = inv.small;
        owner = ground (arith, inv.owner);
        room = ground (arith, inv.room);
        active = ground (arith, inv.active);
        counted = ground (arith, inv.counted);
        targets = ground (arith, inv.targets);
        closer = ground (arith, inv.closer);
        settles = ground (arith, inv.settles);
        slot = λ i. ground (arith, inv.slot i);
        registered = ground (arith, inv.registered);
        bounds = ground (arith, inv.bounds);
        sent_full = inv.sent_full;
        told = ground (arith, inv.told);
      }

  pub register_done :
      (m : ℕ) (b : Buffer A) (rest : List (Worker A))
      → Inv m b (idle ∷ rest)
      → Inv m
          (record b {
            registered_with_td = true;
            registrations = if b.registered_with_td then b.registrations else suc b.registrations;
          })
          (idle ∷ rest)
  unfolding claims pending writes closes owns target extent settled registers passes breaks
  register_done m b rest inv =
      let any = threads_Any m rest in
      record {
        size = inv.size;
        some_slot = inv.some_slot;
        small = inv.small;
        owner = ground (arith, inv.owner);
        room = ground (arith, inv.room);
        active = ground (arith, inv.active);
        counted = ground (arith, inv.counted);
        targets = ground (arith, inv.targets);
        closer = ground (arith, inv.closer);
        settles = ground (arith, inv.settles);
        slot = λ i. ground (arith, inv.slot i);
        registered = ground (arith, inv.registered);
        bounds = ground (arith, inv.bounds);
        sent_full = inv.sent_full;
        told = ground (arith, inv.told);
      }

  pub counting_done :
      (m : ℕ) (b : Buffer A) (rest : List (Worker A))
      → Inv m b (counting ∷ rest)
      → Inv m (record b { count_written = b.count_written + 1 }) (sent_one ∷ rest)
  unfolding claims pending writes closes owns target extent settled registers passes breaks
  counting_done m b rest inv =
      let any = threads_Any m rest in
      record {
        size = inv.size;
        some_slot = inv.some_slot;
        small = inv.small;
        owner = ground (arith, inv.owner);
        room = ground (arith, inv.room);
        active = ground (arith, inv.active);
        counted = ground (arith, inv.counted);
        targets = ground (arith, inv.targets);
        closer = ground (arith, inv.closer);
        settles = ground (arith, inv.settles);
        slot = λ i. ground (arith, inv.slot i);
        registered = ground (arith, inv.registered);
        bounds = ground (arith, inv.bounds);
        sent_full = inv.sent_full;
        told = ground (arith, inv.told);
      }

  pub closed_counting_done :
      (m : ℕ) (b : Buffer A) (rest : List (Worker A))
      → Inv m b (closed_counting ∷ rest)
      → Inv m (record b { count_written = b.count_written + 1 }) (waiting false m ∷ rest)
  unfolding claims pending writes closes owns target extent settled registers passes breaks
  closed_counting_done m b rest inv =
      let any = threads_Any m rest in
      record {
        size = inv.size;
        some_slot = inv.some_slot;
        small = inv.small;
        owner = ground (arith, inv.owner);
        room = ground (arith, inv.room);
        active = ground (arith, inv.active);
        counted = ground (arith, inv.counted);
        targets = ground (arith, inv.targets);
        closer = ground (arith, inv.closer);
        settles = ground (arith, inv.settles);
        slot = λ i. ground (arith, inv.slot i);
        registered = ground (arith, inv.registered);
        bounds = ground (arith, inv.bounds, inv.some_slot);
        sent_full = inv.sent_full;
        told = ground (arith, inv.told);
      }
