-- ===== src/Coalescing/Counter/Writing.antt =====
-- am++/counter_coalesced_message_type.hpp: how a thread of `send` writes its slot, and closes a full buffer.
use ampp.Prelude.{
  ℕ, suc, ◌+◌, ◌≤◌, ◌≡◌, false, List, ◌∷◌, Option, some, ◌==◌, ltb, if◌then◌else◌, arith, store,
  store-cases,
}
use ampp.Coalescing.Counter.{
  Buffer, Worker, sender_active, writing, closing, closed_registering, registering, counting,
}
use ampp.Coalescing.Counter.Totals.{
  sum, claims, pending, writes, closes, owns, target, extent, settled, registers, passes,
}
use ampp.Coalescing.Counter.Invariant.{Inv, threads_Any, limit, filled, breaks}

module _ {A : Type 0} where
  pub writing_last :
      (m : ℕ) (a : A) (x : ℕ) (b : Buffer A) (rest : List (Worker A))
      → Inv m b (writing a x ∷ rest)
      → suc x ≡ m
      → Inv m (record b { slots = store b.slots x (some a) }) (closing ∷ rest)
  unfolding claims pending writes closes owns target extent settled registers passes breaks
  writing_last m a x b rest inv at =
      let any = threads_Any m rest in
      record {
        size = inv.size;
        some_slot = inv.some_slot;
        small = inv.small;
        owner = ground (arith, inv.owner, at);
        room = ground (arith, inv.room, at);
        active = ground (arith, inv.active, at);
        counted = ground (arith, inv.counted, at);
        targets = ground (arith, inv.targets, at);
        closer = ground (arith, inv.closer, at);
        settles = ground (arith, inv.settles, at);
        slot = λ i.
            store-cases
              (λ (o : Option A).
                (sum (writes i) (closing ∷ rest) + filled o)
                ≡ (if ltb i (limit m b (closing ∷ rest)) then 1 else 0))
              b.slots x (some a) i (λ here. ground (arith, inv.slot i, here))
              (λ away. ground (arith, inv.slot i, away));
        registered = ground (arith, inv.registered, at);
        bounds = ground (arith, inv.bounds, at);
        sent_full = inv.sent_full;
        told = ground (arith, inv.told, at);
      }

  pub writing_first :
      (m : ℕ) (a : A) (x : ℕ) (b : Buffer A) (rest : List (Worker A))
      → Inv m b (writing a x ∷ rest)
      → (x ≡ 0) × ((suc x == m) ≡ false)
      → Inv m (record b { slots = store b.slots x (some a) }) (registering ∷ rest)
  unfolding claims pending writes closes owns target extent settled registers passes breaks
  writing_first m a x b rest inv at =
      let any = threads_Any m rest in
      record {
        size = inv.size;
        some_slot = inv.some_slot;
        small = inv.small;
        owner = ground (arith, inv.owner, at.0, at.1);
        room = ground (arith, inv.room, at.0, at.1);
        active = ground (arith, inv.active, at.0, at.1);
        counted = ground (arith, inv.counted, at.0, at.1);
        targets = ground (arith, inv.targets, at.0, at.1);
        closer = ground (arith, inv.closer, at.0, at.1);
        settles = ground (arith, inv.settles, at.0, at.1);
        slot = λ i.
            store-cases
              (λ (o : Option A).
                (sum (writes i) (registering ∷ rest) + filled o)
                ≡ (if ltb i (limit m b (registering ∷ rest)) then 1 else 0))
              b.slots x (some a) i (λ here. ground (arith, inv.slot i, here))
              (λ away. ground (arith, inv.slot i, away));
        registered = ground (arith, inv.registered, at.0, at.1);
        bounds = ground (arith, inv.bounds, at.0, at.1);
        sent_full = inv.sent_full;
        told = ground (arith, inv.told, at.0, at.1);
      }

  pub writing_other :
      (m : ℕ) (a : A) (x : ℕ) (b : Buffer A) (rest : List (Worker A))
      → Inv m b (writing a x ∷ rest)
      → ((x == 0) ≡ false) × ((suc x == m) ≡ false)
      → Inv m (record b { slots = store b.slots x (some a) }) (counting ∷ rest)
  unfolding claims pending writes closes owns target extent settled registers passes breaks
  writing_other m a x b rest inv at =
      let any = threads_Any m rest in
      record {
        size = inv.size;
        some_slot = inv.some_slot;
        small = inv.small;
        owner = ground (arith, inv.owner, at.0, at.1);
        room = ground (arith, inv.room, at.0, at.1);
        active = ground (arith, inv.active, at.0, at.1);
        counted = ground (arith, inv.counted, at.0, at.1);
        targets = ground (arith, inv.targets, at.0, at.1);
        closer = ground (arith, inv.closer, at.0, at.1);
        settles = ground (arith, inv.settles, at.0, at.1);
        slot = λ i.
            store-cases
              (λ (o : Option A).
                (sum (writes i) (counting ∷ rest) + filled o)
                ≡ (if ltb i (limit m b (counting ∷ rest)) then 1 else 0))
              b.slots x (some a) i (λ here. ground (arith, inv.slot i, here))
              (λ away. ground (arith, inv.slot i, away));
        registered = ground (arith, inv.registered, at.0, at.1);
        bounds = ground (arith, inv.bounds, at.0, at.1);
        sent_full = inv.sent_full;
        told = ground (arith, inv.told, at.0, at.1);
      }

  pub closing_full :
      (m : ℕ) (b : Buffer A) (rest : List (Worker A))
      → Inv m b (closing ∷ rest)
      → Inv m (record b { count_allocated = sender_active }) (closed_registering ∷ rest)
  unfolding claims pending writes closes owns target extent settled registers passes breaks
  closing_full m b rest inv =
      let any = threads_Any m rest in
      let free : sum owns rest ≡ 0 = ground (arith, inv.closer, inv.owner) in
      let full : m ≤ b.count_allocated = ground (arith, inv.closer, free) in
      let no_target = any.no_target free in
      let no_extent = any.no_extent free in
      let no_settled = any.no_settled free in
      record {
        size = inv.size;
        some_slot = inv.some_slot;
        small = inv.small;
        owner = ground (arith, inv.owner, free, full, no_target, no_extent, no_settled);
        room = ground (arith, any.claims-length, free);
        active = ground (arith, free);
        counted = ground (arith, inv.counted, free, full, no_target, no_extent, no_settled);
        targets = ground (arith, inv.targets, free, full, no_target, no_extent, no_settled);
        closer = ground (arith, inv.closer, free, full, no_target, no_extent, no_settled);
        settles = ground (arith, inv.settles, free, full, no_target, no_extent, no_settled);
        slot = λ i. ground (arith, inv.slot i, free, full, no_target, no_extent, no_settled);
        registered = ground (arith, inv.registered, free, full, no_target, no_extent, no_settled);
        bounds = ground (arith, inv.bounds, free, full, no_target, no_extent, no_settled);
        sent_full = inv.sent_full;
        told = ground (arith, inv.told, free, full, no_target, no_extent, no_settled);
      }
