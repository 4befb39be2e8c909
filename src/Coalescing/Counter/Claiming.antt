-- ===== src/Coalescing/Counter/Claiming.antt =====
-- am++/counter_coalesced_message_type.hpp: how a thread of `send` comes by a slot.
use ampp.Prelude.{ℕ, ◌+◌, ◌%◌, ◌^◌, ◌≤◌, ◌<◌, ◌≡◌, List, ◌∷◌, some, leb, arith}
use ampp.Coalescing.Counter.{
  Buffer, Worker, Choice, sender_active, is_active, masked, step, spinning, claiming, writing,
}
use ampp.Coalescing.Counter.Totals.{
  sum, claims, pending, writes, closes, owns, target, extent, settled, registers, passes,
}
use ampp.Coalescing.Counter.Invariant.{Inv, threads_Any, breaks}

pub masked_small : (x : ℕ) → x < sender_active → masked x ≡ x
unfolding masked
masked_small x lt = omega (arith, lt)

pub is_active-leb : (x : ℕ) → x < 4294967296 → is_active x ≡ leb sender_active x
unfolding is_active
is_active-leb x lt = ground (arith, lt)

pub next_small : (x : ℕ) → x < 4294967295 → (x + 1) % 2 ^ 32 ≡ x + 1
next_small x lt = omega (arith, lt)

module _ {A : Type 0} where
  -- A step of a thread that keeps the invariant.
  abbrev pub Keeps : ℕ → Choice A → Worker A → Buffer A → List (Worker A) → Type 0
  Keeps m c w b rest =
      (w' : Worker A) × (b' : Buffer A) × (step c w b ≡ some (w', b')) × Inv m b' (w' ∷ rest)

  pub claiming_slot :
      (m : ℕ) (a : A) (b : Buffer A) (rest : List (Worker A))
      → Inv m b (claiming a ∷ rest)
      → sum owns rest ≡ 0
      → b.count_allocated < m
      → Inv m
          (record b { count_allocated = b.count_allocated + 1 })
          (writing a b.count_allocated ∷ rest)
  unfolding claims pending writes closes owns target extent settled registers passes breaks
  claiming_slot m a b rest inv free lt =
      let any = threads_Any m rest in
      record {
        size = inv.size;
        some_slot = inv.some_slot;
        small = inv.small;
        owner = ground (arith, inv.owner, free, lt);
        room = ground (arith, inv.room, free, lt);
        active = ground (arith, inv.active, free, lt);
        counted = ground (arith, inv.counted, free, lt);
        targets = ground (arith, inv.targets, free, lt);
        closer = ground (arith, inv.closer, free, lt);
        settles = ground (arith, inv.settles, free, lt);
        slot = λ i. ground (arith, inv.slot i, free, lt);
        registered = ground (arith, inv.registered, free, lt);
        bounds = ground (arith, inv.bounds, free, lt);
        sent_full = inv.sent_full;
        told = ground (arith, inv.told, free, lt);
      }

  pub claiming_full :
      (m : ℕ) (a : A) (b : Buffer A) (rest : List (Worker A))
      → Inv m b (claiming a ∷ rest)
      → m ≤ b.count_allocated
      → Inv m (record b { count_allocated = b.count_allocated + 1 }) (spinning a ∷ rest)
  unfolding claims pending writes closes owns target extent settled registers passes breaks
  claiming_full m a b rest inv le =
      let any = threads_Any m rest in
      record {
        size = inv.size;
        some_slot = inv.some_slot;
        small = inv.small;
        owner = ground (arith, inv.owner, le);
        room = ground (arith, inv.room, le);
        active = ground (arith, inv.active, le);
        counted = ground (arith, inv.counted, le);
        targets = ground (arith, inv.targets, le);
        closer = ground (arith, inv.closer, le);
        settles = ground (arith, inv.settles, le);
        slot = λ i. ground (arith, inv.slot i, le);
        registered = ground (arith, inv.registered, le);
        bounds = ground (arith, inv.bounds, le);
        sent_full = inv.sent_full;
        told = ground (arith, inv.told, le);
      }

  pub spinning_free :
      (m : ℕ) (a : A) (b : Buffer A) (rest : List (Worker A))
      → Inv m b (spinning a ∷ rest)
      → b.count_allocated < m
      → Inv m b (claiming a ∷ rest)
  unfolding claims pending writes closes owns target extent settled registers passes breaks
  spinning_free m a b rest inv lt =
      let any = threads_Any m rest in
      record {
        size = inv.size;
        some_slot = inv.some_slot;
        small = inv.small;
        owner = ground (arith, inv.owner, lt);
        room = ground (arith, inv.room, inv.active, inv.owner, lt, inv.small, any.claims-length);
        active = ground (arith, inv.active, lt);
        counted = ground (arith, inv.counted, lt);
        targets = ground (arith, inv.targets, lt);
        closer = ground (arith, inv.closer, lt);
        settles = ground (arith, inv.settles, lt);
        slot = λ i. ground (arith, inv.slot i, lt);
        registered = ground (arith, inv.registered, lt);
        bounds = ground (arith, inv.bounds, lt);
        sent_full = inv.sent_full;
        told = ground (arith, inv.told, lt);
      }
