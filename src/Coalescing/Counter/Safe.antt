-- ===== src/Coalescing/Counter/Safe.antt =====
-- am++/counter_coalesced_message_type.hpp: a step of any thread keeps the buffer consistent.
use ampp.Prelude.{
  ℕ, suc, ◌+◌, ◌-◌, ◌<◌, ◌≡◌, refl, ◌∙◌, Bool, true, false, ◌&&◌, not, List, ◌∷◌, some, ◌==◌, ltb,
  leb, if◌then◌else◌, arith, store, Bool-cases, inl, inr,
}
use ampp.Coalescing.Counter.{
  Buffer, Worker, Choice, go, sender_active, is_active, masked, claim, after_write, send_buffer,
  swap, step, idle, spinning, claiming, writing, closing, closed_counting, registering, counting,
  waiting, clearing, swapping,
}
use ampp.Coalescing.Counter.Totals.{sum, owns}
use ampp.Coalescing.Counter.Invariant.{Inv}
use ampp.Coalescing.Counter.Quiet.{idle-Quiet, swapping-Quiet, quiet_step}
use ampp.Coalescing.Counter.Claiming.{
  masked_small, is_active-leb, next_small, Keeps, claiming_slot, claiming_full, spinning_free,
}
use ampp.Coalescing.Counter.Filling.{closed_counting_done}
use ampp.Coalescing.Counter.Owning.{swapping_done, waiting_done, waiting_registered}
use ampp.Coalescing.Counter.Writing.{writing_last, writing_first, writing_other}

module _ {A : Type 0} where
  -- The counter does not overflow.
  small_alloc :
      (m : ℕ) (b : Buffer A) (ws : List (Worker A)) → Inv m b ws → b.count_allocated < 4294967295
  small_alloc m b ws inv = ground (arith, inv.room, inv.small)

  pub spinning_step :
      (m : ℕ) (c : Choice A) (a : A) (b : Buffer A) (rest : List (Worker A))
      → Inv m b (spinning a ∷ rest)
      → Keeps m c (spinning a) b rest
  unfolding step
  spinning_step m c a b rest inv =
      let lt = small_alloc m b (spinning a ∷ rest) inv in
      let nonzero : (b.max_count == 0) ≡ false = ground (arith, inv.size, inv.some_slot) in
      elim (Bool-cases
        (ltb (masked b.count_allocated) b.max_count && not (is_active b.count_allocated))) [
          | inl open_buffer ↦
              let inactive : leb sender_active b.count_allocated ≡ false =
                ground (arith, open_buffer, is_active-leb b.count_allocated (omega (arith, lt))) in
              let below : b.count_allocated < sender_active = ground (arith, inactive) in
              let at = masked_small b.count_allocated below in
              (
                claiming a,
                b,
                rw (nonzero, open_buffer) refl,
                spinning_free m a b rest inv (ground (arith, open_buffer, at, inv.size)),
              )
          | inr shut ↦ (spinning a, b, rw (nonzero, shut) refl, inv)
        ]

  pub claiming_step :
      (m : ℕ) (c : Choice A) (a : A) (b : Buffer A) (rest : List (Worker A))
      → Inv m b (claiming a ∷ rest)
      → Keeps m c (claiming a) b rest
  unfolding step claim owns
  claiming_step m c a b rest inv =
      let lt = small_alloc m b (claiming a ∷ rest) inv in
      let next = next_small b.count_allocated lt in
      let tested = is_active-leb b.count_allocated (omega (arith, lt)) in
      elim (Bool-cases (is_active b.count_allocated)) [
        | inl active ↦ (
          spinning a,
          record b { count_allocated = b.count_allocated + 1 },
          rw (active, next) refl,
          claiming_full m a b rest inv (ground (arith, active, tested, inv.small)),
        )
        | inr inactive ↦
            let below : b.count_allocated < sender_active = ground (arith, inactive, tested) in
            let at = masked_small b.count_allocated below in
            let free : sum owns rest ≡ 0 = ground (arith, inv.active, inv.owner, below) in
            elim (Bool-cases (ltb b.count_allocated b.max_count)) [
              | inl room ↦ (
                writing a b.count_allocated,
                record b { count_allocated = b.count_allocated + 1 },
                rw (inactive, at, room, next) refl,
                claiming_slot m a b rest inv free (ground (arith, room, inv.size)),
              )
              | inr full ↦ (
                spinning a,
                record b { count_allocated = b.count_allocated + 1 },
                rw (inactive, at, full, next) refl,
                claiming_full m a b rest inv (ground (arith, full, inv.size)),
              )
            ]
      ]

  pub writing_step :
      (m : ℕ) (c : Choice A) (a : A) (x : ℕ) (b : Buffer A) (rest : List (Worker A))
      → Inv m b (writing a x ∷ rest)
      → Keeps m c (writing a x) b rest
  unfolding step after_write
  writing_step m c a x b rest inv =
      let b' = record b { slots = store b.slots x (some a) } in
      elim (Bool-cases (x == b.max_count - 1)) [
        | inl last ↦ (
          closing,
          b',
          rw last refl,
          writing_last m a x b rest inv (ground (arith, last, inv.size, inv.some_slot)),
        )
        | inr other ↦
            let before_last : (suc x == m) ≡ false =
              ground (arith, other, inv.size, inv.some_slot) in
            elim (Bool-cases (x == 0)) [
              | inl first ↦ (
                registering,
                b',
                rw (other, first) refl,
                writing_first m a x b rest inv (ground (arith, first), before_last),
              )
              | inr later ↦ (
                counting,
                b',
                rw (other, later) refl,
                writing_other m a x b rest inv (later, before_last),
              )
            ]
      ]

  -- Fewer messages are counted as written than fit in a buffer.
  pub small_written :
      (m : ℕ) (b : Buffer A) (ws : List (Worker A)) → Inv m b ws → b.count_written < 4294967295
  small_written m b ws inv = ground (arith, inv.counted, inv.targets, inv.small)

  pub closed_counting_step :
      (m : ℕ) (c : Choice A) (b : Buffer A) (rest : List (Worker A))
      → Inv m b (closed_counting ∷ rest)
      → Keeps m c closed_counting b rest
  unfolding step send_buffer owns
  closed_counting_step m c b rest inv =
      let next = next_small b.count_written (small_written m b (closed_counting ∷ rest) inv) in
      let lt = small_alloc m b (closed_counting ∷ rest) inv in
      let free : sum owns rest ≡ 0 = omega (arith, inv.owner) in
      let active : is_active b.count_allocated ≡ true =
        is_active-leb b.count_allocated (omega (arith, lt)) ∙ ground (arith, inv.active, free) in
      let inactive : is_active b.max_count ≡ false =
        is_active-leb b.max_count (ground (arith, inv.size, inv.small))
        ∙ ground (arith, inv.size, inv.small) in
      let at : masked b.max_count ≡ m =
        masked_small b.max_count (ground (arith, inv.size, inv.small)) ∙ inv.size in
      let fits : leb m b.max_count ≡ true = ground (arith, inv.size) in
      let nonzero : (m == 0) ≡ false = ground (arith, inv.some_slot) in
      (
        waiting false m,
        record b { count_written = b.count_written + 1 },
        rw (active, inactive, at, fits, nonzero, next) refl,
        closed_counting_done m b rest inv,
      )

  pub waiting_step :
      (m : ℕ) (c : Choice A) (f : Bool) (n : ℕ) (b : Buffer A) (rest : List (Worker A))
      → Inv m b (waiting f n ∷ rest)
      → Keeps m c (waiting f n) b rest
  unfolding step
  waiting_step m c f n b rest inv = elim (Bool-cases (b.count_written == n)) [
    | inl done ↦
        let all : b.count_written ≡ n = ground (arith, done) in
        let told = waiting_registered m f n b rest inv all in
        (clearing f n, b, rw (done, told) refl, waiting_done m f n b rest inv all)
    | inr early ↦ (waiting f n, b, rw early refl, inv)
  ]

  pub swapping_step :
      (m : ℕ) (fails : Bool) (x : ℕ) (b : Buffer A) (rest : List (Worker A))
      → Inv m b (swapping x ∷ rest)
      → Keeps m (go fails) (swapping x) b rest
  unfolding step swap send_buffer is_active
  swapping_step m fails x b rest inv = elim (Bool-cases (ltb 0 x && ltb x b.max_count)) [
    | inr out ↦ (
      idle,
      b,
      rw out refl,
      quiet_step m b.last_active (swapping x) idle b rest (swapping-Quiet m x) (idle-Quiet m) inv,
    )
    | inl inside ↦
        let pos : 0 < x = ground (arith, inside) in
        let below : x < m = ground (arith, inside, inv.size) in
        elim (Bool-cases (not fails && (b.count_allocated == x))) [
          | inr missed ↦
              let y = if fails then x else b.count_allocated in
              (
                swapping y,
                b,
                rw (inside, missed) refl,
                quiet_step m b.last_active (swapping x) (swapping y) b rest (swapping-Quiet m x)
                    (swapping-Quiet m y) inv,
              )
          | inl swapped ↦
              let inactive : is_active x ≡ false =
                is_active-leb x (ground (arith, below, inv.small))
                ∙ ground (arith, below, inv.small) in
              let at : masked x ≡ x = masked_small x (ground (arith, below, inv.small)) in
              let fits : leb x b.max_count ≡ true = ground (arith, inside) in
              let nonzero : (x == 0) ≡ false = ground (arith, pos) in
              (
                waiting true x,
                record b { count_allocated = sender_active },
                rw (inside, swapped, inactive, at, fits, nonzero) refl,
                swapping_done m x b rest inv pos below (ground (arith, swapped)),
              )
        ]
  ]
