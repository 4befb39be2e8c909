-- ===== src/Coalescing/Sized/Spinning.antt =====
-- am++/size_coalesced_message_type.hpp: a message of just the size of a buffer is never sent.
use ampp.Prelude.{ℕ, zero, suc, ◌+◌, ◌%◌, ◌^◌, ◌<◌, ◌≡◌, refl, ap, true, false, arith, ltb, leb}
use ampp.Coalescing.Sized.{
  Buffer, returned, waiting, sender_active, masked, szsize, send_buffer, allocate, overfull, round,
  free, after, send_loop, send,
}

module _ {A : Type 0} where
  -- A buffer that a sender has taken for itself.
  send_loop-taken :
      (fuel sz : ℕ) (wi : A) (b : Buffer A)
      → b.count_allocated ≡ sender_active
      → send_loop fuel sz wi b ≡ waiting
  unfolding send_loop free
  send_loop-taken zero sz wi b e = refl
  send_loop-taken (suc fuel) sz wi b e =
      let taken : free b ≡ false = ground (arith, e) in rw taken (send_loop-taken fuel sz wi b e)

  send_buffer-nothing :
      (my_id : ℕ) (b : Buffer A)
      → my_id ≡ 0
      → b.count_allocated ≡ sender_active
      → send_buffer my_id b ≡ returned (false, b)
  unfolding send_buffer
  send_buffer-nothing my_id b z e = ground (arith, z, e)

  -- The round that takes an empty buffer for a message that fills it.
  round-full :
      (sz : ℕ) (wi : A) (b : Buffer A)
      → b.count_allocated ≡ 0
      → b.max_count ≡ sz
      → 0 < sz
      → sz < 2 ^ 31
      → (b' : Buffer A) × (round sz wi b ≡ returned (false, b'))
        × (b'.count_allocated ≡ sender_active)
  unfolding round overfull
  round-full sz wi b e m pos lt =
      let my_id = (b.count_allocated + sz) % 2 ^ 32 in
      let b' = record (allocate b.count_allocated my_id b) { count_allocated = sender_active } in
      let full : leb b.max_count (masked my_id) ≡ true = ground (arith, e, m, lt) in
      (b', rw full (ap overfull (send_buffer-nothing b.count_allocated b' e refl)), refl)

  after_waiting :
      (fuel sz : ℕ) (wi : A) (b b' : Buffer A)
      → round sz wi b ≡ returned (false, b')
      → b'.count_allocated ≡ sender_active
      → after (round sz wi b) (λ c. send_loop fuel sz wi c) ≡ waiting
  unfolding after
  after_waiting fuel sz wi b b' e taken = rw e (send_loop-taken fuel sz wi b' taken)

  send_loop-waiting :
      (fuel sz : ℕ) (wi : A) (b : Buffer A)
      → b.count_allocated ≡ 0
      → b.max_count ≡ sz
      → 0 < sz
      → sz < 2 ^ 31
      → send_loop fuel sz wi b ≡ waiting
  unfolding send_loop
  send_loop-waiting zero sz wi b e m some_size lt = refl
  send_loop-waiting (suc fuel) sz wi b e m some_size lt =
      let (b', made, taken) = round-full sz wi b e m some_size lt in
      let open_buffer : free b ≡ true = unfold free in ground (arith, e, m, some_size) in
      rw open_buffer (after_waiting fuel sz wi b b' made taken)

  -- If a message with its size word takes just the size of a buffer, which is positive and below
  -- 2 ^ 31, then sending it to an empty buffer never returns, however long the loops run.
  pub send-waiting :
      (size_of : A → ℕ) (fuel : ℕ) (wi : A) (b : Buffer A)
      → b.count_allocated ≡ 0
      → b.max_count ≡ size_of wi + szsize
      → b.max_count < 2 ^ 31
      → send size_of fuel wi b ≡ waiting
  unfolding send
  send-waiting size_of fuel wi b e m lt =
      let fits : ltb b.max_count (size_of wi + szsize) ≡ false = ground (arith, m) in
      rw fits
        (send_loop-waiting fuel (size_of wi + szsize) wi b e m (omega arith) (omega (arith, m, lt)))
