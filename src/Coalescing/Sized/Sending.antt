-- ===== src/Coalescing/Sized/Sending.antt =====
-- am++/size_coalesced_message_type.hpp: a message below the size of a buffer is packed behind those
-- before it.
use ampp.Prelude.{
  ℕ, suc, ◌+◌, ◌%◌, ◌^◌, ◌≤◌, ◌<◌, ◌≡◌, refl, sym, ap, ◌∙◌, true, false, not, ◌&&◌, arith, ltb, leb,
  ◌==◌, List, [], ◌∷◌, ◌++◌, append_assoc, append-nil, Bool-cases, inl, inr,
}
use native.Mathlib.Decide.{dec_lt}
use ampp.Coalescing.Sized.{
  Buffer, Event, being_built, sent, returned, sender_active, masked, szsize, send_buffer,
  send_count, clear, allocate, write, overfull, round, free, after, send_loop, send,
}

module _ {A : Type 0} where
  -- The messages that were sent, in order.
  abbrev pub delivered : List (Event A) → List A
  delivered [] = []
  delivered (being_built ∷ es) = delivered es
  delivered (sent items count ∷ es) = items ++ delivered es

  delivered-append : (es fs : List (Event A)) → delivered (es ++ fs) ≡ delivered es ++ delivered fs
  delivered-append [] fs = refl
  delivered-append (being_built ∷ es) fs = delivered-append es fs
  delivered-append (sent items count ∷ es) fs =
      rw (delivered-append es fs) (sym (append_assoc items (delivered es) (delivered fs)))

  pub sent_log :
      (es : List (Event A)) (items : List A) (count : ℕ)
      → delivered (es ++ sent items count ∷ []) ++ [] ≡ delivered es ++ items
  sent_log es items count =
      append-nil (delivered (es ++ sent items count ∷ []))
      ∙ delivered-append es (sent items count ∷ [])
      ∙ ap (λ (l : List A). delivered es ++ l) (append-nil items)

  -- All messages so far, sent or not.
  abbrev pub history : Buffer A → List A
  history b = delivered b.events ++ b.items

  -- Nothing is being written, and there is room.
  pub record Inv (b : Buffer A) : Type 0 where
    pub small : b.max_count < 2 ^ 30
    pub below : b.count_allocated < b.max_count
    pub written : b.count_written ≡ b.count_allocated
    pub told : 0 < b.count_allocated → b.registered_with_td ≡ true
    pub bare : b.count_allocated ≡ 0 → b.items ≡ []

  -- What a buffer is after one more message.
  record Packed (wi : A) (b b' : Buffer A) : Type 0 where
    inv : Inv b'
    log : history b' ≡ history b ++ wi ∷ []

  -- What `allocate` leaves as it is, and whether the buffer is registered after it.
  record Allocated (my_id : ℕ) (b b' : Buffer A) : Type 0 where
    count : b'.count_allocated ≡ my_id
    written : b'.count_written ≡ b.count_written
    size : b'.max_count ≡ b.max_count
    items : b'.items ≡ b.items
    told : b'.registered_with_td ≡ true
    log : delivered b'.events ≡ delivered b.events

  allocate-Allocated :
      (my_id : ℕ) (b : Buffer A)
      → (0 < b.count_allocated → b.registered_with_td ≡ true)
      → Allocated my_id b (allocate b.count_allocated my_id b)
  unfolding allocate
  allocate-Allocated my_id b told =
      elim (Bool-cases ((b.count_allocated == 0) && not b.registered_with_td)) [
        | inl new ↦ rw new (record {
          count = refl;
          written = refl;
          size = refl;
          items = refl;
          told = refl;
          log = delivered-append b.events (being_built ∷ []) ∙ append-nil (delivered b.events);
        })
        | inr old ↦ rw old (record {
          count = refl;
          written = refl;
          size = refl;
          items = refl;
          told = ground (arith, old, told);
          log = refl;
        })
      ]

  pub send_buffer-sent :
      (my_id : ℕ) (b : Buffer A)
      → b.count_allocated ≡ sender_active
      → 0 < my_id
      → my_id < 2 ^ 31
      → my_id ≤ b.max_count
      → b.count_written ≡ my_id
      → b.registered_with_td ≡ true
      → send_buffer my_id b
        ≡ returned
            (true, record (clear b) { events = b.events ++ sent b.items (masked my_id) ∷ [] })
  unfolding send_buffer send_count
  send_buffer-sent my_id b e some_count lt le w told =
      ground (arith, e, some_count, lt, le, w, told)

  write-Inv :
      (sz : ℕ) (wi : A) (b b' : Buffer A)
      → Allocated ((b.count_allocated + sz) % 2 ^ 32) b b'
      → Inv b
      → 0 < sz
      → b.count_allocated + sz < b.max_count
      → Inv (write sz wi b')
  unfolding write
  write-Inv sz wi b b' a inv some_size room = record {
    small = omega (arith, a.size, inv.small);
    below = omega (arith, a.size, a.count, room, inv.small);
    written = omega (arith, a.written, a.count, inv.written, room, inv.small);
    told = λ p. a.told;
    bare = λ z. absurd (omega (arith, z, a.count, some_size, room, inv.small));
  }

  round-Packed :
      (sz : ℕ) (wi : A) (b : Buffer A)
      → Inv b
      → 0 < sz
      → b.count_allocated + sz < b.max_count
      → (b' : Buffer A) × (round sz wi b ≡ returned (true, b')) × Packed wi b b'
  unfolding round
  round-Packed sz wi b inv some_size room =
      let my_id = (b.count_allocated + sz) % 2 ^ 32 in
      let fits : leb b.max_count (masked my_id) ≡ false = ground (arith, inv.small, room) in
      let a = allocate-Allocated my_id b inv.told in
      (
        write sz wi (allocate b.count_allocated my_id b),
        rw fits refl,
        record {
          inv = write-Inv sz wi b (allocate b.count_allocated my_id b) a inv some_size room;
          log =
              unfold write in
              rw (a.log, a.items) (sym (append_assoc (delivered b.events) b.items (wi ∷ [])));
        },
      )

  round-sent :
      (sz : ℕ) (wi : A) (b : Buffer A)
      → Inv b
      → sz < b.max_count
      → b.max_count ≤ b.count_allocated + sz
      → (b' : Buffer A) × (round sz wi b ≡ returned (false, b'))
        × Inv b'
        × (b'.count_allocated ≡ 0)
        × (b'.max_count ≡ b.max_count)
        × (history b' ≡ history b)
  unfolding round overfull clear
  round-sent sz wi b inv lt full =
      let my_id = (b.count_allocated + sz) % 2 ^ 32 in
      let a = allocate-Allocated my_id b inv.told in
      let b1 = record (allocate b.count_allocated my_id b) { count_allocated = sender_active } in
      let over : leb b.max_count (masked my_id) ≡ true =
        ground (arith, inv.small, inv.below, lt, full) in
      let made =
        send_buffer-sent b.count_allocated b1 refl (omega (arith, lt, full))
          (omega (arith, inv.below, inv.small)) (omega (arith, inv.below, a.size))
          (a.written ∙ inv.written) a.told in
      (
        record (clear b1) { events = b1.events ++ sent b1.items (masked b.count_allocated) ∷ [] },
        rw over (ap overfull made),
        record {
          small = omega (arith, a.size, inv.small);
          below = omega (arith, a.size, lt);
          written = refl;
          told = λ p. absurd (omega (arith, p));
          bare = λ z. refl;
        },
        refl,
        a.size,
        (sent_log b1.events b1.items (masked b.count_allocated)
            ∙ ap (λ (l : List A). l ++ b1.items) a.log
            ∙ ap (λ (l : List A). delivered b.events ++ l) a.items),
      )

  Inv-free : (b : Buffer A) → Inv b → free b ≡ true
  unfolding free
  Inv-free b inv = ground (arith, inv.small, inv.below)

  send_loop-Packed :
      (fuel sz : ℕ) (wi : A) (b : Buffer A)
      → Inv b
      → 0 < sz
      → b.count_allocated + sz < b.max_count
      → (b' : Buffer A) × (send_loop (suc fuel) sz wi b ≡ returned b') × Packed wi b b'
  unfolding send_loop after
  send_loop-Packed fuel sz wi b inv some_size room =
      let (b', made, p) = round-Packed sz wi b inv some_size room in
      (b', rw (Inv-free b inv, made) refl, p)

  send_loop-sent :
      (fuel sz : ℕ) (wi : A) (b b' : Buffer A)
      → Inv b
      → round sz wi b ≡ returned (false, b')
      → send_loop (suc fuel) sz wi b ≡ send_loop fuel sz wi b'
  unfolding send_loop after
  send_loop-sent fuel sz wi b b' inv made = rw (Inv-free b inv, made) refl

  send_loop-history :
      (fuel sz : ℕ) (wi : A) (b : Buffer A)
      → Inv b
      → 0 < sz
      → sz < b.max_count
      → (b' : Buffer A) × (send_loop (suc (suc fuel)) sz wi b ≡ returned b')
        × Inv b'
        × (history b' ≡ history b ++ wi ∷ [])
  send_loop-history fuel sz wi b inv some_size lt =
      elim (dec_lt (b.count_allocated + sz) b.max_count) [
        | yes room ↦
            let (b', made, p) = send_loop-Packed (suc fuel) sz wi b inv some_size room in
            (b', made, p.inv, p.log)
        | no full ↦
            let (b1, made, inv1, empty, size, same) =
              round-sent sz wi b inv lt (omega (arith, full)) in
            let (b', made', p) =
              send_loop-Packed fuel sz wi b1 inv1 some_size (omega (arith, empty, size, lt)) in
            (
              b',
              send_loop-sent (suc fuel) sz wi b b1 inv made ∙ made',
              p.inv,
              p.log ∙ ap (λ (l : List A). l ++ wi ∷ []) same,
            )
      ]

  -- Send a message that takes, with its size word, less than the whole of a buffer of less than
  -- 2 ^ 30 bytes. On fuel for two rounds the loops end with the message packed last in the buffer,
  -- after the buffer has been sent first where there was no room; no message is lost, the order of
  -- all messages so far is kept, and so is the invariant of the buffer.
  pub send-history :
      (size_of : A → ℕ) (fuel : ℕ) (wi : A) (b : Buffer A)
      → Inv b
      → size_of wi + szsize < b.max_count
      → (b' : Buffer A) × (send size_of (suc (suc fuel)) wi b ≡ returned b')
        × Inv b'
        × (history b' ≡ history b ++ wi ∷ [])
  unfolding send
  send-history size_of fuel wi b inv room =
      let fits : ltb b.max_count (size_of wi + szsize) ≡ false = ground (arith, room) in
      rw fits (send_loop-history fuel (size_of wi + szsize) wi b inv (omega arith) room)
