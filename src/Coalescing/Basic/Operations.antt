-- ===== src/Coalescing/Basic/Operations.antt =====
-- am++/basic_coalesced_message_type.hpp: each operation keeps the buffers' invariant, fails no
-- assertion and loses no message.
use ampp.Prelude.{
  ℕ, ◌+◌, ◌≤◌, ◌<◌, ◌≡◌, refl, sym, ◌∙◌, Bool, true, false, List, [], ◌∷◌, ◌++◌, some, ◌==◌,
  if◌then◌else◌, length, length-append, arith, Bool-cases, ==-refl, All, All-append, inl, inr,
  append-nil,
}
use ampp.Coalescing.Basic.{
  Buffer, AppendState, normal, first_message, buffer_now_full, singleton_buffer, Event, sent, Layer,
  alloc_buffer, put, register, state_of, append, send_in, send, message_being_built, built_in,
  flush, flush_in, is_valid_rank,
}
use ampp.Coalescing.Basic.Steps.{
  deliveries, announced, batches, deliveries-append, announced-append, batches-append, Fits, Good,
  Inv, history, Adds, put-Adds,
}

-- What `append` did to the buffer, as the state that it reports.
abbrev Reports : AppendState → ℕ → ℕ → Type 0
Reports normal count max_count = (0 < count) × (count + 1 < max_count)
Reports first_message count max_count = (count ≡ 0) × (1 < max_count)
Reports buffer_now_full count max_count = (0 < count) × (count + 1 ≡ max_count)
Reports singleton_buffer count max_count = (count ≡ 0) × (max_count ≡ 1)

state_of-Reports :
    (count max_count : ℕ) → count < max_count → Reports (state_of count max_count) count max_count
unfolding state_of
state_of-Reports count max_count h = ground arith

module _ {A : Type 0} where
  length_snoc : (xs : List A) (x : A) → length (xs ++ x ∷ []) ≡ length xs + 1
  length_snoc xs x = length-append xs (x ∷ [])

  register-Fits : (dest : ℕ) (b : Buffer A) (size : ℕ) → All (Fits size) (register dest b)
  unfolding register
  register-Fits dest b size = ground arith

  register-silent : (dest r : ℕ) (b : Buffer A) → deliveries r (register dest b) ≡ []
  unfolding register
  register-silent dest r b = ground arith

  register-elsewhere :
      (dest r : ℕ) (b : Buffer A)
      → (dest == r) ≡ false
      → (deliveries r (register dest b) ≡ [])
        × (announced r (register dest b) ≡ 0)
        × (batches r (register dest b) ≡ 0)
  unfolding register
  register-elsewhere dest r b away = ground (arith, away)

  register-tally :
      (dest : ℕ) (b : Buffer A)
      → (announced dest (register dest b) + (if b.registered_with_td then 1 else 0) ≡ 1)
        × (batches dest (register dest b) ≡ 0)
  unfolding register
  register-tally dest b = ground (arith, ==-refl dest)

  fresh-Good : (size : ℕ) → 0 < size → Good size (alloc_buffer {A = A} size)
  fresh-Good size h = record {
    sized = λ _. refl;
    room = λ _. h;
    unused = λ n. refl;
    told = λ p. absurd (omega arith);
  }

  -- A buffer is announced, if it was not, and then sent.
  full-Adds :
      (arg : A) (dest : ℕ) (s : Layer A)
      → (s.outgoing_buffers dest).valid ≡ true
      → length (s.outgoing_buffers dest).items + 1 ≤ s.coalescing_size
      → 0 < s.coalescing_size
      → Inv s
      → Adds dest (arg ∷ []) s (
          put dest
            (alloc_buffer s.coalescing_size)
            (register dest (s.outgoing_buffers dest)
              ++ sent dest ((s.outgoing_buffers dest).items ++ arg ∷ []) ∷ [])
            s)
  full-Adds arg dest s v h some_room inv =
      let b = s.outgoing_buffers dest in
      let es : List (Event A) = sent dest (b.items ++ arg ∷ []) ∷ [] in
      put-Adds dest _ _ s (arg ∷ []) inv (fresh-Good s.coalescing_size some_room) (sym v)
        (All-append _ (register dest b) es (register-Fits dest b s.coalescing_size)
          ((omega (arith, length_snoc b.items arg), omega (arith, length_snoc b.items arg)), tt))
        (simp
          (deliveries-append dest (register dest b) es, register-silent dest dest b, ==-refl dest)
          (append-nil _ ∙ append-nil _))
        (λ r away. ground (
          arith,
          away,
          register-elsewhere dest r b away,
          deliveries-append r (register dest b) es,
          announced-append r (register dest b) es,
          batches-append r (register dest b) es,
        ))
        (ground (
          arith,
          ==-refl dest,
          register-tally dest b,
          announced-append dest (register dest b) es,
          batches-append dest (register dest b) es,
        ))

  send_in-Adds :
      (state : AppendState) (arg : A) (dest : ℕ) (s : Layer A)
      → (s.outgoing_buffers dest).valid ≡ true
      → Reports state (length (s.outgoing_buffers dest).items) s.coalescing_size
      → Inv s
      → Adds dest (arg ∷ []) s (
          send_in state
            (record (s.outgoing_buffers dest) {
              items = (s.outgoing_buffers dest).items ++ arg ∷ [];
            })
            dest
            s)
  unfolding send_in register
  send_in-Adds normal arg dest s v h inv =
      let b = s.outgoing_buffers dest in
      let g = inv.good dest in
      put-Adds dest _ [] s (arg ∷ []) inv
        (record {
          sized = g.sized;
          room = λ _. omega (arith, length_snoc b.items arg, h);
          unused = λ n. cc;
          told = λ _. g.told h.0;
        })
        refl tt refl (λ r away. (refl, refl, refl)) refl
  send_in-Adds first_message arg dest s v h inv =
      let b = s.outgoing_buffers dest in
      let g = inv.good dest in
      put-Adds dest _ _ s (arg ∷ []) inv
        (record {
          sized = g.sized;
          room = λ _. omega (arith, length_snoc b.items arg, h);
          unused = λ n. cc;
          told = λ _. refl;
        })
        refl (tt, register-Fits dest b s.coalescing_size)
        (ground (arith, register-silent dest dest b, ==-refl dest))
        (λ r away. register-elsewhere dest r b away)
        (ground (arith, register-tally dest b, ==-refl dest))
  send_in-Adds buffer_now_full arg dest s v h inv =
      full-Adds arg dest s v (omega arith) (omega arith) inv
  send_in-Adds singleton_buffer arg dest s v h inv =
      full-Adds arg dest s v (omega arith) (omega arith) inv

  pub send-Adds :
      (arg : A) (dest : ℕ) (s : Layer A)
      → (s.outgoing_buffers dest).valid ≡ true
      → is_valid_rank s dest ≡ true
      → s.is_possible_dest dest ≡ true
      → Inv s
      → (s' : Layer A) × (send arg dest s ≡ some s') × Adds dest (arg ∷ []) s s'
  unfolding send append
  send-Adds arg dest s v rank possible inv =
      let b = s.outgoing_buffers dest in
      let g = inv.good dest in
      let full = g.sized v in
      let room = g.room v in
      (
        _,
        ground (arith, v, rank, possible, full, room),
        send_in-Adds (state_of (length b.items) b.max_count) arg dest s v
            (rw full (state_of-Reports (length b.items) s.coalescing_size room)) inv,
      )

  stay-Adds : (dest : ℕ) (s : Layer A) → Inv s → Adds dest [] s s
  stay-Adds dest s inv = record {
    kept = inv;
    same_ranks = refl;
    same_possible = refl;
    same_size = refl;
    same_dests = λ r. refl;
    grown = λ r. ground (arith, append-nil (history r s));
  }

  length-zero : (xs : List A) → (length xs == 0) ≡ true → xs ≡ []
  length-zero [] e = refl
  length-zero (x ∷ xs) e = ground (arith, e)

  pub built_in-Adds : (dest : ℕ) (s : Layer A) → Inv s → Adds dest [] s (built_in dest s)
  unfolding built_in
  built_in-Adds dest s inv = elim (Bool-cases (s.outgoing_buffers dest).registered_with_td) [
    | inl old ↦ rw old (stay-Adds dest s inv)
    | inr new ↦ rw new (
        put-Adds dest _ _ s [] inv
          (record {
            sized = (inv.good dest).sized;
            room = (inv.good dest).room;
            unused = (inv.good dest).unused;
            told = λ _. refl;
          })
          refl (tt, tt) (sym (append-nil _)) (λ r away. ground (arith, away))
          (ground (arith, new, ==-refl dest)))
  ]

  flush_in-Adds :
      (dest : ℕ) (s : Layer A)
      → Inv s
      → (r : Bool) × (s' : Layer A) × (flush_in dest s ≡ some (r, s'))
        × Adds dest [] s s'
        × ((s'.outgoing_buffers dest).items ≡ [])
  unfolding flush_in put
  flush_in-Adds dest s inv = elim (Bool-cases (s.outgoing_buffers dest).valid) [
    | inr no_dest ↦
        (false, s, ground (arith, no_dest), stay-Adds dest s inv, (inv.good dest).unused no_dest)
    | inl dest_ok ↦
        let b = s.outgoing_buffers dest in
        let g = inv.good dest in
        let full = g.sized dest_ok in
        let room = g.room dest_ok in
        elim (Bool-cases (length b.items == 0)) [
          | inl none_left ↦ (
            false,
            s,
            ground (arith, dest_ok, full, room, none_left),
            stay-Adds dest s inv,
            length-zero b.items none_left,
          )
          | inr some_left ↦
              let told = g.told (ground (arith, some_left)) in
              (
                true,
                _,
                ground (arith, dest_ok, full, room, some_left, told),
                put-Adds dest _ (sent dest b.items ∷ []) s [] inv (fresh-Good _ inv.some_room)
                    (sym dest_ok) (ground (arith, some_left, room), tt)
                    (simp (==-refl dest, append-nil)) (λ r away. ground (arith, away))
                    (ground (arith, told, ==-refl dest)),
                simp (==-refl dest),
              )
        ]
  ]

  pub message_being_built-Adds :
      (dest : ℕ) (s : Layer A)
      → is_valid_rank s dest ≡ true
      → Inv s
      → (s' : Layer A) × (message_being_built dest s ≡ some s') × Adds dest [] s s'
  unfolding message_being_built
  message_being_built-Adds dest s rank inv =
      (built_in dest s, rw rank refl, built_in-Adds dest s inv)

  pub flush-Adds :
      (dest : ℕ) (s : Layer A)
      → is_valid_rank s dest ≡ true
      → Inv s
      → (r : Bool) × (s' : Layer A) × (flush dest s ≡ some (r, s'))
        × Adds dest [] s s'
        × ((s'.outgoing_buffers dest).items ≡ [])
  unfolding flush
  flush-Adds dest s rank inv =
      let (r, s', made, adds, left) = flush_in-Adds dest s inv in (r, s', rw rank made, adds, left)
