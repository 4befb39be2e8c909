-- ===== src/Detail/BufferCache/Exclusive.antt =====
-- am++/detail/buffer_cache.hpp, buffer_cache: no buffer is handed out twice.
use ampp.Prelude.{
  ℕ, zero, suc, ◌+◌, ◌≤◌, ◌≡◌, ◌≢◌, refl, sym, ap, subst, ◌∙◌, true, false, List, [], ◌∷◌, ◌++◌,
  Option, none, some, ◌==◌, ltb, if◌then◌else◌, store, store-cases, length, get_elem?, All, inl,
  inr, Bool-cases, Option-cases, arith, length-append, lt→ltb, ==-refl,
}
use ampp.Detail.BufferCache.{
  Handle, Cache, Op, ask, give, size, without, new_cache, free_buf, find_buffer, allocate_at,
  handed, allocate, kept, given, give_back, step_from, run,
}

find_buffer-some :
    (n i : ℕ) (ptrs : ℕ → ℕ) (j : ℕ) → find_buffer n i ptrs ≡ some j → (ptrs j == 0) ≡ false
unfolding find_buffer
find_buffer-some zero i ptrs j e = ground (arith, e)
find_buffer-some (suc n) i ptrs j e = elim (Bool-cases (ptrs i == 0)) [
  | inl empty ↦ find_buffer-some n (i + 1) ptrs j (ground (arith, e, empty))
  | inr full ↦
      let here : i ≡ j = ground (arith, e, full) in
      subst (λ (x : ℕ). (ptrs x == 0) ≡ false) here full
]

-- How many handles are for a place, and how many have a pointer.
abbrev slot_count : ℕ → List Handle → ℕ
slot_count i [] = 0
slot_count i (h ∷ hs) = (if h.slot == i then 1 else 0) + slot_count i hs

abbrev pub pointer_count : ℕ → List Handle → ℕ
pointer_count p [] = 0
pointer_count p (h ∷ hs) = (if h.pointer == p then 1 else 0) + pointer_count p hs

slot_count-without :
    (i k : ℕ) (hs : List Handle) (h : Handle)
    → get_elem? hs k ≡ some h
    → slot_count i hs ≡ (if h.slot == i then 1 else 0) + slot_count i (without k hs)
slot_count-without i k [] h e = ground (arith, e)
slot_count-without i zero (g ∷ hs) h e = ap (λ o. counted o) e
  where
    counted : Option Handle → ℕ
    counted none = 0
    counted (some f) = (if f.slot == i then 1 else 0) + slot_count i hs
slot_count-without i (suc k) (g ∷ hs) h e = omega (arith, slot_count-without i k hs h e)

All-without : (P : Handle → Type 0) (k : ℕ) (hs : List Handle) → All P hs → All P (without k hs)
All-without P k [] all = tt
All-without P zero (h ∷ hs) all = all.1
All-without P (suc k) (h ∷ hs) all = (all.0, All-without P k hs all.1)

All-get_elem? :
    (P : Handle → Type 0) (k : ℕ) (hs : List Handle) (h : Handle)
    → All P hs
    → get_elem? hs k ≡ some h
    → P h
All-get_elem? P k [] h all e = ground (arith, e)
All-get_elem? P zero (g ∷ hs) h all e = subst (λ (o : Option Handle). at o) e all.0
  where
    at : Option Handle → Type 0
    at none = Unit
    at (some f) = P f
All-get_elem? P (suc k) (g ∷ hs) h all e = All-get_elem? P k hs h all.1 e

abbrev occupied : ℕ → ℕ
occupied p = if p == 0 then 0 else 1

module _ (alloc_memory : ℕ → ℕ) (not_null : (i : ℕ) → alloc_memory i ≢ 0)
    (fresh : (i j : ℕ) → alloc_memory i ≡ alloc_memory j → i ≡ j) where
  -- Every place below the last one holds its buffer, or one handle for it has been handed out.
  record Inv (room : ℕ) (hs : List Handle) (s : Cache) : Type 0 where
    pub counted : length s.all_buffers ≡ s.last_entry_written_plus_1
    pub alive : s.cache_deleted ≡ false
    pub fits : s.last_entry_written_plus_1 + room ≤ size
    pub place :
        (i : ℕ)
        → slot_count i hs + occupied (s.buffer_ptrs i)
          ≡ (if ltb i s.last_entry_written_plus_1 then 1 else 0)
    pub home : (i : ℕ) → (s.buffer_ptrs i == 0) ≡ false → s.buffer_ptrs i ≡ alloc_memory i
    pub handles : All (λ h. h.pointer ≡ alloc_memory h.slot) hs

  found-Inv :
      (room j : ℕ) (hs : List Handle) (s : Cache)
      → Inv (suc room) hs s
      → (s.buffer_ptrs j == 0) ≡ false
      → Inv room
          (record { pointer = s.buffer_ptrs j; slot = j } ∷ hs)
          (record s { buffer_ptrs = store s.buffer_ptrs j 0 })
  found-Inv room j hs s inv full = record {
    counted = inv.counted;
    alive = inv.alive;
    fits = omega (arith, inv.fits);
    place = λ i.
        store-cases
          (λ (p : ℕ).
            ((if j == i then 1 else 0) + slot_count i hs) + occupied p
            ≡ (if ltb i s.last_entry_written_plus_1 then 1 else 0))
          s.buffer_ptrs j 0 i
          (λ here.
            ground (
              arith,
              here,
              inv.place i,
              subst (λ (x : ℕ). (s.buffer_ptrs x == 0) ≡ false) here full,
            ))
          (λ away. ground (arith, away, inv.place i));
    home = λ i.
        store-cases (λ (p : ℕ). (p == 0) ≡ false → p ≡ alloc_memory i) s.buffer_ptrs j 0 i
          (λ here e. ground (arith, e)) (λ away. inv.home i);
    handles = (inv.home j full, inv.handles);
  }

  new-Inv :
      (room : ℕ) (hs : List Handle) (s : Cache)
      → Inv (suc room) hs s
      → Inv room
          (record {
            pointer = alloc_memory (length s.all_buffers);
            slot = s.last_entry_written_plus_1;
          }
            ∷ hs)
          (record s {
            all_buffers = s.all_buffers ++ alloc_memory (length s.all_buffers) ∷ [];
            last_entry_written_plus_1 = suc s.last_entry_written_plus_1;
          })
  new-Inv room hs s inv =
      let last = s.last_entry_written_plus_1 in
      record {
        counted = omega (
          arith,
          inv.counted,
          length-append s.all_buffers (alloc_memory (length s.all_buffers) ∷ []),
        );
        alive = inv.alive;
        fits = omega (arith, inv.fits);
        place = λ i. ground (arith, inv.place i);
        home = inv.home;
        handles = (ap alloc_memory inv.counted, inv.handles);
      }

  ask-Inv :
      (buffer_size room : ℕ) (hs : List Handle) (s : Cache)
      → (buffer_size == 0) ≡ false
      → Inv (suc room) hs s
      → (hs' : List Handle) × (s' : Cache) × (kept alloc_memory hs
            (allocate alloc_memory buffer_size s)
          ≡ some (hs', s'))
        × Inv room hs' s'
  unfolding kept allocate handed allocate_at
  ask-Inv buffer_size room hs s sized inv =
      elim (Option-cases (find_buffer s.last_entry_written_plus_1 0 s.buffer_ptrs)) [
        | inl nothing ↦
            let real : (alloc_memory (length s.all_buffers) == 0) ≡ false =
              ground (arith, not_null (length s.all_buffers)) in
            let inside : ltb s.last_entry_written_plus_1 size ≡ true =
              lt→ltb s.last_entry_written_plus_1 size (omega (arith, inv.fits)) in
            (
              record {
                pointer = alloc_memory (length s.all_buffers);
                slot = s.last_entry_written_plus_1;
              }
                  ∷ hs,
              record s {
                all_buffers = s.all_buffers ++ alloc_memory (length s.all_buffers) ∷ [];
                last_entry_written_plus_1 = suc s.last_entry_written_plus_1;
              },
              rw (sized, nothing, real, inside) refl,
              new-Inv room hs s inv,
            )
        | inr (j, found) ↦
            let full = find_buffer-some s.last_entry_written_plus_1 0 s.buffer_ptrs j found in
            (
              record { pointer = s.buffer_ptrs j; slot = j } ∷ hs,
              record s { buffer_ptrs = store s.buffer_ptrs j 0 },
              rw (sized, found) refl,
              found-Inv room j hs s inv full,
            )
      ]

  give-Inv :
      (room k : ℕ) (o : Option Handle) (hs : List Handle) (s : Cache)
      → get_elem? hs k ≡ o
      → Inv (suc room) hs s
      → (hs' : List Handle) × (s' : Cache) × (give_back alloc_memory k o (hs, s) ≡ some (hs', s'))
        × Inv room hs' s'
  unfolding give_back given free_buf
  give-Inv room k none hs s e inv = (
    hs,
    s,
    refl,
    record {
      counted = inv.counted;
      alive = inv.alive;
      fits = omega (arith, inv.fits);
      place = inv.place;
      home = inv.home;
      handles = inv.handles;
    },
  )
  give-Inv room k (some h) hs s e inv =
      let p_home = All-get_elem? (λ g. g.pointer ≡ alloc_memory g.slot) k hs h inv.handles e in
      let same : (h.slot == h.slot) ≡ true = ==-refl h.slot in
      let empty : (s.buffer_ptrs h.slot == 0) ≡ true =
        ground (arith, inv.place h.slot, slot_count-without h.slot k hs h e, same) in
      (
        without k hs,
        record s { buffer_ptrs = store s.buffer_ptrs h.slot h.pointer },
        rw (inv.alive, empty) refl,
        record {
          counted = inv.counted;
          alive = inv.alive;
          fits = omega (arith, inv.fits);
          place = λ i.
              store-cases
                (λ (p : ℕ).
                  slot_count i (without k hs) + occupied p
                  ≡ (if ltb i s.last_entry_written_plus_1 then 1 else 0))
                s.buffer_ptrs h.slot h.pointer i
                (λ here. ground (
                  arith,
                  here,
                  inv.place i,
                  slot_count-without i k hs h e,
                  empty,
                  ap s.buffer_ptrs here,
                  p_home,
                  not_null h.slot,
                ))
                (λ away. ground (arith, away, inv.place i, slot_count-without i k hs h e));
          home = λ i.
              store-cases (λ (p : ℕ). (p == 0) ≡ false → p ≡ alloc_memory i) s.buffer_ptrs h.slot
                h.pointer i (λ here full. p_home ∙ ap alloc_memory here) (λ away. inv.home i);
          handles = All-without (λ g. g.pointer ≡ alloc_memory g.slot) k hs inv.handles;
        },
      )

  pointer_count-le :
      (i : ℕ) (hs : List Handle)
      → All (λ h. h.pointer ≡ alloc_memory h.slot) hs
      → pointer_count (alloc_memory i) hs ≤ slot_count i hs
  pointer_count-le i [] all = omega arith
  pointer_count-le i (h ∷ hs) (at, all) = elim (Bool-cases (h.pointer == alloc_memory i)) [
    | inl same ↦
        let eq : h.pointer ≡ alloc_memory i = ground (arith, same) in
        let slot : h.slot ≡ i = fresh h.slot i (sym at ∙ eq) in
        ground (arith, slot, same, pointer_count-le i hs all)
    | inr other ↦ ground (arith, other, pointer_count-le i hs all)
  ]

  run-Inv :
      (buffer_size : ℕ) (ops : List Op) (hs : List Handle) (s : Cache)
      → (buffer_size == 0) ≡ false
      → Inv (length ops) hs s
      → (hs' : List Handle) × (s' : Cache) × (run alloc_memory buffer_size (some (hs, s)) ops
          ≡ some (hs', s'))
        × Inv 0 hs' s'
  unfolding run step_from
  run-Inv buffer_size [] hs s sized inv = (hs, s, refl, inv)
  run-Inv buffer_size (ask ∷ ops) hs s sized inv =
      let (hs1, s1, made, inv1) = ask-Inv buffer_size (length ops) hs s sized inv in
      let (hs2, s2, rest, inv2) = run-Inv buffer_size ops hs1 s1 sized inv1 in
      (hs2, s2, ap (λ r. run alloc_memory buffer_size r ops) made ∙ rest, inv2)
  run-Inv buffer_size (give k ∷ ops) hs s sized inv =
      let (hs1, s1, made, inv1) = give-Inv (length ops) k (get_elem? hs k) hs s refl inv in
      let (hs2, s2, rest, inv2) = run-Inv buffer_size ops hs1 s1 sized inv1 in
      (hs2, s2, ap (λ r. run alloc_memory buffer_size r ops) made ∙ rest, inv2)

  -- Let the transport give memory at addresses that are not null and differ from call to call, and let
  -- buffers have a size. Then every program that asks for buffers and gives back what it has, in at most
  -- 65536 operations, runs without a failed assertion, and at its end has no buffer twice.
  pub run-exclusive :
      (buffer_size : ℕ) (ops : List Op)
      → (buffer_size == 0) ≡ false
      → length ops ≤ size
      → (hs : List Handle) × (s : Cache) × (run alloc_memory buffer_size (some ([], new_cache)) ops
          ≡ some (hs, s))
        × ((i : ℕ) → pointer_count (alloc_memory i) hs ≤ 1)
  unfolding new_cache
  run-exclusive buffer_size ops sized le =
      let (hs, s, made, inv) = run-Inv buffer_size ops [] new_cache sized (record {
        counted = refl;
        alive = refl;
        fits = omega (arith, le);
        place = λ i. ground arith;
        home = λ i full. ground (arith, full);
        handles = tt;
      }) in
      (hs, s, made, λ i. ground (arith, inv.place i, pointer_count-le i hs inv.handles))
