-- ===== src/Detail/AppendBuffer/Pushing/Storing.antt =====
-- am++/detail/append_buffer.hpp, push_back by several threads: a thread stores its element.
use ampp.Prelude.{
  ℕ, ◌-◌, ◌^◌, ◌≤◌, ◌<◌, ◌≡◌, ◌≢◌, refl, sym, ap, ◌∙◌, true, List, ◌∷◌, Option, some, ◌==◌, ltb,
  store, arith, inl, inr, Bool-cases, Option-cases, ==-refl, lt→ltb,
}
use ampp.Detail.AppendBuffer.{chunk_offset, chunk_size, pos_to_chunk_num}
use ampp.Detail.AppendBuffer.Position.{start, pos_to_chunk_num-lt, pos_to_chunk_num-bounds}
use ampp.Detail.AppendBuffer.Pushing.{Buffer, Pusher, idle, storing, assign, step, elem}
use ampp.Detail.AppendBuffer.Pushing.Inv.{
  claims, uses, allocates, present, strays, Inv, sum-strays, All-elsewhere, chunk_start,
}
use ampp.Detail.AppendBuffer.Pushing.Written.{
  present-written, more_present, elem-assigned_self, elem-assigned_ne,
}

module _ {A : Type 0} (init max num : ℕ) (default : A) (some_slot : 0 < init)
    (init_fits : init < 2 ^ 64) (max_fits : max < 2 ^ 64) (enough : max ≤ start init num) where
  -- A step of a thread among others: whether it calls push_back, and what it leads to.
  abbrev pub Stepped : ℕ → A → Pusher A → List (Pusher A) → Buffer A → Type 0
  Stepped calls y w rest b =
      (w' : Pusher A) × (b' : Buffer A) × (step init max num default y w b ≡ some (w', b'))
      × Inv init calls (w' ∷ rest) b'

  -- Two indices of a chunk have different places in it.
  differs :
      {j c : ℕ} (d i : ℕ)
      → c ≡ d
      → chunk_offset init c ≡ start init c
      → start init c ≤ j
      → start init d ≤ i
      → i ≢ j
      → j - chunk_offset init c ≢ i - chunk_offset init d
  differs d i same begins lo low away =
      ground (arith, ap (chunk_offset init) same, ap (start init) same, begins, lo, low, away)

  pub storing-Stepped :
      (calls : ℕ) (y x : A) (j : ℕ) (rest : List (Pusher A)) (b : Buffer A)
      → Inv init calls (storing x j ∷ rest) b
      → calls ≤ max
      → Stepped calls y (storing x j) rest b
  unfolding step assign claims uses allocates strays
  storing-Stepped calls y x j rest b inv le =
      let c = pos_to_chunk_num init j in
      let below : j < b.current_size = ground (arith, inv.once j, ==-refl j) in
      let table : ltb c num ≡ true =
        lt→ltb c num
          (pos_to_chunk_num-lt init j num some_slot (omega (arith, below, inv.made, le, enough))) in
      let (begins, lo, inside, only) =
        chunk_start init j some_slot init_fits (omega (arith, below, inv.made, le, max_fits)) in
      elim (Option-cases (b.chunk_ptrs c)) [
        | inl absent ↦ absurd (omega (arith, inv.sits, ap (present init) absent))
        | inr (chunk, e) ↦
            let offs = j - chunk_offset init c in
            let fits : ltb offs (chunk_size init c) ≡ true = ground (arith, begins, inside) in
            let new : ℕ → A = store chunk offs x in
            let ptrs : ℕ → Option (ℕ → A) = store b.chunk_ptrs c (some new) in
            (
              idle,
              record b { chunk_ptrs = ptrs; returned = (j, x) ∷ b.returned },
              rw (e, table, fits) refl,
              record {
                made = omega (arith, inv.made);
                once = λ i. omega (arith, inv.once i);
                chunks = λ d. elim (Bool-cases (c == d)) [
                  | inl here ↦
                      let there : present init (b.chunk_ptrs d) ≡ 1 =
                        ap (λ (k : ℕ). present init (b.chunk_ptrs k)) (sym (ground (arith, here)))
                        ∙ ap (present init) e in
                      ground (
                        arith,
                        inv.chunks d,
                        here,
                        there,
                        present-written init b.chunk_ptrs c new d,
                      )
                  | inr other ↦
                      ground (arith, inv.chunks d, other, present-written init b.chunk_ptrs c new d)
                ];
                sits = omega (
                  arith,
                  sum-strays init b.chunk_ptrs ptrs (more_present init b.chunk_ptrs c new) rest
                      (omega (arith, inv.sits)),
                );
                placed = (
                  elem-assigned_self init b.chunk_ptrs j chunk x,
                  All-elsewhere init (λ r. elem init b.chunk_ptrs r.0 ≡ some r.1)
                      (λ r. elem init ptrs r.0 ≡ some r.1) j
                      (λ r away e'.
                        elem-assigned_ne init b.chunk_ptrs j chunk x r.0 r.1 e
                          (λ same.
                            differs (pos_to_chunk_num init r.0) r.0 same begins lo
                              (pos_to_chunk_num-bounds init r.0 some_slot).0 away)
                          e')
                      b.returned (ground (arith, inv.once j, below, ==-refl j)) inv.placed,
                );
              },
            )
      ]
