-- ===== src/Detail/AppendBuffer/Pushing/Steps.antt =====
-- am++/detail/append_buffer.hpp, push_back by several threads: a step keeps the buffer and the threads
-- in agreement.
use ampp.Prelude.{
  ℕ, ◌+◌, ◌%◌, ◌^◌, ◌≤◌, ◌<◌, ◌≡◌, ◌≢◌, refl, sym, ap, ◌∙◌, true, List, ◌∷◌, Option, some, ◌==◌,
  ltb, store, arith, inl, inr, Bool-cases, Option-cases, ==-refl, lt→ltb,
}
use ampp.Detail.AppendBuffer.{chunk_offset, pos_to_chunk_num}
use ampp.Detail.AppendBuffer.Position.{start, pos_to_chunk_num-lt}
use ampp.Detail.AppendBuffer.Pushing.{
  Buffer, Pusher, idle, claiming, allocating, waiting, storing, claim, claimed, allocate, wait_for,
  step, elem,
}
use ampp.Detail.AppendBuffer.Pushing.Inv.{
  claims, uses, allocates, present, strays, Inv, sum-strays, All-elsewhere, chunk_start,
}
use ampp.Detail.AppendBuffer.Pushing.Written.{present-written, more_present, elem-new}
use ampp.Detail.AppendBuffer.Pushing.Storing.{Stepped, storing-Stepped}

module _ {A : Type 0} where
  -- Whether a thread that takes a step begins a call.
  abbrev pub begins : Pusher A → ℕ
  begins idle = 1
  begins (claiming x) = 0
  begins (allocating x j) = 0
  begins (waiting x j) = 0
  begins (storing x j) = 0

module _ {A : Type 0} (init max num : ℕ) (default : A) (some_slot : 0 < init)
    (init_fits : init < 2 ^ 64) (max_fits : max < 2 ^ 64) (enough : max ≤ start init num) where
  idle-Stepped :
      (calls : ℕ) (y : A) (rest : List (Pusher A)) (b : Buffer A)
      → Inv init calls (idle ∷ rest) b
      → Stepped init max num default some_slot init_fits max_fits enough (1 + calls) y idle rest b
  unfolding step claims uses allocates strays
  idle-Stepped calls y rest b inv = (
    claiming y,
    b,
    refl,
    record {
      made = omega (arith, inv.made);
      once = λ i. inv.once i;
      chunks = λ c. inv.chunks c;
      sits = inv.sits;
      placed = inv.placed;
    },
  )

  claiming-Stepped :
      (calls : ℕ) (y x : A) (rest : List (Pusher A)) (b : Buffer A)
      → Inv init calls (claiming x ∷ rest) b
      → calls ≤ max
      → Stepped init max num default some_slot init_fits max_fits enough calls y (claiming x) rest b
  unfolding step claim claimed claims uses allocates strays
  claiming-Stepped calls y x rest b inv le =
      let idx = b.current_size in
      let c = pos_to_chunk_num init idx in
      let below : idx < max = omega (arith, inv.made, le) in
      let room : ltb idx max ≡ true = lt→ltb idx max below in
      let next : (idx + 1) % 2 ^ 64 ≡ idx + 1 = omega (arith, below, max_fits) in
      let table : ltb c num ≡ true =
        lt→ltb c num (pos_to_chunk_num-lt init idx num some_slot (omega (arith, below, enough))) in
      let (begins, lo, inside, only) =
        chunk_start init idx some_slot init_fits (omega (arith, below, max_fits)) in
      elim (Bool-cases (idx == chunk_offset init c)) [
        | inl first ↦
            let at : start init c ≡ idx = ground (arith, first, begins) in
            (
              allocating x idx,
              record b { current_size = (idx + 1) % 2 ^ 64 },
              rw (room, table, first) refl,
              record {
                made = omega (arith, inv.made, next);
                once = λ i. ground (arith, inv.once i, next);
                chunks = λ d. elim (Bool-cases (c == d)) [
                  | inl here ↦
                      let e : start init d ≡ idx =
                        ap (start init) (sym (ground (arith, here))) ∙ at in
                      ground (arith, inv.chunks d, next, here, e)
                  | inr other ↦
                      let away : start init d ≢ idx =
                        λ e. absurd (ground (arith, other, only d e)) in
                      ground (arith, inv.chunks d, next, other, away)
                ];
                sits = inv.sits;
                placed = inv.placed;
              },
            )
        | inr later ↦ (
          waiting x idx,
          record b { current_size = (idx + 1) % 2 ^ 64 },
          rw (room, table, later) refl,
          record {
            made = omega (arith, inv.made, next);
            once = λ i. ground (arith, inv.once i, next);
            chunks = λ d.
                let away : start init d ≢ idx =
                  λ e. absurd (ground (arith, later, begins, e, ap (start init) (only d e))) in
                ground (arith, inv.chunks d, next, away);
            sits = inv.sits;
            placed = inv.placed;
          },
        )
      ]

  allocating-Stepped :
      (calls : ℕ) (y x : A) (j : ℕ) (rest : List (Pusher A)) (b : Buffer A)
      → Inv init calls (allocating x j ∷ rest) b
      → Stepped init max num default some_slot init_fits max_fits enough calls y
          (allocating x j)
          rest
          b
  unfolding step allocate claims uses allocates strays elem
  allocating-Stepped calls y x j rest b inv =
      let c = pos_to_chunk_num init j in
      let chunk = λ (offs : ℕ). default in
      let ptrs : ℕ → Option (ℕ → A) = store b.chunk_ptrs c (some chunk) in
      elim (Option-cases (b.chunk_ptrs c)) [
        | inl absent ↦ (
          storing x j,
          record b { chunk_ptrs = ptrs },
          rw absent refl,
          record {
            made = omega (arith, inv.made);
            once = λ i. inv.once i;
            chunks = λ d. elim (Bool-cases (c == d)) [
              | inl here ↦
                  let none_yet : present init (b.chunk_ptrs d) ≡ 0 =
                    ap (λ (k : ℕ). present init (b.chunk_ptrs k)) (sym (ground (arith, here)))
                    ∙ ap (present init) absent in
                  ground (
                    arith,
                    inv.chunks d,
                    here,
                    none_yet,
                    present-written init b.chunk_ptrs c chunk d,
                  )
              | inr other ↦
                  ground (arith, inv.chunks d, other, present-written init b.chunk_ptrs c chunk d)
            ];
            sits = ground (
              arith,
              ==-refl c,
              present-written init b.chunk_ptrs c chunk c,
              sum-strays init b.chunk_ptrs ptrs (more_present init b.chunk_ptrs c chunk) rest
                  (omega (arith, inv.sits)),
            );
            placed =
                All-elsewhere init (λ r. elem init b.chunk_ptrs r.0 ≡ some r.1)
                  (λ r. elem init ptrs r.0 ≡ some r.1) j
                  (λ r away e. elem-new init b.chunk_ptrs c chunk r.0 r.1 absent e) b.returned
                  (ground (arith, inv.once j, ==-refl j)) inv.placed;
          },
        )
        | inr (old, e) ↦ absurd (ground (arith, inv.chunks c, ==-refl c, ap (present init) e))
      ]

  waiting-Stepped :
      (calls : ℕ) (y x : A) (j : ℕ) (rest : List (Pusher A)) (b : Buffer A)
      → Inv init calls (waiting x j ∷ rest) b
      → Stepped init max num default some_slot init_fits max_fits enough calls y
          (waiting x j)
          rest
          b
  unfolding step wait_for claims uses allocates strays
  waiting-Stepped calls y x j rest b inv =
      elim (Option-cases (b.chunk_ptrs (pos_to_chunk_num init j))) [
        | inl absent ↦ (waiting x j, b, rw absent refl, inv)
        | inr (chunk, e) ↦ (
          storing x j,
          b,
          rw e refl,
          record {
            made = omega (arith, inv.made);
            once = λ i. inv.once i;
            chunks = λ c. inv.chunks c;
            sits = omega (arith, ap (present init) e, inv.sits);
            placed = inv.placed;
          },
        )
      ]

  pub more_calls :
      (calls calls' : ℕ) (ws : List (Pusher A)) (b : Buffer A)
      → calls ≤ calls'
      → Inv init calls ws b
      → Inv init calls' ws b
  more_calls calls calls' ws b le inv = record {
    made = omega (arith, inv.made, le);
    once = inv.once;
    chunks = inv.chunks;
    sits = inv.sits;
    placed = inv.placed;
  }

  pub step-Stepped :
      (calls : ℕ) (y : A) (w : Pusher A) (rest : List (Pusher A)) (b : Buffer A)
      → Inv init calls (w ∷ rest) b
      → begins w + calls ≤ max
      → Stepped init max num default some_slot init_fits max_fits enough
          (begins w + calls)
          y
          w
          rest
          b
  step-Stepped calls y idle rest b inv le = idle-Stepped calls y rest b inv
  step-Stepped calls y (claiming x) rest b inv le =
      claiming-Stepped (0 + calls) y x rest b (more_calls calls (0 + calls) _ b (omega arith) inv)
        le
  step-Stepped calls y (allocating x j) rest b inv le =
      allocating-Stepped (0 + calls) y x j rest b
        (more_calls calls (0 + calls) _ b (omega arith) inv)
  step-Stepped calls y (waiting x j) rest b inv le =
      waiting-Stepped (0 + calls) y x j rest b (more_calls calls (0 + calls) _ b (omega arith) inv)
  step-Stepped calls y (storing x j) rest b inv le =
      storing-Stepped init max num default some_slot init_fits max_fits enough (0 + calls) y x j
        rest b (more_calls calls (0 + calls) _ b (omega arith) inv) le
