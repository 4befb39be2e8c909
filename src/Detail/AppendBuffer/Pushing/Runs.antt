-- ===== src/Detail/AppendBuffer/Pushing/Runs.antt =====
-- am++/detail/append_buffer.hpp, push_back by several threads: over any schedule, indices are given out
-- once and elements stay where they were put.
use ampp.Prelude.{
  ℕ, zero, suc, ◌+◌, ◌^◌, ◌≤◌, ◌<◌, ◌≡◌, refl, sym, ap, ◌∙◌, List, [], ◌∷◌, Option, none, some, ltb,
  if◌then◌else◌, All, arith, inl, inr, Option-cases, get_elem?, set, replicate,
}
use ampp.Prelude.Sums.{sum, without, sum-without, sum-set}
use ampp.Detail.AppendBuffer.Position.{start}
use ampp.Detail.AppendBuffer.Pushing.{
  Buffer, Pusher, idle, new_buffer, run, step_from, step_at, put_back, elem,
}
use ampp.Detail.AppendBuffer.Pushing.Inv.{claims, uses, allocates, strays, returns, Inv}
use ampp.Detail.AppendBuffer.Pushing.Steps.{begins, more_calls, step-Stepped}

module _ {A : Type 0} (init max num : ℕ) (default : A) where
  -- How many calls begin in a schedule.
  abbrev pub starts : Option (Pusher A) → ℕ
  starts none = 0
  starts (some w) = begins w

  abbrev pub begun : Option (List (Pusher A) × Buffer A) → List (ℕ × A) → ℕ
  begun none ts = 0
  begun (some s) [] = 0
  begun (some (ws, b)) ((k, y) ∷ ts) =
      starts (get_elem? ws k) + begun (step_from init max num default (k, y) (some (ws, b))) ts

module _ {A : Type 0} (init max num : ℕ) (default : A) (some_slot : 0 < init)
    (init_fits : init < 2 ^ 64) (max_fits : max < 2 ^ 64) (enough : max ≤ start init num) where
  -- Only the sums over the threads matter.
  same_sums :
      (calls : ℕ) (ws ws' : List (Pusher A)) (b : Buffer A)
      → ((f : Pusher A → ℕ) → sum f ws' ≡ sum f ws)
      → Inv init calls ws b
      → Inv init calls ws' b
  same_sums calls ws ws' b same inv = record {
    made = omega (arith, inv.made, same (claims init));
    once = λ i. omega (arith, inv.once i, same (uses init i));
    chunks = λ c. omega (arith, inv.chunks c, same (allocates init c));
    sits = omega (arith, inv.sits, same (strays init b.chunk_ptrs));
    placed = inv.placed;
  }

  start_state : (n : ℕ) → Inv init 0 (replicate n idle) (new_buffer init max num default)
  unfolding new_buffer claims uses allocates strays
  start_state n = record {
    made = omega (arith, none_of (claims init) n refl);
    once = λ i. ground (arith, none_of (uses init i) n refl);
    chunks = λ c. ground (arith, none_of (allocates init c) n refl);
    sits = none_of (strays init (λ c. none)) n refl;
    placed = tt;
  }
    where
      none_of : (f : Pusher A → ℕ) (n : ℕ) → f idle ≡ 0 → sum f (replicate n idle) ≡ 0
      none_of f zero e = refl
      none_of f (suc n) e = omega (arith, e, none_of f n e)

  abbrev Went : ℕ → List (Pusher A) → Buffer A → ℕ × A → Type 0
  Went calls ws b (k, y) =
      (ws' : List (Pusher A)) × (b' : Buffer A) × (step_from init max num default (k, y)
          (some (ws, b))
        ≡ some (ws', b'))
      × Inv init (starts init max num default (get_elem? ws k) + calls) ws' b'

  step-Went :
      (calls : ℕ) (ws : List (Pusher A)) (b : Buffer A) (k : ℕ) (y : A)
      → Inv init calls ws b
      → starts init max num default (get_elem? ws k) + calls ≤ max
      → Went calls ws b (k, y)
  unfolding step_from step_at put_back
  step-Went calls ws b k y inv le = elim (Option-cases (get_elem? ws k)) [
    | inl absent ↦ (
      ws,
      b,
      rw absent refl,
      more_calls init max num default some_slot init_fits max_fits enough calls _ ws b (omega arith)
          inv,
    )
    | inr (w, e) ↦
        let inv' =
          same_sums calls ws (w ∷ without k ws) b (λ f. sym (sum-without f k ws w e)) inv in
        let count : starts init max num default (get_elem? ws k) ≡ begins w =
          ap (starts init max num default) e in
        let (w', b', made, kept) =
          step-Stepped init max num default some_slot init_fits max_fits enough calls y w
            (without k ws) b inv' (omega (arith, le, count)) in
        (
          set ws k w',
          b',
          rw (e, made) refl,
          rw e (same_sums _ (w' ∷ without k ws) (set ws k w') b' (λ f. sum-set f k ws w w' e) kept),
        )
  ]

  run-Inv :
      (ts : List (ℕ × A)) (calls : ℕ) (ws : List (Pusher A)) (b : Buffer A)
      → Inv init calls ws b
      → begun init max num default (some (ws, b)) ts + calls ≤ max
      → (ws' : List (Pusher A)) × (b' : Buffer A) × (run init max num default (some (ws, b)) ts
          ≡ some (ws', b'))
        × Inv init (begun init max num default (some (ws, b)) ts + calls) ws' b'
  unfolding run
  run-Inv [] calls ws b inv le = (
    ws,
    b,
    refl,
    more_calls init max num default some_slot init_fits max_fits enough calls _ ws b (omega arith)
        inv,
  )
  run-Inv ((k, y) ∷ ts) calls ws b inv le =
      let (mid, c, went, kept) = step-Went calls ws b k y inv (omega (arith, le)) in
      let rest = ap (λ r. begun init max num default r ts) went in
      let (ws', b', made, last) = run-Inv ts _ mid c kept (omega (arith, le, rest)) in
      (
        ws',
        b',
        ap (λ r. run init max num default r ts) went ∙ made,
        more_calls init max num default some_slot init_fits max_fits enough _ _ ws' b'
            (omega (arith, rest)) last,
      )

  -- Let the initial allocation be positive, sizes have 64 bits, and the chunks of the table together
  -- hold the maximal capacity. Then threads that begin no more calls than that never fail, in whatever order they take their steps. Every index below the size has
  -- been given to one call, which is still at it or has returned it, and no other index to any; and
  -- operator[] finds at each index that was returned what was pushed there.
  pub run-pushes :
      (n : ℕ) (ts : List (ℕ × A))
      → begun init max num default (some (replicate n idle, new_buffer init max num default)) ts
        ≤ max
      → (ws : List (Pusher A)) × (b : Buffer A) × (run init max num default
            (some (replicate n idle, new_buffer init max num default))
            ts
          ≡ some (ws, b))
        × ((i : ℕ)
            → sum (uses init i) ws + returns init i b.returned
              ≡ (if ltb i b.current_size then 1 else 0))
        × All (λ (r : ℕ × A). elem init b.chunk_ptrs r.0 ≡ some r.1) b.returned
  run-pushes n ts le =
      let (ws, b, made, inv) =
        run-Inv ts 0 (replicate n idle) (new_buffer init max num default) (start_state n)
          (omega (arith, le)) in
      (ws, b, made, inv.once, inv.placed)
