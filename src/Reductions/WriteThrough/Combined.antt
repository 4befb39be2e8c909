-- ===== src/Reductions/WriteThrough/Combined.antt =====
-- am++/reductions.hpp, per_thread_wt_cache_binop_reduction: for each key, what is passed on combines
-- to the same as what was to be sent.
use ampp.Prelude.{
  ℕ, ◌+◌, ◌*◌, ◌<◌, ◌≡◌, refl, sym, ap, subst, ◌∙◌, true, List, [], ◌∷◌, Option, some, lt→ltb,
}
use ampp.Reductions.Combine.{Policy, get_size}
use ampp.Reductions.Combine.Dummies.{Found, get_bucket-lt}
use ampp.Reductions.Combine.Weights.{Weight, Lawful, part, amount, unit-plus}
use ampp.Reductions.WriteThrough.{
  Layer, Sizes, bucket, cleared, clear, init, set_starts, ranks_below, send_at, send_from,
  send_with_tid, step_from, run,
}
use ampp.Reductions.WriteThrough.Starts.{ranks_below-lt, set_starts-Start, set_starts-some}
use ampp.Reductions.WriteThrough.Cells.{Inv, Sends, clear_cells-Good, send_at-Sends}

-- The messages of a program, without the threads that send them.
abbrev pub requested : {Arg : Type 0} → List (Arg × ℕ × ℕ) → List (Arg × ℕ)
requested [] = []
requested ((a, d, tid) ∷ ms) = (a, d) ∷ requested ms

-- Sending from the threads that there are, to possible destinations.
abbrev pub Possible : {Arg : Type 0} → Sizes → (ℕ → ℕ) → List (Arg × ℕ × ℕ) → Type 0
Possible z rank_from_index [] = Unit
Possible z rank_from_index ((a, d, tid) ∷ ms) =
    ((tid < z.num_threads) × ((i : ℕ) × (i < z.num_possible_dests) × (rank_from_index i ≡ d)))
    × Possible z rank_from_index ms

module _ {Arg Key Value M : Type 0} (policy : Policy Arg Key Value) (z : Sizes)
    (rank_from_index : ℕ → ℕ) (lawful : Lawful policy) (weight : Weight policy M)
    (plus_self : (x : M) → weight.plus x x ≡ x) (some_cell : 0 < get_size z.lg_size)
    (dummies : (h : ℕ) → h < get_size z.lg_size → Found policy z.fuel (get_size z.lg_size) h)
    (valid : ranks_below z.num_ranks rank_from_index z.num_possible_dests ≡ true) where
  abbrev IsInv : Layer Arg → Type 0
  IsInv = Inv policy z rank_from_index lawful weight plus_self

  abbrev Ready : Layer Arg → Type 0
  Ready s = s.start_ptrs ≡ set_starts z rank_from_index z.num_threads

  below : (i : ℕ) → i < z.num_possible_dests → rank_from_index i < z.num_ranks
  below i lt = ranks_below-lt z.num_ranks rank_from_index z.num_possible_dests i valid lt

  init-Inv :
      (fresh : ℕ → Arg)
      → (s : Layer Arg) × (init policy z rank_from_index fresh ≡ some s)
        × IsInv s
        × Ready s
        × (s.sent ≡ [])
  unfolding init clear cleared
  init-Inv fresh =
      let (values, made, good) =
        clear_cells-Good policy z rank_from_index lawful weight plus_self dummies some_cell
          (z.num_threads * z.num_possible_dests * get_size z.lg_size) fresh in
      let s0 : Layer Arg = record {
        values = fresh;
        start_ptrs = set_starts z rank_from_index z.num_threads;
        sent = [];
      } in
      (
        record s0 { values = values },
        rw valid (ap (cleared policy z s0) made),
        record {
          starts = λ tid d p lt ld e.
              set_starts-Start z rank_from_index (below) z.num_threads tid d p ld e;
          cells = λ c inside. good c [] inside;
        },
        refl,
        refl,
      )

  send_with_tid-Sends :
      (s : Layer Arg) (a : Arg) (d tid : ℕ)
      → IsInv s
      → Ready s
      → tid < z.num_threads
      → (i : ℕ) × (i < z.num_possible_dests) × (rank_from_index i ≡ d)
      → (s' : Layer Arg) × (send_with_tid policy z a d tid s ≡ some s')
        × Sends policy z rank_from_index lawful weight plus_self a d s s'
  unfolding send_with_tid send_from
  send_with_tid-Sends s a d tid inv ready lt (i, li, here) =
      let dest_lt : d < z.num_ranks = subst (λ r. r < z.num_ranks) here (below i li) in
      let (p, made) = set_starts-some z rank_from_index below z.num_threads tid i lt li in
      let e : s.start_ptrs (tid * z.num_ranks + d) ≡ some p =
        ap (λ (f : ℕ → Option ℕ). f (tid * z.num_ranks + d)) ready
        ∙ subst (λ r. set_starts z rank_from_index z.num_threads (tid * z.num_ranks + r) ≡ some p)
            here made in
      let (j, lj, at, there) = inv.starts tid d p lt dest_lt e in
      let small = get_bucket-lt policy (get_size z.lg_size) (policy.get_key a) some_cell in
      (
        send_at policy z ((tid * z.num_possible_dests + j) * get_size z.lg_size) a d s,
        rw
            (
              lt→ltb tid z.num_threads lt,
              lt→ltb d z.num_ranks dest_lt,
              e,
              at,
              lt→ltb (bucket policy z (policy.get_key a)) (get_size z.lg_size) small,
            )
            refl,
        send_at-Sends policy z rank_from_index lawful weight plus_self tid j a d s inv lt lj there
            small,
      )

  run-amount :
      (ms : List (Arg × ℕ × ℕ)) (s : Layer Arg)
      → IsInv s
      → Ready s
      → Possible z rank_from_index ms
      → (s' : Layer Arg) × (run policy z (some s) ms ≡ some s')
        × ((k : Key) (d : ℕ)
            → amount policy weight k d s'.sent
              ≡ weight.plus
                  (amount policy weight k d s.sent)
                  (amount policy weight k d (requested ms)))
  unfolding run step_from amount
  run-amount [] s inv ready ok =
      (s, refl, λ k d. sym (weight.plus-unit (amount policy weight k d s.sent)))
  run-amount ((a, d, tid) ∷ ms) s inv ready ((lt, dest), ok) =
      let (s1, made, sends) = send_with_tid-Sends s a d tid inv ready lt dest in
      let (s2, rest, grown) = run-amount ms s1 sends.inv (sends.same ∙ ready) ok in
      (
        s2,
        ap (λ r. run policy z r ms) made ∙ rest,
        λ k e.
            grown k e
            ∙ ap (λ u. weight.plus u (amount policy weight k e (requested ms))) (sends.grown k e)
            ∙ weight.plus_assoc (amount policy weight k e s.sent) (part policy weight k e (a, d))
                (amount policy weight k e (requested ms)),
      )

  -- Let values combine as the elements of a semilattice do, with weights that say what they amount
  -- to; let the tests of keys and values be exact; let the destinations be valid ranks; and let every
  -- cell have a dummy value. Then the constructor succeeds, and so does every program of sends, by the
  -- threads that there are and to possible destinations. What it passes on amounts for every key and
  -- destination to what was to be sent.
  pub run-combines :
      (fresh : ℕ → Arg) (ms : List (Arg × ℕ × ℕ))
      → Possible z rank_from_index ms
      → (s : Layer Arg) × (run policy z (init policy z rank_from_index fresh) ms ≡ some s)
        × ((k : Key) (d : ℕ)
            → amount policy weight k d s.sent ≡ amount policy weight k d (requested ms))
  unfolding amount
  run-combines fresh ms ok =
      let (s0, started, inv, ready, nothing) = init-Inv fresh in
      let (s, made, grown) = run-amount ms s0 inv ready ok in
      (
        s,
        ap (λ r. run policy z r ms) started ∙ made,
        λ k d.
            grown k d
            ∙ ap
                (λ l.
                  weight.plus (amount policy weight k d l)
                    (amount policy weight k d (requested ms)))
                nothing
            ∙ unit-plus policy weight (amount policy weight k d (requested ms)),
      )
