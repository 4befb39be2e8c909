-- ===== src/Coalescing/Basic/Delivery.antt =====
-- am++/basic_coalesced_message_type.hpp: every message is delivered once and in order.
use ampp.Prelude.{
  ℕ, ◌<◌, ◌≡◌, refl, sym, ap, ◌∙◌, Bool, true, false, List, [], ◌∷◌, ◌++◌, some, ◌==◌,
  if◌then◌else◌, arith, append-nil, append_assoc, All, count, map,
}
use ampp.Coalescing.Basic.{
  Layer, flush, init, Op, sends, builds, flushes, step, run, is_valid_rank, handle_each,
  raw_message_handler,
}
use ampp.Coalescing.Basic.Steps.{deliveries, Inv, history, Adds}
use ampp.Coalescing.Basic.Starting.{init-Started, Started-Inv, Started-history}
use ampp.Coalescing.Basic.Operations.{send-Adds, message_being_built-Adds, flush-Adds}

module _ {A : Type 0} where
  -- The messages of a program for one rank.
  pub sent_to : ℕ → List (Op A) → List A
  sent_to r [] = []
  sent_to r (sends arg dest ∷ os) = (if dest == r then arg ∷ [] else []) ++ sent_to r os
  sent_to r (builds dest ∷ os) = sent_to r os
  sent_to r (flushes dest ∷ os) = sent_to r os

  -- Messages go to possible destinations only, and all operations are for ranks.
  abbrev pub Allowed : ℕ → (ℕ → Bool) → List (Op A) → Type 0
  Allowed num_ranks possible [] = Unit
  Allowed num_ranks possible (sends arg dest ∷ os) =
      (dest < num_ranks) × (possible dest ≡ true) × Allowed num_ranks possible os
  Allowed num_ranks possible (builds dest ∷ os) = (dest < num_ranks) × Allowed num_ranks possible os
  Allowed num_ranks possible (flushes dest ∷ os) =
      (dest < num_ranks) × Allowed num_ranks possible os

  module _ (size num_ranks : ℕ) (possible : ℕ → Bool) where
    -- The state of a layer with these destinations.
    record Ready (s : Layer A) : Type 0 where
      inv : Inv s
      ranks : s.num_ranks ≡ num_ranks
      same_possible : s.is_possible_dest ≡ possible
      dests : (r : ℕ) → possible r ≡ true → (s.outgoing_buffers r).valid ≡ true

    Adds-Ready : (dest : ℕ) (xs : List A) (s s' : Layer A) → Ready s → Adds dest xs s s' → Ready s'
    Adds-Ready dest xs s s' r a = record {
      inv = a.kept;
      ranks = a.same_ranks ∙ r.ranks;
      same_possible = a.same_possible ∙ r.same_possible;
      dests = λ d p. a.same_dests d ∙ r.dests d p;
    }

    rank_valid : (dest : ℕ) (s : Layer A) → Ready s → dest < num_ranks → is_valid_rank s dest ≡ true
    rank_valid dest s ready lt = ground (arith, ready.ranks, lt)

    abbrev Runs : List (Op A) → Layer A → Type 0
    Runs os s =
        (s' : Layer A) × (run s os ≡ some s')
        × Ready s'
        × ((r : ℕ) → history r s' ≡ history r s ++ sent_to r os)

    -- One step that adds `xs` for `dest`, and then the rest.
    step-Runs :
        (o : Op A) (os : List (Op A)) (s s1 : Layer A) (dest : ℕ) (xs : List A)
        → step s o ≡ some s1
        → Adds dest xs s s1
        → ((r : ℕ) → sent_to r (o ∷ os) ≡ (if dest == r then xs else []) ++ sent_to r os)
        → Runs os s1
        → Runs (o ∷ os) s
    unfolding run
    step-Runs o os s s1 dest xs e a first (s', made, ready, h) = (
      s',
      ground (arith, e, made),
      ready,
      λ r.
          h r
          ∙ ap (λ (t : List A). t ++ sent_to r os) (a.grown r)
          ∙ append_assoc (history r s) (if dest == r then xs else []) (sent_to r os)
          ∙ ap (λ (t : List A). history r s ++ t) (sym (first r)),
    )

    run-Runs :
        (os : List (Op A)) (s : Layer A) → Ready s → Allowed num_ranks possible os → Runs os s
    unfolding run step sent_to
    run-Runs [] s ready ok = (s, refl, ready, λ r. sym (append-nil (history r s)))
    run-Runs (sends arg dest ∷ os) s ready (lt, may, ok) =
        let may' = ap (λ (p : ℕ → Bool). p dest) ready.same_possible ∙ may in
        let (s1, e, a) =
          send-Adds arg dest s (ready.dests dest may) (rank_valid dest s ready lt) may' ready.inv in
        step-Runs (sends arg dest) os s s1 dest (arg ∷ []) e a (λ r. refl)
          (run-Runs os s1 (Adds-Ready dest (arg ∷ []) s s1 ready a) ok)
    run-Runs (builds dest ∷ os) s ready (lt, ok) =
        let (s1, e, a) = message_being_built-Adds dest s (rank_valid dest s ready lt) ready.inv in
        step-Runs (builds dest) os s s1 dest [] e a (λ r. ground arith)
          (run-Runs os s1 (Adds-Ready dest [] s s1 ready a) ok)
    run-Runs (flushes dest ∷ os) s ready (lt, ok) =
        let (did, s1, e, a, _) = flush-Adds dest s (rank_valid dest s ready lt) ready.inv in
        step-Runs (flushes dest) os s s1 dest [] (ground (arith, e)) a (λ r. ground arith)
          (run-Runs os s1 (Adds-Ready dest [] s s1 ready a) ok)

    -- With room in its buffers, and a set of possible destinations that lists ranks only and each rank
    -- that it takes for valid, the layer is made, and a program that sends to possible destinations only,
    -- with each operation for a rank, runs with no failed assertion and keeps the invariant. For every
    -- rank the messages in the buffers sent to it and then those that still wait in its buffer are the
    -- messages sent to that rank, in the order of sending.
    pub history-run :
        (listed : List ℕ) (os : List (Op A))
        → 0 < size
        → All (λ (r : ℕ). r < num_ranks) listed
        → ((r : ℕ) → possible r ≡ true → 0 < count r listed)
        → Allowed num_ranks possible os
        → (s0 : Layer A) × (s : Layer A) × (init size num_ranks possible listed ≡ some s0)
          × (run s0 os ≡ some s)
          × Inv s
          × ((r : ℕ) → history r s ≡ sent_to r os)
    history-run listed os some_room ranks complete ok =
        let (s0, made, st, dests) = init-Started size num_ranks possible listed ranks in
        let ready : Ready s0 = record {
          inv = Started-Inv size num_ranks possible s0 some_room st;
          ranks = st.same_ranks;
          same_possible = st.same_possible;
          dests = λ r p. dests r (complete r p);
        } in
        let (s, ran, last, h) = run-Runs os s0 ready ok in
        (
          s0,
          s,
          made,
          ran,
          last.inv,
          λ r.
              h r
              ∙ ap (λ (t : List A). t ++ sent_to r os)
                  (Started-history size num_ranks possible s0 r st),
        )

  add_nothing : (b : Bool) (xs : List A) → xs ++ (if b then [] else []) ≡ xs
  add_nothing true xs = append-nil xs
  add_nothing false xs = append-nil xs

  -- In a layer that keeps its invariant, flushing a valid rank succeeds and leaves nothing waiting
  -- for it: all the messages for it so far have been sent, in order, and the messages sent and
  -- waiting for each rank together are as they were.
  pub flush-drains :
      (dest : ℕ) (s : Layer A)
      → is_valid_rank s dest ≡ true
      → Inv s
      → (did : Bool) × (s' : Layer A) × (flush dest s ≡ some (did, s'))
        × (deliveries dest s'.events ≡ history dest s)
        × ((r : ℕ) → history r s' ≡ history r s)
  flush-drains dest s rank inv =
      let (did, s', e, a, left) = flush-Adds dest s rank inv in
      let same = λ (r : ℕ). a.grown r ∙ add_nothing (dest == r) (history r s) in
      (
        did,
        s',
        e,
        sym (append-nil _)
            ∙ ap (λ (t : List A). deliveries dest s'.events ++ t) (sym left)
            ∙ same dest,
        same,
      )

  -- The calls of the handler are for the messages of the sorted buffer, each with its source.
  raw_message_handler-calls :
      (sort : List A → List A) (src : ℕ) (buf : List A) (calls : List (ℕ × A))
      → raw_message_handler sort (λ from x log. log ++ (from, x) ∷ []) src buf calls
        ≡ calls ++ map (λ x. (src, x)) (sort buf)
  unfolding raw_message_handler handle_each
  raw_message_handler-calls sort src buf calls = each (sort buf) calls
    where
      each :
          (xs : List A) (log : List (ℕ × A))
          → handle_each (λ from x log. log ++ (from, x) ∷ []) src xs log
            ≡ log ++ map (λ x. (src, x)) xs
      each [] log = sym (append-nil log)
      each (x ∷ xs) log =
          each xs (log ++ (src, x) ∷ []) ∙ append_assoc log ((src, x) ∷ []) (map (λ y. (src, y)) xs)
