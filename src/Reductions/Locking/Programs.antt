-- ===== src/Reductions/Locking/Programs.antt =====
-- am++/reductions.hpp, locking_cache_binop_reduction: programs of sends and flushes.
use ampp.Prelude.{
  ℕ, zero, suc, ◌+◌, ◌*◌, ◌%◌, ◌<◌, ◌≡◌, refl, sym, ap, ◌∙◌, Bool, List, [], ◌∷◌, some, arith,
  store, store-cases, row-lt, row_parts,
}
use native.Mathlib.Nat.{mod-lt}
use ampp.Reductions.Combine.{Policy, get_size}
use ampp.Reductions.Combine.Dummies.{Found, get_bucket-lt}
use ampp.Reductions.Combine.Weights.{Weight, Lawful, part, amount, unit-plus}
use ampp.Reductions.Locking.{
  Layer, Op, to_send, to_flush, flush, clear_with, clear_cell, clear_cells, unmarked, clear, init,
  layer_of, step_from, run,
}
use ampp.Reductions.Locking.Steps.{held, total}
use ampp.Reductions.Locking.Conserved.{Free, IsStable, Grown, send-Grown}
use ampp.Reductions.Locking.Flushed.{at_place, value_of, dummy_worth, flush-Kept}

-- The messages of a program, with their destinations.
abbrev pub requested : {Arg : Type 0} → List (Op Arg) → List (Arg × ℕ)
requested [] = []
requested (to_send a d ∷ ops) = (a, d) ∷ requested ops
requested (to_flush d ∷ ops) = requested ops

-- Every destination is a rank.
abbrev pub InRange : {Arg : Type 0} → ℕ → List (Op Arg) → Type 0
InRange nranks [] = Unit
InRange nranks (to_send a d ∷ ops) = (d < nranks) × InRange nranks ops
InRange nranks (to_flush d ∷ ops) = (d < nranks) × InRange nranks ops

module _ {Arg Key Value M : Type 0} (policy : Policy Arg Key Value) (from_size : ℕ → Key)
    (lg_size fuel : ℕ) (lawful : Lawful policy) (weight : Weight policy M)
    (some_cell : 0 < get_size lg_size) (nranks : ℕ)
    (dummies : (h : ℕ) → h < get_size lg_size → Found policy fuel (get_size lg_size) h) where
  abbrev OpenLocks : Layer Arg → Type 0
  OpenLocks = Free policy from_size lg_size fuel lawful weight some_cell nranks

  abbrev total_of : Key → ℕ → Layer Arg → M
  total_of = total policy from_size lg_size fuel lawful weight some_cell

  abbrev place_of : Key → ℕ
  place_of = at_place policy from_size lg_size fuel lawful weight some_cell nranks

  abbrev worth_of : Key → Arg → M
  worth_of = value_of policy from_size lg_size fuel lawful weight some_cell nranks

  -- A cell that has been cleared.
  abbrev IsCleared : Layer Arg → ℕ → Type 0
  IsCleared s j =
      (s.locks j ≡ 0)
      × ((k : Key) → place_of k ≡ j % get_size lg_size → worth_of k (s.values j) ≡ weight.unit)

  clear_cells-IsCleared :
      (n : ℕ) (s : Layer Arg)
      → (s' : Layer Arg) × (clear_cells policy from_size lg_size fuel n s ≡ some s')
        × (s'.sent ≡ s.sent)
        × ((j : ℕ) → j < n → IsCleared s' j)
  unfolding clear_cells clear_cell clear_with
  clear_cells-IsCleared zero s = (s, refl, refl, λ j lt. absurd (omega (arith, lt)))
  clear_cells-IsCleared (suc i) s =
      let (s1, made, nothing, cleared) = clear_cells-IsCleared i s in
      let (x, found, differs) = dummies (i % get_size lg_size) (mod-lt i some_cell) in
      let kv = policy.make_keyval x policy.default_value in
      let s2 : Layer Arg = record s1 {
        locks = store s1.locks i 0;
        values = store s1.values i kv;
      } in
      (
        s2,
        ap (clear_cell policy from_size lg_size fuel i) made
            ∙ ap (λ o. clear_with policy from_size lg_size fuel o i s1) found,
        nothing,
        λ j lt. (
          store-cases (λ (n : ℕ). n ≡ 0) s1.locks i 0 j (λ here. refl)
              (λ away. (cleared j (ground (arith, away, lt))).0),
          λ k at.
              store-cases (λ (v : Arg). worth_of k v ≡ weight.unit) s1.values i kv j
                (λ here.
                  dummy_worth policy from_size lg_size fuel lawful weight some_cell nranks x
                    (i % get_size lg_size) differs k
                    (at ∙ ap (λ (n : ℕ). n % get_size lg_size) (sym here)))
                (λ away. (cleared j (ground (arith, away, lt))).1 k at),
        ),
      )

  -- The constructor leaves every lock free and nothing to be sent.
  init-empty :
      (locks : ℕ → ℕ) (fresh : ℕ → Arg)
      → (s : Layer Arg) × (init policy from_size lg_size fuel nranks locks fresh ≡ some s)
        × OpenLocks s
        × ((k : Key) (d : ℕ) → d < nranks → total_of k d s ≡ weight.unit)
  unfolding init clear unmarked amount
  init-empty locks fresh =
      let s0 : Layer Arg = record {
        locks = locks;
        values = fresh;
        any_filled_entries = 0;
        sent = [];
        flush_objects = [];
      } in
      let (s1, made, nothing, cleared) = clear_cells-IsCleared (get_size lg_size * nranks) s0 in
      (
        record s1 { any_filled_entries = 0 },
        ap (unmarked policy from_size lg_size fuel) made,
        λ j lt. (cleared j (omega (arith, lt))).0,
        λ k d ld.
            let lt = get_bucket-lt policy (get_size lg_size) k some_cell in
            let inside = row-lt nranks (get_size lg_size) d (place_of k) ld lt in
            ap
              (λ (l : List (Arg × ℕ)).
                weight.plus (amount policy weight k d l)
                  (held policy from_size lg_size fuel lawful weight some_cell k d s1))
              nothing
            ∙ unit-plus policy weight
                (held policy from_size lg_size fuel lawful weight some_cell k d s1)
            ∙ (cleared (d * get_size lg_size + place_of k) (omega (arith, inside))).1 k
                (sym (row_parts (get_size lg_size) d (place_of k) lt).0),
      )

  abbrev Later : (Key → ℕ → M) → Layer Arg → Layer Arg → Type 0
  Later = Grown policy from_size lg_size fuel lawful weight some_cell nranks

  run-Grown :
      IsStable policy from_size lg_size fuel lawful weight some_cell nranks
      → (ops : List (Op Arg)) (s : Layer Arg) → InRange nranks ops
      → OpenLocks s
      → (s' : Layer Arg) × (run policy from_size lg_size fuel (some s) ops ≡ some s')
        × Later (λ k d. amount policy weight k d (requested ops)) s s'
  unfolding run step_from layer_of amount
  run-Grown stable [] s ok free = (
    s,
    refl,
    record { free = free; total_grown = λ k d. sym (weight.plus-unit (total_of k d s)) },
  )
  run-Grown stable (to_send a d ∷ ops) s (ld, ok) free =
      let (s1, made, grown) =
        send-Grown policy from_size lg_size fuel lawful weight some_cell nranks stable a d s ld
          free in
      let (s2, rest, later) = run-Grown stable ops s1 ok grown.free in
      (
        s2,
        ap (λ r. run policy from_size lg_size fuel r ops) made ∙ rest,
        record {
          free = later.free;
          total_grown = λ k e.
              later.total_grown k e
              ∙ ap (λ (u : M). weight.plus u (amount policy weight k e (requested ops)))
                  (grown.total_grown k e)
              ∙ weight.plus_assoc (total_of k e s) (part policy weight k e (a, d))
                  (amount policy weight k e (requested ops));
        },
      )
  run-Grown stable (to_flush d ∷ ops) s (ld, ok) free =
      let (did, s1, made, kept, emptied) =
        flush-Kept policy from_size lg_size fuel lawful weight some_cell nranks dummies d s ld
          free in
      let (s2, rest, later) = run-Grown stable ops s1 ok kept.free in
      (
        s2,
        ap (λ r. run policy from_size lg_size fuel r ops)
              (ap (layer_of policy from_size lg_size fuel) made)
            ∙ rest,
        record {
          free = later.free;
          total_grown = λ k e.
              later.total_grown k e
              ∙ ap (λ (u : M). weight.plus u (amount policy weight k e (requested ops)))
                  (kept.total_grown k e ∙ weight.plus-unit (total_of k e s));
        },
      )

  -- Let values combine as the elements of a commutative monoid do, with weights that say what they
  -- amount to; let the tests of keys and values be exact; let every cell have a dummy value; and let
  -- a hash that is converted to a key lie in the bucket of its key. Then the constructor succeeds, and
  -- so does every program of sends and flushes to ranks, and a flush of a rank after it. What is then
  -- passed on to the rank amounts for every key to what the program was to send to it.
  pub run-flush-amount :
      IsStable policy from_size lg_size fuel lawful weight some_cell nranks
      → (locks : ℕ → ℕ) (fresh : ℕ → Arg) (ops : List (Op Arg)) (d : ℕ) → InRange nranks ops
      → d < nranks
      → (s : Layer Arg) × (did : Bool) × (s' : Layer Arg) × (run policy from_size lg_size fuel
            (init policy from_size lg_size fuel nranks locks fresh)
            ops
          ≡ some s)
        × (flush policy from_size lg_size fuel d s ≡ some (did, s'))
        × ((k : Key) → amount policy weight k d s'.sent ≡ amount policy weight k d (requested ops))
  run-flush-amount stable locks fresh ops d ok ld =
      let (s0, started, free, nothing) = init-empty locks fresh in
      let (s, made, grown) = run-Grown stable ops s0 ok free in
      let (did, s', flushed, kept, emptied) =
        flush-Kept policy from_size lg_size fuel lawful weight some_cell nranks dummies d s ld
          grown.free in
      (
        s,
        did,
        s',
        ap (λ r. run policy from_size lg_size fuel r ops) started ∙ made,
        flushed,
        λ k.
            sym (weight.plus-unit (amount policy weight k d s'.sent))
            ∙ ap (weight.plus (amount policy weight k d s'.sent)) (sym (emptied k))
            ∙ kept.total_grown k d
            ∙ weight.plus-unit (total_of k d s)
            ∙ grown.total_grown k d
            ∙ ap (λ (u : M). weight.plus u (amount policy weight k d (requested ops)))
                (nothing k d ld)
            ∙ unit-plus policy weight (amount policy weight k d (requested ops)),
      )
