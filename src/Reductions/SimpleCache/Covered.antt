-- ===== src/Reductions/SimpleCache/Covered.antt =====
-- am++/reductions.hpp, simple_cache_remove_duplicates: a message is left out only if one that is
-- stored as the same value has been passed on to the same destination.
use ampp.Prelude.{
  ℕ, ◌+◌, ◌*◌, ◌<◌, ◌≡◌, refl, ap, subst, true, ◌+◌, none, arith, sym, ◌∙◌, List, [], ◌∷◌, true,
  Option, none, some, arith, All, Bool, false, ltb,
}
use ampp.Reductions.SimpleCache.{
  Policy, Layer, Op, sends, flushes, get_size, assert, is_valid_rank, clear, set_starts, init,
  send_at, send_from, send, flush, step, step_from, run,
}
use ampp.Reductions.SimpleCache.Cells.{
  Lawful, Known, Inv, Keeps, set_starts-Starts, set_starts-some, clear_cells-Good, send_at-Keeps,
}

-- The messages of a program, with their destinations.
abbrev pub requested : {Arg : Type 0} → List (Op Arg) → List (Arg × ℕ)
requested [] = []
requested (sends a d ∷ os) = (a, d) ∷ requested os
requested (flushes r ∷ os) = requested os

-- Sending to possible destinations only.
abbrev pub Possible : {Arg : Type 0} → ℕ → (ℕ → ℕ) → List (Op Arg) → Type 0
Possible n rank_from_index [] = Unit
Possible n rank_from_index (sends a d ∷ os) =
    ((i : ℕ) × (i < n) × (rank_from_index i ≡ d)) × Possible n rank_from_index os
Possible n rank_from_index (flushes r ∷ os) = Possible n rank_from_index os

module _ {Arg Stored : Type 0} (policy : Policy Arg Stored) (lg_size num_possible_dests : ℕ)
    (rank_from_index : ℕ → ℕ) (lawful : Lawful policy (get_size lg_size))
    (some_cell : 0 < get_size lg_size) where
  abbrev IsInv : Layer Arg Stored → Type 0
  IsInv = Inv policy lg_size num_possible_dests rank_from_index lawful

  abbrev Kept : Layer Arg Stored → Layer Arg Stored → Type 0
  Kept = Keeps policy lg_size num_possible_dests rank_from_index lawful

  abbrev pub Passed : List (Arg × ℕ) → Arg × ℕ → Type 0
  Passed sent (a, d) =
      Known policy lg_size num_possible_dests rank_from_index lawful (policy.stored_value a) d sent

  clear-Keeps :
      (s : Layer Arg Stored)
      → IsInv s
      → Kept s (clear policy lg_size num_possible_dests rank_from_index s)
  unfolding clear
  clear-Keeps s inv = record {
    inv = record {
      starts = inv.starts;
      cells = λ c inside.
          clear_cells-Good policy lg_size num_possible_dests rank_from_index lawful
            (num_possible_dests * get_size lg_size) s.cache s.sent c inside some_cell;
    };
    same = refl;
    ranks = refl;
    grow = λ v e k. k;
  }

  init-Inv :
      (num_ranks : ℕ) (fresh : ℕ → Stored)
      → IsInv (init policy lg_size num_possible_dests rank_from_index num_ranks fresh)
  unfolding init clear
  init-Inv num_ranks fresh = record {
    starts = λ d p e.
        set_starts-Starts policy lg_size num_possible_dests rank_from_index lawful
          num_possible_dests d p e;
    cells = λ c inside.
        clear_cells-Good policy lg_size num_possible_dests rank_from_index lawful
          (num_possible_dests * get_size lg_size) fresh [] c inside some_cell;
  }

  -- The pointers of the possible destinations are set, and these are ranks.
  abbrev Ready : Layer Arg Stored → Type 0
  Ready s =
      (s.start_ptrs
        ≡ set_starts policy lg_size num_possible_dests rank_from_index num_possible_dests)
      × ((i : ℕ) → i < num_possible_dests → rank_from_index i < s.num_ranks)

  Keeps-Ready : (s s' : Layer Arg Stored) → Kept s s' → Ready s → Ready s'
  Keeps-Ready s s' keeps (set, ranks) =
      (keeps.same ∙ set, λ i lt. subst (λ n. rank_from_index i < n) (sym keeps.ranks) (ranks i lt))

  send-Keeps :
      (s : Layer Arg Stored) (a : Arg) (d : ℕ)
      → IsInv s
      → Ready s
      → (i : ℕ) × (i < num_possible_dests) × (rank_from_index i ≡ d)
      → (s' : Layer Arg Stored) × (send policy lg_size num_possible_dests rank_from_index a d s
          ≡ some s')
        × Kept s s'
        × Passed s'.sent (a, d)
  unfolding send assert is_valid_rank send_from
  send-Keeps s a d inv (ready, ranks) (i, lt, here) =
      let valid : ltb d s.num_ranks ≡ true =
        ground (arith, subst (λ r. r < s.num_ranks) here (ranks i lt)) in
      let (p, made) =
        set_starts-some policy lg_size num_possible_dests rank_from_index lawful num_possible_dests
          i lt in
      let e : s.start_ptrs d ≡ some p =
        ap (λ (f : ℕ → Option ℕ). f d) ready
        ∙ subst
            (λ r.
              set_starts policy lg_size num_possible_dests rank_from_index num_possible_dests r
              ≡ some p)
            here made in
      let (j, small, at, there) = inv.starts d p e in
      let (keeps, known) =
        send_at-Keeps policy lg_size num_possible_dests rank_from_index lawful j a d s inv small
          there in
      (
        send_at policy lg_size num_possible_dests rank_from_index (j * get_size lg_size) a d s,
        rw valid (
            ap (λ o. send_from policy lg_size num_possible_dests rank_from_index o a d s)
              (e ∙ ap some at)),
        keeps,
        known,
      )

  All-grow :
      (ms : List (Arg × ℕ)) (sent sent' : List (Arg × ℕ))
      → ((m : Arg × ℕ) → Passed sent m → Passed sent' m)
      → All (Passed sent) ms
      → All (Passed sent') ms
  All-grow [] sent sent' grow all = tt
  All-grow (m ∷ ms) sent sent' grow (here, all) = (grow m here, All-grow ms sent sent' grow all)

  run-Passed :
      (os : List (Op Arg)) (s : Layer Arg Stored)
      → IsInv s
      → Ready s
      → Possible num_possible_dests rank_from_index os
      → (s' : Layer Arg Stored) × (run policy lg_size num_possible_dests rank_from_index (some s) os
          ≡ some s')
        × ((v : Stored) (e : ℕ)
            → Known policy lg_size num_possible_dests rank_from_index lawful v e s.sent
            → Known policy lg_size num_possible_dests rank_from_index lawful v e s'.sent)
        × All (Passed s'.sent) (requested os)
  unfolding run step_from step flush
  run-Passed [] s inv ready ok = (s, refl, (λ v e k. k), tt)
  run-Passed (sends a d ∷ os) s inv ready (dest, ok) =
      let (s1, made, keeps, known) = send-Keeps s a d inv ready dest in
      let (s2, rest, grow, all) = run-Passed os s1 keeps.inv (Keeps-Ready s s1 keeps ready) ok in
      (
        s2,
        ap (λ r. run policy lg_size num_possible_dests rank_from_index r os) made ∙ rest,
        (λ v e k. grow v e (keeps.grow v e k)),
        (grow (policy.stored_value a) d known, all),
      )
  run-Passed (flushes r ∷ os) s inv ready ok =
      let keeps = clear-Keeps s inv in
      let (s2, rest, grow, all) =
        run-Passed os (clear policy lg_size num_possible_dests rank_from_index s) keeps.inv
          (Keeps-Ready s _ keeps ready) ok in
      (s2, rest, (λ v e k. grow v e (keeps.grow v e k)), all)

  -- Let the policy be lawful, the cache of a destination have a cell, and the possible destinations be
  -- ranks. Then a program that sends to possible destinations only and flushes runs with no failed assertion, and for each message of
  -- it a message that is stored as the same value has been passed on to the same destination.
  pub run-covers :
      (num_ranks : ℕ) (fresh : ℕ → Stored) (os : List (Op Arg))
      → ((i : ℕ) → i < num_possible_dests → rank_from_index i < num_ranks)
      → Possible num_possible_dests rank_from_index os
      → (s : Layer Arg Stored) × (run policy lg_size num_possible_dests rank_from_index
            (some (init policy lg_size num_possible_dests rank_from_index num_ranks fresh))
            os
          ≡ some s)
        × All (Passed s.sent) (requested os)
  run-covers num_ranks fresh os ranks ok =
      let (s, made, grow, all) =
        run-Passed os (init policy lg_size num_possible_dests rank_from_index num_ranks fresh)
          (init-Inv num_ranks fresh) (unfold init clear in (refl, ranks)) ok in
      (s, made, all)

  abbrev Sends : ℕ → Arg → ℕ → Layer Arg Stored → Layer Arg Stored
  Sends = send_at policy lg_size num_possible_dests rank_from_index

  send_at-left :
      (p : ℕ) (a : Arg) (d : ℕ) (s : Layer Arg Stored)
      → ((Sends p a d s).start_ptrs ≡ s.start_ptrs)
        × ((Sends p a d s).cache (p + policy.hash (policy.stored_value a) (get_size lg_size))
            ≡ policy.stored_value a)
  unfolding send_at
  send_at-left p a d s = ground arith

  send_at-resend :
      (p : ℕ) (a : Arg) (d : ℕ) (s : Layer Arg Stored)
      → policy.matches a (s.cache (p + policy.hash (policy.stored_value a) (get_size lg_size)))
        ≡ true
      → (Sends p a d s).sent ≡ s.sent
  unfolding send_at
  send_at-resend p a d s m = ground (arith, m)

  send_from-resend :
      (o o' : Option ℕ) (a : Arg) (d : ℕ) (s s1 s2 : Layer Arg Stored)
      → policy.matches a (policy.stored_value a) ≡ true
      → send_from policy lg_size num_possible_dests rank_from_index o a d s ≡ some s1
      → o' ≡ o
      → send_from policy lg_size num_possible_dests rank_from_index o' a d s1 ≡ some s2
      → s2.sent ≡ s1.sent
  unfolding send_from
  send_from-resend none o' a d s s1 s2 own e same e' = ground (arith, e)
  send_from-resend (some p) none a d s s1 s2 own e same e' = ground (arith, same)
  send_from-resend (some p) (some p') a d s s1 s2 own e same e' =
      let first : Sends p a d s ≡ s1 = ground (arith, e) in
      let second : Sends p a d s1 ≡ s2 = ground (arith, e', same) in
      let held =
        ap
          (λ (t : Layer Arg Stored).
            t.cache (p + policy.hash (policy.stored_value a) (get_size lg_size)))
          (sym first)
        ∙ (send_at-left p a d s).1 in
      ap (λ (t : Layer Arg Stored). t.sent) (sym second)
      ∙ send_at-resend p a d s1 (ap (policy.matches a) held ∙ own)

  assert-some :
      (b : Bool) (r : Option (Layer Arg Stored)) (s : Layer Arg Stored)
      → assert policy lg_size num_possible_dests rank_from_index b r ≡ some s
      → r ≡ some s
  unfolding assert
  assert-some true r s e = e
  assert-some false r s e = ground (arith, e)

  send_from-start_ptrs :
      (o : Option ℕ) (a : Arg) (d : ℕ) (s s1 : Layer Arg Stored)
      → send_from policy lg_size num_possible_dests rank_from_index o a d s ≡ some s1
      → s1.start_ptrs ≡ s.start_ptrs
  unfolding send_from
  send_from-start_ptrs none a d s s1 e = ground (arith, e)
  send_from-start_ptrs (some p) a d s s1 e =
      let first : Sends p a d s ≡ s1 = ground (arith, e) in
      ap (λ (t : Layer Arg Stored). t.start_ptrs) (sym first) ∙ (send_at-left p a d s).0

  -- Let the policy be lawful and the cache of a destination have a cell. If a message matches its own
  -- stored value and is sent to a destination twice, with nothing in between and no failed assertion,
  -- then the second time nothing is passed on.
  pub send-resend :
      (a : Arg) (d : ℕ) (s s1 s2 : Layer Arg Stored)
      → policy.matches a (policy.stored_value a) ≡ true
      → send policy lg_size num_possible_dests rank_from_index a d s ≡ some s1
      → send policy lg_size num_possible_dests rank_from_index a d s1 ≡ some s2
      → s2.sent ≡ s1.sent
  unfolding send
  send-resend a d s s1 s2 own e e' =
      let first = assert-some _ _ s1 e in
      let second = assert-some _ _ s2 e' in
      let same = send_from-start_ptrs (s.start_ptrs d) a d s s1 first in
      send_from-resend (s.start_ptrs d) (s1.start_ptrs d) a d s s1 s2 own first
        (ap (λ (f : ℕ → Option ℕ). f d) same) second
