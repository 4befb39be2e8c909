-- ===== src/Coalescing/Basic/Steps.antt =====
-- am++/basic_coalesced_message_type.hpp: what one operation does to each destination's messages.
use ampp.Prelude.{
  ℕ, ◌+◌, ◌≤◌, ◌<◌, ◌≡◌, refl, sym, ap, ◌∙◌, true, false, List, [], ◌∷◌, ◌++◌, ◌==◌, if◌then◌else◌,
  length, arith, cases_at, ==-refl, All, All-append, append_assoc, append-nil,
}
use ampp.Coalescing.Basic.{Buffer, Event, being_built, flush_object, sent, Layer, update, put}

module _ {A : Type 0} where
  -- The messages sent to a destination, in order.
  abbrev pub deliveries : ℕ → List (Event A) → List A
  deliveries r [] = []
  deliveries r (sent d b ∷ es) = (if d == r then b else []) ++ deliveries r es
  deliveries r (being_built d ∷ es) = deliveries r es
  deliveries r (flush_object d ∷ es) = deliveries r es

  -- How many buffers were announced to the termination detector, and how many were sent.
  abbrev pub announced : ℕ → List (Event A) → ℕ
  announced r [] = 0
  announced r (being_built d ∷ es) = (if d == r then 1 else 0) + announced r es
  announced r (sent d b ∷ es) = announced r es
  announced r (flush_object d ∷ es) = announced r es

  abbrev pub batches : ℕ → List (Event A) → ℕ
  batches r [] = 0
  batches r (sent d b ∷ es) = (if d == r then 1 else 0) + batches r es
  batches r (being_built d ∷ es) = batches r es
  batches r (flush_object d ∷ es) = batches r es

  -- A buffer that is sent holds a message, and no more than the size.
  abbrev pub Fits : ℕ → Event A → Type 0
  Fits size (sent d b) = (0 < length b) × (length b ≤ size)
  Fits size (being_built d) = Unit
  Fits size (flush_object d) = Unit

  pub deliveries-append :
      (r : ℕ) (es fs : List (Event A))
      → deliveries r (es ++ fs) ≡ deliveries r es ++ deliveries r fs
  deliveries-append r [] fs = refl
  deliveries-append r (sent d b ∷ es) fs =
      ap (λ (t : List A). (if d == r then b else []) ++ t) (deliveries-append r es fs)
      ∙ sym (append_assoc (if d == r then b else []) (deliveries r es) (deliveries r fs))
  deliveries-append r (being_built d ∷ es) fs = deliveries-append r es fs
  deliveries-append r (flush_object d ∷ es) fs = deliveries-append r es fs

  pub announced-append :
      (r : ℕ) (es fs : List (Event A)) → announced r (es ++ fs) ≡ announced r es + announced r fs
  announced-append r [] fs = omega arith
  announced-append r (sent d b ∷ es) fs = announced-append r es fs
  announced-append r (being_built d ∷ es) fs = ground (arith, announced-append r es fs)
  announced-append r (flush_object d ∷ es) fs = announced-append r es fs

  pub batches-append :
      (r : ℕ) (es fs : List (Event A)) → batches r (es ++ fs) ≡ batches r es + batches r fs
  batches-append r [] fs = omega arith
  batches-append r (sent d b ∷ es) fs = ground (arith, batches-append r es fs)
  batches-append r (being_built d ∷ es) fs = batches-append r es fs
  batches-append r (flush_object d ∷ es) fs = batches-append r es fs

  -- Room for one more message, and none in a buffer that is not used; a buffer with a message in it is announced.
  pub record Good (size : ℕ) (b : Buffer A) : Type 0 where
    pub sized : b.valid ≡ true → b.max_count ≡ size
    pub room : b.valid ≡ true → length b.items < size
    pub unused : b.valid ≡ false → b.items ≡ []
    pub told : 0 < length b.items → b.registered_with_td ≡ true

  pub record Inv (s : Layer A) : Type 0 where
    pub some_room : 0 < s.coalescing_size
    pub good : (r : ℕ) → Good s.coalescing_size (s.outgoing_buffers r)
    pub tally :
        (r : ℕ)
        → announced r s.events
          ≡ batches r s.events + (if (s.outgoing_buffers r).registered_with_td then 1 else 0)
    pub fit : All (Fits s.coalescing_size) s.events

  -- All messages for a destination so far, in order.
  abbrev pub history : ℕ → Layer A → List A
  history r s = deliveries r s.events ++ (s.outgoing_buffers r).items

  -- A step that adds `xs` to the messages for `dest` and nothing to those for other ranks.
  pub record Adds (dest : ℕ) (xs : List A) (s s' : Layer A) : Type 0 where
    pub kept : Inv s'
    pub same_ranks : s'.num_ranks ≡ s.num_ranks
    pub same_possible : s'.is_possible_dest ≡ s.is_possible_dest
    pub same_size : s'.coalescing_size ≡ s.coalescing_size
    pub same_dests : (r : ℕ) → (s'.outgoing_buffers r).valid ≡ (s.outgoing_buffers r).valid
    pub grown : (r : ℕ) → history r s' ≡ history r s ++ (if dest == r then xs else [])

  -- Replacing the buffer of one destination.
  module _ (dest : ℕ) (b : Buffer A) (es : List (Event A)) (s : Layer A) (xs : List A) (inv : Inv s)
      (good : Good s.coalescing_size b) (valid : b.valid ≡ (s.outgoing_buffers dest).valid)
      (fits : All (Fits s.coalescing_size) es)
      (mine : deliveries dest es ++ b.items ≡ (s.outgoing_buffers dest).items ++ xs)
      (others : (r : ℕ)
        → (dest == r) ≡ false
        → (deliveries r es ≡ []) × (announced r es ≡ 0) × (batches r es ≡ 0))
      (tally : announced dest es + (if (s.outgoing_buffers dest).registered_with_td then 1 else 0)
        ≡ batches dest es + (if b.registered_with_td then 1 else 0)) where
    put-tally :
        (r : ℕ)
        → announced r (s.events ++ es)
          ≡ batches r (s.events ++ es)
            + (if (update s.outgoing_buffers dest b r).registered_with_td then 1 else 0)
    put-tally =
        cases_at dest _
          (rw (==-refl dest, announced-append dest s.events es, batches-append dest s.events es)
            (omega (arith, inv.tally dest, tally)))
          (λ r away.
            rw (away, announced-append r s.events es, batches-append r s.events es)
              (omega (arith, inv.tally r, others r away)))

    put-grown :
        (r : ℕ)
        → deliveries r (s.events ++ es) ++ (update s.outgoing_buffers dest b r).items
          ≡ history r s ++ (if dest == r then xs else [])
    put-grown =
        cases_at dest _
          (rw (==-refl dest, deliveries-append dest s.events es)
            (append_assoc (deliveries dest s.events) (deliveries dest es) b.items
              ∙ ap (λ (t : List A). deliveries dest s.events ++ t) mine
              ∙ sym (append_assoc (deliveries dest s.events) (s.outgoing_buffers dest).items xs)))
          (λ r away.
            rw (away, deliveries-append r s.events es, (others r away).0) (simp append-nil))

    pub put-Adds : Adds dest xs s (put dest b es s)
    unfolding put
    put-Adds = record {
      kept = record {
        some_room = inv.some_room;
        good = cases_at dest _ (rw (==-refl dest) good) (λ r away. rw away (inv.good r));
        tally = put-tally;
        fit = All-append (Fits s.coalescing_size) s.events es inv.fit fits;
      };
      same_ranks = refl;
      same_possible = refl;
      same_size = refl;
      same_dests = cases_at dest _ (rw (==-refl dest) valid) (λ r away. rw away);
      grown = put-grown;
    }
