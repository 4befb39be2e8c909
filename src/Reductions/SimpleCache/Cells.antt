-- ===== src/Reductions/SimpleCache/Cells.antt =====
-- am++/reductions.hpp, simple_cache_remove_duplicates: what the cells of the cache hold.
use ampp.Prelude.{
  store, store-cases, row_parts, row-lt, ℕ, zero, suc, ◌+◌, ◌*◌, ◌%◌, ◌/◌, ◌<◌, ◌≡◌, ◌≢◌, refl, sym,
  ap, subst, ◌∙◌, true, false, List, [], ◌∷◌, ◌++◌, some, ◌==◌, ◌⊎◌, inl, inr, arith, append_assoc,
  Bool-cases,
}
use native.Mathlib.Decide.{dec_lt}
use native.Mathlib.Nat.{mod-lt}
use ampp.Reductions.SimpleCache.{Policy, Layer, get_size, clear_cells, set_starts, send_at}

-- What a policy promises: hashes are in range, only a message's own value matches it, and the dummy
-- value of a cell is never looked for in that cell.
pub record Lawful {Arg Stored : Type 0} (policy : Policy Arg Stored) (size : ℕ) : Type 0 where
  pub in_range : (v : Stored) → policy.hash v size < size
  pub exact : (a : Arg) (v : Stored) → policy.matches a v ≡ true → v ≡ policy.stored_value a
  pub dummy : (h : ℕ) → h < size → policy.hash (policy.dummy_value h size) size ≢ h

module _ {Arg Stored : Type 0} (policy : Policy Arg Stored) (lg_size num_possible_dests : ℕ)
    (rank_from_index : ℕ → ℕ) (lawful : Lawful policy (get_size lg_size)) where
  abbrev pub size : ℕ
  size = get_size lg_size

  -- Something stored as `v` was passed on to `d`.
  abbrev pub Known : Stored → ℕ → List (Arg × ℕ) → Type 0
  Known v d sent =
      (before : List (Arg × ℕ)) × (after : List (Arg × ℕ)) × (b : Arg) × (sent
        ≡ before ++ (b, d) ∷ after)
      × (policy.stored_value b ≡ v)

  abbrev pub Good : ℕ → Stored → List (Arg × ℕ) → Type 0
  Good c v sent = (policy.hash v size ≢ c % size) ⊎ Known v (rank_from_index (c / size)) sent

  pub record Inv (s : Layer Arg Stored) : Type 0 where
    pub starts :
        (d p : ℕ)
        → s.start_ptrs d ≡ some p
        → (i : ℕ) × (i < num_possible_dests) × (p ≡ i * size) × (rank_from_index i ≡ d)
    pub cells : (c : ℕ) → c < num_possible_dests * size → Good c (s.cache c) s.sent

  Known-append :
      (v : Stored) (d : ℕ) (sent more : List (Arg × ℕ)) → Known v d sent → Known v d (sent ++ more)
  Known-append v d sent more (before, after, b, e, same) = (
    before,
    after ++ more,
    b,
    ap (λ (l : List (Arg × ℕ)). l ++ more) e ∙ append_assoc before ((b, d) ∷ after) more,
    same,
  )

  Good-append :
      (c : ℕ) (v : Stored) (sent more : List (Arg × ℕ)) → Good c v sent → Good c v (sent ++ more)
  Good-append c v sent more (inl n) = inl n
  Good-append c v sent more (inr k) = inr (Known-append v _ sent more k)

  store-Good :
      (f : ℕ → Stored) (i : ℕ) (v : Stored) (sent : List (Arg × ℕ)) (c : ℕ)
      → Good i v sent
      → ((i == c) ≡ false → Good c (f c) sent)
      → Good c (store f i v c) sent
  store-Good f i v sent c g h =
      store-cases (λ w. Good c w sent) f i v c (λ e. subst (λ n. Good n v sent) e g) h

  pub clear_cells-Good :
      (n : ℕ) (cache : ℕ → Stored) (sent : List (Arg × ℕ)) (c : ℕ)
      → c < n
      → 0 < size
      → Good c (clear_cells policy lg_size num_possible_dests rank_from_index n cache c) sent
  unfolding clear_cells
  clear_cells-Good zero cache sent c lt some_cell = ground (arith, lt)
  clear_cells-Good (suc n) cache sent c lt some_cell =
      store-Good (clear_cells policy lg_size num_possible_dests rank_from_index n cache) n _ sent c
        (inl (lawful.dummy (n % size) (mod-lt n some_cell)))
        (λ away. clear_cells-Good n cache sent c (ground (arith, away, lt)) some_cell)

  pub set_starts-Starts :
      (n d p : ℕ)
      → set_starts policy lg_size num_possible_dests rank_from_index n d ≡ some p
      → (i : ℕ) × (i < n) × (p ≡ i * size) × (rank_from_index i ≡ d)
  unfolding set_starts
  set_starts-Starts zero d p e = ground (arith, e)
  set_starts-Starts (suc n) d p e = elim (Bool-cases (rank_from_index n == d)) [
    | inl here ↦ (n, omega arith, ground (arith, e, here), ground (arith, here))
    | inr away ↦
        let (i, lt, at, r) = set_starts-Starts n d p (ground (arith, e, away)) in
        (i, omega (arith, lt), at, r)
  ]

  pub set_starts-some :
      (n i : ℕ)
      → i < n
      → (p : ℕ) × (set_starts policy lg_size num_possible_dests rank_from_index n
            (rank_from_index i)
          ≡ some p)
  unfolding set_starts
  set_starts-some zero i lt = ground (arith, lt)
  set_starts-some (suc n) i lt = elim (Bool-cases (rank_from_index n == rank_from_index i)) [
    | inl here ↦ (n * size, rw here refl)
    | inr away ↦ elim (dec_lt i n) [
      | yes sooner ↦ let (p, e) = set_starts-some n i sooner in (p, rw away e)
      | no later ↦
          let last : i ≡ n = omega (arith, lt, later) in
          ground (arith, away, ap rank_from_index last)
    ]
  ]

  -- Writing a message's value to its cell, where that value has been passed on.
  module _ (i : ℕ) (a : Arg) (d : ℕ) (s : Layer Arg Stored) (inv : Inv s)
      (lt : i < num_possible_dests) (here : rank_from_index i ≡ d) where
    abbrev key : ℕ
    key = policy.hash (policy.stored_value a) size

    abbrev cell : ℕ
    cell = i * size + key

    owner : rank_from_index (cell / size) ≡ d
    owner =
        ap rank_from_index (row_parts size i key (lawful.in_range (policy.stored_value a))).1 ∙ here

    place-Inv :
        (sent' : List (Arg × ℕ))
        → ((v : Stored) (e : ℕ) → Known v e s.sent → Known v e sent')
        → Known (policy.stored_value a) d sent'
        → Inv (record s { cache = store s.cache cell (policy.stored_value a); sent = sent' })
    place-Inv sent' grow known = record {
      starts = inv.starts;
      cells = λ c inside.
          store-Good s.cache cell (policy.stored_value a) sent' c
            (inr (subst (λ e. Known (policy.stored_value a) e sent') (sym owner) known))
            (λ away. elim (inv.cells c inside) [ inl n ↦ inl n | inr k ↦ inr (grow _ _ k) ]);
    }

    matched-Known : policy.matches a (s.cache cell) ≡ true → Known (policy.stored_value a) d s.sent
    matched-Known m =
        let small = lawful.in_range (policy.stored_value a) in
        let same = lawful.exact a (s.cache cell) m in
        elim (inv.cells cell (row-lt num_possible_dests size i key lt small)) [
          | inl n ↦
              absurd (n (ap (λ v. policy.hash v size) same ∙ sym (row_parts size i key small).0))
          | inr k ↦
              subst (λ v. Known v d s.sent) same
                (subst (λ e. Known (s.cache cell) e s.sent) owner k)
        ]

  -- What a step keeps: the invariant, and what was known before.
  pub record Keeps (s s' : Layer Arg Stored) : Type 0 where
    pub inv : Inv s'
    pub same : s'.start_ptrs ≡ s.start_ptrs
    pub ranks : s'.num_ranks ≡ s.num_ranks
    pub grow : (v : Stored) (e : ℕ) → Known v e s.sent → Known v e s'.sent

  pub send_at-Keeps :
      (i : ℕ) (a : Arg) (d : ℕ) (s : Layer Arg Stored)
      → Inv s
      → i < num_possible_dests
      → rank_from_index i ≡ d
      → let s' = send_at policy lg_size num_possible_dests rank_from_index (i * size) a d s in
        Keeps s s' × Known (policy.stored_value a) d s'.sent
  unfolding send_at
  send_at-Keeps i a d s inv lt here =
      elim (Bool-cases
        (policy.matches a (s.cache (i * size + policy.hash (policy.stored_value a) size)))) [
          | inl m ↦
              let known = matched-Known i a d s inv lt here m in
              rw m (
                record {
                  inv = place-Inv i a d s inv lt here s.sent (λ v e k. k) known;
                  same = refl;
                  ranks = refl;
                  grow = λ v e k. k;
                },
                known,
              )
          | inr m ↦
              let known : Known (policy.stored_value a) d (s.sent ++ (a, d) ∷ []) =
                (s.sent, [], a, refl, refl) in
              let grow = λ (v : Stored) (e : ℕ). Known-append v e s.sent ((a, d) ∷ []) in
              rw m (
                record {
                  inv = place-Inv i a d s inv lt here (s.sent ++ (a, d) ∷ []) grow known;
                  same = refl;
                  ranks = refl;
                  grow = grow;
                },
                known,
              )
        ]
