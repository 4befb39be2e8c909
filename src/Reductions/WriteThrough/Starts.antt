-- ===== src/Reductions/WriteThrough/Starts.antt =====
-- am++/reductions.hpp, per_thread_wt_cache_binop_reduction: where the constructor's pointers lead.
use ampp.Prelude.{
  ℕ, zero, suc, ◌+◌, ◌*◌, ◌%◌, ◌/◌, ◌≤◌, ◌<◌, ◌≡◌, refl, sym, ap, ◌∙◌, true, false, Option, some,
  ◌==◌, ◌⊎◌, inl, inr, arith, Bool-cases, row_parts,
}
use native.Mathlib.Decide.{dec_lt}
use ampp.Reductions.Combine.{get_size}
use ampp.Reductions.WriteThrough.{Sizes, set_dests, set_starts, ranks_below}

pub ranks_below-lt :
    (n : ℕ) (rank_from_index : ℕ → ℕ) (m i : ℕ)
    → ranks_below n rank_from_index m ≡ true
    → i < m
    → rank_from_index i < n
unfolding ranks_below
ranks_below-lt n rank_from_index zero i e lt = absurd (omega (arith, lt))
ranks_below-lt n rank_from_index (suc m) i e lt = elim (dec_lt i m) [
  | yes sooner ↦ ranks_below-lt n rank_from_index m i (ground (arith, e)) sooner
  | no last ↦ let same : i ≡ m = omega (arith, lt, last) in rw same (ground (arith, e))
]

module _ (z : Sizes) (rank_from_index : ℕ → ℕ)
    (below : (i : ℕ) → i < z.num_possible_dests → rank_from_index i < z.num_ranks) where
  -- A pointer for thread `tid` and rank `d`, among the first `m` possible destinations.
  abbrev pub Start : ℕ → ℕ → ℕ → ℕ → Type 0
  Start m tid d p =
      (i : ℕ) × (i < m)
      × (p ≡ (tid * z.num_possible_dests + i) * get_size z.lg_size)
      × (rank_from_index i ≡ d)

  same_slot :
      (tid tid' d e : ℕ)
      → d < z.num_ranks
      → e < z.num_ranks
      → tid * z.num_ranks + d ≡ tid' * z.num_ranks + e
      → (tid ≡ tid') × (d ≡ e)
  same_slot tid tid' d e ld le h =
      let one = row_parts z.num_ranks tid d ld in
      let two = row_parts z.num_ranks tid' e le in
      (
        sym one.1 ∙ ap (λ n. n / z.num_ranks) h ∙ two.1,
        sym one.0 ∙ ap (λ n. n % z.num_ranks) h ∙ two.0,
      )

  set_dests-Start :
      (tid m : ℕ) (ptrs : ℕ → Option ℕ) (tid' d p : ℕ)
      → m ≤ z.num_possible_dests
      → d < z.num_ranks
      → set_dests z rank_from_index tid m ptrs (tid' * z.num_ranks + d) ≡ some p
      → ((tid ≡ tid') × Start m tid' d p) ⊎ (ptrs (tid' * z.num_ranks + d) ≡ some p)
  unfolding set_dests
  set_dests-Start tid zero ptrs tid' d p le ld e = inr e
  set_dests-Start tid (suc m) ptrs tid' d p le ld e =
      elim (Bool-cases ((tid * z.num_ranks + rank_from_index m) == (tid' * z.num_ranks + d))) [
        | inl here ↦
            let (et, ed) =
              same_slot tid tid' (rank_from_index m) d (below m (omega (arith, le))) ld
                (ground (arith, here)) in
            let at : (tid * z.num_possible_dests + m) * get_size z.lg_size ≡ p =
              ground (arith, e, here) in
            inl (
              et,
              (
                m,
                omega arith,
                sym at ∙ ap (λ t. (t * z.num_possible_dests + m) * get_size z.lg_size) et,
                ed,
              ),
            )
        | inr away ↦
            elim (set_dests-Start tid m ptrs tid' d p (omega (arith, le)) ld
              (ground (arith, e, away))) [
                | inl (et, (i, lt, at, er)) ↦ inl (et, (i, omega (arith, lt), at, er))
                | inr before ↦ inr before
              ]
      ]

  -- Every pointer leads to the row of its thread and its rank.
  pub set_starts-Start :
      (n tid d p : ℕ)
      → d < z.num_ranks
      → set_starts z rank_from_index n (tid * z.num_ranks + d) ≡ some p
      → Start z.num_possible_dests tid d p
  unfolding set_starts
  set_starts-Start zero tid d p ld e = ground (arith, e)
  set_starts-Start (suc n) tid d p ld e =
      elim (set_dests-Start n z.num_possible_dests (set_starts z rank_from_index n) tid d p
        (omega arith) ld e) [ inl h ↦ h.1 | inr before ↦ set_starts-Start n tid d p ld before ]

  earlier :
      (tid m : ℕ) (ptrs : ℕ → Option ℕ) (c i : ℕ)
      → (i < suc m) × (c ≡ tid * z.num_ranks + rank_from_index i) ⊎ ((q : ℕ) × (ptrs c ≡ some q))
      → ((tid * z.num_ranks + rank_from_index m) == c) ≡ false
      → (i < m) × (c ≡ tid * z.num_ranks + rank_from_index i) ⊎ ((q : ℕ) × (ptrs c ≡ some q))
  earlier tid m ptrs c i (inr h) away = inr h
  earlier tid m ptrs c i (inl (lt, e)) away = elim (dec_lt i m) [
    | yes sooner ↦ inl (sooner, e)
    | no later ↦
        let last : i ≡ m = omega (arith, lt, later) in
        let same = e ∙ ap (λ j. tid * z.num_ranks + rank_from_index j) last in
        ground (arith, away, same)
  ]

  set_dests-some :
      (tid m : ℕ) (ptrs : ℕ → Option ℕ) (c i : ℕ)
      → (i < m) × (c ≡ tid * z.num_ranks + rank_from_index i) ⊎ ((q : ℕ) × (ptrs c ≡ some q))
      → (p : ℕ) × (set_dests z rank_from_index tid m ptrs c ≡ some p)
  unfolding set_dests
  set_dests-some tid zero ptrs c i (inl h) = absurd (omega (arith, h.0))
  set_dests-some tid zero ptrs c i (inr h) = h
  set_dests-some tid (suc m) ptrs c i h =
      elim (Bool-cases ((tid * z.num_ranks + rank_from_index m) == c)) [
        | inl here ↦ ((tid * z.num_possible_dests + m) * get_size z.lg_size, rw here refl)
        | inr away ↦
            let (p, made) = set_dests-some tid m ptrs c i (earlier tid m ptrs c i h away) in
            (p, rw away made)
      ]

  -- Every thread has a pointer for every possible destination.
  pub set_starts-some :
      (n tid i : ℕ)
      → tid < n
      → i < z.num_possible_dests
      → (p : ℕ) × (set_starts z rank_from_index n (tid * z.num_ranks + rank_from_index i) ≡ some p)
  unfolding set_starts
  set_starts-some zero tid i lt li = absurd (omega (arith, lt))
  set_starts-some (suc n) tid i lt li = elim (dec_lt tid n) [
    | yes sooner ↦
        set_dests-some n z.num_possible_dests (set_starts z rank_from_index n)
          (tid * z.num_ranks + rank_from_index i) i (inr (set_starts-some n tid i sooner li))
    | no later ↦
        let last : tid ≡ n = omega (arith, lt, later) in
        set_dests-some n z.num_possible_dests (set_starts z rank_from_index n)
          (tid * z.num_ranks + rank_from_index i) i
          (inl (li, ap (λ t. t * z.num_ranks + rank_from_index i) last))
  ]
