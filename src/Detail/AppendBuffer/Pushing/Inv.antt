-- ===== src/Detail/AppendBuffer/Pushing/Inv.antt =====
-- am++/detail/append_buffer.hpp, push_back by several threads: how the buffer and the threads agree.
use ampp.Prelude.{
  ℕ, ◌+◌, ◌-◌, ◌^◌, ◌≤◌, ◌<◌, ◌≡◌, ◌≢◌, List, [], ◌∷◌, Option, none, some, ◌==◌, ltb, if◌then◌else◌,
  All, arith,
}
use ampp.Prelude.Sums.{sum, sum_mono}
use ampp.Detail.AppendBuffer.{chunk_offset, chunk_size, pos_to_chunk_num}
use ampp.Detail.AppendBuffer.Position.{
  start, chunk_unique, chunk_offset-start, chunk_size-extent, extent-le, extent-pos,
  pos_to_chunk_num-bounds,
}
use ampp.Detail.AppendBuffer.Pushing.{
  Buffer, Pusher, idle, claiming, allocating, waiting, storing, elem,
}

module _ {A : Type 0} (init : ℕ) where
  -- About to claim an index.
  unfoldable pub claims : Pusher A → ℕ
  claims (claiming x) = 1
  claims _ = 0

  -- Has index `i`.
  unfoldable pub uses : ℕ → Pusher A → ℕ
  uses i (allocating x j) = if j == i then 1 else 0
  uses i (waiting x j) = if j == i then 1 else 0
  uses i (storing x j) = if j == i then 1 else 0
  uses i _ = 0

  -- Is to allocate chunk `c`.
  unfoldable pub allocates : ℕ → Pusher A → ℕ
  allocates c (allocating x j) = if pos_to_chunk_num init j == c then 1 else 0
  allocates c _ = 0

  abbrev pub present : Option (ℕ → A) → ℕ
  present none = 0
  present (some chunk) = 1

  -- Is to store into a chunk that is not there.
  unfoldable pub strays : (ℕ → Option (ℕ → A)) → Pusher A → ℕ
  strays ptrs (storing x j) = 1 - present (ptrs (pos_to_chunk_num init j))
  strays ptrs _ = 0

  -- How many calls have returned index `i`.
  abbrev pub returns : ℕ → List (ℕ × A) → ℕ
  returns i rs = sum (λ r. if r.0 == i then 1 else 0) rs

  -- Every index given out is one thread's, or one call's that returned; every chunk that an index
  -- reaches is there or about to be allocated by one thread; what was pushed is in its place. Of
  -- `calls` calls, as many as the size and the claiming threads have been made.
  pub record Inv (calls : ℕ) (ws : List (Pusher A)) (b : Buffer A) : Type 0 where
    pub made : b.current_size + sum claims ws ≤ calls
    pub once :
        (i : ℕ) → sum (uses i) ws + returns i b.returned ≡ (if ltb i b.current_size then 1 else 0)
    pub chunks :
        (c : ℕ)
        → sum (allocates c) ws + present (b.chunk_ptrs c)
          ≡ (if ltb (start init c) b.current_size then 1 else 0)
    pub sits : sum (strays b.chunk_ptrs) ws ≡ 0
    pub placed : All (λ (r : ℕ × A). elem init b.chunk_ptrs r.0 ≡ some r.1) b.returned

  -- Where a chunk is, another write to the table does not make a thread stray.
  pub sum-strays :
      (ptrs ptrs' : ℕ → Option (ℕ → A))
      → ((c : ℕ) → present (ptrs c) ≤ present (ptrs' c))
      → (ws : List (Pusher A)) → sum (strays ptrs) ws ≡ 0
      → sum (strays ptrs') ws ≡ 0
  unfolding strays
  sum-strays ptrs ptrs' more ws e = omega (arith, e, sum_mono (strays ptrs') (strays ptrs) fewer ws)
    where
      fewer : (w : Pusher A) → strays ptrs' w ≤ strays ptrs w
      fewer idle = omega arith
      fewer (claiming x) = omega arith
      fewer (allocating x j) = omega arith
      fewer (waiting x j) = omega arith
      fewer (storing x j) = omega (arith, more (pos_to_chunk_num init j))

  -- Elements at other indices.
  pub All-elsewhere :
      (P Q : ℕ × A → Type 0) (j : ℕ)
      → ((r : ℕ × A) → r.0 ≢ j → P r → Q r)
      → (rs : List (ℕ × A)) → returns j rs ≡ 0
      → All P rs
      → All Q rs
  All-elsewhere P Q j keeps [] e h = tt
  All-elsewhere P Q j keeps (r ∷ rs) e h =
      (keeps r (ground (arith, e)) h.0, All-elsewhere P Q j keeps rs (ground (arith, e)) h.1)

-- Where the chunk of an index begins, and that no other chunk begins at it.
pub chunk_start :
    (init i : ℕ)
    → 0 < init
    → init < 2 ^ 64
    → i < 2 ^ 64
    → (chunk_offset init (pos_to_chunk_num init i) ≡ start init (pos_to_chunk_num init i))
      × (start init (pos_to_chunk_num init i) ≤ i)
      × (i - start init (pos_to_chunk_num init i) < chunk_size init (pos_to_chunk_num init i))
      × ((c : ℕ) → start init c ≡ i → c ≡ pos_to_chunk_num init i)
chunk_start init i p small fits =
    let c = pos_to_chunk_num init i in
    let (lo, hi) = pos_to_chunk_num-bounds init i p in
    let begins = chunk_offset-start init c (omega (arith, lo, fits)) in
    let ends = chunk_size-extent init c (omega (arith, extent-le init c, lo, small, fits)) in
    (
      begins,
      lo,
      omega (arith, ends, hi, lo),
      λ d e.
          chunk_unique init i d c (omega (arith, e), omega (arith, e, extent-pos init d p))
            (lo, hi),
    )
