-- ===== src/Detail/IdAssigner/Unique.antt =====
-- am++/detail/id_assigner.hpp: the assigner together with the identifiers that its clients hold.
use Prim.Native.Nat.{max}
use ampp.Prelude.{
  ℕ, ◌+◌, ◌^◌, ◌≤◌, ◌<◌, ◌≡◌, refl, List, [], ◌∷◌, arith, length, count, ltb, ◌==◌, if◌then◌else◌,
}
use ampp.Detail.IdAssigner.{IdAssigner, init, allocate, free}

-- The live identifiers without the first `v`.
unfoldable pub remove : ℕ → List ℕ → List ℕ
remove v [] = []
remove v (x ∷ xs) = if x == v then xs else x ∷ remove v xs

count-remove :
    (a v : ℕ) (xs : List ℕ)
    → 0 < count v xs
    → count a (remove v xs) + (if v == a then 1 else 0) ≡ count a xs
unfolding remove
count-remove a v [] h = absurd (omega arith)
count-remove a v (x ∷ xs) h = ground (arith, count-remove a v xs)

length-remove : (v : ℕ) (xs : List ℕ) → 0 < count v xs → length (remove v xs) + 1 ≡ length xs
unfolding remove
length-remove v [] h = absurd (omega arith)
length-remove v (x ∷ xs) h = ground (arith, length-remove v xs)

-- Below the high-water mark each number is live once or free once, and above it neither.
pub record Inv (s : IdAssigner) (live : List ℕ) : Type 0 where
  pub exact :
      (a : ℕ)
      → count a live + count a s.free_values
        ≡ (if ltb a s.highest_ever_assigned_plus_one then 1 else 0)
  pub total : length live + length s.free_values ≡ s.highest_ever_assigned_plus_one
  pub fits : s.highest_ever_assigned_plus_one < 2 ^ 32

init-Inv : Inv init []
unfolding init
init-Inv = record { exact = λ a. ground arith; total = refl; fits = omega arith }

-- `allocate` returns a number that is not live, and keeps the invariant with it live.
allocate-Inv :
    (s : IdAssigner) (live : List ℕ)
    → s.highest_ever_assigned_plus_one + 1 < 2 ^ 32
    → Inv s live
    → (count (allocate s).0 live ≡ 0) × Inv (allocate s).1 ((allocate s).0 ∷ live)
unfolding allocate
allocate-Inv s live room v = (
  ground (arith, v.exact (allocate s).0),
  record {
    exact = λ a. ground (arith, v.exact a);
    total = ground (arith, v.total);
    fits = ground (arith, v.fits);
  },
)

free-Inv :
    (s : IdAssigner) (live : List ℕ) (v : ℕ)
    → 0 < count v live
    → Inv s live
    → Inv (free s v) (remove v live)
unfolding free
free-Inv s live v held inv = record {
  exact = λ a. ground (arith, inv.exact a, inv.exact v, inv.fits, count-remove a v live held);
  total = ground (arith, inv.total, inv.exact v, inv.fits, length-remove v live held);
  fits = ground (arith, inv.fits);
}

-- The states that clients reach who free only what they hold, with the live numbers and the
-- largest number of them at one time.
pub data Reach : IdAssigner → List ℕ → ℕ → Type 0 where
  start : Reach init [] 0
  allocated :
      {s : IdAssigner} {live : List ℕ} {peak : ℕ}
      → Reach s live peak
      → s.highest_ever_assigned_plus_one + 1 < 2 ^ 32
      → Reach (allocate s).1 ((allocate s).0 ∷ live) (max peak (length live + 1))
  freed :
      {s : IdAssigner} {live : List ℕ} {peak : ℕ}
      → Reach s live peak
      → (v : ℕ) → 0 < count v live
      → Reach (free s v) (remove v live) peak

Reach-Inv : {s : IdAssigner} {live : List ℕ} {peak : ℕ} → Reach s live peak → Inv s live
Reach-Inv start = init-Inv
Reach-Inv (allocated {s} {live} r room) = (allocate-Inv s live room (Reach-Inv r)).1
Reach-Inv (freed {s} {live} r v held) = free-Inv s live v held (Reach-Inv r)

high-allocate-le :
    (s : IdAssigner) (live : List ℕ) (peak : ℕ)
    → Inv s live
    → s.highest_ever_assigned_plus_one + 1 < 2 ^ 32
    → s.highest_ever_assigned_plus_one ≤ peak
    → (allocate s).1.highest_ever_assigned_plus_one ≤ max peak (length live + 1)
unfolding allocate
high-allocate-le s live peak v room h = ground (arith, v.total)

high-free-le :
    (s : IdAssigner) (live : List ℕ) (v : ℕ)
    → 0 < count v live
    → Inv s live
    → (free s v).highest_ever_assigned_plus_one ≤ s.highest_ever_assigned_plus_one
unfolding free
high-free-le s live v held inv = ground (arith, inv.exact v, inv.fits)

Reach-high-le :
    {s : IdAssigner} {live : List ℕ} {peak : ℕ}
    → Reach s live peak
    → s.highest_ever_assigned_plus_one ≤ peak
unfolding init
Reach-high-le start = omega arith
Reach-high-le (allocated {s} {live} {peak} r room) =
    high-allocate-le s live peak (Reach-Inv r) room (Reach-high-le r)
Reach-high-le (freed {s} {live} r v held) =
    omega (arith, high-free-le s live v held (Reach-Inv r), Reach-high-le r)

-- In every reachable state no number is held twice, and every held number is below the largest
-- number of identifiers that were ever held at one time.
pub Reach-unique_compact :
    {s : IdAssigner} {live : List ℕ} {peak : ℕ}
    → Reach s live peak
    → (a : ℕ) → (count a live ≤ 1) × (0 < count a live → a < peak)
Reach-unique_compact r a = (
  ground (arith, (Reach-Inv r).exact a),
  λ held. ground (arith, (Reach-Inv r).exact a, Reach-high-le r),
)
