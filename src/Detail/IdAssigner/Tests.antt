-- ===== src/Detail/IdAssigner/Tests.antt =====
-- am++/detail/id_assigner.hpp: tests.
use ampp.Prelude.{◌≤◌, ◌<◌, ◌≡◌, refl, [], ◌∷◌, arith, count}
use ampp.Detail.IdAssigner.{init, allocate, free}
use ampp.Detail.IdAssigner.Unique.{start, allocated, freed, Reach-unique_compact, remove}

-- Numbers 0, 1 and 2 are handed out, 0 comes back, and is handed out again.
reused : (allocate (free (allocate (allocate (allocate init).1).1).1 0)).0 ≡ 0
unfolding allocate free init
reused = refl

Reach-unique_compact_example : (count 0 (0 ∷ 1 ∷ []) ≤ 1) × (0 < count 0 (0 ∷ 1 ∷ []) → 0 < 2)
unfolding allocate free init remove
Reach-unique_compact_example =
    Reach-unique_compact
      (allocated (freed (allocated (allocated start (omega arith)) (omega arith)) 0 (omega arith))
        (omega arith))
      0
