-- ===== src/Detail/BufferCache/Tests.antt =====
-- am++/detail/buffer_cache.hpp, buffer_cache: tests, with addresses in steps of eight.
use ampp.Prelude.{ℕ, ◌+◌, ◌*◌, ◌≤◌, ◌≡◌, ◌≢◌, refl, List, [], ◌∷◌, some, arith}
use ampp.Detail.BufferCache.{Handle, Cache, Op, ask, give, new_cache, run}
use ampp.Detail.BufferCache.Exclusive.{pointer_count, run-exclusive}

abbrev address : ℕ → ℕ
address i = 8 * i + 8

address_nonnull : (i : ℕ) → address i ≢ 0
address_nonnull i e = omega (arith, e)

address_fresh : (i j : ℕ) → address i ≡ address j → i ≡ j
address_fresh i j e = omega (arith, e)

abbrev program : List Op
program = ask ∷ ask ∷ give 1 ∷ ask ∷ ask ∷ []

run-exclusive_example :
    (hs : List Handle) × (s : Cache) × (run address 64 (some ([], new_cache)) program
      ≡ some (hs, s))
    × ((i : ℕ) → pointer_count (address i) hs ≤ 1)
run-exclusive_example =
    run-exclusive address address_nonnull address_fresh 64 program refl (omega arith)
