-- ===== src/Detail/AppendBuffer/Tests.antt =====
-- am++/detail/append_buffer.hpp: tests, with 16 slots in the first chunk.
use ampp.Prelude.{ℕ, ◌+◌, ◌^◌, ◌≤◌, ◌<◌, ◌≡◌, refl, arith, pos, negsuc}
use ampp.Detail.AppendBuffer.{
  Iter, chunk_size, chunk_offset, pos_to_chunk_num, advance_by, iterator_at, carry, forward_dist,
}
use ampp.Detail.AppendBuffer.Position.{start, extent, pos_to_chunk_num_unique}
use ampp.Detail.AppendBuffer.Iterator.{advance_by-round_trip, index}

-- Position 100 is slot 36 of chunk 3, which begins at 64.
hundred : iterator_at 16 100 ≡ record { current_chunk_num = 3; offset_in_chunk = 36 }
unfolding iterator_at carry forward_dist chunk_size
hundred = refl

pos_to_chunk_num_unique_example :
    (chunk_offset 16 (pos_to_chunk_num 16 100) ≤ 100)
    × (100 < chunk_offset 16 (pos_to_chunk_num 16 100) + chunk_size 16 (pos_to_chunk_num 16 100))
    × ((c : ℕ)
        → start 16 c + extent 16 c < 2 ^ 64
        → chunk_offset 16 c ≤ 100
        → 100 < chunk_offset 16 c + chunk_size 16 c
        → c ≡ pos_to_chunk_num 16 100)
pos_to_chunk_num_unique_example =
    pos_to_chunk_num_unique 16 100 (omega arith) (omega arith) (omega arith)

abbrev near_end : Iter
near_end = record { current_chunk_num = 0; offset_in_chunk = 15 }

advance_by-round_trip_example :
    (index 16 (advance_by 16 (pos 40) near_end) ≡ index 16 near_end + 40)
    × (advance_by 16 (negsuc 39) (advance_by 16 (pos 40) near_end) ≡ near_end)
advance_by-round_trip_example =
    advance_by-round_trip 16 (omega arith) (omega arith) near_end 39 (unfold extent in omega arith)
      (unfold start in omega arith)

abbrev next_chunk : Iter
next_chunk = record { current_chunk_num = 1; offset_in_chunk = 0 }
