-- ===== src/Addressing/Ranks.antt =====
-- am++/transport.hpp, valid_rank_set_base and all_ranks, and am++/object_based_addressing.hpp,
-- all_ranks_except_me: sets of ranks. Ranks are 64 bits wide. `none` is a failed assertion.
use ampp.Prelude.{ℕ, ◌+◌, ◌-◌, ◌%◌, ◌^◌, Bool, ◌&&◌, not, Option, some, ltb, ◌==◌, if◌then◌else◌}

pub record RankSet : Type 0 where
  pub is_valid : ℕ → Bool
  pub count : ℕ
  pub rank_from_index : ℕ → Option ℕ

-- Addition, subtraction and negation of ranks.
unfoldable pub add64 : ℕ → ℕ → ℕ
add64 a b = (a + b) % 2 ^ 64

unfoldable pub sub64 : ℕ → ℕ → ℕ
sub64 a b = (a + 2 ^ 64 - b) % 2 ^ 64

unfoldable pub neg64 : ℕ → ℕ
unfolding sub64
neg64 a = sub64 0 a

unfoldable pub all_ranks : ℕ → RankSet
all_ranks size = record {
  is_valid = λ r. ltb r size;
  count = size;
  rank_from_index = λ idx. some idx;
}

unfoldable pub all_ranks_except_me : ℕ → ℕ → RankSet
unfolding sub64 add64
all_ranks_except_me rank size = record {
  is_valid = λ r. ltb r size && not (r == rank);
  count = sub64 size 1;
  rank_from_index = λ idx. some (if ltb idx rank then idx else add64 idx 1);
}
