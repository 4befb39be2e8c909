-- ===== src/Detail/IdAssigner.antt =====
-- am++/detail/id_assigner.hpp: small integers handed out, returned and handed out again.
-- The free list is a stack: its head is the back of the vector. Numbers are 32 bits wide.
pub mod Unique
mod Tests
use ampp.Prelude.{ℕ, ◌+◌, ◌-◌, ◌%◌, ◌^◌, List, [], ◌∷◌, ◌==◌, if◌then◌else◌}

abbrev u32 : ℕ → ℕ
u32 n = n % 2 ^ 32

pub record IdAssigner : Type 0 where
  pub highest_ever_assigned_plus_one : ℕ
  pub free_values : List ℕ

pub init : IdAssigner
init = record { highest_ever_assigned_plus_one = 0; free_values = [] }

pub allocate : IdAssigner → ℕ × IdAssigner
allocate s = elim s.free_values [
  | [] ↦ (
    s.highest_ever_assigned_plus_one,
    record s { highest_ever_assigned_plus_one = u32 (s.highest_ever_assigned_plus_one + 1) },
  )
  | v ∷ rest ↦ (v, record s { free_values = rest })
]

pub free : IdAssigner → ℕ → IdAssigner
free s v =
    if u32 (v + 1) == s.highest_ever_assigned_plus_one
    then record s {
      highest_ever_assigned_plus_one = u32 (s.highest_ever_assigned_plus_one + 2 ^ 32 - 1);
    }
    else record s { free_values = v ∷ s.free_values }
