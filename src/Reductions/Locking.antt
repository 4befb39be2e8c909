-- ===== src/Reductions/Locking.antt =====
-- am++/reductions.hpp, locking_cache_binop_reduction: a direct-mapped cache for each rank, in which
-- messages with the same key are combined, with a spinlock for each cell. One thread runs at a time.
-- What is passed on to the coalescing layer is kept in `sent`, and the destinations for which it was
-- told that a message is being built, and the transport to flush, in `flush_objects`. `from_size` is
-- the conversion of a hash to a key. `none` is a failed assertion, a wait for a lock that is held, or
-- a search for a dummy value that has run out of fuel.
pub mod Steps
pub mod Conserved
pub mod Flushed
pub mod Programs
pub mod Forgotten
mod Tests
use ampp.Prelude.{
  ℕ, zero, suc, ◌+◌, ◌*◌, ◌%◌, Bool, true, false, ◌&&◌, ◌||◌, not, List, [], ◌∷◌, ◌++◌, Option,
  none, some, ◌==◌, if◌then◌else◌, store,
}
use ampp.Reductions.Combine.{Policy, get_size, get_bucket, get_dummy_value, is_identity}

pub record Layer (Arg : Type 0) : Type 0 where
  pub locks : ℕ → ℕ
  pub values : ℕ → Arg
  pub any_filled_entries : ℕ
  pub sent : List (Arg × ℕ)
  pub flush_objects : List ℕ

-- What a program does with the layer.
pub data Op (Arg : Type 0) : Type 0 where
  to_send : Arg → ℕ → Op Arg
  to_flush : ℕ → Op Arg

module _ {Arg : Type 0} where
  pub lock_spinlock : ℕ → Layer Arg → Option (Layer Arg)
  lock_spinlock i s = if s.locks i == 0 then some (record s { locks = store s.locks i 1 }) else none

  pub unlock_spinlock : ℕ → Layer Arg → Option (Layer Arg)
  unlock_spinlock i s =
      if s.locks i == 1 then some (record s { locks = store s.locks i 0 }) else none

  -- A cell whose lock is taken is written, and the lock given back.
  written : ℕ → Arg → Option (Layer Arg) → Option (Layer Arg)
  unfolding unlock_spinlock
  written i kv none = none
  written i kv (some s) = unlock_spinlock i (record s { values = store s.values i kv })

  pub exchange : ℕ → Arg → Layer Arg → Option (Layer Arg)
  unfolding lock_spinlock written
  exchange i kv s = written i kv (lock_spinlock i s)

  -- cl.send
  pub pass_on : Arg → ℕ → Layer Arg → Layer Arg
  pass_on kv dest s = record s { sent = s.sent ++ (kv, dest) ∷ [] }

  -- any_filled_entries.exchange(1), and what follows if it was 0.
  pub mark_filled : ℕ → Layer Arg → Layer Arg
  mark_filled dest s = record s {
    any_filled_entries = 1;
    flush_objects =
        if s.any_filled_entries == 0 then s.flush_objects ++ dest ∷ [] else s.flush_objects;
  }

module _ {Arg Key Value : Type 0} (policy : Policy Arg Key Value) (from_size : ℕ → Key)
    (lg_size fuel : ℕ) where
  abbrev pub bucket : Key → ℕ
  bucket k = get_bucket policy (get_size lg_size) k

  -- Whether a message found in cell `h` is to be passed on.
  pub is_held : ℕ → Arg → Bool
  is_held h kv = (bucket (policy.get_key kv) == h) && not (is_identity policy kv)

  -- After `a` has taken the place of `old_kv`.
  pub replaced : ℕ → Arg → ℕ → Layer Arg → Layer Arg
  unfolding is_held pass_on mark_filled
  replaced h old_kv dest s = if is_held h old_kv then pass_on old_kv dest s else mark_filled dest s

  after_replaced : ℕ → Arg → ℕ → Option (Layer Arg) → Option (Layer Arg)
  unfolding replaced
  after_replaced h old_kv dest none = none
  after_replaced h old_kv dest (some s) = some (replaced h old_kv dest s)

  pub send : Arg → ℕ → Layer Arg → Option (Layer Arg)
  unfolding exchange after_replaced
  send a dest s =
      let a_key = policy.get_key a in
      let h = bucket (from_size (policy.hash_key a_key)) in
      let index = dest * get_size lg_size + h in
      let old_kv = s.values index in
      let new_value = policy.combine (policy.get_value old_kv) (policy.get_value a) in
      if policy.same_key a_key (policy.get_key old_kv)
      then exchange index (policy.make_keyval a_key new_value) s
      else after_replaced h old_kv dest (exchange index a s)

  taken : ℕ → Arg → ℕ → Option (Layer Arg) → Option (Bool × Layer Arg)
  unfolding is_held pass_on
  taken h old_kv dest none = none
  taken h old_kv dest (some s) =
      if is_held h old_kv then some (true, pass_on old_kv dest s) else some (false, s)

  flush_with : Option Key → ℕ → ℕ → Layer Arg → Option (Bool × Layer Arg)
  unfolding taken exchange
  flush_with none dest h s = none
  flush_with (some k) dest h s =
      let index = dest * get_size lg_size + h in
      taken h (s.values index) dest (exchange index (policy.make_keyval k policy.default_value) s)

  -- One round of the loop of `flush`.
  pub flush_cell : ℕ → ℕ → Layer Arg → Option (Bool × Layer Arg)
  unfolding flush_with
  flush_cell dest h s = flush_with (get_dummy_value policy fuel (get_size lg_size) h) dest h s

  did_or : Bool → Option (Bool × Layer Arg) → Option (Bool × Layer Arg)
  did_or did none = none
  did_or did (some (did', s)) = some (did || did', s)

  next_cell : ℕ → ℕ → Option (Bool × Layer Arg) → Option (Bool × Layer Arg)
  unfolding flush_cell did_or
  next_cell dest h none = none
  next_cell dest h (some (did, s)) = did_or did (flush_cell dest h s)

  -- The loop over the first cells.
  pub flush_cells : ℕ → ℕ → Layer Arg → Option (Bool × Layer Arg)
  unfolding next_cell
  flush_cells dest zero s = some (false, s)
  flush_cells dest (suc h) s = next_cell dest h (flush_cells dest h s)

  emptied : Option (Bool × Layer Arg) → Option (Bool × Layer Arg)
  emptied none = none
  emptied (some (did, s)) = some (did, record s { any_filled_entries = 0 })

  pub flush : ℕ → Layer Arg → Option (Bool × Layer Arg)
  unfolding flush_cells emptied
  flush dest s = emptied (flush_cells dest (get_size lg_size) s)

  -- The constructor leaves the cells unlocked; `clear` fills them with dummy values.
  clear_with : Option Key → ℕ → Layer Arg → Option (Layer Arg)
  clear_with none i s = none
  clear_with (some k) i s = some (record s {
    locks = store s.locks i 0;
    values = store s.values i (policy.make_keyval k policy.default_value);
  })

  clear_cell : ℕ → Option (Layer Arg) → Option (Layer Arg)
  unfolding clear_with
  clear_cell i none = none
  clear_cell i (some s) =
      clear_with (get_dummy_value policy fuel (get_size lg_size) (i % get_size lg_size)) i s

  clear_cells : ℕ → Layer Arg → Option (Layer Arg)
  unfolding clear_cell
  clear_cells zero s = some s
  clear_cells (suc i) s = clear_cell i (clear_cells i s)

  unmarked : Option (Layer Arg) → Option (Layer Arg)
  unmarked none = none
  unmarked (some s) = some (record s { any_filled_entries = 0 })

  pub clear : ℕ → Layer Arg → Option (Layer Arg)
  unfolding clear_cells unmarked
  clear nranks s = unmarked (clear_cells (get_size lg_size * nranks) s)

  -- The constructor: new locks and cells hold what they happen to hold.
  pub init : ℕ → (ℕ → ℕ) → (ℕ → Arg) → Option (Layer Arg)
  unfolding clear
  init nranks locks fresh = clear nranks (record {
    locks = locks;
    values = fresh;
    any_filled_entries = 0;
    sent = [];
    flush_objects = [];
  })

  layer_of : Option (Bool × Layer Arg) → Option (Layer Arg)
  layer_of none = none
  layer_of (some (did, s)) = some s

  pub step_from : Option (Layer Arg) → Op Arg → Option (Layer Arg)
  unfolding send flush layer_of
  step_from none op = none
  step_from (some s) (to_send a dest) = send a dest s
  step_from (some s) (to_flush dest) = layer_of (flush dest s)

  pub run : Option (Layer Arg) → List (Op Arg) → Option (Layer Arg)
  unfolding step_from
  run r [] = r
  run r (op ∷ ops) = run (step_from r op) ops
