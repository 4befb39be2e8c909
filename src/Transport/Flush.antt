-- ===== src/Transport/Flush.antt =====
-- src/transport.cpp, transport_base: the objects that are to be flushed when a rank is idle.
-- The vector is a stack: the head of the list is its back. What an object does when it is called is
-- the parameter `body`; it may add objects. The calls that were made are kept in `calls`, each with
-- its answer.
pub mod Drain
mod Tests
use ampp.Prelude.{
  ℕ, zero, suc, Bool, true, false, List, [], ◌∷◌, ◌++◌, Option, none, some, if◌then◌else◌,
}
use ampp.Messaging.TaskResult.{TaskResult, tr_idle, tr_busy}

pub record Transport (F S : Type 0) : Type 0 where
  pub flushes_needed : List F
  pub world : S
  pub calls : List (F × Bool)

module _ {F S : Type 0} where
  pub add_flush_object : F → Transport F S → Transport F S
  add_flush_object f t = record t { flushes_needed = f ∷ t.flushes_needed }

-- tmp.push_back, for an object that answers true.
abbrev pub keep : {F : Type 0} → Bool → F → List F → List F
keep true f tmp = f ∷ tmp
keep false f tmp = tmp

module _ {F S : Type 0} (body : F → Transport F S → Bool × Transport F S) where
  -- The call of an object that was taken off the back, with `rest` left.
  run_back : F → List F → Transport F S → Bool × Transport F S
  run_back f rest t =
      let (again, t') = body f (record t { flushes_needed = rest }) in
      (again, record t' { calls = t'.calls ++ (f, again) ∷ [] })

  -- while(true), on fuel. The list is the one of the objects that are needed at the time.
  drain : ℕ → List F → List F → Bool → Transport F S → Option (Bool × List F × Transport F S)
  unfolding run_back
  drain fuel [] tmp did_anything t = some (did_anything, tmp, t)
  drain zero (f ∷ rest) tmp did_anything t = none
  drain (suc fuel) (f ∷ rest) tmp did_anything t =
      let (again, t') = run_back f rest t in drain fuel t'.flushes_needed (keep again f tmp) true t'

  finish : Option (Bool × List F × Transport F S) → Option (TaskResult × Transport F S)
  finish none = none
  finish (some (did_anything, tmp, t)) = some (
    if did_anything then tr_busy else tr_idle,
    record t { flushes_needed = tmp ++ t.flushes_needed },
  )

  pub flush : ℕ → Transport F S → Option (TaskResult × Transport F S)
  unfolding drain finish
  flush fuel t = finish (drain fuel t.flushes_needed [] false t)
