-- ===== src/Transport/Flush/Tests.antt =====
-- src/transport.cpp, transport_base: tests.
use ampp.Prelude.{
  ℕ, zero, suc, ◌<◌, ◌≡◌, refl, Bool, true, false, List, [], ◌∷◌, ◌++◌, some, arith, if◌then◌else◌,
  All,
}
use ampp.Messaging.TaskResult.{tr_idle, tr_busy}
use ampp.Transport.Flush.{Transport, flush, add_flush_object}
use ampp.Transport.Flush.Drain.{weigh, Lighter, any_called, kept, Called, flush-ends}

-- Object 2 adds object 1 and is done; the others stay.
abbrev act : ℕ → Transport ℕ Unit → Bool × Transport ℕ Unit
unfolding add_flush_object
act (suc (suc zero)) t = (false, add_flush_object 1 t)
act f t = (true, t)

abbrev extra : ℕ → Transport ℕ Unit → List ℕ
extra (suc (suc zero)) t = 1 ∷ []
extra f t = []

act_queue :
    (f : ℕ) (t : Transport ℕ Unit) → (act f t).1.flushes_needed ≡ extra f t ++ t.flushes_needed
unfolding add_flush_object
act_queue zero t = refl
act_queue (suc zero) t = refl
act_queue (suc (suc zero)) t = refl
act_queue (suc (suc (suc f))) t = refl

act_lighter : (f : ℕ) (t : Transport ℕ Unit) → weigh (λ n. suc n) (extra f t) < suc f
act_lighter zero t = omega arith
act_lighter (suc zero) t = omega arith
act_lighter (suc (suc zero)) t = omega arith
act_lighter (suc (suc (suc f))) t = omega arith

act_log : (f : ℕ) (t : Transport ℕ Unit) → (act f t).1.calls ≡ t.calls
unfolding add_flush_object
act_log zero t = refl
act_log (suc zero) t = refl
act_log (suc (suc zero)) t = refl
act_log (suc (suc (suc f))) t = refl

act-Lighter : Lighter (λ n. suc n) act
act-Lighter = record { added = extra; queue = act_queue; lighter = act_lighter; log = act_log }

abbrev two : Transport ℕ Unit
two = record { flushes_needed = 2 ∷ 7 ∷ []; world = tt; calls = [] }

flush-ends_example :
    (t : Transport ℕ Unit) × (new : List (ℕ × Bool)) × (flush act 11 two
      ≡ some (if any_called new then tr_busy else tr_idle, t))
    × (t.calls ≡ new)
    × (t.flushes_needed ≡ kept new [])
    × All (Called new) (2 ∷ 7 ∷ [])
flush-ends_example = flush-ends (λ n. suc n) act act-Lighter 11 two (omega arith)
