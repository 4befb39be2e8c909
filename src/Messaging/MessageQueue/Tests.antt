-- ===== src/Messaging/MessageQueue/Tests.antt =====
-- am++/message_queue.hpp, message_queue: tests.
use ampp.Prelude.{ℕ, ◌≡◌, refl, true, List, [], ◌∷◌, some}
use ampp.Messaging.MessageQueue.{
  Queue, Op, sends, sends_range, receives, receives_all, init, run, quiet,
}
use ampp.Messaging.MessageQueue.Steps.{history}
use ampp.Messaging.MessageQueue.Order.{sent_all, run-history}

abbrev program : List (Op ℕ ℕ)
program =
    sends 5 ∷ receives 1 ∷ receives 2 ∷ sends_range (6 ∷ 7 ∷ []) ∷ receives_all 3 ∷ sends 8 ∷ []

-- Receiver 1 takes 5, receiver 2 takes 6, and receiver 3 takes the rest.
program_calls :
    run quiet init program
    ≡ some (record {
      messages = [];
      receivers_waiting = 3 ∷ [];
      receive_all_active = true;
      calls = (1, 5) ∷ (2, 6) ∷ (3, 7) ∷ (3, 8) ∷ [];
    })
unfolding run init
program_calls = refl

run-history_example :
    (q : Queue ℕ ℕ) × (run quiet init program ≡ some q) × (history q ≡ sent_all program)
run-history_example =
    run-history quiet program (λ k v q. refl) (tt, (refl, (refl, (tt, (refl, (tt, tt))))))
