-- ===== src/Detail/Signal/Tests.antt =====
-- am++/detail/signal.hpp: tests, with numbers for handlers.
use ampp.Prelude.{
  ℕ, ◌≡◌, refl, List, [], ◌∷◌, ◌++◌, map, Option, none, some, arith, ◌<◌, ◌==◌, if◌then◌else◌,
  length,
}
use ampp.Detail.Signal.{
  Signal, Act, attaches, detaches, current, new_signal, swap_in, attach, before, erase_first,
  swap_found, detach, act, acts, with_log, func, elem_at, call_from, call,
}
use ampp.Detail.Signal.Calls.{all_acts, call-acts}

abbrev two_handlers : Signal ℕ
two_handlers = attach 16 2 (attach 8 1 new_signal)

-- The first handler detaches the second and attaches another one.
abbrev body : ℕ → List (Act ℕ)
body h = if h == 1 then detaches 16 ∷ attaches 24 3 ∷ [] else []

two_attached : current two_handlers ≡ (8, 1) ∷ (16, 2) ∷ []
unfolding attach swap_in new_signal
two_attached = refl

below_next : two_handlers.sig < two_handlers.next
unfolding attach swap_in new_signal
below_next = omega arith

enough : length (current two_handlers) < 3
unfolding attach swap_in new_signal
enough = omega arith

call-acts_example :
    call 3 body two_handlers []
    ≡ with_log
        ([] ++ map (λ x. x.0) (current two_handlers))
        (acts (all_acts body (current two_handlers)) (some two_handlers))
call-acts_example = call-acts 3 body two_handlers [] below_next enough

abbrev attached : Option (Signal ℕ × List ℕ) → List (ℕ × ℕ)
attached none = []
attached (some (s, log)) = current s

-- The second handler is called though it has been detached.
attached-call : attached (call 3 body two_handlers []) ≡ (8, 1) ∷ (24, 3) ∷ []
unfolding call call_from func elem_at attach swap_in new_signal detach swap_found erase_first before
    act acts with_log
attached-call = refl
