-- ===== src/Coalescing/Sized/Tests.antt =====
-- am++/size_coalesced_message_type.hpp: tests. A message is its own size.
use ampp.Prelude.{ℕ, ◌≡◌, refl, true, [], ◌∷◌, arith}
use ampp.Coalescing.Sized.{flush_dest, Buffer, returned, waiting, init, send}
use ampp.Coalescing.Sized.Sending.{delivered, Inv, history, send-history}
use ampp.Coalescing.Sized.Flushing.{flush_dest-twice}
use ampp.Coalescing.Sized.Spinning.{send-waiting}

-- Two messages of 20 and 30 bytes with their size words, in a buffer of 64.
abbrev two : Buffer ℕ
two = record {
  count_allocated = 50;
  count_written = 50;
  max_count = 64;
  registered_with_td = true;
  items = 12 ∷ 22 ∷ [];
  events = [];
}

two-Inv : Inv two
two-Inv = record {
  small = omega arith;
  below = omega arith;
  written = refl;
  told = λ p. refl;
  bare = λ z. absurd (omega (arith, z));
}

send-history_example :
    (b : Buffer ℕ) × (send (λ n. n) 2 7 two ≡ returned b) × Inv b × (history b ≡ 12 ∷ 22 ∷ 7 ∷ [])
send-history_example = send-history (λ n. n) 0 7 two two-Inv (omega arith)

send-waiting_example : send (λ n. n) 1000 56 (init 64) ≡ waiting
send-waiting_example =
    send-waiting (λ n. n) 1000 56 (init 64) (unfold init in refl) (unfold init in refl)
      (unfold init in omega arith)

flush_dest-twice_example :
    (last1 : ℕ) × (b1 : Buffer ℕ) × (last2 : ℕ) × (b2 : Buffer ℕ) × (flush_dest 20 two
      ≡ returned (last1, b1))
    × (flush_dest last1 b1 ≡ returned (last2, b2))
    × Inv b2
    × (delivered b2.events ≡ 12 ∷ 22 ∷ [])
    × (b2.items ≡ [])
flush_dest-twice_example = flush_dest-twice 20 two two-Inv
