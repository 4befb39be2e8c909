-- ===== src/Detail/VectorOfNoncopyable/Tests.antt =====
-- am++/detail/vector_of_noncopyable.hpp, vector_of_noncopyable: tests.
use ampp.Prelude.{ℕ, ◌+◌, arith}
use ampp.Detail.VectorOfNoncopyable.{Vector}
use ampp.Detail.VectorOfNoncopyable.View.{Fits}

-- Three elements in an array of four.
abbrev three : Vector ℕ
three = record { size_ = 3; reserved_ = 4; data_ = λ i. 10 + i }

three-Fits : Fits 0 three
three-Fits = record { inside = omega arith; small = omega arith }
