-- ===== src/Prelude/Answers.antt =====
-- The result of a call that can fail: a value, or an error.
pub data Answer (E A : Type 0) : Type 0 where
  ok : A → Answer E A
  err : E → Answer E A
