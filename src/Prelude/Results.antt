-- ===== src/Prelude/Results.antt =====
-- The result of a function that may raise one of the errors of `E`.
pub data Result (E : Type 0) (A : Type 0) : Type 0 where
  ok : A → Result E A
  raise : E → Result E A
