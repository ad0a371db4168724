-- ===== src/Web/Results.antt =====
-- What a function on a database table returns or raises: ValueError, or the IntegrityError of a
-- UNIQUE or FOREIGN KEY constraint.
pub data Result {ℓ} (A : Type ℓ) : Type ℓ where
  ok : A → Result A
  value_error : Result A
  integrity_error : Result A
