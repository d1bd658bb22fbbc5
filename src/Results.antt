-- ===== src/Results.antt =====
-- A call that may raise: Python's exceptions as values.
pub data Fault : Type 0 where
  value_error : Fault
  key_error : Fault
  invalid_operation : Fault
  unbound_local : Fault
  zero_division : Fault
  http_500 : Fault
  uncaught : Fault

pub data Result {ℓ} (A : Type ℓ) : Type ℓ where
  ok : A → Result A
  raise : Fault → Result A

infixl 5 ◌>>=◌
abbrev pub ◌>>=◌ {ℓ κ} : {A : Type ℓ} {B : Type κ} → Result A → (A → Result B) → Result B
ok a >>= f = f a
raise x >>= f = raise x
