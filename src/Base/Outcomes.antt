-- ===== src/Base/Outcomes.antt =====
-- What a piece of C code may do: end with a value, wait on a semaphore that nobody has posted, or
-- touch memory outside an array.

pub data Outcome {ℓ} (A : Type ℓ) : Type ℓ where
  done : A → Outcome A
  blocked : Outcome A
  fault : Outcome A

infixl 5 ◌>>=◌
abbrev pub ◌>>=◌ {ℓ κ} : {A : Type ℓ} {B : Type κ} → Outcome A → (A → Outcome B) → Outcome B
done a >>= f = f a
blocked >>= f = blocked
fault >>= f = fault
