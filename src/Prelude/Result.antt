-- ===== src/Prelude/Result.antt =====
-- Results of Go code: `panic` is a run-time panic, such as a write to a nil map, and `blocked` a
-- call that never returns, since it waits for a lock that the caller holds itself.
pub data Go {ℓ} (A : Type ℓ) : Type ℓ where
  done : A → Go A
  panic : Go A
  blocked : Go A

infixl 5 ◌>>=◌
abbrev pub ◌>>=◌ {ℓ κ} : {A : Type ℓ} {B : Type κ} → Go A → (A → Go B) → Go B
done a >>= f = f a
panic >>= f = panic
blocked >>= f = blocked
