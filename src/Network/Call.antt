-- ===== src/Network/Call.antt =====
-- What a call that takes locks comes to.
use libdynpm.Base.{Bool, true, false}
use libdynpm.Text.Outcome.{Outcome, done, unset, aborted, fault}

pub data Call {ℓ} (A : Type ℓ) : Type ℓ where
  returned : A → Call A
  -- it waits for a mutex that an earlier call has left locked, or for a condition that never comes
  blocked : Call A
  -- a failed `assert`, or `exit`
  stopped : Call A
  -- an access out of bounds or through a wrong pointer
  crashed : Call A

infixl 5 ◌>>=◌ ◌>>◌
abbrev pub ◌>>=◌ {ℓ κ} : {A : Type ℓ} {B : Type κ} → Call A → (A → Call B) → Call B
returned a >>= f = f a
blocked >>= f = blocked
stopped >>= f = stopped
crashed >>= f = crashed

abbrev pub ◌>>◌ {ℓ} : {B : Type ℓ} → Call (Unit {0}) → Call B → Call B
m >> k = m >>= λ _. k

-- `pthread_mutex_lock`, on a mutex that is free or held
abbrev pub lock : Bool → Call (Unit {0})
lock true = blocked
lock false = returned tt

abbrev pub of_outcome {ℓ} : {A : Type ℓ} → Outcome A → Call A
of_outcome (done a) = returned a
of_outcome unset = crashed
of_outcome aborted = stopped
of_outcome fault = crashed
