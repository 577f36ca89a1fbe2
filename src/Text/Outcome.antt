-- ===== src/Text/Outcome.antt =====
-- What a piece of C that handles memory and text comes to.
use libdynpm.Base.{◌≡◌, refl, Bool, true, false, Option, none, some}

pub data Outcome {ℓ} (A : Type ℓ) : Type ℓ where
  done : A → Outcome A
  -- `sscanf` stopped early, and a field that the caller reads was never assigned
  unset : Outcome A
  -- a failed `assert`
  aborted : Outcome A
  -- an access out of bounds, or a number that does not fit its `int`
  fault : Outcome A

infixl 5 ◌>>=◌ ◌>>◌
abbrev pub ◌>>=◌ {ℓ κ} : {A : Type ℓ} {B : Type κ} → Outcome A → (A → Outcome B) → Outcome B
done a >>= f = f a
unset >>= f = unset
aborted >>= f = aborted
fault >>= f = fault

abbrev pub ◌>>◌ {ℓ} : {B : Type ℓ} → Outcome (Unit {0}) → Outcome B → Outcome B
m >> k = m >>= λ _. k

-- `assert(b)`
abbrev pub assert : Bool → Outcome (Unit {0})
assert true = done tt
assert false = aborted

abbrev pub or_fault {ℓ} : {A : Type ℓ} → Option A → Outcome A
or_fault none = fault
or_fault (some a) = done a

pub >>=-assoc {ℓ κ μ} :
    {A : Type ℓ} {B : Type κ} {C : Type μ} (m : Outcome A) (f : A → Outcome B) (g : B → Outcome C)
    → (m >>= λ a. f a >>= g) ≡ (m >>= f >>= g)
>>=-assoc (done a) f g = refl
>>=-assoc unset f g = refl
>>=-assoc aborted f g = refl
>>=-assoc fault f g = refl

-- A bind that is done, taken apart.
pub >>=-eq-done {ℓ κ} :
    {A : Type ℓ} {B : Type κ} (m : Outcome A) (f : A → Outcome B) {b : B}
    → (m >>= f) ≡ done b
    → (a : A) × (m ≡ done a) × (f a ≡ done b)
>>=-eq-done (done a) f h = (a, refl, h)
>>=-eq-done unset f h = cc
>>=-eq-done aborted f h = cc
>>=-eq-done fault f h = cc
