-- ===== src/Prelude/Panics.antt =====
-- Code that may panic: an index out of range, an `expect` on nothing, a failed `assert`.
use mathlib.Core.Path.{◌≡◌, refl}
use mathlib.Core.Option.{Option, none, some}

pub data Run {ℓ} (A : Type ℓ) : Type ℓ where
  ok : A → Run A
  panic : Run A

infixl 5 ◌>>=◌
abbrev pub ◌>>=◌ {ℓ κ} : {A : Type ℓ} {B : Type κ} → Run A → (A → Run B) → Run B
ok a >>= f = f a
panic >>= f = panic

-- `o.expect(…)`
abbrev pub expect {ℓ} : {A : Type ℓ} → Option A → Run A
expect none = panic
expect (some a) = ok a

-- The run ends without a panic, with a result that meets `P`.
abbrev pub Returns {ℓ} : {A : Type ℓ} → Run A → (A → Type 0) → Type 0
Returns (ok a) P = P a
Returns panic P = ⊥

pub Run-cases {ℓ} :
    {A : Type ℓ} (P : A → Type 0) (r : Run A) → Returns r P → (a : A) × (r ≡ ok a) × P a
Run-cases P (ok a) h = (a, refl, h)
Run-cases P panic h = absurd h

pub Returns-mono {ℓ} :
    {A : Type ℓ} (r : Run A) (P Q : A → Type 0) → Returns r P → ((a : A) → P a → Q a) → Returns r Q
Returns-mono (ok a) P Q h k = k a h
Returns-mono panic P Q h k = h

-- A run that goes on after a part that returns.
pub Returns-bind {ℓ κ} :
    {A : Type ℓ} {B : Type κ} (r : Run A) (f : A → Run B) (P : A → Type 0) (Q : B → Type 0)
    → Returns r P
    → ((a : A) → P a → Returns (f a) Q)
    → Returns (r >>= f) Q
Returns-bind (ok a) f P Q h k = k a h
Returns-bind panic f P Q h k = h
