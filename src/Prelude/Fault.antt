-- ===== src/Prelude/Fault.antt =====
-- The monad of runs that may stop: `none` is a failed assertion or a loop without an end.

use mathlib.Core.Option.{Option, none, some}

infixl 5 ◌>>=◌
abbrev pub ◌>>=◌ {ℓ κ} : {A : Type ℓ} {B : Type κ} → Option A → (A → Option B) → Option B
none >>= f = none
some a >>= f = f a
