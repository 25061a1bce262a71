-- ===== src/Prelude/Outcome.antt =====
-- Rust's `Result`, with a third case for a panic: an index out of range, an overflowing shift, a
-- slice of the wrong length. `e?` is a bind.
use mathlib.Core.Option.{Option, none, some}
use mathlib.Core.Bool.{Bool, true, false}

pub data Result {ℓ κ} (E : Type κ) (A : Type ℓ) : Type (ℓ ⊔ κ) where
  ok : A → Result E A
  err : E → Result E A
  panic : Result E A

infixl 5 ◌>>=◌
abbrev pub ◌>>=◌ {ℓ κ μ} :
    {E : Type κ} {A : Type ℓ} {B : Type μ} → Result E A → (A → Result E B) → Result E B
ok a >>= f = f a
err e >>= f = err e
panic >>= f = panic

-- `map_err`, and the conversion that `?` makes between error types.
abbrev pub map_err {ℓ κ μ} :
    {E : Type κ} {F : Type μ} {A : Type ℓ} → (E → F) → Result E A → Result F A
map_err f (ok a) = ok a
map_err f (err e) = err (f e)
map_err f panic = panic

-- A value, or a panic where there is none.
abbrev pub or_panic {ℓ κ} : {E : Type κ} {A : Type ℓ} → Option A → Result E A
or_panic (some a) = ok a
or_panic none = panic

-- `Result::ok`, which turns a value or an error into an option.
abbrev pub ok_value {ℓ κ} : {E : Type κ} {A : Type ℓ} → Result E A → Result E (Option A)
ok_value (ok a) = ok (some a)
ok_value (err e) = ok none
ok_value panic = panic

-- The call succeeded.
abbrev pub IsOk {ℓ κ} : {E : Type κ} {A : Type ℓ} → Result E A → Type 0
IsOk (ok a) = Unit {0}
IsOk (err e) = ⊥
IsOk panic = ⊥

abbrev pub IsSome {ℓ} : {A : Type ℓ} → Option A → Type 0
IsSome (some a) = Unit {0}
IsSome none = ⊥

-- `Result::is_ok`
abbrev pub is_ok {ℓ κ} : {E : Type κ} {A : Type ℓ} → Result E A → Bool
is_ok (ok a) = true
is_ok (err e) = false
is_ok panic = false
