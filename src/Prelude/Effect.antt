-- ===== src/Prelude/Effect.antt =====
-- Code that changes a state and may fail: the state that it leaves comes with its result.
use cantools_rs.Prelude.Outcome.{Result, ok, err, panic}

abbrev pub Step : Type 0 → Type 0 → Type 0 → Type 0
Step S E A = S → Result E A × S

-- What follows a call.
abbrev pub next : {S E A B : Type 0} → (A → Step S E B) → Result E A × S → Result E B × S
next f (ok a, s) = f a s
next f (err e, s) = (err e, s)
next f (panic, s) = (panic, s)

infixl 5 ◌>>=◌
abbrev pub ◌>>=◌ : {S E A B : Type 0} → Step S E A → (A → Step S E B) → Step S E B
(m >>= f) s = next f (m s)

abbrev pub return : {S E A : Type 0} → A → Step S E A
return a s = (ok a, s)

abbrev pub throw : {S E A : Type 0} → E → Step S E A
throw e s = (err e, s)

-- A result that needs no call.
abbrev pub lift : {S E A : Type 0} → Result E A → Step S E A
lift r s = (r, s)
