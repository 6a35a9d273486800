-- ===== src/Base/Outcome.antt =====
-- What a call of Go comes to: a value, an error in its place, or a panic.
use mathlib.Core.Bool.{Bool, true, false}
use mathlib.Core.List.{List}
use Prim.Native.Nat.{ℕ, ◌-◌}
use phlare.Base.Tests.{leb, if◌then◌else◌}
use phlare.Base.Lists.{length, take, drop}

pub data Outcome {ℓ} (A : Type ℓ) : Type ℓ where
  ok : A → Outcome A
  failed : Outcome A
  panicked : Outcome A

infixl 5 ◌>>=◌
abbrev pub ◌>>=◌ {ℓ κ} : {A : Type ℓ} {B : Type κ} → Outcome A → (A → Outcome B) → Outcome B
ok a >>= f = f a
failed >>= f = failed
panicked >>= f = panicked

-- `if err != nil { return nil, err }`, for a check that gives an error when it is false
abbrev pub check {ℓ} : {A : Type ℓ} → Bool → Outcome A → Outcome A
check true rest = rest
check false rest = failed

-- `xs[lower:upper]` of a slice whose capacity is its length
abbrev pub slice {ℓ} : {A : Type ℓ} → ℕ → ℕ → List A → Outcome (List A)
slice lower upper xs =
    if leb lower upper
    then if leb upper (length xs) then ok (take (upper - lower) (drop lower xs)) else panicked
    else panicked
