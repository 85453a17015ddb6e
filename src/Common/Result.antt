-- ===== src/Common/Result.antt =====
-- Code that may throw `fail(status, message)`: the HTTP status and the words that are shown.
use Prim.Native.Nat.{ℕ}
use mathlib.Core.Path.{◌≡◌, refl}
use mathlib.Core.Logic.{◌⊎◌, inl, inr}
use mathlib.Core.Bool.{Bool, true, false}
use wppflow_backend.Common.Texts.{Text}

pub data Result {ℓ} (A : Type ℓ) : Type ℓ where
  err : ℕ → Text → Result A
  ok : A → Result A

infixl 5 ◌>>=◌
infixl 5 ◌>>◌
-- What throws goes no further.
abbrev pub ◌>>=◌ {a b} : {X : Type a} {Y : Type b} → Result X → (X → Result Y) → Result Y
err status words >>= next = err status words
ok x >>= next = next x

abbrev pub ◌>>◌ {a} : {X : Type a} → Result (Unit {0}) → Result X → Result X
first >> rest = first >>= λ u. rest

-- `if (test) throw fail(status, message)`
abbrev pub refuse : Bool → ℕ → Text → Result (Unit {0})
refuse true c m = err c m
refuse false c m = ok tt

-- A bind that came to a value, for a proof that goes on with the first value as a variable.
pub from_bind {a b c} :
    {X : Type a} {Y : Type b} {Z : Type c} (first : Result X) (next : X → Result Y) {y : Y}
    → (first >>= next) ≡ ok y
    → ((x : X) → first ≡ ok x → next x ≡ ok y → Z)
    → Z
from_bind (err status words) next came k = cc
from_bind (ok x) next came k = k x refl came

pub refuse-ok : (b : Bool) (c : ℕ) (m : Text) (u : Unit {0}) → refuse b c m ≡ ok u → b ≡ false
refuse-ok true c m u h = cc
refuse-ok false c m u h = refl

pub ok_injective {ℓ} : {A : Type ℓ} (a b : A) → ok a ≡ ok b → a ≡ b
ok_injective a b h = cc

pub Result-cases {ℓ} :
    {A : Type ℓ} (r : Result A)
    → ((status : ℕ) × (words : Text) × (r ≡ err status words)) ⊎ ((a : A) × (r ≡ ok a))
Result-cases (err status words) = inl (status, words, refl)
Result-cases (ok a) = inr (a, refl)
