-- ===== src/Common/Texts.antt =====
-- JavaScript strings as lists of UTF-16 code units: a literal of the source, which is ASCII, is
-- `text "..."`.
use Prim.Native.Nat.{ℕ, zero, suc, ◌+◌, ◌-◌, ◌*◌, ◌/◌, ◌%◌, ◌≤◌, ◌<◌, max}
use Prim.Native.Char.{code}
use Prim.Native.String.{String}
use mathlib.Core.Path.{◌≡◌, refl, ap, ◌∙◌}
use mathlib.Core.Logic.{◌↔◌, inl, inr}
use mathlib.Core.Bool.{Bool, true, false, ◌&&◌, ◌||◌}
use mathlib.Core.List.{List, [], ◌∷◌, ◌++◌, map, reverse}
use native.Mathlib.Omega.{arith}
use wppflow_backend.Common.Tests.{leb, ltb, ◌==◌, if◌then◌else◌, Bool-cases}
use wppflow_backend.Common.Lists.{take, length, length-append, any}

abbrev pub Text : Type 0
Text = List ℕ

abbrev pub text : String → Text
text String.[] = []
text (String.◌∷◌ c s) = code c ∷ text s

unfoldable pub text_eq : Text → Text → Bool
text_eq [] [] = true
text_eq (c ∷ s) (d ∷ t) = c == d && text_eq s t
text_eq _ _ = false

pub text_eq_iff : (s t : Text) → (text_eq s t ≡ true) ↔ (s ≡ t)
unfolding text_eq
text_eq_iff [] [] = ground arith
text_eq_iff (c ∷ s) (d ∷ t) = ground (arith, text_eq_iff s t)
text_eq_iff [] (d ∷ t) = ground arith
text_eq_iff (c ∷ s) [] = ground arith

pub text_eq_refl : (s : Text) → text_eq s s ≡ true
text_eq_refl s = (text_eq_iff s s).1 refl

abbrev pub is_empty : Text → Bool
is_empty [] = true
is_empty (c ∷ s) = false

abbrev pub has_text : Text → List Text → Bool
has_text k = any (text_eq k)

-- The names that every JavaScript object has: a look-up in a plain object finds them too.
unfoldable pub object_names : List Text
object_names =
    text "constructor"
    ∷ text "__proto__"
    ∷ text "__defineGetter__"
    ∷ text "__defineSetter__"
    ∷ text "__lookupGetter__"
    ∷ text "__lookupSetter__"
    ∷ text "hasOwnProperty"
    ∷ text "isPrototypeOf"
    ∷ text "propertyIsEnumerable"
    ∷ text "toLocaleString"
    ∷ text "toString"
    ∷ text "valueOf"
    ∷ []

-- `\s` of a regular expression, and what `trim` removes.
unfoldable pub is_space : ℕ → Bool
is_space c =
    (leb 9 c && leb c 13)
    || c == 32
    || c == 160
    || c == 5760
    || (leb 8192 c && leb c 8202)
    || c == 8232
    || c == 8233
    || c == 8239
    || c == 8287
    || c == 12288
    || c == 65279

unfoldable pub lower : ℕ → ℕ
lower c = if leb 65 c && leb c 90 then c + 32 else c

-- `toLowerCase`, of an ASCII text.
abbrev pub to_lower : Text → Text
to_lower = map lower

-- `.replace(/\s+/g, " ")`; the flag says that the last unit read was a space.
squeeze : Bool → Text → Text
squeeze b [] = []
squeeze b (c ∷ s) =
    let rest = squeeze (is_space c) s in
    if is_space c then if b then rest else 32 ∷ rest else c ∷ rest

trim_start : Text → Text
trim_start [] = []
trim_start (c ∷ s) = let rest = trim_start s in if is_space c then rest else c ∷ s

unfoldable pub trim : Text → Text
unfolding trim_start is_space
trim s = reverse (trim_start (reverse (trim_start s)))

unfoldable pub collapse : Text → Text
unfolding squeeze trim is_space
collapse s = trim (squeeze false s)

-- `clip` of workflow/core.js: spaces collapsed, trimmed, and at most n units.
unfoldable pub clip : Text → ℕ → Text
unfolding collapse
clip v n = take n (collapse v)

-- The decimal digits of a number, as `String(n)` writes it; one round of fuel for each digit.
digits : ℕ → ℕ → Text → Text
digits zero n out = out
digits (suc f) n out =
    let rest = digits f (n / 10) ((48 + n % 10) ∷ out) in if ltb n 10 then (48 + n) ∷ out else rest

unfoldable pub show_nat : ℕ → Text
unfolding digits
show_nat n = digits (suc n) n []

-- The number that decimal digits stand for, after a number that was read before them.
abbrev pub read_digits : ℕ → Text → ℕ
read_digits acc [] = acc
read_digits acc (c ∷ s) = read_digits (acc * 10 + (c - 48)) s

read_digits-digits :
    (f n : ℕ) (out : Text) → n < f → read_digits 0 (digits f n out) ≡ read_digits n out
unfolding digits
read_digits-digits zero n out h = omega arith
read_digits-digits (suc f) n out h = elim (Bool-cases (ltb n 10)) [
  | inl small ↦ rw small (ap (λ k. read_digits k out) (omega arith))
  | inr big ↦ rw big (
      read_digits-digits f (n / 10) ((48 + n % 10) ∷ out) (ground arith)
      ∙ ap (λ k. read_digits k out) (omega arith))
]

pub read_digits-show_nat : (n : ℕ) → read_digits 0 (show_nat n) ≡ n
unfolding show_nat
read_digits-show_nat n = read_digits-digits (suc n) n [] (omega arith)

-- `padStart(n, "0")`
abbrev zeros : ℕ → Text
zeros zero = []
zeros (suc n) = 48 ∷ zeros n

unfoldable pub pad_zeros : ℕ → Text → Text
pad_zeros n s = zeros (n - length s) ++ s

read_digits-zeros : (n : ℕ) (s : Text) → read_digits 0 (zeros n ++ s) ≡ read_digits 0 s
read_digits-zeros zero s = refl
read_digits-zeros (suc n) s = read_digits-zeros n s

pub read_digits-pad_zeros : (n : ℕ) (s : Text) → read_digits 0 (pad_zeros n s) ≡ read_digits 0 s
unfolding pad_zeros
read_digits-pad_zeros n s = read_digits-zeros (n - length s) s

abbrev ten_to : ℕ → ℕ
ten_to zero = 1
ten_to (suc k) = 10 * ten_to k

length-digits :
    (k f n : ℕ) (out : Text)
    → n < f
    → n < 10 * ten_to k
    → length (digits f n out) ≤ suc k + length out
unfolding digits
length-digits k zero n out h small = omega arith
length-digits zero (suc f) n out h small = ground arith
length-digits (suc k) (suc f) n out h small = elim (Bool-cases (ltb n 10)) [
  | inl one ↦ rw one (omega arith)
  | inr more ↦
      rw more (
        omega
          (arith, length-digits k f (n / 10) ((48 + n % 10) ∷ out) (ground arith) (omega arith)))
]

-- A number below 10 ^ (k + 1) has at most k + 1 digits.
pub length-show_nat : (k n : ℕ) → n < 10 * ten_to k → length (show_nat n) ≤ suc k
unfolding show_nat
length-show_nat k n small = omega (arith, length-digits k (suc n) n [] (omega arith) small)

length-zeros : (n : ℕ) → length (zeros n) ≡ n
length-zeros zero = refl
length-zeros (suc n) = ap suc (length-zeros n)

pub length-pad_zeros : (n : ℕ) (s : Text) → length (pad_zeros n s) ≡ max n (length s)
unfolding pad_zeros
length-pad_zeros n s =
    omega (arith, length-append (zeros (n - length s)) s, length-zeros (n - length s))

collapse_test : collapse (text "  a \n b  ") ≡ text "a b"
unfolding collapse
collapse_test = refl

show_nat_test : show_nat 1205 ≡ text "1205"
unfolding show_nat
show_nat_test = refl
