-- ===== src/Gst/Words.antt =====
-- `rupeesInWords`: whole rupees in words, the Indian way, for the bottom of an invoice.
use wppflow_backend.Common.{
  ℕ, zero, suc, ◌/◌, ◌%◌, ◌≤◌, ◌<◌, ◌≡◌, refl, List, [], ◌∷◌, ◌++◌, Text, text, leb, ltb, ◌==◌,
  if◌then◌else◌, get_elem?, arith, or_else, inl, inr, leb→le, Bool-cases,
}
use native.Mathlib.Nat.{div-lt_self}
use wppflow_backend.Gst.Number.{upper}

unfoldable pub ones : List Text
ones =
    []
    ∷ text "one"
    ∷ text "two"
    ∷ text "three"
    ∷ text "four"
    ∷ text "five"
    ∷ text "six"
    ∷ text "seven"
    ∷ text "eight"
    ∷ text "nine"
    ∷ text "ten"
    ∷ text "eleven"
    ∷ text "twelve"
    ∷ text "thirteen"
    ∷ text "fourteen"
    ∷ text "fifteen"
    ∷ text "sixteen"
    ∷ text "seventeen"
    ∷ text "eighteen"
    ∷ text "nineteen"
    ∷ []

unfoldable pub tens : List Text
tens =
    []
    ∷ []
    ∷ text "twenty"
    ∷ text "thirty"
    ∷ text "forty"
    ∷ text "fifty"
    ∷ text "sixty"
    ∷ text "seventy"
    ∷ text "eighty"
    ∷ text "ninety"
    ∷ []

abbrev word : List Text → ℕ → Text
word ws n = or_else (get_elem? ws n) []

unfoldable pub below100 : ℕ → Text
unfolding ones tens
below100 n =
    if ltb n 20
    then word ones n
    else word tens (n / 10) ++ (if n % 10 == 0 then [] else 32 ∷ word ones (n % 10))

unfoldable pub below1000 : ℕ → Text
unfolding below100
below1000 n =
    if leb 100 n
    then word ones (n / 100)
      ++ (text " hundred" ++ (if n % 100 == 0 then [] else 32 ∷ below100 (n % 100)))
    else below100 n

-- `parts.push(...)`, joined by spaces at the end.
abbrev glue : Text → Text → Text
glue [] t = t
glue (c ∷ s) [] = c ∷ s
glue (c ∷ s) (d ∷ t) = (c ∷ s) ++ 32 ∷ d ∷ t

-- One round of the loop over crore, lakh and thousand; the words of `n / size` are handed in.
unfoldable pub unit_words : (ℕ → Text) → ℕ → Text → ℕ → Text
unit_words words size name n = if leb size n then words (n / size) ++ 32 ∷ name else []

-- `wholeWords`; its calls of itself are on smaller numbers, and `n + 1` rounds of fuel are enough.
unfoldable pub whole_words : ℕ → ℕ → Text
unfolding below1000 unit_words
whole_words zero n = []
whole_words (suc f) n =
    if n == 0
    then text "zero"
    else glue (unit_words (whole_words f) 10000000 (text "crore") n) (
        glue (unit_words (whole_words f) 100000 (text "lakh") (n % 10000000)) (
          glue (unit_words (whole_words f) 1000 (text "thousand") (n % 10000000 % 100000)) (
            if n % 10000000 % 100000 % 1000 == 0
            then []
            else below1000 (n % 10000000 % 100000 % 1000))))

abbrev capital_first : Text → Text
capital_first [] = []
capital_first (c ∷ s) = upper c ∷ s

unfoldable pub rupees_in_words : ℕ → Text
unfolding whole_words upper
rupees_in_words minor =
    let rupees = minor / 100 in
    let paise = minor % 100 in
    capital_first (
      whole_words (suc rupees) rupees
      ++ (text " rupees"
          ++ ((if paise == 0 then [] else text " and " ++ (below100 paise ++ text " paise"))
              ++ text " only")))

unit_words_same :
    (f g : ℕ → Text) (size n : ℕ) (name : Text)
    → ((m : ℕ) → m < n → f m ≡ g m)
    → 1 < size
    → unit_words f size name n ≡ unit_words g size name n
unfolding unit_words
unit_words_same f g size n name same big = elim (Bool-cases (leb size n)) [
  | inl le ↦
      let pos : 0 < n = omega (arith, leb→le size n le) in
      rw le (rw (same (n / size) (div-lt_self pos big)))
  | inr lt ↦ rw lt
]

-- The words of a number do not depend on the fuel, once it is more than the number: the recursion of
-- `wholeWords` ends, and `n + 1` rounds are enough.
whole_words_enough : (f g n : ℕ) → n < f → n < g → whole_words f n ≡ whole_words g n
unfolding whole_words
whole_words_enough zero g n h k = elim h [ ]
whole_words_enough (suc f) zero n h k = elim k [ ]
whole_words_enough (suc f) (suc g) n h k =
    let ih : (b : ℕ) → b ≤ n → (m : ℕ) → m < b → whole_words f m ≡ whole_words g m =
      λ b le m lt. whole_words_enough f g m (omega arith) (omega arith) in
    rw (
      unit_words_same (whole_words f) (whole_words g) 10000000 n (text "crore") (ih n (omega arith))
          (omega arith),
      unit_words_same (whole_words f) (whole_words g) 100000 (n % 10000000) (text "lakh")
          (ih (n % 10000000) (omega arith)) (omega arith),
      unit_words_same (whole_words f) (whole_words g) 1000 (n % 10000000 % 100000) (text "thousand")
          (ih (n % 10000000 % 100000) (omega arith)) (omega arith),
    )

invoice_test :
    rupees_in_words 12345650
    ≡ text "One lakh twenty three thousand four hundred fifty six rupees and fifty paise only"
unfolding rupees_in_words
invoice_test = refl
