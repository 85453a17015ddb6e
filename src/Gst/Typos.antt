-- ===== src/Gst/Typos.antt =====
-- What the check character of a GSTIN is for: a mistake in one place does not go unseen.
use wppflow_backend.Common.{
  ℕ, zero, suc, ◌+◌, ◌*◌, ◌/◌, ◌%◌, ◌≤◌, ◌<◌, true, false, ◌&&◌, ◌≡◌, refl, ap, ◌⊎◌, inl, inr,
  Option, none, some, [], ◌∷◌, ◌++◌, Text, is_some, ltb, ◌==◌, take, length, get_elem?,
  length-append, ◌≢◌, arith, Bool-cases, and-true, ltb→lt,
}
use wppflow_backend.Gst.Number.{
  states, state_name, pattern_at, matches_from, index_of, weight, sum_from, check_matches,
  valid_capitals,
}

-- A digit or a capital letter.
abbrev IsSign : ℕ → Type 0
IsSign c = ((48 ≤ c) × (c ≤ 57)) ⊎ ((65 ≤ c) × (c ≤ 90))

pattern_at-IsSign : (i c : ℕ) → pattern_at i c ≡ true → IsSign c
unfolding pattern_at
pattern_at-IsSign i c h = ground arith

matches-IsSign :
    (i : ℕ) (a : Text) (x : ℕ) (b : Text) → matches_from i (a ++ x ∷ b) ≡ true → IsSign x
unfolding matches_from
matches-IsSign i [] x b h = pattern_at-IsSign i x (and-true _ _ h).0
matches-IsSign i (c ∷ a) x b h = matches-IsSign (i + 1) a x b (and-true _ _ h).1

matches-length : (i : ℕ) (s : Text) → matches_from i s ≡ true → i + length s ≡ 15
unfolding matches_from
matches-length i [] h = ground arith
matches-length i (c ∷ s) h = omega (arith, matches-length (i + 1) s (and-true _ _ h).1)

length-ne : (n : ℕ) → (n == 14) ≡ false → n ≢ 14
length-ne n h e = ground arith

index_of-lt : (c : ℕ) → IsSign c → index_of c < 36
unfolding index_of
index_of-lt c h = ground arith

index_of_injective : (c d : ℕ) → IsSign c → IsSign d → index_of c ≡ index_of d → c ≡ d
unfolding index_of
index_of_injective c d h k e = ground arith

doubled :
    (m n : ℕ) → m < 36 → n < 36 → (m * 2 / 36 + m * 2 % 36) ≡ (n * 2 / 36 + n * 2 % 36) → m ≡ n
doubled m n h k e = omega arith

single : (m n : ℕ) → m < 36 → n < 36 → (m * 1 / 36 + m * 1 % 36) ≡ (n * 1 / 36 + n * 1 % 36) → m ≡ n
single m n h k e = omega arith

weight_injective : (i c d : ℕ) → IsSign c → IsSign d → weight i c ≡ weight i d → c ≡ d
unfolding weight
weight_injective i c d h k e = index_of_injective c d h k (elim (Bool-cases (i % 2 == 0)) [
  | inl even ↦ single _ _ (index_of-lt c h) (index_of-lt d k) (rw even at e)
  | inr odd ↦ doubled _ _ (index_of-lt c h) (index_of-lt d k) (rw odd at e)
])

weight-lt : (i c : ℕ) → IsSign c → weight i c < 36
unfolding weight
weight-lt i c h = ground (arith, index_of-lt c h)

-- Two texts that differ in one place have sums that differ by its weights.
sum_from_place :
    (i j : ℕ) (a b : Text) (x y : ℕ)
    → j ≡ i + length a
    → j < 14
    → sum_from i (a ++ x ∷ b) + weight j y ≡ sum_from i (a ++ y ∷ b) + weight j x
unfolding sum_from
sum_from_place i j [] b x y e h = let j-eq : j ≡ i = omega arith in rw j-eq (ground arith)
sum_from_place i j (c ∷ a) b x y e h =
    ground (arith, sum_from_place (i + 1) j a b x y (omega arith) h)

sum_from_past :
    (i : ℕ) (a b : Text) (x y : ℕ)
    → 14 ≤ i + length a
    → sum_from i (a ++ x ∷ b) ≡ sum_from i (a ++ y ∷ b)
unfolding sum_from
sum_from_past i [] b x y h = ground arith
sum_from_past i (c ∷ a) b x y h = ground (arith, sum_from_past (i + 1) a b x y)

get_place : (a b : Text) (x y i : ℕ) → i ≡ length a → get_elem? (a ++ x ∷ b) i ≡ some x
get_place [] b x y zero e = refl
get_place [] b x y (suc i) e = absurd (omega arith)
get_place (c ∷ a) b x y zero e = absurd (omega arith)
get_place (c ∷ a) b x y (suc i) e = get_place a b x y i (omega arith)

get_other :
    (a b : Text) (x y i : ℕ)
    → (i ≡ length a → ⊥)
    → get_elem? (a ++ x ∷ b) i ≡ get_elem? (a ++ y ∷ b) i
get_other [] b x y zero e = absurd (e refl)
get_other [] b x y (suc i) e = refl
get_other (c ∷ a) b x y zero e = refl
get_other (c ∷ a) b x y (suc i) e = get_other a b x y i (λ q. e (ap suc q))

check_char :
    (s : ℕ) (c d : ℕ)
    → IsSign c
    → IsSign d
    → check_matches s (some c) ≡ true
    → check_matches s (some d) ≡ true
    → c ≡ d
unfolding check_matches
check_char s c d h k p q = index_of_injective c d h k (ground arith)

same_rest :
    (s t : ℕ) (o : Option ℕ) → check_matches s o ≡ true → check_matches t o ≡ true → s % 36 ≡ t % 36
unfolding check_matches
same_rest s t none p q = cc
same_rest s t (some c) p q = ground arith

same_weight : (s t v w : ℕ) → v < 36 → w < 36 → s + w ≡ t + v → s % 36 ≡ t % 36 → v ≡ w
same_weight s t v w h k e m = omega arith

record IsValid (g : Text) : Type 0 where
  shape : matches_from 0 g ≡ true
  sum : check_matches (sum_from 0 g) (get_elem? g 14) ≡ true

valid_capitals-IsValid : (g : Text) → valid_capitals g ≡ true → IsValid g
unfolding valid_capitals
valid_capitals-IsValid g h =
    let (first, check) =
      and-true (matches_from 0 g && is_some (state_name (take 2 g) states)) _ h in
    record { shape = (and-true (matches_from 0 g) _ first).0; sum = check }

-- Two GSTINs that are valid and differ in one character at most do not differ: a mistyped
-- character, at any place, is always seen. (The two are given in capitals.)
pub valid_capitals-typo :
    (a b : Text) (x y : ℕ)
    → valid_capitals (a ++ x ∷ b) ≡ true
    → valid_capitals (a ++ y ∷ b) ≡ true
    → x ≡ y
valid_capitals-typo a b x y p q =
    let v = valid_capitals-IsValid _ p in
    let w = valid_capitals-IsValid _ q in
    let sx = matches-IsSign 0 a x b v.shape in
    let sy = matches-IsSign 0 a y b w.shape in
    elim (Bool-cases (ltb (length a) 14)) [
      | inl before ↦
          let lt : length a < 14 = ltb→lt _ _ before in
          let other = get_other a b x y 14 (λ e. omega arith) in
          weight_injective (length a) x y sx sy (
            same_weight _ _ _ _ (weight-lt _ x sx) (weight-lt _ y sy)
              (sum_from_place 0 (length a) a b x y (omega arith) lt)
              (same_rest _ _ _ v.sum (rw (← other) at w.sum)))
      | inr after ↦
          let ge : 14 ≤ length a = ground arith in
          let past = sum_from_past 0 a b x y (omega arith) in
          elim (Bool-cases (length a == 14)) [
            | inl at ↦
                let e : 14 ≡ length a = ground arith in
                check_char _ x y sx sy (rw (get_place a b x y 14 e) at v.sum)
                  (rw (get_place a b y x 14 e, ← past) at w.sum)
            | inr beyond ↦ absurd (
                omega (
                  arith,
                  matches-length 0 (a ++ x ∷ b) v.shape,
                  length-append a (x ∷ b),
                  length-ne _ beyond,
                ))
          ]
    ]
