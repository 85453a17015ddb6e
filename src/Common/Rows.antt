-- ===== src/Common/Rows.antt =====
-- Rows of a table, counted, after rows are added or changed.
use Prim.Native.Nat.{ℕ, zero, suc, ◌+◌, ◌≤◌}
use mathlib.Core.Path.{◌≡◌, refl, sym, ap, ◌∙◌}
use mathlib.Core.Logic.{◌⊎◌, inl, inr}
use mathlib.Core.Bool.{Bool, true, false, ◌&&◌}
use mathlib.Core.List.{List, [], ◌∷◌, ◌++◌, map}
use mathlib.Core.Option.{Option, none, some, some-injective}
use native.Mathlib.Omega.{arith}
use wppflow_backend.Common.Tests.{if◌then◌else◌, Bool-cases, and-true}
use wppflow_backend.Common.Lists.{count_if, all, any, find, All, length, take, get_elem?}

module _ {ℓ} {A : Type ℓ} where
  pub count_if-append :
      (p : A → Bool) (xs ys : List A) → count_if p (xs ++ ys) ≡ count_if p xs + count_if p ys
  count_if-append p [] ys = omega arith
  count_if-append p (x ∷ xs) ys = ground (arith, count_if-append p xs ys)

  pub all-append :
      (p : A → Bool) (xs ys : List A) → all p xs ≡ true → all p ys ≡ true → all p (xs ++ ys) ≡ true
  all-append p [] ys hx hy = hy
  all-append p (x ∷ xs) ys hx hy = ground (arith, all-append p xs ys)

  -- A test of the changed items that says what another test says of the items.
  pub count_if-map :
      (p q : A → Bool) (f : A → A) (xs : List A)
      → ((x : A) → p (f x) ≡ q x)
      → count_if p (map f xs) ≡ count_if q xs
  count_if-map p q f [] same = refl
  count_if-map p q f (x ∷ xs) same = rw (same x, count_if-map p q f xs same) refl

  pub count_if-never : (p : A → Bool) (xs : List A) → ((x : A) → p x ≡ false) → count_if p xs ≡ 0
  count_if-never p [] never = refl
  count_if-never p (x ∷ xs) never = rw (never x) (count_if-never p xs never)

  pub all-map :
      (p : A → Bool) (f : A → A) (xs : List A)
      → ((x : A) → p x ≡ true → p (f x) ≡ true)
      → all p xs ≡ true
      → all p (map f xs) ≡ true
  all-map p f [] kept h = h
  all-map p f (x ∷ xs) kept h = ground (arith, kept x, all-map p f xs kept)

  pub count_if-and-le :
      (p q : A → Bool) (xs : List A) → count_if (λ y. q y && p y) xs ≤ count_if p xs
  count_if-and-le p q [] = omega arith
  count_if-and-le p q (y ∷ xs) = ground (arith, count_if-and-le p q xs)

  if_found :
      (b : Bool) (y x : A) (rest : Option A)
      → (if b then some y else rest) ≡ some x
      → ((b ≡ true) × (y ≡ x)) ⊎ ((b ≡ false) × (rest ≡ some x))
  if_found true y x rest h = inl (refl, some-injective _ _ h)
  if_found false y x rest h = inr (refl, h)

  pub find-some :
      (p : A → Bool) (xs : List A) (x : A) → find p xs ≡ some x → (1 ≤ count_if p xs) × (p x ≡ true)
  find-some p [] x h = cc
  find-some p (y ∷ xs) x h = elim (if_found (p y) y x (find p xs) h) [
    | inl (here, same) ↦ (rw here (omega arith), sym (ap p same) ∙ here)
    | inr (later, found) ↦ rw later (find-some p xs x found)
  ]

  pub find-none : (p : A → Bool) (xs : List A) → find p xs ≡ none → count_if p xs ≡ 0
  find-none p [] h = refl
  find-none p (y ∷ xs) h = ground (arith, find-none p xs)

  -- Of the only row of its kind, a further test says what the row says.
  pub count_if-only :
      (p q : A → Bool) (xs : List A) (x : A)
      → find p xs ≡ some x
      → count_if p xs ≤ 1
      → q x ≡ false
      → count_if (λ y. q y && p y) xs ≡ 0
  count_if-only p q [] x h one without = refl
  count_if-only p q (y ∷ xs) x h one without = elim (if_found (p y) y x (find p xs) h) [
    | inl (here, same) ↦
        let passed_by : q y ≡ false = ap q same ∙ without in
        let rest = count_if-and-le p q xs in ground arith
    | inr (later, found) ↦
        let rest = count_if-only p q xs x found (ground arith) without in ground arith
  ]

  pub all-find :
      (p q : A → Bool) (xs : List A) (x : A) → all p xs ≡ true → find q xs ≡ some x → p x ≡ true
  all-find p q [] x h found = cc
  all-find p q (y ∷ xs) x h found = elim (if_found (q y) y x (find q xs) found) [
    | inl (here, same) ↦ sym (ap p same) ∙ (and-true (p y) (all p xs) h).0
    | inr (later, further) ↦ all-find p q xs x (and-true (p y) (all p xs) h).1 further
  ]

  pub find-map :
      (p : A → Bool) (f : A → A) (xs : List A) (x : A)
      → ((y : A) → p (f y) ≡ p y)
      → find p xs ≡ some x
      → find p (map f xs) ≡ some (f x)
  find-map p f [] x same found = cc
  find-map p f (y ∷ xs) x same found = elim (if_found (p y) y x (find p xs) found) [
    | inl (here, one) ↦ rw (same y, here) (ap (λ k. some (f k)) one)
    | inr (later, further) ↦ rw (same y, later) (find-map p f xs x same further)
  ]

  -- The last row that passes a test.
  abbrev pub find_last : (A → Bool) → List A → Option A
  find_last p [] = none
  find_last p (x ∷ xs) = elim (find_last p xs) [
    | some y ↦ some y
    | none ↦ if p x then some x else none
  ]

  find_last_case :
      (p : A → Bool) (y x : A) (rest : Option A)
      → elim rest [ some z ↦ some z | none ↦ if p y then some y else none ] ≡ some x
      → (rest ≡ some x) ⊎ ((p y ≡ true) × (y ≡ x))
  find_last_case p y x (some z) h = inl h
  find_last_case p y x none h = elim (if_found (p y) y x none h) [
    | inl here ↦ inr here
    | inr (off, nothing) ↦ cc
  ]

  pub find_last-some :
      (p q : A → Bool) (xs : List A) (x : A)
      → find_last p xs ≡ some x
      → (p x ≡ true) × (q x ≡ true → 1 ≤ count_if q xs)
  find_last-some p q [] x h = cc
  find_last-some p q (y ∷ xs) x h = elim (find_last_case p y x (find_last p xs) h) [
    | inl later ↦
        let rest = find_last-some p q xs x later in
        (rest.0, λ it. let more = rest.1 it in ground arith)
    | inr (here, same) ↦ (
      sym (ap p same) ∙ here,
      λ it. let one : q y ≡ true = ap q same ∙ it in rw one (omega arith),
    )
  ]

  -- The row that was found last, where a test has no other row.
  pub find-find_last :
      (p q : A → Bool) (xs : List A) (x : A)
      → find_last p xs ≡ some x
      → q x ≡ true
      → count_if q xs ≤ 1
      → find q xs ≡ some x
  find-find_last p q [] x h it one = cc
  find-find_last p q (y ∷ xs) x h it one = elim (find_last_case p y x (find_last p xs) h) [
    | inr (here, same) ↦ let first : q y ≡ true = ap q same ∙ it in rw first (ap some same)
    | inl later ↦
        let more = (find_last-some p q xs x later).1 it in
        elim (Bool-cases (q y)) [
          | inl two ↦ absurd (ground arith)
          | inr other ↦ rw other (find-find_last p q xs x later it (ground arith))
        ]
  ]

  all-map_none :
      (q : A → Bool) (f : A → A) (xs : List A)
      → count_if q xs ≡ 0
      → map (λ y. if q y then f y else y) xs ≡ xs
  all-map_none q f [] h = refl
  all-map_none q f (y ∷ xs) h =
      let first : q y ≡ false = ground arith in rw (first, all-map_none q f xs (ground arith)) refl

  -- A change of the only row that passes a test.
  pub all-map_only :
      (p q : A → Bool) (f : A → A) (xs : List A) (x : A)
      → find q xs ≡ some x
      → count_if q xs ≤ 1
      → p (f x) ≡ true
      → all p xs ≡ true
      → all p (map (λ y. if q y then f y else y) xs) ≡ true
  all-map_only p q f [] x found one new h = h
  all-map_only p q f (y ∷ xs) x found one new h =
      let both = and-true (p y) (all p xs) h in
      elim (if_found (q y) y x (find q xs) found) [
        | inl (here, same) ↦
            let first : p (f y) ≡ true = ap (λ k. p (f k)) same ∙ new in
            let rest = all-map_none q f xs (ground arith) in rw (here, first, rest) both.1
        | inr (later, further) ↦
            rw (later, both.0) (all-map_only p q f xs x further (ground arith) new both.1)
      ]

  pub find-append :
      (q : A → Bool) (xs : List A) (x : A)
      → count_if q xs ≡ 0
      → q x ≡ true
      → find q (xs ++ x ∷ []) ≡ some x
  find-append q [] x h it = rw it refl
  find-append q (y ∷ xs) x h it =
      let first : q y ≡ false = ground arith in rw first (find-append q xs x (ground arith) it)

  pub find-append_some :
      (p : A → Bool) (xs ys : List A) (x : A) → find p xs ≡ some x → find p (xs ++ ys) ≡ some x
  find-append_some p [] ys x h = cc
  find-append_some p (y ∷ xs) ys x h = elim (if_found (p y) y x (find p xs) h) [
    | inl (first, same) ↦ rw first (ap some same)
    | inr (later, further) ↦ rw later (find-append_some p xs ys x further)
  ]

  pub any-find : (p : A → Bool) (xs : List A) → any p xs ≡ false → find p xs ≡ none
  any-find p [] h = refl
  any-find p (y ∷ xs) h =
      let first : p y ≡ false = ground arith in rw first (any-find p xs (ground arith))

  pub find-any : (p : A → Bool) (xs : List A) → any p xs ≡ true → (x : A) × (find p xs ≡ some x)
  find-any p [] h = cc
  find-any p (y ∷ xs) h = elim (Bool-cases (p y)) [
    | inl first ↦ (y, rw first refl)
    | inr other ↦ let (x, found) = find-any p xs (ground arith) in (x, rw other found)
  ]

  pub take_all : (n : ℕ) (xs : List A) → length xs ≤ n → take n xs ≡ xs
  take_all zero [] h = refl
  take_all zero (x ∷ xs) h = absurd (omega arith)
  take_all (suc n) [] h = refl
  take_all (suc n) (x ∷ xs) h = ap (λ ys. x ∷ ys) (take_all n xs (omega arith))

  pub all-get_elem? :
      (p : A → Bool) (xs : List A) (n : ℕ) (x : A)
      → all p xs ≡ true
      → get_elem? xs n ≡ some x
      → p x ≡ true
  all-get_elem? p [] n x h at = cc
  all-get_elem? p (y ∷ xs) zero x h at =
      sym (ap p (some-injective _ _ at)) ∙ (and-true (p y) (all p xs) h).0
  all-get_elem? p (y ∷ xs) (suc n) x h at =
      all-get_elem? p xs n x (and-true (p y) (all p xs) h).1 at

  pub all-imp :
      (p q : A → Bool) (xs : List A)
      → ((x : A) → p x ≡ true → q x ≡ true)
      → all p xs ≡ true
      → all q xs ≡ true
  all-imp p q [] kept h = h
  all-imp p q (x ∷ xs) kept h = ground (arith, kept x, all-imp p q xs kept)

  pub count_if-get_elem? :
      (p : A → Bool) (xs : List A) (n : ℕ) (x : A)
      → get_elem? xs n ≡ some x
      → p x ≡ true
      → 1 ≤ count_if p xs
  count_if-get_elem? p [] n x at it = cc
  count_if-get_elem? p (y ∷ xs) zero x at it =
      let first : p y ≡ true = ap p (some-injective _ _ at) ∙ it in rw first (omega arith)
  count_if-get_elem? p (y ∷ xs) (suc n) x at it =
      let rest = count_if-get_elem? p xs n x at it in ground arith

  -- Two places with the only row of its kind are one.
  pub get_elem?-only :
      (p : A → Bool) (xs : List A) (n m : ℕ) (x y : A)
      → count_if p xs ≤ 1
      → get_elem? xs n ≡ some x
      → get_elem? xs m ≡ some y
      → p x ≡ true
      → p y ≡ true
      → n ≡ m
  get_elem?-only p [] n m x y one at_n at_m px py = cc
  get_elem?-only p (z ∷ xs) zero zero x y one at_n at_m px py = refl
  get_elem?-only p (z ∷ xs) zero (suc m) x y one at_n at_m px py =
      let first : p z ≡ true = ap p (some-injective _ _ at_n) ∙ px in
      let rest = count_if-get_elem? p xs m y at_m py in absurd (ground arith)
  get_elem?-only p (z ∷ xs) (suc n) zero x y one at_n at_m px py =
      let first : p z ≡ true = ap p (some-injective _ _ at_m) ∙ py in
      let rest = count_if-get_elem? p xs n x at_n px in absurd (ground arith)
  get_elem?-only p (z ∷ xs) (suc n) (suc m) x y one at_n at_m px py =
      ap suc (get_elem?-only p xs n m x y (ground arith) at_n at_m px py)

-- There is a row of which `P` holds, and what a search that finds one, or none, says of the rows.
module _ {A : Type 0} where
  abbrev pub Some : (A → Type 0) → List A → Type 0
  Some P [] = ⊥
  Some P (x ∷ xs) = P x ⊎ Some P xs

  pub any-Some :
      (p : A → Bool) (P : A → Type 0) (xs : List A)
      → ((x : A) → p x ≡ true → P x)
      → any p xs ≡ true
      → Some P xs
  any-Some p P [] f h = cc
  any-Some p P (x ∷ xs) f h = elim (Bool-cases (p x)) [
    | inl hit ↦ inl (f x hit)
    | inr miss ↦ inr (any-Some p P xs f (rw miss at h))
  ]

  pub any-All :
      (p : A → Bool) (P : A → Type 0) (xs : List A)
      → ((x : A) → p x ≡ false → P x)
      → any p xs ≡ false
      → All P xs
  any-All p P [] f h = tt
  any-All p P (x ∷ xs) f h = (f x (ground arith), any-All p P xs f (ground arith))

  pub All-any :
      (p : A → Bool) (P : A → Type 0) (xs : List A)
      → ((x : A) → P x → p x ≡ false)
      → All P xs
      → any p xs ≡ false
  All-any p P [] f h = refl
  All-any p P (x ∷ xs) f (h, hs) = rw (f x h) (All-any p P xs f hs)

  pub find-Some :
      (p : A → Bool) (P : A → Type 0) (xs : List A) (y : A)
      → find p xs ≡ some y
      → (p y ≡ true → P y)
      → Some P xs
  find-Some p P [] y h f = cc
  find-Some p P (x ∷ xs) y h f = elim (Bool-cases (p x)) [
    | inl hit ↦ let same : x ≡ y = ground arith in inl (rw (← same) at (f (rw same at hit)))
    | inr miss ↦ inr (find-Some p P xs y (rw miss at h) f)
  ]
