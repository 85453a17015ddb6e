-- ===== src/Matching/Promise.antt =====
-- A property is matched exactly when it meets every requirement that the prospect stated.
use wppflow_backend.Common.{
  ℕ, ◌≤◌, ◌↔◌, Bool, true, false, not, ◌&&◌, ◌||◌, Option, none, some, List, Text, text, text_eq,
  text_eq_iff, has_text, is_empty, is_some, any, if◌then◌else◌, ◌≡◌, refl, sym, ◌∙◌, arith,
  and-true,
}
use wppflow_backend.Matching.Listing.{Prospect, Property, is_list}
use wppflow_backend.Matching.Evaluate.{
  Code, Reason, Check, fails, adds, ◌and_then◌, expect, check_status, wanted_purpose, check_purpose,
  over, below, check_price, check_bedrooms, check_type, check_area, check_window, check_verified,
  evaluate,
}

unfoldable pub is_match : Check → Bool
is_match (fails c) = false
is_match (adds r w) = true

-- The most and the least that were asked for are kept.
abbrev pub Between : ℕ → Option ℕ → Option ℕ → Type 0
Between n least most = ((a : ℕ) → least ≡ some a → a ≤ n) × ((b : ℕ) → most ≡ some b → n ≤ b)

-- What the prospect asked for. The budget's least is no requirement, but it is in a currency.
pub record Meets (normal : Text → Text) (f : Prospect) (p : Property) : Type 0 where
  pub available : p.status ≡ text "available"
  pub offered : p.purpose ≡ wanted_purpose f
  pub priced : is_some p.price ≡ true
  pub afforded : (n b : ℕ) → p.price ≡ some n → f.budget_max ≡ some b → n ≤ b
  pub same_currency :
      (is_some f.budget_max || is_some f.budget_min) ≡ true → p.currency ≡ f.currency
  pub counted :
      (is_some f.bedrooms_min || is_some f.bedrooms_max) ≡ true → is_some p.bedrooms ≡ true
  pub roomy : (n : ℕ) → p.bedrooms ≡ some n → Between n f.bedrooms_min f.bedrooms_max
  pub of_type : is_list f.property_types ≡ true → has_text p.property_type f.property_types ≡ true
  pub in_area :
      is_list f.communities ≡ true
      → any
          (λ c. text_eq (normal c) (normal p.community) && not (is_empty (normal p.community)))
          f.communities
        ≡ true

is_match-and_then : (a b : Check) → is_match (a and_then b) ≡ (is_match a && is_match b)
unfolding is_match
is_match-and_then (fails c) b = refl
is_match-and_then (adds r w) (fails c) = refl
is_match-and_then (adds r w) (adds r' w') = refl

is_match-expect : (b : Bool) (c : Code) (r : List Reason) → is_match (expect b c r) ≡ b
unfolding is_match
is_match-expect true c r = refl
is_match-expect false c r = refl

price_matches :
    (f : Prospect) (p : Property) (n : ℕ)
    → is_match (check_price f p (some n)) ≡ (
        if is_some f.budget_max || is_some f.budget_min
        then text_eq p.currency f.currency && not (over n f.budget_max)
        else true)
unfolding check_price is_match
price_matches f p n = ground arith

rooms_match :
    (f : Prospect) (n : ℕ)
    → is_match (check_bedrooms f (some n)) ≡ not (below n f.bedrooms_min || over n f.bedrooms_max)
unfolding check_bedrooms is_match
rooms_match f n = ground arith

last_match :
    (f : Prospect) (p : Property) (now freshness : ℕ)
    → is_match (check_window f p now and_then check_verified p.last_verified_at now freshness)
      ≡ true
unfolding check_window check_verified is_match
last_match f p now freshness = ground arith

-- The checks one by one.
evaluate_all :
    (normal : Text → Text) (f : Prospect) (p : Property) (now freshness : ℕ)
    → is_match (evaluate normal f p now freshness) ≡ (
        text_eq p.status (text "available")
        && (text_eq p.purpose (wanted_purpose f)
            && (is_match (check_price f p p.price)
                && (is_match (check_bedrooms f p.bedrooms)
                    && (is_match (check_type f p) && (is_match (check_area normal f p) && true))))))
unfolding evaluate check_status check_purpose
evaluate_all normal f p now freshness =
    rw
      (
        is_match-and_then,
        is_match-and_then,
        is_match-and_then,
        is_match-and_then,
        is_match-and_then,
        is_match-and_then,
        is_match-expect,
        is_match-expect,
        last_match f p now freshness,
      )
      refl

price_meets :
    (f : Prospect) (p : Property) (o : Option ℕ)
    → is_match (check_price f p o) ≡ true
    → (is_some o ≡ true)
      × ((n b : ℕ) → o ≡ some n → f.budget_max ≡ some b → n ≤ b)
      × ((is_some f.budget_max || is_some f.budget_min) ≡ true → p.currency ≡ f.currency)
unfolding check_price is_match
price_meets f p none h = cc
price_meets f p (some n) h = (
  refl,
  (λ m b e g. ground (arith, price_matches f p n)),
  λ some_budget. (text_eq_iff p.currency f.currency).0 (ground (arith, price_matches f p n)),
)

price_met :
    (f : Prospect) (p : Property) (o : Option ℕ)
    → is_some o ≡ true
    → ((n b : ℕ) → o ≡ some n → f.budget_max ≡ some b → n ≤ b)
    → ((is_some f.budget_max || is_some f.budget_min) ≡ true → p.currency ≡ f.currency)
    → is_match (check_price f p o) ≡ true
price_met f p none h afforded same = cc
price_met f p (some n) h afforded same = price_matches f p n ∙ within f.budget_max refl
  where
    within :
        (o : Option ℕ)
        → f.budget_max ≡ o
        → (if is_some f.budget_max || is_some f.budget_min
            then text_eq p.currency f.currency && not (over n f.budget_max)
            else true)
          ≡ true
    within none e = ground (arith, text_eq_iff p.currency f.currency)
    within (some b) e = ground (arith, text_eq_iff p.currency f.currency, afforded n b refl e)

rooms_meet :
    (f : Prospect) (o : Option ℕ)
    → is_match (check_bedrooms f o) ≡ true
    → ((is_some f.bedrooms_min || is_some f.bedrooms_max) ≡ true → is_some o ≡ true)
      × ((n : ℕ) → o ≡ some n → Between n f.bedrooms_min f.bedrooms_max)
unfolding check_bedrooms is_match
rooms_meet f none h = ((λ asked. ground arith), λ n e. cc)
rooms_meet f (some m) h = (
  (λ asked. refl),
  λ n e. ((λ a q. ground (arith, rooms_match f m)), λ b q. ground (arith, rooms_match f m)),
)

Between-over : (m : ℕ) (lo hi : Option ℕ) → Between m lo hi → not (below m lo || over m hi) ≡ true
Between-over m none none (a, b) = refl
Between-over m none (some y) (a, b) = ground (arith, b y refl)
Between-over m (some x) none (a, b) = ground (arith, a x refl)
Between-over m (some x) (some y) (a, b) = ground (arith, a x refl, b y refl)

rooms_met :
    (f : Prospect) (o : Option ℕ)
    → ((is_some f.bedrooms_min || is_some f.bedrooms_max) ≡ true → is_some o ≡ true)
    → ((n : ℕ) → o ≡ some n → Between n f.bedrooms_min f.bedrooms_max)
    → is_match (check_bedrooms f o) ≡ true
unfolding check_bedrooms is_match
rooms_met f none counted roomy = ground (arith, counted)
rooms_met f (some m) counted roomy =
    rooms_match f m ∙ Between-over m f.bedrooms_min f.bedrooms_max (roomy m refl)

type_matches :
    (f : Prospect) (p : Property)
    → is_match (check_type f p)
      ≡ (if is_list f.property_types then has_text p.property_type f.property_types else true)
unfolding check_type is_match
type_matches f p = ground arith

area_matches :
    (normal : Text → Text) (f : Prospect) (p : Property)
    → is_match (check_area normal f p) ≡ (
        if is_list f.communities
        then any
            (λ c. text_eq (normal c) (normal p.community) && not (is_empty (normal p.community)))
            f.communities
        else true)
unfolding check_area is_match
area_matches normal f p = ground arith

evaluate-Meets :
    (normal : Text → Text) (f : Prospect) (p : Property) (now freshness : ℕ)
    → is_match (evaluate normal f p now freshness) ≡ true
    → Meets normal f p
evaluate-Meets normal f p now freshness h =
    let (status, h1) = and-true _ _ (sym (evaluate_all normal f p now freshness) ∙ h) in
    let (purpose, h2) = and-true _ _ h1 in
    let (price, h3) = and-true _ _ h2 in
    let (rooms, h4) = and-true _ _ h3 in
    let (kind, h5) = and-true _ _ h4 in
    let (area, _) = and-true _ _ h5 in
    let (priced, afforded, same_currency) = price_meets f p p.price price in
    let (counted, roomy) = rooms_meet f p.bedrooms rooms in
    record {
      available = (text_eq_iff _ _).0 status;
      offered = (text_eq_iff _ _).0 purpose;
      priced = priced;
      afforded = afforded;
      same_currency = same_currency;
      counted = counted;
      roomy = roomy;
      of_type = λ asked. rw asked at (sym (type_matches f p) ∙ kind);
      in_area = λ asked. rw asked at (sym (area_matches normal f p) ∙ area);
    }

Meets-evaluate :
    (normal : Text → Text) (f : Prospect) (p : Property) (now freshness : ℕ)
    → Meets normal f p
    → is_match (evaluate normal f p now freshness) ≡ true
Meets-evaluate normal f p now freshness m =
    let status = (text_eq_iff _ _).1 m.available in
    let purpose = (text_eq_iff _ _).1 m.offered in
    let price = price_met f p p.price m.priced m.afforded m.same_currency in
    let rooms = rooms_met f p.bedrooms m.counted m.roomy in
    let kind : is_match (check_type f p) ≡ true = ground (arith, type_matches f p, m.of_type) in
    let area : is_match (check_area normal f p) ≡ true =
      ground (arith, area_matches normal f p, m.in_area) in
    evaluate_all normal f p now freshness ∙ rw (status, purpose, price, rooms, kind, area) refl

-- A property is matched if and only if it meets every requirement that the prospect stated, whatever
-- the day and whenever the property was last checked.
pub evaluate-iff-Meets :
    (normal : Text → Text) (f : Prospect) (p : Property) (now freshness : ℕ)
    → (is_match (evaluate normal f p now freshness) ≡ true) ↔ Meets normal f p
evaluate-iff-Meets normal f p now freshness =
    (evaluate-Meets normal f p now freshness, Meets-evaluate normal f p now freshness)
