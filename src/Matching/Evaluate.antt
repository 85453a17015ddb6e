-- ===== src/Matching/Evaluate.antt =====
-- `evaluate` of matching.js: one property against one prospect. A check fails with its code, or adds
-- reasons and warnings, which stand here for their sentences.
use wppflow_backend.Common.{
  ℕ, ◌+◌, ◌-◌, ◌*◌, ◌/◌, Bool, true, false, not, ◌&&◌, ◌||◌, Option, none, some, List, [], ◌∷◌,
  ◌++◌, Text, text, text_eq, has_text, is_empty, is_some, any, ltb, if◌then◌else◌,
}
use wppflow_backend.Matching.Listing.{Prospect, Property, is_list}

pub data Code : Type 0 where
  status purpose price currency budget bedrooms type_code area : Code

pub data Reason : Type 0 where
  for_sale for_rent within_budget bedrooms_fit type_fits area_fits : Reason
  checked : ℕ → Reason

pub data Warning : Type 0 where
  below_budget available_late never_checked : Warning
  checked_long_ago : ℕ → Warning

pub data Verification : Type 0 where
  fresh stale never : Verification

pub data Check : Type 0 where
  fails : Code → Check
  adds : List Reason → List Warning → Check

infixr 5 ◌and_then◌
-- The first check that fails is the answer.
abbrev pub ◌and_then◌ : Check → Check → Check
fails c and_then later = fails c
adds r w and_then fails c = fails c
adds r w and_then adds r' w' = adds (r ++ r') (w ++ w')

abbrev pub expect : Bool → Code → List Reason → Check
expect true c r = adds r []
expect false c r = fails c

unfoldable pub check_status : Property → Check
check_status p = expect (text_eq p.status (text "available")) status []

unfoldable pub wanted_purpose : Prospect → Text
wanted_purpose f = if text_eq f.intent (text "buy") then text "sale" else text "rent"

unfoldable pub check_purpose : Prospect → Property → Check
check_purpose f p =
    expect (text_eq p.purpose (wanted_purpose f)) purpose
      ((if text_eq f.intent (text "buy") then for_sale else for_rent) ∷ [])

-- Over the most, or below the least.
abbrev pub over : ℕ → Option ℕ → Bool
over n none = false
over n (some most) = ltb most n

abbrev pub below : ℕ → Option ℕ → Bool
below n none = false
below n (some least) = ltb n least

unfoldable pub check_price : Prospect → Property → Option ℕ → Check
check_price f p none = fails price
check_price f p (some n) =
    if is_some f.budget_max || is_some f.budget_min
    then (expect (text_eq p.currency f.currency) currency []
        and_then expect (not (over n f.budget_max)) budget
            (if is_some f.budget_max then within_budget ∷ [] else [])
        and_then adds [] (if below n f.budget_min then below_budget ∷ [] else []))
    else adds [] []

unfoldable pub check_bedrooms : Prospect → Option ℕ → Check
check_bedrooms f rooms =
    if is_some f.bedrooms_min || is_some f.bedrooms_max
    then (elim rooms [
      | none ↦ fails bedrooms
      | some n ↦
          expect (not (below n f.bedrooms_min || over n f.bedrooms_max)) bedrooms
            (bedrooms_fit ∷ [])
    ])
    else adds [] []

unfoldable pub check_type : Prospect → Property → Check
check_type f p =
    if is_list f.property_types
    then expect (has_text p.property_type f.property_types) type_code (type_fits ∷ [])
    else adds [] []

-- `normal` is `normalizeText` of text.js, which normalizes Unicode.
unfoldable pub check_area : (Text → Text) → Prospect → Property → Check
check_area normal f p =
    if is_list f.communities
    then expect
        (any (λ c. text_eq (normal c) (normal p.community) && not (is_empty (normal p.community)))
          f.communities)
        area (area_fits ∷ [])
    else adds [] []

abbrev pub day_ms : ℕ
day_ms = 86400000

unfoldable pub window_days : Text → Option ℕ
window_days t =
    if text_eq t (text "immediate")
    then some 30
    else if text_eq t (text "1_month")
    then some 30
    else if text_eq t (text "3_months")
    then some 90
    else if text_eq t (text "6_months")
    then some 180
    else none

abbrev pub is_late_for : Option ℕ → Option ℕ → ℕ → Bool
is_late_for none from now = false
is_late_for (some days) none now = false
is_late_for (some days) (some from) now = ltb (now + days * day_ms) from

unfoldable pub check_window : Prospect → Property → ℕ → Check
check_window f p now =
    adds [] (
      if is_late_for (window_days f.timeline) p.available_from now then available_late ∷ [] else [])

unfoldable pub days_ago : ℕ → ℕ → ℕ
days_ago at now = (now - at) / day_ms

unfoldable pub verification_of : Option ℕ → ℕ → ℕ → Verification
verification_of none now freshness = never
verification_of (some at) now freshness = if ltb freshness (days_ago at now) then stale else fresh

unfoldable pub check_verified : Option ℕ → ℕ → ℕ → Check
check_verified none now freshness = adds [] (never_checked ∷ [])
check_verified (some at) now freshness =
    if ltb freshness (days_ago at now)
    then adds [] (checked_long_ago (days_ago at now) ∷ [])
    else adds (checked (days_ago at now) ∷ []) []

unfoldable pub evaluate : (Text → Text) → Prospect → Property → ℕ → ℕ → Check
evaluate normal f p now freshness =
    check_status p
    and_then check_purpose f p
    and_then check_price f p p.price
    and_then check_bedrooms f p.bedrooms
    and_then check_type f p
    and_then check_area normal f p
    and_then check_window f p now
    and_then check_verified p.last_verified_at now freshness
