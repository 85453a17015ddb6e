-- ===== src/Matching/Listing.antt =====
-- A prospect's requirements and a property, as matching.js reads them. Times are milliseconds.
use wppflow_backend.Common.{
  ℕ, Bool, true, false, not, ◌&&◌, ◌||◌, Option, none, some, List, [], ◌∷◌, Text, text, has_text,
  is_empty, is_some, if◌then◌else◌,
}

pub record Prospect : Type 0 where
  pub lead_type : Text
  pub intent : Text
  pub currency : Text
  pub budget_min : Option ℕ
  pub budget_max : Option ℕ
  pub bedrooms_min : Option ℕ
  pub bedrooms_max : Option ℕ
  pub property_types : List Text
  pub communities : List Text
  pub timeline : Text

pub record Property : Type 0 where
  pub reference : Text
  pub status : Text
  pub purpose : Text
  pub price : Option ℕ
  pub currency : Text
  pub bedrooms : Option ℕ
  pub property_type : Text
  pub community : Text
  pub available_from : Option ℕ
  pub last_verified_at : Option ℕ

abbrev pub is_list {ℓ} : {A : Type ℓ} → List A → Bool
is_list [] = false
is_list (x ∷ xs) = true

unfoldable pub demand_types : List Text
demand_types = text "buyer" ∷ text "tenant" ∷ text "investor" ∷ []

-- Whether `requirementsOf` names anything.
unfoldable pub has_requirements : Prospect → Bool
has_requirements p =
    is_some p.budget_max
    || is_list p.communities
    || is_list p.property_types
    || (is_some p.bedrooms_min || is_some p.bedrooms_max)

-- Why there is nothing to match.
pub data Refusal : Type 0 where
  not_qualified offers_property no_intent no_currency no_requirement : Refusal

-- `none` is `{ ok: true }`.
unfoldable pub matchability : Option Prospect → Option Refusal
matchability none = some not_qualified
matchability (some p) =
    if not (has_text p.lead_type demand_types)
    then some offers_property
    else if is_empty p.intent
    then some no_intent
    else if is_some p.budget_max && is_empty p.currency
    then some no_currency
    else if not (has_requirements p)
    then some no_requirement
    else none
