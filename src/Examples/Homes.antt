-- ===== src/Examples/Homes.antt =====
-- A search for a home at a small input.
use wppflow_backend.Common.{ℕ, true, none, some, List, [], ◌∷◌, text, text_eq, ◌↔◌, ◌≡◌, refl}
use wppflow_backend.Matching.Listing.{
  Prospect, Property, matchability, demand_types, has_requirements,
}
use wppflow_backend.Matching.Evaluate.{evaluate}
use wppflow_backend.Matching.Promise.{Meets, is_match, evaluate-iff-Meets}
use wppflow_backend.Matching.Search.{Match, LeftOut, World, found, match_properties}
use wppflow_backend.Matching.Counts.{IsAnswer, match_properties-IsAnswer}

abbrev buyer : Prospect
buyer = record {
  lead_type = text "buyer";
  intent = text "buy";
  currency = text "AED";
  budget_min = none;
  budget_max = some 900000;
  bedrooms_min = some 2;
  bedrooms_max = none;
  property_types = [];
  communities = [];
  timeline = text "unknown";
}

abbrev flat : Property
flat = record {
  reference = text "A-1";
  status = text "available";
  purpose = text "sale";
  price = some 850000;
  currency = text "AED";
  bedrooms = some 2;
  property_type = text "apartment";
  community = text "Marina";
  available_from = none;
  last_verified_at = none;
}

abbrev desk : World
desk = record { normal = λ t. t; not_after = λ a b. true; now = 0; freshness = 14; limit = 20 }

evaluate-iff-Meets_example :
    (is_match (evaluate (λ t. t) buyer flat 0 14) ≡ true) ↔ Meets (λ t. t) buyer flat
evaluate-iff-Meets_example = evaluate-iff-Meets (λ t. t) buyer flat 0 14

buyer_test : matchability (some buyer) ≡ none
unfolding matchability demand_types has_requirements text_eq
buyer_test = refl

match_properties-IsAnswer_example :
    (ms : List Match) × (total : ℕ) × (candidates : ℕ) × (left : LeftOut) × (match_properties desk
        (some buyer)
        (flat ∷ [])
      ≡ found ms total candidates left)
    × IsAnswer desk buyer ms total candidates left
match_properties-IsAnswer_example = match_properties-IsAnswer desk buyer (flat ∷ []) buyer_test
