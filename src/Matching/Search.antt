-- ===== src/Matching/Search.antt =====
-- `matchProperties` of matching.js.
use wppflow_backend.Common.{
  ℕ, ◌+◌, Bool, Option, none, some, List, [], ◌∷◌, ◌++◌, Text, or_else, length, take, ltb, ◌==◌,
  if◌then◌else◌,
}
use wppflow_backend.Matching.Listing.{Prospect, Property, Refusal, matchability}
use wppflow_backend.Matching.Evaluate.{
  Code, currency, budget, bedrooms, type_code, area, Reason, Warning, Verification, fresh, stale,
  never, Check, fails, adds, verification_of, evaluate,
}

pub record Match : Type 0 where
  pub property : Property
  pub reasons : List Reason
  pub warnings : List Warning
  pub verification : Verification

-- How many listings failed each requirement that was stated.
pub record LeftOut : Type 0 where
  pub currency : ℕ
  pub budget : ℕ
  pub bedrooms : ℕ
  pub type : ℕ
  pub area : ℕ

pub record Tally : Type 0 where
  pub matches : List Match
  pub left_out : LeftOut
  pub candidates : ℕ

-- The other codes are not counted.
unfoldable pub count_code : Code → Tally → Tally
count_code currency s = record s {
  candidates = s.candidates + 1;
  left_out = record s.left_out { currency = s.left_out.currency + 1 };
}
count_code budget s = record s {
  candidates = s.candidates + 1;
  left_out = record s.left_out { budget = s.left_out.budget + 1 };
}
count_code bedrooms s = record s {
  candidates = s.candidates + 1;
  left_out = record s.left_out { bedrooms = s.left_out.bedrooms + 1 };
}
count_code type_code s = record s {
  candidates = s.candidates + 1;
  left_out = record s.left_out { type = s.left_out.type + 1 };
}
count_code area s = record s {
  candidates = s.candidates + 1;
  left_out = record s.left_out { area = s.left_out.area + 1 };
}
count_code _ s = s

unfoldable pub rank : Verification → ℕ
rank fresh = 0
rank stale = 1
rank never = 2

-- What a search is given besides the listings: `localeCompare` as "not after", and `normalizeText`.
pub record World : Type 0 where
  pub normal : Text → Text
  pub not_after : Text → Text → Bool
  pub now : ℕ
  pub freshness : ℕ
  pub limit : ℕ

unfoldable pub count_check : World → Property → Check → Tally → Tally
unfolding count_code
count_check w p (fails c) s = count_code c s
count_check w p (adds r n) s = record s {
  candidates = s.candidates + 1;
  matches =
      s.matches
      ++ record {
        property = p;
        reasons = r;
        warnings = n;
        verification = verification_of p.last_verified_at w.now w.freshness;
      }
        ∷ [];
}

-- The loop over the listings.
unfoldable pub count_all : World → Prospect → List Property → Tally → Tally
count_all w f [] s = s
count_all w f (p ∷ ps) s =
    count_all w f ps (count_check w p (evaluate w.normal f p w.now w.freshness) s)

-- A match has a price.
abbrev pub price_of : Match → ℕ
price_of m = or_else m.property.price 0

-- The best verified first, then the cheapest, then by reference.
unfoldable pub goes_first : World → Match → Match → Bool
unfolding rank
goes_first w a b =
    if rank a.verification == rank b.verification
    then (if price_of a == price_of b
        then w.not_after a.property.reference b.property.reference
        else ltb (price_of a) (price_of b))
    else ltb (rank a.verification) (rank b.verification)

unfoldable pub insert : World → Match → List Match → List Match
insert w m [] = m ∷ []
insert w m (n ∷ ns) =
    let later = insert w m ns in if goes_first w m n then m ∷ n ∷ ns else n ∷ later

-- A stable sort.
unfoldable pub sort_matches : World → List Match → List Match
sort_matches w [] = []
sort_matches w (m ∷ ms) = insert w m (sort_matches w ms)

pub data Found : Type 0 where
  refused : Refusal → Found
  -- matches, total, candidates, left out
  found : List Match → ℕ → ℕ → LeftOut → Found

abbrev pub empty_tally : Tally
empty_tally = record {
  matches = [];
  left_out = record { currency = 0; budget = 0; bedrooms = 0; type = 0; area = 0 };
  candidates = 0;
}

unfoldable pub search_qualified : World → Prospect → List Property → Found
search_qualified w f ps =
    let s = count_all w f ps empty_tally in
    found (take w.limit (sort_matches w s.matches)) (length s.matches) s.candidates s.left_out

unfoldable pub answer_for : World → Option Prospect → List Property → Option Refusal → Found
answer_for w f ps (some why) = refused why
answer_for w none ps none = refused Refusal.not_qualified
answer_for w (some f) ps none = search_qualified w f ps

unfoldable pub match_properties : World → Option Prospect → List Property → Found
match_properties w f ps = answer_for w f ps (matchability f)
