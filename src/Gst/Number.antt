-- ===== src/Gst/Number.antt =====
-- GST state codes and `validGstin`. `toUpperCase` is that of ASCII letters.
use wppflow_backend.Common.{
  ℕ, ◌+◌, ◌-◌, ◌*◌, ◌/◌, ◌%◌, Bool, true, false, ◌&&◌, ◌||◌, ◌≡◌, refl, Option, none, some, List,
  [], ◌∷◌, map, Text, text, text_eq, has_text, object_names, is_some, leb, ltb, ◌==◌, if◌then◌else◌,
  take, get_elem?,
}

unfoldable pub states : List (Text × Text)
states =
    (text "01", text "Jammu and Kashmir")
    ∷ (text "02", text "Himachal Pradesh")
    ∷ (text "03", text "Punjab")
    ∷ (text "04", text "Chandigarh")
    ∷ (text "05", text "Uttarakhand")
    ∷ (text "06", text "Haryana")
    ∷ (text "07", text "Delhi")
    ∷ (text "08", text "Rajasthan")
    ∷ (text "09", text "Uttar Pradesh")
    ∷ (text "10", text "Bihar")
    ∷ (text "11", text "Sikkim")
    ∷ (text "12", text "Arunachal Pradesh")
    ∷ (text "13", text "Nagaland")
    ∷ (text "14", text "Manipur")
    ∷ (text "15", text "Mizoram")
    ∷ (text "16", text "Tripura")
    ∷ (text "17", text "Meghalaya")
    ∷ (text "18", text "Assam")
    ∷ (text "19", text "West Bengal")
    ∷ (text "20", text "Jharkhand")
    ∷ (text "21", text "Odisha")
    ∷ (text "22", text "Chhattisgarh")
    ∷ (text "23", text "Madhya Pradesh")
    ∷ (text "24", text "Gujarat")
    ∷ (text "26", text "Dadra and Nagar Haveli and Daman and Diu")
    ∷ (text "27", text "Maharashtra")
    ∷ (text "29", text "Karnataka")
    ∷ (text "30", text "Goa")
    ∷ (text "31", text "Lakshadweep")
    ∷ (text "32", text "Kerala")
    ∷ (text "33", text "Tamil Nadu")
    ∷ (text "34", text "Puducherry")
    ∷ (text "35", text "Andaman and Nicobar Islands")
    ∷ (text "36", text "Telangana")
    ∷ (text "37", text "Andhra Pradesh")
    ∷ (text "38", text "Ladakh")
    ∷ (text "97", text "Other Territory")
    ∷ []

-- `STATES[code]` of a code of two characters: the names that every object has are longer.
unfoldable pub state_name : Text → List (Text × Text) → Option Text
state_name code [] = none
state_name code ((k, name) ∷ rest) =
    let later = state_name code rest in if text_eq k code then some name else later

-- Whether `STATES[code]` is anything: also for a name that every object has, such as `constructor`.
unfoldable pub is_state : Text → Bool
unfolding states state_name object_names
is_state code = is_some (state_name code states) || has_text code object_names

unfoldable pub upper : ℕ → ℕ
upper c = if leb 97 c && leb c 122 then c - 32 else c

abbrev pub is_digit : ℕ → Bool
is_digit c = leb 48 c && leb c 57

abbrev pub is_capital : ℕ → Bool
is_capital c = leb 65 c && leb c 90

-- What the pattern of a GSTIN asks for at each of its 15 places.
unfoldable pub pattern_at : ℕ → ℕ → Bool
pattern_at i c =
    if ltb i 2
    then is_digit c
    else if ltb i 7
    then is_capital c
    else if ltb i 11
    then is_digit c
    else if i == 11
    then is_capital c
    else if i == 12
    then (leb 49 c && leb c 57) || is_capital c
    else if i == 13
    then c == 90
    else i == 14 && (is_digit c || is_capital c)

unfoldable pub matches_from : ℕ → Text → Bool
unfolding pattern_at
matches_from i [] = i == 15
matches_from i (c ∷ s) = pattern_at i c && matches_from (i + 1) s

-- `CHARS.indexOf(c)`, of a digit or a capital letter.
unfoldable pub index_of : ℕ → ℕ
index_of c = if leb 65 c then c - 55 else c - 48

-- What the character at place `i` adds to the sum.
unfoldable pub weight : ℕ → ℕ → ℕ
unfolding index_of
weight i c = let product = index_of c * (if i % 2 == 0 then 1 else 2) in product / 36 + product % 36

-- The loop over the first 14 places, from place `i`.
unfoldable pub sum_from : ℕ → Text → ℕ
unfolding weight
sum_from i [] = 0
sum_from i (c ∷ s) = if ltb i 14 then weight i c + sum_from (i + 1) s else 0

-- `CHARS[(36 - (sum % 36)) % 36] === g[14]`
unfoldable pub check_matches : ℕ → Option ℕ → Bool
unfolding index_of
check_matches sum none = false
check_matches sum (some c) = (36 - sum % 36) % 36 == index_of c

-- `validGstin`, of the value in capitals.
unfoldable pub valid_capitals : Text → Bool
unfolding matches_from state_name states sum_from check_matches
valid_capitals g =
    matches_from 0 g
    && is_some (state_name (take 2 g) states)
    && check_matches (sum_from 0 g) (get_elem? g 14)

unfoldable pub valid_gstin : Text → Bool
unfolding valid_capitals upper
valid_gstin value = valid_capitals (map upper value)

-- A state code that no state has, and that is accepted.
inherited_test : is_state (text "constructor") ≡ true
unfolding is_state text_eq
inherited_test = refl

valid_test :
    (valid_gstin (text "27aapfu0939f1zv") ≡ true) × (valid_gstin (text "27AAPFU0939F1ZW") ≡ false)
unfolding valid_gstin text_eq
valid_test = (refl, refl)
