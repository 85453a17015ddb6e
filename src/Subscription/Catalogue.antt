-- ===== src/Subscription/Catalogue.antt =====
-- `updatePlan` of src/services/plans.js: how a plan is edited. The plans are rows in the order of
-- `sortOrder`; the prices of a plan stand in the order they were given.
use wppflow_backend.Common.{
  ℕ, Bool, not, ◌&&◌, ◌||◌, Option, none, some, List, [], ◌∷◌, ◌++◌, map, Text, text, text_eq,
  has_text, to_lower, trim, is_empty, length, any, all, find, show_nat, ltb, if◌then◌else◌,
}
use wppflow_backend.Common.Result.{Result, ok, err, ◌>>=◌, ◌>>◌, refuse}
use wppflow_backend.Gst.Tax.{TaxMode}
use wppflow_backend.Subscription.Plans.{Entry}
use wppflow_backend.Subscription.Payment.{Given, missing, wrong, number}

pub record PlanPrice : Type 0 where
  pub interval : Text
  pub currency : Text
  pub amount_minor : ℕ

-- A plan with all its columns; `entry` has those that subscriptions read.
pub record PlanRow : Type 0 where
  pub entry : Entry
  pub seats : Option ℕ
  pub max_contacts : Option ℕ
  pub max_broadcasts : Option ℕ
  pub tax_mode : TaxMode
  pub trial_days : ℕ
  pub features : List Text
  pub prices : List PlanPrice

-- `changes` is the log of what a plan said before and after.
pub record Catalogue : Type 0 where
  pub rows : List PlanRow
  pub changes : List (PlanRow × PlanRow)

pub record PriceGiven : Type 0 where
  pub interval : Text
  pub currency : Text
  pub amount : Given

-- A field that is not mentioned is `none`; `some none` is a value of another kind than is asked for.
pub record PlanPatch : Type 0 where
  pub name : Option Text
  pub numbers : Option Given
  pub seats : Option Given
  pub max_contacts : Option Given
  pub max_broadcasts : Option Given
  pub tax_mode : Option (Option TaxMode)
  pub trial_days : Option Given
  pub is_active : Option (Option Bool)
  pub features : Option (Option (List Text))
  pub prices : Option (Option (List PriceGiven))

abbrev pub feature_labels : List Text
feature_labels =
    text "broadcasts"
    ∷ text "automations"
    ∷ text "leads"
    ∷ text "audit"
    ∷ text "api"
    ∷ text "ai"
    ∷ []

abbrev pub range_words : Text → ℕ → ℕ → Text
range_words label min max =
    label
    ++ (text " must be a whole number from " ++ (show_nat min ++ (text " to " ++ show_nat max)))

unfoldable pub whole : Text → ℕ → ℕ → Given → Result ℕ
whole label min max missing = err 400 (range_words label min max)
whole label min max wrong = err 400 (range_words label min max)
whole label min max (number n) = do
  refuse (ltb n min || ltb max n) 400 (range_words label min max)
  ok n

-- With `nullable`: null and the empty text stand for no limit.
unfoldable pub whole_or_blank : Text → ℕ → ℕ → Given → Result (Option ℕ)
whole_or_blank label min max missing = ok none
whole_or_blank label min max given = do n ← whole label min max given; ok (some n)

abbrev pub if_given {ℓ κ} : {A : Type ℓ} {B : Type κ} → Option A → B → (A → Result B) → Result B
if_given none old check = ok old
if_given (some v) old check = check v

abbrev pub plan_name : PlanRow → Text
plan_name r = to_lower (trim r.entry.name)

-- Another plan has the name, or the name is its code.
unfoldable pub is_clash : Text → Text → PlanRow → Bool
is_clash id name r =
    not (text_eq r.entry.code id)
    && (text_eq (plan_name r) (to_lower name) || text_eq r.entry.code (to_lower name))

unfoldable pub clean_name : List PlanRow → Text → Text → Result Text
clean_name rows id v = do
  refuse (is_empty (trim v) || ltb 60 (length (trim v))) 400
      (text "A plan needs a name of up to 60 characters")
  refuse (any (is_clash id (trim v)) rows) 400
      (text "Another plan is already called that. Choose a different name.")
  ok (trim v)

unfoldable pub clean_tax_mode : Option TaxMode → Result TaxMode
clean_tax_mode none =
    err 400 (text "Tax is either added to the price (exclusive) or already in it (inclusive)")
clean_tax_mode (some m) = ok m

unfoldable pub clean_active : Text → Option Bool → Result Bool
clean_active id none = err 400 (text "isActive must be true or false")
clean_active id (some active) = do
  refuse (not active && text_eq id (text "free")) 400 (text "The Free plan can't be taken off sale")
  ok active

-- `[...new Set(features)]`
unfoldable pub distinct : List Text → List Text → List Text
distinct seen [] = []
distinct seen (f ∷ fs) =
    let rest = distinct (f ∷ seen) fs in if has_text f seen then rest else f ∷ rest

-- What every JavaScript object has, and `f in FEATURE_LABELS` also finds.
abbrev pub inherited_names : List Text
inherited_names =
    text "constructor"
    ∷ text "toString"
    ∷ text "toLocaleString"
    ∷ text "valueOf"
    ∷ text "hasOwnProperty"
    ∷ text "isPrototypeOf"
    ∷ text "propertyIsEnumerable"
    ∷ text "__proto__"
    ∷ text "__defineGetter__"
    ∷ text "__defineSetter__"
    ∷ text "__lookupGetter__"
    ∷ text "__lookupSetter__"
    ∷ []

abbrev pub is_feature : Text → Bool
is_feature f = has_text f feature_labels || has_text f inherited_names

unfoldable pub clean_features : Option (List Text) → Result (List Text)
clean_features none = err 400 (text "Features must be a list")
clean_features (some fs) = do
  refuse (not (all is_feature fs)) 400 (text "Features must be some of the known ones")
  ok (distinct [] fs)

abbrev pub price_key : PriceGiven → Text
price_key p = p.interval ++ (58 ∷ p.currency)

unfoldable pub clean_prices : List Text → List PriceGiven → Result (List PlanPrice)
clean_prices seen [] = ok []
clean_prices seen (p ∷ ps) = do
  refuse
      (not (has_text p.interval (text "monthly" ∷ text "annual" ∷ []))
        || not (has_text p.currency (text "INR" ∷ text "AED" ∷ [])))
      400 (text "A price is for monthly or annual billing, in INR or AED")
  refuse (has_text (price_key p) seen) 400 (text "There are two such prices")
  amount ← whole (text "A price") 0 10000000000 p.amount
  rest ← clean_prices (price_key p ∷ seen) ps
  ok (record { interval = p.interval; currency = p.currency; amount_minor = amount } ∷ rest)

abbrev pub costs : PlanPrice → Bool
costs p = ltb 0 p.amount_minor

unfoldable pub clean_plan_prices : Text → Option (List PriceGiven) → Result (List PlanPrice)
clean_plan_prices id none = err 400 (text "Prices must be a list")
clean_plan_prices id (some ps) = do
  prices ← clean_prices [] ps
  refuse (text_eq id (text "free") && any costs prices) 400 (text "The Free plan has no price")
  ok prices

unfoldable pub clean_plan : List PlanRow → Text → PlanPatch → PlanRow → Result PlanRow
clean_plan rows id patch before = do
  name ← if_given patch.name before.entry.name (clean_name rows id)
  numbers ←
      if_given patch.numbers before.entry.numbers (whole_or_blank (text "WhatsApp numbers") 1 500)
  seats ← if_given patch.seats before.seats (whole_or_blank (text "People") 1 1000)
  contacts ←
      if_given patch.max_contacts before.max_contacts (whole_or_blank (text "Contacts") 1 100000000)
  broadcasts ←
      if_given patch.max_broadcasts before.max_broadcasts
        (whole_or_blank (text "Broadcasts a month") 1 100000)
  mode ← if_given patch.tax_mode before.tax_mode clean_tax_mode
  trial ← if_given patch.trial_days before.trial_days (whole (text "Trial days") 0 90)
  active ← if_given patch.is_active before.entry.is_active (clean_active id)
  features ← if_given patch.features before.features clean_features
  prices ← if_given patch.prices before.prices (clean_plan_prices id)
  ok (record {
    entry = record { code = before.entry.code; name = name; is_active = active; numbers = numbers };
    seats = seats;
    max_contacts = contacts;
    max_broadcasts = broadcasts;
    tax_mode = mode;
    trial_days = trial;
    features = features;
    prices = prices;
  })

abbrev pub has_code : Text → PlanRow → Bool
has_code id r = text_eq r.entry.code id

unfoldable pub replace_plan : Text → PlanRow → PlanRow → PlanRow
replace_plan id next r = if has_code id r then next else r

unfoldable pub update_plan : Catalogue → Text → PlanPatch → Result Catalogue
update_plan c code patch = elim (find (has_code (to_lower code)) c.rows) [
  | none ↦ err 404 (text "Plan not found")
  | some before ↦ do
    next ← clean_plan c.rows (to_lower code) patch before
    ok (record {
      rows = map (replace_plan (to_lower code) next) c.rows;
      changes = c.changes ++ (before, next) ∷ [];
    })
]

-- What subscriptions read.
abbrev pub entries : Catalogue → List Entry
entries c = map (λ r. r.entry) c.rows
