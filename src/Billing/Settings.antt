-- ===== src/Billing/Settings.antt =====
-- src/services/billingSettings.js: the seller and the tax, and how a change of them is checked. A
-- field of a change that is not mentioned is `none`.
use wppflow_backend.Common.{
  ℕ, ◌+◌, ◌-◌, ◌%◌, Bool, true, false, not, ◌&&◌, ◌||◌, Option, none, some, List, [], ◌∷◌, ◌++◌,
  map, Text, text, text_eq, trim, is_empty, length, take, all, show_nat, pad_zeros, leb, ltb, ◌==◌,
  if◌then◌else◌,
}
use wppflow_backend.Common.Result.{Result, ok, err, ◌>>=◌, ◌>>◌, refuse}
use wppflow_backend.Gst.Number.{states, state_name, upper, is_digit, is_capital, valid_gstin}
use wppflow_backend.Gst.Profile.{field_text, is_email}
use wppflow_backend.Subscription.Dates.{Day}
use wppflow_backend.Subscription.Payment.{Given, missing, wrong, number}

pub record Seller : Type 0 where
  pub legal_name : Text
  pub trade_name : Text
  pub gstin : Text
  pub address_lines : List Text
  pub city : Text
  pub state : Option Text
  pub state_code : Text
  pub postal_code : Text
  pub email : Text

pub record Settings : Type 0 where
  pub seller : Seller
  pub sac_code : Text
  pub gst_rate : ℕ
  pub invoice_prefix : Text
  pub prorate_upgrades : Bool

pub record SellerPatch : Type 0 where
  pub legal_name : Option Text
  pub trade_name : Option Text
  pub gstin : Option Text
  -- `some none` is no list
  pub address_lines : Option (Option (List Text))
  pub city : Option Text
  pub postal_code : Option Text
  pub email : Option Text

pub record Patch : Type 0 where
  pub sac_code : Option Text
  pub gst_rate : Given
  pub invoice_prefix : Option Text
  -- `some none` is no Boolean
  pub prorate_upgrades : Option (Option Bool)
  pub seller : Option SellerPatch

-- `String(n).padStart(2, "0")` and the year that a financial year starts in.
unfoldable pub financial_year_series : Day → Text
financial_year_series d =
    let start = if leb 4 d.month then d.year else d.year - 1 in
    pad_zeros 2 (show_nat (start % 100)) ++ (45 ∷ pad_zeros 2 (show_nat ((start + 1) % 100)))

-- PREFIX/26-27/00001
unfoldable pub invoice_number : Text → Text → ℕ → Text
invoice_number prefix series seq = prefix ++ (47 ∷ (series ++ (47 ∷ pad_zeros 5 (show_nat seq))))

-- `/^99\d{4}$/`
unfoldable pub is_sac : Text → Bool
is_sac s = text_eq (take 2 s) (text "99") && length s == 6 && all is_digit s

-- `/^[A-Z0-9]{1,3}$/`
unfoldable pub is_prefix : Text → Bool
is_prefix s = leb 1 (length s) && leb (length s) 3 && all (λ c. is_digit c || is_capital c) s

-- `/^\d{6}$/`
unfoldable pub is_six_digits : Text → Bool
is_six_digits s = length s == 6 && all is_digit s

-- A field that is not mentioned stays as it is.
abbrev pub or_keep {ℓ κ} : {A : Type ℓ} {B : Type κ} → Option A → B → (A → Result B) → Result B
or_keep none old check = ok old
or_keep (some v) old check = check v

unfoldable pub clean_sac : Text → Result Text
clean_sac v = do
  refuse (not (is_sac (trim v))) 400
      (text "A service accounting code (SAC) is six digits and starts with 99, for example 998314")
  ok (trim v)

unfoldable pub clean_rate : Given → ℕ → Result ℕ
clean_rate missing old = ok old
clean_rate wrong old = err 400 (text "The GST rate must be a whole number from 0 to 28")
clean_rate (number n) old = do
  refuse (ltb 28 n) 400 (text "The GST rate must be a whole number from 0 to 28")
  ok n

unfoldable pub clean_prefix : Text → Result Text
clean_prefix v = do
  refuse (not (is_prefix (map upper (trim v)))) 400 (
      text
        "The invoice prefix is one to three letters or digits, for example SCZ. An invoice number can be at most 16 characters long.")
  ok (map upper (trim v))

unfoldable pub clean_prorate : Option Bool → Result Bool
clean_prorate none = err 400 (text "Say whether an upgrade credits the unused days")
clean_prorate (some b) = ok b

unfoldable pub clean_seller_gstin : Text → Result Text
clean_seller_gstin v = do
  refuse (not (valid_gstin (map upper (trim v)))) 400 (
      text
        "That GSTIN is not valid. It has 15 characters and ends with a check character; copy it from the registration certificate.")
  ok (map upper (trim v))

-- Each line is checked, and those that are empty are left out.
unfoldable pub clean_lines : List Text → Result (List Text)
clean_lines [] = ok []
clean_lines (l ∷ ls) = do
  line ← field_text l (text "An address line") 120 false
  rest ← clean_lines ls
  ok (if is_empty line then rest else line ∷ rest)

unfoldable pub clean_address : Option (List Text) → Result (List Text)
clean_address none = err 400 (text "The address is a list of lines")
clean_address (some ls) = do
  lines ← clean_lines ls
  refuse (length lines == 0 || ltb 3 (length lines)) 400
      (text "Give the address in one to three lines")
  ok lines

unfoldable pub clean_code : Text → Result Text
clean_code v = do
  refuse (not (is_six_digits (trim v))) 400 (text "The PIN code is six digits")
  ok (trim v)

unfoldable pub clean_email : Text → Result Text
clean_email v = do
  email ← field_text v (text "Billing email") 120 true
  refuse (not (is_email email)) 400 (text "That billing email is not valid")
  ok email

-- The state is the one that the GSTIN starts with.
unfoldable pub clean_seller : SellerPatch → Seller → Result Seller
clean_seller s old = do
  legal ← or_keep s.legal_name old.legal_name (λ v. field_text v (text "Legal name") 120 true)
  trade ← or_keep s.trade_name old.trade_name (λ v. field_text v (text "Trade name") 60 false)
  gstin ← or_keep s.gstin old.gstin clean_seller_gstin
  lines ← or_keep s.address_lines old.address_lines clean_address
  city ← or_keep s.city old.city (λ v. field_text v (text "City") 80 true)
  code ← or_keep s.postal_code old.postal_code clean_code
  email ← or_keep s.email old.email clean_email
  ok (record {
    legal_name = legal;
    trade_name = trade;
    gstin = gstin;
    address_lines = lines;
    city = city;
    state = state_name (take 2 gstin) states;
    state_code = take 2 gstin;
    postal_code = code;
    email = email;
  })

-- A change, checked before anything is saved.
unfoldable pub clean_settings : Patch → Settings → Result Settings
clean_settings patch base = do
  sac ← or_keep patch.sac_code base.sac_code clean_sac
  rate ← clean_rate patch.gst_rate base.gst_rate
  prefix ← or_keep patch.invoice_prefix base.invoice_prefix clean_prefix
  prorate ← or_keep patch.prorate_upgrades base.prorate_upgrades clean_prorate
  seller ← or_keep patch.seller base.seller (λ s. clean_seller s base.seller)
  ok (record {
    seller = seller;
    sac_code = sac;
    gst_rate = rate;
    invoice_prefix = prefix;
    prorate_upgrades = prorate;
  })
