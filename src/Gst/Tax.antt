-- ===== src/Gst/Tax.antt =====
-- `computeTax` and `isIntraState`. Amounts are whole paise and rates whole per cents; the doubles of
-- the source hold them and their products exactly below 2^53, and a quotient that is not a half is
-- further from every half than their rounding reaches while amounts are below 2^44.
use wppflow_backend.Common.{
  ℕ, ◌+◌, ◌-◌, ◌*◌, ◌/◌, ◌≤◌, ◌<◌, Bool, true, false, ◌≡◌, Option, none, some, Text, text, text_eq,
  if◌then◌else◌, arith,
}
use native.Mathlib.Nat.{div-lt_iff_lt-mul}
use wppflow_backend.Common.Result.{Result, ok, err}

pub data TaxMode : Type 0 where
  exclusive inclusive : TaxMode

pub record Tax : Type 0 where
  pub taxable : ℕ
  pub tax : ℕ
  pub total : ℕ
  pub cgst : ℕ
  pub sgst : ℕ
  pub igst : ℕ
  pub rate : ℕ

-- `Math.round(a / b)`
unfoldable pub round_div : ℕ → ℕ → ℕ
round_div a b = (2 * a + b) / (2 * b)

-- The tax, split between the centre and the state inside the seller's state.
unfoldable pub split_tax : ℕ → ℕ → ℕ → Bool → ℕ → Tax
unfolding round_div
split_tax taxable tax total intra rate =
    let cgst = if intra then round_div tax 2 else 0 in
    record {
      taxable = taxable;
      tax = tax;
      total = total;
      cgst = cgst;
      sgst = if intra then tax - cgst else 0;
      igst = if intra then 0 else tax;
      rate = rate;
    }

unfoldable pub tax_on : ℕ → TaxMode → Bool → ℕ → Tax
unfolding split_tax round_div
tax_on given inclusive intra rate =
    let taxable = round_div (given * 100) (100 + rate) in
    split_tax taxable (given - taxable) given intra rate
tax_on given exclusive intra rate =
    let tax = round_div (given * rate) 100 in split_tax given tax (given + tax) intra rate

-- `none` is an amount that is no number, or below zero.
unfoldable pub compute_tax : Option ℕ → TaxMode → Bool → ℕ → Result Tax
unfolding tax_on
compute_tax none mode intra rate = err 400 (text "The amount is not valid")
compute_tax (some given) mode intra rate = ok (tax_on given mode intra rate)

unfoldable pub is_intra_state : Text → Text → Bool
is_intra_state buyer seller = text_eq buyer seller

div-le_of_le-lt : (k b a : ℕ) → 0 < b → a < (k + 1) * b → a / b ≤ k
div-le_of_le-lt k b a pos h = let lt : a / b < k + 1 = (div-lt_iff_lt-mul pos).1 h in omega arith

taxable-le : (given rate : ℕ) → round_div (given * 100) (100 + rate) ≤ given
unfolding round_div
taxable-le given rate = div-le_of_le-lt given (2 * (100 + rate)) _ (omega arith) (grind arith)

half-le : (tax : ℕ) → round_div tax 2 ≤ tax
unfolding round_div
half-le tax = omega arith

-- Whatever the mode, the rate and the states, the taxable value and the tax make the total, the three
-- parts make the tax, and the tax is either all IGST or split in halves that differ by at most a
-- paisa.
pub tax_on-parts :
    (given : ℕ) (mode : TaxMode) (intra : Bool) (rate : ℕ)
    → let t = tax_on given mode intra rate in
      (t.taxable + t.tax ≡ t.total)
      × (t.cgst + t.sgst + t.igst ≡ t.tax)
      × (t.sgst ≤ t.cgst)
      × (t.cgst ≤ t.sgst + 1)
unfolding tax_on
tax_on-parts given exclusive true rate = omega (arith, half-le)
tax_on-parts given exclusive false rate = omega arith
tax_on-parts given inclusive true rate = omega (arith, half-le, taxable-le given rate)
tax_on-parts given inclusive false rate = omega (arith, taxable-le given rate)
