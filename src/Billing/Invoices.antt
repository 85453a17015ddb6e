-- ===== src/Billing/Invoices.antt =====
-- `issueInvoice` and `invoiceLines` of src/services/billingService.js: numbered invoices.
use wppflow_backend.Common.{
  ℕ, ◌+◌, Option, List, [], ◌∷◌, ◌++◌, Text, text, text_eq, take, is_empty, ltb, if◌then◌else◌,
  none, some,
}
use wppflow_backend.Gst.Profile.{Profile}
use wppflow_backend.Gst.Tax.{exclusive, inclusive}
use wppflow_backend.Subscription.Dates.{Day, Cycle, monthly, annual}
use wppflow_backend.Billing.Settings.{Settings, financial_year_series, invoice_number}
use wppflow_backend.Billing.Till.{Order, Line, Invoice, Till, Clock}

-- `a || b`
abbrev pub first_text : Option Text → Text → Text
first_text none d = d
first_text (some s) d = if is_empty s then d else s

unfoldable pub last_seq : List (Text × ℕ) → Text → ℕ
last_seq [] series = 0
last_seq ((s, n) ∷ cs) series =
    let rest = last_seq cs series in if text_eq s series then n else rest

-- `INSERT ... VALUES($1,1) ON CONFLICT(series) DO UPDATE SET last_seq=last_seq+1`
unfoldable pub count_up : List (Text × ℕ) → Text → List (Text × ℕ)
count_up [] series = (series, 1) ∷ []
count_up ((s, n) ∷ cs) series =
    let rest = count_up cs series in if text_eq s series then (s, n + 1) ∷ cs else (s, n) ∷ rest

-- What an invoice is made from.
pub record Bill : Type 0 where
  pub tenant : ℕ
  pub order : Option ℕ
  pub subscription_payment : ℕ
  pub plan_name : Text
  pub interval : Text
  pub period : Day × Day
  pub lines : List Line
  pub taxable : ℕ
  pub cgst : ℕ
  pub sgst : ℕ
  pub igst : ℕ
  pub total : ℕ
  pub buyer : Profile × Text
  pub payment_ref : Text
  pub payment_method : Text
  pub gst_rate : ℕ

unfoldable pub make_invoice : Settings → Clock → List (Text × ℕ) → ℕ → Bill → Invoice
make_invoice s clock counters id b =
    let series = financial_year_series clock.today_ist in
    let seq = last_seq counters series + 1 in
    record {
      id = id;
      tenant = b.tenant;
      number = invoice_number s.invoice_prefix series seq;
      series = series;
      seq = seq;
      issue_date = clock.today_ist;
      order = b.order;
      subscription_payment = b.subscription_payment;
      plan_name = b.plan_name;
      interval = b.interval;
      period_start = b.period.0;
      period_end = b.period.1;
      lines = b.lines;
      taxable_minor = b.taxable;
      cgst_minor = b.cgst;
      sgst_minor = b.sgst;
      igst_minor = b.igst;
      total_minor = b.total;
      seller = s.seller;
      buyer = b.buyer;
      sac_code = s.sac_code;
      payment_ref = take 120 b.payment_ref;
      payment_method = take 30 b.payment_method;
      gst_rate = b.gst_rate;
    }

-- The invoice has the id `till.next_id`.
unfoldable pub issue_invoice : Settings → Clock → Till → Bill → Till
issue_invoice s clock till b = record till {
  counters = count_up till.counters (financial_year_series clock.today_ist);
  invoices = till.invoices ++ make_invoice s clock till.counters till.next_id b ∷ [];
  next_id = till.next_id + 1;
}

-- `label`
abbrev pub cycle_label : Cycle → Text
cycle_label annual = text "yearly"
cycle_label monthly = text "monthly"

-- The text of the dates is not kept.
abbrev pub bought_line : Text → Cycle → ℕ → Line
bought_line plan_name cycle amount = record {
  description =
      text "Scriwo "
      ++ (plan_name ++ (text " plan, " ++ (cycle_label cycle ++ text " subscription")));
  plus = amount;
  minus = 0;
}

abbrev pub credit_line : Option Text → ℕ → Line
credit_line previous credit = record {
  description =
      text "Credit for the unused days of your "
      ++ (first_text previous (text "previous") ++ text " plan");
  plus = 0;
  minus = credit;
}

unfoldable pub invoice_lines : Text → Order → List Line
invoice_lines plan_name o = elim o.quote.tax_mode [
  | inclusive ↦ bought_line plan_name o.interval o.quote.taxable_minor ∷ []
  | exclusive ↦
      bought_line plan_name o.interval o.base_minor
      ∷ (if ltb 0 o.credit_minor then credit_line o.quote.previous_plan o.credit_minor ∷ [] else [])
]
