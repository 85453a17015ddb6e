-- ===== src/Billing/Recorded.antt =====
-- `invoiceForRecordedPayment` of src/services/billingService.js: an invoice for a payment that the team
-- recorded by hand.
use wppflow_backend.Common.{
  ℕ, Bool, not, ◌&&◌, ◌||◌, Option, none, some, [], ◌∷◌, Text, text, text_eq, find, get_elem?, ◌==◌,
  if◌then◌else◌,
}
use wppflow_backend.Common.Result.{Result, ok, err}
use wppflow_backend.Gst.Profile.{Profile}
use wppflow_backend.Gst.Tax.{inclusive, tax_on, is_intra_state}
use wppflow_backend.Subscription.Dates.{Cycle, monthly, annual}
use wppflow_backend.Subscription.Payment.{Payment}
use wppflow_backend.Billing.Quote.{Shop}
use wppflow_backend.Billing.Till.{Invoice, Company, Till, Clock, is_company}
use wppflow_backend.Billing.Invoices.{Bill, bought_line, issue_invoice}

abbrev pub cycle_named : Text → Cycle
cycle_named c = if text_eq c (text "annual") then annual else monthly

-- What was received has the tax in it.
unfoldable pub recorded_bill : Shop → ℕ → ℕ → Payment → ℕ → Profile → Bill
recorded_bill shop tenant place p amount profile =
    let tax =
      tax_on amount inclusive (is_intra_state profile.state_code shop.settings.seller.state_code)
        shop.settings.gst_rate in
    record {
      tenant = tenant;
      order = none;
      subscription_payment = place;
      plan_name = p.plan;
      interval = p.cycle;
      period = (p.period_start, p.period_end);
      lines = bought_line p.plan (cycle_named p.cycle) tax.taxable ∷ [];
      taxable = tax.taxable;
      cgst = tax.cgst;
      sgst = tax.sgst;
      igst = tax.igst;
      total = tax.total;
      buyer = (profile, profile.billing_email);
      payment_ref = p.reference;
      payment_method = text "recorded";
      gst_rate = shop.settings.gst_rate;
    }

abbrev pub is_invoice_of : ℕ → ℕ → Invoice → Bool
is_invoice_of tenant place i = i.tenant == tenant && i.subscription_payment == place

-- The amount in paise, of a payment in rupees.
unfoldable pub rupees : Payment → Option ℕ
rupees p = elim p.amount [
  | none ↦ none
  | some (amount, currency) ↦
      if not (text_eq currency (text "INR")) || amount == 0 then none else some amount
]

unfoldable pub invoice_recorded :
    Shop → Clock → Till → Company → ℕ → Payment → Till × Result (Option ℕ)
invoice_recorded shop clock till company place p =
    elim (find (is_invoice_of company.id place) till.invoices) [
      | some i ↦ (till, ok (some i.id))
      | none ↦ elim (rupees p) [
        | none ↦ (till, ok none)
        | some amount ↦ elim company.profile [
          | none ↦ (till, ok none)
          | some profile ↦ (
            issue_invoice shop.settings clock till
                (recorded_bill shop company.id place p amount profile),
            ok (some till.next_id),
          )
        ]
      ]
    ]

-- `none` is a payment that gets no invoice.
unfoldable pub invoice_for_recorded_payment : Shop → Clock → Till → ℕ → ℕ → Till × Result (Option ℕ)
invoice_for_recorded_payment shop clock till tenant place =
    elim (find (is_company tenant) till.companies) [
      | none ↦ (till, err 404 (text "Payment not found"))
      | some company ↦ elim (get_elem? company.books.payments place) [
        | none ↦ (till, err 404 (text "Payment not found"))
        | some p ↦ invoice_recorded shop clock till company place p
      ]
    ]
