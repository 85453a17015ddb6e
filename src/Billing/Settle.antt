-- ===== src/Billing/Settle.antt =====
-- `settleOrder` of src/services/billingService.js and what it calls: what happens with the gateway's
-- answer about a payment. A transaction that throws changes nothing: the till before it stands.
use wppflow_backend.Common.{
  ℕ, ◌+◌, true, false, not, Option, none, some, List, [], ◌∷◌, ◌++◌, map, Text, text, text_eq,
  to_lower, trim, length, is_empty, or_else, find, has_text, ltb, ◌==◌, if◌then◌else◌,
}
use wppflow_backend.Common.Result.{Result, ok, err, ◌>>=◌}
use wppflow_backend.Subscription.Dates.{Day}
use wppflow_backend.Subscription.Plans.{plan_of}
use wppflow_backend.Subscription.Payment.{missing, number, Body, Books, record_payment}
use wppflow_backend.Billing.Quote.{Shop, cycle_text, period_of_kind}
use wppflow_backend.Billing.Invoices.{Bill, issue_invoice, invoice_lines}
use wppflow_backend.Billing.Receive.{
  is_captured, join, mark_attempted, mark_failed, mark_mismatch, mark_paid, problems_of,
  save_payment,
}
use wppflow_backend.Billing.Till.{
  Status, paid, mismatch, Order, Receipt, Till, Charge, Clock, order_by_id, set_order, on_order,
  is_company, set_books, audit,
}

pub data Outcome : Type 0 where
  unknown already mismatched refused pending settled : Outcome

-- The `status` that is answered.
abbrev pub outcome_text : Outcome → Text
outcome_text unknown = text "unknown"
outcome_text already = text "already"
outcome_text mismatched = text "mismatch"
outcome_text refused = text "failed"
outcome_text pending = text "pending"
outcome_text settled = text "paid"

unfoldable pub for_tenant : ℕ → ℕ → Receipt → Receipt
for_tenant order tenant r =
    if elim r.order [ none ↦ false | some o ↦ o == order ]
    then record r { tenant = some tenant }
    else r

-- A company of its own, with its owner and billing details, for a purchase on the website. `none` is
-- the refusal: the owner's address has an account. The link that sets the password is not kept.
unfoldable pub create_workspace : Shop → Till → Order → Result (Option (Till × ℕ))
create_workspace shop till order = elim order.guest [
  | none ↦ err 500 (text "Cannot read properties of undefined")
  | some guest ↦
      let email = to_lower (trim guest.owner_email) in
      let plan = plan_of shop.plans order.plan_code in
      let id = till.next_id in
      if has_text email till.users
      then ok none
      else ok (
          some (
            record till {
              companies =
                  till.companies
                  ++ record {
                    id = id;
                    name = guest.company_name;
                    owner_email = email;
                    profile = some (record guest.billing {
                      billing_email =
                          if is_empty guest.billing.billing_email
                          then email
                          else guest.billing.billing_email;
                    });
                    books = record {
                      tenant = record {
                        plan = plan.name;
                        active = true;
                        sessions_limit = elim plan.numbers [
                          | none ↦ 1
                          | some n ↦ if n == 0 then 1 else n
                        ];
                        billing_cycle = none;
                        period_start = none;
                        period_end = none;
                        scheduled_plan = none;
                        currency = text "AED";
                        reminded_soon_for = none;
                        reminded_overdue_for = none;
                        reminded_expired_for = none;
                      };
                      payments = [];
                      events = [];
                      audits = text "company.created" ∷ text "company.bought_online" ∷ [];
                    };
                  }
                    ∷ [];
              users = till.users ++ email ∷ [];
              orders = map (on_order order.id (λ o. record o { tenant = some id })) till.orders;
              receipts = map (for_tenant order.id id) till.receipts;
              next_id = id + 1;
            },
            id,
          ))
]

unfoldable pub payment_body : Order → Charge → Day × Day → Body
payment_body order charge period = record {
  plan = order.plan_code;
  cycle = some (cycle_text order.interval);
  period_start = some period.0;
  period_end = some period.1;
  amount = number order.total_minor;
  currency = order.currency;
  reference = charge.id;
  sessions_limit = missing;
}

unfoldable pub bill_of : Shop → Order → ℕ → ℕ → Day × Day → Charge → Bill
bill_of shop order tenant payment period charge =
    let plan_name = (plan_of shop.plans order.plan_code).name in
    record {
      tenant = tenant;
      order = some order.id;
      subscription_payment = payment;
      plan_name = plan_name;
      interval = cycle_text order.interval;
      period = period;
      lines = invoice_lines plan_name order;
      taxable = order.quote.taxable_minor;
      cgst = order.quote.cgst_minor;
      sgst = order.quote.sgst_minor;
      igst = order.quote.igst_minor;
      total = order.total_minor;
      buyer = order.quote.buyer;
      payment_ref = charge.id;
      payment_method = or_else charge.method (text "");
      gst_rate = or_else order.quote.gst_rate shop.settings.gst_rate;
    }

-- The books after the payment, the invoice, and the order as paid.
unfoldable pub write_paid : Shop → Clock → Till → Order → ℕ → ℕ → Books → Day × Day → Charge → Till
write_paid shop clock till order tenant payment books period charge =
    let invoiced =
      issue_invoice shop.settings clock (set_books till tenant books)
        (bill_of shop order tenant payment period charge) in
    audit (set_order invoiced order.id (mark_paid charge clock.now payment till.next_id))
      (some tenant) (text "payment.settled")

unfoldable pub pay : Shop → Clock → Till → Order → ℕ → Charge → Result (Till × Outcome)
pay shop clock till order tenant charge = elim (find (is_company tenant) till.companies) [
  | none ↦ err 500 (text "Cannot read properties of undefined")
  | some company ↦ do
    let period =
        period_of_kind shop.plans company.books.tenant order.quote.kind order.interval clock.today
    recorded ←
        record_payment shop.plans company.books (payment_body order charge period) true clock.today
    ok (
      write_paid shop clock till order tenant (length company.books.payments) recorded.0 period
          charge,
      settled,
    )
]

abbrev pub mismatch_reason : Charge → List Text → Text
mismatch_reason charge problems =
    text "Payment " ++ (charge.id ++ (text " did not match: " ++ join problems))

abbrev pub refused_reason : Charge → Order → Text
refused_reason charge order =
    text "Payment "
    ++ (charge.id
        ++ (text " was received but "
            ++ (elim order.guest [ none ↦ [] | some g ↦ to_lower (trim g.owner_email) ]
                ++ text
                    " has a Scriwo account already, so the workspace was not created by itself. Refund it or create the workspace by hand.")))

-- The money is there: a purchase on the website gets its company first.
unfoldable pub settle_captured : Shop → Clock → Till → Order → Charge → Result (Till × Outcome)
settle_captured shop clock till order charge = elim order.tenant [
  | some tenant ↦ pay shop clock till order tenant charge
  | none ↦ do
    made ← create_workspace shop till order
    elim made [
      | none ↦
          ok (
            set_order till order.id (mark_mismatch charge (refused_reason charge order)),
            mismatched,
          )
      | some (with_company, tenant) ↦ pay shop clock with_company order tenant charge
    ]
]

-- With the payment on record.
unfoldable pub settle_open : Shop → Clock → Till → Order → Charge → Result (Till × Outcome)
settle_open shop clock till order charge =
    let problems = problems_of till.receipts order charge in
    if text_eq charge.status (text "failed")
    then ok (set_order till order.id (mark_failed charge), refused)
    else if not (is_captured charge)
    then ok (set_order till order.id (mark_attempted charge), pending)
    else if ltb 0 (length problems)
    then ok (
      audit (set_order till order.id (mark_mismatch charge (mismatch_reason charge problems)))
          order.tenant (text "payment.mismatch"),
      mismatched,
    )
    else settle_captured shop clock till order charge

-- What is still to be done with an order: an order that is paid, or that did not match, is closed.
unfoldable pub closed_as : Status → Option Outcome
closed_as paid = some already
closed_as mismatch = some mismatched
closed_as s = none

unfoldable pub settle_order : Shop → Clock → Till → ℕ → Charge → Result (Till × Outcome)
settle_order shop clock till id charge = elim (order_by_id till id) [
  | none ↦ ok (till, unknown)
  | some order ↦ elim (closed_as order.status) [
    | some outcome ↦ ok (till, outcome)
    | none ↦ do
      saved ← save_payment till order charge clock.now
      settle_open shop clock saved order charge
  ]
]
