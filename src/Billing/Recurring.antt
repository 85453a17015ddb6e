-- ===== src/Billing/Recurring.antt =====
-- Autopay, of src/services/billingService.js: what was charged becomes an order of its own, and the
-- gateway's messages move its state.
use wppflow_backend.Common.{
  ℕ, ◌+◌, Bool, true, not, ◌&&◌, Option, none, some, ◌++◌, map, Text, text, text_eq, is_empty, find,
  ◌==◌, if◌then◌else◌,
}
use wppflow_backend.Common.Result.{Result, ok, err}
use wppflow_backend.Gst.Profile.{Profile}
use wppflow_backend.Gst.Tax.{inclusive, tax_on, is_intra_state}
use wppflow_backend.Subscription.Dates.{monthly}
use wppflow_backend.Subscription.Plans.{plan_of}
use wppflow_backend.Subscription.Payment.{Books}
use wppflow_backend.Subscription.Change.{noted}
use wppflow_backend.Billing.Quote.{Shop, renewal, period_for}
use wppflow_backend.Billing.Till.{
  autopay, attempted, Order, Autopay, AutopayStatus, begun, authenticated, active, waiting, halted,
  cancelled, completed, Company, Till, Charge, Clock, set_books, is_company,
}
use wppflow_backend.Billing.Checkout.{same_source, same_interval, live_autopay, add_order}
use wppflow_backend.Billing.Verify.{has_gateway_order}
use wppflow_backend.Billing.Receive.{is_captured}
use wppflow_backend.Billing.Settle.{Outcome, outcome_text, settle_order}

unfoldable pub set_autopay : Till → ℕ → AutopayStatus → Till
set_autopay till id status = record till {
  autopays = map (λ a. if a.id == id then record a { status = status } else a) till.autopays;
}

-- The order of a charge: the sum that was charged has the tax in it.
unfoldable pub charge_order : Shop → Clock → Autopay → Company → Profile → Text → ℕ → Order
charge_order shop clock a company profile gateway_order id =
    let tax =
      tax_on a.amount_minor inclusive
        (is_intra_state profile.state_code shop.settings.seller.state_code)
        shop.settings.gst_rate in
    let (start, end) = period_for shop.plans company.books.tenant monthly clock.today in
    record {
      id = id;
      tenant = some a.tenant;
      plan_code = a.plan_code;
      interval = monthly;
      source = autopay;
      currency = text "INR";
      base_minor = tax.taxable;
      credit_minor = 0;
      tax_minor = tax.tax;
      total_minor = a.amount_minor;
      quote = record {
        kind = renewal;
        tax_mode = inclusive;
        taxable_minor = tax.taxable;
        cgst_minor = tax.cgst;
        sgst_minor = tax.sgst;
        igst_minor = tax.igst;
        gst_rate = none;
        period_start = start;
        period_end = end;
        previous_plan = none;
        buyer = (profile, profile.billing_email);
      };
      gateway_order = some gateway_order;
      status = attempted;
      failure_reason = none;
      gateway_payment = none;
      expires_at = clock.now + 3600000;
      last_checked_at = none;
      paid_at = none;
      subscription_payment = none;
      invoice = none;
      guest = none;
      created_at = clock.now;
    }

-- The order is written before it is settled: what throws then leaves it there.
unfoldable pub settle_written : Shop → Clock → Till → ℕ → Charge → Till × Result Outcome
settle_written shop clock till order charge = elim (settle_order shop clock till order charge) [
  | err status words ↦ (till, err status words)
  | ok (after, outcome) ↦ (after, ok outcome)
]

-- The gateway's own order for the charge.
abbrev pub charge_key : Charge → Text
charge_key c = if is_empty c.order_id then text "charge_" ++ c.id else c.order_id

unfoldable pub settle_charge : Shop → Clock → Till → Autopay → Charge → Till × Result Outcome
settle_charge shop clock till a charge =
    let key = charge_key charge in
    let keyed : Charge = record charge { order_id = key } in
    elim (find (has_gateway_order key) till.orders) [
      | some order ↦ settle_written shop clock till order.id keyed
      | none ↦ elim (find (is_company a.tenant) till.companies) [
        | none ↦ (till, err 404 (text "Company not found"))
        | some company ↦ elim company.profile [
          | none ↦ (till, err 500 (text "Autopay charged a company with no billing details"))
          | some profile ↦
              let order = charge_order shop clock a company profile key till.next_id in
              settle_written shop clock (add_order till order) order.id keyed
        ]
      ]
    ]

-- A charge that came in shows that autopay is on, unless it was cancelled meanwhile.
unfoldable pub after_charge : Till → Autopay → AutopayStatus → Text → Till × Result Text
after_charge till a cancelled words = (till, ok words)
after_charge till a s words = (set_autopay till a.id active, ok words)

unfoldable pub autopay_charged : Shop → Clock → Till → Autopay → Option Charge → Till × Result Text
autopay_charged shop clock till a none = (till, ok (text "charged: not captured"))
autopay_charged shop clock till a (some charge) =
    if not (is_captured charge)
    then (till, ok (text "charged: not captured"))
    else let (after, outcome) = settle_charge shop clock till a charge in
      elim outcome [
        | err status words ↦ (after, err status words)
        | ok o ↦ after_charge after a a.status (text "charged: " ++ outcome_text o)
      ]

abbrev pub after_authenticated : AutopayStatus → AutopayStatus
after_authenticated begun = authenticated
after_authenticated s = s

abbrev pub is_gateway_subscription : Text → Autopay → Bool
is_gateway_subscription id a = text_eq a.gateway_subscription id

-- The state after a message other than a charge; `name` is the event's name after "subscription.".
unfoldable pub status_after : AutopayStatus → Text → Option AutopayStatus
status_after s name =
    if text_eq name (text "authenticated")
    then some (after_authenticated s)
    else if text_eq name (text "activated")
    then some active
    else if text_eq name (text "pending")
    then some waiting
    else if text_eq name (text "halted")
    then some halted
    else if text_eq name (text "cancelled")
    then some cancelled
    else if text_eq name (text "completed")
    then some completed
    else none

unfoldable pub autopay_news :
    Shop → Clock → Till → Autopay → Text → Option Charge → Till × Result Text
autopay_news shop clock till a name payment =
    if text_eq name (text "charged")
    then autopay_charged shop clock till a payment
    else elim (status_after a.status name) [
      | none ↦ (till, ok (text "ignored"))
      | some s ↦ (
        set_autopay till a.id s,
        ok (if text_eq name (text "activated") then text "active" else name),
      )
    ]

unfoldable pub handle_subscription_event :
    Shop → Clock → Till → Text → Text → Option Charge → Till × Result Text
handle_subscription_event shop clock till name sub payment =
    if is_empty sub
    then (till, ok (text "ignored"))
    else elim (find (is_gateway_subscription sub) till.autopays) [
      | none ↦ (till, ok (text "ignored: not one of our subscriptions"))
      | some a ↦ autopay_news shop clock till a name payment
    ]

unfoldable pub note_cancelled : Shop → Autopay → Books → Books
note_cancelled shop a books =
    noted books (text "autopay_cancelled") (plan_of shop.plans a.plan_code).name
      (text "autopay.cancelled")

-- `stopped` says that the gateway did cancel it, or had it cancelled already.
unfoldable pub cancel_autopay : Shop → Till → ℕ → Bool → Till × Result Bool
cancel_autopay shop till tenant stopped = elim (live_autopay till tenant) [
  | none ↦ (till, err 404 (text "Autopay is not on"))
  | some a ↦
      if not stopped
      then (
        till,
        err 502 (
            text
              "We could not reach the payment service, so autopay is still on. Please try again."),
      )
      else (
        elim (find (is_company tenant) till.companies) [
          | none ↦ set_autopay till a.id cancelled
          | some company ↦
              set_books (set_autopay till a.id cancelled) tenant
                (note_cancelled shop a company.books)
        ],
        ok true,
      )
]

-- Paying for another plan or period ends autopay for the old one.
unfoldable pub stop_autopay_after_payment : Shop → Till → Order → Bool → Till
stop_autopay_after_payment shop till order stopped =
    if same_source order.source autopay then till else elim order.tenant [
      | none ↦ till
      | some tenant ↦ elim (live_autopay till tenant) [
        | none ↦ till
        | some a ↦
            if text_eq a.plan_code order.plan_code && same_interval a.interval order.interval
            then till
            else (cancel_autopay shop till tenant stopped).0
      ]
    ]
