-- ===== src/Billing/News.antt =====
-- Autopay's charges and the gateway's messages keep the orders and the invoices in agreement.
use wppflow_backend.Common.{
  ℕ, Bool, true, false, Option, none, some, Text, text, text_eq, is_empty, has_text, find, ◌≡◌,
  refl, arith, inl, inr, Bool-cases, Option-cases,
}
use wppflow_backend.Common.Result.{Result, ok, err, Result-cases}
use wppflow_backend.Gst.Profile.{Profile}
use wppflow_backend.Gst.Tax.{inclusive, tax_on, tax_on-parts, is_intra_state}
use wppflow_backend.Billing.Quote.{Shop}
use wppflow_backend.Billing.Till.{
  Autopay, AutopayStatus, begun, authenticated, active, waiting, halted, cancelled, completed,
  Company, Till, Charge, Clock, is_company,
}
use wppflow_backend.Billing.Checkout.{add_order}
use wppflow_backend.Billing.Verify.{has_gateway_order}
use wppflow_backend.Billing.Recurring.{
  set_autopay, charge_order, settle_written, charge_key, settle_charge, after_charge,
  autopay_charged, status_after, autopay_news, is_gateway_subscription, handle_subscription_event,
}
use wppflow_backend.Billing.Hooks.{
  Event, payment_news, refund_news, subscription_news, other_news, payment_events, refund_events,
  captured_now, handle_payment, handle_event, claim_hook, with_hooks, finish_hook, razorpay_webhook,
}
use wppflow_backend.Billing.Receive.{is_captured}
use wppflow_backend.Billing.Settle.{settle_order}
use wppflow_backend.Billing.Ledger.{is_paid, is_balanced, IsSound}
use wppflow_backend.Billing.Sound.{settle_order-IsSound}
use wppflow_backend.Billing.Orders.{add_order-IsSound}
use wppflow_backend.Billing.Answers.{handle_refund-IsSound}

settle_written-IsSound :
    (shop : Shop) (clock : Clock) (t : Till) (order : ℕ) (charge : Charge)
    → IsSound t
    → IsSound (settle_written shop clock t order charge).0
unfolding settle_written
settle_written-IsSound shop clock t order charge h =
    elim (Result-cases (settle_order shop clock t order charge)) [
      | inl (status, words, e) ↦ rw (e, settle_written) h
      | inr (out, e) ↦
          rw (e, settle_written) (settle_order-IsSound shop clock t order charge out h e)
    ]

charge_order-is_balanced :
    (shop : Shop) (clock : Clock) (a : Autopay) (company : Company) (profile : Profile) (key : Text)
    (id : ℕ)
    → is_balanced (charge_order shop clock a company profile key id) ≡ true
unfolding charge_order tax_on
charge_order-is_balanced shop clock a company profile key id =
    let parts =
      tax_on-parts a.amount_minor inclusive
        (is_intra_state profile.state_code shop.settings.seller.state_code)
        shop.settings.gst_rate in
    ground arith

charge_order-id :
    (shop : Shop) (clock : Clock) (a : Autopay) (company : Company) (profile : Profile) (key : Text)
    (id : ℕ)
    → (charge_order shop clock a company profile key id).id ≡ id
unfolding charge_order
charge_order-id shop clock a company profile key id = refl

charge_order-unpaid :
    (shop : Shop) (clock : Clock) (a : Autopay) (company : Company) (profile : Profile) (key : Text)
    (id : ℕ)
    → is_paid (charge_order shop clock a company profile key id).status ≡ false
unfolding charge_order
charge_order-unpaid shop clock a company profile key id = refl

pub settle_charge-IsSound :
    (shop : Shop) (clock : Clock) (t : Till) (a : Autopay) (charge : Charge)
    → IsSound t
    → IsSound (settle_charge shop clock t a charge).0
unfolding settle_charge
settle_charge-IsSound shop clock t a charge h =
    elim (Option-cases (find (has_gateway_order (charge_key charge)) t.orders)) [
      | inr (order, e) ↦ rw (e, settle_charge) (settle_written-IsSound shop clock t order.id _ h)
      | inl e ↦ elim (Option-cases (find (is_company a.tenant) t.companies)) [
        | inl f ↦ rw (e, f, settle_charge) h
        | inr (company, f) ↦ elim (Option-cases company.profile) [
          | inl g ↦ rw (e, f, g, settle_charge) h
          | inr (profile, g) ↦
              let key = charge_key charge in
              let order = charge_order shop clock a company profile key t.next_id in
              let added =
                add_order-IsSound t order
                  (charge_order-id shop clock a company profile key t.next_id)
                  (charge_order-unpaid shop clock a company profile key t.next_id)
                  (charge_order-is_balanced shop clock a company profile key t.next_id) h in
              rw (e, f, g, settle_charge)
                (settle_written-IsSound shop clock (add_order t order) order.id
                  (record charge { order_id = key }) added)
        ]
      ]
    ]

set_autopay-IsSound :
    (t : Till) (id : ℕ) (status : AutopayStatus) → IsSound t → IsSound (set_autopay t id status)
unfolding set_autopay
set_autopay-IsSound t id status h = h

charged_on-IsSound :
    (t : Till) (a : Autopay) (s : AutopayStatus) (words : Text)
    → IsSound t
    → IsSound (after_charge t a s words).0
unfolding after_charge
charged_on-IsSound t a begun words h = set_autopay-IsSound t a.id active h
charged_on-IsSound t a authenticated words h = set_autopay-IsSound t a.id active h
charged_on-IsSound t a active words h = set_autopay-IsSound t a.id active h
charged_on-IsSound t a waiting words h = set_autopay-IsSound t a.id active h
charged_on-IsSound t a halted words h = set_autopay-IsSound t a.id active h
charged_on-IsSound t a completed words h = set_autopay-IsSound t a.id active h
charged_on-IsSound t a cancelled words h = h

autopay_charged-IsSound :
    (shop : Shop) (clock : Clock) (t : Till) (a : Autopay) (payment : Option Charge)
    → IsSound t
    → IsSound (autopay_charged shop clock t a payment).0
unfolding autopay_charged
autopay_charged-IsSound shop clock t a none h = h
autopay_charged-IsSound shop clock t a (some charge) h = elim (Bool-cases (is_captured charge)) [
  | inr e ↦ rw (e, autopay_charged) h
  | inl e ↦
      let sound = settle_charge-IsSound shop clock t a charge h in
      elim (Result-cases (settle_charge shop clock t a charge).1) [
        | inl (status, words, f) ↦ rw (e, f, autopay_charged) sound
        | inr (o, f) ↦
            rw (e, f, autopay_charged)
              (charged_on-IsSound (settle_charge shop clock t a charge).0 a a.status _ sound)
      ]
]

-- Whatever the name of the message.
autopay_news-IsSound :
    (shop : Shop) (clock : Clock) (t : Till) (a : Autopay) (name : Text) (payment : Option Charge)
    → IsSound t
    → IsSound (autopay_news shop clock t a name payment).0
unfolding autopay_news set_autopay
autopay_news-IsSound shop clock t a name payment h =
    elim (Bool-cases (text_eq name (text "charged"))) [
      | inl e ↦ rw (e, autopay_news) (autopay_charged-IsSound shop clock t a payment h)
      | inr e ↦ elim (Option-cases (status_after a.status name)) [
        | inl f ↦ rw (e, f, autopay_news) h
        | inr (s, f) ↦ rw (e, f, autopay_news) h
      ]
    ]

handle_subscription_event-IsSound :
    (shop : Shop) (clock : Clock) (t : Till) (name sub : Text) (payment : Option Charge)
    → IsSound t
    → IsSound (handle_subscription_event shop clock t name sub payment).0
unfolding handle_subscription_event
handle_subscription_event-IsSound shop clock t name sub payment h =
    elim (Bool-cases (is_empty sub)) [
      | inl e ↦ rw (e, handle_subscription_event) h
      | inr e ↦ elim (Option-cases (find (is_gateway_subscription sub) t.autopays)) [
        | inl f ↦ rw (e, f, handle_subscription_event) h
        | inr (a, f) ↦
            rw (e, f, handle_subscription_event)
              (autopay_news-IsSound shop clock t a name payment h)
      ]
    ]

handle_payment-IsSound :
    (shop : Shop) (clock : Clock) (t : Till) (name : Text) (charge : Charge)
    (captured : Option Charge)
    → IsSound t
    → IsSound (handle_payment shop clock t name charge captured).0
unfolding handle_payment
handle_payment-IsSound shop clock t name charge captured h =
    elim (Option-cases (find (has_gateway_order charge.order_id) t.orders)) [
      | inl e ↦ rw (e, handle_payment) h
      | inr (order, e) ↦
          rw (e, handle_payment)
            (settle_written-IsSound shop clock t order.id (captured_now name charge captured) h)
    ]

handle_event-IsSound :
    (shop : Shop) (clock : Clock) (t : Till) (event : Event)
    → IsSound t
    → IsSound (handle_event shop clock t event).0
unfolding handle_event
handle_event-IsSound shop clock t (payment_news name charge captured) h =
    elim (Bool-cases (has_text name payment_events)) [
      | inl e ↦ rw (e, handle_event) (handle_payment-IsSound shop clock t name charge captured h)
      | inr e ↦ rw (e, handle_event) h
    ]
handle_event-IsSound shop clock t (refund_news news status) h =
    elim (Bool-cases (has_text status refund_events)) [
      | inl e ↦ rw (e, handle_event) (handle_refund-IsSound t news status h)
      | inr e ↦ rw (e, handle_event) h
    ]
handle_event-IsSound shop clock t (subscription_news name sub payment) h =
    handle_subscription_event-IsSound shop clock t name sub payment h
handle_event-IsSound shop clock t other_news h = h

finish_hook-IsSound :
    (done : Till × Result Text) (id : Text) → IsSound done.0 → IsSound (finish_hook done id).0
unfolding finish_hook with_hooks
finish_hook-IsSound (after, err status words) id h = h
finish_hook-IsSound (after, ok result) id h = h

pub razorpay_webhook-IsSound :
    (shop : Shop) (clock : Clock) (t : Till) (signed : Bool) (id : Text) (event : Option Event)
    → IsSound t
    → IsSound (razorpay_webhook shop clock t signed id event).0
unfolding razorpay_webhook with_hooks
razorpay_webhook-IsSound shop clock t false id event h = h
razorpay_webhook-IsSound shop clock t true id none h = h
razorpay_webhook-IsSound shop clock t true id (some event) h =
    elim (Option-cases (claim_hook t.hooks id)) [
      | inl e ↦ rw (e, razorpay_webhook) h
      | inr (hooks, e) ↦
          rw (e, razorpay_webhook)
            (finish_hook-IsSound (handle_event shop clock (with_hooks t hooks) event) id
              (handle_event-IsSound shop clock (with_hooks t hooks) event h))
    ]
