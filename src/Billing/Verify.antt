-- ===== src/Billing/Verify.antt =====
-- `verifyCheckout` and `settleFromGateway` of src/services/billingService.js, and
-- `verifyWebsiteCheckout` of src/services/websiteCheckout.js: the browser says that a payment was
-- made. What the gateway answers is an argument: `none` when it could not be reached.
use wppflow_backend.Common.{
  ℕ, Bool, false, not, ◌&&◌, ◌||◌, Option, none, some, Text, text, text_eq, is_empty, or_else, find,
  ◌==◌, if◌then◌else◌,
}
use wppflow_backend.Common.Result.{Result, ok, err}
use wppflow_backend.Billing.Quote.{Shop}
use wppflow_backend.Billing.Till.{
  website, Status, created, attempted, failed, Order, Till, Charge, Clock, set_order, audit,
}
use wppflow_backend.Billing.Checkout.{same_source}
use wppflow_backend.Billing.Settle.{Outcome, settle_order}

-- An order that was not yet paid for, or failed, is being paid for now.
abbrev pub after_try : Status → Status
after_try created = attempted
after_try failed = attempted
after_try s = s

unfoldable pub mark_tried : Text → Order → Order
mark_tried payment o = record o { status = after_try o.status; gateway_payment = some payment }

abbrev pub is_authorized : Charge → Bool
is_authorized c = text_eq c.status (text "authorized")

-- A payment that was fetched, captured if it was only authorised and the gateway does so.
abbrev pub after_capture : Option Charge → Charge → Charge
after_capture captured fetched = if is_authorized fetched then or_else captured fetched else fetched

-- `settleFromGateway` inside `try`: `none` is a payment that is still processing.
unfoldable pub settle_from_gateway :
    Shop → Clock → Till → ℕ → Option Charge → Option Charge → Till × Option Outcome
settle_from_gateway shop clock till order none captured = (till, none)
settle_from_gateway shop clock till order (some fetched) captured =
    elim (settle_order shop clock till order (after_capture captured fetched)) [
      | err status words ↦ (till, none)
      | ok (after, outcome) ↦ (after, some outcome)
    ]

abbrev pub has_gateway_order : Text → Order → Bool
has_gateway_order id o = elim o.gateway_order [ none ↦ false | some g ↦ text_eq g id ]

abbrev pub of_tenant : ℕ → Order → Bool
of_tenant tenant o = elim o.tenant [ none ↦ false | some t ↦ t == tenant ]

abbrev pub of_website : Order → Bool
of_website o = same_source o.source website

-- `verify` is the gateway's check of the signature on the order's id and the payment's. The order is
-- one of `mine`, and `told` the company in whose audit log a wrong signature is noted.
unfoldable pub verify_order :
    Shop
    → Clock
    → (Text → Text → Text → Bool)
    → (Order → Bool)
    → (Order → Option ℕ)
    → Till
    → Text
    → Text
    → Text
    → Option Charge
    → Option Charge
    → Till × Result (Option Outcome)
verify_order shop clock verify mine told till gateway_order payment signature fetched captured =
    if is_empty gateway_order || (is_empty payment || is_empty signature)
    then (till, err 400 (text "The payment details are incomplete"))
    else elim (find (λ o. has_gateway_order gateway_order o && mine o) till.orders) [
      | none ↦ (till, err 404 (text "Order not found"))
      | some order ↦
          if not (verify (or_else order.gateway_order (text "")) payment signature)
          then (
            audit till (told order) (text "payment.signature_invalid"),
            err 400 (text "We could not verify this payment, so nothing was activated."),
          )
          else let (after, outcome) =
              settle_from_gateway shop clock (set_order till order.id (mark_tried payment)) order.id
                fetched captured in
            (after, ok outcome)
    ]

unfoldable pub verify_checkout :
    Shop
    → Clock
    → (Text → Text → Text → Bool)
    → ℕ
    → Till
    → Text
    → Text
    → Text
    → Option Charge
    → Option Charge
    → Till × Result (Option Outcome)
verify_checkout shop clock verify tenant =
    verify_order shop clock verify (of_tenant tenant) (λ o. o.tenant)

unfoldable pub verify_website_checkout :
    Shop
    → Clock
    → (Text → Text → Text → Bool)
    → Till
    → Text
    → Text
    → Text
    → Option Charge
    → Option Charge
    → Till × Result (Option Outcome)
verify_website_checkout shop clock verify = verify_order shop clock verify of_website (λ o. none)
