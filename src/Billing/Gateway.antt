-- ===== src/Billing/Gateway.antt =====
-- The gateway tells and is asked: `handleRefund`, `razorpayWebhook`, `reconcileOrders`, and the charges
-- and states of autopay, of src/services/billingService.js.
use wppflow_backend.Common.{
  ℕ, ◌+◌, Bool, true, false, not, ◌&&◌, Option, none, some, List, [], ◌∷◌, ◌++◌, map, Text, text,
  text_eq, take, is_empty, is_some, or_else, any, find, keep, ltb, if◌then◌else◌,
}
use wppflow_backend.Common.Result.{ok, err}
use wppflow_backend.Billing.Quote.{Shop}
use wppflow_backend.Billing.Till.{
  autopay, created, attempted, failed, expired, Order, Refund, Till, Charge, Clock, set_order,
}
use wppflow_backend.Billing.Checkout.{same_source, is_open}
use wppflow_backend.Billing.Verify.{after_capture}
use wppflow_backend.Billing.Receive.{is_captured}
use wppflow_backend.Billing.Settle.{settle_order}

-- What the gateway says of a refund.
pub record RefundNews : Type 0 where
  pub id : Text
  pub payment_id : Option Text
  pub amount : ℕ
  pub currency : Text

abbrev pub is_refund : Text → Refund → Bool
is_refund id r = text_eq r.id id

abbrev pub paid_with : Option Text → Order → Bool
paid_with none o = false
paid_with (some p) o = elim o.gateway_payment [ none ↦ false | some g ↦ text_eq g p ]

abbrev pub set_refund_status : Text → Text → Refund → Refund
set_refund_status id status r = if text_eq r.id id then record r { status = status } else r

-- `status` is the event's name after "refund.". Nothing is taken from the company by itself.
unfoldable pub handle_refund : Till → RefundNews → Text → Till
handle_refund till news status =
    if is_empty news.id
    then till
    else if any (is_refund news.id) till.refunds
    then record till { refunds = map (set_refund_status news.id status) till.refunds }
    else let order = find (paid_with news.payment_id) till.orders in
      record till {
        refunds =
            till.refunds
            ++ record {
              id = news.id;
              tenant = elim order [ none ↦ none | some o ↦ o.tenant ];
              order = elim order [ none ↦ none | some o ↦ some o.id ];
              gateway_payment = news.payment_id;
              amount_minor = news.amount;
              currency = if is_empty news.currency then text "INR" else news.currency;
              status = status;
            }
              ∷ [];
      }

-- 10 minutes, 3 days and 5 minutes, in milliseconds.
abbrev pub is_doubtful : ℕ → Order → Bool
is_doubtful now o =
    elim o.status [ created ↦ true | attempted ↦ true | failed ↦ true | s ↦ false ]
    && (not (same_source o.source autopay)
        && (is_some o.gateway_order
            && (ltb (o.created_at + 600000) now
                && (ltb now (o.created_at + 259200000)
                    && elim o.last_checked_at [ none ↦ true | some t ↦ ltb (t + 300000) now ]))))

-- The captured payments of an order, in turn. What throws ends the turn of the order.
unfoldable pub reconcile_items :
    Shop → Clock → (Charge → Option Charge) → Till → ℕ → List Charge → Till × Bool
reconcile_items shop clock capture till order [] = (till, true)
reconcile_items shop clock capture till order (c ∷ cs) =
    let charge = after_capture (capture c) c in
    elim (is_captured charge) [
      | false ↦ reconcile_items shop clock capture till order cs
      | true ↦ elim (settle_order shop clock till order charge) [
        | err status words ↦ (till, false)
        | ok (after, outcome) ↦ reconcile_items shop clock capture after order cs
      ]
    ]

unfoldable pub mark_checked : ℕ → Order → Order
mark_checked now o = record o { last_checked_at = some now }

-- `items` is what the gateway answers about an order, `none` when it could not be reached.
unfoldable pub reconcile_order :
    Shop → Clock → (Text → Option (List Charge)) → (Charge → Option Charge) → Till → Order → Till
reconcile_order shop clock items capture till order =
    elim (items (or_else order.gateway_order (text ""))) [
      | none ↦ till
      | some charges ↦
          let (after, complete) = reconcile_items shop clock capture till order.id charges in
          if complete then set_order after order.id (mark_checked clock.now) else after
    ]

unfoldable pub reconcile_all :
    Shop
    → Clock
    → (Text → Option (List Charge))
    → (Charge → Option Charge)
    → Till
    → List Order
    → Till
reconcile_all shop clock items capture till [] = till
reconcile_all shop clock items capture till (o ∷ os) =
    reconcile_all shop clock items capture (reconcile_order shop clock items capture till o) os

-- An order that nobody paid for, which was asked about after its time.
unfoldable pub is_overdue : ℕ → Order → Bool
is_overdue now o =
    is_open o.status
    && (ltb o.expires_at now
        && elim o.last_checked_at [ none ↦ false | some t ↦ ltb o.expires_at t ])

unfoldable pub expire : ℕ → Order → Order
expire now o = if is_overdue now o then record o { status = expired } else o

unfoldable pub reconcile_orders :
    Shop → Clock → (Text → Option (List Charge)) → (Charge → Option Charge) → Till → Till
reconcile_orders shop clock items capture till =
    let after =
      reconcile_all shop clock items capture till
        (take 20 (keep (is_doubtful clock.now) till.orders)) in
    record after { orders = map (expire clock.now) after.orders }
