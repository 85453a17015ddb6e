-- ===== src/Billing/Hooks.antt =====
-- `razorpayWebhook` and `handleEvent` of src/services/billingService.js: what the gateway tells, once.
use wppflow_backend.Common.{
  ℕ, ◌+◌, Bool, true, false, ◌||◌, Option, none, some, List, [], ◌∷◌, ◌++◌, map, Text, text,
  text_eq, take, or_else, find, has_text, if◌then◌else◌,
}
use wppflow_backend.Common.Result.{Result, ok, err}
use wppflow_backend.Billing.Quote.{Shop}
use wppflow_backend.Billing.Till.{Hook, Till, Charge, Clock}
use wppflow_backend.Billing.Settle.{outcome_text}
use wppflow_backend.Billing.Verify.{has_gateway_order, is_authorized}
use wppflow_backend.Billing.Gateway.{RefundNews, handle_refund}
use wppflow_backend.Billing.Recurring.{settle_written, handle_subscription_event}

-- The event's name, without "subscription." or "refund." where it has one. A payment comes with the
-- gateway's answer to a capture.
pub data Event : Type 0 where
  payment_news : Text → Charge → Option Charge → Event
  refund_news : RefundNews → Text → Event
  subscription_news : Text → Text → Option Charge → Event
  other_news : Event

abbrev pub payment_events : List Text
payment_events =
    text "payment.captured"
    ∷ text "payment.authorized"
    ∷ text "payment.failed"
    ∷ text "order.paid"
    ∷ []

abbrev pub refund_events : List Text
refund_events = text "created" ∷ text "processed" ∷ text "failed" ∷ []

-- What is settled with: the captured payment, if the gateway captured it now.
abbrev pub captured_now : Text → Charge → Option Charge → Charge
captured_now name charge captured =
    if text_eq name (text "payment.authorized") || is_authorized charge
    then or_else captured charge
    else charge

unfoldable pub handle_payment :
    Shop → Clock → Till → Text → Charge → Option Charge → Till × Result Text
handle_payment shop clock till name charge captured =
    elim (find (has_gateway_order charge.order_id) till.orders) [
      | none ↦ (till, ok (text "ignored: not one of our orders"))
      | some order ↦
          let (after, outcome) =
            settle_written shop clock till order.id (captured_now name charge captured) in
          (after, elim outcome [ err status words ↦ err status words | ok o ↦ ok (outcome_text o) ])
    ]

unfoldable pub handle_event : Shop → Clock → Till → Event → Till × Result Text
handle_event shop clock till (subscription_news name sub payment) =
    handle_subscription_event shop clock till name sub payment
handle_event shop clock till (refund_news news status) =
    if has_text status refund_events
    then (handle_refund till news status, ok (text "refund " ++ status))
    else (till, ok (text "ignored"))
handle_event shop clock till (payment_news name charge captured) =
    if has_text name payment_events
    then handle_payment shop clock till name charge captured
    else (till, ok (text "ignored"))
handle_event shop clock till other_news = (till, ok (text "ignored"))

abbrev pub is_hook : Text → Hook → Bool
is_hook id h = text_eq h.event_id id

abbrev pub on_hook : Text → (Hook → Hook) → Hook → Hook
on_hook id f h = if text_eq h.event_id id then f h else h

abbrev pub tried_again : Hook → Hook
tried_again h = record h { attempts = h.attempts + 1 }

-- `none` is an event that was handled before.
unfoldable pub claim_hook : List Hook → Text → Option (List Hook)
claim_hook hooks id = elim (find (is_hook id) hooks) [
  | none ↦
      some
        (hooks ++ record { event_id = id; attempts = 1; processed = false; result = text "" } ∷ [])
  | some h ↦ if h.processed then none else some (map (on_hook id tried_again) hooks)
]

unfoldable pub with_hooks : Till → List Hook → Till
with_hooks till hooks = record till { hooks = hooks }

abbrev pub mark_error : Text → Hook → Hook
mark_error words h = record h { result = take 300 (text "error: " ++ words) }

abbrev pub mark_processed : Text → Hook → Hook
mark_processed result h = record h { processed = true; result = take 300 result }

unfoldable pub finish_hook : Till × Result Text → Text → Till × ℕ
finish_hook (after, err status words) id =
    (with_hooks after (map (on_hook id (mark_error words)) after.hooks), 500)
finish_hook (after, ok result) id =
    (with_hooks after (map (on_hook id (mark_processed result)) after.hooks), 200)

-- The answer is the HTTP status. `signed` is the check of the signature of the body.
unfoldable pub razorpay_webhook : Shop → Clock → Till → Bool → Text → Option Event → Till × ℕ
razorpay_webhook shop clock till false id event = (till, 400)
razorpay_webhook shop clock till true id none = (till, 400)
razorpay_webhook shop clock till true id (some event) = elim (claim_hook till.hooks id) [
  | none ↦ (till, 200)
  | some hooks ↦ finish_hook (handle_event shop clock (with_hooks till hooks) event) id
]
