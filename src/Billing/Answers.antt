-- ===== src/Billing/Answers.antt =====
-- What the browser says and the gateway answers keeps the orders and the invoices in agreement.
use wppflow_backend.Common.{
  ℕ, Bool, true, false, ◌&&◌, ◌||◌, Option, none, some, List, [], ◌∷◌, Text, text, is_empty,
  or_else, find, any, ◌≡◌, refl, sym, inl, inr, and-true, Bool-cases, Option-cases,
}
use wppflow_backend.Common.Result.{Result-cases}
use wppflow_backend.Billing.Quote.{Shop}
use wppflow_backend.Billing.Till.{
  Status, created, attempted, paid, failed, expired, mismatch, Order, Till, Charge, Clock,
}
use wppflow_backend.Billing.Checkout.{is_open}
use wppflow_backend.Billing.Verify.{
  after_try, mark_tried, after_capture, settle_from_gateway, has_gateway_order, verify_order,
}
use wppflow_backend.Billing.Gateway.{
  RefundNews, is_refund, handle_refund, reconcile_items, mark_checked, reconcile_order,
  reconcile_all, is_overdue, expire, reconcile_orders,
}
use wppflow_backend.Billing.Receive.{is_captured}
use wppflow_backend.Billing.Settle.{settle_order}
use wppflow_backend.Billing.Edits.{IsQuiet, quietly}
use wppflow_backend.Billing.Ledger.{is_paid, IsSound}
use wppflow_backend.Billing.Sound.{audit-IsSound, settle_order-IsSound}
use wppflow_backend.Billing.Orders.{set_order-IsSound}

after_try-is_paid : (s : Status) → is_paid (after_try s) ≡ is_paid s
after_try-is_paid created = refl
after_try-is_paid attempted = refl
after_try-is_paid paid = refl
after_try-is_paid failed = refl
after_try-is_paid expired = refl
after_try-is_paid mismatch = refl

settle_from_gateway-IsSound :
    (shop : Shop) (clock : Clock) (t : Till) (order : ℕ) (fetched captured : Option Charge)
    → IsSound t
    → IsSound (settle_from_gateway shop clock t order fetched captured).0
unfolding settle_from_gateway
settle_from_gateway-IsSound shop clock t order none captured h = h
settle_from_gateway-IsSound shop clock t order (some fetched) captured h =
    elim (Result-cases (settle_order shop clock t order (after_capture captured fetched))) [
      | inl (status, words, e) ↦ rw (e, settle_from_gateway) h
      | inr (out, e) ↦
          rw (e, settle_from_gateway) (settle_order-IsSound shop clock t order _ out h e)
    ]

pub verify_order-IsSound :
    (shop : Shop) (clock : Clock) (verify : Text → Text → Text → Bool) (mine : Order → Bool)
    (told : Order → Option ℕ) (t : Till) (gateway_order payment signature : Text)
    (fetched captured : Option Charge)
    → IsSound t
    → IsSound
        (verify_order shop clock verify mine told t gateway_order payment signature fetched
          captured).0
unfolding verify_order mark_tried
verify_order-IsSound shop clock verify mine told t gateway_order payment signature fetched captured
      h =
    elim (Bool-cases (is_empty gateway_order || (is_empty payment || is_empty signature))) [
      | inl e ↦ rw (e, verify_order) h
      | inr e ↦
          elim (Option-cases (find (λ o. has_gateway_order gateway_order o && mine o) t.orders)) [
            | inl f ↦ rw (e, f, verify_order) h
            | inr (order, f) ↦
                elim (Bool-cases
                  (verify (or_else order.gateway_order (text "")) payment signature)) [
                    | inr g ↦ rw (e, f, g, verify_order) (audit-IsSound t (told order) _ h)
                    | inl g ↦
                        rw (e, f, g, verify_order)
                          (settle_from_gateway-IsSound shop clock _ order.id fetched captured (
                            set_order-IsSound t order.id (mark_tried payment)
                              (record {
                                same_id = λ x. refl;
                                same_paid = λ x. after_try-is_paid x.status;
                                same_balance = λ x b. b;
                              })
                              h))
                  ]
          ]
    ]

reconcile_items-IsSound :
    (shop : Shop) (clock : Clock) (capture : Charge → Option Charge) (t : Till) (order : ℕ)
    (cs : List Charge)
    → IsSound t
    → IsSound (reconcile_items shop clock capture t order cs).0
unfolding reconcile_items
reconcile_items-IsSound shop clock capture t order [] h = h
reconcile_items-IsSound shop clock capture t order (c ∷ cs) h =
    elim (Bool-cases (is_captured (after_capture (capture c) c))) [
      | inr e ↦ rw (e, reconcile_items) (reconcile_items-IsSound shop clock capture t order cs h)
      | inl e ↦
          elim (Result-cases (settle_order shop clock t order (after_capture (capture c) c))) [
            | inl (status, words, f) ↦ rw (e, f, reconcile_items) h
            | inr (out, f) ↦
                rw (e, f, reconcile_items)
                  (reconcile_items-IsSound shop clock capture out.0 order cs
                    (settle_order-IsSound shop clock t order _ out h f))
          ]
    ]

reconcile_order-IsSound :
    (shop : Shop) (clock : Clock) (items : Text → Option (List Charge))
    (capture : Charge → Option Charge) (t : Till) (o : Order)
    → IsSound t
    → IsSound (reconcile_order shop clock items capture t o)
unfolding reconcile_order mark_checked
reconcile_order-IsSound shop clock items capture t o h =
    elim (Option-cases (items (or_else o.gateway_order (text "")))) [
      | inl e ↦ rw (e, reconcile_order) h
      | inr (cs, e) ↦
          let sound = reconcile_items-IsSound shop clock capture t o.id cs h in
          elim (Bool-cases (reconcile_items shop clock capture t o.id cs).1) [
            | inr f ↦ rw (e, f, reconcile_order) sound
            | inl f ↦
                rw (e, f, reconcile_order)
                  (set_order-IsSound _ o.id (mark_checked clock.now)
                    (record { same_id = λ x. refl; same_paid = λ x. refl; same_balance = λ x b. b })
                    sound)
          ]
    ]

reconcile_all-IsSound :
    (shop : Shop) (clock : Clock) (items : Text → Option (List Charge))
    (capture : Charge → Option Charge) (t : Till) (os : List Order)
    → IsSound t
    → IsSound (reconcile_all shop clock items capture t os)
unfolding reconcile_all
reconcile_all-IsSound shop clock items capture t [] h = h
reconcile_all-IsSound shop clock items capture t (o ∷ os) h =
    reconcile_all-IsSound shop clock items capture (reconcile_order shop clock items capture t o) os
      (reconcile_order-IsSound shop clock items capture t o h)

open_unpaid : (s : Status) → is_open s ≡ true → is_paid s ≡ false
open_unpaid created e = refl
open_unpaid attempted e = refl
open_unpaid failed e = refl
open_unpaid expired e = refl
open_unpaid mismatch e = refl
open_unpaid paid e = cc

expire-IsQuiet : (now : ℕ) → IsQuiet (expire now)
unfolding expire is_overdue
expire-IsQuiet now = record {
  same_id = λ o. elim (Bool-cases (is_overdue now o)) [ inl e ↦ rw e refl | inr e ↦ rw e refl ];
  same_paid = λ o. elim (Bool-cases (is_overdue now o)) [
    | inl e ↦ rw e (sym (open_unpaid o.status (and-true _ _ e).0))
    | inr e ↦ rw e refl
  ];
  same_balance = λ o b. elim (Bool-cases (is_overdue now o)) [ inl e ↦ rw e b | inr e ↦ rw e b ];
}

pub reconcile_orders-IsSound :
    (shop : Shop) (clock : Clock) (items : Text → Option (List Charge))
    (capture : Charge → Option Charge) (t : Till)
    → IsSound t
    → IsSound (reconcile_orders shop clock items capture t)
unfolding reconcile_orders
reconcile_orders-IsSound shop clock items capture t h =
    quietly (reconcile_all-IsSound shop clock items capture t _ h) (expire clock.now)
      (expire-IsQuiet clock.now)

pub handle_refund-IsSound :
    (t : Till) (news : RefundNews) (status : Text)
    → IsSound t
    → IsSound (handle_refund t news status)
unfolding handle_refund
handle_refund-IsSound t news status h = elim (Bool-cases (is_empty news.id)) [
  | inl e ↦ rw (e, handle_refund) h
  | inr e ↦ elim (Bool-cases (any (is_refund news.id) t.refunds)) [
    | inl f ↦ rw (e, f, handle_refund) h
    | inr f ↦ rw (e, f, handle_refund) h
  ]
]
