-- ===== src/Billing/Receive.antt =====
-- `savePayment`, the comparison of a payment with its order, and what is written on an order, of
-- src/services/billingService.js.
use wppflow_backend.Common.{
  ℕ, Bool, true, false, not, Option, none, some, List, [], ◌∷◌, ◌++◌, map, Text, text, text_eq,
  take, length, is_empty, or_else, find, any, show_nat, ltb, ◌==◌, if◌then◌else◌,
}
use wppflow_backend.Common.Result.{Result, ok, ◌>>◌, refuse}
use wppflow_backend.Billing.Invoices.{first_text}
use wppflow_backend.Billing.Till.{attempted, paid, failed, mismatch, Order, Receipt, Till, Charge}

abbrev pub is_receipt : Text → Receipt → Bool
is_receipt id r = text_eq r.gateway_payment id

-- `COALESCE(new, old)`
abbrev pub coalesce {ℓ} : {A : Type ℓ} → Option A → Option A → Option A
coalesce none old = old
coalesce (some a) old = some a

abbrev pub cut : ℕ → Option Text → Option Text
cut n none = none
cut n (some s) = if is_empty s then none else some (take n s)

abbrev pub is_captured : Charge → Bool
is_captured c = text_eq c.status (text "captured")

unfoldable pub receipt_of : Order → Charge → ℕ → Receipt
receipt_of order charge now = record {
  tenant = order.tenant;
  order = some order.id;
  gateway_payment = charge.id;
  status = take 16 (if is_empty charge.status then text "unknown" else charge.status);
  method = cut 30 charge.method;
  amount_minor = charge.amount;
  currency = if is_empty charge.currency then order.currency else charge.currency;
  error_code = cut 100 charge.error_code;
  error_description = cut 500 charge.error_description;
  captured_at = if is_captured charge then some now else none;
}

-- `ON CONFLICT(gateway_payment_id) DO UPDATE`: the order a payment was first seen with stays.
unfoldable pub again : Receipt → Receipt → Receipt
again new r =
    if text_eq r.gateway_payment new.gateway_payment
    then record r {
      status = new.status;
      method = coalesce new.method r.method;
      error_code = new.error_code;
      error_description = new.error_description;
      captured_at = coalesce r.captured_at new.captured_at;
    }
    else r

unfoldable pub save_receipt : List Receipt → Receipt → List Receipt
save_receipt rs new =
    if any (is_receipt new.gateway_payment) rs then map (again new) rs else rs ++ new ∷ []

-- The id of a payment has room for 64 characters.
unfoldable pub save_payment : Till → Order → Charge → ℕ → Result Till
save_payment till order charge now =
    refuse (ltb 64 (length charge.id)) 500 (text "value too long for type character varying(64)")
    >> ok (record till { receipts = save_receipt till.receipts (receipt_of order charge now) })

abbrev pub or_null : Option Text → Text
or_null o = or_else o (text "null")

abbrev pub same_text : Text → Option Text → Bool
same_text a none = false
same_text a (some b) = text_eq a b

-- The payment names a company, and it is not the order's.
abbrev pub names_other : Option ℕ → Option ℕ → Bool
names_other none t = false
names_other (some a) none = true
names_other (some a) (some b) = not (a == b)

-- The order that the payment was first seen with, if it is another one.
unfoldable pub used_elsewhere : List Receipt → Order → Charge → Bool
used_elsewhere rs order charge = elim (find (is_receipt charge.id) rs) [
  | none ↦ false
  | some r ↦ elim r.order [ none ↦ false | some o ↦ not (o == order.id) ]
]

unfoldable pub problem_if : Bool → Text → List Text
problem_if true words = words ∷ []
problem_if false words = []

unfoldable pub problems_of : List Receipt → Order → Charge → List Text
problems_of rs order charge =
    problem_if (not (same_text charge.order_id order.gateway_order)) (
      text "the payment belongs to order "
      ++ (charge.order_id ++ (text ", not " ++ or_null order.gateway_order)))
    ++ (problem_if (not (charge.amount == order.total_minor)) (
          text "amount "
          ++ (show_nat charge.amount ++ (text " instead of " ++ show_nat order.total_minor)))
        ++ (problem_if (not (text_eq charge.currency order.currency))
              (text "currency " ++ (charge.currency ++ (text " instead of " ++ order.currency)))
            ++ (problem_if (names_other charge.tenant order.tenant)
                  (text "the payment names another company")
                ++ problem_if (used_elsewhere rs order charge)
                    (text "the payment was already used for another order"))))

-- `problems.join("; ")`
abbrev pub join : List Text → Text
join [] = []
join (p ∷ []) = p
join (p ∷ q ∷ ps) = p ++ (text "; " ++ join (q ∷ ps))

unfoldable pub mark_failed : Charge → Order → Order
mark_failed charge o = record o {
  status = failed;
  failure_reason = some (
      take 300 (
        first_text charge.error_description
          (first_text charge.error_reason (text "The payment did not go through"))));
  gateway_payment = some charge.id;
}

unfoldable pub mark_attempted : Charge → Order → Order
mark_attempted charge o = record o { status = attempted; gateway_payment = some charge.id }

unfoldable pub mark_mismatch : Charge → Text → Order → Order
mark_mismatch charge reason o = record o {
  status = mismatch;
  failure_reason = some (take 500 reason);
  gateway_payment = some charge.id;
}

unfoldable pub mark_paid : Charge → ℕ → ℕ → ℕ → Order → Order
mark_paid charge now payment invoice o = record o {
  status = paid;
  paid_at = some now;
  gateway_payment = some charge.id;
  subscription_payment = some payment;
  invoice = some invoice;
  failure_reason = none;
}
