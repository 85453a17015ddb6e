-- ===== src/Billing/Settled.antt =====
-- What `settleOrder` answered "paid" to, and what it answers the next time.
use wppflow_backend.Common.{
  ℕ, true, false, not, Option, none, some, Text, text, text_eq, text_eq_iff, to_lower, trim,
  has_text, length, find, ltb, ◌==◌, ==_iff, ◌≡◌, ◌≢◌, refl, sym, ap, ◌∙◌, arith, inl, inr, from_if,
  from_option, Bool-cases,
}
use mathlib.Core.Path.{subst}
use mathlib.Core.Option.{some-injective}
use wppflow_backend.Common.Result.{ok, from_bind, ok_injective, refuse, ◌>>=◌}
use wppflow_backend.Common.Rows.{find-some, find-map}
use wppflow_backend.Subscription.Dates.{Day}
use wppflow_backend.Subscription.Payment.{Books, record_payment}
use wppflow_backend.Billing.Quote.{Shop}
use wppflow_backend.Billing.Till.{
  Status, created, attempted, paid, failed, expired, mismatch, Order, Till, Charge, Clock,
  order_by_id, is_order, on_order, set_order, set_books, is_company, audit,
}
use wppflow_backend.Billing.Receive.{
  same_text, names_other, is_captured, save_payment, problems_of, mark_paid,
}
use wppflow_backend.Billing.Invoices.{issue_invoice}
use wppflow_backend.Billing.Settle.{
  Outcome, settled, already, create_workspace, write_paid, pay, settle_captured, settle_open,
  closed_as, settle_order,
}
use wppflow_backend.Billing.Ledger.{is_paid}
use wppflow_backend.Billing.Holds.{Fits, problems_of-Fits}

-- The row of the order, which is paid.
abbrev pub IsPaidIn : Till → ℕ → Type 0
IsPaidIn t id = (row : Order) × (order_by_id t id ≡ some row) × (is_paid row.status ≡ true)

abbrev HasRow : Till → ℕ → Type 0
HasRow t id = (row : Order) × (order_by_id t id ≡ some row)

on_order-id :
    (id : ℕ) (f : Order → Order)
    → ((x : Order) → (f x).id ≡ x.id)
    → (x : Order) → (on_order id f x).id ≡ x.id
unfolding on_order
on_order-id id f same x = elim (Bool-cases (x.id == id)) [
  | inl e ↦ rw e (same x)
  | inr e ↦ rw e refl
]

paid_now :
    (id : ℕ) (f : Order → Order) (row : Order)
    → is_order id row ≡ true
    → is_paid (f row).status ≡ true
    → is_paid (on_order id f row).status ≡ true
unfolding on_order
paid_now id f row its now = rw its now

write_paid-IsPaidIn :
    (shop : Shop) (clock : Clock) (t : Till) (order : Order) (tenant payment : ℕ) (books : Books)
    (period : Day × Day) (charge : Charge)
    → HasRow t order.id
    → IsPaidIn (write_paid shop clock t order tenant payment books period charge) order.id
unfolding write_paid audit set_order set_books issue_invoice mark_paid
write_paid-IsPaidIn shop clock t order tenant payment books period charge (row, found) =
    let mark = mark_paid charge clock.now payment t.next_id in
    let its : is_order order.id row ≡ true = (find-some (is_order order.id) t.orders row found).1 in
    (
      on_order order.id mark row,
      find-map (is_order order.id) (on_order order.id mark) t.orders row
          (λ y. rw (on_order-id order.id mark (λ x. refl) y) refl) found,
      paid_now order.id mark row its refl,
    )

pay-IsPaidIn :
    (shop : Shop) (clock : Clock) (t : Till) (order : Order) (tenant : ℕ) (charge : Charge)
    (out : Till × Outcome)
    → HasRow t order.id
    → pay shop clock t order tenant charge ≡ ok out
    → IsPaidIn out.0 order.id
unfolding pay
pay-IsPaidIn shop clock t order tenant charge out row came =
    from_option (find (is_company tenant) t.companies) _ _ came (λ e r. cc)
      λ company e1 r1.
        from_bind (record_payment shop.plans company.books _ true clock.today) _ r1
          λ recorded e2 r2.
            subst (λ k. IsPaidIn k.0 order.id) (ok_injective _ out r2)
              (write_paid-IsPaidIn shop clock t order tenant _ recorded.0 _ charge row)

given_tenant : ℕ → Order → Order
given_tenant id o = record o { tenant = some id }

create_workspace-HasRow :
    (shop : Shop) (t : Till) (order : Order) (with_company : Till) (tenant : ℕ)
    → create_workspace shop t order ≡ ok (some (with_company, tenant))
    → HasRow t order.id
    → HasRow with_company order.id
unfolding create_workspace given_tenant
create_workspace-HasRow shop t order with_company tenant came (row, found) =
    from_option order.guest _ _ came (λ e r. cc)
      λ guest e1 r1.
        from_if (has_text (to_lower (trim guest.owner_email)) t.users) _ _ r1 (λ e r. cc)
          λ e2 r2.
            subst (λ k. (x : Order) × (order_by_id k.0 order.id ≡ some x))
              (some-injective _ _ (ok_injective _ _ r2))
              (
                on_order order.id (given_tenant t.next_id) row,
                find-map (is_order order.id) (on_order order.id (given_tenant t.next_id)) t.orders
                    row (λ y. rw (on_order-id order.id (given_tenant t.next_id) (λ x. refl) y) refl)
                    found,
              )

settle_captured-IsPaidIn :
    (shop : Shop) (clock : Clock) (t : Till) (order : Order) (charge : Charge) (after : Till)
    → HasRow t order.id
    → settle_captured shop clock t order charge ≡ ok (after, settled)
    → IsPaidIn after order.id
unfolding settle_captured
settle_captured-IsPaidIn shop clock t order charge after row came =
    from_option order.tenant _ _ came
      (λ e r. from_bind (create_workspace shop t order) _ r λ made e1 r1.
        from_option made _ _ r1 (λ e2 r2. cc)
          λ with e2 r2.
            pay-IsPaidIn shop clock with.0 order with.1 charge (after, settled)
              (create_workspace-HasRow shop t order with.0 with.1 (e1 ∙ ap ok e2) row) r2)
      λ tenant e r. pay-IsPaidIn shop clock t order tenant charge (after, settled) row r

-- What is known of an order that a payment settled, before and after.
pub record IsSettled (id : ℕ) (charge : Charge) (after : Till) (order : Order) : Type 0 where
  pub was_open : closed_as order.status ≡ none
  pub captured : is_captured charge ≡ true
  pub its_order : some charge.order_id ≡ order.gateway_order
  pub its_amount : charge.amount ≡ order.total_minor
  pub its_currency : charge.currency ≡ order.currency
  pub its_company : names_other charge.tenant order.tenant ≡ false
  pub paid_now : IsPaidIn after id

settle_open-IsSettled :
    (shop : Shop) (clock : Clock) (t : Till) (order : Order) (charge : Charge) (after : Till)
    → HasRow t order.id
    → settle_open shop clock t order charge ≡ ok (after, settled)
    → (is_captured charge ≡ true) × Fits t.receipts order charge × IsPaidIn after order.id
unfolding settle_open
settle_open-IsSettled shop clock t order charge after row came =
    from_if (text_eq charge.status (text "failed")) _ _ came (λ e r. cc)
      λ e1 r1.
        from_if (not (is_captured charge)) _ _ r1 (λ e r. cc)
          λ e2 r2.
            from_if (ltb 0 (length (problems_of t.receipts order charge))) _ _ r2 (λ e r. cc)
              λ e3 r3. (
                ground (arith, e2),
                problems_of-Fits t.receipts order charge e3,
                settle_captured-IsPaidIn shop clock t order charge after row r3,
              )

same_text-some : (a : Text) (b : Option Text) → same_text a b ≡ true → some a ≡ b
same_text-some a none h = cc
same_text-some a (some b) h = ap some ((text_eq_iff a b).0 h)

closed_paid : (s : Status) → is_paid s ≡ true → closed_as s ≡ some already
unfolding closed_as
closed_paid paid h = refl
closed_paid created h = cc
closed_paid attempted h = cc
closed_paid failed h = cc
closed_paid expired h = cc
closed_paid mismatch h = cc

not_settled : (s : Status) (o : Outcome) → closed_as s ≡ some o → o ≢ settled
unfolding closed_as
not_settled paid o h same = cc
not_settled mismatch o h same = cc
not_settled created o h same = cc
not_settled attempted o h same = cc
not_settled failed o h same = cc
not_settled expired o h same = cc

settle_once :
    (shop : Shop) (clock : Clock) (t : Till) (charge : Charge) (order : Order) (after : Till)
    → HasRow t order.id
    → closed_as order.status ≡ none
    → (save_payment t order charge clock.now >>= λ saved. settle_open shop clock saved order charge)
      ≡ ok (after, settled)
    → IsSettled order.id charge after order
unfolding save_payment
settle_once shop clock t charge order after row e r =
    from_bind (save_payment t order charge clock.now) _ r λ saved e2 r2.
      from_bind (refuse (ltb 64 (length charge.id)) _ _) _ e2 λ u e3 r3.
        let kept : HasRow saved order.id =
          subst (λ k. HasRow k order.id) (ok_injective _ saved r3) row in
        let done = settle_open-IsSettled shop clock saved order charge after kept r2 in
        record {
          was_open = e;
          captured = done.0;
          its_order = same_text-some charge.order_id order.gateway_order done.1.same_order;
          its_amount = (==_iff charge.amount order.total_minor).0 done.1.same_amount;
          its_currency = (text_eq_iff charge.currency order.currency).0 done.1.same_currency;
          its_company = done.1.same_company;
          paid_now = done.2;
        }

-- A payment settles an order only if the order was neither paid nor set aside before, the payment was
-- captured, is for the gateway's order of this order, of the amount and in the currency that were asked
-- for, and names no other company; the order is paid afterwards.
pub settle_order-IsSettled :
    (shop : Shop) (clock : Clock) (t : Till) (id : ℕ) (charge : Charge) (after : Till)
    (order : Order)
    → order_by_id t id ≡ some order
    → settle_order shop clock t id charge ≡ ok (after, settled)
    → IsSettled id charge after order
unfolding settle_order
settle_order-IsSettled shop clock t id charge after order found came =
    from_option (order_by_id t id) _ _ came (λ e r. cc)
      λ row e1 r1.
        let same : row ≡ order = some-injective _ _ (sym e1 ∙ found) in
        let its : row.id ≡ id = (==_iff row.id id).0 (find-some (is_order id) t.orders row e1).1 in
        from_option (closed_as row.status)
          (save_payment t row charge clock.now >>= λ saved. settle_open shop clock saved row charge)
          _ r1
          (λ e r.
            subst (λ k. IsSettled k charge after order) its
              (subst (IsSettled row.id charge after) same (
                settle_once shop clock t charge row after
                  (row, subst (λ k. order_by_id t k ≡ some row) (sym its) e1) e r)))
          λ outcome e r.
            absurd (not_settled row.status outcome e (ap (λ k. k.1) (ok_injective _ _ r)))

-- Once a payment settled an order, the same or any other payment, whenever it comes, changes nothing
-- and is answered "already".
pub settle_order-again :
    (shop : Shop) (clock : Clock) (t : Till) (id : ℕ) (charge : Charge) (after : Till)
    (order : Order)
    → order_by_id t id ≡ some order
    → settle_order shop clock t id charge ≡ ok (after, settled)
    → (later : Shop) (then_clock : Clock) (other : Charge)
    → settle_order later then_clock after id other ≡ ok (after, already)
unfolding settle_order
settle_order-again shop clock t id charge after order found came later then_clock other =
    let (row, at, paid_row) =
      (settle_order-IsSettled shop clock t id charge after order found came).paid_now in
    rw (at, settle_order) (rw (closed_paid row.status paid_row) refl)
