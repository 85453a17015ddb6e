-- ===== src/Billing/Sound.antt =====
-- Settling a payment keeps the orders and the invoices in agreement.
use wppflow_backend.Common.{
  ℕ, true, false, not, Option, none, some, Text, text, text_eq, to_lower, trim, has_text, length,
  find, take, ltb, arith, ==_iff, ◌≡◌, refl, sym, ap, ◌∙◌, from_if, from_option,
}
use mathlib.Core.Path.{subst}
use mathlib.Core.Option.{some-injective}
use wppflow_backend.Common.Result.{ok, from_bind, ok_injective, refuse, refuse-ok, ◌>>=◌}
use wppflow_backend.Billing.Holds.{
  belongs-save_receipt, owned-save_receipt, belongs-for_tenant, owned-for_tenant, save_receipt-find,
  belongs-unused, problems_of-Fits,
}
use wppflow_backend.Common.Rows.{find-some, all-find, find-map, take_all}
use wppflow_backend.Subscription.Dates.{Day}
use wppflow_backend.Subscription.Payment.{Books, record_payment}
use wppflow_backend.Billing.Quote.{Shop}
use wppflow_backend.Billing.Till.{
  Receipt, Status, created, attempted, paid, failed, expired, mismatch, Order, Till, Charge, Clock,
  order_by_id, is_order, set_order, on_order, is_company, set_books, audit,
}
use wppflow_backend.Billing.Invoices.{make_invoice, issue_invoice}
use wppflow_backend.Billing.Receive.{
  is_receipt, receipt_of, is_captured, save_payment, problems_of, mark_failed, mark_attempted,
  mark_mismatch, mark_paid,
}
use wppflow_backend.Billing.Settle.{
  Outcome, create_workspace, bill_of, write_paid, pay, mismatch_reason, settle_captured,
  settle_open, closed_as, settle_order,
}
use wppflow_backend.Billing.Edits.{
  IsQuiet, on_order-IsQuiet, quietly, drawn_more, still_unpaid, now_paid, with_receipts,
}
use wppflow_backend.Billing.Ledger.{is_paid, is_balanced, belongs, IsSound}

pub audit-IsSound :
    (t : Till) (tenant : Option ℕ) (event : Text) → IsSound t → IsSound (audit t tenant event)
unfolding audit
audit-IsSound t none event h = h
audit-IsSound t (some tenant) event h = h

-- The order that is settled: its row, which is not paid.
record IsDue (t : Till) (order : Order) : Type 0 where
  row : Order
  found : find (is_order order.id) t.orders ≡ some row
  unpaid : is_paid row.status ≡ false
  balanced : is_balanced order ≡ true

closing-IsSound :
    (t : Till) (order : Order) (f : Order → Order)
    → IsDue t order
    → ((x : Order) → (f x).id ≡ x.id)
    → ((x : Order) → is_paid (f x).status ≡ false)
    → ((x : Order) → is_balanced x ≡ true → is_balanced (f x) ≡ true)
    → IsSound t
    → IsSound (set_order t order.id f)
unfolding set_order
closing-IsSound t order f due same still balance h =
    still_unpaid h order.id due.row f due.found due.unpaid same balance still

write_paid-IsSound :
    (shop : Shop) (clock : Clock) (t : Till) (order : Order) (tenant payment : ℕ) (books : Books)
    (period : Day × Day) (charge : Charge)
    → IsDue t order
    → belongs t.receipts (take 120 charge.id) order.id ≡ true
    → IsSound t
    → IsSound (write_paid shop clock t order tenant payment books period charge)
unfolding write_paid audit set_order set_books issue_invoice make_invoice bill_of mark_paid
write_paid-IsSound shop clock t order tenant payment books period charge due its h =
    now_paid h order.id due.row (mark_paid charge clock.now payment t.next_id) due.found due.unpaid
      (λ x. refl) (λ x b. b)
      (make_invoice shop.settings clock t.counters t.next_id
        (bill_of shop order tenant payment period charge))
      (λ x. refl) refl refl due.balanced its

pay-IsSound :
    (shop : Shop) (clock : Clock) (t : Till) (order : Order) (tenant : ℕ) (charge : Charge)
    (out : Till × Outcome)
    → IsDue t order
    → belongs t.receipts (take 120 charge.id) order.id ≡ true
    → IsSound t
    → pay shop clock t order tenant charge ≡ ok out
    → IsSound out.0
unfolding pay
pay-IsSound shop clock t order tenant charge out due its h came =
    from_option (find (is_company tenant) t.companies) _ _ came (λ missing_company e. cc)
      λ company e1 r1.
        from_bind (record_payment shop.plans company.books _ true clock.today) _ r1
          λ recorded e2 r2.
            subst (λ k. IsSound k.0) (ok_injective _ out r2)
              (write_paid-IsSound shop clock t order tenant _ recorded.0 _ charge due its h)

given_tenant : ℕ → Order → Order
given_tenant id o = record o { tenant = some id }

create_workspace-IsDue :
    (shop : Shop) (t : Till) (order : Order) (payment : Text) (with_company : Till) (tenant : ℕ)
    → create_workspace shop t order ≡ ok (some (with_company, tenant))
    → IsDue t order
    → belongs t.receipts payment order.id ≡ true
    → IsSound t
    → IsDue with_company order
      × (belongs with_company.receipts payment order.id ≡ true)
      × IsSound with_company
unfolding create_workspace given_tenant
create_workspace-IsDue shop t order payment with_company tenant came due its h =
    from_option order.guest _ _ came (λ e r. cc)
      λ guest e1 r1.
        from_if (has_text (to_lower (trim guest.owner_email)) t.users) _ _ r1 (λ e r. cc)
          λ e2 r2.
            subst
              (λ k. IsDue k.0 order × (belongs k.0.receipts payment order.id ≡ true) × IsSound k.0)
              (some-injective _ _ (ok_injective _ _ r2))
              (
                record {
                  row = on_order order.id (given_tenant t.next_id) due.row;
                  found =
                      find-map (is_order order.id) _ t.orders due.row
                        (λ y. rw (quiet.same_id y) refl) due.found;
                  unpaid = quiet.same_paid due.row ∙ due.unpaid;
                  balanced = due.balanced;
                },
                belongs-for_tenant t.receipts order.id t.next_id payment order.id its,
                with_receipts (quietly (drawn_more h) _ quiet) _
                    (owned-for_tenant t.receipts order.id t.next_id h.owned)
                    (belongs-for_tenant t.receipts order.id t.next_id),
              )
  where
    quiet : IsQuiet (on_order order.id (given_tenant t.next_id))
    quiet =
        on_order-IsQuiet order.id (given_tenant t.next_id)
          (record { same_id = λ o. refl; same_paid = λ o. refl; same_balance = λ o b. b })

settle_captured-IsSound :
    (shop : Shop) (clock : Clock) (t : Till) (order : Order) (charge : Charge)
    (out : Till × Outcome)
    → IsDue t order
    → belongs t.receipts (take 120 charge.id) order.id ≡ true
    → IsSound t
    → settle_captured shop clock t order charge ≡ ok out
    → IsSound out.0
unfolding settle_captured mark_mismatch
settle_captured-IsSound shop clock t order charge out due its h came =
    from_option order.tenant _ _ came
      (λ e r. from_bind (create_workspace shop t order) _ r λ made e1 r1.
        from_option made _ _ r1
          (λ e2 r2.
            subst (λ k. IsSound k.0) (ok_injective _ out r2)
              (closing-IsSound t order _ due (λ x. refl) (λ x. refl) (λ x b. b) h))
          λ with e2 r2.
            let sound =
              create_workspace-IsDue shop t order (take 120 charge.id) with.0 with.1 (e1 ∙ ap ok e2)
                due its h in
            pay-IsSound shop clock with.0 order with.1 charge out sound.0 sound.1 sound.2 r2)
      λ tenant e r. pay-IsSound shop clock t order tenant charge out due its h r

settle_open-IsSound :
    (shop : Shop) (clock : Clock) (t : Till) (order : Order) (charge : Charge)
    (out : Till × Outcome) (r : Receipt)
    → IsDue t order
    → find (is_receipt charge.id) t.receipts ≡ some r
    → take 120 charge.id ≡ charge.id
    → IsSound t
    → settle_open shop clock t order charge ≡ ok out
    → IsSound out.0
unfolding settle_open mark_failed mark_attempted mark_mismatch
settle_open-IsSound shop clock t order charge out receipt due seen short h came =
    from_if (text_eq charge.status (text "failed")) _ _ came
      (λ e r.
        subst (λ k. IsSound k.0) (ok_injective _ out r)
          (closing-IsSound t order (mark_failed charge) due (λ x. refl) (λ x. refl) (λ x b. b) h))
      λ e1 r1.
        from_if (not (is_captured charge)) _ _ r1
          (λ e r.
            subst (λ k. IsSound k.0) (ok_injective _ out r)
              (closing-IsSound t order (mark_attempted charge) due (λ x. refl) (λ x. refl)
                (λ x b. b) h))
          λ e2 r2.
            from_if (ltb 0 (length (problems_of t.receipts order charge))) _ _ r2
              (λ e r.
                subst (λ k. IsSound k.0) (ok_injective _ out r)
                  (audit-IsSound _ order.tenant _ (
                    closing-IsSound t order
                      (mark_mismatch charge
                        (mismatch_reason charge (problems_of t.receipts order charge)))
                      due (λ x. refl) (λ x. refl) (λ x b. b) h)))
              λ e3 r3.
                let fits = problems_of-Fits t.receipts order charge e3 in
                let its = belongs-unused t.receipts order charge receipt seen h.owned fits.unused in
                settle_captured-IsSound shop clock t order charge out due
                  (subst (λ k. belongs t.receipts k order.id ≡ true) (sym short) its) h r3

-- What a payment on record leaves.
save_payment-IsSaved :
    (t : Till) (order : Order) (charge : Charge) (now : ℕ) (saved : Till)
    → IsSound t
    → save_payment t order charge now ≡ ok saved
    → IsSound saved
      × (take 120 charge.id ≡ charge.id)
      × ((r : Receipt) × (find (is_receipt charge.id) saved.receipts ≡ some r))
      × (saved.orders ≡ t.orders)
unfolding save_payment receipt_of
save_payment-IsSaved t order charge now saved h came =
    from_bind (refuse (ltb 64 (length charge.id)) _ _) _ came λ u e1 r1.
      let fits = refuse-ok (ltb 64 (length charge.id)) _ _ u e1 in
      subst
        (λ k.
          IsSound k
          × (take 120 charge.id ≡ charge.id)
          × ((r : Receipt) × (find (is_receipt charge.id) k.receipts ≡ some r))
          × (k.orders ≡ t.orders))
        (ok_injective _ saved r1)
        (
          with_receipts h _
              (owned-save_receipt t.receipts (receipt_of order charge now) refl h.owned)
              (belongs-save_receipt t.receipts (receipt_of order charge now)),
          take_all 120 charge.id (ground arith),
          save_receipt-find t.receipts (receipt_of order charge now),
          refl,
        )

open_unpaid : (s : Status) → closed_as s ≡ none → is_paid s ≡ false
unfolding closed_as
open_unpaid paid e = cc
open_unpaid created e = refl
open_unpaid attempted e = refl
open_unpaid failed e = refl
open_unpaid expired e = refl
open_unpaid mismatch e = refl

pub settle_order-IsSound :
    (shop : Shop) (clock : Clock) (t : Till) (id : ℕ) (charge : Charge) (out : Till × Outcome)
    → IsSound t
    → settle_order shop clock t id charge ≡ ok out
    → IsSound out.0
unfolding settle_order save_payment
settle_order-IsSound shop clock t id charge out h came =
    from_option (order_by_id t id) _ _ came
      (λ e r. subst (λ k. IsSound k.0) (ok_injective _ out r) h)
      λ order e1 r1.
        from_option (closed_as order.status)
          (save_payment t order charge clock.now >>= λ saved.
            settle_open shop clock saved order charge)
          _ r1
          (λ e r. from_bind (save_payment t order charge clock.now) _ r λ saved e2 r2.
            let done = save_payment-IsSaved t order charge clock.now saved h e2 in
            let (receipt, seen) = done.2 in
            settle_open-IsSound shop clock saved order charge out receipt
              (record {
                row = order;
                found =
                    subst (λ k. find (is_order k) saved.orders ≡ some order)
                      (sym ((==_iff order.id id).0 (find-some _ t.orders order e1).1))
                      (ap (find (is_order id)) done.3 ∙ e1);
                unpaid = open_unpaid order.status e;
                balanced = all-find is_balanced (is_order id) t.orders order h.asked e1;
              })
              seen done.1 done.0 r2)
          λ outcome e r. subst (λ k. IsSound k.0) (ok_injective _ out r) h
