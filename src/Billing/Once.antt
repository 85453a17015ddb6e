-- ===== src/Billing/Once.antt =====
-- A payment pays once, for one order, and an order is paid once, with what it asked for.
use wppflow_backend.Common.{
  ℕ, true, some, List, Text, find, get_elem?, ◌==◌, ==_iff, ◌≡◌, refl, sym, ap, ◌∙◌, arith,
  from_option,
}
use mathlib.Core.Path.{subst}
use mathlib.Core.Option.{some-injective}
use wppflow_backend.Common.Rows.{count_if-and-le, all-get_elem?, get_elem?-only}
use wppflow_backend.Billing.Till.{Invoice, Receipt, Autopay, Company, Till, is_order}
use wppflow_backend.Billing.Receive.{is_receipt}
use wppflow_backend.Billing.Ledger.{is_paid, bills, belongs, is_held}
use wppflow_backend.Billing.Steps.{Steps, opening, reached-IsSound}

same_order :
    (rs : List Receipt) (p : Text) (a b : ℕ) → belongs rs p a ≡ true → belongs rs p b ≡ true → a ≡ b
same_order rs p a b ha hb =
    from_option (find (is_receipt p) rs) _ _ ha (λ e r. cc)
      λ row e1 r1.
        from_option row.order _ _ r1 (λ e r. cc)
          λ o e2 r2.
            let again : belongs rs p b ≡ (o == b) = rw (e1, e2, belongs) refl in ground arith

held_by :
    (rs : List Receipt) (i : Invoice) (a : ℕ)
    → i.order ≡ some a
    → is_held rs i ≡ true
    → belongs rs i.payment_ref a ≡ true
held_by rs i a its h =
    from_option i.order _ _ h (λ e r. let no = sym e ∙ its in cc)
      λ n e r. subst (λ k. belongs rs i.payment_ref k ≡ true) (some-injective _ _ (sym e ∙ its)) r

its_bill : (i : Invoice) (a : ℕ) → i.order ≡ some a → bills a i ≡ true
its_bill i a its = rw its ((==_iff a a).1 refl)

-- In every till that is reached, two invoices for orders that were paid with the same payment are one
-- invoice: no payment is used twice, for one order or for two.
pub reached_one_payment :
    (companies : List Company) (users : List Text) (autopays : List Autopay) {till : Till}
    → Steps (opening companies users autopays) till
    → (x y : ℕ) (i j : Invoice) (a b : ℕ) → get_elem? till.invoices x ≡ some i
    → get_elem? till.invoices y ≡ some j
    → i.order ≡ some a
    → j.order ≡ some b
    → i.payment_ref ≡ j.payment_ref
    → x ≡ y
reached_one_payment companies users autopays {till} steps x y i j a b at_x at_y of_a of_b same =
    let l = reached-IsSound companies users autopays steps in
    let held_i =
      held_by till.receipts i a of_a
        (all-get_elem? (is_held till.receipts) till.invoices x i l.held at_x) in
    let held_j =
      held_by till.receipts j b of_b
        (all-get_elem? (is_held till.receipts) till.invoices y j l.held at_y) in
    let one : b ≡ a =
      same_order till.receipts j.payment_ref b a held_j
        (subst (λ k. belongs till.receipts k a ≡ true) same held_i) in
    let row = l.one_row a in
    let paid_rows = count_if-and-le (is_order a) (λ o. is_paid o.status) till.orders in
    let bill = l.billed a in
    get_elem?-only (bills a) till.invoices x y i j (omega arith) at_x at_y (its_bill i a of_a)
      (its_bill j a (of_b ∙ ap some one))
