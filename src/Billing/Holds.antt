-- ===== src/Billing/Holds.antt =====
-- A payment stays with the order it was first seen with.
use wppflow_backend.Common.{
  ℕ, Bool, true, false, not, none, some, List, [], ◌∷◌, ◌++◌, map, Text, text_eq, text_eq_refl,
  length, find, all, any, is_some, ltb, ◌==◌, ◌≡◌, refl, arith, inl, inr, from_option, Bool-cases,
  Option-cases,
}
use wppflow_backend.Common.Rows.{
  all-append, all-map, all-find, find-map, find-append, find-append_some, any-find, find-any,
  find-none,
}
use wppflow_backend.Billing.Till.{Order, Receipt, Charge}
use wppflow_backend.Billing.Receive.{
  is_receipt, again, save_receipt, same_text, names_other, used_elsewhere, problem_if, problems_of,
}
use wppflow_backend.Billing.Settle.{for_tenant}
use wppflow_backend.Billing.Ledger.{has_order, belongs}

-- A change of payments that leaves their ids and their orders.
record IsSteady (f : Receipt → Receipt) : Type 0 where
  same_payment : (r : Receipt) → (f r).gateway_payment ≡ r.gateway_payment
  same_order : (r : Receipt) → (f r).order ≡ r.order

again-IsSteady : (new : Receipt) → IsSteady (again new)
unfolding again
again-IsSteady new = record {
  same_payment = λ r. elim (Bool-cases (text_eq r.gateway_payment new.gateway_payment)) [
    | inl e ↦ rw e refl
    | inr e ↦ rw e refl
  ];
  same_order = λ r. elim (Bool-cases (text_eq r.gateway_payment new.gateway_payment)) [
    | inl e ↦ rw e refl
    | inr e ↦ rw e refl
  ];
}

is_for : ℕ → Receipt → Bool
is_for order r = elim r.order [ none ↦ false | some o ↦ o == order ]

for_tenant-IsSteady : (order tenant : ℕ) → IsSteady (for_tenant order tenant)
unfolding for_tenant is_for
for_tenant-IsSteady order tenant = record {
  same_payment = λ r. elim (Bool-cases (is_for order r)) [ inl e ↦ rw e refl | inr e ↦ rw e refl ];
  same_order = λ r. elim (Bool-cases (is_for order r)) [ inl e ↦ rw e refl | inr e ↦ rw e refl ];
}

module _ (rs : List Receipt) where
  belongs-map :
      (f : Receipt → Receipt)
      → IsSteady f
      → (p : Text) (n : ℕ) → belongs rs p n ≡ true
      → belongs (map f rs) p n ≡ true
  belongs-map f steady p n h =
      from_option (find (is_receipt p) rs) _ _ h (λ e r. cc)
        λ row e r.
          rw
            (
              find-map (is_receipt p) f rs row (λ y. rw (steady.same_payment y) refl) e,
              steady.same_order row,
              belongs,
            )
            r

  belongs-append :
      (new : Receipt) (p : Text) (n : ℕ)
      → belongs rs p n ≡ true
      → belongs (rs ++ new ∷ []) p n ≡ true
  belongs-append new p n h =
      from_option (find (is_receipt p) rs) _ _ h (λ e r. cc)
        λ row e r. rw (find-append_some (is_receipt p) rs (new ∷ []) row e, belongs) r

  owned-map :
      (f : Receipt → Receipt)
      → IsSteady f
      → all has_order rs ≡ true
      → all has_order (map f rs) ≡ true
  owned-map f steady = all-map has_order f rs λ r h. rw (steady.same_order r) h

  pub belongs-save_receipt :
      (new : Receipt) (p : Text) (n : ℕ)
      → belongs rs p n ≡ true
      → belongs (save_receipt rs new) p n ≡ true
  unfolding save_receipt
  belongs-save_receipt new p n h = elim (Bool-cases (any (is_receipt new.gateway_payment) rs)) [
    | inl e ↦ rw e (belongs-map (again new) (again-IsSteady new) p n h)
    | inr e ↦ rw e (belongs-append new p n h)
  ]

  pub owned-save_receipt :
      (new : Receipt)
      → has_order new ≡ true
      → all has_order rs ≡ true
      → all has_order (save_receipt rs new) ≡ true
  unfolding save_receipt
  owned-save_receipt new its h = elim (Bool-cases (any (is_receipt new.gateway_payment) rs)) [
    | inl e ↦ rw e (owned-map (again new) (again-IsSteady new) h)
    | inr e ↦ rw e (all-append has_order rs (new ∷ []) h (rw its refl))
  ]

  pub belongs-for_tenant :
      (order tenant : ℕ) (p : Text) (n : ℕ)
      → belongs rs p n ≡ true
      → belongs (map (for_tenant order tenant) rs) p n ≡ true
  belongs-for_tenant order tenant =
      belongs-map (for_tenant order tenant) (for_tenant-IsSteady order tenant)

  pub owned-for_tenant :
      (order tenant : ℕ)
      → all has_order rs ≡ true
      → all has_order (map (for_tenant order tenant) rs) ≡ true
  owned-for_tenant order tenant =
      owned-map (for_tenant order tenant) (for_tenant-IsSteady order tenant)

  -- Once written, a payment is there.
  pub save_receipt-find :
      (new : Receipt)
      → (r : Receipt) × (find (is_receipt new.gateway_payment) (save_receipt rs new) ≡ some r)
  unfolding save_receipt
  save_receipt-find new = elim (Bool-cases (any (is_receipt new.gateway_payment) rs)) [
    | inl e ↦
        let (row, found) = find-any (is_receipt new.gateway_payment) rs e in
        (
          again new row,
          rw e (
              find-map (is_receipt new.gateway_payment) (again new) rs row
                (λ y. rw ((again-IsSteady new).same_payment y) refl) found),
        )
    | inr e ↦ (
      new,
      rw e (
          find-append (is_receipt new.gateway_payment) rs new (find-none _ rs (any-find _ rs e))
            (text_eq_refl new.gateway_payment)),
    )
  ]

  pub belongs-unused :
      (order : Order) (charge : Charge) (r : Receipt)
      → find (is_receipt charge.id) rs ≡ some r
      → all has_order rs ≡ true
      → used_elsewhere rs order charge ≡ false
      → belongs rs charge.id order.id ≡ true
  unfolding used_elsewhere
  belongs-unused order charge r found owned unused = elim (Option-cases r.order) [
    | inl e ↦
        let its : is_some r.order ≡ true =
          all-find has_order (is_receipt charge.id) rs r owned found in
        let missing : is_some r.order ≡ false = rw e refl in cc
    | inr (o, e) ↦
        let shown : used_elsewhere rs order charge ≡ not (o == order.id) =
          rw (found, e, used_elsewhere) refl in
        rw (found, e, belongs) (ground arith)
  ]

-- What it means that a payment fits an order.
pub record Fits (rs : List Receipt) (order : Order) (charge : Charge) : Type 0 where
  pub same_order : same_text charge.order_id order.gateway_order ≡ true
  pub same_amount : (charge.amount == order.total_minor) ≡ true
  pub same_currency : text_eq charge.currency order.currency ≡ true
  pub same_company : names_other charge.tenant order.tenant ≡ false
  pub unused : used_elsewhere rs order charge ≡ false

problem_if-none :
    (b : Bool) (words : Text) (rest : List Text)
    → ltb 0 (length (problem_if b words ++ rest)) ≡ false
    → (b ≡ false) × (ltb 0 (length rest) ≡ false)
unfolding problem_if
problem_if-none true words rest h = absurd (ground arith)
problem_if-none false words rest h = (refl, h)

problem_if-last :
    (b : Bool) (words : Text) → ltb 0 (length (problem_if b words)) ≡ false → b ≡ false
unfolding problem_if
problem_if-last true words h = absurd (ground arith)
problem_if-last false words h = refl

pub problems_of-Fits :
    (rs : List Receipt) (order : Order) (charge : Charge)
    → ltb 0 (length (problems_of rs order charge)) ≡ false
    → Fits rs order charge
unfolding problems_of
problems_of-Fits rs order charge h =
    let a = problem_if-none _ _ _ h in
    let b = problem_if-none _ _ _ a.1 in
    let c = problem_if-none _ _ _ b.1 in
    let d = problem_if-none _ _ _ c.1 in
    record {
      same_order = ground (arith, a.0);
      same_amount = ground (arith, b.0);
      same_currency = ground (arith, c.0);
      same_company = d.0;
      unused = problem_if-last _ _ d.1;
    }
