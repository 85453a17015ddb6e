-- ===== src/Billing/Edits.antt =====
-- The changes of the tables that keep the orders, the payments and the invoices in agreement.
use wppflow_backend.Common.{
  ℕ, ◌+◌, true, false, none, some, List, [], ◌∷◌, ◌++◌, map, Text, text_eq, text_eq_iff, find, all,
  count_if, ◌==◌, ==_iff, ◌≡◌, refl, sym, ap, ◌∙◌, arith, inl, inr, from_option, Bool-cases,
}
use mathlib.Core.List.{append-nil}
use wppflow_backend.Common.Rows.{
  count_if-append, all-append, all-imp, count_if-map, count_if-never, all-map_only, all-map,
  find-some, count_if-only,
}
use wppflow_backend.Billing.Till.{Order, Receipt, Invoice, is_order, on_order}
use wppflow_backend.Billing.Ledger.{
  is_paid, paid_as, bills, is_balanced, is_balanced_invoice, has_order, belongs, is_held, seqs,
  one_to, IsLedger, seqs-append, last_seq-count_up,
}
use wppflow_backend.Billing.Invoices.{last_seq, count_up}

-- A change of orders that the invoices do not notice.
pub record IsQuiet (f : Order → Order) : Type 0 where
  pub same_id : (o : Order) → (f o).id ≡ o.id
  pub same_paid : (o : Order) → is_paid (f o).status ≡ is_paid o.status
  pub same_balance : (o : Order) → is_balanced o ≡ true → is_balanced (f o) ≡ true

pub on_order-IsQuiet : (id : ℕ) (f : Order → Order) → IsQuiet f → IsQuiet (on_order id f)
unfolding on_order
on_order-IsQuiet id f quiet = record {
  same_id =
      λ o. elim (Bool-cases (o.id == id)) [ inl e ↦ rw e (quiet.same_id o) | inr e ↦ rw e refl ];
  same_paid =
      λ o. elim (Bool-cases (o.id == id)) [ inl e ↦ rw e (quiet.same_paid o) | inr e ↦ rw e refl ];
  same_balance = λ o h. elim (Bool-cases (o.id == id)) [
    | inl e ↦ rw e (quiet.same_balance o h)
    | inr e ↦ rw e h
  ];
}

still_held :
    (rs new : List Receipt)
    → ((p : Text) (n : ℕ) → belongs rs p n ≡ true → belongs new p n ≡ true)
    → (i : Invoice) → is_held rs i ≡ true
    → is_held new i ≡ true
still_held rs new kept i h =
    from_option i.order _ _ h (λ e r. rw e refl) λ n e r. rw e (kept i.payment_ref n r)

module _ {rs : List Receipt} {os : List Order} {is : List Invoice} {cs : List (Text × ℕ)} {next : ℕ}
    (l : IsLedger rs os is cs next) where
  pub rewritten :
      (f : Order → Order)
      → ((o : Order) → (f o).id ≡ o.id)
      → ((o : Order) → is_paid (f o).status ≡ is_paid o.status)
      → all is_balanced (map f os) ≡ true
      → IsLedger rs (map f os) is cs next
  rewritten f same_id same_paid balanced = record {
    one_row = λ n. rw (rows n) (l.one_row n);
    drawn = λ n late. rows n ∙ l.drawn n late;
    billed = λ n.
        l.billed n
        ∙ sym (count_if-map (paid_as n) (paid_as n) f os λ o. rw (same_paid o, same_id o) refl);
    numbered = l.numbered;
    asked = balanced;
    charged = l.charged;
    owned = l.owned;
    held = l.held;
  }
    where
      rows : (n : ℕ) → count_if (is_order n) (map f os) ≡ count_if (is_order n) os
      rows n = count_if-map (is_order n) (is_order n) f os λ o. rw (same_id o) refl

  pub quietly : (f : Order → Order) → IsQuiet f → IsLedger rs (map f os) is cs next
  quietly f quiet =
      rewritten f quiet.same_id quiet.same_paid
        (all-map is_balanced f os quiet.same_balance l.asked)

  -- A change of one row, which stays in balance.
  pub row_rewritten :
      (id : ℕ) (o : Order) (f : Order → Order)
      → find (is_order id) os ≡ some o
      → ((x : Order) → (f x).id ≡ x.id)
      → ((x : Order) → is_paid (f x).status ≡ is_paid x.status)
      → is_balanced (f o) ≡ true
      → IsLedger rs (map (on_order id f) os) is cs next
  unfolding on_order
  row_rewritten id o f found same_id same_paid balanced =
      rewritten (on_order id f)
        (λ x. elim (Bool-cases (x.id == id)) [ inl e ↦ rw e (same_id x) | inr e ↦ rw e refl ])
        (λ x. elim (Bool-cases (x.id == id)) [ inl e ↦ rw e (same_paid x) | inr e ↦ rw e refl ])
        (all-map_only is_balanced (is_order id) f os o found (l.one_row id) balanced l.asked)

  -- The payments change, and what was paid with them stays so.
  pub with_receipts :
      (new : List Receipt)
      → all has_order new ≡ true
      → ((p : Text) (n : ℕ) → belongs rs p n ≡ true → belongs new p n ≡ true)
      → IsLedger new os is cs next
  with_receipts new owned kept = record {
    one_row = l.one_row;
    drawn = l.drawn;
    billed = l.billed;
    numbered = l.numbered;
    asked = l.asked;
    charged = l.charged;
    owned = owned;
    held = all-imp (is_held rs) (is_held new) is (still_held rs new kept) l.held;
  }

  pub drawn_more : IsLedger rs os is cs (next + 1)
  drawn_more = record {
    one_row = l.one_row;
    drawn = λ n late. l.drawn n (omega arith);
    billed = l.billed;
    numbered = l.numbered;
    asked = l.asked;
    charged = l.charged;
    owned = l.owned;
    held = l.held;
  }

  -- The next number of a series.
  issued :
      (i : Invoice)
      → i.seq ≡ last_seq cs i.series + 1
      → (s : Text) → seqs s (is ++ i ∷ []) ≡ one_to (last_seq (count_up cs i.series) s)
  issued i next_one s = elim (Bool-cases (text_eq i.series s)) [
    | inl e ↦
        let same : i.series ≡ s = (text_eq_iff i.series s).0 e in
        rw (seqs-append s is i, last_seq-count_up cs i.series s, e, l.numbered s, next_one)
          (ap (λ k. one_to (last_seq cs k) ++ (last_seq cs i.series + 1) ∷ []) (sym same)
            ∙ ap (λ k. one_to (last_seq cs i.series) ++ k ∷ []) (omega arith))
    | inr e ↦
        rw (seqs-append s is i, last_seq-count_up cs i.series s, e, l.numbered s)
          (append-nil (one_to (last_seq cs s)))
  ]

  -- An invoice that is for no order.
  pub with_invoice :
      (i : Invoice)
      → i.order ≡ none
      → i.seq ≡ last_seq cs i.series + 1
      → is_balanced_invoice i ≡ true
      → IsLedger rs os (is ++ i ∷ []) (count_up cs i.series) (next + 1)
  with_invoice i for_none numbered balanced = record {
    one_row = l.one_row;
    drawn = λ n late. l.drawn n (omega arith);
    billed = λ n.
        let not_its : bills n i ≡ false = rw for_none refl in
        count_if-append (bills n) is (i ∷ []) ∙ rw not_its (omega (arith, l.billed n));
    numbered = issued i numbered;
    asked = l.asked;
    charged = all-append is_balanced_invoice is (i ∷ []) l.charged (rw balanced refl);
    owned = l.owned;
    held = all-append (is_held rs) is (i ∷ []) l.held (rw for_none refl);
  }

  pub with_order :
      (o : Order)
      → o.id ≡ next
      → is_paid o.status ≡ false
      → is_balanced o ≡ true
      → IsLedger rs (os ++ o ∷ []) is cs (next + 1)
  with_order o fresh unpaid balanced = record {
    one_row = λ n.
        let old = l.one_row n in
        let none_yet = l.drawn n in
        let counted = count_if-append (is_order n) os (o ∷ []) in ground arith;
    drawn = λ n late.
        let none_yet = l.drawn n in
        let counted = count_if-append (is_order n) os (o ∷ []) in ground arith;
    billed = λ n.
        let old = l.billed n in
        let counted = count_if-append (paid_as n) os (o ∷ []) in ground arith;
    numbered = l.numbered;
    asked = all-append is_balanced os (o ∷ []) l.asked (rw balanced refl);
    charged = l.charged;
    owned = l.owned;
    held = l.held;
  }

  module _ (id : ℕ) (o : Order) (f : Order → Order) (found : find (is_order id) os ≡ some o)
      (unpaid : is_paid o.status ≡ false) (same_id : (x : Order) → (f x).id ≡ x.id)
      (same_balance : (x : Order) → is_balanced x ≡ true → is_balanced (f x) ≡ true) where
    not_paid : count_if (paid_as id) os ≡ 0
    not_paid = count_if-only (is_order id) (λ x. is_paid x.status) os o found (l.one_row id) unpaid

    on_same_id : (x : Order) → (on_order id f x).id ≡ x.id
    unfolding on_order
    on_same_id x = elim (Bool-cases (x.id == id)) [ inl e ↦ rw e (same_id x) | inr e ↦ rw e refl ]

    on_balance : (x : Order) → is_balanced x ≡ true → is_balanced (on_order id f x) ≡ true
    unfolding on_order
    on_balance x h = elim (Bool-cases (x.id == id)) [
      | inl e ↦ rw e (same_balance x h)
      | inr e ↦ rw e h
    ]

    others :
        (n : ℕ)
        → (n == id) ≡ false
        → count_if (paid_as n) (map (on_order id f) os) ≡ count_if (paid_as n) os
    unfolding on_order
    others n apart = count_if-map (paid_as n) (paid_as n) (on_order id f) os λ x.
        elim (Bool-cases (x.id == id)) [
          | inl e ↦
              let elsewhere : (x.id == n) ≡ false = ground arith in
              rw (e, same_id x, elsewhere) (ground arith)
          | inr e ↦ rw e refl
        ]

    rows : (n : ℕ) → count_if (is_order n) (map (on_order id f) os) ≡ count_if (is_order n) os
    rows n = count_if-map (is_order n) (is_order n) (on_order id f) os λ x. rw (on_same_id x) refl

    never :
        ((x : Order) → is_paid (f x).status ≡ false)
        → (x : Order) → paid_as id (on_order id f x) ≡ false
    unfolding on_order
    never still x = elim (Bool-cases (x.id == id)) [
      | inl e ↦ rw (e, still x) refl
      | inr e ↦ rw e (ground arith)
    ]

    -- An order that was not paid stays so.
    pub still_unpaid :
        ((x : Order) → is_paid (f x).status ≡ false)
        → IsLedger rs (map (on_order id f) os) is cs next
    still_unpaid still = record {
      one_row = λ n. rw (rows n) (l.one_row n);
      drawn = λ n late. rows n ∙ l.drawn n late;
      billed = λ n. elim (Bool-cases (n == id)) [
        | inr apart ↦ l.billed n ∙ sym (others n apart)
        | inl e ↦ rw ((==_iff n id).0 e) (
            l.billed id
            ∙ not_paid
            ∙ sym (
                count_if-map (paid_as id) (λ x. false) (on_order id f) os (never still)
                ∙ count_if-never (λ x. false) os λ x. refl))
      ];
      numbered = l.numbered;
      asked = all-map is_balanced (on_order id f) os on_balance l.asked;
      charged = l.charged;
      owned = l.owned;
      held = l.held;
    }

    always :
        ((x : Order) → is_paid (f x).status ≡ true)
        → (x : Order) → paid_as id (on_order id f x) ≡ is_order id x
    unfolding on_order
    always now x = elim (Bool-cases (x.id == id)) [
      | inl e ↦ rw (e, now x, same_id x, e) refl
      | inr e ↦ rw e (ground arith)
    ]

    -- The order is paid, and its invoice issued, at once.
    pub now_paid :
        (i : Invoice)
        → ((x : Order) → is_paid (f x).status ≡ true)
        → i.order ≡ some id
        → i.seq ≡ last_seq cs i.series + 1
        → is_balanced_invoice i ≡ true
        → belongs rs i.payment_ref id ≡ true
        → IsLedger rs (map (on_order id f) os) (is ++ i ∷ []) (count_up cs i.series) (next + 1)
    now_paid i now for_it numbered balanced its = record {
      one_row = λ n. rw (rows n) (l.one_row n);
      drawn = λ n late. rows n ∙ l.drawn n (omega arith);
      billed = λ n. elim (Bool-cases (n == id)) [
        | inr apart ↦
            let apart_too : bills n i ≡ false = rw for_it (ground arith) in
            count_if-append (bills n) is (i ∷ [])
            ∙ (rw apart_too (omega (arith, l.billed n)) ∙ sym (others n apart))
        | inl e ↦ rw ((==_iff n id).0 e) (
            let it : bills id i ≡ true = rw for_it ((==_iff id id).1 refl) in
            let row = find-some (is_order id) os o found in
            let one = l.one_row id in
            let before = l.billed id in
            let free = not_paid in
            count_if-append (bills id) is (i ∷ [])
            ∙ (rw it (omega arith)
                ∙ sym (count_if-map (paid_as id) (is_order id) (on_order id f) os (always now))))
      ];
      numbered = issued i numbered;
      asked = all-map is_balanced (on_order id f) os on_balance l.asked;
      charged = all-append is_balanced_invoice is (i ∷ []) l.charged (rw balanced refl);
      owned = l.owned;
      held = all-append (is_held rs) is (i ∷ []) l.held (rw (for_it, its) refl);
    }
