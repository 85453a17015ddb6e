-- ===== src/Billing/Orders.antt =====
-- Making an order, and the browser's word that it was paid, keep the orders and the invoices in
-- agreement.
use wppflow_backend.Common.{
  ℕ, Bool, true, false, not, ◌&&◌, Option, none, some, [], ◌∷◌, ◌++◌, Text, has_text, find, ◌==◌,
  ==_iff, ◌≡◌, refl, arith, inl, inr, from_option, and-true, Bool-cases, Option-cases,
}
use mathlib.Core.Path.{subst}
use wppflow_backend.Common.Result.{ok, refuse, from_bind, ok_injective, Result-cases}
use wppflow_backend.Common.Rows.{find_last, find-find_last, find_last-some, find-append, all-find}
use wppflow_backend.Gst.Profile.{Profile}
use wppflow_backend.Billing.Quote.{Shop, Quote, quote_for}
use wppflow_backend.Billing.Fair.{IsFair, quote_for-IsFair}
use wppflow_backend.Billing.Till.{
  Source, checkout, website, OrderQuote, Guest, Order, Till, Clock, is_order, is_company, on_order,
  set_order,
}
use wppflow_backend.Billing.Checkout.{
  order_quote, order_for, is_same_checkout, is_same_purchase, autopay_renews, is_same_open,
  set_gateway_order, mark_not_started, new_buyer, is_created, add_order, start_order,
  checkout_order, checkout_quote, create_checkout, refresh, website_order, create_website_order,
}
use wppflow_backend.Billing.Edits.{
  IsQuiet, on_order-IsQuiet, quietly, row_rewritten, still_unpaid, with_order,
}
use wppflow_backend.Billing.Ledger.{is_paid, is_balanced, IsSound}
use wppflow_backend.Billing.Sound.{audit-IsSound}

order_for-is_balanced :
    (q : Quote) (buyer : Profile × Text) (tenant : Option ℕ) (source : Source)
    (guest : Option Guest) (id now : ℕ)
    → IsFair q
    → is_balanced (order_for q buyer tenant source guest id now) ≡ true
unfolding order_for order_quote
order_for-is_balanced q buyer tenant source guest id now fair =
    let sum = fair.adds_up in let parts = fair.parts in ground arith

pub set_order-IsSound :
    (t : Till) (id : ℕ) (f : Order → Order) → IsQuiet f → IsSound t → IsSound (set_order t id f)
unfolding set_order
set_order-IsSound t id f quiet h = quietly h (on_order id f) (on_order-IsQuiet id f quiet)

pub add_order-IsSound :
    (t : Till) (o : Order)
    → o.id ≡ t.next_id
    → is_paid o.status ≡ false
    → is_balanced o ≡ true
    → IsSound t
    → IsSound (add_order t o)
unfolding add_order
add_order-IsSound t o fresh unpaid balanced h = with_order h o fresh unpaid balanced

start_order-IsSound :
    (t : Till) (o : Order) (made : Option Text)
    → o.id ≡ t.next_id
    → is_paid o.status ≡ false
    → is_balanced o ≡ true
    → IsSound t
    → IsSound (start_order t o made).0
unfolding start_order add_order set_order
start_order-IsSound t o (some made) fresh unpaid balanced h = audit-IsSound _ o.tenant _ (
    set_order-IsSound (add_order t o) o.id (set_gateway_order made)
      (record { same_id = λ x. refl; same_paid = λ x. refl; same_balance = λ x b. b })
      (add_order-IsSound t o fresh unpaid balanced h))
start_order-IsSound t o none fresh unpaid balanced h =
    not_started (add_order-IsSound t o fresh unpaid balanced h)
  where
    row : find (is_order o.id) (t.orders ++ o ∷ []) ≡ some o
    row =
        find-append (is_order o.id) t.orders o (rw fresh (h.drawn t.next_id (omega arith)))
          ((==_iff o.id o.id).1 refl)

    not_started :
        IsSound (add_order t o) → IsSound (set_order (add_order t o) o.id mark_not_started)
    not_started l =
        still_unpaid l o.id o mark_not_started row unpaid (λ x. refl) (λ x b. b) (λ x. refl)

checkout_order-IsSound :
    (t : Till) (clock : Clock) (tenant : ℕ) (q : Quote) (buyer : Profile × Text)
    (made : Option Text)
    → IsFair q
    → IsSound t
    → IsSound (checkout_order t clock tenant q buyer made).0
unfolding checkout_order order_for
checkout_order-IsSound t clock tenant q buyer made fair h =
    elim (Option-cases (find_last (is_same_checkout tenant q clock.now) t.orders)) [
      | inl e ↦
          rw (e, checkout_order)
            (start_order-IsSound t _ made refl refl
              (order_for-is_balanced q buyer (some tenant) checkout none t.next_id clock.now fair)
              h)
      | inr (o, e) ↦ rw (e, checkout_order) h
    ]

-- What the checks of a checkout let through has a fair quote.
checkout_quote-IsFair :
    (shop : Shop) (clock : Clock) (t : Till) (tenant : ℕ) (email plan interval : Text)
    (confirm : Bool) (out : Quote × (Profile × Text))
    → checkout_quote shop clock t tenant email plan interval confirm ≡ ok out
    → IsFair out.0
unfolding checkout_quote
checkout_quote-IsFair shop clock t tenant email plan interval confirm out came =
    from_option (find (is_company tenant) t.companies) _ _ came (λ e r. cc)
      λ company e1 r1.
        from_option company.profile _ _ r1 (λ e r. cc)
          λ profile e2 r2.
            from_bind
              (quote_for shop company.books.tenant profile.state_code plan interval clock.today) _
              r2
              λ q e3 r3. from_bind (refuse (autopay_renews t tenant q) _ _) _ r3 λ u4 e4 r4.
                from_bind (refuse (q.requires_confirm && not confirm) _ _) _ r4 λ u5 e5 r5.
                  subst (λ k. IsFair k.0) (ok_injective _ out r5)
                    (quote_for-IsFair shop company.books.tenant profile.state_code plan interval
                      clock.today q e3)

pub create_checkout-IsSound :
    (shop : Shop) (clock : Clock) (t : Till) (tenant : ℕ) (email plan interval : Text)
    (confirm : Bool) (made : Option Text)
    → IsSound t
    → IsSound (create_checkout shop clock t tenant email plan interval confirm made).0
unfolding create_checkout
create_checkout-IsSound shop clock t tenant email plan interval confirm made h =
    elim (Result-cases (checkout_quote shop clock t tenant email plan interval confirm)) [
      | inl (status, words, e) ↦ rw (e, create_checkout) h
      | inr (out, e) ↦
          rw (e, create_checkout)
            (checkout_order-IsSound t clock tenant out.0 out.1 made
              (checkout_quote-IsFair shop clock t tenant email plan interval confirm out e) h)
    ]

refresh-is_balanced :
    (guest : Guest) (q : Quote) (buyer : Profile × Text) (o : Order)
    → IsFair q
    → (o.total_minor == q.total_minor) ≡ true
    → is_balanced o ≡ true
    → is_balanced (refresh guest (order_quote q buyer) o) ≡ true
unfolding refresh order_quote
refresh-is_balanced guest q buyer o fair same h = elim (Bool-cases (is_created o.status)) [
  | inr e ↦ rw e h
  | inl e ↦ rw e (let sum = fair.adds_up in let parts = fair.parts in ground arith)
]

is_same_open-total :
    (source : Source) (q : Quote) (now : ℕ) (o : Order)
    → is_same_open source q now o ≡ true
    → (o.total_minor == q.total_minor) ≡ true
unfolding is_same_open
is_same_open-total source q now o h = ground arith

refresh-same_id :
    (guest : Guest) (quote : OrderQuote) (o : Order) → (refresh guest quote o).id ≡ o.id
unfolding refresh
refresh-same_id guest quote o = elim (Bool-cases (is_created o.status)) [
  | inl e ↦ rw e refl
  | inr e ↦ rw e refl
]

refresh-same_paid :
    (guest : Guest) (quote : OrderQuote) (o : Order)
    → is_paid (refresh guest quote o).status ≡ is_paid o.status
unfolding refresh
refresh-same_paid guest quote o = elim (Bool-cases (is_created o.status)) [
  | inl e ↦ rw e refl
  | inr e ↦ rw e refl
]

website_order-IsSound :
    (t : Till) (clock : Clock) (q : Quote) (guest : Guest) (made : Option Text)
    → IsFair q
    → IsSound t
    → IsSound (website_order t clock q guest made).0
unfolding website_order order_for set_order
website_order-IsSound t clock q guest made fair h =
    elim (Option-cases (find_last (is_same_purchase guest.owner_email q clock.now) t.orders)) [
      | inl e ↦
          rw (e, website_order)
            (start_order-IsSound t _ made refl refl
              (order_for-is_balanced q (guest.billing, guest.owner_email) none website (some guest)
                t.next_id clock.now fair)
              h)
      | inr (o, e) ↦
          let row =
            find-find_last (is_same_purchase guest.owner_email q clock.now) (is_order o.id) t.orders
              o e ((==_iff o.id o.id).1 refl) (h.one_row o.id) in
          let passed =
            (find_last-some (is_same_purchase guest.owner_email q clock.now) (is_order o.id)
              t.orders o e).0 in
          rw (e, website_order)
            (row_rewritten h o.id o _ row (refresh-same_id _ _) (refresh-same_paid _ _) (
              refresh-is_balanced guest q _ o fair
                (is_same_open-total website q clock.now o (and-true _ _ passed).0)
                (all-find is_balanced (is_order o.id) t.orders o h.asked row)))
    ]

pub create_website_order-IsSound :
    (shop : Shop) (clock : Clock) (t : Till) (guest : Guest) (plan interval : Text)
    (made : Option Text)
    → IsSound t
    → IsSound (create_website_order shop clock t guest plan interval made).0
unfolding create_website_order
create_website_order-IsSound shop clock t guest plan interval made h =
    elim (Result-cases
      (quote_for shop new_buyer guest.billing.state_code plan interval clock.today)) [
        | inl (status, words, e) ↦ rw (e, create_website_order) h
        | inr (q, e) ↦
            rw (e, create_website_order)
              (elim (Bool-cases (has_text guest.owner_email t.users)) [
                | inl known ↦ rw known h
                | inr new ↦ rw new (
                    website_order-IsSound t clock q guest made
                      (quote_for-IsFair shop new_buyer guest.billing.state_code plan interval
                        clock.today q e)
                      h)
              ])
      ]
