-- ===== src/Billing/Prices.antt =====
-- What a quote of billingService.js has to do with the tables: the price is the plan's, and the credit
-- is what is left of the period that was paid.
use mathlib.Core.Path.{subst}
use native.Mathlib.Nat.{min-le_left, mul-le-mul_left, mul-le-mul_right, div-mul-le_self}
use wppflow_backend.Common.{
  ℕ, ◌-◌, ◌*◌, ◌/◌, ◌≤◌, min, true, false, ◌||◌, Option, none, some, List, Text, text, text_eq_iff,
  to_lower, find, ltb, ◌==◌, ◌≡◌, ◌⊎◌, refl, arith, inl, inr, Bool-cases, Option-cases,
}
use wppflow_backend.Common.Rows.{Some, find-Some}
use wppflow_backend.Common.Result.{ok, refuse, refuse-ok, from_bind, ok_injective}
use wppflow_backend.Gst.Tax.{tax_on, compute_tax, is_intra_state}
use wppflow_backend.Subscription.Dates.{Day, days_between}
use wppflow_backend.Subscription.Plans.{Plan, Tenant, choose_plan, is_code}
use wppflow_backend.Billing.Quote.{
  Price, Offer, Shop, Quote, Kind, fresh, renewal, change, by_offer, is_price, price_of,
  interval_of, live_end, kind_of, old_price, unused_worth, credit_until, credit_of, plan_code,
  price_or_zero, natural, tax_mode_of, quote_for,
}
use wppflow_backend.Billing.Fair.{IsFair, credit_of-le, quote_for-IsFair}

-- The table has `amount` as the price of a plan for an interval, in rupees.
abbrev pub Offered : List Offer → Text → Text → ℕ → Type 0
Offered offers code interval amount =
    Some
      (λ o.
        (o.code ≡ to_lower code)
        × Some
            (λ p. (p.interval ≡ interval) × (p.currency ≡ text "INR") × (p.amount_minor ≡ amount))
            o.prices)
      offers

-- The credit of a change of plan, for each day of the paid period at most what the day of the old
-- plan costs, and only for the days that are left.
pub record IsUnused (shop : Shop) (t : Tenant) (now : Day) (kind : Kind) (credit : ℕ) : Type 0 where
  pub changes : kind ≡ change
  pub agreed : shop.settings.prorate_upgrades ≡ true
  pub start : Day
  pub end : Day
  pub started : t.period_start ≡ some start
  pub live : live_end shop.plans t now ≡ some end
  pub worth :
      credit * natural (days_between start end) ≤ old_price shop t * natural (days_between now end)

-- What a quote says of the shop, the company and what was asked for.
pub record IsPriced (shop : Shop) (t : Tenant) (plan_value interval_value : Text) (now : Day)
    (q : Quote) : Type 0 where
  pub plan : Plan
  pub chosen : choose_plan shop.plans plan_value ≡ ok plan
  pub named : (q.plan_id ≡ plan_code plan) × (q.plan_name ≡ plan.name)
  pub offered : Offered shop.offers q.plan_id interval_value q.base_minor
  pub bounded : q.credit_minor ≤ q.base_minor
  pub credited : (q.credit_minor ≡ 0) ⊎ IsUnused shop t now q.kind q.credit_minor
  pub fair : IsFair q

price_of-found :
    (offers : List Offer) (code interval : Text) (o : Offer) (p : Price)
    → find (by_offer (to_lower code)) offers ≡ some o
    → find (is_price interval (text "INR")) o.prices ≡ some p
    → price_of offers code interval (text "INR") ≡ some p.amount_minor
unfolding price_of
price_of-found offers code interval o p found priced = rw (found, price_of) (rw priced refl)

price_of-Offered :
    (offers : List Offer) (code interval : Text) (n : ℕ)
    → price_of offers code interval (text "INR") ≡ some n
    → Offered offers code interval n
unfolding price_of
price_of-Offered offers code interval n h =
    elim (Option-cases (find (by_offer (to_lower code)) offers)) [
      | inl nothing ↦ cc (rw (nothing, price_of) at h)
      | inr (o, found) ↦ find-Some _ _ offers o found λ own. (
        (text_eq_iff o.code (to_lower code)).0 own,
        elim (Option-cases (find (is_price interval (text "INR")) o.prices)) [
          | inl nothing ↦ cc (rw nothing at (rw (found, price_of) at h))
          | inr (p, priced) ↦ find-Some _ _ o.prices p priced λ hit. (
            (text_eq_iff p.interval interval).0 (ground arith),
            (text_eq_iff p.currency (text "INR")).0 (ground arith),
            cc (h, price_of-found offers code interval o p found priced),
          )
        ],
      )
    ]

unused_worth-share :
    (old total unused base : ℕ) → unused_worth old total unused base * total ≤ old * unused
unfolding unused_worth
unused_worth-share old total unused base =
    elim (Bool-cases (total == 0 || (unused == 0 || old == 0))) [
      | inl none_left ↦ rw none_left (omega arith)
      | inr some_left ↦ rw some_left (
          omega (
            arith,
            mul-le-mul_right total (min-le_left (old * min unused total / total) base),
            div-mul-le_self (old * min unused total) total,
            mul-le-mul_left old (min-le_left unused total),
          ))
    ]

price_or_zero-some : (o : Option ℕ) → (price_or_zero o == 0) ≡ false → o ≡ some (price_or_zero o)
price_or_zero-some none h = cc
price_or_zero-some (some n) h = refl

module _ (shop : Shop) (t : Tenant) (now : Day) (base : ℕ) where
  -- The change is credited from the start of the period, if that is known.
  credit_until-IsUnused :
      (end : Day)
      → shop.settings.prorate_upgrades ≡ true
      → live_end shop.plans t now ≡ some end
      → (credit_until shop t now base end ≡ 0)
        ⊎ IsUnused shop t now change (credit_until shop t now base end)
  unfolding credit_until unused_worth old_price
  credit_until-IsUnused end on live = elim (Option-cases t.period_start) [
    | inl unknown ↦ inl (rw (unknown, credit_until) refl)
    | inr (start, e) ↦ inr (record {
      changes = refl;
      agreed = on;
      start = start;
      end = end;
      started = e;
      live = live;
      worth =
          rw (e, credit_until)
            (unused_worth-share (old_price shop t) (natural (days_between start end))
              (natural (days_between now end)) base);
    })
  ]

  credit_of-IsUnused :
      (kind : Kind)
      → (credit_of shop t kind now base ≡ 0)
        ⊎ IsUnused shop t now kind (credit_of shop t kind now base)
  unfolding credit_of credit_until old_price
  credit_of-IsUnused fresh = inl refl
  credit_of-IsUnused renewal = inl refl
  credit_of-IsUnused change = elim (Bool-cases shop.settings.prorate_upgrades) [
    | inr off ↦ inl (rw off refl)
    | inl on ↦ elim (Option-cases (live_end shop.plans t now)) [
      | inl e ↦ inl (rw on (rw e refl))
      | inr (end, e) ↦
          let same : credit_until shop t now base end ≡ credit_of shop t change now base =
            rw on (rw e refl) in
          subst (λ k. (k ≡ 0) ⊎ IsUnused shop t now change k) same (credit_until-IsUnused end on e)
    ]
  ]

-- A quote that is given is for the plan that was asked for, at the price that the table has for it, the
-- interval and rupees, less a credit of at most that price; the credit is nothing, or the kind is a change,
-- the settings credit the unused days, and the credit for each day of the paid period is at most what
-- the old plan's price is for the days that are left; and the sums add up.
pub quote_for-IsPriced :
    (shop : Shop) (t : Tenant) (state_code plan_value interval_value : Text) (now : Day) (q : Quote)
    → quote_for shop t state_code plan_value interval_value now ≡ ok q
    → IsPriced shop t plan_value interval_value now q
unfolding quote_for compute_tax
quote_for-IsPriced shop t state_code plan_value interval_value now q came =
    from_bind (interval_of interval_value) _ came λ cycle e1 r1.
      from_bind (choose_plan shop.plans plan_value) _ r1 λ plan e2 r2.
        let price = price_of shop.offers (plan_code plan) interval_value (text "INR") in
        let base = price_or_zero price in
        from_bind (refuse (is_code (text "free") plan || base == 0) _ _) _ r2 λ u3 e3 r3.
          from_bind (kind_of shop.plans t plan cycle now) _ r3 λ kind e4 r4.
            let credit = credit_of shop t kind now base in
            let tax =
              tax_on (base - credit) (tax_mode_of shop.offers (plan_code plan))
                (is_intra_state state_code shop.settings.seller.state_code)
                shop.settings.gst_rate in
            from_bind (refuse (ltb tax.total 100) _ _) _ r4 λ u5 e5 r5.
              let same = ok_injective _ q r5 in
              let costs : (base == 0) ≡ false = ground (arith, refuse-ok _ _ _ u3 e3) in
              let fair = quote_for-IsFair shop t state_code plan_value interval_value now q came in
              subst (λ k. IsFair k → IsPriced shop t plan_value interval_value now k) same
                (λ f. record {
                  plan = plan;
                  chosen = e2;
                  named = (refl, refl);
                  offered =
                      price_of-Offered shop.offers (plan_code plan) interval_value base
                        (price_or_zero-some price costs);
                  bounded = credit_of-le shop t kind now base;
                  credited = credit_of-IsUnused shop t now base kind;
                  fair = f;
                })
                fair
