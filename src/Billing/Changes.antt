-- ===== src/Billing/Changes.antt =====
-- What `cleanSettings` of billingSettings.js leaves of each field, whatever the settings were before:
-- what the code checks of it, or the old value of a field that the change does not mention.
use mathlib.Core.Path.{subst}
use wppflow_backend.Common.{
  ℕ, ◌≤◌, true, Option, none, some, List, Text, length, take, ltb, ◌≡◌, refl, sym, ◌⊎◌, inl, inr,
  arith,
}
use wppflow_backend.Common.Result.{Result, ok, refuse, refuse-ok, from_bind, ok_injective}
use wppflow_backend.Gst.Number.{valid_gstin}
use wppflow_backend.Subscription.Payment.{Given, missing, wrong, number}
use wppflow_backend.Billing.Settings.{
  Seller, Settings, SellerPatch, Patch, is_sac, is_prefix, is_six_digits, or_keep, clean_rate,
  clean_sac, clean_prefix, clean_seller_gstin, clean_code, clean_seller, clean_settings,
}
use wppflow_backend.Billing.Numbers.{IsUsable, checked, clean_address_bounds}

-- A new value that fits, or no mention of the field and the old value.
abbrev pub Renewed : {A B : Type 0} → Option A → (B → Type 0) → B → B → Type 0
Renewed v P old out = P out ⊎ ((v ≡ none) × (out ≡ old))

abbrev pub IsAddress : List Text → Type 0
IsAddress ls = (1 ≤ length ls) × (length ls ≤ 3)

-- The seller after a change of some of its fields.
pub record IsCheckedSeller (s : SellerPatch) (old out : Seller) : Type 0 where
  pub gstin : Renewed s.gstin (λ g. valid_gstin g ≡ true) old.gstin out.gstin
  -- the state is the one that the GSTIN starts with
  pub code : out.state_code ≡ take 2 out.gstin
  pub pin : Renewed s.postal_code (λ c. is_six_digits c ≡ true) old.postal_code out.postal_code
  pub lines : Renewed s.address_lines IsAddress old.address_lines out.address_lines

-- The settings after a change.
pub record IsChecked (patch : Patch) (base out : Settings) : Type 0 where
  pub sac : Renewed patch.sac_code (λ c. is_sac c ≡ true) base.sac_code out.sac_code
  pub rate : (out.gst_rate ≤ 28) ⊎ ((patch.gst_rate ≡ missing) × (out.gst_rate ≡ base.gst_rate))
  pub prefix :
      Renewed patch.invoice_prefix (λ c. is_prefix c ≡ true) base.invoice_prefix out.invoice_prefix
  pub seller :
      ((s : SellerPatch) × (patch.seller ≡ some s) × IsCheckedSeller s base.seller out.seller)
      ⊎ ((patch.seller ≡ none) × (out.seller ≡ base.seller))

renewed :
    {A B : Type 0} {P : B → Type 0} (v : Option A) (old : B) (check : A → Result B) (out : B)
    → ((a : A) (b : B) → check a ≡ ok b → P b)
    → or_keep v old check ≡ ok out
    → Renewed v P old out
renewed none old check out new came =
    let same : old ≡ out = ok_injective old out came in inr (refl, cc)
renewed (some a) old check out new came = inl (new a out came)

rate_renewed :
    (given : Given) (old out : ℕ)
    → clean_rate given old ≡ ok out
    → (out ≤ 28) ⊎ ((given ≡ missing) × (out ≡ old))
unfolding clean_rate
rate_renewed missing old out came =
    let same : old ≡ out = ok_injective old out came in inr (refl, cc)
rate_renewed wrong old out came = cc
rate_renewed (number n) old out came =
    from_bind (refuse (ltb 28 n) _ _) _ came
      λ u passed rest. inl (ground (arith, ok_injective n out rest, refuse-ok _ _ _ u passed))

clean_seller-IsCheckedSeller :
    (s : SellerPatch) (old out : Seller) → clean_seller s old ≡ ok out → IsCheckedSeller s old out
unfolding clean_seller clean_seller_gstin clean_code
clean_seller-IsCheckedSeller s old out came =
    from_bind (or_keep s.legal_name old.legal_name _) _ came λ legal e1 r1.
      from_bind (or_keep s.trade_name old.trade_name _) _ r1 λ trade e2 r2.
        from_bind (or_keep s.gstin old.gstin _) _ r2 λ gstin e3 r3.
          from_bind (or_keep s.address_lines old.address_lines _) _ r3 λ lines e4 r4.
            from_bind (or_keep s.city old.city _) _ r4 λ city e5 r5.
              from_bind (or_keep s.postal_code old.postal_code _) _ r5 λ code e6 r6.
                from_bind (or_keep s.email old.email _) _ r6 λ email e7 r7.
                  subst (IsCheckedSeller s old) (ok_injective _ out r7) (record {
                    gstin =
                        renewed {P = λ g. valid_gstin g ≡ true} s.gstin old.gstin _ gstin
                          (λ a b. checked valid_gstin _ b _ _) e3;
                    code = refl;
                    pin =
                        renewed {P = λ c. is_six_digits c ≡ true} s.postal_code old.postal_code _
                          code (λ a b. checked is_six_digits _ b _ _) e6;
                    lines =
                        renewed {P = IsAddress} s.address_lines old.address_lines _ lines
                          clean_address_bounds e4;
                  })

seller_renewed :
    (v : Option SellerPatch) (old out : Seller)
    → or_keep v old (λ s. clean_seller s old) ≡ ok out
    → ((s : SellerPatch) × (v ≡ some s) × IsCheckedSeller s old out) ⊎ ((v ≡ none) × (out ≡ old))
seller_renewed none old out came =
    let same : old ≡ out = ok_injective old out came in inr (refl, cc)
seller_renewed (some s) old out came = inl (s, refl, clean_seller-IsCheckedSeller s old out came)

pub clean_settings-IsChecked :
    (patch : Patch) (base out : Settings)
    → clean_settings patch base ≡ ok out
    → IsChecked patch base out
unfolding clean_settings clean_sac clean_prefix
clean_settings-IsChecked patch base out came =
    from_bind (or_keep patch.sac_code base.sac_code _) _ came λ sac e1 r1.
      from_bind (clean_rate patch.gst_rate base.gst_rate) _ r1 λ rate e2 r2.
        from_bind (or_keep patch.invoice_prefix base.invoice_prefix _) _ r2 λ prefix e3 r3.
          from_bind (or_keep patch.prorate_upgrades base.prorate_upgrades _) _ r3 λ prorate e4 r4.
            from_bind (or_keep patch.seller base.seller _) _ r4 λ seller e5 r5.
              subst (IsChecked patch base) (ok_injective _ out r5) (record {
                sac =
                    renewed {P = λ c. is_sac c ≡ true} patch.sac_code base.sac_code _ sac
                      (λ a b. checked is_sac _ b _ _) e1;
                rate = rate_renewed patch.gst_rate base.gst_rate rate e2;
                prefix =
                    renewed {P = λ c. is_prefix c ≡ true} patch.invoice_prefix base.invoice_prefix _
                      prefix (λ a b. checked is_prefix _ b _ _) e3;
                seller = seller_renewed patch.seller base.seller seller e5;
              })

stays :
    {A B : Type 0} {v : Option A} (P : B → Type 0) (old out : B)
    → P old
    → Renewed v P old out
    → P out
stays P old out was (inl fits) = fits
stays P old out was (inr (_, e)) = subst P (sym e) was

-- What is relied on of the seller.
abbrev IsSeller : Seller → Type 0
IsSeller s =
    (valid_gstin s.gstin ≡ true)
    × (s.state_code ≡ take 2 s.gstin)
    × (is_six_digits s.postal_code ≡ true)
    × IsAddress s.address_lines

seller_stays :
    (patch : Patch) (base out : Settings)
    → IsChecked patch base out
    → IsSeller base.seller
    → IsSeller out.seller
seller_stays patch base out c was = elim c.seller [
  | inl (s, _, k) ↦ (
    stays (λ g. valid_gstin g ≡ true) base.seller.gstin out.seller.gstin was.0 k.gstin,
    k.code,
    stays (λ g. is_six_digits g ≡ true) base.seller.postal_code out.seller.postal_code was.2 k.pin,
    stays IsAddress base.seller.address_lines out.seller.address_lines was.3 k.lines,
  )
  | inr (_, e) ↦ subst IsSeller (sym e) was
]

-- Settings that can be used can be used after any change that is accepted.
pub clean_settings-IsUsable :
    (patch : Patch) (base out : Settings)
    → IsUsable base
    → clean_settings patch base ≡ ok out
    → IsUsable out
clean_settings-IsUsable patch base out was came =
    let c = clean_settings-IsChecked patch base out came in
    let sold =
      seller_stays patch base out c (was.gstin_valid, was.code_fits, was.pin_fits, was.addressed) in
    record {
      sac_fits = stays (λ g. is_sac g ≡ true) base.sac_code out.sac_code was.sac_fits c.sac;
      rate_fits = elim c.rate [
        | inl fits ↦ fits
        | inr (_, e) ↦ subst (λ k. k ≤ 28) (sym e) was.rate_fits
      ];
      prefix_fits =
          stays (λ g. is_prefix g ≡ true) base.invoice_prefix out.invoice_prefix was.prefix_fits
            c.prefix;
      gstin_valid = sold.0;
      code_fits = sold.1;
      pin_fits = sold.2;
      addressed = sold.3;
    }
