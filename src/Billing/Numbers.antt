-- ===== src/Billing/Numbers.antt =====
-- What usable settings are, and that the numbers of invoices are short and tell them apart.
use wppflow_backend.Common.{
  ℕ, suc, ◌+◌, ◌-◌, ◌%◌, ◌≤◌, ◌<◌, Bool, true, not, ◌||◌, Option, none, some, List, [], ◌∷◌, ◌++◌,
  Text, length, length-append, drop, take, show_nat, pad_zeros, read_digits, read_digits-show_nat,
  read_digits-pad_zeros, length-pad_zeros, length-show_nat, leb, ltb, ◌==◌, if◌then◌else◌, ◌≡◌,
  refl, ap, ◌∙◌, arith,
}
use wppflow_backend.Billing.Settings.{
  Settings, financial_year_series, is_sac, is_prefix, is_six_digits, clean_lines, clean_address,
  invoice_number,
}
use mathlib.Core.Path.{subst}
use wppflow_backend.Subscription.Dates.{Day}
use wppflow_backend.Gst.Number.{valid_gstin}
use wppflow_backend.Common.Result.{ok, ◌>>=◌, refuse, refuse-ok, from_bind, ok_injective}

drop-append : (s t : Text) → drop (length s) (s ++ t) ≡ t
drop-append [] t = refl
drop-append (c ∷ s) t = drop-append s t

drop_more : (s t : Text) (m : ℕ) → drop (length s + m) (s ++ t) ≡ drop m t
drop_more [] t m = ap (λ k. drop k t) (omega arith)
drop_more (c ∷ s) t m = ap (λ k. drop k (c ∷ (s ++ t))) length_suc ∙ drop_more s t m
  where
    length_suc : suc (length s) + m ≡ suc (length s + m)
    length_suc = omega arith

-- The place of an invoice in its series can be read from its number, whatever the prefix and the
-- series: two invoices of a series never have the same number.
pub invoice_number_read :
    (prefix series : Text) (seq : ℕ)
    → read_digits 0 (drop (length prefix + (length series + 2)) (invoice_number prefix series seq))
      ≡ seq
unfolding invoice_number
invoice_number_read prefix series seq =
    rw
      (
        drop_more prefix (47 ∷ (series ++ (47 ∷ pad_zeros 5 (show_nat seq)))) (length series + 2),
        after_slash,
      )
      (read_digits-pad_zeros 5 (show_nat seq) ∙ read_digits-show_nat seq)
  where
    rest : Text
    rest = pad_zeros 5 (show_nat seq)

    shift : length series + 2 ≡ suc (length series + 1)
    shift = omega arith

    after_slash : drop (length series + 2) (47 ∷ (series ++ (47 ∷ rest))) ≡ rest
    after_slash =
        ap (λ k. drop k (47 ∷ (series ++ (47 ∷ rest)))) shift ∙ drop_more series (47 ∷ rest) 1

-- What every later use of the settings relies on.
pub record IsUsable (s : Settings) : Type 0 where
  pub sac_fits : is_sac s.sac_code ≡ true
  pub rate_fits : s.gst_rate ≤ 28
  pub prefix_fits : is_prefix s.invoice_prefix ≡ true
  pub gstin_valid : valid_gstin s.seller.gstin ≡ true
  pub code_fits : s.seller.state_code ≡ take 2 s.seller.gstin
  pub pin_fits : is_six_digits s.seller.postal_code ≡ true
  pub addressed : (1 ≤ length s.seller.address_lines) × (length s.seller.address_lines ≤ 3)

pub checked :
    (test : Text → Bool) (s out : Text) (c : ℕ) (m : Text)
    → (refuse (not (test s)) c m >>= λ u. ok s) ≡ ok out
    → test out ≡ true
checked test s out c m came =
    from_bind (refuse (not (test s)) c m) _ came
      λ u passed rest. ground (arith, ok_injective s out rest, refuse-ok _ c m u passed)

pub clean_address_bounds :
    (given : Option (List Text)) (out : List Text)
    → clean_address given ≡ ok out
    → (1 ≤ length out) × (length out ≤ 3)
unfolding clean_address
clean_address_bounds none out came = cc
clean_address_bounds (some ls) out came = from_bind (clean_lines ls) _ came λ lines e rest.
    from_bind (refuse (length lines == 0 || ltb 3 (length lines)) _ _) _ rest λ u passed last.
      let same : lines ≡ out = ok_injective lines out last in
      subst (λ k. (1 ≤ length k) × (length k ≤ 3)) same (ground (arith, refuse-ok _ _ _ u passed))

is_prefix-short : (p : Text) → is_prefix p ≡ true → length p ≤ 3
unfolding is_prefix
is_prefix-short p fits = ground arith

two_digits : (n : ℕ) → length (pad_zeros 2 (show_nat (n % 100))) ≡ 2
two_digits n =
    omega
      (arith, length-pad_zeros 2 (show_nat (n % 100)), length-show_nat 1 (n % 100) (omega arith))

length-financial_year_series : (d : Day) → length (financial_year_series d) ≡ 5
unfolding financial_year_series
length-financial_year_series d = omega (
  arith,
  length-append (pad_zeros 2 (show_nat (start % 100)))
      (45 ∷ pad_zeros 2 (show_nat ((start + 1) % 100))),
  two_digits start,
  two_digits (start + 1),
)
  where
    start : ℕ
    start = if leb 4 d.month then d.year else d.year - 1

-- With settings that can be used, the number of any invoice of a year with fewer than a million of
-- them has at most the 16 characters that the rules allow.
pub length-invoice_number :
    (s : Settings) (d : Day) (seq : ℕ)
    → IsUsable s
    → seq < 1000000
    → length (invoice_number s.invoice_prefix (financial_year_series d) seq) ≤ 16
unfolding invoice_number
length-invoice_number s d seq usable few = omega (
  arith,
  length-append s.invoice_prefix (47 ∷ (series ++ (47 ∷ pad_zeros 5 (show_nat seq)))),
  length-append series (47 ∷ pad_zeros 5 (show_nat seq)),
  length-financial_year_series d,
  length-pad_zeros 5 (show_nat seq),
  length-show_nat 5 seq few,
  is_prefix-short s.invoice_prefix usable.prefix_fits,
)
  where
    series : Text
    series = financial_year_series d
