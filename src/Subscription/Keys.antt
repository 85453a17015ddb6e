-- ===== src/Subscription/Keys.antt =====
-- Plans that are found again by their codes, as src/services/plans.js looks them up.
use wppflow_backend.Common.{
  ◌≤◌, ◌&&◌, Bool, true, false, not, none, some, List, [], ◌∷◌, Text, text, text_eq, text_eq_iff,
  text_eq_refl, is_empty, leb, leb→le, count_if, all, find, to_lower, trim, ◌≡◌, refl, sym, ◌∙◌,
  arith, inl, inr, from_if, from_option, and-true, Bool-cases, Option-cases,
}
use mathlib.Core.Path.{subst, ap}
use mathlib.Core.Option.{some-injective}
use wppflow_backend.Common.Result.{ok, err, ok_injective}
use wppflow_backend.Common.Rows.{find-some}
use wppflow_backend.Subscription.Plans.{
  Entry, Plan, by_code, by_name, find_plan, plan_of, plan_shape, original, is_for_sale, choose_plan,
}

-- Every code is a key of the table, spelled as it is looked up.
abbrev pub is_key : List Entry → Entry → Bool
is_key plans e =
    leb (count_if (by_code e.code) plans) 1
    && text_eq (to_lower (trim e.code)) e.code
    && not (is_empty e.code)

unfoldable pub is_keyed : List Entry → Bool
is_keyed plans = all (is_key plans) plans

find-all :
    (p q : Entry → Bool) (plans : List Entry) (e : Entry)
    → find q plans ≡ some e
    → all p plans ≡ true
    → p e ≡ true
find-all p q [] e found h = cc
find-all p q (x ∷ xs) e found h =
    from_if (q x) (some x) (find q xs) found
      (λ here same. ap p (sym (some-injective _ _ same)) ∙ ground arith)
      λ other rest. find-all p q xs e rest (ground arith)

-- A row that one search finds is what a search by its key finds.
find-find :
    (p q : Entry → Bool) (plans : List Entry) (e : Entry)
    → find q plans ≡ some e
    → p e ≡ true
    → count_if p plans ≤ 1
    → find p plans ≡ some e
find-find p q [] e found it one = cc
find-find p q (x ∷ xs) e found it one =
    from_if (q x) (some x) (find q xs) found
      (λ here same. let first : p x ≡ true = ap p (some-injective _ _ same) ∙ it in rw first same)
      λ other rest. elim (Bool-cases (p x)) [
        | inl two ↦
            absurd
              (ground (arith, (find-some p xs e (find-find p q xs e rest it (ground arith))).0))
        | inr first ↦ rw first (find-find p q xs e rest it (ground arith))
      ]

find_plan-find :
    (plans : List Entry) (v : Text) (e : Entry)
    → find_plan plans v ≡ some e
    → (q : Entry → Bool) × (find q plans ≡ some e)
unfolding find_plan
find_plan-find plans v e found =
    from_option (find (by_code v) plans) (find (by_name v) plans) (λ x. some x) found
      (λ no_code named. (by_name v, named)) λ x coded same. (by_code v, coded ∙ same)

find_plan-code :
    (plans : List Entry) (e : Entry)
    → find (by_code e.code) plans ≡ some e
    → find_plan plans e.code ≡ some e
unfolding find_plan
find_plan-code plans e found = rw (found, find_plan) refl

plan_of-found :
    (plans : List Entry) (v : Text) (e : Entry)
    → find_plan plans (to_lower (trim v)) ≡ some e
    → plan_of plans v ≡ plan_shape e
unfolding plan_of
plan_of-found plans v e found = rw (found, plan_of) refl

find_plan-keyed :
    (plans : List Entry) (v : Text) (e : Entry)
    → is_keyed plans ≡ true
    → find_plan plans v ≡ some e
    → (plan_of plans e.code ≡ plan_shape e) × (is_empty e.code ≡ false)
unfolding is_keyed
find_plan-keyed plans v e keyed found =
    let (q, here) = find_plan-find plans v e found in
    let key : is_key plans e ≡ true = find-all (is_key plans) q plans e here keyed in
    let (spelled, filled) =
      and-true (leb (count_if (by_code e.code) plans) 1 && text_eq (to_lower (trim e.code)) e.code)
        (not (is_empty e.code)) key in
    let (one, plain) =
      and-true (leb (count_if (by_code e.code) plans) 1) (text_eq (to_lower (trim e.code)) e.code)
        spelled in
    let coded : find_plan plans e.code ≡ some e =
      find_plan-code plans e
        (find-find (by_code e.code) q plans e here (text_eq_refl e.code) (leb→le _ 1 one)) in
    let same : to_lower (trim e.code) ≡ e.code =
      (text_eq_iff (to_lower (trim e.code)) e.code).0 plain in
    (
      plan_of-found plans e.code e (subst (λ k. find_plan plans k ≡ some e) (sym same) coded),
      ground arith,
    )

plan_of-gone :
    (plans : List Entry) (v : Text)
    → find_plan plans (to_lower (trim v)) ≡ none
    → plan_of plans v ≡ original v
unfolding plan_of
plan_of-gone plans v gone = rw (gone, plan_of) refl

original-never : (plans : List Entry) (v : Text) → is_for_sale plans (original v) ≡ false
unfolding is_for_sale original
original-never plans v = refl

-- A plan for sale is a row of the table.
for_sale-row :
    (plans : List Entry) (v : Text)
    → is_for_sale plans (plan_of plans v) ≡ true
    → (e : Entry) × (find_plan plans (to_lower (trim v)) ≡ some e)
for_sale-row plans v sold = elim (Option-cases (find_plan plans (to_lower (trim v)))) [
  | inl gone ↦
      let never : is_for_sale plans (plan_of plans v) ≡ false =
        ap (is_for_sale plans) (plan_of-gone plans v gone) ∙ original-never plans v in
      absurd (ground arith)
  | inr row ↦ row
]

choose_plan-for_sale :
    (plans : List Entry) (wanted : Text) (target : Plan)
    → choose_plan plans wanted ≡ ok target
    → (plan_of plans wanted ≡ target) × (is_for_sale plans (plan_of plans wanted) ≡ true)
unfolding choose_plan
choose_plan-for_sale plans wanted target came =
    from_if (is_for_sale plans (plan_of plans wanted)) (ok (plan_of plans wanted))
      (err 400 (text "Choose a plan")) came (λ sold same. (ok_injective _ target same, sold))
      λ unsold no. absurd cc

shape_id : (e : Entry) → (plan_shape e).id ≡ some e.code
unfolding plan_shape
shape_id e = refl

-- A plan that can be chosen is found again by its code.
pub choose_plan-keyed :
    (plans : List Entry) (wanted : Text) (target : Plan)
    → is_keyed plans ≡ true
    → choose_plan plans wanted ≡ ok target
    → (code : Text) × (target.id ≡ some code)
      × (plan_of plans code ≡ target)
      × (is_empty code ≡ false)
choose_plan-keyed plans wanted target keyed came =
    let (chosen, sold) = choose_plan-for_sale plans wanted target came in
    let (e, found) = for_sale-row plans wanted sold in
    let shape : plan_shape e ≡ target = sym (plan_of-found plans wanted e found) ∙ chosen in
    let (again, filled) = find_plan-keyed plans (to_lower (trim wanted)) e keyed found in
    (e.code, subst (λ k. k.id ≡ some e.code) shape (shape_id e), again ∙ shape, filled)
