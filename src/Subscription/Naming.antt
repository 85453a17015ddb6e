-- ===== src/Subscription/Naming.antt =====
-- What renaming a plan does to the companies that are on it.
use wppflow_backend.Common.{
  Bool, false, not, ◌&&◌, ◌||◌, none, some, List, [], ◌∷◌, map, Text, text_eq, text_eq_iff,
  to_lower, trim, any, find, is_empty, length, ltb, ◌≡◌, refl, sym, ◌∙◌, arith, inl, inr,
  from_option, Bool-cases,
}
use mathlib.Core.Path.{subst}
use wppflow_backend.Common.Result.{ok, from_bind, ok_injective, refuse}
use wppflow_backend.Common.Rows.{find-some}
use wppflow_backend.Subscription.Dates.{Day}
use wppflow_backend.Subscription.Plans.{
  Entry, Tenant, by_code, by_name, plan_of, find_plan, original, is_lapsed,
}
use wppflow_backend.Subscription.Catalogue.{
  PlanRow, Catalogue, PlanPatch, if_given, is_clash, clean_name, clean_plan, has_code, replace_plan,
  update_plan, entries,
}

find-map-none :
    (p : Entry → Bool) (q : PlanRow → Bool) (f : PlanRow → PlanRow) (rows : List PlanRow)
    → ((r : PlanRow) → q r ≡ false → p (f r).entry ≡ false)
    → any q rows ≡ false
    → find p (map (λ r. r.entry) (map f rows)) ≡ none
find-map-none p q f [] kept h = refl
find-map-none p q f (r ∷ rows) kept h =
    let first : p (f r).entry ≡ false = kept r (ground arith) in
    rw first (find-map-none p q f rows kept (ground arith))

clean_name-trim :
    (rows : List PlanRow) (id v name : Text) → clean_name rows id v ≡ ok name → name ≡ trim v
unfolding clean_name
clean_name-trim rows id v name came =
    from_bind (refuse (is_empty (trim v) || ltb 60 (length (trim v))) _ _) _ came λ u e r.
      from_bind (refuse (any (is_clash id (trim v)) rows) _ _) _ r
        λ u2 e2 r2. sym (ok_injective _ name r2)

-- The new row has the code of the old one, and the name that was asked for.
clean_plan-named :
    (rows : List PlanRow) (id v : Text) (patch : PlanPatch) (before next : PlanRow)
    → patch.name ≡ some v
    → clean_plan rows id patch before ≡ ok next
    → (next.entry.code ≡ before.entry.code) × (next.entry.name ≡ trim v)
unfolding clean_plan
clean_plan-named rows id v patch before next named came =
    from_bind (if_given patch.name before.entry.name _) _ came λ name e r.
      from_bind (if_given patch.numbers before.entry.numbers _) _ r λ a1 b1 r1.
        from_bind (if_given patch.seats before.seats _) _ r1 λ a2 b2 r2.
          from_bind (if_given patch.max_contacts before.max_contacts _) _ r2 λ a3 b3 r3.
            from_bind (if_given patch.max_broadcasts before.max_broadcasts _) _ r3 λ a4 b4 r4.
              from_bind (if_given patch.tax_mode before.tax_mode _) _ r4 λ a5 b5 r5.
                from_bind (if_given patch.trial_days before.trial_days _) _ r5 λ a6 b6 r6.
                  from_bind (if_given patch.is_active before.entry.is_active _) _ r6 λ a7 b7 r7.
                    from_bind (if_given patch.features before.features _) _ r7 λ a8 b8 r8.
                      from_bind (if_given patch.prices before.prices _) _ r8 λ a9 b9 r9.
                        let checked : clean_name rows id v ≡ ok name =
                          subst (λ k. if_given k before.entry.name (clean_name rows id) ≡ ok name)
                            named e in
                        subst (λ k. (k.entry.code ≡ before.entry.code) × (k.entry.name ≡ trim v))
                          (ok_injective _ next r9) (refl, clean_name-trim rows id v name checked)

module _ (c out : Catalogue) (code v : Text) (patch : PlanPatch) (t : Tenant)
    (changed : update_plan c code patch ≡ ok out) (named : patch.name ≡ some v)
    (no_code : any (λ r. by_code (to_lower (trim t.plan)) r.entry) c.rows ≡ false)
    (no_other : any
        (λ r. not (has_code (to_lower code) r) && by_name (to_lower (trim t.plan)) r.entry)
        c.rows
      ≡ false)
    (renamed : text_eq (to_lower (trim (trim v))) (to_lower (trim t.plan)) ≡ false) where
  -- No row has the name any more.
  lost : find_plan (entries out) (to_lower (trim t.plan)) ≡ none
  unfolding update_plan find_plan replace_plan
  lost =
      from_option (find (has_code (to_lower code)) c.rows) _ _ changed (λ e r. cc)
        λ before e1 r1.
          from_bind (clean_plan c.rows (to_lower code) patch before) _ r1 λ next e2 r2.
            let new = clean_plan-named c.rows (to_lower code) v patch before next named e2 in
            let its : before.entry.code ≡ to_lower code =
              (text_eq_iff _ _).0 (find-some _ c.rows before e1).1 in
            let id = to_lower (trim t.plan) in
            let codes : find (by_code id)
                  (map (λ r. r.entry) (map (replace_plan (to_lower code) next) c.rows))
                ≡ none =
              find-map-none (by_code id) (λ r. by_code id r.entry)
                (replace_plan (to_lower code) next) c.rows
                (λ r h. elim (Bool-cases (has_code (to_lower code) r)) [
                  | inr e ↦ rw e h
                  | inl e ↦ rw e (
                      subst (λ k. text_eq k id ≡ false)
                        ((text_eq_iff r.entry.code (to_lower code)).0 e ∙ sym (new.0 ∙ its)) h)
                ])
                no_code in
            let names : find (by_name id)
                  (map (λ r. r.entry) (map (replace_plan (to_lower code) next) c.rows))
                ≡ none =
              find-map-none (by_name id)
                (λ r. not (has_code (to_lower code) r) && by_name id r.entry)
                (replace_plan (to_lower code) next) c.rows
                (λ r h. elim (Bool-cases (has_code (to_lower code) r)) [
                  | inr e ↦ rw e (ground arith)
                  | inl e ↦ rw (e, new.1) renamed
                ])
                no_other in
            subst (λ k. find_plan (entries k) id ≡ none) (ok_injective _ out r2)
              (rw (codes, find_plan) names)

  -- A company is on a plan by its name. When that name is not a code and the plan is given another
  -- name, the company is on no plan any more: nothing is limited, and it never lapses.
  pub rename_frees :
      (now : Day)
      → ((plan_of (entries out) t.plan).restricted ≡ false)
        × (is_lapsed (entries out) t now ≡ false)
  unfolding original plan_of is_lapsed
  rename_frees now =
      let freed : plan_of (entries out) t.plan ≡ original t.plan = rw (lost, plan_of) refl in
      (rw freed refl, rw (freed, is_lapsed) refl)
