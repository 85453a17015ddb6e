-- ===== src/Examples/Renames.antt =====
-- A plan that is renamed, at small inputs.
use wppflow_backend.Common.{
  true, false, none, some, [], ◌∷◌, text, text_eq, trim, lower, to_lower, any, not, ◌&&◌, is_space,
  ◌≡◌, refl,
}
use wppflow_backend.Common.Result.{ok}
use wppflow_backend.Gst.Tax.{exclusive}
use wppflow_backend.Subscription.Plans.{by_code, by_name, Tenant, plan_of, is_lapsed}
use wppflow_backend.Subscription.Dates.{Day}
use wppflow_backend.Subscription.Catalogue.{
  PlanRow, Catalogue, PlanPatch, is_clash, clean_name, clean_plan, has_code, replace_plan,
  update_plan, entries,
}
use wppflow_backend.Subscription.Naming.{rename_frees}

-- "Growth" was renamed "Pro" before, and the company paid for it as "Pro".
abbrev pro : PlanRow
pro = record {
  entry = record { code = text "growth"; name = text "Pro"; is_active = true; numbers = some 10 };
  seats = none;
  max_contacts = some 5000;
  max_broadcasts = none;
  tax_mode = exclusive;
  trial_days = 0;
  features = text "broadcasts" ∷ [];
  prices = [];
}

abbrev company : Tenant
company = record {
  plan = text "Pro";
  active = true;
  sessions_limit = 10;
  billing_cycle = some (text "monthly");
  period_start = some (record { year = 2024; month = 1; date = 1 });
  period_end = some (record { year = 2024; month = 2; date = 1 });
  scheduled_plan = none;
  currency = text "INR";
  reminded_soon_for = none;
  reminded_overdue_for = none;
  reminded_expired_for = none;
}

abbrev patch : PlanPatch
patch = record {
  name = some (text "Scale");
  numbers = none;
  seats = none;
  max_contacts = none;
  max_broadcasts = none;
  tax_mode = none;
  trial_days = none;
  is_active = none;
  features = none;
  prices = none;
}

abbrev before : Catalogue
before = record { rows = pro ∷ []; changes = [] }

abbrev scale : PlanRow
scale = record pro { entry = record pro.entry { name = text "Scale" } }

abbrev after : Catalogue
after = record { rows = scale ∷ []; changes = (pro, scale) ∷ [] }

rename_test : update_plan before (text "growth") patch ≡ ok after
unfolding update_plan clean_plan clean_name is_clash replace_plan text_eq trim lower is_space
rename_test = refl

abbrev today : Day
today = record { year = 2026; month = 1; date = 1 }

no_code_test : any (λ r. by_code (to_lower (trim company.plan)) r.entry) before.rows ≡ false
unfolding text_eq trim lower is_space
no_code_test = refl

no_other_test :
    any
      (λ r.
        not (has_code (to_lower (text "growth")) r)
        && by_name (to_lower (trim company.plan)) r.entry)
      before.rows
    ≡ false
unfolding text_eq trim lower is_space
no_other_test = refl

renamed_test :
    text_eq (to_lower (trim (trim (text "Scale")))) (to_lower (trim company.plan)) ≡ false
unfolding text_eq trim lower is_space
renamed_test = refl

-- Two years after the period ended.
rename_frees_example :
    ((plan_of (entries after) company.plan).restricted ≡ false)
    × (is_lapsed (entries after) company today ≡ false)
rename_frees_example =
    rename_frees before after (text "growth") (text "Scale") patch company rename_test refl
      no_code_test no_other_test renamed_test today
