-- ===== src/Health.antt =====
-- `judge` of src/services/numberHealth.js: how a linked number is doing. A problem stands for its
-- sentences, with the numbers in them; times are milliseconds.
use wppflow_backend.Common.{
  ℕ, ◌-◌, ◌*◌, Bool, true, false, not, ◌&&◌, ◌||◌, Option, none, some, List, [], ◌∷◌, ◌++◌, Text,
  text, text_eq, is_empty, any, leb, ltb, if◌then◌else◌, ◌↔◌, ◌≡◌, refl, arith, Bool-cases, inl,
  inr,
}

-- A number, with its sends of the last hour and what waits to leave.
pub record Line : Type 0 where
  pub phone : Text
  pub status : Text
  pub down_since : Option ℕ
  pub reconnect_attempts : ℕ
  pub heartbeat_failures : ℕ
  pub failed_last_hour : ℕ
  pub total_last_hour : ℕ
  pub queued : ℕ
  pub oldest_seconds : Option ℕ

pub data Problem : Type 0 where
  -- trying, since when, attempts, alert
  down : Bool → Option ℕ → ℕ → Bool → Problem
  unresponsive : ℕ → Problem
  failing : ℕ → ℕ → Problem
  stuck : ℕ → ℕ → Problem

pub data Level : Type 0 where
  unpaired all_well warned broken : Level

-- `sec(r.downSince)`, in milliseconds: never below zero.
unfoldable pub down_for : Line → ℕ → Option ℕ
down_for r now = elim r.down_since [ none ↦ none | some t ↦ some (now - t) ]

abbrev pub at_least : ℕ → Option ℕ → Bool
at_least n none = false
at_least n (some m) = leb n m

abbrev pub is_connected : Line → Bool
is_connected r = text_eq r.status (text "CONNECTED")

unfoldable pub is_trying : Line → Bool
is_trying r = text_eq r.status (text "STARTING") || text_eq r.status (text "AUTHENTICATING")

-- A linked number that is not connected after 30 minutes is told of.
unfoldable pub down_problem : Line → ℕ → List Problem
down_problem r now =
    if is_connected r
    then []
    else down (is_trying r) (down_for r now) r.reconnect_attempts
        (at_least (30 * 60 * 1000) (down_for r now))
      ∷ []

unfoldable pub unresponsive_problem : Line → List Problem
unresponsive_problem r =
    if is_connected r && leb 3 r.heartbeat_failures
    then unresponsive r.heartbeat_failures ∷ []
    else []

-- Five sends or more, and half of them or more.
unfoldable pub failing_problem : Line → List Problem
failing_problem r =
    if leb 5 r.failed_last_hour
      && ltb 0 r.total_last_hour
      && leb r.total_last_hour (2 * r.failed_last_hour)
    then failing r.failed_last_hour r.total_last_hour ∷ []
    else []

unfoldable pub stuck_for : ℕ → Option ℕ → List Problem
stuck_for queued none = []
stuck_for queued (some s) = if ltb 0 queued && leb (10 * 60) s then stuck queued s ∷ [] else []

unfoldable pub problems_of : Line → ℕ → List Problem
problems_of r now =
    down_problem r now
    ++ (unresponsive_problem r ++ (failing_problem r ++ stuck_for r.queued r.oldest_seconds))

abbrev pub is_down : Problem → Bool
is_down (down a b c d) = true
is_down p = false

abbrev pub is_unresponsive : Problem → Bool
is_unresponsive (unresponsive n) = true
is_unresponsive p = false

unfoldable pub level_of : List Problem → Level
level_of [] = all_well
level_of (p ∷ ps) = if any is_down (p ∷ ps) then broken else warned

unfoldable pub judge : Line → ℕ → Level × List Problem
judge r now =
    if is_empty r.phone then (unpaired, []) else (level_of (problems_of r now), problems_of r now)

any_stuck : (n : ℕ) (o : Option ℕ) → any is_down (stuck_for n o) ≡ false
unfolding stuck_for
any_stuck n none = refl
any_stuck n (some s) = ground arith

any_failing :
    (r : Line) (ps : List Problem) → any is_down (failing_problem r ++ ps) ≡ any is_down ps
unfolding failing_problem
any_failing r ps = ground arith

any_down : (r : Line) (now : ℕ) → any is_down (problems_of r now) ≡ not (is_connected r)
unfolding problems_of down_problem unresponsive_problem
any_down r now = ground (
  arith,
  any_failing r (stuck_for r.queued r.oldest_seconds),
  any_stuck r.queued r.oldest_seconds,
)

level_broken : (ps : List Problem) → (level_of ps ≡ broken) ↔ (any is_down ps ≡ true)
unfolding level_of
level_broken [] = ((λ h. cc), λ h. cc)
level_broken (p ∷ ps) = elim (Bool-cases (any is_down (p ∷ ps))) [
  | inl some_down ↦ ground arith
  | inr none_down ↦ ground arith
]

level_well : (ps : List Problem) → (level_of ps ≡ all_well) ↔ (ps ≡ [])
unfolding level_of
level_well [] = ground arith
level_well (p ∷ ps) = ground arith

-- Of a number that is linked: it is "down" exactly when it is not connected, whatever else is wrong,
-- and it is well exactly when there is no problem to show.
pub judge_level :
    (r : Line) (now : ℕ)
    → is_empty r.phone ≡ false
    → (((judge r now).0 ≡ broken) ↔ (is_connected r ≡ false))
      × (((judge r now).0 ≡ all_well) ↔ ((judge r now).1 ≡ []))
unfolding judge
judge_level r now linked =
    let seen = any_down r now in
    let (to, back) = level_broken (problems_of r now) in
    rw (linked, judge)
      (
        ((λ h. ground (arith, seen, to h)), λ h. back (ground (arith, seen))),
        level_well (problems_of r now),
      )
