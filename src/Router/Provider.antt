-- ===== src/Router/Provider.antt =====
-- The providers, what the router remembers of them, and what a failure means. Times are milliseconds.
use wppflow_backend.Common.{
  ℕ, zero, suc, ◌-◌, ◌*◌, ◌%◌, min, max, Bool, true, false, not, ◌&&◌, ◌||◌, Option, List, [], ◌∷◌,
  ◌++◌, Text, text_eq, length, take, drop, keep, ltb, leb, ◌==◌, if◌then◌else◌,
}

pub data Style : Type 0 where
  openai gemini openrouter anthropic : Style

-- `models` is what the provider has for the tier of the request, or else for "write".
pub record Provider : Type 0 where
  pub id : Text
  pub style : Style
  pub is_free : Bool
  pub no_training : Bool
  pub rpm : ℕ
  pub models : List Text

-- A failed request; `upstream` and `retry_after` are 0 where the error has none, and `daily` is
-- whether its detail names an allowance of a day.
pub record Failure : Type 0 where
  pub status : ℕ
  pub upstream : ℕ
  pub retry_after : ℕ
  pub daily : Bool

-- One request that was sent: the provider and the model.
pub record Sent : Type 0 where
  pub provider : Provider
  pub model : Option Text

-- What the router keeps between requests, with the time and the requests sent for this answer.
pub record State : Type 0 where
  pub now : ℕ
  pub cooled : List (Text × ℕ)
  pub model_cooled : List ((Text × Text) × ℕ)
  pub windows : List (Text × ℕ)
  pub turn : ℕ
  pub sent : List Sent
  pub last_error : Option Failure

abbrev pub minute : ℕ
minute = 60000

pub data Verdict : Type 0 where
  rest_provider rest_model : ℕ → Verdict

abbrev pub or_zero : ℕ → ℕ → ℕ
or_zero zero d = d
or_zero (suc n) d = suc n

unfoldable pub judge : Failure → Verdict
judge e =
    if e.upstream == 401 || e.upstream == 403
    then rest_provider (60 * minute)
    else if e.upstream == 404 || e.upstream == 400 || e.upstream == 422
    then rest_model (6 * 60 * minute)
    else if e.status == 429 || e.upstream == 429
    then (if e.daily
        then rest_provider
            (max (10 * minute) (min (or_zero e.retry_after 3600 * 1000) (6 * 60 * minute)))
        else rest_provider (max 10 (min (or_zero e.retry_after 60) (15 * 60)) * 1000))
    else rest_provider 30000

-- `Map.get`: the newest entry of a key is its value.
abbrev pub until_of : Text → List (Text × ℕ) → ℕ
until_of id [] = 0
until_of id ((k, t) ∷ m) = let rest = until_of id m in if text_eq k id then t else rest

abbrev pub model_until : Text → Text → List ((Text × Text) × ℕ) → ℕ
model_until id model [] = 0
model_until id model (((k, l), t) ∷ m) =
    let rest = model_until id model m in if text_eq k id && text_eq l model then t else rest

unfoldable pub is_resting : State → Provider → Bool
is_resting s p = ltb s.now (until_of p.id s.cooled)

-- The requests to a provider in the last minute.
unfoldable pub used : State → Provider → ℕ
used s p = length (keep (λ w. text_eq w.0 p.id && ltb (s.now - w.1) minute) s.windows)

-- The load of a provider, as a fraction: 2 while it rests.
unfoldable pub load : State → Provider → ℕ × ℕ
load s p = if is_resting s p then (2, 1) else (used s p, max p.rpm 1)

unfoldable pub is_lighter : State → Provider → Provider → Bool
is_lighter s a b = let (x, y) = load s a in let (z, w) = load s b in leb (x * w) (z * y)

unfoldable pub place : State → Provider → List Provider → List Provider
place s p [] = p ∷ []
place s p (q ∷ qs) = let later = place s p qs in if is_lighter s p q then p ∷ q ∷ qs else q ∷ later

unfoldable pub by_load : State → List Provider → List Provider
by_load s [] = []
by_load s (p ∷ ps) = place s p (by_load s ps)

abbrev pub is_paid : Provider → Bool
is_paid p =
    not p.is_free
    && (elim p.style [ anthropic ↦ true | openai ↦ false | gemini ↦ false | openrouter ↦ false ])

abbrev pub is_own : Provider → Bool
is_own p = not p.is_free && not (is_paid p)

-- Own servers first, paid ones last, and the free ones in between taking turns.
unfoldable pub balance : State → List Provider → List Provider
balance s ps =
    let free = keep (λ p. p.is_free) ps in
    let start = s.turn % max (length free) 1 in
    keep is_own ps ++ (by_load s (drop start free ++ take start free) ++ keep is_paid ps)
