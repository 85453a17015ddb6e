-- ===== src/Router/Complete.antt =====
-- `complete` of router.js: the first provider that can take a request answers it.
use wppflow_backend.Common.{
  ℕ, ◌+◌, ◌/◌, Bool, true, false, ◌&&◌, ◌||◌, Option, none, some, List, [], ◌∷◌, ◌++◌, Text, length,
  take, keep, map, leb, ◌==◌, if◌then◌else◌,
}
use wppflow_backend.Router.Provider.{
  Style, openai, gemini, openrouter, anthropic, Provider, Failure, State, Verdict, rest_provider,
  rest_model, judge, is_resting, model_until, used, balance,
}

pub data Answer : Type 0 where
  answered : Text → Answer
  failed : Failure → Answer

-- The world: what the n-th request comes to and when, and `AI_ROUTING`, `AI_REQUIRE_NO_TRAINING`.
pub record World : Type 0 where
  pub ask : ℕ → Provider → Option Text → ℕ × Answer
  pub balanced : Bool
  pub require_no_training : Bool

pub record Request : Type 0 where
  pub of_customer : Bool
  pub private_only : Bool
  pub background : Bool

pub data Outcome : Type 0 where
  -- the provider's identity and its words
  done : Text → Text → Outcome
  thrown : Failure → Outcome
  go_on : Outcome

abbrev pub is_counted : Style → Bool
is_counted openai = true
is_counted gemini = true
is_counted openrouter = false
is_counted anthropic = false

-- The models to try: two at most that do not rest.
unfoldable pub models_of : State → Provider → List (Option Text)
models_of s p =
    if is_counted p.style
    then map some (take 2 (keep (λ m. leb (model_until p.id m s.model_cooled) s.now) p.models))
    else none ∷ []

unfoldable pub send : State → Provider → Option Text → ℕ → State
send s p m later = record s {
  now = later;
  windows = (p.id, s.now) ∷ s.windows;
  sent = s.sent ++ record { provider = p; model = m } ∷ [];
}

unfoldable pub cool : State → Provider → ℕ → State
cool s p ms = record s { cooled = (p.id, s.now + ms) ∷ s.cooled }

-- After a failure: only a model that is at fault lets the next one be tried.
unfoldable pub set_aside :
    Provider → Option Text → Verdict → State → (State → State × Outcome) → State × Outcome
set_aside p (some m) (rest_model ms) s next =
    next (record s { model_cooled = ((p.id, m), s.now + ms) ∷ s.model_cooled })
set_aside p none (rest_model ms) s next = (cool s p 30000, go_on)
set_aside p m (rest_provider ms) s next = (cool s p ms, go_on)

-- A refusal (422) is about the content, and is thrown.
unfoldable pub on_answer :
    Provider → Option Text → Answer → State → (State → State × Outcome) → State × Outcome
on_answer p m (answered words) s next = (s, done p.id words)
on_answer p m (failed e) s next =
    if e.status == 422
    then (s, thrown e)
    else set_aside p m (judge e) (record s { last_error = some e }) next

unfoldable pub try_models : World → Provider → List (Option Text) → State → State × Outcome
try_models w p [] s = (s, go_on)
try_models w p (m ∷ ms) s =
    let (later, answer) = w.ask (length s.sent) p m in
    on_answer p m answer (send s p m later) (try_models w p ms)

unfoldable pub try_provider : World → Provider → State → State × Outcome
try_provider w p s = try_models w p (models_of s p) s

-- What is done with an outcome: only `go_on` goes to the next provider.
unfoldable pub or_next : State × Outcome → (State → State × Outcome) → State × Outcome
or_next (s, done id words) next = (s, done id words)
or_next (s, thrown e) next = (s, thrown e)
or_next (s, go_on) next = next s

unfoldable pub try_all : World → List Provider → State → State × Outcome
try_all w [] s = (s, go_on)
try_all w (p ∷ ps) s = or_next (try_provider w p s) (try_all w ps)

-- A provider that is held to a setting and has used it; a quick job uses half.
unfoldable pub is_busy : Request → State → Provider → Bool
is_busy r s p = is_counted p.style && leb (if r.background then p.rpm / 2 else p.rpm) (used s p)

-- The loop, with the providers that rest; they are tried if no request was sent.
unfoldable pub serve : World → Request → List Provider → List Provider → State → State × Outcome
serve w r [] resting s = if length s.sent == 0 then try_all w resting s else (s, go_on)
serve w r (p ∷ ps) resting s =
    let aside = serve w r ps (resting ++ p ∷ []) s in
    let past = serve w r ps resting s in
    let tried = or_next (try_provider w p s) (serve w r ps resting) in
    if is_resting s p then aside else if is_busy r s p then past else tried

unfoldable pub is_strict : World → Request → Bool
is_strict w r = r.of_customer && (r.private_only || w.require_no_training)

-- The providers that may be asked, in their order.
unfoldable pub allowed : World → Request → List Provider → List Provider
allowed w r ps = if is_strict w r then keep (λ p. p.no_training) ps else ps

unfoldable pub ordered : World → State → List Provider → List Provider
ordered w s ps = if w.balanced then balance s ps else ps

abbrev pub next_turn : World → State → State
next_turn w s = record s { turn = if w.balanced then s.turn + 1 else s.turn }

-- `fail(status, ...)`, an error of the router's own.
abbrev pub own_error : ℕ → Failure
own_error n = record { status = n; upstream = 0; retry_after = 0; daily = false }

-- No provider answered: the last error is thrown, or that all are busy.
unfoldable pub finish : State × Outcome → State × Outcome
finish (s, done id words) = (s, done id words)
finish (s, thrown e) = (s, thrown e)
finish (s, go_on) = elim s.last_error [
  | some e ↦ (s, thrown e)
  | none ↦ (s, thrown (own_error 429))
]

-- With the providers that may be asked.
unfoldable pub ask_some : World → Request → List Provider → State → State × Outcome
ask_some w r [] s = (s, thrown (own_error 503))
ask_some w r (p ∷ ps) s = finish (serve w r (ordered w s (p ∷ ps)) [] (next_turn w s))

-- `sent` and `last_error` are of this request alone.
unfoldable pub complete : World → Request → List Provider → State → State × Outcome
complete w r ps s = ask_some w r (allowed w r ps) (record s { sent = []; last_error = none })
