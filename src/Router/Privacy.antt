-- ===== src/Router/Privacy.antt =====
-- Who is sent a customer's words.
use wppflow_backend.Common.{
  ℕ, zero, suc, Bool, true, Option, none, some, List, [], ◌∷◌, ◌++◌, Text, length, take, drop, keep,
  ◌==◌, All, All-append, All-take, ◌≡◌, Bool-cases, Option-cases, max, ◌%◌, inl, inr,
}
use wppflow_backend.Router.Provider.{
  Provider, State, Verdict, rest_provider, rest_model, judge, is_resting, is_lighter, place,
  by_load, is_own, is_paid, balance,
}
use wppflow_backend.Router.Complete.{
  Answer, answered, failed, World, Request, Outcome, done, thrown, go_on, models_of, send, cool,
  set_aside, on_answer, try_models, try_provider, or_next, try_all, is_busy, serve, is_strict,
  allowed, ordered, next_turn, complete, finish, ask_some,
}

module _ (P : Provider → Type 0) where
  -- All that was sent went to providers with the property.
  Kept : State → Type 0
  Kept s = All (λ x. P x.provider) s.sent

  on_answer-Kept :
      (p : Provider) (m : Option Text) (a : Answer) (s : State) (next : State → State × Outcome)
      → ((s' : State) → Kept s' → Kept (next s').0)
      → Kept s
      → Kept (on_answer p m a s next).0
  unfolding on_answer set_aside cool Kept
  on_answer-Kept p m (answered words) s next go h = h
  on_answer-Kept p m (failed e) s next go h = elim (Bool-cases (e.status == 422)) [
    | inl refusal ↦ rw refusal h
    | inr other ↦ rw other (aside m (judge e))
  ]
    where
      aside :
          (m : Option Text) (v : Verdict)
          → Kept (set_aside p m v (record s { last_error = some e }) next).0
      aside (some l) (rest_model ms) = go _ h
      aside none (rest_model ms) = h
      aside (some l) (rest_provider ms) = h
      aside none (rest_provider ms) = h

  try_models-Kept :
      (w : World) (p : Provider) (ms : List (Option Text)) (s : State)
      → P p
      → Kept s
      → Kept (try_models w p ms s).0
  unfolding try_models send Kept
  try_models-Kept w p [] s right h = h
  try_models-Kept w p (m ∷ ms) s right h =
      on_answer-Kept p m _ _ (try_models w p ms) (λ s' h'. try_models-Kept w p ms s' right h')
        (All-append (λ x. P x.provider) s.sent (_ ∷ []) h (right, tt))

  or_next-Kept :
      (r : State × Outcome) (next : State → State × Outcome)
      → ((s' : State) → Kept s' → Kept (next s').0)
      → Kept r.0
      → Kept (or_next r next).0
  unfolding or_next
  or_next-Kept (s, done id words) next go h = h
  or_next-Kept (s, thrown e) next go h = h
  or_next-Kept (s, go_on) next go h = go s h

  try_all-Kept :
      (w : World) (ps : List Provider) (s : State) → All P ps → Kept s → Kept (try_all w ps s).0
  unfolding try_all try_provider
  try_all-Kept w [] s right h = h
  try_all-Kept w (p ∷ ps) s (q, qs) h =
      or_next-Kept _ (try_all w ps) (λ s' h'. try_all-Kept w ps s' qs h')
        (try_models-Kept w p (models_of s p) s q h)

  serve-Kept :
      (w : World) (r : Request) (ps resting : List Provider) (s : State)
      → All P ps
      → All P resting
      → Kept s
      → Kept (serve w r ps resting s).0
  unfolding serve try_provider
  serve-Kept w r [] resting s right rests h = elim (Bool-cases (length s.sent == 0)) [
    | inl nothing ↦ rw nothing (try_all-Kept w resting s rests h)
    | inr something ↦ rw something h
  ]
  serve-Kept w r (p ∷ ps) resting s (q, qs) rests h = elim (Bool-cases (is_resting s p)) [
    | inl rest ↦
        rw rest (
          serve-Kept w r ps (resting ++ p ∷ []) s qs (All-append P resting (p ∷ []) rests (q, tt))
            h)
    | inr up ↦ elim (Bool-cases (is_busy r s p)) [
      | inl busy ↦ rw (up, busy) (serve-Kept w r ps resting s qs rests h)
      | inr idle ↦
          rw (up, idle)
            (or_next-Kept _ (serve w r ps resting)
              (λ s' h'. serve-Kept w r ps resting s' qs rests h')
              (try_models-Kept w p (models_of s p) s q h))
    ]
  ]

  All-place :
      (s : State) (p : Provider) (ps : List Provider) → P p → All P ps → All P (place s p ps)
  unfolding place
  All-place s p [] h hs = (h, tt)
  All-place s p (q ∷ qs) h (g, gs) = elim (Bool-cases (is_lighter s p q)) [
    | inl first ↦ rw first (h, (g, gs))
    | inr later ↦ rw later (g, All-place s p qs h gs)
  ]

  All-by_load : (s : State) (ps : List Provider) → All P ps → All P (by_load s ps)
  unfolding by_load
  All-by_load s [] h = tt
  All-by_load s (p ∷ ps) (h, hs) = All-place s p (by_load s ps) h (All-by_load s ps hs)

  All-keep : (p : Provider → Bool) (ps : List Provider) → All P ps → All P (keep p ps)
  All-keep p [] h = tt
  All-keep p (q ∷ qs) (h, hs) = elim (Bool-cases (p q)) [
    | inl kept ↦ rw kept (h, All-keep p qs hs)
    | inr left ↦ rw left (All-keep p qs hs)
  ]

  All-drop : (n : ℕ) (ps : List Provider) → All P ps → All P (drop n ps)
  All-drop zero ps h = h
  All-drop (suc n) [] h = tt
  All-drop (suc n) (p ∷ ps) (h, hs) = All-drop n ps hs

  All-balance : (s : State) (ps : List Provider) → All P ps → All P (balance s ps)
  unfolding balance
  All-balance s ps h =
      let free = keep (λ p. p.is_free) ps in
      let n = s.turn % max (length free) 1 in
      let all_free = All-keep (λ p. p.is_free) ps h in
      let turned =
        All-append P (drop n free) (take n free) (All-drop n free all_free)
          (All-take P n free all_free) in
      All-append P (keep is_own ps) _ (All-keep is_own ps h)
        (All-append P _ (keep is_paid ps) (All-by_load s _ turned) (All-keep is_paid ps h))

  All-ordered : (w : World) (s : State) (ps : List Provider) → All P ps → All P (ordered w s ps)
  unfolding ordered
  All-ordered w s ps h = elim (Bool-cases w.balanced) [
    | inl shared ↦ rw shared (All-balance s ps h)
    | inr fixed ↦ rw fixed h
  ]

  finish-Kept : (r : State × Outcome) → Kept r.0 → Kept (finish r).0
  unfolding finish Kept
  finish-Kept (s, done id words) h = h
  finish-Kept (s, thrown e) h = h
  finish-Kept (s, go_on) h = elim (Option-cases s.last_error) [
    | inl nothing ↦ rw nothing h
    | inr (e, last) ↦ rw last h
  ]

  ask_some-Kept :
      (w : World) (r : Request) (ps : List Provider) (s : State)
      → All P ps
      → Kept s
      → Kept (ask_some w r ps s).0
  unfolding ask_some Kept
  ask_some-Kept w r [] s right h = h
  ask_some-Kept w r (p ∷ ps) s right h = finish-Kept _ (
      serve-Kept w r (ordered w s (p ∷ ps)) [] (next_turn w s) (All-ordered w s (p ∷ ps) right) tt
        h)

keep_right : (p : Provider → Bool) (ps : List Provider) → All (λ x. p x ≡ true) (keep p ps)
keep_right p [] = tt
keep_right p (q ∷ qs) = elim (Bool-cases (p q)) [
  | inl kept ↦ rw kept (kept, keep_right p qs)
  | inr left ↦ rw left (keep_right p qs)
]

-- When a customer's words are to be kept private, by the company or for the whole server, every
-- provider that they are sent to is one that does not train on them, whatever fails on the way.
pub complete_private :
    (w : World) (r : Request) (ps : List Provider) (s : State)
    → is_strict w r ≡ true
    → All (λ x. x.provider.no_training ≡ true) (complete w r ps s).0.sent
unfolding complete allowed Kept
complete_private w r ps s strict = rw strict (
    ask_some-Kept (λ p. p.no_training ≡ true) w r (keep (λ p. p.no_training) ps)
      (record s { sent = []; last_error = none }) (keep_right (λ p. p.no_training) ps) tt)
