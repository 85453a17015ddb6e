-- ===== src/Queue/Flight.antt =====
-- At most one message of a session is with the provider at a time.
use wppflow_backend.Common.{
  ℕ, ◌+◌, ◌≤◌, ◌⊎◌, Bool, true, false, ◌&&◌, Option, none, some, List, [], ◌∷◌, ◌==◌, any, ◌≡◌,
  refl, arith, count_if, All, Bool-cases, inl, inr,
}
use wppflow_backend.Queue.Tables.{
  Message, Campaign, Db, update, is_message, is_sending, in_session, failed, dispatching,
}
use wppflow_backend.Queue.Claim.{
  Job, World, flying, in_flight, is_claimable, mark_dispatching, taken, push_back, take, claim,
  claim_for, claim_running, drop_recipient, running_campaign, is_eligible,
}

module _ {A : Type 0} where
  pub count_if-update :
      (p q : A → Bool) (f : A → A) (xs : List A)
      → count_if q (update p f xs) ≤ count_if q xs + count_if (λ x. p x && q (f x)) xs
  count_if-update p q f [] = omega arith
  count_if-update p q f (x ∷ xs) = ground (arith, count_if-update p q f xs)

  pub count_if-none : (p : A → Bool) (xs : List A) → any p xs ≡ false → count_if p xs ≡ 0
  count_if-none p [] h = refl
  count_if-none p (x ∷ xs) h = ground (arith, count_if-none p xs)

  pub count_if_mono :
      (p q : A → Bool) (xs : List A)
      → All (λ x. p x ≡ true → q x ≡ true) xs
      → count_if p xs ≤ count_if q xs
  count_if_mono p q [] h = omega arith
  count_if_mono p q (x ∷ xs) (h, hs) = ground (arith, count_if_mono p q xs hs, h)

  pub count_if_never : (p : A → Bool) (xs : List A) → All (λ x. p x ≡ false) xs → count_if p xs ≡ 0
  count_if_never p [] h = refl
  count_if_never p (x ∷ xs) (h, hs) = ground (arith, count_if_never p xs hs)

  pub All-every : {P : A → Type 0} (xs : List A) → ((x : A) → P x) → All P xs
  All-every [] f = tt
  All-every (x ∷ xs) f = (f x, All-every xs f)

  pub All-map : {P Q : A → Type 0} (xs : List A) → ((x : A) → P x → Q x) → All P xs → All Q xs
  All-map [] f h = tt
  All-map (x ∷ xs) f (h, hs) = (f x h, All-map xs f hs)

abbrev pub OneInFlight : Db → Type 0
OneInFlight db = (t s : ℕ) → count_if (flying db.conversations t s) db.messages ≤ 1

-- The job's message is one row, and its conversation goes through the job's session.
pub record Fits (db : Db) (j : Job) : Type 0 where
  pub unique : count_if (is_message j.tenant j.message) db.messages ≤ 1
  pub session :
      All
        (λ m.
          is_message j.tenant j.message m ≡ true
          → (s : ℕ) → in_session db.conversations m.conversation s ≡ true
          → s ≡ j.session)
        db.messages

module _ (db : Db) (j : Job) (now : ℕ) (one : OneInFlight db) (fits : Fits db j)
    (free : in_flight db j ≡ false) where
  departs : Message → Message
  departs m = record m { status = dispatching; updated_at = now }

  -- What the claim adds to a session's messages in flight.
  added : ℕ → ℕ → ℕ
  added t s =
      count_if (λ m. is_claimable j m && flying db.conversations t s (departs m)) db.messages

  added-le : (t s : ℕ) → added t s ≤ 1
  unfolding added is_claimable
  added-le t s =
      let few =
        count_if_mono (λ m. is_claimable j m && flying db.conversations t s (departs m))
          (is_message j.tenant j.message) db.messages
          (All-every db.messages (λ m h. ground arith)) in
      omega (arith, few, fits.unique)

  added_elsewhere : (t s : ℕ) → (t == j.tenant && s == j.session) ≡ false → added t s ≡ 0
  unfolding added is_claimable flying departs
  added_elsewhere t s other =
      count_if_never _ db.messages (All-map db.messages (λ m h. ground (arith, h _ s)) fits.session)

  none_here :
      (t s : ℕ)
      → (t == j.tenant && s == j.session) ≡ true
      → count_if (flying db.conversations t s) db.messages ≡ 0
  unfolding in_flight
  none_here t s here =
      let t-eq : t ≡ j.tenant = ground arith in
      let s-eq : s ≡ j.session = ground arith in
      rw (t-eq, s-eq) (count_if-none (flying db.conversations j.tenant j.session) db.messages free)

  mark_one : OneInFlight (mark_dispatching db j now)
  unfolding mark_dispatching added departs
  mark_one t s =
      let sum =
        count_if-update (is_claimable j) (flying db.conversations t s) departs db.messages in
      elim (Bool-cases (t == j.tenant && s == j.session)) [
        | inl here ↦ omega (arith, sum, none_here t s here, added-le t s)
        | inr other ↦ omega (arith, sum, one t s, added_elsewhere t s other)
      ]

drop_one : (db : Db) (j : Job) (now : ℕ) → OneInFlight db → OneInFlight (drop_recipient db j now)
unfolding drop_recipient flying
drop_one db j now one t s =
    let sum =
      count_if-update (λ m. is_message j.tenant j.message m && is_sending m.status)
        (flying db.conversations t s) (λ m. record m { status = failed; updated_at = now })
        db.messages in
    omega (
      arith,
      sum,
      one t s,
      count_if_never
          (λ m.
            (is_message j.tenant j.message m && is_sending m.status)
            && flying db.conversations t s (record m { status = failed; updated_at = now }))
          db.messages (All-every db.messages (λ m. ground arith)),
    )

-- A refused claim from the lock on changes nothing; a claim finds no message in flight.
pub take-cases :
    (db : Db) (j : Job) (w : World) (k : Option Campaign)
    → (take db j w k ≡ (db, false))
      ⊎ ((in_flight db j ≡ false)
          × (any (is_claimable j) db.messages ≡ true)
          × (take db j w k ≡ (taken db j w k, true)))
unfolding take
take-cases db j w k = ground arith

taken_one :
    (db : Db) (j : Job) (w : World) (k : Option Campaign)
    → OneInFlight (mark_dispatching db j w.now)
    → OneInFlight (taken db j w k)
unfolding taken push_back
taken_one db j w none h = h
taken_one db j w (some k) h = h

take_one :
    (db : Db) (j : Job) (w : World) (k : Option Campaign)
    → OneInFlight db
    → Fits db j
    → OneInFlight (take db j w k).0
take_one db j w k one fits = elim (take-cases db j w k) [
  | inl same ↦ rw same one
  | inr (free, _, done) ↦ rw done (taken_one db j w k (mark_one db j w.now one fits free))
]

claim_running_one :
    (db : Db) (j : Job) (w : World) (c : ℕ) (k : Option Campaign)
    → OneInFlight db
    → Fits db j
    → OneInFlight (claim_running db j w c k).0
unfolding claim_running
claim_running_one db j w c none one fits = one
claim_running_one db j w c (some k) one fits = elim (Bool-cases (is_eligible db j c)) [
  | inl yes' ↦ rw yes' (take_one db j w (some k) one fits)
  | inr no' ↦ rw no' (drop_one db j w.now one)
]

claim_for_one :
    (db : Db) (j : Job) (w : World) (c : Option ℕ)
    → OneInFlight db
    → Fits db j
    → OneInFlight (claim_for db j w c).0
unfolding claim_for
claim_for_one db j w none one fits = take_one db j w none one fits
claim_for_one db j w (some c) one fits =
    claim_running_one db j w c (running_campaign db j c) one fits

-- A claim, whether it is refused or not, leaves at most one message of every session with the
-- provider, if that was so before and the job's message is one row of the job's session.
pub claim_one :
    (db : Db) (j : Job) (w : World) → OneInFlight db → Fits db j → OneInFlight (claim db j w).0
unfolding claim
claim_one db j w one fits = claim_for_one db j w j.campaign one fits
