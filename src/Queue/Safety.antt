-- ===== src/Queue/Safety.antt =====
-- Who is written to, and that a campaign stops after three failures.
use wppflow_backend.Common.{
  ℕ, ◌≤◌, ◌≢◌, Bool, true, false, ◌&&◌, none, some, List, [], ◌∷◌, Text, ◌==◌, if◌then◌else◌, any,
  find, ◌≡◌, refl, arith, All, Bool-cases, inl, inr,
}
use wppflow_backend.Queue.Tables.{sending, dispatching, running, Campaign, Db, update, is_running}
use wppflow_backend.Queue.Claim.{Job, World, in_flight, is_claimable, claim, running_campaign}
use wppflow_backend.Common.Rows.{Some, any-Some, any-All}
use wppflow_backend.Queue.Settle.{record_failed, count_failure, is_campaign}
use wppflow_backend.Queue.Flight.{All-map}
use wppflow_backend.Queue.Passes.{
  claim-Passes, waiting_row, free_row, running_campaign-Some, welcome_rows, paced_session,
}

-- What the tables say of a campaign that a worker may write for.
pub record IsAllowed (db : Db) (j : Job) (w : World) (c : ℕ) : Type 0 where
  -- the campaign runs
  pub runs : Some (λ k. (k.id ≡ c) × (k.tenant ≡ j.tenant) × (k.status ≡ running)) db.campaigns
  -- the message goes to a recipient who has opted in, and whose number no row suppresses
  pub welcome :
      Some
        (λ r.
          (r.tenant ≡ j.tenant)
          × (r.campaign ≡ c)
          × (r.message ≡ j.message)
          × Some
              (λ x. (x.tenant ≡ j.tenant) × (x.phone ≡ r.phone) × (x.opted_in ≡ true))
              db.consents
          × All (λ s. s.tenant ≡ j.tenant → s.phone ≢ r.phone) db.suppressions)
        db.recipients
  -- the session may send again
  pub paced :
      Some
        (λ s. (s.tenant ≡ j.tenant) × (s.name ≡ j.session) × (s.next_send_at ≤ w.now))
        db.sessions

-- What the tables say when a worker has claimed a message.
pub record IsRightful (db : Db) (j : Job) (w : World) : Type 0 where
  pub waiting :
      Some (λ m. (m.id ≡ j.message) × (m.tenant ≡ j.tenant) × (m.status ≡ sending)) db.messages
  -- no message that is with the provider goes through the job's session
  pub alone :
      All
        (λ m.
          m.tenant ≡ j.tenant
          → m.status ≡ dispatching
          → All (λ c. c.id ≡ m.conversation → c.session ≢ j.session) db.conversations)
        db.messages
  pub allowed : (c : ℕ) → j.campaign ≡ some c → IsAllowed db j w c

-- The provider is called for a message only if a row of the tables has the message waiting, no message
-- that is with the provider goes through the job's session, and, for a campaign: a row has it
-- running, the message goes to a recipient with a consent and with no suppression, and the time from
-- which the session may send again has come.
pub claim-IsRightful : (db : Db) (j : Job) (w : World) → (claim db j w).1 ≡ true → IsRightful db j w
unfolding in_flight
claim-IsRightful db j w h =
    let passes = claim-Passes db j w h in
    record {
      waiting = any-Some (is_claimable j) _ db.messages (waiting_row j) passes.waiting;
      alone = any-All _ _ db.messages (free_row db j) passes.alone;
      allowed = λ c e.
          let (runs, fit, over) = passes.allowed c e in
          record {
            runs = running_campaign-Some db j c runs;
            welcome = welcome_rows db j c fit;
            paced = paced_session db j w.now over;
          };
    }

-- A message that does not wait is not claimed.
pub claim-waiting :
    (db : Db) (j : Job) (w : World)
    → any (is_claimable j) db.messages ≡ false
    → (claim db j w).1 ≡ false
claim-waiting db j w h = elim (Bool-cases (claim db j w).1) [
  | inl claimed ↦ cc ((claim-Passes db j w claimed).waiting)
  | inr refused ↦ refused
]

find-update-none :
    {A : Type 0} (p q : A → Bool) (f : A → A) (xs : List A)
    → All (λ x. q (if p x then f x else x) ≡ false) xs
    → find q (update p f xs) ≡ none
find-update-none p q f [] h = refl
find-update-none p q f (x ∷ xs) (h, hs) = rw h (find-update-none p q f xs hs)

claim-stopped :
    (db : Db) (j : Job) (w : World) (c : ℕ)
    → j.campaign ≡ some c
    → running_campaign db j c ≡ none
    → (claim db j w).1 ≡ false
claim-stopped db j w c e h = elim (Bool-cases (claim db j w).1) [
  | inl claimed ↦ cc (rw h at (((claim-Passes db j w claimed).allowed c e).0))
  | inr refused ↦ refused
]

stopped_row :
    (j j' : Job) (c : ℕ) (k : Campaign)
    → j'.tenant ≡ j.tenant
    → ((k.id ≡ c) → (k.tenant ≡ j.tenant) → 2 ≤ k.failures)
    → let k' = if is_campaign j (some c) k then count_failure k else k in
      (k'.id == c && k'.tenant == j'.tenant && is_running k'.status) ≡ false
unfolding is_campaign count_failure
stopped_row j j' c k t two = ground arith

-- A campaign whose row counts two failures in a row is stopped by the next one: whether the provider
-- was offline or not, no message of the campaign is claimed afterwards.
pub breaker_stops :
    (db : Db) (j j' : Job) (offline : Bool) (words : Text) (now c : ℕ) (w : World)
    → j.campaign ≡ some c
    → j'.campaign ≡ some c
    → j'.tenant ≡ j.tenant
    → All (λ k. (k.id ≡ c) → (k.tenant ≡ j.tenant) → 2 ≤ k.failures) db.campaigns
    → (claim (record_failed db j offline words now) j' w).1 ≡ false
unfolding record_failed running_campaign
breaker_stops db j j' offline words now c w e e' t two =
    claim-stopped (record_failed db j offline words now) j' w c e' (
      find-update-none (is_campaign j j.campaign)
        (λ k. k.id == c && k.tenant == j'.tenant && is_running k.status) count_failure db.campaigns
        (rw e (All-map db.campaigns (λ k h. stopped_row j j' c k t h) two)))
