-- ===== src/Queue/Passes.antt =====
-- The tests that a claim has passed, and what each of them says of the rows.
use wppflow_backend.Common.{
  ℕ, ◌≤◌, ◌≢◌, true, false, not, ◌&&◌, Option, none, some, Text, ◌==◌, any, find, is_some, ltb,
  text_eq_iff, ◌≡◌, refl, arith, All, Bool-cases, Option-cases, inl, inr,
}
use wppflow_backend.Queue.Tables.{
  Status, sending, dispatching, Message, Running, running, Campaign, Db, is_sending, is_running,
}
use wppflow_backend.Queue.Claim.{
  Job, World, in_flight, is_claimable, take, claim, claim_for, claim_running, running_campaign,
  is_eligible, may_send_at, flying, has_consent, is_suppressed,
}
use wppflow_backend.Common.Rows.{Some, any-Some, any-All, find-Some}

-- The tests that a claim passes.
pub record Passes (db : Db) (j : Job) (w : World) : Type 0 where
  pub waiting : any (is_claimable j) db.messages ≡ true
  pub alone : in_flight db j ≡ false
  pub allowed :
      (c : ℕ)
      → j.campaign ≡ some c
      → (is_some (running_campaign db j c) ≡ true)
        × (is_eligible db j c ≡ true)
        × (may_send_at db j w.now ≡ true)

take_rightful :
    (db : Db) (j : Job) (w : World) (k : Option Campaign)
    → (take db j w k).1 ≡ true
    → (any (is_claimable j) db.messages ≡ true)
      × (in_flight db j ≡ false)
      × (is_some k ≡ true → may_send_at db j w.now ≡ true)
unfolding take
take_rightful db j w k h = ground arith

claim_for-Passes :
    (db : Db) (j : Job) (w : World) (o : Option ℕ)
    → j.campaign ≡ o
    → (claim_for db j w o).1 ≡ true
    → Passes db j w
unfolding claim_for claim_running
claim_for-Passes db j w none e h =
    let (waiting, alone, _) = take_rightful db j w none h in
    record { waiting = waiting; alone = alone; allowed = λ c q. cc }
claim_for-Passes db j w (some c) e h = elim (Option-cases (running_campaign db j c)) [
  | inl stopped ↦ ground arith
  | inr (k, runs) ↦ elim (Bool-cases (is_eligible db j c)) [
    | inl fit ↦
        let h' : (take db j w (some k)).1 ≡ true = ground arith in
        let (waiting, alone, paced) = take_rightful db j w (some k) h' in
        record { waiting = waiting; alone = alone; allowed = λ d q. ground arith }
    | inr unfit ↦ ground arith
  ]
]

pub claim-Passes : (db : Db) (j : Job) (w : World) → (claim db j w).1 ≡ true → Passes db j w
unfolding claim
claim-Passes db j w h = claim_for-Passes db j w j.campaign refl h

sending_status : (s : Status) → is_sending s ≡ true → s ≡ sending
sending_status s h = ground arith

running_status : (s : Running) → is_running s ≡ true → s ≡ running
running_status s h = ground arith

pub waiting_row :
    (j : Job) (m : Message)
    → is_claimable j m ≡ true
    → (m.id ≡ j.message) × (m.tenant ≡ j.tenant) × (m.status ≡ sending)
unfolding is_claimable
waiting_row j m h = ground (arith, sending_status m.status)

pub free_row :
    (db : Db) (j : Job) (m : Message)
    → flying db.conversations j.tenant j.session m ≡ false
    → m.tenant ≡ j.tenant
    → m.status ≡ dispatching
    → All (λ c. c.id ≡ m.conversation → c.session ≢ j.session) db.conversations
unfolding flying
free_row db j m h own with_provider =
    any-All (λ c. c.id == m.conversation && c.session == j.session) _ db.conversations
      (λ c none_of e f. ground arith) (ground arith)

campaign_row :
    (j : Job) (c : ℕ) (k : Campaign)
    → (k.id == c && k.tenant == j.tenant && is_running k.status) ≡ true
    → (k.id ≡ c) × (k.tenant ≡ j.tenant) × (k.status ≡ running)
campaign_row j c k h = ground (arith, running_status k.status)

pub running_campaign-Some :
    (db : Db) (j : Job) (c : ℕ)
    → is_some (running_campaign db j c) ≡ true
    → Some (λ k. (k.id ≡ c) × (k.tenant ≡ j.tenant) × (k.status ≡ running)) db.campaigns
unfolding running_campaign
running_campaign-Some db j c h = elim (Option-cases (running_campaign db j c)) [
  | inl nothing ↦ cc
  | inr (k, found) ↦ find-Some _ _ db.campaigns k found (campaign_row j c k)
]

pub paced_session :
    (db : Db) (j : Job) (now : ℕ)
    → may_send_at db j now ≡ true
    → Some (λ s. (s.tenant ≡ j.tenant) × (s.name ≡ j.session) × (s.next_send_at ≤ now)) db.sessions
unfolding may_send_at
paced_session db j now h =
    elim (Option-cases (find (λ s. s.tenant == j.tenant && s.name == j.session) db.sessions)) [
      | inl nothing ↦ cc (rw (nothing, may_send_at) at h)
      | inr (s, found) ↦
          let over : not (ltb now s.next_send_at) ≡ true = rw (found, may_send_at) at h in
          find-Some _ _ db.sessions s found (λ own. ground arith)
    ]

consent_rows :
    (db : Db) (tenant : ℕ) (phone : Text)
    → has_consent db tenant phone ≡ true
    → Some (λ x. (x.tenant ≡ tenant) × (x.phone ≡ phone) × (x.opted_in ≡ true)) db.consents
unfolding has_consent
consent_rows db tenant phone =
    any-Some _ _ db.consents (λ x h. ground (arith, text_eq_iff x.phone phone))

suppression_rows :
    (db : Db) (tenant : ℕ) (phone : Text)
    → is_suppressed db tenant phone ≡ false
    → All (λ s. s.tenant ≡ tenant → s.phone ≢ phone) db.suppressions
unfolding is_suppressed
suppression_rows db tenant phone =
    any-All _ _ db.suppressions (λ s h own same. ground (arith, text_eq_iff s.phone phone))

pub welcome_rows :
    (db : Db) (j : Job) (c : ℕ)
    → is_eligible db j c ≡ true
    → Some
        (λ r.
          (r.tenant ≡ j.tenant)
          × (r.campaign ≡ c)
          × (r.message ≡ j.message)
          × Some
              (λ x. (x.tenant ≡ j.tenant) × (x.phone ≡ r.phone) × (x.opted_in ≡ true))
              db.consents
          × All (λ s. s.tenant ≡ j.tenant → s.phone ≢ r.phone) db.suppressions)
        db.recipients
unfolding is_eligible
welcome_rows db j c = any-Some _ _ db.recipients λ r h.
    let own : r.tenant ≡ j.tenant = ground arith in
    let agreed : has_consent db r.tenant r.phone ≡ true = ground arith in
    let open_to : is_suppressed db r.tenant r.phone ≡ false = ground arith in
    (
      own,
      ground arith,
      ground arith,
      consent_rows db j.tenant r.phone (rw (← own) agreed),
      suppression_rows db j.tenant r.phone (rw (← own) open_to),
    )
