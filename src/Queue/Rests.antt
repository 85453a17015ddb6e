-- ===== src/Queue/Rests.antt =====
-- What each operation of messageQueue.js and `handleAckEvent` leaves of a message that is not to be
-- sent, and that no operation is at work on.
use wppflow_backend.Common.{
  ℕ, Bool, true, false, ◌&&◌, Option, none, some, List, [], ◌∷◌, ◌++◌, Text, text, ◌==◌,
  if◌then◌else◌, find, ◌≡◌, refl, ◌∙◌, arith, All, Bool-cases, Option-cases, inl, inr,
}
use wppflow_backend.Common.Int.{ℤ, pos, negsuc, ltb_ℤ}
use wppflow_backend.Common.Rows.{All-any}
use wppflow_backend.Queue.Tables.{
  Message, Campaign, Event, Db, update, delete, is_sending, is_message,
}
use wppflow_backend.Queue.Claim.{
  Job, World, is_claimable, take, taken, claim, claim_for, claim_running, drop_recipient,
  mark_dispatching, push_back, running_campaign, is_eligible,
}
use wppflow_backend.Queue.Ack.{moves, acked, status_of, handle_ack}
use wppflow_backend.Queue.Settle.{
  Reply, confirmed, unconfirmed, threw, settle, record_sent, record_failed, merge_echo, mark_sent,
  apply_early, reset_failures, echo_of, merged_ack, is_early,
}
use wppflow_backend.Queue.Outbox.{
  recover_interrupted, publish_rows, publish_outbox, due_events, mark_queued, add_job,
}
use wppflow_backend.Queue.Flight.{take-cases}
use wppflow_backend.Queue.Safety.{claim-waiting}
use wppflow_backend.Queue.Receipts.{handle_ack-messages}

-- The message of a tenant is not to be sent.
abbrev pub Rests : ℕ → ℕ → Message → Type 0
Rests tenant id m =
    is_message tenant id m ≡ true → (is_sending m.status ≡ false) × (ltb_ℤ m.ack (pos 0) ≡ false)

abbrev pub Elsewhere : ℕ → ℕ → Job → Type 0
Elsewhere tenant id j = (j.message == id && j.tenant == tenant) ≡ false

module _ {A : Type 0} (P : A → Type 0) where
  All-update :
      (p : A → Bool) (f : A → A) (xs : List A)
      → ((x : A) → p x ≡ true → P x → P (f x))
      → All P xs
      → All P (update p f xs)
  All-update p f [] keep h = tt
  All-update p f (x ∷ xs) keep (h, hs) = elim (Bool-cases (p x)) [
    | inl hit ↦ rw hit (keep x hit h, All-update p f xs keep hs)
    | inr miss ↦ rw miss (h, All-update p f xs keep hs)
  ]

  All-delete : (p : A → Bool) (xs : List A) → All P xs → All P (delete p xs)
  All-delete p [] h = tt
  All-delete p (x ∷ xs) (h, hs) = elim (Bool-cases (p x)) [
    | inl hit ↦ rw hit (All-delete p xs hs)
    | inr miss ↦ rw miss (h, All-delete p xs hs)
  ]

  pub All-without : (xs ys : List A) (x : A) → All P (xs ++ x ∷ ys) → All P (xs ++ ys) × P x
  All-without [] ys x (h, hs) = (hs, h)
  All-without (y ∷ xs) ys x (h, hs) =
      let (rest, found) = All-without xs ys x hs in ((h, rest), found)

module _ (tenant id : ℕ) where
  unfoldable pub Resting : List Message → Type 0
  Resting = All (Rests tenant id)

  taken-Rests :
      (db : Db) (j : Job) (w : World) (k : Option Campaign)
      → Resting db.messages
      → Resting (taken db j w k).messages
  unfolding Resting taken push_back mark_dispatching
  taken-Rests db j w none =
      All-update (Rests tenant id) _ _ db.messages (λ m hit h e. (refl, (h e).1))
  taken-Rests db j w (some k) =
      All-update (Rests tenant id) _ _ db.messages (λ m hit h e. (refl, (h e).1))

  take-Rests :
      (db : Db) (j : Job) (w : World) (k : Option Campaign)
      → Resting db.messages
      → Resting (take db j w k).0.messages
  take-Rests db j w k h = elim (take-cases db j w k) [
    | inl same ↦ rw same h
    | inr (_, _, done) ↦ rw done (taken-Rests db j w k h)
  ]

  claim_running-Rests :
      (db : Db) (j : Job) (w : World) (c : ℕ) (k : Option Campaign)
      → Resting db.messages
      → Resting (claim_running db j w c k).0.messages
  unfolding Resting claim_running drop_recipient
  claim_running-Rests db j w c none h = h
  claim_running-Rests db j w c (some k) h = elim (Bool-cases (is_eligible db j c)) [
    | inl fit ↦ rw fit (take-Rests db j w (some k) h)
    | inr unfit ↦
        rw unfit (All-update (Rests tenant id) _ _ db.messages (λ m hit r e. (refl, (r e).1)) h)
  ]

  claim_for-Rests :
      (db : Db) (j : Job) (w : World) (c : Option ℕ)
      → Resting db.messages
      → Resting (claim_for db j w c).0.messages
  unfolding claim_for
  claim_for-Rests db j w none h = take-Rests db j w none h
  claim_for-Rests db j w (some c) h = claim_running-Rests db j w c (running_campaign db j c) h

  pub claim-Rests :
      (db : Db) (j : Job) (w : World) → Resting db.messages → Resting (claim db j w).0.messages
  unfolding claim
  claim-Rests db j w = claim_for-Rests db j w j.campaign

  pub unclaimable :
      (j : Job)
      → (j.message == id && j.tenant == tenant) ≡ true
      → (m : Message) → Rests tenant id m
      → is_claimable j m ≡ false
  unfolding is_claimable
  unclaimable j own m h = elim (Bool-cases (is_message tenant id m)) [
    | inl this ↦ let (still, _) = h this in ground arith
    | inr other ↦ ground arith
  ]

  -- Nobody gets a message that rests.
  pub claim-Elsewhere :
      (db : Db) (j : Job) (w : World)
      → Resting db.messages
      → (claim db j w).1 ≡ true
      → Elsewhere tenant id j
  unfolding Resting
  claim-Elsewhere db j w h claimed = elim (Bool-cases (j.message == id && j.tenant == tenant)) [
    | inr other ↦ other
    | inl own ↦
        let refused : (claim db j w).1 ≡ false =
          claim-waiting db j w
            (All-any (is_claimable j) (Rests tenant id) db.messages (unclaimable j own) h) in
        cc
  ]

  acked-Rests :
      (provider ack-tenant : ℕ) (ack : ℤ) (now : ℕ) (m : Message)
      → moves ack-tenant provider ack m ≡ true
      → Rests tenant id m
      → Rests tenant id (acked ack now m)
  unfolding moves acked status_of
  acked-Rests provider t (pos a) now m hit h e = ground (arith, h e)
  acked-Rests provider t (negsuc a) now m hit h e = ground (arith, h e)

  pub handle_ack-Rests :
      (db : Db) (t provider : ℕ) (ack : ℤ) (now : ℕ)
      → Resting db.messages
      → Resting (handle_ack db t provider ack now).0.messages
  unfolding Resting
  handle_ack-Rests db t provider ack now h =
      rw (handle_ack-messages db t provider ack now)
        (All-update (Rests tenant id) _ _ db.messages (acked-Rests provider t ack now) h)

  -- What a worker writes of another message.
  not_own :
      (j : Job) (m : Message) {P : Type 0}
      → Elsewhere tenant id j
      → is_message j.tenant j.message m ≡ true
      → is_message tenant id m ≡ true
      → P
  not_own j m other hit e = absurd (ground arith)

  record_failed-Rests :
      (db : Db) (j : Job) (offline : Bool) (words : Text) (now : ℕ)
      → Elsewhere tenant id j
      → Resting db.messages
      → Resting (record_failed db j offline words now).messages
  unfolding Resting record_failed
  record_failed-Rests db j offline words now other =
      All-update (Rests tenant id) _ _ db.messages (λ m hit h e. not_own j m other hit e)

  merge_echo-Rests :
      (db : Db) (j : Job) (o : Option Message)
      → Resting db.messages
      → Resting (merge_echo db j o).messages
  unfolding Resting merge_echo
  merge_echo-Rests db j none h = h
  merge_echo-Rests db j (some e) h = All-delete (Rests tenant id) _ db.messages h

  mark_sent-Rests :
      (db : Db) (j : Job) (provider : ℕ) (ack : ℤ) (now : ℕ)
      → Elsewhere tenant id j
      → Resting db.messages
      → Resting (mark_sent db j provider ack now).messages
  unfolding Resting mark_sent
  mark_sent-Rests db j provider ack now other =
      All-update (Rests tenant id) _ _ db.messages (λ m hit h e. not_own j m other hit e)

  apply_early-Rests :
      (db : Db) (j : Job) (provider now : ℕ)
      → Resting db.messages
      → Resting (apply_early db j provider now).messages
  unfolding apply_early
  apply_early-Rests db j provider now h =
      elim (Option-cases (find (is_early j provider) db.early)) [
        | inl nothing ↦ rw (nothing, apply_early) h
        | inr (e, found) ↦
            rw (found, apply_early)
              (handle_ack-Rests (record db { early = delete (is_early j provider) db.early })
                j.tenant provider e.ack now h)
      ]

  pub settle-Rests :
      (db : Db) (j : Job) (reply : Reply) (now : ℕ)
      → Elsewhere tenant id j
      → Resting db.messages
      → Resting (settle db j reply now).messages
  unfolding settle record_sent reset_failures
  settle-Rests db j (confirmed provider ack) now other h =
      let echo = echo_of db j provider in
      apply_early-Rests (mark_sent (merge_echo db j echo) j provider (merged_ack ack echo) now) j
        provider now
        (mark_sent-Rests (merge_echo db j echo) j provider (merged_ack ack echo) now other
          (merge_echo-Rests db j echo h))
  settle-Rests db j unconfirmed now other h =
      record_failed-Rests db j false (text "Provider did not confirm delivery") now other h
  settle-Rests db j (threw offline words) now other h =
      record_failed-Rests db j offline words now other h

  publish_rows-messages :
      (connected : ℕ → ℕ → Bool) (now : ℕ) (rows : List Event) (s : Db × List ℕ)
      → (publish_rows connected now rows s).0.messages ≡ s.0.messages
  unfolding publish_rows mark_queued
  publish_rows-messages connected now [] s = refl
  publish_rows-messages connected now (row ∷ rows) (db, jobs) =
      publish_rows-messages connected now rows (
        if connected row.tenant row.session
        then (mark_queued db row now, add_job jobs row.message)
        else (db, jobs))
      ∙ ground arith

  pub publish_outbox-Rests :
      (connected : ℕ → ℕ → Bool) (db : Db) (jobs : List ℕ) (now : ℕ)
      → Resting db.messages
      → Resting (publish_outbox connected db jobs now).0.messages
  unfolding Resting publish_outbox recover_interrupted
  publish_outbox-Rests connected db jobs now h =
      rw
        (publish_rows-messages connected now (due_events (recover_interrupted db now) now)
          (recover_interrupted db now, jobs))
        (All-update (Rests tenant id) _ _ db.messages (λ m hit r e. (refl, (r e).1)) h)
