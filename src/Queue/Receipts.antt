-- ===== src/Queue/Receipts.antt =====
-- Receipts may come in any order, more than once, and before the send is known.
use wppflow_backend.Common.{
  ℕ, Bool, true, false, none, List, [], ◌∷◌, map, if◌then◌else◌, find, ◌≡◌, refl, sym, ◌∙◌, arith,
  Bool-cases, Option-cases, inl, inr,
}
use wppflow_backend.Common.Int.{ℤ, pos, negsuc, leb_ℤ, max_ℤ}
use wppflow_backend.Queue.Tables.{Message, Db, update}
use wppflow_backend.Queue.Ack.{moves, acked, status_of, apply_ack, early_ack, handle_ack}

-- One row under a receipt.
abbrev pub row_after : ℕ → ℕ → ℤ → ℕ → Message → Message
row_after tenant provider ack now m = if moves tenant provider ack m then acked ack now m else m

update-none :
    {A : Type 0} (p : A → Bool) (f : A → A) (xs : List A) → find p xs ≡ none → update p f xs ≡ xs
update-none p f [] h = refl
update-none p f (x ∷ xs) h = ground (arith, update-none p f xs)

early_ack-messages :
    (db : Db) (tenant provider : ℕ) (ack : ℤ)
    → (early_ack db tenant provider ack).messages ≡ db.messages
unfolding early_ack
early_ack-messages db tenant provider ack = ground arith

-- Whether a receipt moves a message or not, the rows are those of its UPDATE.
pub handle_ack-messages :
    (db : Db) (tenant provider : ℕ) (ack : ℤ) (now : ℕ)
    → (handle_ack db tenant provider ack now).0.messages
      ≡ update (moves tenant provider ack) (acked ack now) db.messages
unfolding handle_ack apply_ack
handle_ack-messages db tenant provider ack now =
    elim (Option-cases (find (moves tenant provider ack) db.messages)) [
      | inl nothing ↦
          rw (nothing, handle_ack)
            (early_ack-messages db tenant provider ack
              ∙ sym (update-none (moves tenant provider ack) (acked ack now) db.messages nothing))
      | inr (m, found) ↦ rw (found, handle_ack)
    ]

-- The acknowledgement of a row does not fall.
abbrev pub Grows : List Message → List Message → Type 0
Grows [] [] = Unit
Grows (m ∷ ms) (n ∷ ns) = (m.id ≡ n.id) × (leb_ℤ m.ack n.ack ≡ true) × Grows ms ns
Grows _ _ = ⊥

leb_max : (a b : ℤ) → leb_ℤ a (max_ℤ a b) ≡ true
leb_max (pos a) (pos b) = ground arith
leb_max (pos a) (negsuc b) = ground arith
leb_max (negsuc a) (pos b) = ground arith
leb_max (negsuc a) (negsuc b) = ground arith

leb_refl : (a : ℤ) → leb_ℤ a a ≡ true
leb_refl (pos a) = ground arith
leb_refl (negsuc a) = ground arith

row_grows :
    (tenant provider : ℕ) (ack : ℤ) (now : ℕ) (m : Message)
    → let n = row_after tenant provider ack now m in (m.id ≡ n.id) × (leb_ℤ m.ack n.ack ≡ true)
unfolding moves acked
row_grows tenant provider ack now m = elim (Bool-cases (moves tenant provider ack m)) [
  | inl hit ↦ rw hit (refl, leb_max m.ack ack)
  | inr miss ↦ rw miss (refl, leb_refl m.ack)
]

-- Acknowledgements only grow, row by row, and no row is lost.
pub handle_ack-Grows :
    (db : Db) (tenant provider : ℕ) (ack : ℤ) (now : ℕ)
    → Grows db.messages (handle_ack db tenant provider ack now).0.messages
handle_ack-Grows db tenant provider ack now = rw handle_ack-messages (grows_rows db.messages)
  where
    grows_rows :
        (ms : List Message) → Grows ms (update (moves tenant provider ack) (acked ack now) ms)
    grows_rows [] = tt
    grows_rows (m ∷ ms) =
        let (same, le) = row_grows tenant provider ack now m in (same, le, grows_rows ms)

-- A row without the time of its last change.
abbrev pub untimed : Message → Message
untimed m = record m { updated_at = 0 }

row_comm :
    (t p a u t' p' b v : ℕ) (m : Message)
    → untimed (row_after t p (pos a) u (row_after t' p' (pos b) v m))
      ≡ untimed (row_after t' p' (pos b) v (row_after t p (pos a) u m))
unfolding moves acked status_of
row_comm t p a u t' p' b v m = ground arith

row_twice :
    (tenant provider a now : ℕ) (m : Message)
    → moves tenant provider (pos a) (row_after tenant provider (pos a) now m) ≡ false
unfolding moves acked status_of
row_twice tenant provider a now m = ground arith

rows_comm :
    (t p a u t' p' b v : ℕ) (ms : List Message)
    → map untimed (
        update
          (moves t p (pos a))
          (acked (pos a) u)
          (update (moves t' p' (pos b)) (acked (pos b) v) ms))
      ≡ map untimed (
          update
            (moves t' p' (pos b))
            (acked (pos b) v)
            (update (moves t p (pos a)) (acked (pos a) u) ms))
rows_comm t p a u t' p' b v [] = refl
rows_comm t p a u t' p' b v (m ∷ ms) =
    cc (row_comm t p a u t' p' b v m, rows_comm t p a u t' p' b v ms)

rows_twice :
    (tenant provider a now : ℕ) (ms : List Message)
    → find
        (moves tenant provider (pos a))
        (update (moves tenant provider (pos a)) (acked (pos a) now) ms)
      ≡ none
rows_twice tenant provider a now [] = refl
rows_twice tenant provider a now (m ∷ ms) =
    rw (row_twice tenant provider a now m) (rows_twice tenant provider a now ms)

-- Two receipts that are not failures, of any two messages and at any two times, leave the same messages
-- in either order, but for the times at which the rows were last changed.
pub handle_ack_comm :
    (db : Db) (t p a u t' p' b v : ℕ)
    → map untimed (handle_ack (handle_ack db t' p' (pos b) v).0 t p (pos a) u).0.messages
      ≡ map untimed (handle_ack (handle_ack db t p (pos a) u).0 t' p' (pos b) v).0.messages
handle_ack_comm db t p a u t' p' b v =
    rw
      (
        handle_ack-messages (handle_ack db t' p' (pos b) v).0 t p (pos a) u,
        handle_ack-messages db t' p' (pos b) v,
        handle_ack-messages (handle_ack db t p (pos a) u).0 t' p' (pos b) v,
        handle_ack-messages db t p (pos a) u,
      )
      (rows_comm t p a u t' p' b v db.messages)

unmoved :
    (db : Db) (tenant provider : ℕ) (ack : ℤ) (now : ℕ)
    → find (moves tenant provider ack) db.messages ≡ none
    → (handle_ack db tenant provider ack now).1 ≡ none
unfolding handle_ack
unmoved db tenant provider ack now nothing = rw (nothing, handle_ack) refl

-- A receipt that is not a failure moves no message the second time.
pub handle_ack-twice :
    (db : Db) (tenant provider a now : ℕ)
    → (handle_ack (handle_ack db tenant provider (pos a) now).0 tenant provider (pos a) now).1
      ≡ none
handle_ack-twice db tenant provider a now =
    unmoved (handle_ack db tenant provider (pos a) now).0 tenant provider (pos a) now (
      rw (handle_ack-messages db tenant provider (pos a) now)
        (rows_twice tenant provider a now db.messages))
