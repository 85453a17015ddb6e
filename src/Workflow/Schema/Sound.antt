-- ===== src/Workflow/Schema/Sound.antt =====
-- What a search for circles that finds none has shown: from every step that it walked, every way
-- through the flow has at most as many steps as the flow.
use wppflow_backend.Common.{
  ℕ, zero, suc, ◌+◌, ◌≤◌, Bool, true, false, ◌≡◌, refl, inl, inr, Option, none, some, List, [], ◌∷◌,
  Text, text_eq, text_eq_iff, count_if, All, arith, Bool-cases,
}
use wppflow_backend.Workflow.Node.{Node, get, edges_of}
use wppflow_backend.Workflow.Schema.Graph.{Nodes}
use wppflow_backend.Workflow.Schema.Walk.{
  Color, on_trail, walked, Colors, Walk, fine, circle, lost, tired, ◌>>=◌, along, walk_all,
}

-- What holds of an arrow's end, if it has one.
abbrev pub Goes : (Text → Type 0) → Option Text → Type 0
Goes P none = Unit
Goes P (some []) = Unit
Goes P (some (c ∷ s)) = P (c ∷ s)

-- Every way from a step has at most `k` steps, and each of them is a step of the flow.
abbrev pub Within : Nodes → ℕ → Text → Type 0
Within nodes zero id = ⊥
Within nodes (suc k) id =
    (n : Node) × (get id nodes ≡ some n) × All (Goes (Within nodes k)) (edges_of n)

pub All-Goes :
    (P Q : Text → Type 0) (es : List (Option Text))
    → ((t : Text) → P t → Q t)
    → All (Goes P) es
    → All (Goes Q) es
All-Goes P Q [] f h = tt
All-Goes P Q (none ∷ es) f h = (tt, All-Goes P Q es f h.1)
All-Goes P Q (some [] ∷ es) f h = (tt, All-Goes P Q es f h.1)
All-Goes P Q (some (c ∷ s) ∷ es) f h = (f (c ∷ s) h.0, All-Goes P Q es f h.1)

Within-suc : (nodes : Nodes) (k : ℕ) (id : Text) → Within nodes k id → Within nodes (suc k) id
Within-suc nodes zero id h = absurd h
Within-suc nodes (suc k) id (n, e, h) = (n, e, All-Goes _ _ (edges_of n) (Within-suc nodes k) h)

Within-add : (nodes : Nodes) (d k : ℕ) (id : Text) → Within nodes k id → Within nodes (d + k) id
Within-add nodes zero k id h = rw (native.Mathlib.Nat.zero-add) h
Within-add nodes (suc d) k id h =
    rw (native.Mathlib.Nat.suc-add) (Within-suc nodes (d + k) id (Within-add nodes d k id h))

pub Within-mono :
    (nodes : Nodes) (k m : ℕ) (id : Text) → k ≤ m → Within nodes k id → Within nodes m id
Within-mono nodes k m id le h =
    let e : Prim.Native.Nat.◌-◌ m k + k ≡ m = omega arith in
    rw e at (Within-add nodes (Prim.Native.Nat.◌-◌ m k) k id h)

abbrev pub tally : (Text → Bool) → Nodes → ℕ
tally p nodes = count_if (λ e. p e.0) nodes

pub tally_mono :
    (p q : Text → Bool) (nodes : Nodes)
    → ((k : Text) → p k ≡ true → q k ≡ true)
    → tally p nodes ≤ tally q nodes
tally_mono p q [] f = omega arith
tally_mono p q ((k, n) ∷ nodes) f = ground (arith, f k, tally_mono p q nodes f)

pub tally_strict :
    (p q : Text → Bool) (nodes : Nodes) (id : Text) (n : Node)
    → get id nodes ≡ some n
    → ((k : Text) → p k ≡ true → q k ≡ true)
    → p id ≡ false
    → q id ≡ true
    → suc (tally p nodes) ≤ tally q nodes
tally_strict p q [] id n e f a b = cc
tally_strict p q ((k, m) ∷ nodes) id n e f a b = elim (Bool-cases (text_eq k id)) [
  | inl same ↦
      let k-eq : k ≡ id = (text_eq_iff k id).0 same in
      rw (k-eq, a, b) (omega (arith, tally_mono p q nodes f))
  | inr other ↦
      let e' : get id nodes ≡ some n = ground arith in
      ground (arith, f k, tally_strict p q nodes id n e' f a b)
]

abbrev pub is_walked : Colors → Text → Bool
is_walked st id = elim (get id st) [ some walked ↦ true | _ ↦ false ]

-- Every step that was walked has only short ways from it.
abbrev pub Good : Nodes → Colors → Type 0
Good nodes st = (id : Text) → get id st ≡ some walked → Within nodes (tally (is_walked st) nodes) id

abbrev pub Walked : Colors → Text → Type 0
Walked st t = get t st ≡ some walked

-- What follows a step that was walked was walked too.
abbrev pub Whole : Nodes → Colors → Type 0
Whole nodes st =
    (id : Text) (n : Node)
    → Walked st id
    → get id nodes ≡ some n
    → All (Goes (Walked st)) (edges_of n)

-- What a walk leaves: a colour never changes, the trail is as it was, and `Good` and
-- `Whole` are kept.
pub record Post (nodes : Nodes) (st st' : Colors) : Type 0 where
  pub stays : (id : Text) (c : Color) → get id st ≡ some c → get id st' ≡ some c
  pub trail : (id : Text) → get id st' ≡ some on_trail → get id st ≡ some on_trail
  pub good : Good nodes st → Good nodes st'
  pub whole : Whole nodes st → Whole nodes st'

pub Post-refl : (nodes : Nodes) (st : Colors) → Post nodes st st
Post-refl nodes st = record {
  stays = λ id c e. e;
  trail = λ id e. e;
  good = λ h. h;
  whole = λ h. h;
}

pub Post-trans : (nodes : Nodes) (a b c : Colors) → Post nodes a b → Post nodes b c → Post nodes a c
Post-trans nodes a b c p q = record {
  stays = λ id k e. q.stays id k (p.stays id k e);
  trail = λ id e. p.trail id (q.trail id e);
  good = λ h. q.good (p.good h);
  whole = λ h. q.whole (p.whole h);
}

-- What `walk` promises of a step, and `walk_all` of the arrows of a step.
abbrev pub Walks : Nodes → (Colors → Text → Text → Walk) → Type 0
Walks nodes call =
    (st : Colors) (from id : Text) (st' : Colors)
    → call st from id ≡ fine st'
    → Post nodes st st' × Walked st' id

pub along-Post :
    (nodes : Nodes) (call : Colors → Text → Text → Walk) (ih : Walks nodes call) (id : Text)
    (st : Colors) (to : Option Text) (st' : Colors)
    → along call id st to ≡ fine st'
    → Post nodes st st' × Goes (Walked st') to
along-Post nodes call ih id st none st' e =
    let same : st ≡ st' = cc in rw (← same) (Post-refl nodes st, tt)
along-Post nodes call ih id st (some []) st' e =
    let same : st ≡ st' = cc in rw (← same) (Post-refl nodes st, tt)
along-Post nodes call ih id st (some (c ∷ to)) st' e = ih st id (c ∷ to) st' e

pub bind-fine :
    (m : Walk) (f : Colors → Walk) {st' : Colors}
    → (m >>= f) ≡ fine st'
    → (st : Colors) × (m ≡ fine st) × (f st ≡ fine st')
bind-fine (fine st) f e = (st, refl, e)
bind-fine (circle a b) f e = cc
bind-fine (lost a) f e = cc
bind-fine tired f e = cc

Goes-later :
    (nodes : Nodes) (a b : Colors) (to : Option Text)
    → Post nodes a b
    → Goes (Walked a) to
    → Goes (Walked b) to
Goes-later nodes a b none p h = tt
Goes-later nodes a b (some []) p h = tt
Goes-later nodes a b (some (c ∷ s)) p h = p.stays (c ∷ s) walked h

pub walk_all-Post :
    (nodes : Nodes) (call : Colors → Text → Text → Walk) (ih : Walks nodes call) (id : Text)
    (st : Colors) (es : List (Option Text)) (st' : Colors)
    → walk_all call id st es ≡ fine st'
    → Post nodes st st' × All (Goes (Walked st')) es
unfolding walk_all
walk_all-Post nodes call ih id st [] st' e =
    let same : st ≡ st' = cc in rw (← same) (Post-refl nodes st, tt)
walk_all-Post nodes call ih id st (to ∷ es) st' e =
    let (mid, first, rest) = bind-fine (along call id st to) _ e in
    let (p, here) = along-Post nodes call ih id st to mid first in
    let (q, later) = walk_all-Post nodes call ih id mid es st' rest in
    (Post-trans nodes st mid st' p q, (Goes-later nodes mid st' to q here, later))
