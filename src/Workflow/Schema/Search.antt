-- ===== src/Workflow/Schema/Search.antt =====
-- `walk` itself: what it has shown when it ends well.
use wppflow_backend.Common.{
  ℕ, zero, suc, ◌≤◌, true, ◌≡◌, refl, sym, ◌∙◌, inl, inr, Option, none, some, [], ◌∷◌, Text,
  text_eq, text_eq_iff, text_eq_refl, is_some, length, count_if-le-length, All, arith, Bool-cases,
  Option-cases,
}
use wppflow_backend.Workflow.Node.{Node, get, edges_of}
use wppflow_backend.Workflow.Schema.Graph.{Nodes}
use wppflow_backend.Workflow.Schema.Walk.{
  Color, on_trail, walked, Colors, Walk, fine, circle, lost, tired, ◌>>=◌, walk_all, walk,
}
use wppflow_backend.Workflow.Schema.Sound.{
  Goes, Within, All-Goes, Within-mono, tally, tally_mono, tally_strict, is_walked, Good, Whole,
  Post, Walked, Walks, bind-fine, walk_all-Post, Post-refl,
}

-- A step joins the trail, its arrows are walked, and it leaves the trail.
module _ (nodes : Nodes) (st : Colors) (id : Text) (n : Node) (st2 : Colors)
    (white : get id st ≡ none) (here : get id nodes ≡ some n)
    (p : Post nodes ((id, on_trail) ∷ st) st2) (below : All (Goes (Walked st2)) (edges_of n)) where
  keeps : (j : Text) (c : Color) → get j st ≡ some c → get j st2 ≡ some c
  keeps j c e = ground (arith, text_eq_iff id j, p.stays j c)

  keeps_after : (j : Text) (c : Color) → get j st ≡ some c → get j ((id, walked) ∷ st2) ≡ some c
  keeps_after j c e = ground (arith, text_eq_iff id j, keeps j c)

  gray : get id st2 ≡ some on_trail
  gray = p.stays id on_trail (rw (text_eq_refl id))

  trail_after : (j : Text) → get j ((id, walked) ∷ st2) ≡ some on_trail → get j st ≡ some on_trail
  trail_after j e = ground (arith, text_eq_iff id j, p.trail j)

  -- The step that was walked last was not walked before.
  more_walked : suc (tally (is_walked st2) nodes) ≤ tally (is_walked ((id, walked) ∷ st2)) nodes
  more_walked =
      tally_strict (is_walked st2) (is_walked ((id, walked) ∷ st2)) nodes id n here
        (λ k h. ground (arith, text_eq_iff id k)) (ground (arith, gray))
        (ground (arith, text_eq_refl id))

  Good-mid : Good nodes st → Good nodes ((id, on_trail) ∷ st)
  Good-mid h j e =
      Within-mono nodes (tally (is_walked st) nodes) (tally (is_walked ((id, on_trail) ∷ st)) nodes)
        j
        (tally_mono (is_walked st) (is_walked ((id, on_trail) ∷ st)) nodes
          (λ k w. ground (arith, text_eq_iff id k)))
        (h j (ground (arith, text_eq_iff id j)))

  Good-after : Good nodes st → Good nodes ((id, walked) ∷ st2)
  Good-after h j e =
      let good : Good nodes st2 = p.good (Good-mid h) in
      elim (Bool-cases (text_eq id j)) [
        | inl same ↦
            let q : id ≡ j = (text_eq_iff id j).0 same in
            rw (← q) (
              Within-mono nodes (suc (tally (is_walked st2) nodes)) _ id more_walked
                (n, here, All-Goes (Walked st2) _ (edges_of n) good below))
        | inr other ↦
            Within-mono nodes (tally (is_walked st2) nodes) _ j (omega (arith, more_walked))
              (good j (ground arith))
      ]

  walked_on : (st1 : Colors) (j : Text) → Walked st1 j → Walked ((id, walked) ∷ st1) j
  walked_on st1 j h = ground (arith, text_eq_iff id j)

  Whole-mid : Whole nodes st → Whole nodes ((id, on_trail) ∷ st)
  Whole-mid h j m w e =
      All-Goes (Walked st) (Walked ((id, on_trail) ∷ st)) (edges_of m)
        (λ t q. ground (arith, text_eq_iff id t)) (h j m (ground (arith, text_eq_iff id j)) e)

  Whole-after : Whole nodes st → Whole nodes ((id, walked) ∷ st2)
  Whole-after h j m w e =
      All-Goes (Walked st2) _ (edges_of m) (walked_on st2) (elim (Bool-cases (text_eq id j)) [
        | inl same ↦
            let q : id ≡ j = (text_eq_iff id j).0 same in let m-eq : n ≡ m = cc in rw (← m-eq) below
        | inr other ↦ p.whole (Whole-mid h) j m (ground arith) e
      ])

  closes : Post nodes st ((id, walked) ∷ st2) × Walked ((id, walked) ∷ st2) id
  closes = (
    record { stays = keeps_after; trail = trail_after; good = Good-after; whole = Whole-after },
    rw (text_eq_refl id),
  )

-- What a step that is new comes to, by what the flow has under its name.
unfoldable pub walk_node : ℕ → Nodes → Colors → Text → Option Node → Walk
walk_node fuel nodes st id none = lost id
walk_node fuel nodes st id (some n) =
    walk_all (walk fuel nodes) id ((id, on_trail) ∷ st) (edges_of n) >>= λ st'.
    fine ((id, walked) ∷ st')

pub walk-suc :
    (fuel : ℕ) (nodes : Nodes) (st : Colors) (from id : Text)
    → get id st ≡ none
    → walk (suc fuel) nodes st from id ≡ walk_node fuel nodes st id (get id nodes)
unfolding walk walk_node
walk-suc fuel nodes st from id white = rw (white, walk) (ground arith)

walk_node-Post :
    (fuel : ℕ) (nodes : Nodes) (st : Colors) (id : Text) (o : Option Node) (st' : Colors)
    → Walks nodes (walk fuel nodes)
    → get id st ≡ none
    → get id nodes ≡ o
    → walk_node fuel nodes st id o ≡ fine st'
    → Post nodes st st' × Walked st' id
unfolding walk_node
walk_node-Post fuel nodes st id none st' ih white here e = cc
walk_node-Post fuel nodes st id (some n) st' ih white here e =
    let (st2, all_fine, last) = bind-fine (walk_all _ id _ (edges_of n)) _ e in
    let (p, below) = walk_all-Post nodes (walk fuel nodes) ih id _ (edges_of n) st2 all_fine in
    let same : ((id, walked) ∷ st2) ≡ st' = cc in
    rw (← same) (closes nodes st id n st2 white here p below)

-- A step that has a colour is not walked again.
pub walk_colored :
    (fuel : ℕ) (nodes : Nodes) (st : Colors) (from id : Text) (c : Color)
    → get id st ≡ some c
    → walk fuel nodes st from id ≡ elim c [ walked ↦ fine st | on_trail ↦ circle from id ]
unfolding walk
walk_colored zero nodes st from id on_trail e = rw (e, walk)
walk_colored zero nodes st from id walked e = rw (e, walk)
walk_colored (suc fuel) nodes st from id on_trail e = rw (e, walk)
walk_colored (suc fuel) nodes st from id walked e = rw (e, walk)

pub walk-tired :
    (nodes : Nodes) (st : Colors) (from id : Text)
    → get id st ≡ none
    → walk zero nodes st from id ≡ tired
unfolding walk
walk-tired nodes st from id e = rw (e, walk)

colored-Post :
    (nodes : Nodes) (st : Colors) (from id : Text) (st' : Colors) (c : Color)
    → get id st ≡ some c
    → elim c [ walked ↦ fine st | on_trail ↦ circle from id ] ≡ fine st'
    → Post nodes st st' × Walked st' id
colored-Post nodes st from id st' on_trail here e = cc
colored-Post nodes st from id st' walked here e =
    let same : st ≡ st' = cc in rw (← same) (Post-refl nodes st, here)

-- A search that finds no circle keeps what is known, and has walked its step.
pub walk-Walks : (fuel : ℕ) (nodes : Nodes) → Walks nodes (walk fuel nodes)
walk-Walks zero nodes st from id st' e = elim (Option-cases (get id st)) [
  | inl white ↦ absurd (cc (walk-tired nodes st from id white))
  | inr (c, here) ↦
      colored-Post nodes st from id st' c here (sym (walk_colored 0 nodes st from id c here) ∙ e)
]
walk-Walks (suc fuel) nodes st from id st' e = elim (Option-cases (get id st)) [
  | inl white ↦
      walk_node-Post fuel nodes st id (get id nodes) st' (walk-Walks fuel nodes) white refl
        (sym (walk-suc fuel nodes st from id white) ∙ e)
  | inr (c, here) ↦
      colored-Post nodes st from id st' c here
        (sym (walk_colored (suc fuel) nodes st from id c here) ∙ e)
]

pub no_trail :
    (fuel : ℕ) (nodes : Nodes) (start : Text) (st : Colors)
    → walk fuel nodes [] [] start ≡ fine st
    → (id : Text) → is_some (get id st) ≡ true
    → Walked st id
no_trail fuel nodes start st e id h =
    let (p, w) = walk-Walks fuel nodes [] [] start st e in
    elim (Option-cases (get id st)) [
      | inl white ↦ ground arith
      | inr (on_trail, c) ↦ cc (p.trail id c)
      | inr (walked, c) ↦ c
    ]

-- When the search from the first step finds no circle, every step that it walked has no way from it
-- that is longer than the number of steps.
pub walk-Within :
    (fuel : ℕ) (nodes : Nodes) (start : Text) (st : Colors)
    → walk fuel nodes [] [] start ≡ fine st
    → (id : Text) → is_some (get id st) ≡ true
    → Within nodes (length nodes) id
walk-Within fuel nodes start st e id h =
    let (p, w) = walk-Walks fuel nodes [] [] start st e in
    let good : Good nodes st = p.good (λ j q. cc) in
    Within-mono nodes (tally (is_walked st) nodes) (length nodes) id (count_if-le-length _ nodes)
      (good id (no_trail fuel nodes start st e id h))

-- ... and the steps that follow it were walked too.
pub walk-Whole :
    (fuel : ℕ) (nodes : Nodes) (start : Text) (st : Colors)
    → walk fuel nodes [] [] start ≡ fine st
    → Whole nodes st
walk-Whole fuel nodes start st e =
    let (p, w) = walk-Walks fuel nodes [] [] start st e in p.whole (λ j m q. cc)

pub walk-Walked :
    (fuel : ℕ) (nodes : Nodes) (start : Text) (st : Colors)
    → walk fuel nodes [] [] start ≡ fine st
    → Walked st start
walk-Walked fuel nodes start st e = let (p, w) = walk-Walks fuel nodes [] [] start st e in w
