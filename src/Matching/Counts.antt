-- ===== src/Matching/Counts.antt =====
-- What a search over all listings answers.
use wppflow_backend.Common.{
  ℕ, ◌+◌, ◌≤◌, true, none, some, List, [], ◌∷◌, length, take, length-append, length-take_le, All,
  All-append, All-take, ◌≡◌, refl, arith, Bool-cases, inl, inr,
}
use wppflow_backend.Matching.Listing.{Prospect, Property, matchability}
use wppflow_backend.Matching.Evaluate.{Code, Check, fails, adds, evaluate}
use wppflow_backend.Matching.Promise.{Meets, is_match, evaluate-iff-Meets}
use wppflow_backend.Matching.Search.{
  Match, LeftOut, Tally, World, count_code, count_check, count_all, goes_first, insert,
  sort_matches, found, empty_tally, search_qualified, answer_for, match_properties,
}

abbrev pub sum_left : LeftOut → ℕ
sum_left l = l.currency + l.budget + l.bedrooms + l.type + l.area

-- All the candidates are matched or counted, and the matches meet the requirements.
record IsTally (w : World) (f : Prospect) (s : Tally) : Type 0 where
  whole : s.candidates ≡ length s.matches + sum_left s.left_out
  right : All (λ m. Meets w.normal f m.property) s.matches

count_code_whole :
    (c : Code) (s : Tally)
    → s.candidates ≡ length s.matches + sum_left s.left_out
    → let t = count_code c s in
      (t.candidates ≡ length t.matches + sum_left t.left_out) × (t.matches ≡ s.matches)
unfolding count_code
count_code_whole c s h = ground arith

count_check-IsTally :
    (w : World) (f : Prospect) (p : Property) (c : Check) (s : Tally)
    → (is_match c ≡ true → Meets w.normal f p)
    → IsTally w f s
    → IsTally w f (count_check w p c s)
unfolding count_check is_match
count_check-IsTally w f p (fails c) s meets t =
    let (whole, same) = count_code_whole c s t.whole in
    record { whole = whole; right = rw same t.right }
count_check-IsTally w f p (adds r n) s meets t = record {
  whole = omega (arith, t.whole, length-append s.matches (_ ∷ []));
  right = All-append (λ m. Meets w.normal f m.property) s.matches (_ ∷ []) t.right (meets refl, tt);
}

count_all-IsTally :
    (w : World) (f : Prospect) (ps : List Property) (s : Tally)
    → IsTally w f s
    → IsTally w f (count_all w f ps s)
unfolding count_all
count_all-IsTally w f [] s t = t
count_all-IsTally w f (p ∷ ps) s t = count_all-IsTally w f ps _ (
    count_check-IsTally w f p (evaluate w.normal f p w.now w.freshness) s
      (evaluate-iff-Meets w.normal f p w.now w.freshness).0 t)

All-insert :
    (P : Match → Type 0) (w : World) (m : Match) (ms : List Match)
    → P m
    → All P ms
    → All P (insert w m ms)
unfolding insert
All-insert P w m [] h hs = (h, tt)
All-insert P w m (n ∷ ns) h (g, gs) = elim (Bool-cases (goes_first w m n)) [
  | inl first ↦ rw first (h, (g, gs))
  | inr later ↦ rw later (g, All-insert P w m ns h gs)
]

All-sort_matches :
    (P : Match → Type 0) (w : World) (ms : List Match) → All P ms → All P (sort_matches w ms)
unfolding sort_matches
All-sort_matches P w [] h = tt
All-sort_matches P w (m ∷ ms) (h, hs) = All-insert P w m _ h (All-sort_matches P w ms hs)

-- What is shown of a search.
pub record IsAnswer (w : World) (f : Prospect) (ms : List Match) (total candidates : ℕ)
    (left : LeftOut) : Type 0 where
  pub whole : candidates ≡ total + sum_left left
  pub few : length ms ≤ w.limit
  pub right : All (λ m. Meets w.normal f m.property) ms

taken-IsAnswer :
    (w : World) (f : Prospect) (ps : List Property) (s : Tally)
    → IsTally w f s
    → IsAnswer w f
        (take w.limit (sort_matches w s.matches))
        (length s.matches)
        s.candidates
        s.left_out
taken-IsAnswer w f ps s t = record {
  whole = t.whole;
  few = length-take_le w.limit (sort_matches w s.matches);
  right =
      All-take (λ m. Meets w.normal f m.property) w.limit (sort_matches w s.matches)
        (All-sort_matches _ w s.matches t.right);
}

-- A search for a prospect who can be matched finds matches that all meet the prospect's requirements,
-- as many as the limit at most; and every listing it counts as a candidate either is among the total
-- or is counted under the one requirement that it failed.
pub match_properties-IsAnswer :
    (w : World) (f : Prospect) (ps : List Property)
    → matchability (some f) ≡ none
    → (ms : List Match) × (total : ℕ) × (candidates : ℕ) × (left : LeftOut) × (match_properties w
          (some f)
          ps
        ≡ found ms total candidates left)
      × IsAnswer w f ms total candidates left
unfolding match_properties answer_for search_qualified
match_properties-IsAnswer w f ps h =
    let start : IsTally w f empty_tally = record { whole = refl; right = tt } in
    let t = count_all-IsTally w f ps empty_tally start in
    (_, _, _, _, rw h refl, taken-IsAnswer w f ps (count_all w f ps empty_tally) t)
