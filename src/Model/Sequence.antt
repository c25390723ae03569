-- ===== src/Model/Sequence.antt =====
-- `CompareSequenceID` of internal/teams/model/message.go.
pub mod Order
use mautrix_teams.Base.{ℕ, ◌≡◌, refl, Option, none, some, ltb, [], ◌∷◌, if◌then◌else◌, ◌==◌}
use mautrix_teams.Base.Text.{Text, codes}
use mautrix_teams.Base.Decimal.{parse_uint}

-- The results -1, 0 and 1.
pub data Comparison : Type 0 where
  less equal greater : Comparison

unfoldable pub compare_numbers : ℕ → ℕ → Comparison
compare_numbers a b = if ltb a b then less else if ltb b a then greater else equal

-- strings.Compare.
unfoldable pub compare_texts : Text → Text → Comparison
compare_texts [] [] = equal
compare_texts [] (y ∷ ys) = less
compare_texts (x ∷ xs) [] = greater
compare_texts (x ∷ xs) (y ∷ ys) =
    if ltb x y then less else if ltb y x then greater else compare_texts xs ys

compare_parsed : Option ℕ → Option ℕ → Text → Text → Comparison
unfolding compare_numbers
compare_parsed (some m) (some n) a b = compare_numbers m n
compare_parsed (some m) none a b = compare_texts a b
compare_parsed none o a b = compare_texts a b

unfoldable pub compare_sequence_id : Text → Text → Comparison
unfolding compare_parsed
compare_sequence_id a b = compare_parsed (parse_uint a) (parse_uint b) a b

by_value : compare_sequence_id (codes "9") (codes "10") ≡ less
unfolding compare_sequence_id parse_uint
by_value = refl
