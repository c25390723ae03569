-- ===== src/Model/Sequence/Order.antt =====
-- The order of sequence IDs.
use mautrix_teams.Base.{if◌then◌else◌, ltb, ℕ, ◌≡◌, refl, Option, none, some, [], ◌∷◌, arith}
use mautrix_teams.Base.Text.{Text}
use mautrix_teams.Base.Decimal.{parse_uint}
use mautrix_teams.Model.Sequence.{
  compare_numbers, Comparison, less, equal, greater, compare_texts, compare_parsed,
  compare_sequence_id,
}

abbrev pub flip : Comparison → Comparison
flip less = greater
flip equal = equal
flip greater = less

pub compare_texts-flip : (a b : Text) → compare_texts b a ≡ flip (compare_texts a b)
unfolding compare_texts
compare_texts-flip [] [] = refl
compare_texts-flip [] (y ∷ ys) = refl
compare_texts-flip (x ∷ xs) [] = refl
compare_texts-flip (x ∷ xs) (y ∷ ys) = ground (arith, compare_texts-flip xs ys)

compare_parsed-flip :
    (m n : Option ℕ) (a b : Text) → compare_parsed n m b a ≡ flip (compare_parsed m n a b)
unfolding compare_parsed
compare_parsed-flip (some m) (some n) a b = ground arith
compare_parsed-flip (some m) none a b = compare_texts-flip a b
compare_parsed-flip none (some n) a b = compare_texts-flip a b
compare_parsed-flip none none a b = compare_texts-flip a b

-- Swapping the two IDs turns the result round, whatever they are.
pub compare_sequence_id-flip :
    (a b : Text) → compare_sequence_id b a ≡ flip (compare_sequence_id a b)
unfolding compare_sequence_id
compare_sequence_id-flip a b = compare_parsed-flip (parse_uint a) (parse_uint b) a b

-- Decimal IDs are compared as numbers.
pub compare_sequence_id-decimal :
    (a b : Text) (m n : ℕ)
    → parse_uint a ≡ some m
    → parse_uint b ≡ some n
    → compare_sequence_id a b ≡ (if ltb m n then less else if ltb n m then greater else equal)
unfolding compare_sequence_id compare_parsed compare_numbers
compare_sequence_id-decimal a b m n is_m is_n = rw (is_m, is_n) refl
