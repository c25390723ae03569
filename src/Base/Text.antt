-- ===== src/Base/Text.antt =====
-- Strings of the source as lists of code points, and what the source uses of Go's `strings`
-- package on them. A valid UTF-8 string and its code points determine one another, and byte order
-- and code point order agree.
use mautrix_teams.Base.Tests.{leb, ◌==◌, if◌then◌else◌, Bool-cases}
use Prim.Native.Nat.{ℕ, ◌+◌}
use Prim.Native.Char.{code}
use Prim.Native.String.{String}
use mathlib.Core.Path.{◌≡◌, refl}
use mathlib.Core.Logic.{◌↔◌, ◌⊎◌, inl, inr}
use mathlib.Core.Bool.{Bool, true, false, ◌&&◌, ◌||◌}
use mathlib.Core.Option.{Option, none, some}
use mathlib.Core.List.{List, [], ◌∷◌}
use native.Mathlib.Omega.{arith}

abbrev pub Text : Type 0
Text = List ℕ

-- The code points of a literal.
abbrev pub codes : String → Text
codes String.[] = []
codes (String.◌∷◌ c s) = code c ∷ codes s

infix 50 ◌≗◌
-- `a == b` on strings.
unfoldable pub ◌≗◌ : Text → Text → Bool
[] ≗ [] = true
[] ≗ (y ∷ ys) = false
(x ∷ xs) ≗ [] = false
(x ∷ xs) ≗ (y ∷ ys) = x == y && xs ≗ ys

pub ≗_iff : (a b : Text) → ((a ≗ b) ≡ true) ↔ (a ≡ b)
unfolding ◌≗◌
≗_iff [] [] = ground arith
≗_iff [] (y ∷ ys) = ground arith
≗_iff (x ∷ xs) [] = ground arith
≗_iff (x ∷ xs) (y ∷ ys) = ground (arith, ≗_iff xs ys)

pub ≗_refl : (a : Text) → (a ≗ a) ≡ true
≗_refl a = (≗_iff a a).1 refl

abbrev pub is_empty : Text → Bool
is_empty [] = true
is_empty (c ∷ s) = false

-- `unicode.IsSpace`.
unfoldable pub is_space : ℕ → Bool
is_space c =
    (leb 9 c && leb c 13)
    || c == 32
    || c == 0x85
    || c == 0xa0
    || c == 0x1680
    || (leb 0x2000 c && leb c 0x200a)
    || c == 0x2028
    || c == 0x2029
    || c == 0x202f
    || c == 0x205f
    || c == 0x3000

unfoldable pub trim_left : Text → Text
trim_left [] = []
trim_left (c ∷ s) = if is_space c then trim_left s else c ∷ s

unfoldable pub trim_right : Text → Text
trim_right [] = []
trim_right (c ∷ s) = let rest = trim_right s in if is_empty rest && is_space c then [] else c ∷ rest

-- `strings.TrimSpace`.
unfoldable pub trim_space : Text → Text
unfolding trim_left trim_right is_space
trim_space s = trim_right (trim_left s)

-- `strings.HasPrefix s p`, and `strings.Contains s p`.
unfoldable pub has_prefix : Text → Text → Bool
has_prefix s [] = true
has_prefix [] (p ∷ ps) = false
has_prefix (c ∷ s) (p ∷ ps) = c == p && has_prefix s ps

unfoldable pub contains : Text → Text → Bool
unfolding has_prefix
contains [] p = has_prefix [] p
contains (c ∷ s) p = has_prefix (c ∷ s) p || contains s p

-- `strings.Index s p`, with the text before the match and the text after it.
unfoldable pub drop_prefix : Text → Text → Text
drop_prefix s [] = s
drop_prefix [] (p ∷ ps) = []
drop_prefix (c ∷ s) (p ∷ ps) = drop_prefix s ps

-- `strings.Cut s p`.
unfoldable pub cut : Text → Text → Option (Text × Text)
unfolding has_prefix drop_prefix
cut [] p = if has_prefix [] p then some ([], []) else none
cut (c ∷ s) p =
    if has_prefix (c ∷ s) p
    then some ([], drop_prefix (c ∷ s) p)
    else elim (cut s p) [ none ↦ none | some (before, after) ↦ some (c ∷ before, after) ]

-- `unicode.ToLower` as far as comparing its result with an ASCII text can tell: the capitals, and
-- the two other code points whose lower case is ASCII.
unfoldable pub lower : ℕ → ℕ
lower c =
    if leb b'A' c && leb c b'Z'
    then c + 32
    else if c == 0x212a
    then b'k'
    else if c == 0x130
    then b'i'
    else c

-- One code point of a class of Unicode simple folding, as far as an ASCII text can tell.
unfoldable pub fold : ℕ → ℕ
fold c =
    if leb b'A' c && leb c b'Z'
    then c + 32
    else if c == 0x212a
    then b'k'
    else if c == 0x17f
    then b's'
    else c

unfoldable pub to_lower : Text → Text
unfolding lower
to_lower [] = []
to_lower (c ∷ s) = lower c ∷ to_lower s

unfoldable pub fold_all : Text → Text
unfolding fold
fold_all [] = []
fold_all (c ∷ s) = fold c ∷ fold_all s

-- `strings.EqualFold s t`, where one of the two is ASCII.
unfoldable pub equal_fold : Text → Text → Bool
unfolding fold_all ◌≗◌
equal_fold s t = fold_all s ≗ fold_all t

trims : trim_space (codes "  a b ") ≡ codes "a b"
unfolding trim_space
trims = refl

cuts : cut (codes "12;34;x") (codes ";") ≡ some (codes "12", codes "34;x")
unfolding cut
cuts = refl

folds : equal_fold (codes "Control/Typing") (codes "control/typing") ≡ true
unfolding equal_fold
folds = refl

trim_left-head :
    (s : Text)
    → (trim_left s ≡ []) ⊎ ((c : ℕ) × (r : Text) × (trim_left s ≡ c ∷ r) × (is_space c ≡ false))
unfolding trim_left
trim_left-head [] = inl refl
trim_left-head (c ∷ s) = elim (Bool-cases (is_space c)) [
  | inl h ↦ rw h (trim_left-head s)
  | inr h ↦ inr (c, s, rw h, h)
]

pub trim_right_idem : (s : Text) → trim_right (trim_right s) ≡ trim_right s
unfolding trim_right
trim_right_idem [] = refl
trim_right_idem (c ∷ s) = ground (arith, trim_right_idem s)

pub trim_space_idem : (s : Text) → trim_space (trim_space s) ≡ trim_space s
unfolding trim_space trim_left trim_right
trim_space_idem s = elim (trim_left-head s) [
  | inl e ↦ rw e refl
  | inr (c, r, e, h) ↦
      let solid : is_empty (trim_right r) && is_space c ≡ false = ground (arith, h) in
      let same : trim_right (trim_right r) ≡ trim_right r = trim_right_idem r in
      rw (e, solid, h, same, solid) refl
]
