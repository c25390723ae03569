-- ===== src/Base/Decimal.antt =====
-- What the source uses of Go's `strconv`: `ParseUint`, `ParseInt` and `Itoa` in base 10.
use mautrix_teams.Base.Tests.{Bool-cases, leb, ◌==◌, if◌then◌else◌}
use mautrix_teams.Base.Int.{ℤ, pos, negsuc}
use mautrix_teams.Base.Text.{is_space, trim_space, trim_left, trim_right, is_empty, Text, codes}
use Prim.Native.Nat.{ℕ, zero, suc, ◌+◌, ◌-◌, ◌*◌, ◌/◌, ◌%◌, ◌^◌, ◌≤◌, ◌<◌}
use mathlib.Core.Path.{◌≡◌, refl}
use mathlib.Core.Logic.{inl, inr}
use mathlib.Core.Bool.{Bool, true, false, not, ◌&&◌}
use mathlib.Core.Option.{Option, none, some}
use mathlib.Core.List.{[], ◌∷◌}
use native.Mathlib.Omega.{arith}

-- The digits of a number, with the bound of the type that it is parsed into.
scan : ℕ → Text → ℕ → Option ℕ
scan bound [] n = some n
scan bound (c ∷ s) n =
    let m = n * 10 + (c - b'0') in
    if (leb b'0' c && leb c b'9') && leb m bound then scan bound s m else none

unfoldable pub parse_bounded : ℕ → Text → Option ℕ
unfolding scan
parse_bounded bound [] = none
parse_bounded bound (c ∷ s) = scan bound (c ∷ s) 0

-- strconv.ParseUint(s, 10, 64); `none` is an error.
unfoldable pub parse_uint : Text → Option ℕ
unfolding parse_bounded
parse_uint s = parse_bounded (2 ^ 64 - 1) s

negated : Option ℕ → Option ℤ
negated none = none
negated (some zero) = some (pos 0)
negated (some (suc n)) = some (negsuc n)

positive : Option ℕ → Option ℤ
positive none = none
positive (some n) = some (pos n)

-- strconv.ParseInt(s, 10, 64).
unfoldable pub parse_int : Text → Option ℤ
unfolding parse_bounded negated positive
parse_int [] = none
parse_int (c ∷ s) =
    if c == b'-'
    then negated (parse_bounded (2 ^ 63) s)
    else if c == b'+'
    then positive (parse_bounded (2 ^ 63 - 1) s)
    else positive (parse_bounded (2 ^ 63 - 1) (c ∷ s))

-- The digits of `n` before `out`; a number has at most as many digits as it counts.
digits : ℕ → ℕ → Text → Text
digits zero n out = out
digits (suc fuel) n out =
    let more = digits fuel (n / 10) ((b'0' + n % 10) ∷ out) in if n == 0 then out else more

-- strconv.Itoa, of a number that is not negative.
unfoldable pub itoa : ℕ → Text
unfolding digits
itoa n = if n == 0 then codes "0" else digits n n []

prints : itoa 1203 ≡ codes "1203"
unfolding itoa
prints = refl

parses : parse_int (codes "-12") ≡ some (negsuc 11)
unfolding parse_int
parses = refl

scan-le : (bound : ℕ) (s : Text) (n r : ℕ) → n ≤ bound → scan bound s n ≡ some r → r ≤ bound
unfolding scan
scan-le bound [] n r h e = ground arith
scan-le bound (c ∷ s) n r h e = ground (arith, scan-le bound s (n * 10 + (c - b'0')) r)

pub parse_uint-lt : (s : Text) (n : ℕ) → parse_uint s ≡ some n → n < 2 ^ 64
unfolding parse_uint
parse_uint-lt [] n h = ground arith
parse_uint-lt (c ∷ s) n h = omega (arith, scan-le (2 ^ 64 - 1) (c ∷ s) 0 n (omega arith) h)

-- The first character is no space.
abbrev starts_solid : Text → Bool
starts_solid [] = false
starts_solid (c ∷ s) = not (is_space c)

digit-solid : (d : ℕ) → d < 10 → is_space (b'0' + d) ≡ false
unfolding is_space
digit-solid d h = ground arith

digits-solid :
    (fuel n : ℕ) (out : Text) → starts_solid out ≡ true → starts_solid (digits fuel n out) ≡ true
unfolding digits
digits-solid zero n out h = h
digits-solid (suc fuel) n out h = elim (Bool-cases (n == 0)) [
  | inl e ↦ rw e h
  | inr e ↦ rw e (
      digits-solid fuel (n / 10) ((b'0' + n % 10) ∷ out)
        (rw (digit-solid (n % 10) (omega arith)) refl))
]

itoa-starts : (n : ℕ) → starts_solid (itoa n) ≡ true
unfolding itoa digits is_space
itoa-starts zero = refl
itoa-starts (suc n) =
    let e : (suc n == 0) ≡ false = ground arith in
    rw e (
      digits-solid n (suc n / 10) ((b'0' + suc n % 10) ∷ [])
        (rw (digit-solid (suc n % 10) (omega arith)) refl))

trim_right-solid : (s : Text) → starts_solid s ≡ true → is_empty (trim_right s) ≡ false
unfolding trim_right
trim_right-solid [] h = cc
trim_right-solid (c ∷ s) h = ground (arith, h)

trim_left-solid : (s : Text) → starts_solid s ≡ true → trim_left s ≡ s
unfolding trim_left
trim_left-solid [] h = refl
trim_left-solid (c ∷ s) h = ground (arith, h)

-- A printed number is no blank text.
pub trim_space-itoa : (n : ℕ) → is_empty (trim_space (itoa n)) ≡ false
unfolding trim_space
trim_space-itoa n =
    rw (trim_left-solid (itoa n) (itoa-starts n)) (trim_right-solid (itoa n) (itoa-starts n))
