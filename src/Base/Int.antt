-- ===== src/Base/Int.antt =====
-- Signed integers over the native numbers, and the machine integers of the source: an `int64` (a
-- `time.Duration`, a Unix time) is the integer that it stands for, and its operations wrap.
use mautrix_teams.Base.Tests.{ltb, leb, ◌==◌, if◌then◌else◌}
use Prim.Native.Nat.{ℕ, suc, ◌+◌, ◌-◌, ◌*◌, ◌%◌, ◌^◌, ◌≤◌, ◌<◌}
use mathlib.Core.Path.{◌≡◌, refl}
use mathlib.Core.Logic.{◌↔◌}
use mathlib.Core.Bool.{Bool, true, false}
use native.Mathlib.Omega.{arith}

-- `negsuc n` is -(n + 1).
pub data ℤ : Type 0 where
  pos : ℕ → ℤ
  negsuc : ℕ → ℤ

abbrev pub pos_part : ℤ → ℕ
pos_part (pos n) = n
pos_part (negsuc n) = 0

abbrev pub neg_part : ℤ → ℕ
neg_part (pos n) = 0
neg_part (negsuc n) = suc n

infix 50 ◌≤ℤ◌ ◌<ℤ◌
abbrev pub ◌≤ℤ◌ : ℤ → ℤ → Type 0
a ≤ℤ b = pos_part a + neg_part b ≤ pos_part b + neg_part a

abbrev pub ◌<ℤ◌ : ℤ → ℤ → Type 0
a <ℤ b = pos_part a + neg_part b < pos_part b + neg_part a

abbrev pub ltb_ℤ : ℤ → ℤ → Bool
ltb_ℤ a b = ltb (pos_part a + neg_part b) (pos_part b + neg_part a)

abbrev pub leb_ℤ : ℤ → ℤ → Bool
leb_ℤ a b = leb (pos_part a + neg_part b) (pos_part b + neg_part a)

unfoldable pub eq_ℤ : ℤ → ℤ → Bool
eq_ℤ (pos a) (pos b) = a == b
eq_ℤ (negsuc a) (negsuc b) = a == b
eq_ℤ _ _ = false

pub eq_ℤ_iff : (a b : ℤ) → (eq_ℤ a b ≡ true) ↔ (a ≡ b)
unfolding eq_ℤ
eq_ℤ_iff (pos a) (pos b) = ground arith
eq_ℤ_iff (pos a) (negsuc b) = ground arith
eq_ℤ_iff (negsuc a) (pos b) = ground arith
eq_ℤ_iff (negsuc a) (negsuc b) = ground arith

abbrev pub word : ℕ
word = 2 ^ 64

-- The two's complement pattern of an integer, and the integer that a pattern stands for.
abbrev pub bits : ℤ → ℕ
bits (pos n) = n % word
bits (negsuc n) = word - 1 - n % word

abbrev pub signed : ℕ → ℤ
signed w = if ltb w (2 ^ 63) then pos w else negsuc (word - w - 1)

-- `int64` addition, multiplication and left shift; a shift by 64 or more leaves 0.
unfoldable pub add64 : ℤ → ℤ → ℤ
add64 a b = signed ((bits a + bits b) % word)

unfoldable pub mul64 : ℤ → ℤ → ℤ
mul64 a b = signed ((bits a * bits b) % word)

unfoldable pub shl64 : ℤ → ℕ → ℤ
shl64 a k = signed ((bits a * 2 ^ k) % word)

abbrev pub min_ℤ : ℤ → ℤ → ℤ
min_ℤ a b = if ltb_ℤ b a then b else a

-- Where the sum of two numbers fits, nothing wraps.
pub add64-pos : (a b : ℕ) → a + b < 2 ^ 63 → add64 (pos a) (pos b) ≡ pos (a + b)
unfolding add64
add64-pos a b h = ground arith

pub mul64-pos :
    (a b : ℕ) → a < 2 ^ 63 → b < 2 ^ 63 → a * b < 2 ^ 63 → mul64 (pos a) (pos b) ≡ pos (a * b)
unfolding mul64
mul64-pos a b ha hb h =
    let ea : a % word ≡ a = omega arith in
    let eb : b % word ≡ b = omega arith in rw (ea, eb) (ground arith)

pub shl64-one : (k : ℕ) → 2 ^ k < 2 ^ 63 → shl64 (pos 1) k ≡ pos (2 ^ k)
unfolding shl64
shl64-one k h = ground arith

add64_wraps : add64 (pos (2 ^ 63 - 1)) (pos 1) ≡ negsuc (2 ^ 63 - 1)
unfolding add64
add64_wraps = refl
