-- ===== src/Threads/Created.antt =====
-- internal/teams/client/conversations.go: the thread that a new chat's Location names.
use mathlib.Core.List.{append_assoc, append-nil}
use mautrix_teams.Base.{
  ap, ◌∙◌, sym, not, ℕ, zero, suc, ◌≡◌, refl, Bool, true, false, ◌&&◌, [], ◌∷◌, ◌++◌, inr, ◌==◌,
  if◌then◌else◌, arith,
}
use mautrix_teams.Base.Text.{Text, is_empty}
use mautrix_teams.Threads.{trim_slashes, last_part, thread_of_location}

-- No slash stands in the text.
abbrev pub is_unslashed : Text → Bool
is_unslashed [] = true
is_unslashed (c ∷ s) = not (c == b'/') && is_unslashed s

abbrev pub slashes : ℕ → Text
slashes zero = []
slashes (suc n) = b'/' ∷ slashes n

trim_slashes-slashes : (n : ℕ) → trim_slashes (slashes n) ≡ []
unfolding trim_slashes
trim_slashes-slashes zero = refl
trim_slashes-slashes (suc n) = rw (trim_slashes-slashes n) refl

-- Slashes at the end of a text that ends in none are trimmed.
trim_slashes-unslashed :
    (id : Text) (n : ℕ) → is_unslashed id ≡ true → trim_slashes (id ++ slashes n) ≡ id
unfolding trim_slashes
trim_slashes-unslashed [] n h = trim_slashes-slashes n
trim_slashes-unslashed (c ∷ id) n h = ground (arith, trim_slashes-unslashed id n)

empty-append : (front id : Text) → is_empty id ≡ false → is_empty (front ++ id) ≡ false
empty-append [] id h = h
empty-append (c ∷ front) id h = refl

trim_slashes-append :
    (front id : Text)
    → is_empty (trim_slashes id) ≡ false
    → trim_slashes (front ++ id) ≡ front ++ trim_slashes id
unfolding trim_slashes
trim_slashes-append [] id h = refl
trim_slashes-append (c ∷ front) id h =
    rw (trim_slashes-append front id h, empty-append front (trim_slashes id) h) refl

last_part-unslashed : (read id : Text) → is_unslashed id ≡ true → last_part read id ≡ read ++ id
unfolding last_part
last_part-unslashed read [] h = sym (append-nil read)
last_part-unslashed read (c ∷ id) h =
    let plain : (c == b'/') ≡ false = ground (arith, h) in
    let rest : is_unslashed id ≡ true = ground (arith, h) in
    rw (plain, last_part-unslashed (read ++ c ∷ []) id rest) (append_assoc read (c ∷ []) id)

last_part-slash :
    (front read id : Text) → is_unslashed id ≡ true → last_part read (front ++ b'/' ∷ id) ≡ id
unfolding last_part
last_part-slash [] read id h = last_part-unslashed [] id h
last_part-slash (c ∷ front) read id h =
    last_part-slash front (if c == b'/' then [] else read ++ c ∷ []) id h

-- Where the Location of a new chat is any address, a slash, an ID without slashes that is not empty,
-- and any number of slashes more, that ID is the thread.
pub thread_of_location_lem :
    (front id : Text) (n : ℕ)
    → is_empty id ≡ false
    → is_unslashed id ≡ true
    → thread_of_location (front ++ b'/' ∷ (id ++ slashes n)) ≡ inr id
unfolding thread_of_location trim_slashes
thread_of_location_lem front id n some_id h =
    let trimmed : trim_slashes (id ++ slashes n) ≡ id = trim_slashes-unslashed id n h in
    let slashed : trim_slashes (b'/' ∷ (id ++ slashes n)) ≡ b'/' ∷ id =
      rw (trimmed, some_id) refl in
    let kept : is_empty (trim_slashes (b'/' ∷ (id ++ slashes n))) ≡ false = rw slashed refl in
    let whole : trim_slashes (front ++ b'/' ∷ (id ++ slashes n)) ≡ front ++ b'/' ∷ id =
      trim_slashes-append front (b'/' ∷ (id ++ slashes n)) kept ∙ ap (λ t. front ++ t) slashed in
    rw
      (
        empty-append front (b'/' ∷ (id ++ slashes n)) refl,
        whole,
        last_part-slash front [] id h,
        some_id,
      )
      refl
