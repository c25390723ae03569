-- ===== src/Ingest/Reactions/Signature.antt =====
-- `reactionSignature` of pkg/connector/reaction_sync.go does not depend on the order of reactions.
use mautrix_teams.Base.{◌≡◌, refl, sym, ap, ◌∙◌, Bool, true, false, List, [], ◌∷◌, ◌++◌, arith}
use mautrix_teams.Base.Text.{Text, codes, trim_space}
use mathlib.Core.List.{Permᴰ}
use mautrix_teams.Model.Sequence.{compare_texts}
use mautrix_teams.Model.Sequence.Order.{compare_texts-flip}
use mautrix_teams.Model.Properties.{MessageReaction, MessageReactionUser}
use mautrix_teams.Cursor.{is_greater}
use mautrix_teams.Model.Sorted.{insert_sorted, sort_texts, join_texts}
use mautrix_teams.Ingest.Reactions.{user_parts, signature_parts, reaction_signature}

-- The byte order of texts.
abbrev gt : Text → Text → Bool
gt a b = is_greater (compare_texts a b)

gt-flip : (a b : Text) → gt a b ≡ true → gt b a ≡ false
gt-flip a b h = ground (arith, compare_texts-flip a b)

gt_trans : (a b c : Text) → gt a c ≡ true → gt b c ≡ false → gt a b ≡ true
unfolding compare_texts
gt_trans [] b [] h k = ground arith
gt_trans [] b (z ∷ zs) h k = ground arith
gt_trans (x ∷ xs) [] c h k = refl
gt_trans (x ∷ xs) (y ∷ ys) [] h k = ground arith
gt_trans (x ∷ xs) (y ∷ ys) (z ∷ zs) h k = ground (arith, gt_trans xs ys zs)

gt_antisym : (a b : Text) → gt a b ≡ false → gt b a ≡ false → a ≡ b
unfolding compare_texts
gt_antisym [] [] h k = refl
gt_antisym [] (y ∷ ys) h k = ground arith
gt_antisym (x ∷ xs) [] h k = ground arith
gt_antisym (x ∷ xs) (y ∷ ys) h k = ground (arith, gt_antisym xs ys)

-- Insertions commute.
insert_sorted_comm :
    (a b : Text) (l : List Text)
    → insert_sorted a (insert_sorted b l) ≡ insert_sorted b (insert_sorted a l)
unfolding insert_sorted
insert_sorted_comm a b [] = ground (arith, gt-flip a b, gt-flip b a, gt_antisym a b)
insert_sorted_comm a b (c ∷ l) = ground (
  arith,
  insert_sorted_comm a b l,
  gt-flip a b,
  gt-flip b a,
  gt_antisym a b,
  gt_trans a b c,
  gt_trans b a c,
)

-- Sorting from a sorted list on.
abbrev insert_all : List Text → List Text → List Text
insert_all [] l = l
insert_all (part ∷ parts) l = insert_sorted part (insert_all parts l)

sort_texts-append : (u v : List Text) → sort_texts (u ++ v) ≡ insert_all u (sort_texts v)
unfolding sort_texts
sort_texts-append [] v = refl
sort_texts-append (part ∷ u) v = ap (insert_sorted part) (sort_texts-append u v)

insert_all-insert :
    (u : List Text) (p : Text) (l : List Text)
    → insert_all u (insert_sorted p l) ≡ insert_sorted p (insert_all u l)
insert_all-insert [] p l = refl
insert_all-insert (part ∷ u) p l =
    ap (insert_sorted part) (insert_all-insert u p l) ∙ insert_sorted_comm part p (insert_all u l)

insert_all_comm :
    (u v l : List Text) → insert_all u (insert_all v l) ≡ insert_all v (insert_all u l)
insert_all_comm [] v l = refl
insert_all_comm (part ∷ u) v l =
    ap (insert_sorted part) (insert_all_comm u v l)
    ∙ sym (insert_all-insert v part (insert_all u l))

user_parts-Perm :
    (key : Text) {us vs : List MessageReactionUser} (l : List Text)
    → Permᴰ us vs
    → insert_all (user_parts key us) l ≡ insert_all (user_parts key vs) l
unfolding user_parts
user_parts-Perm key l Permᴰ.nil = refl
user_parts-Perm key l (Permᴰ.cons e p) = rw (e, user_parts-Perm key l p) refl
user_parts-Perm key l (Permᴰ.swap {l = us} e f) =
    rw (e, f) (insert_sorted_comm _ _ (insert_all (user_parts key us) l))
user_parts-Perm key l (Permᴰ.trans p q) = user_parts-Perm key l p ∙ user_parts-Perm key l q

-- The same reactions, listed in another order: the reactions themselves, or the users of one; the
-- space around a key does not count.
pub data Reordered : List MessageReaction → List MessageReaction → Type 0 where
  no_reactions : Reordered [] []
  entry :
      (r s : MessageReaction) {a b : List MessageReaction}
      → trim_space r.emotion_key ≡ trim_space s.emotion_key
      → Permᴰ r.users s.users
      → Reordered a b
      → Reordered (r ∷ a) (s ∷ b)
  swap : (r s : MessageReaction) (a : List MessageReaction) → Reordered (r ∷ s ∷ a) (s ∷ r ∷ a)
  trans : {a b c : List MessageReaction} → Reordered a b → Reordered b c → Reordered a c

parts-Reordered :
    {a b : List MessageReaction}
    → Reordered a b
    → sort_texts (signature_parts a) ≡ sort_texts (signature_parts b)
unfolding signature_parts
parts-Reordered no_reactions = refl
parts-Reordered (entry r s {a} {b} e p same) =
    rw
      (
        sort_texts-append (user_parts (trim_space r.emotion_key) r.users) (signature_parts a),
        sort_texts-append (user_parts (trim_space s.emotion_key) s.users) (signature_parts b),
        e,
        parts-Reordered same,
      )
      (user_parts-Perm (trim_space s.emotion_key) (sort_texts (signature_parts b)) p)
parts-Reordered (swap r s a) =
    let u = user_parts (trim_space r.emotion_key) r.users in
    let v = user_parts (trim_space s.emotion_key) s.users in
    let l = signature_parts a in
    rw
      (
        sort_texts-append u (v ++ l),
        sort_texts-append v l,
        sort_texts-append v (u ++ l),
        sort_texts-append u l,
      )
      (insert_all_comm u v (sort_texts l))
parts-Reordered (trans same same') = parts-Reordered same ∙ parts-Reordered same'

-- The signature of a message's reactions is the same in whatever order Teams lists the reactions
-- and the users of each.
pub reaction_signature-Reordered :
    {a b : List MessageReaction} → Reordered a b → reaction_signature a ≡ reaction_signature b
unfolding reaction_signature
reaction_signature-Reordered same =
    ap (λ parts. join_texts parts (codes ";")) (parts-Reordered same)
