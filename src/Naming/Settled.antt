-- ===== src/Naming/Settled.antt =====
-- pkg/connector/thread_discovery.go: a room that has its name is not renamed again.
use mautrix_teams.Base.{
  ℕ, ◌≡◌, ◌⊎◌, inl, inr, refl, ap, Bool, true, false, not, ◌&&◌, ◌||◌, Option, none, some, [], ◌∷◌,
  ◌++◌, length, length-append, arith, if◌then◌else◌, Bool-cases,
}
use mautrix_teams.Base.Text.{
  Text, codes, trim_space, is_empty, has_prefix, drop_prefix, contains, ◌≗◌, ≗_iff, ≗_refl,
}
use mautrix_teams.Base.Assoc.{Assoc}
use mautrix_teams.Naming.{
  has_suffix, has_type_prefix, strip_type_prefix, is_generic_chat_name, is_placeholder_dm_name,
  choose_stored_name, stored_name, ChannelInfo, NamedThread, structured_room_name, renamed,
  apply_room_name, named,
}

has_suffix-append : (p s t : Text) → has_suffix s t ≡ true → has_suffix (p ++ s) t ≡ true
unfolding has_suffix
has_suffix-append [] s t h = h
has_suffix-append (c ∷ p) s t h = ground (arith, has_suffix-append p s t h)

longer : (c : ℕ) (p s : Text) → ((c ∷ p) ++ s) ≗ s ≡ false
longer c p s = elim (Bool-cases (((c ∷ p) ++ s) ≗ s)) [
  | inr e ↦ e
  | inl e ↦
      let same : length ((c ∷ p) ++ s) ≡ length s =
        ap (λ l. length l) ((≗_iff ((c ∷ p) ++ s) s).0 e) in
      absurd (omega (arith, same, length-append (c ∷ p) s))
]

-- What reading a name makes of a prefix that was put before it.
record IsKind (p : Text) : Type 0 where
  prefixed : (s : Text) → has_type_prefix (p ++ s) ≡ true
  stripped : (s : Text) → strip_type_prefix (p ++ s) ≡ s
  shown : (s : Text) → is_empty (p ++ s) ≡ false
  new : (s : Text) → (p ++ s) ≗ s ≡ false

dm-IsKind : IsKind (codes "DM: ")
unfolding has_type_prefix strip_type_prefix has_prefix drop_prefix
dm-IsKind = record {
  prefixed = λ s. refl;
  stripped = λ s. refl;
  shown = λ s. refl;
  new = λ s. longer b'D' (codes "M: ") s;
}

group-IsKind : IsKind (codes "Group: ")
unfolding has_type_prefix strip_type_prefix has_prefix drop_prefix
group-IsKind = record {
  prefixed = λ s. refl;
  stripped = λ s. refl;
  shown = λ s. refl;
  new = λ s. longer b'G' (codes "roup: ") s;
}

meeting-IsKind : IsKind (codes "Meeting: ")
unfolding has_type_prefix strip_type_prefix has_prefix drop_prefix
meeting-IsKind = record {
  prefixed = λ s. refl;
  stripped = λ s. refl;
  shown = λ s. refl;
  new = λ s. longer b'M' (codes "eeting: ") s;
}

-- A name that gets a prefix, and stays with it.
abbrev IsBare : Text → Text → Type 0
IsBare api name = (name ≡ api) ⊎ (has_suffix name (codes " / " ++ api) ≡ true)

choose_same : (api : Text) → choose_stored_name api api ≡ api
unfolding choose_stored_name
choose_same api = ground arith

bare-Stays :
    (api name p : Text)
    → IsKind p
    → is_generic_chat_name api ≡ false
    → is_placeholder_dm_name (p ++ api) ≡ false
    → IsBare api name
    → choose_stored_name api (p ++ name) ≡ p ++ name
unfolding choose_stored_name
bare-Stays api name p kind g h (inl e) =
    rw (e, kind.shown api, g, kind.prefixed api, h, kind.stripped api, ≗_refl api) refl
bare-Stays api name p kind g h (inr e) =
    rw (kind.shown name, g, has_suffix-append p name (codes " / " ++ api) e) (ground arith)

-- What discovery stores is stored again the next time; it shows its kind, or is bare.
chosen :
    (api existing : Text)
    → is_generic_chat_name api ≡ false
    → let name = choose_stored_name api existing in
      (choose_stored_name api name ≡ name) × ((has_type_prefix name ≡ true) ⊎ IsBare api name)
chosen api existing g =
    let by_api : (choose_stored_name api api ≡ api)
        × ((has_type_prefix api ≡ true) ⊎ IsBare api api) =
      (choose_same api, inr (inl refl)) in
    let by_suffix = has_suffix existing (codes " / " ++ api) in
    let by_prefix =
      has_type_prefix existing
      && not (is_placeholder_dm_name existing)
      && (api ≗ strip_type_prefix existing) in
    elim (Bool-cases (is_empty existing)) [
      | inl e ↦
          let same : choose_stored_name api existing ≡ api =
            unfold choose_stored_name in rw e refl in
          rw same by_api
      | inr e ↦ elim (Bool-cases by_prefix) [
        | inl pre ↦
            let same : choose_stored_name api existing ≡ existing =
              unfold choose_stored_name in rw (e, g, pre) refl in
            rw (same, same) (refl, inl (ground (arith, pre)))
        | inr pre ↦ elim (Bool-cases by_suffix) [
          | inl suf ↦
              let same : choose_stored_name api existing ≡ existing =
                unfold choose_stored_name in rw (e, g, pre, suf) refl in
              rw (same, same) (refl, inr (inr suf))
          | inr suf ↦
              let same : choose_stored_name api existing ≡ api =
                unfold choose_stored_name in rw (e, g, pre, suf) refl in
              rw same by_api
        ]
      ]
    ]

bare-nonempty :
    (api name : Text) → is_generic_chat_name api ≡ false → IsBare api name → is_empty name ≡ false
unfolding is_generic_chat_name has_suffix trim_space
bare-nonempty api [] g (inl same) = absurd (cc (rw (← same) at g))
bare-nonempty api [] g (inr suf) = absurd (cc suf)
bare-nonempty api (x ∷ xs) g bare = refl

has_suffix-chat : (api : Text) → has_suffix (codes "Chat") (codes " / " ++ api) ≡ false
unfolding has_suffix ◌≗◌
has_suffix-chat api = refl

-- A bare name is shown, and is not the stand-in for none.
bare_shown :
    (api name : Text)
    → is_generic_chat_name api ≡ false
    → IsBare api name
    → is_empty (if name ≗ codes "Chat" then [] else name) ≡ false
unfolding is_generic_chat_name has_suffix trim_space
bare_shown api name g bare = elim (Bool-cases (name ≗ codes "Chat")) [
  | inl c ↦
      let e : name ≡ codes "Chat" = (≗_iff name (codes "Chat")).0 c in
      elim bare [
        | inl same ↦ absurd (cc (rw (← same, e) at g))
        | inr suf ↦ absurd (cc (rw e at suf, has_suffix-chat api))
      ]
  | inr c ↦ rw c (bare-nonempty api name g bare)
]

-- The chats that are named by their kind: no system stream and no channel.
abbrev pub is_kind_named : NamedThread → Bool
is_kind_named th =
    not (contains th.thread_id (codes "teamsstream_"))
    && (th.is_one_to_one
        || contains th.thread_id (codes "meeting_")
        || not (contains th.thread_id (codes "@thread.tacv2")))

structured-IsKind :
    (channels : Assoc ChannelInfo) (th : NamedThread) (api name : Text)
    → is_kind_named th ≡ true
    → is_generic_chat_name api ≡ false
    → is_placeholder_dm_name (codes "DM: " ++ api) ≡ false
    → IsBare api name
    → (p : Text) × IsKind p
      × (is_placeholder_dm_name (p ++ api) ≡ false)
      × (structured_room_name channels th name ≡ p ++ name)
unfolding structured_room_name is_placeholder_dm_name has_prefix
structured-IsKind channels th api name k g h bare =
    let shown = bare_shown api name g bare in
    elim (Bool-cases (name ≗ codes "Chat")) [
      | inl c ↦ absurd (cc (rw c at shown))
      | inr c ↦ elim (Bool-cases th.is_one_to_one) [
        | inl one ↦ (codes "DM: ", dm-IsKind, h, rw (c, one, rw c at shown) refl)
        | inr one ↦ elim (Bool-cases (contains th.thread_id (codes "meeting_"))) [
          | inl meeting ↦
              (codes "Meeting: ", meeting-IsKind, refl, rw (c, one, meeting, rw c at shown) refl)
          | inr meeting ↦
              let other : contains th.thread_id (codes "@thread.tacv2") ≡ false =
                ground (arith, k, one, meeting) in
              (codes "Group: ", group-IsKind, refl, rw (c, one, meeting, other, rw c at shown) refl)
        ]
      ]
    ]

settled :
    (channels : Assoc ChannelInfo) (th : NamedThread) (api name : Text)
    → is_kind_named th ≡ true
    → is_generic_chat_name api ≡ false
    → is_placeholder_dm_name (codes "DM: " ++ api) ≡ false
    → choose_stored_name api name ≡ name
    → (has_type_prefix name ≡ true) ⊎ IsBare api name
    → let n = (apply_room_name channels th name).0 in
      apply_room_name channels th (choose_stored_name api n) ≡ (n, false)
settled channels th api name k g h stays kind =
    let no_stream : contains th.thread_id (codes "teamsstream_") ≡ false = ground (arith, k) in
    elim (Bool-cases (has_type_prefix name)) [
      | inl pre ↦
          let once : apply_room_name channels th name ≡ (name, false) =
            unfold apply_room_name in rw (no_stream, pre) refl in
          rw (once, stays, once) refl
      | inr bare ↦ elim kind [
        | inl pre ↦ absurd (cc (pre, bare))
        | inr b ↦
            let (p, is_kind, no_placeholder, e) = structured-IsKind channels th api name k g h b in
            let once : apply_room_name channels th name ≡ (p ++ name, true) =
              unfold apply_room_name renamed in
              rw (no_stream, bare, e, is_kind.shown name, is_kind.new name) refl in
            let twice : apply_room_name channels th (p ++ name) ≡ (p ++ name, false) =
              unfold apply_room_name in rw (no_stream, is_kind.prefixed name) refl in
            rw (once, bare-Stays api name p is_kind g no_placeholder b) twice
      ]
    ]

-- Where the conversation list reports the same name again, for a chat or a meeting and other than
-- the stand-in "Chat" or a placeholder's, discovery and the naming pass leave the name as they made
-- it the first time, whatever was stored before, and the naming pass asks for no resync of the room.
-- A resync that discovery queues for a changed chat is not part of this.
pub named-again :
    (channels : Assoc ChannelInfo) (th : NamedThread) (api : Text) (existing : Option Text)
    → is_kind_named th ≡ true
    → is_generic_chat_name api ≡ false
    → is_placeholder_dm_name (codes "DM: " ++ api) ≡ false
    → let n = (named channels th api existing).0 in named channels th api (some n) ≡ (n, false)
unfolding named stored_name
named-again channels th api none k g h =
    settled channels th api api k g h (choose_same api) (inr (inl refl))
named-again channels th api (some existing) k g h =
    let (stays, kind) = chosen api existing g in
    settled channels th api (choose_stored_name api existing) k g h stays kind
