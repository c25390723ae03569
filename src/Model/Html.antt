-- ===== src/Model/Html.antt =====
-- HTML trees as golang.org/x/net/html parses them, and what internal/teams/model reads of them
-- (message_html.go, mention.go, reply.go).
pub mod Render
pub mod Safe
pub mod Marked
use mautrix_teams.Base.{
  ℕ, Bool, true, false, not, ◌&&◌, ◌||◌, Option, none, some, List, [], ◌∷◌, ◌++◌, ◌==◌, leb,
  if◌then◌else◌,
}
use mautrix_teams.Base.Text.{
  Text, codes, is_empty, trim_space, to_lower, equal_fold, ◌≗◌, contains, has_prefix, drop_prefix,
}

-- An attribute: its key and its value.
pub record Attr : Type 0 where
  pub key : Text
  pub val : Text

-- A node is a text, an element, or another node (a document, a comment) that only has children.
mutual
  pub data Node : Type 0 where
    text : Text → Node
    element : Text → List Attr → Nodes → Node
    other : Nodes → Node

  pub data Nodes : Type 0 where
    nil : Nodes
    cons : Node → Nodes → Nodes

-- `getAttr`, on a node's attributes.
unfoldable pub get_attr : List Attr → Text → Text
get_attr [] key = []
get_attr (a ∷ rest) key = if equal_fold a.key key then a.val else get_attr rest key

-- `hasEmojiItemType`.
unfoldable pub has_emoji_item_type : List Attr → Bool
unfolding get_attr
has_emoji_item_type attrs =
    contains (to_lower (trim_space (get_attr attrs (codes "itemtype"))))
      (codes "schema.skype.com/emoji")

unfoldable pub is_one_of : Text → List Text → Bool
is_one_of t [] = false
is_one_of t (u ∷ us) = (t ≗ u) || is_one_of t us

-- `allowedFormattedTags`, `blockTags` and `isUnsafeTag`.
abbrev pub allowed_formatted_tags : List Text
allowed_formatted_tags =
    codes "a"
    ∷ codes "b"
    ∷ codes "blockquote"
    ∷ codes "br"
    ∷ codes "code"
    ∷ codes "em"
    ∷ codes "i"
    ∷ codes "li"
    ∷ codes "ol"
    ∷ codes "p"
    ∷ codes "pre"
    ∷ codes "s"
    ∷ codes "strong"
    ∷ codes "table"
    ∷ codes "tbody"
    ∷ codes "td"
    ∷ codes "th"
    ∷ codes "thead"
    ∷ codes "tr"
    ∷ codes "u"
    ∷ codes "ul"
    ∷ []

abbrev pub block_tags : List Text
block_tags =
    codes "blockquote"
    ∷ codes "div"
    ∷ codes "h1"
    ∷ codes "h2"
    ∷ codes "h3"
    ∷ codes "h4"
    ∷ codes "h5"
    ∷ codes "h6"
    ∷ codes "li"
    ∷ codes "ol"
    ∷ codes "p"
    ∷ codes "pre"
    ∷ codes "section"
    ∷ codes "ul"
    ∷ []

abbrev pub unsafe_tags : List Text
unsafe_tags =
    codes "script"
    ∷ codes "style"
    ∷ codes "iframe"
    ∷ codes "object"
    ∷ codes "embed"
    ∷ codes "meta"
    ∷ codes "link"
    ∷ codes "head"
    ∷ []

unfoldable pub replace_spaces : Text → Text
replace_spaces [] = []
replace_spaces (c ∷ s) = (if c == 32 then b'_' else c) ∷ replace_spaces s

-- `emoticonText` of an element: none where it returns false. `lowered` is `strings.ToLower`.
unfoldable pub emoticon_text : (Text → Text) → Text → List Attr → Option Text
unfolding has_emoji_item_type get_attr replace_spaces
emoticon_text lowered tag attrs =
    let alt = trim_space (get_attr attrs (codes "alt")) in
    let title = trim_space (get_attr attrs (codes "title")) in
    let item_id = trim_space (get_attr attrs (codes "itemid")) in
    if not (equal_fold tag (codes "img")) || not (has_emoji_item_type attrs)
    then none
    else if not (is_empty alt)
    then some alt
    else if not (is_empty title)
    then some (codes ":" ++ lowered (replace_spaces title) ++ codes ":")
    else if not (is_empty item_id)
    then some (codes ":" ++ item_id ++ codes ":")
    else none

-- The regular expression's white space, and the fields between it.
unfoldable pub is_re_space : ℕ → Bool
is_re_space c = c == 9 || c == 10 || c == 12 || c == 13 || c == 32

unfoldable pub push_front : ℕ → List Text → List Text
push_front c [] = (c ∷ []) ∷ []
push_front c (f ∷ fs) = (c ∷ f) ∷ fs

unfoldable pub fields_of : Text → List Text
unfolding is_re_space push_front
fields_of [] = [] ∷ []
fields_of (c ∷ s) = let rest = fields_of s in if is_re_space c then [] ∷ rest else push_front c rest

-- A character of `codeLanguagePattern`'s group.
unfoldable pub is_language_char : ℕ → Bool
is_language_char c =
    (leb b'A' c && leb c b'Z')
    || (leb b'a' c && leb c b'z')
    || (leb b'0' c && leb c b'9')
    || c == b'_'
    || c == b'+'
    || c == b'#'
    || c == b'.'
    || c == b'-'

unfoldable pub all_language_chars : Text → Bool
unfolding is_language_char
all_language_chars [] = true
all_language_chars (c ∷ s) = is_language_char c && all_language_chars s

-- The first match of `codeLanguagePattern`, a whole field "language-X", and its X.
unfoldable pub find_language : List Text → Option Text
unfolding all_language_chars
find_language [] = none
find_language (f ∷ fs) =
    let x = drop_prefix f (codes "language-") in
    if has_prefix f (codes "language-") && not (is_empty x) && all_language_chars x
    then some x
    else find_language fs

-- `codeLanguage` at the node that matched, and in full: the element's attributes first, then
-- those of its parent, where that is an element.
unfoldable pub language_name : Text → Text
language_name m =
    if (to_lower m ≗ codes "plaintext") || (to_lower m ≗ codes "text") then [] else to_lower m

unfoldable pub language_or : Option Text → Text → Text
unfolding language_name
language_or none later = later
language_or (some m) later = language_name m

unfoldable pub code_language_in : List (List Attr) → Text
unfolding get_attr fields_of find_language language_or
code_language_in [] = []
code_language_in (own ∷ rest) =
    language_or (find_language (fields_of (get_attr own (codes "class")))) (code_language_in rest)

unfoldable pub code_language : List Attr → Option (List Attr) → Text
unfolding code_language_in
code_language own none = code_language_in (own ∷ [])
code_language own (some parent) = code_language_in (own ∷ parent ∷ [])
