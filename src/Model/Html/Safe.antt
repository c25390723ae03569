-- ===== src/Model/Html/Safe.antt =====
-- internal/teams/model/message_html.go: what can stand in the sanitized HTML.
use mautrix_teams.Base.{
  ℕ, Bool, true, false, not, ◌&&◌, ◌||◌, Option, none, some, List, [], ◌∷◌, ◌++◌, ◌==◌, ◌⊎◌, inl,
  inr, ◌≡◌, refl, Bool-cases, Option-cases, arith, ◌<◌, all_below, all_below_sound,
}
use mautrix_teams.Base.Text.{Text, codes, is_empty, to_lower, lower, ◌≗◌, ≗_iff}
use mautrix_teams.Model.Html.{
  Attr, Node, Nodes, text, element, other, nil, cons, allowed_formatted_tags, unsafe_tags,
  is_one_of, emoticon_text, code_language, code_language_in, language_name, language_or,
  find_language, all_language_chars, is_language_char, fields_of, get_attr,
}
use mautrix_teams.Model.Html.Render.{
  escape, escape_char, sanitize_href, extract_safe_href, href_attribute, class_attribute,
  has_safe_scheme, render_formatted_node, render_formatted_nodes,
}

-- No character of the text is one of < > " '.
unfoldable pub is_plain_char : ℕ → Bool
is_plain_char c = not (c == b'<') && not (c == b'>') && not (c == b'"') && not (c == b'\'')

unfoldable pub is_plain : Text → Bool
unfolding is_plain_char
is_plain [] = true
is_plain (c ∷ s) = is_plain_char c && is_plain s

pub is_plain-append :
    (s t : Text) → is_plain s ≡ true → is_plain t ≡ true → is_plain (s ++ t) ≡ true
unfolding is_plain
is_plain-append [] t hs ht = ht
is_plain-append (c ∷ s) t hs ht = ground (arith, is_plain-append s t)

escape_char-IsPlain : (c : ℕ) → is_plain (escape_char c) ≡ true
unfolding is_plain is_plain_char escape_char
escape_char-IsPlain c = ground arith

pub escape-IsPlain : (s : Text) → is_plain (escape s) ≡ true
unfolding escape is_plain
escape-IsPlain [] = refl
escape-IsPlain (c ∷ s) =
    is_plain-append (escape_char c) (escape s) (escape_char-IsPlain c) (escape-IsPlain s)

-- Every character of the classes of `codeLanguagePattern` is below 128.
language_char-lt : (c : ℕ) → is_language_char c ≡ true → c < 128
unfolding is_language_char
language_char-lt c h = ground arith

lower_stays : ℕ → Bool
unfolding is_language_char is_plain_char lower
lower_stays c = not (is_language_char c) || is_plain_char (lower c)

lower_char-IsPlain : (c : ℕ) → is_language_char c ≡ true → is_plain_char (lower c) ≡ true
unfolding lower_stays all_below
lower_char-IsPlain c h =
    let e : lower_stays c ≡ true = all_below_sound 128 lower_stays c refl (language_char-lt c h) in
    ground (arith, e, h)

lower-IsPlain : (s : Text) → all_language_chars s ≡ true → is_plain (to_lower s) ≡ true
unfolding all_language_chars to_lower is_plain
lower-IsPlain [] h = refl
lower-IsPlain (c ∷ s) h = ground (arith, lower-IsPlain s, lower_char-IsPlain c)

find_language-IsPlain :
    (fs : List Text) (m : Text) → find_language fs ≡ some m → is_plain (to_lower m) ≡ true
unfolding find_language
find_language-IsPlain [] m h = ground arith
find_language-IsPlain (f ∷ fs) m h = ground (arith, find_language-IsPlain fs m, lower-IsPlain m)

language_name-IsPlain :
    (m : Text) → is_plain (to_lower m) ≡ true → is_plain (language_name m) ≡ true
unfolding language_name is_plain
language_name-IsPlain m h = ground (arith, h)

not-false : {b : Bool} → not b ≡ false → b ≡ true
not-false {b = true} h = refl
not-false {b = false} h = ground arith

pub empty-IsPlain : is_plain [] ≡ true
unfolding is_plain
empty-IsPlain = refl

language_or-IsPlain :
    (o : Option Text) (later : Text)
    → ((m : Text) → o ≡ some m → is_plain (to_lower m) ≡ true)
    → is_plain later ≡ true
    → is_plain (language_or o later) ≡ true
unfolding language_or
language_or-IsPlain none later found h = h
language_or-IsPlain (some m) later found h = language_name-IsPlain m (found m refl)

code_language_in-IsPlain : (l : List (List Attr)) → is_plain (code_language_in l) ≡ true
unfolding code_language_in
code_language_in-IsPlain [] = empty-IsPlain
code_language_in-IsPlain (own ∷ rest) =
    language_or-IsPlain (find_language (fields_of (get_attr own (codes "class"))))
      (code_language_in rest) (find_language-IsPlain (fields_of (get_attr own (codes "class"))))
      (code_language_in-IsPlain rest)

code_language-IsPlain :
    (own : List Attr) (parent : Option (List Attr)) → is_plain (code_language own parent) ≡ true
unfolding code_language
code_language-IsPlain own none = code_language_in-IsPlain (own ∷ [])
code_language-IsPlain own (some p) = code_language_in-IsPlain (own ∷ p ∷ [])

module _ (url_scheme : Text → Option Text) where
  -- What may follow the tag: nothing, an address with an allowed scheme on an "a", or a
  -- language's name on a "code".
  abbrev pub IsHref : Text → Text → Type 0
  IsHref tag t =
      (t ≡ [])
      ⊎ ((v : Text) × (tag ≡ codes "a")
          × (has_safe_scheme url_scheme v ≡ true)
          × (t ≡ codes " href=\"" ++ escape v ++ codes "\""))

  abbrev pub IsClass : Text → Text → Type 0
  IsClass tag t =
      (t ≡ [])
      ⊎ ((l : Text) × (tag ≡ codes "code")
          × (is_plain l ≡ true)
          × (t ≡ codes " class=\"language-" ++ l ++ codes "\""))

  -- The texts that hold no markup but the allowed tags, in pairs that nest, with these attributes.
  pub data IsSafe : Text → Type 0 where
    plain : (t : Text) → is_plain t ≡ true → IsSafe t
    line_break : IsSafe (codes "<br>")
    both : (s t : Text) → IsSafe s → IsSafe t → IsSafe (s ++ t)
    wrapped :
        (tag h c body : Text)
        → is_one_of tag allowed_formatted_tags ≡ true
        → IsHref tag h
        → IsClass tag c
        → IsSafe body
        → IsSafe (codes "<" ++ tag ++ h ++ c ++ codes ">" ++ body ++ codes "</" ++ tag ++ codes ">")

  sanitize_href-IsSafe :
      (value v : Text)
      → sanitize_href url_scheme value ≡ some v
      → has_safe_scheme url_scheme v ≡ true
  unfolding sanitize_href
  sanitize_href-IsSafe value v h = ground (arith, h)

  extract_safe_href-IsSafe :
      (attrs : List Attr) (v : Text)
      → extract_safe_href url_scheme attrs ≡ some v
      → has_safe_scheme url_scheme v ≡ true
  unfolding extract_safe_href
  extract_safe_href-IsSafe [] v h = ground arith
  extract_safe_href-IsSafe (a ∷ rest) v h =
      ground (arith, extract_safe_href-IsSafe rest v, sanitize_href-IsSafe a.val v)

  href_attribute-IsHref :
      (tag : Text) (attrs : List Attr) → IsHref tag (href_attribute url_scheme tag attrs)
  unfolding href_attribute
  href_attribute-IsHref tag attrs = elim (Bool-cases (tag ≗ codes "a")) [
    | inl e ↦ elim (Option-cases (extract_safe_href url_scheme attrs)) [
      | inl n ↦ inl (rw (e, n) refl)
      | inr (v, f) ↦
          inr (v, (≗_iff tag (codes "a")).0 e, extract_safe_href-IsSafe attrs v f, rw (e, f) refl)
    ]
    | inr e ↦ inl (rw e refl)
  ]

  class_attribute-IsClass :
      (tag : Text) (attrs : List Attr) (parent : Option (List Attr))
      → IsClass tag (class_attribute url_scheme tag attrs parent)
  unfolding class_attribute
  class_attribute-IsClass tag attrs parent = elim (Bool-cases (tag ≗ codes "code")) [
    | inl e ↦ elim (Bool-cases (is_empty (code_language attrs parent))) [
      | inl n ↦ inl (rw (e, n) refl)
      | inr f ↦ inr (
        code_language attrs parent,
        (≗_iff tag (codes "code")).0 e,
        code_language-IsPlain attrs parent,
        rw (e, f) refl,
      )
    ]
    | inr e ↦ inl (rw e refl)
  ]

  module _ (lowered : Text → Text) where
    mutual
      unfolding render_formatted_node render_formatted_nodes

      node-IsSafe :
          (parent : Option (List Attr)) (n : Node)
          → IsSafe (render_formatted_node url_scheme lowered parent n).0
      node-IsSafe parent (text t) = plain (escape t) (escape-IsPlain t)
      node-IsSafe parent (element tag attrs children) =
          let inner = nodes-IsSafe (some attrs) children in
          elim (Bool-cases (is_one_of (to_lower tag) unsafe_tags)) [
            | inl e ↦ rw e (plain [] empty-IsPlain)
            | inr e ↦ elim (Option-cases (emoticon_text lowered tag attrs)) [
              | inr (t, f) ↦ rw (e, f) (plain (escape t) (escape-IsPlain t))
              | inl f ↦ elim (Bool-cases (to_lower tag ≗ codes "br")) [
                | inl g ↦ rw (e, f, g) line_break
                | inr g ↦
                    elim (Bool-cases (not (is_one_of (to_lower tag) allowed_formatted_tags))) [
                      | inl h ↦ rw (e, f, h, g) inner
                      | inr h ↦
                          rw (e, f, h, g)
                            (wrapped (to_lower tag) _ _ _ (not-false h)
                              (href_attribute-IsHref (to_lower tag) attrs)
                              (class_attribute-IsClass (to_lower tag) attrs parent) inner)
                    ]
              ]
            ]
          ]
      node-IsSafe parent (other children) = nodes-IsSafe none children

      nodes-IsSafe :
          (parent : Option (List Attr)) (ns : Nodes)
          → IsSafe (render_formatted_nodes url_scheme lowered parent ns).0
      nodes-IsSafe parent nil = plain [] empty-IsPlain
      nodes-IsSafe parent (cons n ns) = both _ _ (node-IsSafe parent n) (nodes-IsSafe parent ns)

    -- Whatever children and attributes the wrapper div has, the HTML that is written for them is
    -- safe: escaped text, line breaks, and allowed tags that nest, whose only attributes are an
    -- escaped address with an allowed scheme on an "a" and a plain language name on a "code".
    pub render_formatted_nodes-IsSafe :
        (parent : Option (List Attr)) (ns : Nodes)
        → IsSafe (render_formatted_nodes url_scheme lowered parent ns).0
    render_formatted_nodes-IsSafe parent ns = nodes-IsSafe parent ns
