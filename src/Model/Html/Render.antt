-- ===== src/Model/Html/Render.antt =====
-- internal/teams/model/message_html.go: an HTML fragment as plain text and as sanitized HTML.
-- `url.Parse` is the parameter `url_scheme`: the scheme it finds, or none where it fails.
use mautrix_teams.Base.{
  ℕ, Bool, true, false, not, ◌||◌, Option, none, some, List, [], ◌∷◌, ◌++◌, ◌==◌, if◌then◌else◌,
}
use mautrix_teams.Base.Text.{Text, codes, is_empty, trim_space, to_lower, equal_fold, ◌≗◌}
use mautrix_teams.Model.Html.{
  Attr, Node, Nodes, text, element, other, nil, cons, allowed_formatted_tags, block_tags,
  unsafe_tags, is_one_of, emoticon_text, code_language,
}

-- `html.EscapeString`.
unfoldable pub escape_char : ℕ → Text
escape_char c =
    if c == b'&'
    then codes "&amp;"
    else if c == b'\''
    then codes "&#39;"
    else if c == b'<'
    then codes "&lt;"
    else if c == b'>'
    then codes "&gt;"
    else if c == b'"'
    then codes "&#34;"
    else c ∷ []

unfoldable pub escape : Text → Text
unfolding escape_char
escape [] = []
escape (c ∷ s) = escape_char c ++ escape s

-- The last character of a builder's text.
unfoldable pub ends_in_newline : Text → Bool
ends_in_newline [] = false
ends_in_newline (c ∷ []) = c == 10
ends_in_newline (c ∷ d ∷ s) = ends_in_newline (d ∷ s)

-- `appendPlainNewline`.
unfoldable pub append_plain_newline : Text → Text
unfolding ends_in_newline
append_plain_newline out = if is_empty out || ends_in_newline out then out else out ++ 10 ∷ []

unfoldable pub newline_if : Bool → Text → Text
newline_if b out = if b then append_plain_newline out else out

-- `renderPlainNode`: the builder's text after the node. `lowered` is `strings.ToLower`.
unfoldable mutual
  unfolding newline_if append_plain_newline emoticon_text is_one_of

  pub render_plain_node : (Text → Text) → Text → Node → Text
  render_plain_node lowered out (text t) = out ++ t
  render_plain_node lowered out (element tag attrs children) =
      let inner =
        render_plain_nodes lowered (newline_if (is_one_of (to_lower tag) block_tags) out)
          children in
      if is_one_of (to_lower tag) unsafe_tags then out else elim (emoticon_text lowered tag attrs) [
        | some t ↦ out ++ t
        | none ↦
            if to_lower tag ≗ codes "br"
            then append_plain_newline out
            else newline_if (is_one_of (to_lower tag) block_tags) inner
      ]
  render_plain_node lowered out (other children) = render_plain_nodes lowered out children

  pub render_plain_nodes : (Text → Text) → Text → Nodes → Text
  render_plain_nodes lowered out nil = out
  render_plain_nodes lowered out (cons n ns) =
      render_plain_nodes lowered (render_plain_node lowered out n) ns

-- `findWrapperDiv`: the attributes and the children of the first div.
unfoldable mutual
  pub find_wrapper_div : Node → Option (List Attr × Nodes)
  find_wrapper_div (text t) = none
  find_wrapper_div (element tag attrs children) =
      let below = find_wrapper_div_in children in
      if equal_fold tag (codes "div") then some (attrs, children) else below
  find_wrapper_div (other children) = find_wrapper_div_in children

  pub find_wrapper_div_in : Nodes → Option (List Attr × Nodes)
  find_wrapper_div_in nil = none
  find_wrapper_div_in (cons n ns) =
      let later = find_wrapper_div_in ns in
      elim (find_wrapper_div n) [ some found ↦ some found | none ↦ later ]

module _ (url_scheme : Text → Option Text) where
  unfoldable pub is_safe_scheme : Text → Bool
  unfolding is_one_of
  is_safe_scheme s =
      is_one_of (to_lower s) (codes "http" ∷ codes "https" ∷ codes "mailto" ∷ codes "matrix" ∷ [])

  unfoldable pub has_safe_scheme : Text → Bool
  unfolding is_safe_scheme
  has_safe_scheme v = elim (url_scheme v) [ none ↦ false | some s ↦ is_safe_scheme s ]

  -- `sanitizeHref` and `extractSafeHref`: none where they return false.
  unfoldable pub sanitize_href : Text → Option Text
  unfolding has_safe_scheme
  sanitize_href value =
      let v = trim_space value in
      if is_empty v then none else if has_safe_scheme v then some v else none

  unfoldable pub extract_safe_href : List Attr → Option Text
  unfolding sanitize_href
  extract_safe_href [] = none
  extract_safe_href (a ∷ rest) =
      if equal_fold a.key (codes "href") then sanitize_href a.val else extract_safe_href rest

  -- The attributes that are written after the tag: of an "a" its address, of a "code" its language.
  unfoldable pub href_attribute : Text → List Attr → Text
  unfolding extract_safe_href escape
  href_attribute tag attrs =
      if tag ≗ codes "a"
      then elim (extract_safe_href attrs) [
        | none ↦ []
        | some href ↦ codes " href=\"" ++ escape href ++ codes "\""
      ]
      else []

  unfoldable pub class_attribute : Text → List Attr → Option (List Attr) → Text
  unfolding code_language
  class_attribute tag attrs parent =
      if tag ≗ codes "code"
      then if is_empty (code_language attrs parent)
        then []
        else codes " class=\"language-" ++ code_language attrs parent ++ codes "\""
      else []

  module _ (lowered : Text → Text) where
    -- `renderFormattedNode`: what it writes, and whether it wrote a tag; `parent` holds the
    -- attributes of the parent node, where that is an element.
    unfoldable mutual
      unfolding emoticon_text is_one_of escape href_attribute class_attribute

      pub render_formatted_node : Option (List Attr) → Node → Text × Bool
      render_formatted_node parent (text t) = (escape t, false)
      render_formatted_node parent (element tag attrs children) =
          let inner = render_formatted_nodes (some attrs) children in
          if is_one_of (to_lower tag) unsafe_tags
          then ([], false)
          else elim (emoticon_text lowered tag attrs) [
            | some t ↦ (escape t, false)
            | none ↦
                if to_lower tag ≗ codes "br"
                then (codes "<br>", true)
                else if not (is_one_of (to_lower tag) allowed_formatted_tags)
                then inner
                else (
                  codes "<"
                      ++ to_lower tag
                      ++ href_attribute (to_lower tag) attrs
                      ++ class_attribute (to_lower tag) attrs parent
                      ++ codes ">"
                      ++ inner.0
                      ++ codes "</"
                      ++ to_lower tag
                      ++ codes ">",
                  true,
                )
          ]
      render_formatted_node parent (other children) = render_formatted_nodes none children

      pub render_formatted_nodes : Option (List Attr) → Nodes → Text × Bool
      render_formatted_nodes parent nil = ([], false)
      render_formatted_nodes parent (cons n ns) =
          let first = render_formatted_node parent n in
          let rest = render_formatted_nodes parent ns in (first.0 ++ rest.0, first.1 || rest.1)

    -- `normalizeHTMLFragment` on the parsed document: the plain text before `normalizePlainText`, and
    -- the sanitized HTML; none where there is no div.
    unfoldable pub render_fragment : Node → Option (Text × Text)
    unfolding find_wrapper_div render_plain_nodes render_formatted_nodes
    render_fragment doc = elim (find_wrapper_div doc) [
      | none ↦ none
      | some (attrs, children) ↦
          let formatted = render_formatted_nodes (some attrs) children in
          some (
            render_plain_nodes lowered [] children,
            if formatted.1 then trim_space formatted.0 else [],
          )
    ]
