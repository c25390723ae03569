-- ===== src/Model/Html/Marked.antt =====
-- internal/teams/model/message_html.go: when the sanitized HTML is worth sending.
use mautrix_teams.Base.{
  Bool, true, false, not, ◌||◌, Option, none, some, List, ◌⊎◌, inl, inr, ◌≡◌, refl, Bool-cases,
  Option-cases, arith, ◌++◌,
}
use mautrix_teams.Base.Text.{Text, codes, to_lower, ◌≗◌}
use mautrix_teams.Model.Html.{
  Attr, Node, Nodes, text, element, other, nil, cons, allowed_formatted_tags, unsafe_tags,
  is_one_of, emoticon_text,
}
use mautrix_teams.Model.Html.Render.{render_formatted_node, render_formatted_nodes}
use mautrix_teams.Model.Html.Safe.{is_plain, is_plain-append, escape-IsPlain, empty-IsPlain}

-- A tag was written, or the text that was written has none of < > " '.
abbrev IsMarked : Text × Bool → Type 0
IsMarked r = (r.1 ≡ true) ⊎ (is_plain r.0 ≡ true)

append-IsMarked :
    (s t : Text) (a b : Bool) → IsMarked (s, a) → IsMarked (t, b) → IsMarked (s ++ t, a || b)
append-IsMarked s t true b h k = inl refl
append-IsMarked s t false true h k = inl refl
append-IsMarked s t false false (inl e) k = ground arith
append-IsMarked s t false false (inr e) (inl f) = ground arith
append-IsMarked s t false false (inr e) (inr f) = inr (is_plain-append s t e f)

module _ (url_scheme : Text → Option Text) where
  module _ (lowered : Text → Text) where
    mutual
      unfolding render_formatted_node render_formatted_nodes

      node-IsMarked :
          (parent : Option (List Attr)) (n : Node)
          → IsMarked (render_formatted_node url_scheme lowered parent n)
      node-IsMarked parent (text t) = inr (escape-IsPlain t)
      node-IsMarked parent (element tag attrs children) =
          let inner = nodes-IsMarked (some attrs) children in
          elim (Bool-cases (is_one_of (to_lower tag) unsafe_tags)) [
            | inl e ↦ rw e (inr empty-IsPlain)
            | inr e ↦ elim (Option-cases (emoticon_text lowered tag attrs)) [
              | inr (t, f) ↦ rw (e, f) (inr (escape-IsPlain t))
              | inl f ↦ elim (Bool-cases (not (is_one_of (to_lower tag) allowed_formatted_tags))) [
                | inl h ↦ elim (Bool-cases (to_lower tag ≗ codes "br")) [
                  | inl g ↦ rw (e, f, h, g) (inl refl)
                  | inr g ↦ rw (e, f, h, g) inner
                ]
                | inr h ↦ elim (Bool-cases (to_lower tag ≗ codes "br")) [
                  | inl g ↦ rw (e, f, h, g) (inl refl)
                  | inr g ↦ rw (e, f, h, g) (inl refl)
                ]
              ]
            ]
          ]
      node-IsMarked parent (other children) = nodes-IsMarked none children

      nodes-IsMarked :
          (parent : Option (List Attr)) (ns : Nodes)
          → IsMarked (render_formatted_nodes url_scheme lowered parent ns)
      nodes-IsMarked parent nil = inr empty-IsPlain
      nodes-IsMarked parent (cons n ns) =
          append-IsMarked _ _ _ _ (node-IsMarked parent n) (nodes-IsMarked parent ns)

    -- Where no tag is reported as written, the text that is written has none of < > " '.
    pub render_formatted_nodes-IsPlain :
        (parent : Option (List Attr)) (ns : Nodes)
        → (render_formatted_nodes url_scheme lowered parent ns).1 ≡ false
        → is_plain (render_formatted_nodes url_scheme lowered parent ns).0 ≡ true
    render_formatted_nodes-IsPlain parent ns h = elim (nodes-IsMarked parent ns) [
      | inl e ↦ absurd (cc)
      | inr e ↦ e
    ]
