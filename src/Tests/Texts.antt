-- ===== src/Tests/Texts.antt =====
-- Sequence IDs and the sanitized HTML at concrete inputs.
use mautrix_teams.Base.{true, false, ◌≡◌, refl, Option, none, some, [], ◌∷◌, ◌++◌}
use mautrix_teams.Base.Text.{to_lower, contains, trim_space, has_prefix, Text, codes, cut, ◌≗◌}
use mautrix_teams.Naming.{
  NamedThread, is_generic_chat_name, is_placeholder_dm_name, named, renamed, stored_name,
  apply_room_name, structured_room_name, has_type_prefix,
}
use mautrix_teams.Naming.Settled.{is_kind_named, named-again}
use mautrix_teams.Model.Html.{Nodes, text, element, nil, cons}
use mautrix_teams.Model.Html.Render.{render_formatted_nodes}
use mautrix_teams.Model.Html.Marked.{render_formatted_nodes-IsPlain}
use mautrix_teams.Model.Html.Safe.{is_plain, IsSafe, render_formatted_nodes-IsSafe}

-- The scheme of an address, as the text before its first colon.
abbrev scheme_of : Option (Text × Text) → Option Text
scheme_of none = some []
scheme_of (some (scheme, rest)) = some scheme

abbrev url_scheme : Text → Option Text
url_scheme v = scheme_of (cut v (codes ":"))

-- A script, a link that is not allowed and a paragraph.
abbrev mixed : Nodes
mixed = cons (element (codes "script") [] (cons (text (codes "alert(1)")) nil)) (
    cons
      (element (codes "a") (record { key = codes "href"; val = codes "javascript:x" } ∷ [])
        (cons (text (codes "a<b")) nil))
      (cons (element (codes "p") [] nil) nil))

render_formatted_nodes-IsSafe_example :
    IsSafe url_scheme (render_formatted_nodes url_scheme to_lower none mixed).0
render_formatted_nodes-IsSafe_example = render_formatted_nodes-IsSafe url_scheme to_lower none mixed

abbrev only_text : Nodes
only_text = cons (text (codes "a<b")) nil

only_text-unmarked : (render_formatted_nodes url_scheme to_lower none only_text).1 ≡ false
unfolding render_formatted_nodes
only_text-unmarked = refl

render_formatted_nodes-IsPlain_example :
    is_plain (render_formatted_nodes url_scheme to_lower none only_text).0 ≡ true
render_formatted_nodes-IsPlain_example =
    render_formatted_nodes-IsPlain url_scheme to_lower none only_text only_text-unmarked

abbrev ann_chat : NamedThread
ann_chat = record {
  thread_id = codes "19:a_b@unq.gbl.spaces";
  is_one_to_one = true;
  counterpart = [];
  resolved = [];
}

ann_chat-named : is_kind_named ann_chat ≡ true
unfolding contains
ann_chat-named = refl

ann-chosen : is_generic_chat_name (codes "Ann") ≡ false
unfolding is_generic_chat_name trim_space ◌≗◌
ann-chosen = refl

ann-known : is_placeholder_dm_name (codes "DM: " ++ codes "Ann") ≡ false
unfolding is_placeholder_dm_name has_prefix
ann-known = refl

named-again_example :
    let n = (named [] ann_chat (codes "Ann") none).0 in
    named [] ann_chat (codes "Ann") (some n) ≡ (n, false)
named-again_example = named-again [] ann_chat (codes "Ann") none ann_chat-named ann-chosen ann-known

ann_named : named [] ann_chat (codes "Ann") none ≡ (codes "DM: Ann", true)
unfolding named stored_name apply_room_name renamed structured_room_name contains has_type_prefix
    has_prefix ◌≗◌
ann_named = refl
