-- ===== src/Messages/Send/Written.antt =====
-- internal/teams/client/messages.go: what formatHTMLContent writes.
use mathlib.Core.List.{append_assoc}
use mautrix_teams.Base.{
  ==_iff, ℕ, Bool, false, ◌≡◌, refl, ◌++◌, [], ◌∷◌, ◌==◌, if◌then◌else◌, arith, Bool-cases, inl,
  inr,
}
use mautrix_teams.Base.Text.{Text, codes, has_prefix}
use mautrix_teams.Model.Html.Render.{escape, escape_char}
use mautrix_teams.Messages.Send.{replace_after, replace_all, format_html_content}

-- A text in one pass: a character is escaped, and a line ends at CR, at LF, or at the two together.
-- The test says that the character before was a CR.
abbrev pub written_lines : Bool → Text → Text
written_lines after_cr [] = []
written_lines after_cr (c ∷ s) =
    let next = written_lines (c == 13) s in
    if c == 13
    then codes "<br>" ++ next
    else if c == 10
    then (if after_cr then next else codes "<br>" ++ next)
    else escape_char c ++ next

-- What becomes of a character after the pairs of CR and LF are gone.
piece : ℕ → Text
unfolding escape_char
piece c = if c == 13 then codes "<br>" else if c == 10 then codes "<br>" else escape_char c

pieces : Text → Text
unfolding piece
pieces [] = []
pieces (c ∷ s) = piece c ++ pieces s

-- The replacement of one character goes through the parts of a text.
replace-append :
    (old : ℕ) (new a b : Text)
    → replace_all (old ∷ []) new (a ++ b)
      ≡ replace_all (old ∷ []) new a ++ replace_all (old ∷ []) new b
unfolding replace_all replace_after has_prefix
replace-append old new [] b = refl
replace-append old new (c ∷ a) b = elim (Bool-cases (c == old)) [
  | inl e ↦ rw (e, replace-append old new a b) (rw (append_assoc new _ _) refl)
  | inr e ↦ rw (e, replace-append old new a b) refl
]

breaks-escape_char :
    (c : ℕ)
    → (c == 13) ≡ false
    → (c == 10) ≡ false
    → replace_all (codes "\n") (codes "<br>") (escape_char c) ≡ escape_char c
unfolding replace_all replace_after has_prefix escape_char
breaks-escape_char c cr lf = ground arith

breaks-pieces :
    (s : Text)
    → replace_all (codes "\n") (codes "<br>") (escape (replace_all (codes "\r") (codes "\n") s))
      ≡ pieces s
unfolding replace_all replace_after has_prefix escape pieces piece
breaks-pieces [] = refl
breaks-pieces (c ∷ s) =
    let rest = escape (replace_all (codes "\r") (codes "\n") s) in
    elim (Bool-cases (c == 13)) [
      | inl cr ↦
          rw (cr, replace-append 10 (codes "<br>") (escape_char 10) rest, breaks-pieces s) refl
      | inr cr ↦ elim (Bool-cases (c == 10)) [
        | inl lf ↦
            let e : c ≡ 10 = (==_iff c 10).0 lf in
            rw (e, replace-append 10 (codes "<br>") (escape_char 10) rest, breaks-pieces s) refl
        | inr lf ↦
            rw
              (
                cr,
                lf,
                replace-append 10 (codes "<br>") (escape_char c) rest,
                breaks-escape_char c cr lf,
                breaks-pieces s,
              )
              refl
      ]
    ]

pairs-lines :
    (s : Text) → pieces (replace_all (codes "\r\n") (codes "\n") s) ≡ written_lines false s
unfolding replace_all replace_after has_prefix pieces piece
pairs-lines [] = refl
pairs-lines (c ∷ []) = ground arith
pairs-lines (c ∷ d ∷ s) = elim (Bool-cases (c == 13)) [
  | inl cr ↦
      let e : c ≡ 13 = (==_iff c 13).0 cr in
      elim (Bool-cases (d == 10)) [
        | inl lf ↦ let f : d ≡ 10 = (==_iff d 10).0 lf in rw (e, f, pairs-lines s) refl
        | inr lf ↦ rw (e, lf, pairs-lines (d ∷ s)) (rw lf refl)
      ]
  | inr cr ↦ elim (Bool-cases (c == 10)) [
    | inl lf ↦ let e : c ≡ 10 = (==_iff c 10).0 lf in rw (e, pairs-lines (d ∷ s)) refl
    | inr lf ↦ rw (cr, lf, pairs-lines (d ∷ s)) (rw cr refl)
  ]
]

-- formatHTMLContent writes one paragraph: its characters are escaped, and a line break stands for
-- each CR, LF and pair of them, and for nothing else.
pub format_html_content_lem :
    (s : Text) → format_html_content s ≡ codes "<p>" ++ written_lines false s ++ codes "</p>"
unfolding format_html_content
format_html_content_lem s =
    rw (breaks-pieces (replace_all (codes "\r\n") (codes "\n") s), pairs-lines s) refl
