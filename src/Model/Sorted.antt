-- ===== src/Model/Sorted.antt =====
-- `sort.Strings` and `strings.Join`.
use mautrix_teams.Base.{List, [], ◌∷◌, ◌++◌, if◌then◌else◌}
use mautrix_teams.Base.Text.{Text}
use mautrix_teams.Model.Sequence.{compare_texts}
use mautrix_teams.Cursor.{is_greater}

-- `sort.Strings`, by insertion.
unfoldable pub insert_sorted : Text → List Text → List Text
insert_sorted part [] = part ∷ []
insert_sorted part (next ∷ rest) =
    let later = insert_sorted part rest in
    if is_greater (compare_texts part next) then next ∷ later else part ∷ next ∷ rest

unfoldable pub sort_texts : List Text → List Text
unfolding insert_sorted
sort_texts [] = []
sort_texts (part ∷ rest) = insert_sorted part (sort_texts rest)

-- `strings.Join(parts, separator)`.
unfoldable pub join_texts : List Text → Text → Text
join_texts [] separator = []
join_texts (part ∷ []) separator = part
join_texts (part ∷ next ∷ rest) separator = part ++ separator ++ join_texts (next ∷ rest) separator
