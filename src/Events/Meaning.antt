-- ===== src/Events/Meaning.antt =====
-- What the frames of a message say about the formatting of its text (format.rs).
use adaptarr_server.Prelude.{ℕ, ◌≡◌, ◌⊎◌, true, Option, none, some, List, [], ◌∷◌, ◌++◌}
use adaptarr_server.Events.Renderer.{
  Format, empty, is_empty_format, contains, insert_format, remove, intersect, Text, Line, text,
  push_format, pop_format, hyperlink, mention, escaped, anchor,
}
use adaptarr_server.Events.Nesting.{Styled}

-- What a paragraph says, by the meaning of its frames: applied formatting is added to what is in
-- force, stopped formatting is taken away.
abbrev pub styled_line : (ℕ → Option Text) → Format → Line → List Styled
styled_line names f (text t) = (escaped t, f) ∷ []
styled_line names f (push_format g) = []
styled_line names f (pop_format g) = []
styled_line names f (hyperlink none url) = (anchor url url, f) ∷ []
styled_line names f (hyperlink (some label) url) = (anchor url label, f) ∷ []
styled_line names f (mention u) = elim (names u) [ none ↦ [] | some name ↦ (escaped name, f) ∷ [] ]

abbrev pub in_force : Format → Line → Format
in_force f (push_format g) = insert_format f g
in_force f (pop_format g) = remove f g
in_force f (text t) = f
in_force f (hyperlink label url) = f
in_force f (mention u) = f

abbrev pub styled : (ℕ → Option Text) → Format → List Line → List Styled
styled names f [] = []
styled names f (l ∷ ls) = styled_line names f l ++ styled names (in_force f l) ls

abbrev pub styled_message : (ℕ → Option Text) → List (List Line) → List Styled
styled_message names [] = []
styled_message names (p ∷ ps) = styled names empty p ++ styled_message names ps

-- A frame applies formatting of which all is in force or none is, and mentions users that are there.
abbrev pub IsCleanLine : (ℕ → Option Text) → Format → Line → Type 0
IsCleanLine names f (push_format g) =
    (contains f g ≡ true) ⊎ (is_empty_format (intersect f g) ≡ true)
IsCleanLine names f (mention u) = (name : Text) × (names u ≡ some name)
IsCleanLine names f (text t) = Unit
IsCleanLine names f (pop_format g) = Unit
IsCleanLine names f (hyperlink label url) = Unit

abbrev pub IsClean : (ℕ → Option Text) → Format → List Line → Type 0
IsClean names f [] = Unit
IsClean names f (l ∷ ls) = IsCleanLine names f l × IsClean names (in_force f l) ls
