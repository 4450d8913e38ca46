-- ===== src/Events/Renderer.antt =====
-- The renderer of messages for mail: `MessageRenderer` of crates/models/src/events/events.rs, and
-- what `render` of crates/models/src/models/conversation/format.rs calls for a frame that it has
-- decoded. Its loops over frames are left out: they stop where ReadBytes::is_empty is true, which is
-- so before the first frame (see `Format`). A text is the list of its characters.
use adaptarr_server.Prelude.{
  ℕ, Bool, true, false, not, ◌&&◌, ◌||◌, Option, none, some, List, [], ◌∷◌, ◌++◌, if◌then◌else◌,
  Result, ok, expect, ◌>>=◌,
}
use adaptarr_server.Format.Frames.{Error}

-- The set of flags `Format` of the crate `bitflags`, which has two flags.
pub record Format : Type 0 where
  pub emphasis : Bool
  pub strong : Bool

abbrev pub empty : Format
empty = record { emphasis = false; strong = false }

abbrev pub all : Format
all = record { emphasis = true; strong = true }

unfoldable pub is_empty_format : Format → Bool
is_empty_format f = not (f.emphasis || f.strong)

unfoldable pub contains : Format → Format → Bool
contains f g = (f.emphasis || not g.emphasis) && (f.strong || not g.strong)

unfoldable pub insert_format : Format → Format → Format
insert_format f g = record { emphasis = f.emphasis || g.emphasis; strong = f.strong || g.strong }

unfoldable pub remove : Format → Format → Format
remove f g = record { emphasis = f.emphasis && not g.emphasis; strong = f.strong && not g.strong }

unfoldable pub intersect : Format → Format → Format
intersect f g = record { emphasis = f.emphasis && g.emphasis; strong = f.strong && g.strong }

-- One flag, as the stack of the renderer has it.
pub data Flag : Type 0 where
  emphasis strong : Flag

unfoldable pub just : Flag → Format
just emphasis = record { emphasis = true; strong = false }
just strong = record { emphasis = false; strong = true }

abbrev pub Text : Type 0
Text = List ℕ

-- The frames of a paragraph.
pub data Line : Type 0 where
  text : Text → Line
  push_format pop_format : Format → Line
  hyperlink : Option Text → Text → Line
  mention : ℕ → Line

-- What is written to the string `html`, piece by piece: `<tr>`; the start of a cell, whose padding at
-- the top is that of a first one or not; `</tr>` and `</td>`; `<em>` or `<strong>`, its end; and text
-- that is escaped, in a link or not.
pub data Markup : Type 0 where
  begin_row : Markup
  begin_cell : Bool → Markup
  end_row end_cell : Markup
  open_tag close_tag : Flag → Markup
  escaped : Text → Markup
  anchor : Text → Text → Markup

-- The renderer. The top of the stack is its head.
pub record Renderer : Type 0 where
  pub text : Text
  pub html : List Markup
  pub format : List Flag
  pub first_para : Bool

abbrev pub new_renderer : Renderer
new_renderer = record { text = []; html = []; format = []; first_para = true }

-- `html.push_str` and `text.push_str`.
unfoldable pub push_markup : Markup → Renderer → Renderer
push_markup piece r = record r { html = r.html ++ piece ∷ [] }

unfoldable pub push_str : Text → Renderer → Renderer
push_str t r = record r { text = r.text ++ t }

unfoldable pub begin_paragraph : Renderer → Renderer
begin_paragraph r = record (push_markup (begin_cell r.first_para) (push_markup begin_row r)) {
  first_para = false;
}

unfoldable pub render_text : Text → Renderer → Renderer
render_text t r = push_markup (escaped t) (push_str t r)

-- `self.format.push(f)` and the tag.
unfoldable pub open_format : Flag → Renderer → Renderer
open_format f r = push_markup (open_tag f) (record r { format = f ∷ r.format })

unfoldable pub push : Format → Renderer → Renderer
push f r =
    let r' = if f.emphasis then open_format emphasis r else r in
    if f.strong then open_format strong r' else r'

-- The loop: the flags that are left to stop, and those to apply again, `reapply`.
unfoldable pub pop_loop :
    Format → Format → List Flag → List Markup → (List Flag × List Markup) × Format
pop_loop format reapply [] html = (([], html), reapply)
pop_loop format reapply (f ∷ stack) html = elim (is_empty_format format) [
  | true ↦ ((f ∷ stack, html), reapply)
  | false ↦ elim (contains format (just f)) [
    | true ↦ pop_loop (remove format (just f)) reapply stack (html ++ close_tag f ∷ [])
    | false ↦ pop_loop format (insert_format reapply (just f)) stack (html ++ close_tag f ∷ [])
  ]
]

unfoldable pub pop : Format → Renderer → Renderer
pop format r =
    let out = pop_loop format empty r.format r.html in
    let r' : Renderer = record r { format = out.0.0; html = out.0.1 } in
    if is_empty_format out.1 then r' else push out.1 r'

-- The source ends the row before the cell.
unfoldable pub end_paragraph : Renderer → Renderer
end_paragraph r =
    let r' = push_str (10 ∷ 10 ∷ []) (record (pop all r) { format = [] }) in
    push_markup end_cell (push_markup end_row r')

-- ` (url)` behind a label.
unfoldable pub render_hyperlink : Option Text → Text → Renderer → Renderer
render_hyperlink none url r = push_markup (anchor url url) (push_str url r)
render_hyperlink (some label) url r =
    push_markup (anchor url label) (push_str (label ++ 32 ∷ 40 ∷ url ++ 41 ∷ []) r)

-- One turn of the loop of `render` for a decoded frame; the set is the format of the text in force. The first argument has the names of the
-- users; a mention of one who is not there panics.
unfoldable pub render_line :
    (ℕ → Option Text) → Line → Format × Renderer → Result Error (Format × Renderer)
render_line names (text t) (format, r) = ok (format, render_text t r)
render_line names (push_format flags) (format, r) =
    if contains format flags then ok (format, r) else ok (insert_format format flags, push flags r)
render_line names (pop_format flags) (format, r) =
    let stopped = intersect format flags in
    if is_empty_format stopped then ok (format, r) else ok (remove format stopped, pop stopped r)
render_line names (hyperlink label url) (format, r) = ok (format, render_hyperlink label url r)
render_line names (mention user) (format, r) =
    expect (names user) >>= λ name. ok (format, render_text name r)

-- The calls for decoded frames, in order.
unfoldable pub render_lines :
    (ℕ → Option Text) → List Line → Format × Renderer → Result Error (Format × Renderer)
render_lines names [] s = ok s
render_lines names (l ∷ ls) s = render_line names l s >>= λ s. render_lines names ls s

-- The calls for decoded paragraphs, in order.
unfoldable pub render_paragraphs :
    (ℕ → Option Text) → List (List Line) → Renderer → Result Error Renderer
render_paragraphs names [] r = ok r
render_paragraphs names (p ∷ ps) r = render_lines names p (empty, begin_paragraph r) >>= λ s.
    render_paragraphs names ps (end_paragraph s.1)
