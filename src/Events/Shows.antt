-- ===== src/Events/Shows.antt =====
-- What one frame adds to a rendered message (events.rs, format.rs).
use adaptarr_server.Prelude.{
  ℕ, ◌≡◌, inl, inr, Bool, true, false, Bool-cases, Option, some, List, [], ◌∷◌, ◌++◌, if◌then◌else◌,
  Result, ok, expect, refl, sym, ap, ◌∙◌, subst,
}
use adaptarr_server.Format.Frames.{Error}
use adaptarr_server.Events.Renderer.{
  Format, empty, is_empty_format, contains, insert_format, remove, intersect, Flag, emphasis,
  strong, Text, text, mention, Markup, escaped, anchor, Renderer, push_markup, push_str,
  render_text, open_format, push, pop_loop, pop, render_line,
}
use adaptarr_server.Events.Nesting.{Styled, flags_of, read_one, read-snoc, read-open, pop_loop-Fits}
use adaptarr_server.Events.Rendered.{Simple, Agrees, pop-Simple, push-Simple}

module _ (out : List Styled) where
  open_format-Agrees : (f : Flag) (r : Renderer) → Agrees out r → Agrees out (open_format f r)
  unfolding open_format push_markup
  open_format-Agrees f r e = read-open [] r.format f r.html out e

  pub push-Agrees : (f : Format) (r : Renderer) → Agrees out r → Agrees out (push f r)
  unfolding push
  push-Agrees f r e = elim (Bool-cases f.emphasis) [
    | inl a ↦ elim (Bool-cases f.strong) [
      | inl b ↦ rw (a, b) (open_format-Agrees strong _ (open_format-Agrees emphasis r e))
      | inr b ↦ rw (a, b) (open_format-Agrees emphasis r e)
    ]
    | inr a ↦ elim (Bool-cases f.strong) [
      | inl b ↦ rw (a, b) (open_format-Agrees strong r e)
      | inr b ↦ rw (a, b) e
    ]
  ]

  either-Agrees :
      (b : Bool) (x y : Renderer) → Agrees out x → Agrees out y → Agrees out (if b then x else y)
  either-Agrees true x y e h = e
  either-Agrees false x y e h = h

  pub pop-Agrees : (f : Format) (r : Renderer) → Agrees out r → Agrees out (pop f r)
  unfolding pop
  pop-Agrees f r e =
      let fits = pop_loop-Fits f empty r.format r.html out e in
      either-Agrees (is_empty_format (pop_loop f empty r.format r.html).1) _ _ fits
        (push-Agrees _ _ fits)

  push_markup-Agrees :
      (m : Markup) (r : Renderer) (t : Text) (new : List Styled)
      → read_one r.format m ≡ some (r.format, new)
      → Agrees out r
      → Agrees (out ++ new) (push_markup m (push_str t r))
  unfolding push_markup push_str
  push_markup-Agrees m r t new one e = read-snoc [] r.format r.format r.html m out new e one

-- The renderer has shown `out`, and its stack holds the formatting in force.
pub record Shows (out : List Styled) (format : Format) (r : Renderer) : Type 0 where
  pub agrees : Agrees out r
  pub simple : Simple r.format
  pub same : flags_of r.format ≡ format

pub written :
    (out : List Styled) (f : Format) (m : Markup) (r : Renderer) (t : Text) (new : List Styled)
    → read_one r.format m ≡ some (r.format, new)
    → Shows out f r
    → Shows (out ++ new) f (push_markup m (push_str t r))
unfolding push_markup push_str
written out f m r t new one h = record {
  agrees = push_markup-Agrees out m r t new one h.agrees;
  simple = h.simple;
  same = h.same;
}

-- A frame that is rendered.
abbrev pub Rendered : List Styled → Format → Result Error (Format × Renderer) → Type 0
Rendered out f result = (r : Renderer) × (result ≡ ok (f, r)) × Shows out f r

module _ (names : ℕ → Option Text) (out : List Styled) (f : Format) (r : Renderer) where
  pub shown_text :
      (t : Text)
      → Shows out f r
      → Rendered (out ++ (escaped t, f) ∷ []) f (render_line names (text t) (f, r))
  unfolding render_line render_text
  shown_text t h = (
    _,
    refl,
    written out f (escaped t) r t _ (ap (λ g. some (r.format, (escaped t, g) ∷ [])) h.same) h,
  )

  pub shown_link :
      (label url shown t : Text)
      → Shows out f r
      → Shows (out ++ (anchor url label, f) ∷ []) f (push_markup (anchor url label) (push_str t r))
  shown_link label url shown t h =
      written out f (anchor url label) r t _
        (ap (λ g. some (r.format, (anchor url label, g) ∷ [])) h.same) h

  pub shown_mention :
      (u : ℕ) (name : Text)
      → names u ≡ some name
      → Shows out f r
      → Rendered (out ++ (escaped name, f) ∷ []) f (render_line names (mention u) (f, r))
  unfolding render_line render_text expect
  shown_mention u name e h = (
    render_text name r,
    cc e,
    written out f (escaped name) r name _ (ap (λ g. some (r.format, (escaped name, g) ∷ [])) h.same)
        h,
  )

  pub shown_push :
      (g : Format)
      → is_empty_format (intersect f g) ≡ true
      → Shows out f r
      → Shows out (insert_format f g) (push g r)
  shown_push g apart h =
      let (simple, same) =
        push-Simple r.text r.html r.first_para r.format g.emphasis g.strong h.simple
          (subst (λ k. is_empty_format (intersect k g) ≡ true) (sym h.same) apart) in
      record {
        agrees = push-Agrees out g r h.agrees;
        simple = simple;
        same = same ∙ ap (λ k. insert_format k g) h.same;
      }

  pub shown_pop :
      (g : Format) → contains f g ≡ true → Shows out f r → Shows out (remove f g) (pop g r)
  shown_pop g held h =
      let (simple, same) =
        pop-Simple r.text r.html r.first_para r.format g.emphasis g.strong h.simple
          (subst (λ k. contains k g ≡ true) (sym h.same) held) in
      record {
        agrees = pop-Agrees out g r h.agrees;
        simple = simple;
        same = same ∙ ap (λ k. remove k g) h.same;
      }
