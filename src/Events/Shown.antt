-- ===== src/Events/Shown.antt =====
-- A rendered message shows the text with the formatting that the frames say (events.rs, format.rs).
use mathlib.Core.List.{append_assoc, append-nil}
use adaptarr_server.Prelude.{
  ℕ, ◌≡◌, inl, inr, Bool, true, false, not, ◌&&◌, ◌||◌, Bool-cases, Option, none, some, List, [],
  ◌∷◌, ◌++◌, All, ok, refl, sym, ap, ◌∙◌, subst, parts, both, ⊎_elim,
}
use adaptarr_server.Events.Renderer.{
  Format, empty, all, is_empty_format, contains, insert_format, remove, intersect, Text, Line, text,
  push_format, pop_format, hyperlink, mention, begin_row, begin_cell, end_row, end_cell, escaped,
  Renderer, push_markup, push_str, begin_paragraph, push, pop, end_paragraph, render_hyperlink,
  render_line, render_lines, render_paragraphs, new_renderer,
}
use adaptarr_server.Events.Nesting.{Styled, read_one, read, read-snoc}
use adaptarr_server.Events.Rendered.{bare, pop_all}
use adaptarr_server.Events.Meaning.{
  styled_line, in_force, styled, styled_message, IsCleanLine, IsClean,
}
use adaptarr_server.Events.Shows.{
  Shows, Rendered, pop-Agrees, shown_text, shown_link, shown_mention, shown_push, shown_pop,
}

both_bits :
    (a b : Bool) (f : Format)
    → a ≡ f.emphasis
    → b ≡ f.strong
    → record { emphasis = a; strong = b } ≡ f
both_bits a b f e h = cc (e, h)

absorbed : (a c : Bool) → (a || not c) ≡ true → (a || c) ≡ a
absorbed true c e = refl
absorbed false true e = cc e
absorbed false false e = refl

outside : (a c : Bool) → (a && c) ≡ false → (a && not c) ≡ a
outside true true e = cc e
outside true false e = refl
outside false c e = refl

within : (a c : Bool) → (a && not (a && c)) ≡ (a && not c)
within true c = refl
within false c = refl

kept : (a c : Bool) → (a || not (a && c)) ≡ true
kept true c = refl
kept false c = refl

insert_format-contains : (f g : Format) → contains f g ≡ true → insert_format f g ≡ f
unfolding insert_format contains
insert_format-contains f g e =
    let (a, b) = parts (f.emphasis || not g.emphasis) (f.strong || not g.strong) e in
    both_bits _ _ f (absorbed f.emphasis g.emphasis a) (absorbed f.strong g.strong b)

neither : (a b : Bool) → not (a || b) ≡ true → (a ≡ false) × (b ≡ false)
neither true b e = cc e
neither false true e = cc e
neither false false e = (refl, refl)

remove-apart : (f g : Format) → is_empty_format (intersect f g) ≡ true → remove f g ≡ f
unfolding remove is_empty_format intersect
remove-apart f g e =
    let (a, b) = neither (f.emphasis && g.emphasis) (f.strong && g.strong) e in
    both_bits _ _ f (outside f.emphasis g.emphasis a) (outside f.strong g.strong b)

contains-intersect : (f g : Format) → contains f (intersect f g) ≡ true
unfolding contains intersect
contains-intersect f g = both (kept f.emphasis g.emphasis) (kept f.strong g.strong)

remove-intersect : (f g : Format) → remove f (intersect f g) ≡ remove f g
unfolding remove intersect
remove-intersect f g =
    both_bits _ _ (remove f g) (within f.emphasis g.emphasis) (within f.strong g.strong)

module _ (names : ℕ → Option Text) where
  mentioned :
      (f : Format) (u : ℕ) (name : Text)
      → names u ≡ some name
      → styled_line names f (mention u) ≡ (escaped name, f) ∷ []
  mentioned f u name e = rw (e, styled_line) refl

  nothing_new :
      (out : List Styled) (f : Format) (r : Renderer) → Shows out f r → Shows (out ++ []) f r
  nothing_new out f r h = subst (λ o. Shows o f r) (sym (append-nil out)) h

  -- One frame that is clean.
  shown_line :
      (out : List Styled) (f : Format) (r : Renderer) (l : Line)
      → IsCleanLine names f l
      → Shows out f r
      → Rendered (out ++ styled_line names f l) (in_force f l) (render_line names l (f, r))
  unfolding render_line render_hyperlink
  shown_line out f r (text t) clean h = shown_text names out f r t h
  shown_line out f r (push_format g) clean h = elim (Bool-cases (contains f g)) [
    | inl held ↦ (
      r,
      rw held (ap (λ k. ok (k, r)) (sym (insert_format-contains f g held))),
      subst (λ k. Shows (out ++ []) k r) (sym (insert_format-contains f g held))
          (nothing_new out f r h),
    )
    | inr new ↦ (
      push g r,
      rw new refl,
      nothing_new out (insert_format f g) (push g r) (
          shown_push names out f r g
            (⊎_elim (λ held. absurd (cc (held, new))) (λ apart. apart) clean) h),
    )
  ]
  shown_line out f r (pop_format g) clean h = elim (Bool-cases (is_empty_format (intersect f g))) [
    | inl none_stopped ↦ (
      r,
      rw none_stopped (ap (λ k. ok (k, r)) (sym (remove-apart f g none_stopped))),
      subst (λ k. Shows (out ++ []) k r) (sym (remove-apart f g none_stopped))
          (nothing_new out f r h),
    )
    | inr stopped ↦ (
      pop (intersect f g) r,
      rw stopped (ap (λ k. ok (k, pop (intersect f g) r)) (remove-intersect f g)),
      nothing_new out (remove f g) (pop (intersect f g) r) (
          subst (λ k. Shows out k (pop (intersect f g) r)) (remove-intersect f g)
            (shown_pop names out f r (intersect f g) (contains-intersect f g) h)),
    )
  ]
  shown_line out f r (hyperlink none url) clean h =
      (_, refl, shown_link names out f r url url url url h)
  shown_line out f r (hyperlink (some label) url) clean h =
      (_, refl, shown_link names out f r label url label _ h)
  shown_line out f r (mention u) (name, e) h =
      let (r', run, shows) = shown_mention names out f r u name e h in
      (r', run, subst (λ o. Shows (out ++ o) f r') (sym (mentioned f u name e)) shows)

  shown_lines :
      (out : List Styled) (f : Format) (r : Renderer) (ls : List Line)
      → IsClean names f ls
      → Shows out f r
      → (g : Format) × Rendered (out ++ styled names f ls) g (render_lines names ls (f, r))
  unfolding render_lines
  shown_lines out f r [] clean h = (f, (r, refl, nothing_new out f r h))
  shown_lines out f r (l ∷ ls) (clean, later) h =
      let (r', run, shows) = shown_line out f r l clean h in
      let (g, (last, runs, end)) =
        shown_lines (out ++ styled_line names f l) (in_force f l) r' ls later shows in
      (
        g,
        (
          last,
          rw run runs,
          subst (λ o. Shows o g last)
              (append_assoc out (styled_line names f l) (styled names (in_force f l) ls)) end,
        ),
      )

  -- A paragraph ends with no tag open.
  shown_end :
      (out : List Styled) (f : Format) (r : Renderer)
      → Shows out f r
      → Shows out empty (end_paragraph r)
  unfolding end_paragraph push_markup push_str
  shown_end out f r h =
      let closed = pop_all r.text r.html r.first_para r.format h.simple in
      let fits =
        subst (λ fs. read [] (pop all r).html ≡ some (fs, out)) closed
          (pop-Agrees out all r h.agrees) in
      record {
        agrees =
            read-snoc [] [] [] ((pop all r).html ++ end_row ∷ []) end_cell (out ++ []) []
              (read-snoc [] [] [] (pop all r).html end_row out [] fits refl) refl
            ∙ ap (λ o. some ([], o)) (append-nil (out ++ []) ∙ append-nil out);
        simple = bare;
        same = refl;
      }

  shown_begin :
      (out : List Styled) (r : Renderer)
      → r.format ≡ []
      → Shows out empty r
      → Shows out empty (begin_paragraph r)
  unfolding begin_paragraph push_markup
  shown_begin out r closed h = record {
    agrees =
        read-snoc [] r.format r.format (r.html ++ begin_row ∷ []) (begin_cell r.first_para)
          (out ++ []) []
          (read-snoc [] r.format r.format r.html begin_row out [] h.agrees
            (rw (closed, read_one) refl))
          (rw (closed, read_one) refl)
        ∙ ap (λ o. some (r.format, o)) (append-nil (out ++ []) ∙ append-nil out);
    simple = h.simple;
    same = h.same;
  }

  ended : (r : Renderer) → (end_paragraph r).format ≡ []
  unfolding end_paragraph push_markup push_str
  ended r = refl

  shown_paragraphs :
      (out : List Styled) (r : Renderer) (ps : List (List Line))
      → All (IsClean names empty) ps
      → r.format ≡ []
      → Shows out empty r
      → (last : Renderer) × (render_paragraphs names ps r ≡ ok last)
        × (read [] last.html ≡ some ([], out ++ styled_message names ps))
  unfolding render_paragraphs
  shown_paragraphs out r [] clean closed h = (
    r,
    refl,
    h.agrees ∙ ap (λ fs. some (fs, out)) closed ∙ ap (λ o. some ([], o)) (sym (append-nil out)),
  )
  shown_paragraphs out r (p ∷ ps) (clean, later) closed h =
      let (g, (r', run, shows)) =
        shown_lines out empty (begin_paragraph r) p clean (shown_begin out r closed h) in
      let (last, runs, all_read) =
        shown_paragraphs (out ++ styled names empty p) (end_paragraph r') ps later (ended r')
          (shown_end (out ++ styled names empty p) g r' shows) in
      (
        last,
        rw run runs,
        all_read
            ∙ ap (λ o. some ([], o))
                (append_assoc out (styled names empty p) (styled_message names ps)),
      )

  -- For decoded paragraphs whose frames apply formatting of which all or none is in force, and which
  -- mention users that are there, the renderer makes markup whose tags of formatting are nested and
  -- closed in each paragraph, and each text in it has the formatting that the frames say.
  pub render_correct :
      (ps : List (List Line))
      → All (IsClean names empty) ps
      → (last : Renderer) × (render_paragraphs names ps new_renderer ≡ ok last)
        × (read [] last.html ≡ some ([], styled_message names ps))
  unfolding read
  render_correct ps clean =
      shown_paragraphs [] new_renderer ps clean refl
        (record { agrees = refl; simple = bare; same = refl })
