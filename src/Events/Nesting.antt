-- ===== src/Events/Nesting.antt =====
-- What the markup of a rendered message says: which text stands in which tags.
use mathlib.Core.List.{append_assoc, append-nil}
use adaptarr_server.Prelude.{
  ◌≡◌, true, false, Option, none, some, List, [], ◌∷◌, ◌++◌, refl, Option-cases, Bool-cases, inl,
  inr, sym, ap, ◌∙◌, subst,
}
use adaptarr_server.Events.Renderer.{
  Format, empty, is_empty_format, contains, insert_format, remove, Flag, emphasis, strong, just,
  Markup, begin_row, begin_cell, end_row, end_cell, open_tag, close_tag, escaped, anchor, pop_loop,
}

-- A piece of text and the formatting it has.
abbrev pub Styled : Type 0
Styled = Markup × Format

-- The formatting of the tags that are open.
abbrev pub flags_of : List Flag → Format
flags_of [] = empty
flags_of (f ∷ fs) = insert_format (just f) (flags_of fs)

abbrev pub prepend :
    List Styled → Option (List Flag × List Styled) → Option (List Flag × List Styled)
prepend out none = none
prepend out (some (open', later)) = some (open', out ++ later)

-- One piece of markup as a browser reads it behind the tags that are open: the tags that are open
-- after it, and the text with the formatting of the tags around it. There is no such reading of the
-- end of a tag of formatting that is not the last one opened, or of a row or a cell that begins or
-- ends with such a tag open. How rows and cells stand to one another is not looked at.
abbrev pub read_one : List Flag → Markup → Option (List Flag × List Styled)
read_one [] begin_row = some ([], [])
read_one (f ∷ fs) begin_row = none
read_one [] (begin_cell first) = some ([], [])
read_one (f ∷ fs) (begin_cell first) = none
read_one [] end_row = some ([], [])
read_one (f ∷ fs) end_row = none
read_one [] end_cell = some ([], [])
read_one (f ∷ fs) end_cell = none
read_one fs (open_tag f) = some (f ∷ fs, [])
read_one [] (close_tag f) = none
read_one (emphasis ∷ fs) (close_tag emphasis) = some (fs, [])
read_one (emphasis ∷ fs) (close_tag strong) = none
read_one (strong ∷ fs) (close_tag strong) = some (fs, [])
read_one (strong ∷ fs) (close_tag emphasis) = none
read_one fs (escaped t) = some (fs, (escaped t, flags_of fs) ∷ [])
read_one fs (anchor url label) = some (fs, (anchor url label, flags_of fs) ∷ [])

unfoldable pub read : List Flag → List Markup → Option (List Flag × List Styled)
read fs [] = some (fs, [])
read fs (m ∷ ms) = elim (read_one fs m) [ none ↦ none | some (gs, out) ↦ prepend out (read gs ms) ]

prepend-append :
    (xs ys : List Styled) (o : Option (List Flag × List Styled))
    → prepend xs (prepend ys o) ≡ prepend (xs ++ ys) o
prepend-append xs ys none = refl
prepend-append xs ys (some (fs, later)) = ap (λ zs. some (fs, zs)) (sym (append_assoc xs ys later))

from_prepend :
    (xs out : List Styled) (gs : List Flag) (o : Option (List Flag × List Styled))
    → prepend xs o ≡ some (gs, out)
    → (ys : List Styled) × (o ≡ some (gs, ys)) × (xs ++ ys ≡ out)
from_prepend xs out gs none e = cc e
from_prepend xs out gs (some (fs, ys)) e = (ys, cc e, cc e)

prepend_none : (o : Option (List Flag × List Styled)) → prepend [] o ≡ o
prepend_none none = refl
prepend_none (some (fs, later)) = refl

-- Markup that is read as far as `ms` is read on behind it.
read-append :
    (fs gs : List Flag) (ms ns : List Markup) (out : List Styled)
    → read fs ms ≡ some (gs, out)
    → read fs (ms ++ ns) ≡ prepend out (read gs ns)
unfolding read
read-append fs gs [] ns out e =
    let same : fs ≡ gs = cc e in
    let nothing : [] ≡ out = cc e in
    subst (λ hs. read fs ns ≡ prepend out (read hs ns)) same
      (subst (λ o. read fs ns ≡ prepend o (read fs ns)) nothing (sym (prepend_none (read fs ns))))
read-append fs gs (m ∷ ms) ns out e = elim (Option-cases (read_one fs m)) [
  | inl stuck ↦ cc (rw (stuck, read) at e)
  | inr ((hs, first), one) ↦
      let (later, rest, whole) = from_prepend first out gs (read hs ms) (rw (one, read) at e) in
      rw (one, read)
        (ap (prepend first) (read-append hs gs ms ns later rest)
          ∙ prepend-append first later (read gs ns)
          ∙ ap (λ o. prepend o (read gs ns)) whole)
]

-- One more piece of markup.
pub read-snoc :
    (fs gs hs : List Flag) (ms : List Markup) (m : Markup) (out new : List Styled)
    → read fs ms ≡ some (gs, out)
    → read_one gs m ≡ some (hs, new)
    → read fs (ms ++ m ∷ []) ≡ some (hs, out ++ new)
unfolding read
read-snoc fs gs hs ms m out new e one =
    read-append fs gs ms (m ∷ []) out e
    ∙ rw (one, prepend) (ap (λ o. some (hs, out ++ o)) (append-nil new))

-- A tag in front of the others.
pub read-open :
    (fs gs : List Flag) (f : Flag) (ms : List Markup) (out : List Styled)
    → read fs ms ≡ some (gs, out)
    → read fs (ms ++ open_tag f ∷ []) ≡ some (f ∷ gs, out)
read-open fs gs f ms out e =
    read-snoc fs gs (f ∷ gs) ms (open_tag f) out [] e refl
    ∙ ap (λ o. some (f ∷ gs, o)) (append-nil out)

pub read-close :
    (fs gs : List Flag) (f : Flag) (ms : List Markup) (out : List Styled)
    → read fs ms ≡ some (f ∷ gs, out)
    → read fs (ms ++ close_tag f ∷ []) ≡ some (gs, out)
read-close fs gs emphasis ms out e =
    read-snoc fs (emphasis ∷ gs) gs ms (close_tag emphasis) out [] e refl
    ∙ ap (λ o. some (gs, o)) (append-nil out)
read-close fs gs strong ms out e =
    read-snoc fs (strong ∷ gs) gs ms (close_tag strong) out [] e refl
    ∙ ap (λ o. some (gs, o)) (append-nil out)

module _ (format reapply : Format) (f : Flag) (stack : List Flag) (ms : List Markup) where
  over_step :
      is_empty_format format ≡ true
      → pop_loop format reapply (f ∷ stack) ms ≡ ((f ∷ stack, ms), reapply)
  unfolding pop_loop
  over_step e = rw (e, pop_loop) refl

  stop_step :
      is_empty_format format ≡ false
      → contains format (just f) ≡ true
      → pop_loop format reapply (f ∷ stack) ms
        ≡ pop_loop (remove format (just f)) reapply stack (ms ++ close_tag f ∷ [])
  unfolding pop_loop
  stop_step e h = cc (e, h)

  again_step :
      is_empty_format format ≡ false
      → contains format (just f) ≡ false
      → pop_loop format reapply (f ∷ stack) ms
        ≡ pop_loop format (insert_format reapply (just f)) stack (ms ++ close_tag f ∷ [])
  unfolding pop_loop
  again_step e h = cc (e, h)

-- What is read of the markup agrees with the stack.
abbrev pub Fits : List Styled → (List Flag × List Markup) × Format → Type 0
Fits out x = read [] x.0.1 ≡ some (x.0.0, out)

-- The loop that stops formatting closes the tags that it takes from the stack.
pub pop_loop-Fits :
    (format reapply : Format) (stack : List Flag) (ms : List Markup) (out : List Styled)
    → read [] ms ≡ some (stack, out)
    → Fits out (pop_loop format reapply stack ms)
unfolding pop_loop
pop_loop-Fits format reapply [] ms out e = e
pop_loop-Fits format reapply (f ∷ stack) ms out e = elim (Bool-cases (is_empty_format format)) [
  | inl over ↦ subst (Fits out) (sym (over_step format reapply f stack ms over)) e
  | inr more ↦ elim (Bool-cases (contains format (just f))) [
    | inl stopped ↦ subst (Fits out) (sym (stop_step format reapply f stack ms more stopped)) (
        pop_loop-Fits (remove format (just f)) reapply stack (ms ++ close_tag f ∷ []) out
          (read-close [] stack f ms out e))
    | inr again ↦ subst (Fits out) (sym (again_step format reapply f stack ms more again)) (
        pop_loop-Fits format (insert_format reapply (just f)) stack (ms ++ close_tag f ∷ []) out
          (read-close [] stack f ms out e))
  ]
]
