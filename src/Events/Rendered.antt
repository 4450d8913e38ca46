-- ===== src/Events/Rendered.antt =====
-- The formatting that a rendered message shows (events.rs, format.rs).
use adaptarr_server.Prelude.{◌≡◌, Bool, true, false, some, List, [], ◌∷◌, refl}
use adaptarr_server.Events.Renderer.{
  Format, all, is_empty_format, contains, insert_format, remove, intersect, Flag, emphasis, strong,
  just, Text, Markup, Renderer, push_markup, open_format, push, pop_loop, pop,
}
use adaptarr_server.Events.Nesting.{Styled, flags_of, read}

-- A stack with a flag at most once.
pub data Simple : List Flag → Type 0 where
  bare : Simple []
  single : (f : Flag) → Simple (f ∷ [])
  strong_in : Simple (strong ∷ emphasis ∷ [])
  emphasis_in : Simple (emphasis ∷ strong ∷ [])

abbrev pub flags : Bool → Bool → Format
flags a b = record { emphasis = a; strong = b }

-- What is read of the markup that is written so far agrees with the stack.
abbrev pub Agrees : List Styled → Renderer → Type 0
Agrees out r = read [] r.html ≡ some (r.format, out)

module _ (t : Text) (html : List Markup) (first : Bool) where
  abbrev pub at : List Flag → Renderer
  at stack = record { text = t; html = html; format = stack; first_para = first }

  -- Formatting that is in force is stopped.
  pub pop-Simple :
      (stack : List Flag) (a b : Bool)
      → Simple stack
      → contains (flags_of stack) (flags a b) ≡ true
      → Simple (pop (flags a b) (at stack)).format
        × (flags_of (pop (flags a b) (at stack)).format ≡ remove (flags_of stack) (flags a b))
  unfolding pop pop_loop push open_format push_markup is_empty_format contains remove insert_format
      just
  pop-Simple _ true true bare h = cc h
  pop-Simple _ true false bare h = cc h
  pop-Simple _ false true bare h = cc h
  pop-Simple _ false false bare h = (bare, refl)
  pop-Simple _ true true (single emphasis) h = cc h
  pop-Simple _ true false (single emphasis) h = (bare, refl)
  pop-Simple _ false true (single emphasis) h = cc h
  pop-Simple _ false false (single emphasis) h = (single emphasis, refl)
  pop-Simple _ true true (single strong) h = cc h
  pop-Simple _ true false (single strong) h = cc h
  pop-Simple _ false true (single strong) h = (bare, refl)
  pop-Simple _ false false (single strong) h = (single strong, refl)
  pop-Simple _ true true strong_in h = (bare, refl)
  pop-Simple _ true false strong_in h = (single strong, refl)
  pop-Simple _ false true strong_in h = (single emphasis, refl)
  pop-Simple _ false false strong_in h = (strong_in, refl)
  pop-Simple _ true true emphasis_in h = (bare, refl)
  pop-Simple _ true false emphasis_in h = (single strong, refl)
  pop-Simple _ false true emphasis_in h = (single emphasis, refl)
  pop-Simple _ false false emphasis_in h = (emphasis_in, refl)

  -- Formatting of which nothing is in force is applied.
  pub push-Simple :
      (stack : List Flag) (a b : Bool)
      → Simple stack
      → is_empty_format (intersect (flags_of stack) (flags a b)) ≡ true
      → Simple (push (flags a b) (at stack)).format
        × (flags_of (push (flags a b) (at stack)).format
            ≡ insert_format (flags_of stack) (flags a b))
  unfolding push open_format push_markup is_empty_format contains insert_format intersect just
  push-Simple _ true true bare h = (strong_in, refl)
  push-Simple _ true false bare h = (single emphasis, refl)
  push-Simple _ false true bare h = (single strong, refl)
  push-Simple _ false false bare h = (bare, refl)
  push-Simple _ true true (single emphasis) h = cc h
  push-Simple _ true false (single emphasis) h = cc h
  push-Simple _ false true (single emphasis) h = (strong_in, refl)
  push-Simple _ false false (single emphasis) h = (single emphasis, refl)
  push-Simple _ true true (single strong) h = cc h
  push-Simple _ true false (single strong) h = (emphasis_in, refl)
  push-Simple _ false true (single strong) h = cc h
  push-Simple _ false false (single strong) h = (single strong, refl)
  push-Simple _ true true strong_in h = cc h
  push-Simple _ true false strong_in h = cc h
  push-Simple _ false true strong_in h = cc h
  push-Simple _ false false strong_in h = (strong_in, refl)
  push-Simple _ true true emphasis_in h = cc h
  push-Simple _ true false emphasis_in h = cc h
  push-Simple _ false true emphasis_in h = cc h
  push-Simple _ false false emphasis_in h = (emphasis_in, refl)

  -- At the end of a paragraph all formatting is stopped.
  pub pop_all : (stack : List Flag) → Simple stack → (pop all (at stack)).format ≡ []
  unfolding pop pop_loop push is_empty_format contains remove insert_format just
  pop_all _ bare = refl
  pop_all _ (single emphasis) = refl
  pop_all _ (single strong) = refl
  pop_all _ strong_in = refl
  pop_all _ emphasis_in = refl
