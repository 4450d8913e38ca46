-- ===== src/Events/Examples.antt =====
-- Messages and events at concrete values.
use adaptarr_server.Prelude.{
  ℕ, ◌<◌, ◌≡◌, ◌⊎◌, inl, inr, ◌==◌, Bool, true, false, Option, none, some, String, List, [], ◌∷◌,
  ◌++◌, All, if◌then◌else◌, ok, err, panic, stuck, refl, ap, arith,
}
use adaptarr_server.Storage.{In, Table}
use adaptarr_server.Storage.Lists.{list_table}
use adaptarr_server.Process.{SlotPermission, view, edit, propose_changes, accept_changes}
use adaptarr_server.Locales.{len_utf8}
use adaptarr_server.Events.Renderer.{
  Format, contains, is_empty_format, intersect, insert_format, remove, just, Text, Line, Renderer,
  Flag, emphasis, strong, new_renderer, render_paragraphs, render_lines, render_line, render_text,
  push_format, pop_format, text as say, escaped, Markup, empty, begin_paragraph, end_paragraph,
  push, pop, pop_loop, open_format, push_markup, push_str,
}
use adaptarr_server.Events.Nesting.{read}
use adaptarr_server.Events.Meaning.{styled_message}
use adaptarr_server.Events.Shown.{render_correct}
use adaptarr_server.Events.Finish.{rfind_from, end_of, truncate, finish, finish_correct}
use adaptarr_server.Events.Kinds.{Event, Codecs, kind, serialize_event, load, load-serialize_event}
use adaptarr_server.Events.Service.{
  Row, Mail, Manager, do_notify, send_emails, register, unregister, set_stream,
}
use adaptarr_server.Events.Mailed.{Mailed}
use adaptarr_server.Events.Notified.{IsEvent, message, do_notify-send_emails}

abbrev emphasised : Format
emphasised = record { emphasis = true; strong = false }

abbrev both : Format
both = record { emphasis = true; strong = true }

abbrev bold : Format
bold = record { emphasis = false; strong = true }

abbrev nobody : ℕ → Option Text
nobody u = none

abbrev clean : List (List Line)
clean =
    (push_format emphasised
      ∷ say (97 ∷ [])
      ∷ push_format bold
      ∷ say (98 ∷ [])
      ∷ pop_format emphasised
      ∷ say (99 ∷ [])
      ∷ [])
    ∷ []

render_correct_example :
    (last : Renderer) × (render_paragraphs nobody clean new_renderer ≡ ok last)
    × (read [] last.html ≡ some ([], styled_message nobody clean))
unfolding contains is_empty_format intersect insert_format
render_correct_example =
    render_correct nobody clean ((inr refl, (tt, (inr refl, (tt, (tt, (tt, tt)))))), tt)

-- Emphasis is applied, then both: emphasis is on the stack twice. When it is stopped the text that
-- follows stays emphasised.
abbrev doubled : List Line
doubled = push_format emphasised ∷ push_format both ∷ pop_format emphasised ∷ say (97 ∷ []) ∷ []

-- The paragraph ends while emphasis is on the stack twice.
abbrev left_open : List Line
left_open = push_format emphasised ∷ push_format both ∷ []

abbrev read_back : Option (List Flag × List (Markup × Format))
read_back = elim (render_paragraphs nobody (left_open ∷ []) new_renderer) [
  | ok last ↦ read [] last.html
  | err e ↦ none
  | panic ↦ none
  | stuck ↦ none
]

abbrev shown : Renderer
shown = elim (render_lines nobody doubled (empty, new_renderer)) [
  | ok s ↦ s.1
  | err e ↦ new_renderer
  | panic ↦ new_renderer
  | stuck ↦ new_renderer
]

doubled_test : read [] shown.html ≡ some (strong ∷ emphasis ∷ [], (escaped (97 ∷ []), both) ∷ [])
unfolding render_lines render_line render_text contains is_empty_format intersect insert_format
    remove just push pop pop_loop open_format push_markup push_str read
doubled_test = refl

-- The end of the cell comes with a tag open.
unclosed_test : read_back ≡ none
unfolding render_paragraphs render_lines render_line render_text contains is_empty_format intersect
    insert_format remove just push pop pop_loop open_format push_markup push_str read
    begin_paragraph end_paragraph
unclosed_test = refl

is_space : ℕ → Bool
is_space c = c == 32

finish_correct_example :
    (All (λ c. is_space c ≡ true) (97 ∷ 380 ∷ 32 ∷ [])
      × (finish is_space (97 ∷ 380 ∷ 32 ∷ []) ≡ some []))
    ⊎ ((ds : List ℕ) × (c : ℕ) × (spaces : List ℕ) × (97 ∷ 380 ∷ 32 ∷ [] ≡ ds ++ c ∷ spaces)
        × (is_space c ≡ false)
        × All (λ d. is_space d ≡ true) spaces
        × (((len_utf8 c ≡ 1) × (finish is_space (97 ∷ 380 ∷ 32 ∷ []) ≡ some (ds ++ c ∷ [])))
            ⊎ ((1 < len_utf8 c) × (finish is_space (97 ∷ 380 ∷ 32 ∷ []) ≡ none))))
finish_correct_example = finish_correct is_space (97 ∷ 380 ∷ 32 ∷ [])

-- A letter of two bytes at the end.
finish_test : finish is_space (97 ∷ 380 ∷ 32 ∷ []) ≡ none
unfolding finish end_of rfind_from truncate is_space len_utf8
finish_test = refl

code : SlotPermission → ℕ
code view = 1
code edit = 2
code propose_changes = 3
code accept_changes = 4

permission : ℕ → SlotPermission
permission n =
    if n == 1
    then view
    else if n == 2
    then edit
    else if n == 3
    then propose_changes
    else accept_changes

write_list : List SlotPermission → List ℕ
write_list [] = 0 ∷ []
write_list (p ∷ ps) = code p ∷ write_list ps

read_list : List ℕ → List SlotPermission
read_list [] = []
read_list (n ∷ ns) = elim (n == 0) [ true ↦ [] | false ↦ permission n ∷ read_list ns ]

read-write_list :
    (ps : List SlotPermission) (rest : List ℕ) → read_list (write_list ps ++ rest) ≡ ps
unfolding read_list write_list permission code
read-write_list [] rest = refl
read-write_list (view ∷ ps) rest = ap (λ qs. view ∷ qs) (read-write_list ps rest)
read-write_list (edit ∷ ps) rest = ap (λ qs. edit ∷ qs) (read-write_list ps rest)
read-write_list (propose_changes ∷ ps) rest =
    ap (λ qs. propose_changes ∷ qs) (read-write_list ps rest)
read-write_list (accept_changes ∷ ps) rest =
    ap (λ qs. accept_changes ∷ qs) (read-write_list ps rest)

one_field : {A : Type 0} → (ℕ → A) → List ℕ → Option A
one_field make [] = none
one_field make (a ∷ rest) = some (make a)

two_fields : {A : Type 0} → (ℕ → ℕ → A) → List ℕ → Option A
two_fields make (a ∷ b ∷ rest) = some (make a b)
two_fields make (a ∷ []) = none
two_fields make [] = none

more_fields : {A : Type 0} → (ℕ → ℕ → ℕ → List ℕ → A) → List ℕ → Option A
more_fields make (a ∷ b ∷ c ∷ rest) = some (make a b c rest)
more_fields make (a ∷ b ∷ []) = none
more_fields make (a ∷ []) = none
more_fields make [] = none

codecs : Codecs
unfolding one_field two_fields more_fields
codecs = record {
  assigned = record {
    serialize = λ e. e.who ∷ e.module_id ∷ [];
    deserialize = two_fields (λ a b. record { who = a; module_id = b });
    deserialize-serialize = λ e rest. refl;
  };
  process_ended = record {
    serialize = λ e. e.module_id ∷ e.version ∷ [];
    deserialize = two_fields (λ a b. record { module_id = a; version = b });
    deserialize-serialize = λ e rest. refl;
  };
  process_cancelled = record {
    serialize = λ e. e.module_id ∷ [];
    deserialize = one_field (λ a. record { module_id = a });
    deserialize-serialize = λ e rest. refl;
  };
  slot_change = record {
    serialize = λ e. e.slot ∷ e.module_id ∷ e.document ∷ [];
    deserialize = more_fields (λ a b c rest. record { slot = a; module_id = b; document = c });
    deserialize-serialize = λ e rest. refl;
  };
  draft_advanced = record {
    serialize = λ e. e.module_id ∷ e.document ∷ e.step ∷ write_list e.permissions;
    deserialize = more_fields (λ a b c rest. record {
      module_id = a;
      document = b;
      step = c;
      permissions = read_list rest;
    });
    deserialize-serialize = λ e rest.
        ap
          (λ ps. some (record {
            module_id = e.module_id;
            document = e.document;
            step = e.step;
            permissions = ps;
          }))
          (read-write_list e.permissions rest);
  };
  new_message = record {
    serialize = λ e. e.conversation ∷ e.author ∷ e.message ∷ [];
    deserialize = more_fields (λ a b c rest. record { conversation = a; author = b; message = c });
    deserialize-serialize = λ e rest. refl;
  };
}

abbrev advanced : Event
advanced =
    Event.draft_advanced
      (record { module_id = 7; document = 8; step = 2; permissions = edit ∷ view ∷ [] })

load-serialize_event_example :
    load codecs (kind advanced) (serialize_event codecs advanced) ≡ ok advanced
load-serialize_event_example = load-serialize_event codecs advanced

abbrev rows : Table Row Row.id
rows = list_table Row Row.id

abbrev quiet : Manager (List Row) String
quiet = record {
  events = [];
  streams = λ u. if u == 4 then some 30 else none;
  last_notify = 100;
  sent = [];
  mails = [];
}

mailbox : ℕ → Option String
mailbox u = some "e@x.org"

expand : Row → Option String
expand r = some r.kind

do_notify-send_emails_example :
    (after : Manager (List Row) String) × (new : List (Mail String)) × (do_notify rows codecs 120
        advanced
        (4 ∷ 5 ∷ [])
        quiet
      ≡ after)
    × (send_emails mailbox expand rows 1900 after
        ≡ record after { last_notify = 1900; mails = [] ++ new })
    × ((r : Row) × In r after.events
        × IsEvent codecs 120 advanced 4 r
        × ((quiet.streams 4 ≡ none)
            ⊎ ((addr : ℕ) × (quiet.streams 4 ≡ some addr)
                × In (message codecs 120 advanced addr r.id) after.sent))
        × Mailed mailbox expand r new)
unfolding mailbox expand
do_notify-send_emails_example =
    do_notify-send_emails rows codecs 120 advanced mailbox expand 1900 (4 ∷ 5 ∷ []) quiet
      (omega arith) (λ r m due. (("e@x.org", refl), (r.kind, refl))) 4 (inl refl)

-- A second listener of a user replaces the first; when the first is unregistered the second is gone.
unregister_test : (unregister rows 4 30 (register rows 4 31 quiet)).streams 4 ≡ none
unfolding unregister register set_stream
unregister_test = refl
