-- ===== src/Client/Recalled.antt =====
-- A request for history from the socket of a client, and the answer (client.rs, broker.rs).
use adaptarr_server.Prelude.{
  ℕ, map, ◌⊎◌, inl, inr, ◌+◌, ◌^◌, ◌<◌, ◌≡◌, ◌≢◌, false, none, some, List, [], ◌∷◌, ◌++◌, length,
  ok, err, All, refl, sym, subst, ◌∙◌, arith,
}
use adaptarr_server.Storage.{Table}
use adaptarr_server.Storage.Orders.{All-left, All-right, All-map}
use adaptarr_server.Wire.{Crates}
use adaptarr_server.Wire.Cookie.{is_server}
use adaptarr_server.Wire.Header.{
  Kind, Message, IsMessage, to_u16, to_bytes, from_u16, from_u16-eq-some,
}
use adaptarr_server.Wire.Body.{GetHistory, write_get_history, read_get_history}
use adaptarr_server.Wire.Body.RoundTrip.{IsNewMessage, read-write_get_history}
use adaptarr_server.Wire.History.{
  AnyMessage, Entries, nil, cons, count, HistoryEntries, write_history, read_history,
}
use adaptarr_server.Wire.History.RoundTrip.{bytes_of}
use adaptarr_server.Wire.History.Seconds.{AllNew, cut, cut_history, read-write_history}
use adaptarr_server.Broker.History.{ConversationEvent, History, is_event, database, get_history}
use adaptarr_server.Broker.History as Broker
use adaptarr_server.Broker.Chosen.{IsChosen, get_history-IsChosen}
use adaptarr_server.Broker.Slices.{IsSlice, get_history_correct}
use adaptarr_server.Client.{
  Client, SocketMessage, Request, close_with, internal_error, DbConversationEvent, send, ask,
  maybe_suspend, handle, dispatch, get_history_request, message_of, serialize_events, history_sent,
}
use adaptarr_server.Client.Answers.{Answers, reply-Answers, handle-dispatch}

module _ (crates : Crates) where
  open crates use {DateTime, in_seconds}

  abbrev pub SentRow : Type 0
  SentRow = DbConversationEvent DateTime

  -- A row that can be sent: a message of an author, with identifiers of 32 bits, and of a length
  -- that fits.
  abbrev pub IsSendable : SentRow → Type 0
  IsSendable r =
      (author : ℕ) × (r.kind ≡ "new-message")
      × (r.author ≡ some author)
      × IsNewMessage crates (message_of crates author r)
      × (length (bytes_of crates (message_of crates author r)) < 2 ^ 64)

  -- The entries are the rows, in order, with times cut to seconds.
  abbrev pub Lists : List SentRow → Entries DateTime → Type 0
  Lists [] nil = Unit
  Lists (r ∷ rs) (cons (AnyMessage.new_message m) es) =
      ((m.id ≡ r.id)
        × (some m.user ≡ r.author)
        × (m.timestamp ≡ in_seconds r.timestamp)
        × (m.message ≡ r.content))
      × Lists rs es
  Lists rs es = ⊥

  serialize_events-ok :
      (rs : List SentRow)
      → All IsSendable rs
      → (es : Entries DateTime) × (serialize_events crates rs ≡ ok es)
        × Lists rs (cut crates es)
        × AllNew crates es
        × (count es ≡ length rs)
  unfolding serialize_events message_of
  serialize_events-ok [] h = (nil, refl, tt, tt, refl)
  serialize_events-ok (r ∷ rs) ((author, kinds, by, new, short), hs) =
      let (es, run, lists, all_new, size) = serialize_events-ok rs hs in
      (
        cons (AnyMessage.new_message (message_of crates author r)) es,
        rw (kinds, by, run) refl,
        ((refl, sym by, refl, refl), lists),
        ((new, short), all_new),
        omega (arith, size),
      )

  history_sent-Answers :
      (cookie : ℕ) (before after : List SentRow)
      → cookie < 2 ^ 32
      → All IsSendable before
      → All IsSendable after
      → length before + length after < 2 ^ 16
      → (bs body : List ℕ) × (h : HistoryEntries DateTime) × (history_sent crates cookie
            (some (some (before, after)))
          ≡ ok (send bs))
        × Answers crates cookie Kind.history_entries bs body
        × (read_history crates body ≡ ok h)
        × Lists before h.before
        × Lists after h.after
  unfolding history_sent
  history_sent-Answers cookie before after small hb ha few =
      let (es, run_es, list_es, new_es, size_es) = serialize_events-ok before hb in
      let (fs, run_fs, list_fs, new_fs, size_fs) = serialize_events-ok after ha in
      let h : HistoryEntries DateTime = record { before = es; after = fs } in
      let (body, written, back) =
        read-write_history crates h new_es new_fs (omega (arith, size_es, size_fs)) in
      let (bs, sent, answers) =
        reply-Answers crates cookie Kind.history_entries body (write_history crates h) small
          written in
      (bs, body, cut_history crates h, rw (run_es, run_fs) sent, answers, back, list_es, list_fs)

  module _ (table : Table ConversationEvent ConversationEvent.id) (time : ℕ → DateTime) where
    open table use {Content, Contains}

    -- A row of the table, with its time as `chrono` has it.
    abbrev pub sent_row : ConversationEvent → SentRow
    sent_row r = record {
      id = r.id;
      kind = r.kind;
      timestamp = time r.timestamp;
      author = r.author;
      content = r.content;
    }

    -- What the broker is asked for.
    abbrev pub request : Client → GetHistory → Broker.GetHistory
    request c g = record {
      conversation = c.conversation;
      from = g.from;
      number_before = g.number_before;
      number_after = g.number_after;
    }

    All-sent_row :
        (rows : List ConversationEvent)
        → All (λ r. IsSendable (sent_row r)) rows
        → All IsSendable (map sent_row rows)
    All-sent_row [] h = tt
    All-sent_row (r ∷ rs) (h, hs) = (h, All-sent_row rs hs)

    length-sent_row : (rows : List ConversationEvent) → length (map sent_row rows) ≡ length rows
    length-sent_row [] = refl
    length-sent_row (r ∷ rs) = omega (arith, length-sent_row rs)

    slice-IsSendable :
        (content : Content) (conversation : ℕ) (h : History)
        → IsSlice table content conversation h
        → ((r : ConversationEvent)
            → Contains content r
            → r.conversation ≡ conversation
            → IsSendable (sent_row r))
        → All IsSendable (map sent_row h.before)
          × All IsSendable (map sent_row h.after)
          × (length (map sent_row h.before) + length (map sent_row h.after) < 2 ^ 16)
    slice-IsSendable content conversation h (few, few', sorted, all) sendable =
        let good =
          All-map _ (λ r. IsSendable (sent_row r)) (h.before ++ h.after)
            (λ r own. sendable r own.0 own.1) all in
        (
          All-sent_row h.before (All-left (λ r. IsSendable (sent_row r)) h.before h.after good),
          All-sent_row h.after (All-right (λ r. IsSendable (sent_row r)) h.before h.after good),
          omega (arith, few, few', length-sent_row h.before, length-sent_row h.after),
        )

    -- The answer to a history that the broker gives: a message that is read as its rows, in order.
    abbrev pub IsRecalled : ℕ → History → Type 0
    IsRecalled cookie h =
        (bs body : List ℕ) × (got : HistoryEntries DateTime) × (history_sent crates cookie
            (some (some (map sent_row h.before, map sent_row h.after)))
          ≡ ok (send bs))
        × Answers crates cookie Kind.history_entries bs body
        × (read_history crates body ≡ ok got)
        × Lists (map sent_row h.before) got.before
        × Lists (map sent_row h.after) got.after

    -- A client asks over its socket, under a cookie that is none of the server, for a slice of the
    -- history of a conversation whose events can all be sent. Its numbers have 16 bits, and it refers
    -- to no event or to one with an identifier of 32 bits other than 0. Then the broker is asked for
    -- just that slice. It gives events of the conversation in the order of their times: with no
    -- reference the last ones, at most 128; with one the last before its time, at most 64, and the
    -- first from its time on, at most 64 and one more than asked for, where a `u16` wraps around. The
    -- client reads them from the answer, in order, with times cut to seconds, and with the cookie of
    -- its request. Or the event that is referred to is not one of the conversation, and the connection
    -- is closed.
    pub handle-get_history :
        (c : Client) (m : Message) (g : GetHistory) (content : Content)
        → IsMessage crates m
        → is_server m.cookie ≡ false
        → m.kind ≡ to_u16 Kind.get_history
        → write_get_history crates g [] ≡ ok m.body
        → ((id : ℕ) → g.from ≡ some id → (id < 2 ^ 32) × (id ≢ 0))
        → g.number_before < 2 ^ 16
        → g.number_after < 2 ^ 16
        → ((r : ConversationEvent)
            → Contains content r
            → r.conversation ≡ c.conversation
            → IsSendable (sent_row r))
        → (handle crates c (SocketMessage.binary (to_bytes crates m))
            ≡ ok (
                ask
                  (Request.get_history c.conversation g.from g.number_before g.number_after)
                  m.cookie
                  (maybe_suspend m.flags)))
          × (((h : History) × (get_history table (request c g) content ≡ ok h)
                × IsSlice table content c.conversation h
                × IsChosen table content (request c g) h
                × IsRecalled m.cookie h)
              ⊎ ((id : ℕ) × (g.from ≡ some id)
                  × (get_history table (request c g) content ≡ err database)
                  × (table.find (is_event c.conversation id) content ≡ none)
                  × (history_sent crates m.cookie (some none) ≡ ok (close_with internal_error))))
    unfolding history_sent dispatch get_history_request
    handle-get_history c m g content valid client kind written refers before after sendable =
        let is_get : from_u16 m.kind ≡ some Kind.get_history =
          (from_u16-eq-some m.kind Kind.get_history).1 kind in
        let (bytes, writes, reads) = read-write_get_history crates g refers before after in
        let same : bytes ≡ m.body = cc (writes, written) in
        let back : read_get_history crates m.body ≡ ok g =
          subst (λ bs. read_get_history crates bs ≡ ok g) same reads in
        (
          handle-dispatch crates c m valid client
              ∙ rw (dispatch, is_get, get_history_request, back) refl,
          elim (get_history_correct table content (request c g)) [
            | inl (h, run, slice) ↦
                let (hb, ha, few) = slice-IsSendable content c.conversation h slice sendable in
                inl (
                  h,
                  run,
                  slice,
                  get_history-IsChosen table content (request c g) h run,
                  history_sent-Answers m.cookie (map sent_row h.before) (map sent_row h.after)
                      valid.cookie hb ha few,
                )
            | inr (id, from, run, none_there) ↦ inr (id, from, run, none_there, refl)
          ],
        )
