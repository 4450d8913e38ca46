-- ===== src/Wire/History/Seconds.antt =====
-- A history of new messages as it is read back: with the fractions of seconds cut off (protocol.rs).
use adaptarr_server.Prelude.{
  ℕ, ◌+◌, ◌^◌, ◌<◌, ◌≡◌, sym, subst, ◌∙◌, ap, List, [], ◌++◌, length, ok, err, panic, stuck, ◌>>=◌,
  refl, arith,
}
use adaptarr_server.Wire.{Crates}
use adaptarr_server.Wire.Body.{Written, NewMessage, write_new_message}
use adaptarr_server.Wire.Body.RoundTrip.{IsNewMessage, IsExact}
use adaptarr_server.Wire.History.{
  new_message, Entries, nil, cons, HistoryEntries, kind_of, count, write_any, write_entries,
  write_history, read_history,
}
use adaptarr_server.Wire.History.RoundTrip.{outcome, bytes_of, AllExact, read-write_exact}

-- Two ways on that agree.
then_alike :
    (r : Written) (f g : List ℕ → Written) → ((bs : List ℕ) → f bs ≡ g bs) → (r >>= f) ≡ (r >>= g)
unfolding ◌>>=◌
then_alike (ok bs) f g h = h bs
then_alike (err e) f g h = absurd e
then_alike panic f g h = refl
then_alike stuck f g h = refl

module _ (crates : Crates) where
  open crates use {DateTime, timestamp, in_seconds, timestamp-in_seconds, utc_timestamp_lem}

  -- The message with its time in whole seconds.
  abbrev pub cut_message : NewMessage DateTime → NewMessage DateTime
  cut_message m = record m { timestamp = in_seconds m.timestamp }

  abbrev pub cut : Entries DateTime → Entries DateTime
  cut nil = nil
  cut (cons (new_message m) es) = cons (new_message (cut_message m)) (cut es)
  cut (cons e es) = cons e (cut es)

  abbrev pub cut_history : HistoryEntries DateTime → HistoryEntries DateTime
  cut_history h = record { before = cut h.before; after = cut h.after }

  -- Only new messages, each as the server makes it and of a length that fits 64 bits.
  abbrev pub AllNew : Entries DateTime → Type 0
  AllNew nil = Unit
  AllNew (cons (new_message m) es) =
      (IsNewMessage crates m × (length (bytes_of crates m) < 2 ^ 64)) × AllNew es
  AllNew (cons e es) = ⊥

  -- The bytes of a message do not tell the fraction of its second.
  write-cut_message :
      (m : NewMessage DateTime) (into : List ℕ)
      → write_new_message crates (cut_message m) into ≡ write_new_message crates m into
  unfolding write_new_message
  write-cut_message m into = rw (timestamp-in_seconds m.timestamp) refl

  bytes_of-cut_message :
      (m : NewMessage DateTime) → bytes_of crates (cut_message m) ≡ bytes_of crates m
  bytes_of-cut_message m = ap outcome (write-cut_message m [])

  IsExact-cut_message :
      (m : NewMessage DateTime) → IsNewMessage crates m → IsExact crates (cut_message m)
  IsExact-cut_message m h = record {
    id = h.id;
    user = h.user;
    whole = rw (timestamp-in_seconds m.timestamp) (utc_timestamp_lem m.timestamp);
  }

  AllExact-cut : (es : Entries DateTime) → AllNew es → AllExact crates (cut es)
  AllExact-cut nil h = tt
  AllExact-cut (cons (new_message m) es) ((new, small), hs) = (
    (
      IsExact-cut_message m new,
      subst (λ bs. length bs < 2 ^ 64) (sym (bytes_of-cut_message m)) small,
    ),
    AllExact-cut es hs,
  )
  AllExact-cut (cons e es) h = absurd h

  count-cut : (es : Entries DateTime) → AllNew es → count (cut es) ≡ count es
  count-cut nil h = refl
  count-cut (cons (new_message m) es) h = omega (arith, count-cut es h.1)
  count-cut (cons e es) h = absurd h

  write_entries-cut :
      (es : Entries DateTime) (into : List ℕ)
      → AllNew es
      → write_entries crates (cut es) into ≡ write_entries crates es into
  unfolding write_entries write_any kind_of
  write_entries-cut nil into h = refl
  write_entries-cut (cons (new_message m) es) into h =
      rw (write-cut_message m [])
        (then_alike (write_new_message crates m []) _ _ (λ buf. write_entries-cut es _ h.1))
  write_entries-cut (cons e es) into h = absurd h

  write_history-cut :
      (h : HistoryEntries DateTime) (into : List ℕ)
      → AllNew h.before
      → AllNew h.after
      → write_history crates (cut_history h) into ≡ write_history crates h into
  unfolding write_history write_any
  write_history-cut h into hb ha =
      rw (count-cut h.before hb, count-cut h.after ha, write_entries-cut h.before _ hb)
        (then_alike (write_entries crates h.before _) (write_entries crates (cut h.after))
          (write_entries crates h.after) (λ between. write_entries-cut h.after between ha))

  -- A history of at most 65535 new messages, with identifiers of 32 bits and lengths of 64 bits, is
  -- read back from what was written for it, with the time of each message cut to seconds. It is
  -- written behind whatever is in the buffer, which has room for it.
  pub read-write_history :
      (h : HistoryEntries DateTime)
      → AllNew h.before
      → AllNew h.after
      → count h.before + count h.after < 2 ^ 16
      → (bs : List ℕ) × ((into : List ℕ) → write_history crates h into ≡ ok (into ++ bs))
        × (read_history crates bs ≡ ok (cut_history h))
  read-write_history h hb ha small =
      let (bs, written, back) =
        read-write_exact crates (cut_history h) (AllExact-cut h.before hb) (AllExact-cut h.after ha)
          (omega (arith, small, count-cut h.before hb, count-cut h.after ha)) in
      (bs, (λ into. sym (write_history-cut h into hb ha) ∙ written into), back)
