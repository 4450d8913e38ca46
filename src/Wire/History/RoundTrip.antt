-- ===== src/Wire/History/RoundTrip.antt =====
-- A history of new messages is read back from what was written for it.
use mathlib.Core.List.{append_assoc, append-nil}
use adaptarr_server.Prelude.{
  ℕ, suc, ◌+◌, ◌-◌, ◌%◌, ◌^◌, ◌<◌, ◌≡◌, sym, ap, subst, true, ◌&&◌, some, List, [], ◌++◌, leb,
  length, drop, take-append, drop-append, length-append, ok, expect, no_error, ◌>>=◌, refl, arith,
}
use adaptarr_server.Wire.{Crates}
use adaptarr_server.Wire.Leb128.{put_leb128, get_leb128-put_leb128}
use adaptarr_server.Wire.Header.{to_u16, from_u16}
use adaptarr_server.Wire.Body.{NewMessage, Written, write_new_message, read_new_message}
use adaptarr_server.Wire.Body.RoundTrip.{get-put_u16, IsExact, read-write_new_message}
use adaptarr_server.Wire.History.{
  new_message, Entries, nil, cons, HistoryEntries, kind_of, count, split_off, write_any,
  write_entries, write_history, read_entries, read_history,
}

appended : {T : Type 0} → Entries T → Entries T → Entries T
appended nil fs = fs
appended (cons e es) fs = cons e (appended es fs)

count-appended : {T : Type 0} (es fs : Entries T) → count (appended es fs) ≡ count es + count fs
unfolding appended
count-appended nil fs = omega arith
count-appended (cons e es) fs = omega (arith, count-appended es fs)

split_off-appended :
    {T : Type 0} (es fs : Entries T) → split_off (count es) (appended es fs) ≡ some (es, fs)
unfolding appended split_off
split_off-appended nil fs = refl
split_off-appended (cons e es) fs = rw (split_off-appended es fs)

unfoldable pub outcome : Written → List ℕ
outcome (ok bs) = bs
outcome r = []

drop_part : (p b r : List ℕ) → drop (length p + length b) (p ++ (b ++ r)) ≡ r
drop_part p b r =
    let size : length (p ++ b) ≡ length p + length b = length-append p b in
    rw (← append_assoc p b r) (drop-append _ (p ++ b) r size)

module _ (crates : Crates) where
  open crates use {put_u16_le, get_u16_le, get_byte, get_byte_cons, slice, slice_lem, DateTime}

  slice_part : (p b r : List ℕ) → slice (length p) (length p + length b) (p ++ (b ++ r)) ≡ some b
  slice_part p b r =
      let inside : (leb (length p) (length p + length b)
            && leb (length p + length b) (length (p ++ (b ++ r))))
          ≡ true =
        ground (arith, length-append p (b ++ r), length-append b r) in
      let size : length p + length b - length p ≡ length b = omega arith in
      rw (
        slice_lem,
        inside,
        size,
        drop-append (length p) p (b ++ r) refl,
        take-append (length b) b r refl,
      )

  -- The bytes of a new message, as `write` makes them.
  abbrev pub bytes_of : NewMessage DateTime → List ℕ
  bytes_of m = outcome (write_new_message crates m [])

  -- All entries are new messages that the server may send.
  abbrev pub AllExact : Entries DateTime → Type 0
  AllExact nil = Unit
  AllExact (cons (new_message m) es) =
      (IsExact crates m × (length (bytes_of m) < 2 ^ 64)) × AllExact es
  AllExact (cons e es) = ⊥

  record Encodes (es : Entries DateTime) (code : List ℕ) : Type 0 where
    written : (into : List ℕ) → write_entries crates es into ≡ ok (into ++ code)
    read :
        (pre tail : List ℕ)
        → read_entries crates (count es) (pre ++ (code ++ tail)) (code ++ tail) ≡ ok es

  Encodes-nil : Encodes nil []
  unfolding write_entries read_entries
  Encodes-nil = record { written = λ into. ap ok (sym (append-nil into)); read = λ pre tail. refl }

  module _ (m : NewMessage DateTime) (bs : List ℕ) where
    abbrev prefix : List ℕ
    prefix = put_u16_le 1 ++ put_leb128 (length bs)

    read_one :
        (n : ℕ) (pre rest : List ℕ)
        → length bs < 2 ^ 64
        → read_new_message crates bs ≡ ok m
        → read_entries crates (suc n) ((pre ++ prefix) ++ (bs ++ rest)) (prefix ++ (bs ++ rest)) ≡ (
            read_entries crates n ((pre ++ prefix) ++ (bs ++ rest)) rest >>= λ es.
            ok (cons (new_message m) es))
    unfolding read_entries expect no_error from_u16
    read_one n pre rest h e =
        let from = (pre ++ prefix) ++ (bs ++ rest) in
        let start : length from - length (bs ++ rest) ≡ length (pre ++ prefix) =
          omega (arith, length-append (pre ++ prefix) (bs ++ rest)) in
        rw (
          append_assoc (put_u16_le 1) (put_leb128 (length bs)) (bs ++ rest),
          get-put_u16 crates 1 (put_leb128 (length bs) ++ (bs ++ rest)) (omega arith),
          get_leb128-put_leb128 get_byte get_byte_cons (length bs) (bs ++ rest) h,
          start,
          slice_part (pre ++ prefix) bs rest,
          e,
          drop_part (pre ++ prefix) bs rest,
          expect,
          no_error,
          ◌>>=◌,
          from_u16,
        )

    Encodes-cons :
        (es : Entries DateTime) (code : List ℕ)
        → IsExact crates m
        → write_new_message crates m [] ≡ ok bs
        → read_new_message crates bs ≡ ok m
        → length bs < 2 ^ 64
        → Encodes es code
        → Encodes (cons (new_message m) es) (prefix ++ (bs ++ code))
    Encodes-cons es code valid w r small c = record { written = written; read = read }
      where
        written :
            (into : List ℕ)
            → write_entries crates (cons (new_message m) es) into
              ≡ ok (into ++ (prefix ++ (bs ++ code)))
        written into =
            unfold write_entries write_any kind_of to_u16 in
            rw (w, c.written _) (ap ok (simp append_assoc))

        read :
            (pre tail : List ℕ)
            → read_entries crates
                (suc (count es))
                (pre ++ ((prefix ++ (bs ++ code)) ++ tail))
                ((prefix ++ (bs ++ code)) ++ tail)
              ≡ ok (cons (new_message m) es)
        read pre tail =
            let rest = code ++ tail in
            let buf : (prefix ++ (bs ++ code)) ++ tail ≡ prefix ++ (bs ++ rest) =
              simp append_assoc in
            let whole : pre ++ (prefix ++ (bs ++ rest)) ≡ (pre ++ prefix) ++ (bs ++ rest) =
              sym (append_assoc pre prefix (bs ++ rest)) in
            let later : (pre ++ prefix) ++ (bs ++ rest) ≡ ((pre ++ prefix) ++ bs) ++ rest =
              sym (append_assoc (pre ++ prefix) bs rest) in
            rw (
              buf,
              whole,
              read_one (count es) pre rest small r,
              later,
              c.read ((pre ++ prefix) ++ bs) tail,
            )

  code_of : Entries DateTime → List ℕ
  code_of nil = []
  code_of (cons (new_message m) es) = prefix m (bytes_of m) ++ (bytes_of m ++ code_of es)
  code_of (cons e es) = []

  Encodes-code_of : (es : Entries DateTime) → AllExact es → Encodes es (code_of es)
  unfolding code_of
  Encodes-code_of nil h = Encodes-nil
  Encodes-code_of (cons (new_message m) es) h =
      let (bs, w, r) = read-write_new_message crates m h.0.0 in
      let same : bytes_of m ≡ bs = rw w (unfold outcome in refl) in
      let small : length bs < 2 ^ 64 = subst (λ x. length x < 2 ^ 64) same h.0.1 in
      subst (λ x. Encodes (cons (new_message m) es) (prefix m x ++ (x ++ code_of es))) (sym same)
        (Encodes-cons m bs es (code_of es) h.0.0 w r small (Encodes-code_of es h.1))
  Encodes-code_of (cons e es) h = absurd h

  AllExact-appended :
      (es fs : Entries DateTime)
      → AllExact es
      → AllExact fs
      → AllExact (appended es fs) × (code_of (appended es fs) ≡ code_of es ++ code_of fs)
  unfolding appended code_of
  AllExact-appended nil fs h k = (k, refl)
  AllExact-appended (cons (new_message m) es) fs h k =
      let (valid, code) = AllExact-appended es fs h.1 k in ((h.0, valid), simp (code, append_assoc))
  AllExact-appended (cons e es) fs h k = absurd h

  read_both :
      (es fs : Entries DateTime) (pre : List ℕ)
      → AllExact es
      → AllExact fs
      → read_entries crates
          (count es + count fs)
          (pre ++ (code_of es ++ code_of fs))
          (code_of es ++ code_of fs)
        ≡ ok (appended es fs)
  read_both es fs pre he hf =
      let (valid, code) = AllExact-appended es fs he hf in
      let whole = (Encodes-code_of (appended es fs) valid).read pre [] in
      rw (append-nil, code, count-appended es fs) at whole

  -- A history of at most 65535 new messages whose times are whole seconds is read back from what was
  -- written for it.
  pub read-write_exact :
      (h : HistoryEntries DateTime)
      → AllExact h.before
      → AllExact h.after
      → count h.before + count h.after < 2 ^ 16
      → (bs : List ℕ) × ((into : List ℕ) → write_history crates h into ≡ ok (into ++ bs))
        × (read_history crates bs ≡ ok h)
  unfolding write_history read_history expect
  read-write_exact h hb ha small =
      let nb = count h.before in
      let na = count h.after in
      let code = code_of h.before ++ code_of h.after in
      let wb : nb % 2 ^ 16 ≡ nb = omega arith in
      let wa : na % 2 ^ 16 ≡ na = omega arith in
      let sum : (nb + na) % 2 ^ 16 ≡ nb + na = omega arith in
      let head = put_u16_le nb ++ put_u16_le na in
      let together = append_assoc (put_u16_le nb) (put_u16_le na) code in
      (
        head ++ code,
        (λ into.
            rw
              (
                wb,
                wa,
                (Encodes-code_of h.before hb).written (into ++ head),
                ◌>>=◌,
                (Encodes-code_of h.after ha).written ((into ++ head) ++ code_of h.before),
              )
              (ap ok (simp append_assoc))),
        rw (
          get_head nb na code small,
          get-put_u16 crates na code (omega arith),
          sum,
          read_both h.before h.after head hb ha,
          split_off-appended h.before h.after,
          expect,
          ◌>>=◌,
        ),
      )
    where
      get_head :
          (nb na : ℕ) (code : List ℕ)
          → nb + na < 2 ^ 16
          → get_u16_le ((put_u16_le nb ++ put_u16_le na) ++ code) ≡ some (nb, put_u16_le na ++ code)
      get_head nb na code small =
          rw (append_assoc (put_u16_le nb) (put_u16_le na) code)
            (get-put_u16 crates nb (put_u16_le na ++ code) (omega arith))
