-- ===== src/Format/Accepts.antt =====
-- What the validation of a message answers for the first frame of the message.
use mathlib.Core.List.{append_assoc}
use adaptarr_server.Prelude.{
  ℕ, suc, ◌+◌, ◌-◌, ◌^◌, ◌<◌, ◌≤◌, ◌≡◌, ◌≢◌, ap, subst, Bool, true, false, ◌&&◌, none, some, List,
  [], ◌++◌, ltb, leb, if◌then◌else◌, length, take, drop, take_over-append, drop_over-append,
  take_all, length-drop, length-append, ok, err, expect, no_error, reject, ◌>>=◌, ◌>>◌, refl, arith,
  Bool-cases, Option-cases, ltb_iff, inl, inr,
}
use adaptarr_server.Wire.{Crates}
use adaptarr_server.Wire.Leb128.{put_leb128}
use adaptarr_server.Wire.Leb128.Buffers.{get_leb128-Holds}
use adaptarr_server.Format.ReadBytes.{
  ReadBytes, Reads, new, is_empty, slice, advance, as_bytes, Holds, remaining_lem, new-Holds,
  read_byte-Holds,
}
use adaptarr_server.Format.Frames.{
  Frame, message, from_u64, Error, unknown_frame, frame_overflow, bad_root, frame_of, get_number,
  read_frame,
}
use adaptarr_server.Format.Content.{is_message, validate_frame, validate_message}

-- A frame as a client writes it: its number and the length of its body.
abbrev pub frame_header : ℕ → ℕ → List ℕ
frame_header code size = put_leb128 code ++ put_leb128 size

frame_of-none : (code : ℕ) → from_u64 code ≡ none → frame_of code ≡ err (unknown_frame code)
unfolding frame_of
frame_of-none code e = rw (e, frame_of)

frame_of-some : (code : ℕ) (ty : Frame) → from_u64 code ≡ some ty → frame_of code ≡ ok ty
unfolding frame_of
frame_of-some code ty e = rw (e, frame_of)

reject->> {ℓ} :
    {A : Type ℓ} (b : Bool) (e : Error) (a : A) → (reject b e >> ok a) ≡ (if b then err e else ok a)
unfolding reject
reject->> true e a = refl
reject->> false e a = refl

module _ (crates : Crates) (reads : Reads) where
  open reads use {read_byte}

  get_number-Holds :
      (whole : List ℕ) (r : ReadBytes) (v : ℕ) (rest : List ℕ)
      → v < 2 ^ 64
      → Holds whole r (put_leb128 v ++ rest)
      → (r' : ReadBytes) × (get_number reads r ≡ ok (v, r')) × Holds whole r' rest
  unfolding get_number no_error
  get_number-Holds whole r v rest lt h =
      let (r', e, h') =
        get_leb128-Holds read_byte (Holds whole) (read_byte-Holds reads whole) r v rest lt h in
      (r', rw e, h')

  -- Behind the number and the length, what `read_frame` still does.
  module _ (whole : List ℕ) (r : ReadBytes) (code size : ℕ) (rest : List ℕ) (hc : code < 2 ^ 64)
      (hs : size < 2 ^ 64) (h : Holds whole r (frame_header code size ++ rest)) where
    read_frame-unknown : from_u64 code ≡ none → read_frame reads r ≡ err (unknown_frame code)
    unfolding read_frame
    read_frame-unknown e =
        let unknown : frame_of code ≡ err (unknown_frame code) = frame_of-none code e in
        let h1 = subst (Holds whole r) (append_assoc (put_leb128 code) (put_leb128 size) rest) h in
        let (r1, e1, h2) = get_number-Holds whole r code (put_leb128 size ++ rest) hc h1 in
        rw (e1, ◌>>=◌, unknown)

    -- Where the number of the frame is known, the buffer behind its header holds the rest.
    read_frame-known :
        (ty : Frame)
        → from_u64 code ≡ some ty
        → (r' : ReadBytes) × Holds whole r' rest
          × (read_frame reads r ≡ (
              if ltb (length rest) size
              then err (frame_overflow ty size (length rest))
              else ok ((ty, (slice size r').0), (slice size r').1)))
    unfolding read_frame
    read_frame-known ty e =
        let known : frame_of code ≡ ok ty = frame_of-some code ty e in
        let h1 = subst (Holds whole r) (append_assoc (put_leb128 code) (put_leb128 size) rest) h in
        let (r1, e1, h2) = get_number-Holds whole r code (put_leb128 size ++ rest) hc h1 in
        let (r2, e2, h3) = get_number-Holds whole r1 size rest hs h2 in
        (
          r2,
          h3,
          rw (e1, ◌>>=◌, known, e2, remaining_lem whole r2 rest h3)
              (reject->> (ltb (length rest) size) _ _),
        )

  -- A message of a client: the header of a frame, and what follows.
  module _ (code size : ℕ) (rest : List ℕ) (hc : code < 2 ^ 64) (hs : size < 2 ^ 64)
      (hl : length (frame_header code size ++ rest) < 2 ^ 64) where
    abbrev bytes : List ℕ
    bytes = frame_header code size ++ rest

    unknown_first :
        (fuel : ℕ)
        → from_u64 code ≡ none
        → validate_message crates reads fuel bytes ≡ err (unknown_frame code)
    unfolding validate_message
    unknown_first fuel e =
        rw (read_frame-unknown bytes (new bytes) code size rest hc hs (new-Holds bytes hl) e, ◌>>=◌)

    long_first :
        (fuel : ℕ) (ty : Frame)
        → from_u64 code ≡ some ty
        → length rest < size
        → validate_message crates reads fuel bytes ≡ err (frame_overflow ty size (length rest))
    unfolding validate_message
    long_first fuel ty e lt =
        let (r, h, q) =
          read_frame-known bytes (new bytes) code size rest hc hs (new-Holds bytes hl) ty e in
        let over : ltb (length rest) size ≡ true = ground arith in rw (q, over, ◌>>=◌)

    other_first :
        (fuel : ℕ) (ty : Frame)
        → from_u64 code ≡ some ty
        → size ≤ length rest
        → ty ≢ message
        → validate_message crates reads fuel bytes ≡ err (bad_root ty)
    unfolding validate_message reject is_message
    other_first fuel ty e le ne =
        let (r, h, q) =
          read_frame-known bytes (new bytes) code size rest hc hs (new-Holds bytes hl) ty e in
        let fits : ltb (length rest) size ≡ false = ground arith in
        let other : is_message ty ≡ false = not_message ty ne in rw (q, fits, ◌>>=◌, other)
      where
        not_message : (ty : Frame) → ty ≢ message → is_message ty ≡ false
        not_message message ne = absurd (ne refl)
        not_message frame ne = refl

    -- The buffer behind the header, cut at the size.
    module _ (r : ReadBytes) (h : Holds bytes r rest) (le : size ≤ length rest) where
      cursor_lem : r.cursor ≡ length (frame_header code size)
      cursor_lem = omega (arith, h.ends, length-append (frame_header code size) rest)

      advanced : (slice size r).1.cursor ≡ length (frame_header code size) + size
      unfolding slice advance
      advanced = omega (arith, cursor_lem, h.ends, h.small, le)

      body_lem :
          Crates.slice crates 0 (slice size r).1.cursor bytes
          ≡ some (frame_header code size ++ take size rest)
      body_lem =
          let inside : (leb 0 (length (frame_header code size) + size)
                && leb (length (frame_header code size) + size) (length bytes))
              ≡ true =
            ground (arith, length-append (frame_header code size) rest) in
          let whole : length (frame_header code size) + size - 0
              ≡ length (frame_header code size) + size =
            omega arith in
          rw (advanced, Crates.slice_lem crates, inside, whole)
            (ap some (
              take_over-append (length (frame_header code size) + size) size
                (frame_header code size) rest refl))

      rest_lem : as_bytes crates (slice size r).1 ≡ some (drop size rest)
      unfolding as_bytes slice advance
      rest_lem =
          let bound : length (frame_header code size) + size ≤ length bytes =
            omega (arith, length-append (frame_header code size) rest, le) in
          let inside : (leb (length (frame_header code size) + size) (length bytes)
                && leb (length bytes) (length bytes))
              ≡ true =
            ground arith in
          let here : drop (length (frame_header code size) + size) bytes ≡ drop size rest =
            drop_over-append (length (frame_header code size) + size) size (frame_header code size)
              rest refl in
          let enough : length (drop size rest)
              ≤ length bytes - (length (frame_header code size) + size) =
            omega (arith, length-drop size rest, length-append (frame_header code size) rest) in
          rw (advanced, h.full, h.all, Crates.slice_lem crates, inside, here)
            (ap some (take_all _ (drop size rest) enough))

    -- A message frame that is whole, and whose body is at least as long as its header, is accepted
    -- with no mentions, whatever the body holds.
    pub message_first :
        (fuel : ℕ)
        → from_u64 code ≡ some message
        → length (frame_header code size) ≤ size
        → size ≤ length rest
        → validate_message crates reads (suc fuel) bytes
          ≡ ok (record {
            mentions = [];
            body = frame_header code size ++ take size rest;
            rest = drop size rest;
          })
    unfolding validate_message validate_frame reject is_message is_empty expect slice
    message_first fuel e enough le =
        let (r, h, q) =
          read_frame-known bytes (new bytes) code size rest hc hs (new-Holds bytes hl) message e in
        let fits : ltb (length rest) size ≡ false = ground arith in
        let left : leb r.cursor size ≡ true = ground (arith, cursor_lem r h le) in
        rw (q, fits, ◌>>=◌, left, body_lem r h le, rest_lem r h le, expect)

    not_message : (ty : Frame) → from_u64 code ≡ some ty → code ≢ 0 → ty ≢ message
    unfolding from_u64
    not_message message e ne = ground arith
    not_message ty e ne = λ q. cc

    -- A message whose first frame is of another kind is refused: for a number that names no frame,
    -- for a length greater than that of what follows, and otherwise for its kind.
    pub other_root :
        (fuel : ℕ)
        → code ≢ 0
        → validate_message crates reads fuel bytes ≡ elim (from_u64 code) [
          | none ↦ err (unknown_frame code)
          | some ty ↦
              if ltb (length rest) size
              then err (frame_overflow ty size (length rest))
              else err (bad_root ty)
        ]
    other_root fuel ne = elim (Option-cases (from_u64 code)) [
      | inl e ↦ rw e (unknown_first fuel e)
      | inr (ty, e) ↦ elim (Bool-cases (ltb (length rest) size)) [
        | inl over ↦ rw (e, over) (long_first fuel ty e ((ltb_iff _ _).0 over))
        | inr fits ↦
            rw (e, fits) (other_first fuel ty e (ground (arith, fits)) (not_message ty e ne))
      ]
    ]
