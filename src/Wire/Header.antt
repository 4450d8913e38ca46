-- ===== src/Wire/Header.antt =====
-- Message kinds, flags and the header of a message (protocol.rs).
use adaptarr_server.Prelude.{
  ℕ, ◌^◌, ◌<◌, ◌≤◌, ◌≡◌, ◌↔◌, All, Bool, not, Option, none, some, List, [], ◌∷◌, ◌++◌, ◌==◌, length,
  if◌then◌else◌, Result, ok, err, refl, subst, take, drop, arith,
}
use adaptarr_server.Prelude.Words.{IsByte, has_bit, to_le, from_le, to_le-from_le}
use native.Mathlib.Decide.{dec_lt}
use adaptarr_server.Wire.{Crates}

pub data Kind : Type 0 where
  connected new_message send_message get_history : Kind
  unknown_event message_received message_invalid history_entries : Kind

-- `kind as u16`.
unfoldable pub to_u16 : Kind → ℕ
to_u16 connected = 0
to_u16 new_message = 1
to_u16 send_message = 2
to_u16 get_history = 3
to_u16 unknown_event = 0x8000
to_u16 message_received = 0x8001
to_u16 message_invalid = 0x8002
to_u16 history_entries = 0x8003

unfoldable pub from_u16 : ℕ → Option Kind
from_u16 v =
    if v == 0
    then some connected
    else if v == 1
    then some new_message
    else if v == 2
    then some send_message
    else if v == 3
    then some get_history
    else if v == 0x8000
    then some unknown_event
    else if v == 0x8001
    then some message_received
    else if v == 0x8002
    then some message_invalid
    else if v == 0x8003
    then some history_entries
    else none

unfoldable pub is_event : Kind → Bool
unfolding to_u16
is_event k = not (has_bit (to_u16 k) 15)

unfoldable pub is_response : Kind → Bool
unfolding to_u16
is_response k = has_bit (to_u16 k) 15

-- `from_u16` gives a kind exactly for that kind's code.
pub from_u16-eq-some : (v : ℕ) (k : Kind) → (from_u16 v ≡ some k) ↔ (v ≡ to_u16 k)
unfolding from_u16 to_u16
from_u16-eq-some v connected = ground arith
from_u16-eq-some v k = ground arith

pub record Message : Type 0 where
  pub cookie : ℕ
  pub kind : ℕ
  pub flags : ℕ
  pub body : List ℕ

pub data ParseHeaderError : Type 0 where
  underflow bad_flags : ParseHeaderError

unfoldable pub close_code : ParseHeaderError → ℕ
close_code underflow = 4000
close_code bad_flags = 4004

module _ (crates : Crates) where
  open crates use {
    put_u16_le, put_u32_le, put_u16_le_lem, put_u32_le_lem, flags_from_bits, flags_known,
    flags_unknown,
  }

  -- `Message::header`: the body is empty.
  unfoldable pub header : ℕ → Kind → ℕ → Message
  header cookie kind flags = record {
    cookie = cookie;
    kind = to_u16 kind;
    flags = flags;
    body = [];
  }

  unfoldable pub write : Message → List ℕ → List ℕ
  write m into =
      into ++ (put_u32_le m.cookie ++ (put_u16_le m.kind ++ (put_u16_le m.flags ++ m.body)))

  unfoldable pub to_bytes : Message → List ℕ
  unfolding write
  to_bytes m = write m []

  -- The patterns are the test `msg.len() < 8` and the reads of `msg[0]` to `msg[7]`.
  unfoldable pub parse : List ℕ → Result ParseHeaderError Message
  parse (a ∷ b ∷ c ∷ d ∷ e ∷ f ∷ g ∷ h ∷ body) = elim (flags_from_bits (from_le (g ∷ h ∷ []))) [
    | none ↦ err bad_flags
    | some flags ↦ ok (record {
      cookie = from_le (a ∷ b ∷ c ∷ d ∷ []);
      kind = from_le (e ∷ f ∷ []);
      flags = flags;
      body = body;
    })
  ]
  parse msg = err underflow

  pub record IsMessage (m : Message) : Type 0 where
    pub cookie : m.cookie < 2 ^ 32
    pub kind : m.kind < 2 ^ 16
    pub flags : m.flags < 4

  -- What `to_bytes` wrote `parse` reads back.
  pub parse-to_bytes : (m : Message) → IsMessage m → parse (to_bytes m) ≡ ok m
  unfolding parse to_bytes to_le from_le
  parse-to_bytes m h =
      rw (put_u32_le_lem, put_u16_le_lem, put_u16_le_lem)
        (ground (arith, h.cookie, h.kind, h.flags, flags_known (from_le (to_le 2 m.flags))))

  -- What `parse` does with eight bytes or more.
  abbrev parsed : (a b c d e f g h : ℕ) → List ℕ → Message
  parsed a b c d e f g h body = record {
    cookie = from_le (a ∷ b ∷ c ∷ d ∷ []);
    kind = from_le (e ∷ f ∷ []);
    flags = from_le (g ∷ h ∷ []);
    body = body;
  }

  module _ (a b c d e f g h : ℕ) (body : List ℕ) where
    abbrev message : List ℕ
    message = a ∷ b ∷ c ∷ d ∷ e ∷ f ∷ g ∷ h ∷ body

    parse-known : from_le (g ∷ h ∷ []) < 4 → parse message ≡ ok (parsed a b c d e f g h body)
    unfolding parse
    parse-known lt = rw (flags_known _ lt, parse)

    parse-unknown : 4 ≤ from_le (g ∷ h ∷ []) → parse message ≡ err bad_flags
    unfolding parse
    parse-unknown le = rw (flags_unknown _ le, parse)

    to_bytes-parsed : All IsByte message → to_bytes (parsed a b c d e f g h body) ≡ message
    unfolding to_bytes
    to_bytes-parsed q =
        let r = q.1.1.1.1 in
        rw (
          put_u32_le_lem,
          put_u16_le_lem,
          put_u16_le_lem,
          to_le-from_le (a ∷ b ∷ c ∷ d ∷ []) (q.0, (q.1.0, (q.1.1.0, (q.1.1.1.0, tt)))),
          to_le-from_le (e ∷ f ∷ []) (r.0, (r.1.0, tt)),
          to_le-from_le (g ∷ h ∷ []) (r.1.1.0, (r.1.1.1.0, tt)),
        )

  -- Conversely, a byte string that `parse` accepts is what `to_bytes` writes for the message.
  pub to_bytes-parse :
      (bs : List ℕ) (m : Message) → All IsByte bs → parse bs ≡ ok m → to_bytes m ≡ bs
  to_bytes-parse (a ∷ b ∷ c ∷ d ∷ e ∷ f ∷ g ∷ h ∷ body) m all q =
      elim (dec_lt (from_le (g ∷ h ∷ [])) 4) [
        | yes lt ↦
            let same : parsed a b c d e f g h body ≡ m = cc (parse-known a b c d e f g h body lt) in
            subst (λ n. to_bytes n ≡ a ∷ b ∷ c ∷ d ∷ e ∷ f ∷ g ∷ h ∷ body) same
              (to_bytes-parsed a b c d e f g h body all)
        | no ge ↦ cc (parse-unknown a b c d e f g h body (omega arith))
      ]
  to_bytes-parse bs m all q = unfold parse in cc

  -- The two errors of `parse`: fewer than eight bytes, and flags other than 1 and 2.
  pub parse_errors :
      (bs : List ℕ)
      → ((parse bs ≡ err underflow) ↔ (length bs < 8))
        × ((parse bs ≡ err bad_flags) ↔ ((8 ≤ length bs) × (4 ≤ from_le (take 2 (drop 6 bs)))))
  parse_errors (a ∷ b ∷ c ∷ d ∷ e ∷ f ∷ g ∷ h ∷ body) = elim (dec_lt (from_le (g ∷ h ∷ [])) 4) [
    | yes lt ↦
        let known = parse-known a b c d e f g h body lt in
        (
          (λ q. cc known, λ short. absurd (omega arith)),
          (λ q. cc known, λ bad. absurd (omega arith)),
        )
    | no ge ↦
        let unknown = parse-unknown a b c d e f g h body (omega arith) in
        (
          (λ q. cc unknown, λ short. absurd (omega arith)),
          (λ q. (omega arith, omega arith), λ bad. unknown),
        )
  ]
  parse_errors bs = (
    (λ q. omega arith, λ short. unfold parse in refl),
    (λ q. unfold parse in cc, λ bad. absurd (omega arith)),
  )
