-- ===== src/Client/Answers.antt =====
-- What a client is answered (client.rs).
use adaptarr_server.Prelude.{ℕ, ◌^◌, ◌<◌, ◌≡◌, false, some, List, ◌++◌, ok, err, refl, ◌∙◌, arith}
use adaptarr_server.Prelude.Words.{to_le}
use adaptarr_server.Wire.{Crates}
use adaptarr_server.Wire.Cookie.{is_server}
use adaptarr_server.Wire.Header.{
  Kind, Message, IsMessage, to_u16, from_u16-eq-some, from_u16, parse, to_bytes, parse-to_bytes,
}
use adaptarr_server.Wire.Body.{
  Written, build, read_message_received, write_message_received, write_message_invalid,
}
use adaptarr_server.Wire.Body.RoundTrip.{read-write_message_received}
use adaptarr_server.Format.Frames.{Error}
use adaptarr_server.Broker.Messages.{validation}
use adaptarr_server.Client.{
  Client, SocketMessage, send, ask, maybe_suspend, reply, handle, dispatch, send_new_message,
  message_sent, new_message,
}

module _ (crates : Crates) where
  -- The bytes of an answer, which are read as a message with a cookie, a kind and a body.
  pub record Answers (cookie : ℕ) (kind : Kind) (bs : List ℕ) (body : List ℕ) : Type 0 where
    pub message : Message
    pub read : parse crates bs ≡ ok message
    pub same : message.cookie ≡ cookie
    pub kinds : message.kind ≡ to_u16 kind
    pub bodies : message.body ≡ body

  open crates use {put_u16_le_lem, put_u32_le_lem}

  abbrev frame : ℕ → Kind → List ℕ → Message
  frame cookie kind body = record { cookie = cookie; kind = to_u16 kind; flags = 0; body = body }

  to_u16-lt : (k : Kind) → to_u16 k < 2 ^ 16
  unfolding to_u16
  to_u16-lt Kind.connected = omega arith
  to_u16-lt k = omega arith

  build-frame :
      (cookie : ℕ) (kind : Kind) (body : List ℕ) (write_body : List ℕ → Written)
      → ((into : List ℕ) → write_body into ≡ ok (into ++ body))
      → build crates cookie kind 0 write_body ≡ ok (to_bytes crates (frame cookie kind body))
  unfolding build to_bytes to_le
  build-frame cookie kind body write_body written =
      written _ ∙ rw (put_u32_le_lem, put_u16_le_lem, put_u16_le_lem) refl

  -- What `reply` sends is read with its cookie, its kind and its body, which is written behind
  -- whatever is in the buffer.
  pub reply-Answers :
      (cookie : ℕ) (kind : Kind) (body : List ℕ) (write_body : List ℕ → Written)
      → cookie < 2 ^ 32
      → ((into : List ℕ) → write_body into ≡ ok (into ++ body))
      → (bs : List ℕ) × (reply crates cookie kind 0 write_body ≡ ok (send bs))
        × Answers cookie kind bs body
  unfolding reply
  reply-Answers cookie kind body write_body h written = (
    to_bytes crates (frame cookie kind body),
    rw (build-frame cookie kind body write_body written) refl,
    record {
      message = frame cookie kind body;
      read =
          parse-to_bytes crates (frame cookie kind body)
            (record { cookie = h; kind = to_u16-lt kind; flags = omega arith });
      same = refl;
      kinds = refl;
      bodies = refl;
    },
  )

  module _ (c : Client) (m : Message) (valid : IsMessage crates m)
      (sent : is_server m.cookie ≡ false) where
    pub handle-dispatch :
        handle crates c (SocketMessage.binary (to_bytes crates m)) ≡ dispatch crates c m
    unfolding handle
    handle-dispatch = rw (handle, parse-to_bytes crates m valid, sent) refl

    -- A message that a client asks to send is passed on to the broker as it is. When the broker has
    -- stored it, the answer is read as a receipt with the cookie of the request and the identifier of
    -- the event; when its body is invalid, as a refusal with that cookie and the text of the error.
    pub handle-message_sent :
        (to_string : Error → List ℕ) (id : ℕ) (problem : Error)
        → m.kind ≡ to_u16 Kind.send_message
        → id < 2 ^ 32
        → (handle crates c (SocketMessage.binary (to_bytes crates m))
            ≡ ok (ask (new_message c.conversation c.user m.body) m.cookie (maybe_suspend m.flags)))
          × ((bs body : List ℕ) × (message_sent crates to_string m.cookie (some (ok id))
                ≡ ok (send bs))
              × Answers m.cookie Kind.message_received bs body
              × (read_message_received crates body ≡ ok id))
          × ((bs : List ℕ) × (message_sent crates to_string m.cookie
                  (some (err (validation problem)))
                ≡ ok (send bs))
              × Answers m.cookie Kind.message_invalid bs (to_string problem))
    unfolding dispatch send_new_message message_sent write_message_received write_message_invalid
    handle-message_sent to_string id problem asks small =
        let is_send : from_u16 m.kind ≡ some Kind.send_message =
          (from_u16-eq-some m.kind Kind.send_message).1 asks in
        let (bs, run, answers) =
          reply-Answers m.cookie Kind.message_received (crates.put_i32_le id)
            (write_message_received crates id) valid.cookie (λ into. refl) in
        let (body, written, back) = read-write_message_received crates id small in
        let (bs', run', answers') =
          reply-Answers m.cookie Kind.message_invalid (to_string problem)
            (write_message_invalid crates (some (to_string problem))) valid.cookie (λ into. refl) in
        (
          handle-dispatch ∙ rw (dispatch, is_send) refl,
          (bs, crates.put_i32_le id, run, answers, cc (written, back)),
          (bs', run', answers'),
        )
