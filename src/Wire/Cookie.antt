-- ===== src/Wire/Cookie.antt =====
-- Cookies of events, and the generator of those that the server uses (protocol.rs).
use adaptarr_server.Prelude.{
  ℕ, zero, suc, ◌+◌, ◌%◌, ◌<◌, ◌≡◌, ◌≢◌, Bool, true, false, not, leb, if◌then◌else◌, arith,
}
use adaptarr_server.Prelude.Words.{has_bit, set_bit}

unfoldable pub is_server : ℕ → Bool
is_server cookie = has_bit cookie 31

unfoldable pub is_client : ℕ → Bool
is_client cookie = not (has_bit cookie 31)

pub record CookieGenerator : Type 0 where
  pub counter : ℕ

-- The wrapped counter starts anew at 0x8000; the cookie has bit 15 set.
unfoldable pub next : CookieGenerator → CookieGenerator × ℕ
next g =
    let cookie = g.counter in
    let counter = cookie + 1 in
    (record { counter = if leb 0x8000 counter then 0 else counter }, set_bit cookie 15)

-- The cookie that a generator hands out after `n` others.
unfoldable pub nth : ℕ → CookieGenerator → ℕ
nth zero g = (next g).1
nth (suc n) g = nth n (next g).0

abbrev pub IsValid : CookieGenerator → Type 0
IsValid g = g.counter < 0x8000

-- From a valid generator the cookie is the counter plus 0x8000, the generator stays valid, and the
-- cookie counts as one of a client, not as one of the server.
pub next_cookie :
    (g : CookieGenerator)
    → IsValid g
    → ((next g).1 ≡ g.counter + 0x8000)
      × IsValid (next g).0
      × (is_client (next g).1 ≡ true)
      × (is_server (next g).1 ≡ false)
unfolding next is_client is_server
next_cookie g h = (ground arith, ground arith, ground arith, ground arith)

nth_lem : (n : ℕ) (g : CookieGenerator) → IsValid g → nth n g ≡ (g.counter + n) % 0x8000 + 0x8000
unfolding nth next
nth_lem zero g h = omega (arith, (next_cookie g h).0)
nth_lem (suc n) g h = ground (arith, nth_lem n (next g).0 (next_cookie g h).1)

-- Two cookies are different when fewer than 0x8000 calls lie between them.
pub nth_distinct :
    (i j : ℕ) (g : CookieGenerator) → IsValid g → i < j → j < i + 0x8000 → nth i g ≢ nth j g
nth_distinct i j g h lt near = λ e. absurd (omega (arith, nth_lem i g h, nth_lem j g h))
