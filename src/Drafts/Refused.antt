-- ===== src/Drafts/Refused.antt =====
-- Which calls do not advance a draft (draft.rs).
use adaptarr_server.Prelude.{
  ℕ, ◌≡◌, inl, inr, ◌==◌, ==_iff, parts, ◌&&◌, true, false, Bool-cases, Option, none, some,
  Option-cases, ok, err, reject, subst,
}
use adaptarr_server.Drafts.{Draft, DraftSlot, EditProcessLink, Tables, State}
use adaptarr_server.Drafts.Slots.{is_seat, required}
use adaptarr_server.Drafts.Seating.{get_link}
use adaptarr_server.Drafts.Advance.{bad_slot, bad_user, bad_link, AdvanceResult, advance_draft}
use adaptarr_server.Drafts.Checks.{HasLink}

module _ (db : Tables) (pick : State db → Option ℕ) (self : Draft) (user slot target : ℕ)
    (s : State db) where
  no_seat :
      db.draft_slots.find (is_seat self.module_id slot) s.draft_slots ≡ none
      → advance_draft db pick self user slot target s ≡ err bad_slot
  unfolding advance_draft required
  no_seat e = rw e

  module _ (seat : DraftSlot)
      (e : db.draft_slots.find (is_seat self.module_id slot) s.draft_slots ≡ some seat) where
    wrong_user :
        (seat.user == user) ≡ false → advance_draft db pick self user slot target s ≡ err bad_user
    unfolding advance_draft required reject
    wrong_user f = rw (e, f)

    no_link :
        (seat.user == user) ≡ true
        → get_link db self.step seat.slot target s ≡ none
        → advance_draft db pick self user slot target s ≡ err bad_link
    unfolding advance_draft required reject
    no_link f g = rw (e, f, g)

  found_link :
      (at : ℕ) (link : EditProcessLink)
      → get_link db self.step at target s ≡ some link
      → HasLink db self.step at target s
  unfolding get_link
  found_link at link e =
      let (there, test) =
        db.links.find_some (λ r. (r.from == self.step && r.to == target) && r.slot == at) s.links
          link e in
      let (ends, same) =
        parts (link.from == self.step && link.to == target) (link.slot == at) test in
      let (first, second) = parts (link.from == self.step) (link.to == target) ends in
      (
        link,
        there,
        (==_iff link.from self.step).0 first,
        (==_iff link.to target).0 second,
        (==_iff link.slot at).0 same,
      )

  -- A draft is advanced only by the user who sits in the slot, along a link of that slot that leaves
  -- the draft's step for the target.
  pub advance_draft-eq-ok :
      (out : AdvanceResult × State db)
      → advance_draft db pick self user slot target s ≡ ok out
      → ((r : DraftSlot) × db.draft_slots.Contains s.draft_slots r
          × (r.draft ≡ self.module_id)
          × (r.slot ≡ slot)
          × (r.user ≡ user))
        × HasLink db self.step slot target s
  unfolding is_seat
  advance_draft-eq-ok out h =
      elim (Option-cases (db.draft_slots.find (is_seat self.module_id slot) s.draft_slots)) [
        | inl e ↦ absurd (cc (no_seat e, h))
        | inr (seat, e) ↦
            let (there, test) =
              db.draft_slots.find_some (is_seat self.module_id slot) s.draft_slots seat e in
            let (draft, place) = parts (seat.draft == self.module_id) (seat.slot == slot) test in
            let at = (==_iff seat.slot slot).0 place in
            elim (Bool-cases (seat.user == user)) [
              | inr f ↦ absurd (cc (wrong_user seat e f, h))
              | inl f ↦ elim (Option-cases (get_link db self.step seat.slot target s)) [
                | inl g ↦ absurd (cc (no_link seat e f g, h))
                | inr (link, g) ↦ (
                  (
                    seat,
                    there,
                    (==_iff seat.draft self.module_id).0 draft,
                    at,
                    (==_iff seat.user user).0 f,
                  ),
                  subst (λ k. HasLink db self.step k target s) at (found_link seat.slot link g),
                )
              ]
            ]
      ]
