-- ===== src/Drafts/Checks.antt =====
-- The checks of a call that advances a draft (draft.rs).
use adaptarr_server.Prelude.{
  ℕ, ◌≡◌, ◌≢◌, inl, inr, ◌==◌, ==_iff, both, parts, ◌&&◌, true, false, Option, none, some,
  Option-cases, List, [], ◌∷◌, All, ok, reject, refl,
}
use adaptarr_server.Storage.Joins.{find-some, find-none}
use adaptarr_server.Drafts.{Draft, DraftSlot, EditProcessStep, EditProcessLink, Tables, State}
use adaptarr_server.Drafts.Slots.{is_seat, required}
use adaptarr_server.Drafts.Seating.{Seating, is_final, get_link}
use adaptarr_server.Drafts.Advance.{finish_draft, fill_empty, proceed, advance_draft}

module _ (db : Tables) where
  abbrev pub HasLink : ℕ → ℕ → ℕ → State db → Type 0
  HasLink step slot target s =
      (r : EditProcessLink) × db.links.Contains s.links r
      × (r.from ≡ step)
      × (r.to ≡ target)
      × (r.slot ≡ slot)

  -- The user sits in the slot, and the slot can take a link from the draft's step to a step.
  pub record IsEnabled (self : Draft) (user slot target : ℕ) (s : State db) : Type 0 where
    pub seat :
        (r : DraftSlot) × db.draft_slots.Contains s.draft_slots r
        × (r.draft ≡ self.module_id)
        × (r.slot ≡ slot)
    pub sitter :
        (r : DraftSlot)
        → db.draft_slots.Contains s.draft_slots r
        → r.draft ≡ self.module_id
        → r.slot ≡ slot
        → r.user ≡ user
    pub link : HasLink self.step slot target s
    pub next : (r : EditProcessStep) × db.steps.Contains s.steps r × (r.id ≡ target)

  -- The draft is the one row of its module.
  abbrev pub IsStored : Draft → State db → Type 0
  IsStored self s =
      db.drafts.Contains s.drafts self
      × ((r : Draft) → db.drafts.Contains s.drafts r → r.module_id ≡ self.module_id → r ≡ self)

  -- A link leaves the step.
  abbrev pub HasNext : ℕ → State db → Type 0
  HasNext step s = (r : EditProcessLink) × db.links.Contains s.links r × (r.from ≡ step)

  pub is_final-HasNext :
      (next : EditProcessStep) (s : State db) → HasNext next.id s → is_final db next s ≡ false
  unfolding is_final
  is_final-HasNext next s (r, here, e) =
      let (x, found, there, test) =
        find-some db.links (λ r. r.from == next.id) s.links r here ((==_iff r.from next.id).1 e) in
      rw (found, is_final)

  pub is_final-none :
      (next : EditProcessStep) (s : State db) → ¬ HasNext next.id s → is_final db next s ≡ true
  unfolding is_final
  is_final-none next s h = rw (
    find-none db.links (λ r. r.from == next.id) s.links
        (λ r here hit. h (r, here, (==_iff r.from next.id).0 hit)),
    is_final,
  )

  seat_lem :
      (self : Draft) (user slot target : ℕ) (s : State db)
      → IsEnabled self user slot target s
      → (seat : DraftSlot) × (db.draft_slots.find (is_seat self.module_id slot) s.draft_slots
          ≡ some seat)
        × ((seat.user == user) ≡ true)
        × (seat.slot ≡ slot)
  unfolding is_seat
  seat_lem self user slot target s h =
      let (r, here, rd, rs) = h.seat in
      let (seat, e, there, test) =
        find-some db.draft_slots (is_seat self.module_id slot) s.draft_slots r here
          (both ((==_iff r.draft self.module_id).1 rd) ((==_iff r.slot slot).1 rs)) in
      let (draft, place) = parts (seat.draft == self.module_id) (seat.slot == slot) test in
      let at = (==_iff seat.slot slot).0 place in
      (
        seat,
        e,
        (==_iff seat.user user).1
            (h.sitter seat there ((==_iff seat.draft self.module_id).0 draft) at),
        at,
      )

  link_lem :
      (step slot target : ℕ) (s : State db)
      → HasLink step slot target s
      → (link : EditProcessLink) × (get_link db step slot target s ≡ some link) × (link.to ≡ target)
  unfolding get_link
  link_lem step slot target s (l, here, lf, lt, ls) =
      let (link, e, there, test) =
        find-some db.links (λ r. (r.from == step && r.to == target) && r.slot == slot) s.links l
          here
          (both (both ((==_iff l.from step).1 lf) ((==_iff l.to target).1 lt))
            ((==_iff l.slot slot).1 ls)) in
      let (ends, same) = parts (link.from == step && link.to == target) (link.slot == slot) test in
      let (first, second) = parts (link.from == step) (link.to == target) ends in
      (link, e, (==_iff link.to target).0 second)

  next_lem :
      (target : ℕ) (s : State db) (r : EditProcessStep)
      → db.steps.Contains s.steps r
      → r.id ≡ target
      → (next : EditProcessStep) × (db.steps.find (λ x. x.id == target) s.steps ≡ some next)
        × (next.id ≡ target)
  next_lem target s r here e =
      let (next, f, there, test) =
        find-some db.steps (λ x. x.id == target) s.steps r here ((==_iff r.id target).1 e) in
      (next, f, (==_iff next.id target).0 test)

  module _ (pick : State db → Option ℕ) where
    pub fill_empty-ok :
        (self : Draft) (seats : List Seating) (s : State db)
        → All (λ (x : Seating). x.user ≢ none) seats
        → fill_empty db pick self seats s ≡ ok s
    unfolding fill_empty
    fill_empty-ok self [] s h = refl
    fill_empty-ok self (seat ∷ more) s h = elim (Option-cases seat.user) [
      | inl empty ↦ absurd (h.0 empty)
      | inr (user, e) ↦ rw (e, fill_empty) (fill_empty-ok self more s h.1)
    ]

    runs :
        (self : Draft) (user slot target : ℕ) (s : State db) (seat : DraftSlot)
        (link : EditProcessLink) (next : EditProcessStep)
        → db.draft_slots.find (is_seat self.module_id slot) s.draft_slots ≡ some seat
        → (seat.user == user) ≡ true
        → seat.slot ≡ slot
        → get_link db self.step slot target s ≡ some link
        → link.to ≡ target
        → db.steps.find (λ x. x.id == target) s.steps ≡ some next
        → advance_draft db pick self user slot target s ≡ (elim (is_final db next s) [
          | true ↦ finish_draft db self user link next s
          | false ↦ proceed db pick self user link next s
        ])
    unfolding advance_draft required reject
    runs self user slot target s seat link next e same at f to g = rw (e, same, at, f, to, g)

    -- Where the checks of the call pass, the step that it goes on with is the one asked for.
    pub checked :
        (self : Draft) (user slot target : ℕ) (s : State db)
        → IsEnabled self user slot target s
        → (link : EditProcessLink) × (next : EditProcessStep) × (next.id ≡ target)
          × (advance_draft db pick self user slot target s ≡ (elim (is_final db next s) [
            | true ↦ finish_draft db self user link next s
            | false ↦ proceed db pick self user link next s
          ]))
    checked self user slot target s h =
        let (seat, e, same, at) = seat_lem self user slot target s h in
        let (link, f, to) = link_lem self.step slot target s h.link in
        let (r, r_here, r_id) = h.next in
        let (next, g, n_id) = next_lem target s r r_here r_id in
        (link, next, n_id, runs self user slot target s seat link next e same at f to g)

    module _ (self : Draft) (user slot target : ℕ) (s : State db) (link : EditProcessLink)
        (next : EditProcessStep)
        (run : advance_draft db pick self user slot target s ≡ (elim (is_final db next s) [
          | true ↦ finish_draft db self user link next s
          | false ↦ proceed db pick self user link next s
        ])) where
      pub goes_on :
          is_final db next s ≡ false
          → advance_draft db pick self user slot target s ≡ proceed db pick self user link next s
      goes_on e = rw e at run

      pub ends :
          is_final db next s ≡ true
          → advance_draft db pick self user slot target s ≡ finish_draft db self user link next s
      ends e = rw e at run
