-- ===== src/Validate/Grants.antt =====
-- The permissions that a step grants to its slots.
use mathlib.Core.List.Memᴰ
use adaptarr_server.Prelude.{
  ℕ, Bool, true, false, ◌&&◌, List, [], ◌∷◌, map, Result, ok, reject, ◌>>=◌, ◌>>◌, ◌≡◌, refl, ◌↔◌,
  ◌⊎◌, inl, inr, Memᴰ, Memᴰ-cons, Decides, Yields, Decides->>, Decides->>=, Yields->>=, Yields-iff,
  Decides-iff, Decides-reject, arith, Bool-cases,
}
use adaptarr_server.Process.{
  SlotPermission, view, edit, propose_changes, accept_changes, StepSlot, Step,
  ValidateStructureError, permission_duplication, conflicting_permissions,
}
use adaptarr_server.Process.WellFormed.{Grants, AtMostOne, GoodGrants, permission_of}
use adaptarr_server.Validate.{Check}

pub record Held : Type 0 where
  pub has_editing : Bool
  pub has_propose : Bool
  pub has_accept : Bool

unfoldable pub hold : ℕ → Held → SlotPermission → Result ValidateStructureError Held
hold stepid h view = ok h
hold stepid h edit = do
  reject h.has_editing (permission_duplication stepid edit)
  ok (record h { has_editing = true })
hold stepid h propose_changes = do
  reject h.has_propose (permission_duplication stepid propose_changes)
  ok (record h { has_propose = true })
hold stepid h accept_changes = ok (record h { has_accept = true })

unfoldable pub hold_all : ℕ → Held → List StepSlot → Result ValidateStructureError Held
hold_all stepid h [] = ok h
hold_all stepid h (g ∷ gs) = do h' ← hold stepid h g.permission; hold_all stepid h' gs

unfoldable pub check_conflicts : ℕ → Held → Check
check_conflicts stepid h = do
  reject (h.has_editing && h.has_propose) (conflicting_permissions stepid edit propose_changes)
  reject (h.has_editing && h.has_accept) (conflicting_permissions stepid edit accept_changes)
  reject (h.has_propose && h.has_accept)
      (conflicting_permissions stepid propose_changes accept_changes)

abbrev pub none_held : Held
none_held = record { has_editing = false; has_propose = false; has_accept = false }

unfoldable pub check_grants : ℕ → Step → Check
check_grants stepid s = do h ← hold_all stepid none_held s.slots; check_conflicts stepid h

-- What the loop accepts when the flags stand at `h`, by the permissions that are still to come.
record Holds (h : Held) (gs : List StepSlot) : Type 0 where
  one_edit : AtMostOne edit gs
  one_propose : AtMostOne propose_changes gs
  no_edit : h.has_editing ≡ true → ¬ Memᴰ edit (map permission_of gs)
  no_propose : h.has_propose ≡ true → ¬ Memᴰ propose_changes (map permission_of gs)

-- The flags after the loop.
record Noted (h : Held) (gs : List StepSlot) (out : Held) : Type 0 where
  editing : (out.has_editing ≡ true) ↔ ((h.has_editing ≡ true) ⊎ Memᴰ edit (map permission_of gs))
  propose :
      (out.has_propose ≡ true)
      ↔ ((h.has_propose ≡ true) ⊎ Memᴰ propose_changes (map permission_of gs))
  accept :
      (out.has_accept ≡ true) ↔ ((h.has_accept ≡ true) ⊎ Memᴰ accept_changes (map permission_of gs))

-- One round of the loop: when it goes on, and with which flags.
abbrev Free : Held → SlotPermission → Type 0
Free h view = Unit
Free h edit = h.has_editing ≡ false
Free h propose_changes = h.has_propose ≡ false
Free h accept_changes = Unit

abbrev flagged : Held → SlotPermission → Held
flagged h view = h
flagged h edit = record h { has_editing = true }
flagged h propose_changes = record h { has_propose = true }
flagged h accept_changes = record h { has_accept = true }

hold-Yields :
    (stepid : ℕ) (h : Held) (p : SlotPermission)
    → Yields (hold stepid h p) (Free h p) (λ out. out ≡ flagged h p)
unfolding hold Yields reject
hold-Yields stepid h view = (tt, refl)
hold-Yields stepid h edit = elim (Bool-cases h.has_editing) [
  | inl e ↦ rw e (λ f. cc)
  | inr e ↦ rw e (refl, refl)
]
hold-Yields stepid h propose_changes = elim (Bool-cases h.has_propose) [
  | inl e ↦ rw e (λ f. cc)
  | inr e ↦ rw e (refl, refl)
]
hold-Yields stepid h accept_changes = (tt, refl)

module _ (h : Held) (slot : ℕ) (gs : List StepSlot) where
  Holds-cons :
      (p : SlotPermission)
      → (Free h p × Holds (flagged h p) gs) ↔ Holds h (record { slot = slot; permission = p } ∷ gs)
  Holds-cons view = ground (
    arith,
    Memᴰ-cons edit view (map permission_of gs),
    Memᴰ-cons propose_changes view (map permission_of gs),
  )
  Holds-cons p = ground (
    arith,
    Memᴰ-cons edit p (map permission_of gs),
    Memᴰ-cons propose_changes p (map permission_of gs),
  )

  Noted-cons :
      (p : SlotPermission) (out : Held)
      → Noted (flagged h p) gs out
      → Noted h (record { slot = slot; permission = p } ∷ gs) out
  Noted-cons view out n = ground (
    arith,
    Memᴰ-cons edit view (map permission_of gs),
    Memᴰ-cons propose_changes view (map permission_of gs),
    Memᴰ-cons accept_changes view (map permission_of gs),
  )
  Noted-cons p out n = ground (
    arith,
    Memᴰ-cons edit p (map permission_of gs),
    Memᴰ-cons propose_changes p (map permission_of gs),
    Memᴰ-cons accept_changes p (map permission_of gs),
  )

not-mem-nil {ℓ} : {A : Type ℓ} (a : A) → ¬ Memᴰ a []
not-mem-nil a m = Memᴰ.not-nil m

Holds-nil : (h : Held) → Holds h []
Holds-nil h = record {
  one_edit = tt;
  one_propose = tt;
  no_edit = λ _. not-mem-nil edit;
  no_propose = λ _. not-mem-nil propose_changes;
}

Noted-nil : (h : Held) → Noted h [] h
Noted-nil h =
    ground (arith, not-mem-nil edit, not-mem-nil propose_changes, not-mem-nil accept_changes)

hold_all-Yields :
    (stepid : ℕ) (h : Held) (gs : List StepSlot)
    → Yields (hold_all stepid h gs) (Holds h gs) (Noted h gs)
unfolding hold_all Yields
hold_all-Yields stepid h [] = (Holds-nil h, Noted-nil h)
hold_all-Yields stepid h (g ∷ gs) =
    Yields-iff _ (Holds-cons h g.slot gs g.permission) (Noted-cons h g.slot gs g.permission) (
      Yields->>= _ _ _ _ _ (hold-Yields stepid h g.permission)
        (λ out _ e. rw e (hold_all-Yields stepid (flagged h g.permission) gs)))

check_conflicts-Decides :
    (stepid : ℕ) (s : Step) (out : Held)
    → Noted none_held s.slots out
    → Decides (check_conflicts stepid out) (
        (Grants edit s → ¬ Grants propose_changes s)
        × ((Grants edit s → ¬ Grants accept_changes s)
            × (Grants propose_changes s → ¬ Grants accept_changes s)))
unfolding check_conflicts
check_conflicts-Decides stepid s out n = Decides->> _ _ _ (Decides-reject _ _ (ground arith)) (λ _.
    Decides->> _ _ _ (Decides-reject _ _ (ground arith)) (λ _. Decides-reject _ _ (ground arith)))

pub check_grants-Decides : (stepid : ℕ) (s : Step) → Decides (check_grants stepid s) (GoodGrants s)
unfolding check_grants
check_grants-Decides stepid s = Decides-iff _ iff (
    Decides->>= _ _ _ _ (hold_all-Yields stepid none_held s.slots)
      (λ out _ n. check_conflicts-Decides stepid s out n))
  where
    iff :
        (Holds none_held s.slots
          × ((Grants edit s → ¬ Grants propose_changes s)
              × ((Grants edit s → ¬ Grants accept_changes s)
                  × (Grants propose_changes s → ¬ Grants accept_changes s))))
        ↔ GoodGrants s
    iff = (
      λ h. record {
        one_edit = h.0.one_edit;
        one_propose = h.0.one_propose;
        edit_propose = h.1.0;
        edit_accept = h.1.1.0;
        propose_accept = h.1.1.1;
      },
      λ h. (
        record {
          one_edit = h.one_edit;
          one_propose = h.one_propose;
          no_edit = λ e. cc;
          no_propose = λ e. cc;
        },
        (h.edit_propose, (h.edit_accept, h.propose_accept)),
      ),
    )
