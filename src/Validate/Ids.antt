-- ===== src/Validate/Ids.antt =====
-- The identifiers of slots and steps.
use adaptarr_server.Prelude.{
  ℕ, Bool, true, false, not, ◌||◌, List, [], ◌∷◌, map, leb, ◌==◌, reject, for_each, ◌>>◌, ◌≡◌, ◌≢◌,
  ◌↔◌, ◌<◌, Memᴰ, Memᴰ-cons, All, Decides, Decides->>, Decides-iff, Decides-reject, Decides-each,
  arith,
}
use adaptarr_server.Process.{
  StepSlot, Link, Step, invalid_step_slot, invalid_link_target, looped_link, invalid_link_slot,
  unusable_link,
}
use mathlib.Core.List.Memᴰ
use adaptarr_server.Process.WellFormed.{GoodLink, GoodIds}
use adaptarr_server.Validate.{Check}

unfoldable pub has_slot : ℕ → List StepSlot → Bool
has_slot k [] = false
has_slot k (g ∷ gs) = g.slot == k || has_slot k gs

unfoldable pub check_grant_id : ℕ → ℕ → ℕ → StepSlot → Check
check_grant_id slots stepid i g =
    reject (leb slots g.slot) (invalid_step_slot stepid g.slot g.permission slots)

unfoldable pub check_link_id : ℕ → ℕ → ℕ → Step → ℕ → Link → Check
check_link_id slots steps stepid s i l = do
  reject (leb steps l.to) (invalid_link_target stepid i l.to steps)
  reject (leb slots l.slot) (invalid_link_slot stepid i l.slot slots)
  reject (not (has_slot l.slot s.slots)) (unusable_link stepid i l.slot)
  reject (l.to == stepid) (looped_link stepid i)

unfoldable pub check_ids : ℕ → ℕ → ℕ → Step → Check
check_ids slots steps stepid s = do
  for_each (check_grant_id slots stepid) 0 s.slots
  for_each (check_link_id slots steps stepid s) 0 s.links

has_slot_iff :
    (k : ℕ) (gs : List StepSlot)
    → (has_slot k gs ≡ true) ↔ Memᴰ k (map (λ (g : StepSlot). g.slot) gs)
unfolding has_slot
has_slot_iff k [] = (λ e. cc, λ m. absurd (Memᴰ.not-nil m))
has_slot_iff k (g ∷ gs) =
    ground (arith, has_slot_iff k gs, Memᴰ-cons k g.slot (map (λ (g : StepSlot). g.slot) gs))

check_grant_id-Decides :
    (slots stepid i : ℕ) (g : StepSlot) → Decides (check_grant_id slots stepid i g) (g.slot < slots)
unfolding check_grant_id
check_grant_id-Decides slots stepid i g = Decides-reject _ _ (ground arith)

check_link_id-Decides :
    (slots steps stepid : ℕ) (s : Step) (i : ℕ) (l : Link)
    → Decides (check_link_id slots steps stepid s i l) (GoodLink slots steps stepid s l)
unfolding check_link_id
check_link_id-Decides slots steps stepid s i l = Decides-iff _ iff (
    Decides->> _ _ _ (Decides-reject _ _ in_steps) (λ _.
      Decides->> _ _ _ (Decides-reject _ _ in_slots)
        (λ _. Decides->> _ _ _ (Decides-reject _ _ usable) (λ _. Decides-reject _ _ elsewhere))))
  where
    in_steps : (leb steps l.to ≡ false) ↔ (l.to < steps)
    in_steps = ground arith

    in_slots : (leb slots l.slot ≡ false) ↔ (l.slot < slots)
    in_slots = ground arith

    usable :
        (not (has_slot l.slot s.slots) ≡ false)
        ↔ Memᴰ l.slot (map (λ (g : StepSlot). g.slot) s.slots)
    usable = ground (arith, has_slot_iff l.slot s.slots)

    elsewhere : ((l.to == stepid) ≡ false) ↔ (l.to ≢ stepid)
    elsewhere = ground arith

    iff :
        ((l.to < steps)
          × ((l.slot < slots)
              × (Memᴰ l.slot (map (λ (g : StepSlot). g.slot) s.slots) × (l.to ≢ stepid))))
        ↔ GoodLink slots steps stepid s l
    iff = (
      λ h. record { target = h.0; slot = h.1.0; usable = h.1.1.0; not_loop = h.1.1.1 },
      λ h. (h.target, (h.slot, (h.usable, h.not_loop))),
    )

pub check_ids-Decides :
    (slots steps stepid : ℕ) (s : Step)
    → Decides (check_ids slots steps stepid s) (GoodIds slots steps stepid s)
unfolding check_ids
check_ids-Decides slots steps stepid s = Decides-iff _ iff (
    Decides->> _ _ _ (Decides-each _ _ (check_grant_id-Decides slots stepid) 0 s.slots)
      (λ _. Decides-each _ _ (check_link_id-Decides slots steps stepid s) 0 s.links))
  where
    iff :
        (All (λ (g : StepSlot). g.slot < slots) s.slots
          × All (GoodLink slots steps stepid s) s.links)
        ↔ GoodIds slots steps stepid s
    iff = (λ h. record { grants = h.0; links = h.1 }, λ h. (h.grants, h.links))
