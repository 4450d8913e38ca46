-- ===== src/Validate/Names.antt =====
-- The loops over names. A `HashMap` from names to positions is an association list.
use adaptarr_server.Prelude.{
  ℕ, suc, String, Bool, true, false, Option, none, some, List, [], ◌∷◌, map, str_eq, eq_iff,
  if◌then◌else◌, ok, err, Result, ◌>>=◌, ◌>>◌, ◌≡◌, ◌≢◌, ◌↔◌, inl, inr, refl, sym, All, Decides,
  Yields, Decides->>, Decides->>=, Decides-iff, arith, Bool-cases, Option-cases,
}
use adaptarr_server.Process.{
  Slot, Link, Step, ValidateStructureError, empty_slot_name, empty_step_name, empty_link_name,
  duplicate_slot_name, duplicate_step_name, duplicate_link_name,
}
use adaptarr_server.Process.WellFormed.{
  Distinct, GoodNames, GoodLinkNames, slot_name, link_name, step_name,
}
use adaptarr_server.Validate.{Check}

abbrev pub Seen : Type 0
Seen = List (String × ℕ)

unfoldable pub is_empty : String → Bool
is_empty String.[] = true
is_empty (String.◌∷◌ c s) = false

unfoldable pub lookup : String → Seen → Option ℕ
lookup k [] = none
lookup k ((n, i) ∷ m) = if str_eq n k then some i else lookup k m

-- The three statements that each loop over names begins with: no empty name, no name seen before,
-- and the insertion of this one.
unfoldable pub fresh_name :
    ValidateStructureError
    → (ℕ → ValidateStructureError)
    → ℕ
    → String
    → Seen
    → Result ValidateStructureError Seen
fresh_name empty duplicate i name seen =
    if is_empty name
    then err empty
    else elim (lookup name seen) [ some j ↦ err (duplicate j) | none ↦ ok ((name, i) ∷ seen) ]

unfoldable pub check_slot_names : ℕ → List Slot → Seen → Check
check_slot_names i [] slots = ok tt
check_slot_names i (s ∷ ss) slots = do
  slots' ← fresh_name (empty_slot_name i) (duplicate_slot_name i) i s.name slots
  check_slot_names (suc i) ss slots'

unfoldable pub check_link_names : ℕ → ℕ → List Link → Seen → Check
check_link_names stepid i [] links = ok tt
check_link_names stepid i (l ∷ ls) links = do
  links' ← fresh_name (empty_link_name stepid i) (duplicate_link_name stepid i) i l.name links
  check_link_names stepid (suc i) ls links'

unfoldable pub check_step_names : ℕ → List Step → Seen → Check
check_step_names i [] steps = ok tt
check_step_names i (s ∷ ss) steps = do
  steps' ← fresh_name (empty_step_name i) (duplicate_step_name i) i s.name steps
  check_link_names i 0 s.links []
  check_step_names (suc i) ss steps'

-- A name that the loop accepts: it is not empty, and the map has no entry for it.
abbrev Fresh : Seen → String → Type 0
Fresh seen n = (n ≢ "") × (lookup n seen ≡ none)

pub is_empty_iff : (n : String) → (is_empty n ≡ true) ↔ (n ≡ "")
unfolding is_empty
is_empty_iff String.[] = (λ _. refl, λ _. refl)
is_empty_iff (String.◌∷◌ c s) = (λ e. cc, λ e. cc)

lookup-insert :
    (k n : String) (i : ℕ) (seen : Seen)
    → (lookup k ((n, i) ∷ seen) ≡ none) ↔ ((k ≢ n) × (lookup k seen ≡ none))
unfolding lookup
lookup-insert k n i seen = ground (arith, eq_iff n k)

fresh_name-Yields :
    (e : ValidateStructureError) (d : ℕ → ValidateStructureError) (i : ℕ) (n : String) (seen : Seen)
    → Yields (fresh_name e d i n seen) (Fresh seen n) (λ out. out ≡ (n, i) ∷ seen)
unfolding fresh_name Yields
fresh_name-Yields e d i n seen = elim (Bool-cases (is_empty n)) [
  | inl empty ↦ rw empty (λ f. f.0 ((is_empty_iff n).0 empty))
  | inr full ↦ elim (Option-cases (lookup n seen)) [
    | inl new ↦ rw (full, new) ((λ q. cc ((is_empty_iff n).1 q), refl), refl)
    | inr (j, old) ↦ rw (full, old) (λ f. cc f.1)
  ]
]

-- What a loop over the names `ns` accepts when the map already holds `seen`.
abbrev GoodAfter : Seen → List String → Type 0
GoodAfter seen ns = All (Fresh seen) ns × Distinct ns

All-Fresh-insert :
    (seen : Seen) (n : String) (i : ℕ) (ns : List String)
    → All (Fresh ((n, i) ∷ seen)) ns ↔ (All (Fresh seen) ns × All (λ m. n ≢ m) ns)
All-Fresh-insert seen n i [] = (λ _. (tt, tt), λ _. tt)
All-Fresh-insert seen n i (m ∷ ns) =
    let ih = All-Fresh-insert seen n i ns in
    let here = lookup-insert m n i seen in
    (
      λ h.
          let (ne, old) = here.0 h.0.1 in
          (((h.0.0, old), (ih.0 h.1).0), (λ e. ne (sym e), (ih.0 h.1).1)),
      λ h. ((h.0.0.0, here.1 (λ e. h.1.0 (sym e), h.0.0.1)), ih.1 (h.0.1, h.1.1)),
    )

GoodAfter-cons :
    (seen : Seen) (n : String) (i : ℕ) (ns : List String)
    → (Fresh seen n × GoodAfter ((n, i) ∷ seen) ns) ↔ GoodAfter seen (n ∷ ns)
GoodAfter-cons seen n i ns =
    let e = All-Fresh-insert seen n i ns in
    (λ h. ((h.0, (e.0 h.1.0).0), ((e.0 h.1.0).1, h.1.1)), λ h. (h.0.0, (e.1 (h.0.1, h.1.0), h.1.1)))

All-Fresh-nil : (ns : List String) → All (Fresh []) ns ↔ All (λ n. n ≢ "") ns
unfolding lookup
All-Fresh-nil [] = (λ _. tt, λ _. tt)
All-Fresh-nil (n ∷ ns) =
    let ih = All-Fresh-nil ns in (λ h. (h.0.0, ih.0 h.1), λ h. ((h.0, refl), ih.1 h.1))

GoodAfter-nil : (ns : List String) → GoodAfter [] ns ↔ GoodNames ns
GoodAfter-nil ns = let e = All-Fresh-nil ns in (λ h. (e.0 h.0, h.1), λ h. (e.1 h.0, h.1))

check_slot_names-after :
    (i : ℕ) (ss : List Slot) (seen : Seen)
    → Decides (check_slot_names i ss seen) (GoodAfter seen (map slot_name ss))
unfolding check_slot_names Decides
check_slot_names-after i [] seen = (tt, tt)
check_slot_names-after i (s ∷ ss) seen = Decides-iff _ (GoodAfter-cons seen s.name i _) (
    Decides->>= _ _ _ _ (fresh_name-Yields _ _ i s.name seen)
      (λ out _ e. rw e (check_slot_names-after (suc i) ss ((s.name, i) ∷ seen))))

pub check_slot_names-Decides :
    (ss : List Slot) → Decides (check_slot_names 0 ss []) (GoodNames (map slot_name ss))
check_slot_names-Decides ss = Decides-iff _ (GoodAfter-nil _) (check_slot_names-after 0 ss [])

check_link_names-after :
    (stepid i : ℕ) (ls : List Link) (seen : Seen)
    → Decides (check_link_names stepid i ls seen) (GoodAfter seen (map link_name ls))
unfolding check_link_names Decides
check_link_names-after stepid i [] seen = (tt, tt)
check_link_names-after stepid i (l ∷ ls) seen = Decides-iff _ (GoodAfter-cons seen l.name i _) (
    Decides->>= _ _ _ _ (fresh_name-Yields _ _ i l.name seen)
      (λ out _ e. rw e (check_link_names-after stepid (suc i) ls ((l.name, i) ∷ seen))))

GoodAfter-cons_and :
    {P Q : Type 0} (seen : Seen) (n : String) (i : ℕ) (ns : List String)
    → (Fresh seen n × (P × (GoodAfter ((n, i) ∷ seen) ns × Q)))
      ↔ (GoodAfter seen (n ∷ ns) × (P × Q))
GoodAfter-cons_and seen n i ns =
    let e = GoodAfter-cons seen n i ns in
    (λ h. (e.0 (h.0, h.1.1.0), (h.1.0, h.1.1.1)), λ h. ((e.1 h.0).0, (h.1.0, ((e.1 h.0).1, h.1.1))))

GoodAfter-nil_and : {P : Type 0} (ns : List String) → (GoodAfter [] ns × P) ↔ (GoodNames ns × P)
GoodAfter-nil_and ns = let e = GoodAfter-nil ns in (λ h. (e.0 h.0, h.1), λ h. (e.1 h.0, h.1))

check_step_names-after :
    (i : ℕ) (ss : List Step) (seen : Seen)
    → Decides
        (check_step_names i ss seen)
        (GoodAfter seen (map step_name ss) × All GoodLinkNames ss)
unfolding check_step_names Decides
check_step_names-after i [] seen = ((tt, tt), tt)
check_step_names-after i (s ∷ ss) seen =
    let Rest = GoodAfter ((s.name, i) ∷ seen) (map step_name ss) × All GoodLinkNames ss in
    Decides-iff _ (GoodAfter-cons_and seen s.name i (map step_name ss)) (
      Decides->>= _ (GoodLinkNames s × Rest) _ _ (fresh_name-Yields _ _ i s.name seen) (λ out _ o.
        Decides->> Rest _ (check_step_names (suc i) ss out)
          (Decides-iff _ (GoodAfter-nil _) (check_link_names-after i 0 s.links []))
          (λ _. rw o (check_step_names-after (suc i) ss ((s.name, i) ∷ seen)))))

pub check_step_names-Decides :
    (ss : List Step)
    → Decides (check_step_names 0 ss []) (GoodNames (map step_name ss) × All GoodLinkNames ss)
check_step_names-Decides ss =
    Decides-iff _ (GoodAfter-nil_and (map step_name ss)) (check_step_names-after 0 ss [])
