-- ===== src/Storage/Joins.antt =====
-- What joined queries do with the rows: order them, and put a row or change the one there is.
use adaptarr_server.Prelude.{
  ◌≡◌, Bool, true, Option, none, some, List, [], ◌∷◌, ℕ, All, if◌then◌else◌, Bool-cases,
  Option-cases, inl, inr,
}
use adaptarr_server.Storage.{Table}

module _ {Row : Type 0} where
  unfoldable pub place : (Row → Row → Bool) → Row → List Row → List Row
  place before x [] = x ∷ []
  place before x (r ∷ rs) =
      let later = place before x rs in if before x r then x ∷ r ∷ rs else r ∷ later

  -- `order_by` on joined rows.
  unfoldable pub order_by : (Row → Row → Bool) → List Row → List Row
  order_by before [] = []
  order_by before (r ∷ rs) = place before r (order_by before rs)

  abbrev pub somes : List Row → List (Option Row)
  somes [] = []
  somes (x ∷ xs) = some x ∷ somes xs

  -- A left join gives a row without a match once.
  unfoldable pub or_none : List Row → List (Option Row)
  or_none [] = none ∷ []
  or_none (r ∷ rs) = somes (r ∷ rs)

  unfoldable pub keep : (Row → Bool) → List Row → List Row
  keep p [] = []
  keep p (r ∷ rs) = let later = keep p rs in if p r then r ∷ later else later

  -- `group_by` of the crate `itertools`: runs of items with one key, a first item and the others.
  unfoldable pub join_run : (Row → Row → Bool) → Row → List (Row × List Row) → List (Row × List Row)
  join_run same x [] = (x, []) ∷ []
  join_run same x ((y, run) ∷ runs) =
      if same x y then (x, y ∷ run) ∷ runs else (x, []) ∷ (y, run) ∷ runs

  unfoldable pub group_by : (Row → Row → Bool) → List Row → List (Row × List Row)
  group_by same [] = []
  group_by same (r ∷ rs) = join_run same r (group_by same rs)

  place-All :
      (P : Row → Type 0) (before : Row → Row → Bool) (x : Row) (rs : List Row)
      → P x
      → All P rs
      → All P (place before x rs)
  unfolding place
  place-All P before x [] h k = (h, tt)
  place-All P before x (r ∷ rs) h k = elim (Bool-cases (before x r)) [
    | inl first ↦ rw first (h, k)
    | inr later ↦ rw later (k.0, place-All P before x rs h k.1)
  ]

  pub order_by-All :
      (P : Row → Type 0) (before : Row → Row → Bool) (rs : List Row)
      → All P rs
      → All P (order_by before rs)
  unfolding order_by
  order_by-All P before [] h = tt
  order_by-All P before (r ∷ rs) h =
      place-All P before r (order_by before rs) h.0 (order_by-All P before rs h.1)

  abbrev pub AllIn : (Row → Type 0) → Row × List Row → Type 0
  AllIn P run = P run.0 × All P run.1

  join_run-All :
      (P : Row → Type 0) (same : Row → Row → Bool) (x : Row) (runs : List (Row × List Row))
      → P x
      → All (AllIn P) runs
      → All (AllIn P) (join_run same x runs)
  unfolding join_run
  join_run-All P same x [] h k = ((h, tt), tt)
  join_run-All P same x ((y, run) ∷ runs) h k = elim (Bool-cases (same x y)) [
    | inl joined ↦ rw joined ((h, k.0), k.1)
    | inr apart ↦ rw apart ((h, tt), k)
  ]

  pub group_by-All :
      (P : Row → Type 0) (same : Row → Row → Bool) (rs : List Row)
      → All P rs
      → All (AllIn P) (group_by same rs)
  unfolding group_by
  group_by-All P same [] h = tt
  group_by-All P same (r ∷ rs) h =
      join_run-All P same r (group_by same rs) h.0 (group_by-All P same rs h.1)

  pub keep-All :
      (P : Row → Type 0) (p : Row → Bool) (rs : List Row)
      → ((r : Row) → p r ≡ true → P r)
      → All P (keep p rs)
  unfolding keep
  keep-All P p [] h = tt
  keep-All P p (r ∷ rs) h = elim (Bool-cases (p r)) [
    | inl kept ↦ rw kept (h r kept, keep-All P p rs h)
    | inr gone ↦ rw gone (keep-All P p rs h)
  ]

-- `insert_into … .on_conflict(key).do_update()`: the test says which row conflicts.
unfoldable pub upsert :
    {Row : Type 0} {key : Row → ℕ} (table : Table Row key)
    → (Row → Bool)
    → (Row → Row)
    → Row
    → table.Content
    → table.Content
upsert table conflicts change x c = elim (table.find conflicts c) [
  | some r ↦ table.update conflicts change c
  | none ↦ table.insert x c
]

-- A row that passes the test is there, so one is found.
pub find-some :
    {Row : Type 0} {key : Row → ℕ} (table : Table Row key) (p : Row → Bool) (c : table.Content)
    (r : Row)
    → table.Contains c r
    → p r ≡ true
    → (x : Row) × (table.find p c ≡ some x) × table.Contains c x × (p x ≡ true)
find-some table p c r here hit = elim (Option-cases (table.find p c)) [
  | inl gone ↦ absurd (cc (table.find_none p c r gone here, hit))
  | inr (x, e) ↦ let (there, test) = table.find_some p c x e in (x, e, there, test)
]

-- No row passes the test, so none is found.
pub find-none :
    {Row : Type 0} {key : Row → ℕ} (table : Table Row key) (p : Row → Bool) (c : table.Content)
    → ((r : Row) → table.Contains c r → p r ≡ true → ⊥)
    → table.find p c ≡ none
find-none table p c h = elim (Option-cases (table.find p c)) [
  | inl gone ↦ gone
  | inr (x, e) ↦ let (there, test) = table.find_some p c x e in absurd (h x there test)
]
