-- ===== src/Storage/Groups.antt =====
-- Nothing is lost when joined rows are ordered and grouped.
use adaptarr_server.Prelude.{◌≡◌, ◌↔◌, ◌⊎◌, inl, inr, Bool, true, Bool-cases, List, [], ◌∷◌, All}
use adaptarr_server.Storage.{In}
use adaptarr_server.Storage.Joins.{place, order_by, join_run, group_by}

module _ {Row : Type 0} where
  place-In :
      (before : Row → Row → Bool) (x r : Row) (rs : List Row)
      → In r (place before x rs) ↔ ((r ≡ x) ⊎ In r rs)
  unfolding place
  place-In before x r [] = (λ m. m, λ m. m)
  place-In before x r (y ∷ ys) = elim (Bool-cases (before x y)) [
    | inl first ↦ rw first (λ m. m, λ m. m)
    | inr later ↦
        let rest = place-In before x r ys in
        rw later (
          λ m. elim m [
            | inl e ↦ inr (inl e)
            | inr n ↦ elim (rest.0 n) [ inl e ↦ inl e | inr k ↦ inr (inr k) ]
          ],
          λ m. elim m [
            | inl e ↦ inr (rest.1 (inl e))
            | inr n ↦ elim n [ inl e ↦ inl e | inr k ↦ inr (rest.1 (inr k)) ]
          ],
        )
  ]

  -- The ordered rows are the rows.
  pub order_by-In :
      (before : Row → Row → Bool) (r : Row) (rs : List Row) → In r (order_by before rs) ↔ In r rs
  unfolding order_by
  order_by-In before r [] = (λ m. m, λ m. m)
  order_by-In before r (x ∷ xs) =
      let here = place-In before x r (order_by before xs) in
      let rest = order_by-In before r xs in
      (
        λ m. elim (here.0 m) [ inl e ↦ inl e | inr n ↦ inr (rest.0 n) ],
        λ m. elim m [ inl e ↦ here.1 (inl e) | inr n ↦ here.1 (inr (rest.1 n)) ],
      )

  -- A run, whole.
  abbrev pub whole : Row × List Row → List Row
  whole (x, xs) = x ∷ xs

  abbrev pub RunsWith : Row → List (Row × List Row) → Type 0
  RunsWith r [] = ⊥
  RunsWith r (run ∷ runs) = In r (whole run) ⊎ RunsWith r runs

  join_run-In :
      (same : Row → Row → Bool) (x r : Row) (runs : List (Row × List Row))
      → ((r ≡ x) ⊎ RunsWith r runs)
      → RunsWith r (join_run same x runs)
  unfolding join_run
  join_run-In same x r [] (inl e) = inl (inl e)
  join_run-In same x r [] (inr m) = absurd m
  join_run-In same x r ((y, run) ∷ runs) m = elim (Bool-cases (same x y)) [
    | inl joined ↦
        rw joined
          (elim m [ inl e ↦ inl (inl e) | inr n ↦ elim n [ inl k ↦ inl (inr k) | inr k ↦ inr k ] ])
    | inr apart ↦ rw apart (elim m [ inl e ↦ inl (inl e) | inr n ↦ inr n ])
  ]

  -- Every row is in a run.
  pub group_by-In :
      (same : Row → Row → Bool) (r : Row) (rs : List Row) → In r rs → RunsWith r (group_by same rs)
  unfolding group_by
  group_by-In same r [] m = absurd m
  group_by-In same r (x ∷ xs) (inl e) = join_run-In same x r (group_by same xs) (inl e)
  group_by-In same r (x ∷ xs) (inr m) =
      join_run-In same x r (group_by same xs) (inr (group_by-In same r xs m))

  -- The rows of a run have what two rows that are the same share.
  abbrev pub Uniform : (Row → Row → Type 0) → Row × List Row → Type 0
  Uniform P (x, xs) = All (λ y. P x y) xs

  every :
      (P : Row → Row → Type 0) (x y : Row) (run : List Row)
      → P x y
      → ((a b c : Row) → P a b → P b c → P a c)
      → All (λ z. P y z) run
      → All (λ z. P x z) run
  every P x y [] first trans h = tt
  every P x y (z ∷ zs) first trans h = (trans x y z first h.0, every P x y zs first trans h.1)

  join_run-Uniform :
      (P : Row → Row → Type 0) (same : Row → Row → Bool) (x : Row) (runs : List (Row × List Row))
      → ((a b : Row) → same a b ≡ true → P a b)
      → ((a b c : Row) → P a b → P b c → P a c)
      → All (Uniform P) runs
      → All (Uniform P) (join_run same x runs)
  unfolding join_run
  join_run-Uniform P same x [] holds trans h = (tt, tt)
  join_run-Uniform P same x ((y, run) ∷ runs) holds trans h = elim (Bool-cases (same x y)) [
    | inl joined ↦
        let first = holds x y joined in rw joined ((first, every P x y run first trans h.0), h.1)
    | inr apart ↦ rw apart (tt, h)
  ]

  pub group_by-Uniform :
      (P : Row → Row → Type 0) (same : Row → Row → Bool) (rs : List Row)
      → ((a b : Row) → same a b ≡ true → P a b)
      → ((a b c : Row) → P a b → P b c → P a c)
      → All (Uniform P) (group_by same rs)
  unfolding group_by
  group_by-Uniform P same [] holds trans = tt
  group_by-Uniform P same (r ∷ rs) holds trans =
      join_run-Uniform P same r (group_by same rs) holds trans
        (group_by-Uniform P same rs holds trans)
