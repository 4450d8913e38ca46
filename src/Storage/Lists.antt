-- ===== src/Storage/Lists.antt =====
-- Tables as lists of rows, an instance of `Table`.
use adaptarr_server.Prelude.{
  ℕ, suc, ◌+◌, ◌≤◌, ◌<◌, ◌≡◌, ◌↔◌, inl, inr, Bool, true, false, Bool-cases, Option, none, some,
  List, [], ◌∷◌, All, if◌then◌else◌, leb, refl, sym, subst, arith,
}
use adaptarr_server.Storage.{In, Ascending, Table}

module _ {Row : Type 0} where
  unfoldable pub find : (Row → Bool) → List Row → Option Row
  find p [] = none
  find p (r ∷ rs) = let later = find p rs in if p r then some r else later

  unfoldable pub update : (Row → Bool) → (Row → Row) → List Row → List Row
  update p f [] = []
  update p f (r ∷ rs) = (if p r then f r else r) ∷ update p f rs

  -- Rows that satisfy a test; `delete` keeps the others.
  unfoldable pub keep : (Row → Bool) → List Row → List Row
  keep p [] = []
  keep p (r ∷ rs) = let later = keep p rs in if p r then r ∷ later else later

  unfoldable pub drop_where : (Row → Bool) → List Row → List Row
  drop_where p [] = []
  drop_where p (r ∷ rs) = let later = drop_where p rs in if p r then later else r ∷ later

  unfoldable pub place : (Row → ℕ) → Row → List Row → List Row
  place by x [] = x ∷ []
  place by x (r ∷ rs) =
      let later = place by x rs in if leb (by x) (by r) then x ∷ r ∷ rs else r ∷ later

  unfoldable pub sort : (Row → ℕ) → List Row → List Row
  sort by [] = []
  sort by (r ∷ rs) = place by r (sort by rs)

  unfoldable pub above_all : (Row → ℕ) → List Row → ℕ
  above_all key [] = 1
  above_all key (r ∷ rs) = suc (key r) + above_all key rs

  pub find_some :
      (p : Row → Bool) (rs : List Row) (r : Row) → find p rs ≡ some r → In r rs × (p r ≡ true)
  unfolding find
  find_some p [] r e = cc
  find_some p (x ∷ rs) r e = elim (Bool-cases (p x)) [
    | inl hit ↦
        let same : x ≡ r = cc (rw hit at e) in (inl (sym same), subst (λ y. p y ≡ true) same hit)
    | inr miss ↦ let (m, t) = find_some p rs r (rw miss at e) in (inr m, t)
  ]

  pub find_none :
      (p : Row → Bool) (rs : List Row) (r : Row) → find p rs ≡ none → In r rs → p r ≡ false
  unfolding find
  find_none p [] r e m = absurd m
  find_none p (x ∷ rs) r e m = elim (Bool-cases (p x)) [
    | inl hit ↦ absurd (cc (rw hit at e))
    | inr miss ↦ elim m [
      | inl same ↦ subst (λ y. p y ≡ false) (sym same) miss
      | inr later ↦ find_none p rs r (rw miss at e) later
    ]
  ]

  pub keep_iff :
      (p : Row → Bool) (rs : List Row) (r : Row) → In r (keep p rs) ↔ (In r rs × (p r ≡ true))
  unfolding keep
  keep_iff p [] r = (λ m. absurd m, λ h. h.0)
  keep_iff p (x ∷ rs) r = elim (Bool-cases (p x)) [
    | inl hit ↦ rw hit (ground (arith, keep_iff p rs r, hit))
    | inr miss ↦ rw miss (ground (arith, keep_iff p rs r, miss))
  ]

  pub drop_where_iff :
      (p : Row → Bool) (rs : List Row) (r : Row)
      → In r (drop_where p rs) ↔ (In r rs × (p r ≡ false))
  unfolding drop_where
  drop_where_iff p [] r = (λ m. absurd m, λ h. h.0)
  drop_where_iff p (x ∷ rs) r = elim (Bool-cases (p x)) [
    | inl hit ↦ rw hit (ground (arith, drop_where_iff p rs r, hit))
    | inr miss ↦ rw miss (ground (arith, drop_where_iff p rs r, miss))
  ]

  pub update_iff :
      (p : Row → Bool) (f : Row → Row) (rs : List Row) (r : Row)
      → In r (update p f rs) ↔ ((s : Row) × In s rs × (r ≡ (if p s then f s else s)))
  unfolding update
  update_iff p f [] r = (λ m. absurd m, λ h. h.1)
  update_iff p f (x ∷ rs) r = (
    λ m. elim m [
      | inl e ↦ (x, inl refl, e)
      | inr later ↦ let (s, h, e) = (update_iff p f rs r).0 later in (s, inr h, e)
    ],
    λ h. elim h.1 [
      | inl same ↦ inl (subst (λ y. r ≡ (if p y then f y else y)) same h.2)
      | inr later ↦ inr ((update_iff p f rs r).1 (h.0, later, h.2))
    ],
  )

  place_iff :
      (by : Row → ℕ) (x : Row) (rs : List Row) (r : Row) → In r (place by x rs) ↔ In r (x ∷ rs)
  unfolding place
  place_iff by x [] r = (λ m. m, λ m. m)
  place_iff by x (y ∷ rs) r = elim (Bool-cases (leb (by x) (by y))) [
    | inl le ↦ rw le (λ m. m, λ m. m)
    | inr gt ↦ rw gt (ground (arith, place_iff by x rs r))
  ]

  sort_iff : (by : Row → ℕ) (rs : List Row) (r : Row) → In r (sort by rs) ↔ In r rs
  unfolding sort
  sort_iff by [] r = (λ m. m, λ m. m)
  sort_iff by (x ∷ rs) r = ground (arith, place_iff by x (sort by rs) r, sort_iff by rs r)

  pub All-In : (P : Row → Type 0) (rs : List Row) → ((r : Row) → In r rs → P r) → All P rs
  All-In P [] h = tt
  All-In P (r ∷ rs) h = (h r (inl refl), All-In P rs (λ s m. h s (inr m)))

  pub In-All : (P : Row → Type 0) (rs : List Row) (r : Row) → All P rs → In r rs → P r
  In-All P [] r h m = absurd m
  In-All P (x ∷ rs) r h m = elim m [
    | inl same ↦ subst P (sym same) h.0
    | inr later ↦ In-All P rs r h.1 later
  ]

  place-Ascending :
      (by : Row → ℕ) (x : Row) (rs : List Row) → Ascending by rs → Ascending by (place by x rs)
  unfolding place
  place-Ascending by x [] h = (tt, tt)
  place-Ascending by x (y ∷ rs) h = elim (Bool-cases (leb (by x) (by y))) [
    | inl le ↦
        let first : by x ≤ by y = ground (arith, le) in
        rw le (
          (
            first,
            All-In (λ s. by x ≤ by s) rs
                (λ s m. omega (arith, first, In-All (λ s. by y ≤ by s) rs s h.0 m)),
          ),
          h,
        )
    | inr gt ↦
        let first : by y ≤ by x = ground (arith, gt) in
        rw gt (
          All-In (λ s. by y ≤ by s) (place by x rs)
              (λ s m. elim ((place_iff by x rs s).0 m) [
                | inl same ↦ subst (λ z. by y ≤ by z) (sym same) first
                | inr later ↦ In-All (λ s. by y ≤ by s) rs s h.0 later
              ]),
          place-Ascending by x rs h.1,
        )
  ]

  pub sort-Ascending : (by : Row → ℕ) (rs : List Row) → Ascending by (sort by rs)
  unfolding sort
  sort-Ascending by [] = tt
  sort-Ascending by (r ∷ rs) = place-Ascending by r (sort by rs) (sort-Ascending by rs)

  pub above_all_lem : (key : Row → ℕ) (rs : List Row) (r : Row) → In r rs → key r < above_all key rs
  unfolding above_all
  above_all_lem key [] r m = absurd m
  above_all_lem key (x ∷ rs) r m = elim m [
    | inl same ↦ subst (λ y. key y < suc (key x) + above_all key rs) (sym same) (omega arith)
    | inr later ↦ omega (arith, above_all_lem key rs r later)
  ]

  pub select_iff :
      (p : Row → Bool) (by : Row → ℕ) (rs : List Row) (r : Row)
      → In r (sort by (keep p rs)) ↔ (In r rs × (p r ≡ true))
  select_iff p by rs r = ground (arith, sort_iff by (keep p rs) r, keep_iff p rs r)

abbrev pub list_table : (Row : Type 0) (key : Row → ℕ) → Table Row key
list_table Row key = record {
  Content = List Row;
  Contains = λ c r. In r c;
  find = find;
  select = λ p by c. sort by (keep p c);
  update = update;
  delete = drop_where;
  insert = λ x c. x ∷ c;
  fresh = above_all key;
  find_some = find_some;
  find_none = find_none;
  select_iff = select_iff;
  select_ascending = λ p by c. sort-Ascending by (keep p c);
  update_iff = update_iff;
  delete_iff = drop_where_iff;
  insert_iff = λ x c r. (λ m. m, λ m. m);
  fresh_lem = λ c r m e. omega (arith, above_all_lem key c r m);
}
