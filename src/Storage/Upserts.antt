-- ===== src/Storage/Upserts.antt =====
-- What a row that is put or changed comes to.
use adaptarr_server.Prelude.{
  ℕ, ◌≡◌, ◌↔◌, ◌⊎◌, inl, inr, Bool, true, false, Bool-cases, none, some, Option-cases, refl, sym,
  subst, ◌∙◌, if_true, if_false,
}
use adaptarr_server.Storage.{Table}
use adaptarr_server.Storage.Joins.{upsert}

module _ {Row : Type 0} {key : Row → ℕ} (table : Table Row key) (conflicts : Row → Bool)
    (change : Row → Row) (x : Row) where
  open table use {
    Content, Contains, find, find_some, find_none, update, update_iff, insert, insert_iff,
  }

  module _ (c : Content) where
    old :
        (r : Row)
        → find conflicts c ≡ some r
        → upsert table conflicts change x c ≡ update conflicts change c
    unfolding upsert
    old r e = rw (e, upsert)

    new : find conflicts c ≡ none → upsert table conflicts change x c ≡ insert x c
    unfolding upsert
    new e = rw (e, upsert)

    -- A row that is updated and passes the test was changed.
    changed_row :
        (r : Row)
        → Contains (update conflicts change c) r
        → conflicts r ≡ true
        → (s : Row) × Contains c s × (conflicts s ≡ true) × (r ≡ change s)
    changed_row r m hit =
        let (s, there, e) = (update_iff conflicts change c r).0 m in
        elim (Bool-cases (conflicts s)) [
          | inl h ↦ (s, there, h, e ∙ if_true _ h)
          | inr h ↦ absurd (cc (e ∙ if_false _ h, h, hit))
        ]

    -- Every row that passes the test is the new one, or an old one that was changed.
    pub upsert-from :
        (r : Row)
        → Contains (upsert table conflicts change x c) r
        → conflicts r ≡ true
        → (r ≡ x) ⊎ ((s : Row) × Contains c s × (conflicts s ≡ true) × (r ≡ change s))
    upsert-from r m hit = elim (Option-cases (find conflicts c)) [
      | inl none_there ↦
          elim ((insert_iff x c r).0 (subst (λ d. Contains d r) (new none_there) m)) [
            | inl same ↦ inl same
            | inr here ↦ absurd (cc (find_none conflicts c r none_there here, hit))
          ]
      | inr (s, e) ↦ inr (changed_row r (subst (λ d. Contains d r) (old s e) m) hit)
    ]

    pub upsert-eq :
        (r : Row)
        → Contains (upsert table conflicts change x c) r
        → conflicts r ≡ true
        → (r ≡ x) ⊎ ((s : Row) × (r ≡ change s))
    upsert-eq r m hit = elim (upsert-from r m hit) [
      | inl same ↦ inl same
      | inr (s, there, test, e) ↦ inr (s, e)
    ]

    module _ (x_hits : conflicts x ≡ true)
        (change_hits : (r : Row) → conflicts r ≡ true → conflicts (change r) ≡ true) where
      -- A row that passes the test is there.
      pub upsert-some :
          (r : Row) × Contains (upsert table conflicts change x c) r × (conflicts r ≡ true)
      upsert-some = elim (Option-cases (find conflicts c)) [
        | inl none_there ↦ (
          x,
          subst (λ d. Contains d x) (sym (new none_there)) ((insert_iff x c x).1 (inl refl)),
          x_hits,
        )
        | inr (s, e) ↦
            let (here, hit) = find_some conflicts c s e in
            (
              change s,
              subst (λ d. Contains d (change s)) (sym (old s e))
                  ((update_iff conflicts change c (change s)).1 (s, here, sym (if_true _ hit))),
              change_hits s hit,
            )
      ]

      -- The other rows stay.
      pub upsert_iff :
          (r : Row)
          → conflicts r ≡ false
          → Contains (upsert table conflicts change x c) r ↔ Contains c r
      upsert_iff r miss = elim (Option-cases (find conflicts c)) [
        | inl none_there ↦ (
          λ m. elim ((insert_iff x c r).0 (subst (λ d. Contains d r) (new none_there) m)) [
            | inl same ↦ absurd (cc (same, x_hits, miss))
            | inr here ↦ here
          ],
          λ m. subst (λ d. Contains d r) (sym (new none_there)) ((insert_iff x c r).1 (inr m)),
        )
        | inr (s, e) ↦ (
          λ m.
              let (t, there, f) =
                (update_iff conflicts change c r).0 (subst (λ d. Contains d r) (old s e) m) in
              elim (Bool-cases (conflicts t)) [
                | inl h ↦ absurd (cc (f ∙ if_true _ h, change_hits t h, miss))
                | inr h ↦ subst (λ y. Contains c y) (sym (f ∙ if_false _ h)) there
              ],
          λ m.
              subst (λ d. Contains d r) (sym (old s e))
                ((update_iff conflicts change c r).1 (r, m, sym (if_false _ miss))),
        )
      ]
