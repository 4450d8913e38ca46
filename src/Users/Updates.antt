-- ===== src/Users/Updates.antt =====
-- What an update of one row leaves in a table.
use adaptarr_server.Prelude.{
  ℕ, ◌≡◌, ◌↔◌, ◌⊎◌, inl, inr, Bool, true, false, Bool-cases, Option-cases, ok, refl, sym, ap, ◌∙◌,
  subst, if_true, if_false,
}
use adaptarr_server.Storage.{Table}
use adaptarr_server.Storage.Joins.{find-some}
use adaptarr_server.Users.{update_one}

module _ {Row : Type 0} {key : Row → ℕ} (table : Table Row key) (p : Row → Bool) (f : Row → Row)
    (rows : table.Content) (r : Row) where
  open table use {Contains, find, update, update_iff}

  pub update-only :
      Contains rows r
      → p r ≡ true
      → ((x : Row) → Contains rows x → p x ≡ true → x ≡ r)
      → (x : Row) → Contains (update p f rows) x ↔ ((x ≡ f r) ⊎ (Contains rows x × (p x ≡ false)))
  update-only here hit only x = (
    λ m.
        let (y, old, e) = (update_iff p f rows x).0 m in
        elim (Bool-cases (p y)) [
          | inl same ↦ inl (e ∙ if_true _ same ∙ ap f (only y old same))
          | inr miss ↦
              let alike : x ≡ y = e ∙ if_false _ miss in
              inr (subst (Contains rows) (sym alike) old, ap p alike ∙ miss)
        ],
    λ h. (update_iff p f rows x).1 (elim h [
      | inl e ↦ (r, here, e ∙ sym (if_true _ hit))
      | inr (old, miss) ↦ (x, old, sym (if_false _ miss))
    ]),
  )

  pub update_one-ok :
      Contains rows r
      → p r ≡ true
      → p (f r) ≡ true
      → ((x : Row) → Contains rows x → p x ≡ true → x ≡ r)
      → update_one table p f rows ≡ ok (f r, update p f rows)
  unfolding update_one
  update_one-ok here hit still only =
      let there = (update-only here hit only (f r)).1 (inl refl) in
      let (x, e, m, test) = find-some table p (update p f rows) (f r) there still in
      let same : x ≡ f r = elim ((update-only here hit only x).0 m) [
        | inl alike ↦ alike
        | inr (old, miss) ↦ absurd (cc (test, miss))
      ] in
      cc (e, same)

pub update_one-eq-ok :
    {Row : Type 0} {key : Row → ℕ} (table : Table Row key) (p : Row → Bool) (f : Row → Row)
    (rows : table.Content) (x : Row) (c : table.Content)
    → update_one table p f rows ≡ ok (x, c)
    → c ≡ table.update p f rows
unfolding update_one
update_one-eq-ok table p f rows x c e = elim (Option-cases (table.find p (table.update p f rows))) [
  | inl gone ↦ cc (rw (gone, update_one) at e)
  | inr (y, found) ↦ cc (rw (found, update_one) at e)
]
