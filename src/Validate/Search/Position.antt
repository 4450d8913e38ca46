-- ===== src/Validate/Search/Position.antt =====
-- `check_all_set` accepts exactly the flags that are all set.
use adaptarr_server.Prelude.{
  ℕ, zero, suc, ◌+◌, ◌<◌, Bool, true, false, none, some, List, [], ◌∷◌, length, get_or, ◌≡◌, refl,
  inl, inr, Decides, Option-cases, arith,
}
use adaptarr_server.Process.{ValidateStructureError}
use adaptarr_server.Validate.Search.{position_unset, check_all_set}

abbrev pub AllSet : List Bool → Type 0
AllSet bs = (v : ℕ) → v < length bs → get_or bs v false ≡ true

position_unset-none : (i : ℕ) (bs : List Bool) → position_unset i bs ≡ none → AllSet bs
unfolding position_unset
position_unset-none i [] e v h = absurd (omega arith)
position_unset-none i (false ∷ bs) e v h = cc
position_unset-none i (true ∷ bs) e zero h = refl
position_unset-none i (true ∷ bs) e (suc v) h = position_unset-none (suc i) bs e v (omega arith)

-- The position is that of the first flag that is not set.
pub position_unset-some :
    (i : ℕ) (bs : List Bool) (j : ℕ)
    → position_unset i bs ≡ some j
    → (k : ℕ) × (j ≡ i + k)
      × (k < length bs)
      × (get_or bs k false ≡ false)
      × ((v : ℕ) → v < k → get_or bs v false ≡ true)
unfolding position_unset
position_unset-some i [] j e = cc
position_unset-some i (false ∷ bs) j e =
    (0, ground arith, omega arith, refl, λ v h. absurd (omega arith))
position_unset-some i (true ∷ bs) j e =
    let (k, at, lt, unset, before) = position_unset-some (suc i) bs j e in
    (suc k, omega arith, omega arith, unset, earlier k before)
  where
    earlier :
        (k : ℕ)
        → ((v : ℕ) → v < k → get_or bs v false ≡ true)
        → (v : ℕ) → v < suc k
        → get_or (true ∷ bs) v false ≡ true
    earlier k f zero h = refl
    earlier k f (suc v) h = f v (omega arith)

pub check_all_set-Decides :
    (error : ℕ → ValidateStructureError) (bs : List Bool)
    → Decides (check_all_set error bs) (AllSet bs)
unfolding check_all_set Decides
check_all_set-Decides error bs = elim (Option-cases (position_unset 0 bs)) [
  | inl e ↦ rw (e, check_all_set) (position_unset-none 0 bs e)
  | inr (j, e) ↦
      let (k, at, lt, unset, before) = position_unset-some 0 bs j e in
      rw (e, check_all_set) (λ all. cc (all k lt, unset))
]
