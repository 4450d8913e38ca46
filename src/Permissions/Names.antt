-- ===== src/Permissions/Names.antt =====
-- The flags of a team's permissions, their names, and the check that a set has them.
use adaptarr_server.Prelude.{
  ℕ, ◌<◌, ◌≡◌, ◌⊎◌, ◌==◌, not, ◌&&◌, Bool-cases, Option, none, some, String, str_eq, eq_iff,
  if◌then◌else◌, Result, ok, err, All, List, [], ◌∷◌, subst, refl, inl, inr,
}
use adaptarr_server.Permissions.{has, Includes, Bitflags}

abbrev pub add_member : ℕ
add_member = 0x0000_0001

abbrev pub remove_member : ℕ
remove_member = 0x0000_0002

abbrev pub edit_member_permissions : ℕ
edit_member_permissions = 0x0000_0004

abbrev pub assign_role : ℕ
assign_role = 0x0000_0008

abbrev pub edit_book : ℕ
edit_book = 0x0000_0010

abbrev pub edit_module : ℕ
edit_module = 0x0000_0020

abbrev pub edit_role : ℕ
edit_role = 0x0000_0100

abbrev pub edit_process : ℕ
edit_process = 0x0001_0000

abbrev pub manage_process : ℕ
manage_process = 0x0002_0000

abbrev pub manage_resources : ℕ
manage_resources = 0x0010_0000

abbrev pub all_bits : ℕ
all_bits = 0x001f_ff0f

abbrev pub manage_members_bits : ℕ
manage_members_bits = 0x0000_000f

abbrev pub manage_content_bits : ℕ
manage_content_bits = 0x0000_00b0

abbrev pub manage_roles_bits : ℕ
manage_roles_bits = 0x0000_0f00

abbrev pub manage_process_bits : ℕ
manage_process_bits = 0x000f_0000

-- `Self::all()`: the union of all the constants.
abbrev pub all_flags : ℕ
all_flags = 0x001f_ffbf

unfoldable pub from_str : String → Option ℕ
from_str s =
    if str_eq s "member:add"
    then some add_member
    else if str_eq s "member:remove"
    then some remove_member
    else if str_eq s "member:edit-permissions"
    then some edit_member_permissions
    else if str_eq s "member:assign-role"
    then some assign_role
    else if str_eq s "role:edit"
    then some edit_role
    else if str_eq s "book:edit"
    then some edit_book
    else if str_eq s "module:edit"
    then some edit_module
    else if str_eq s "editing-process:edit"
    then some edit_process
    else if str_eq s "editing-process:manage"
    then some manage_process
    else if str_eq s "resources:manage"
    then some manage_resources
    else none

-- The flags and names of `serialize`, in its order.
abbrev pub named : List (ℕ × String)
named =
    (add_member, "member:add")
    ∷ (remove_member, "member:remove")
    ∷ (edit_member_permissions, "member:edit-permissions")
    ∷ (assign_role, "member:assign-role")
    ∷ (edit_book, "book:edit")
    ∷ (edit_module, "module:edit")
    ∷ (edit_role, "role:edit")
    ∷ (edit_process, "editing-process:edit")
    ∷ (manage_process, "editing-process:manage")
    ∷ (manage_resources, "resources:manage")
    ∷ []

module _ (P : ℕ → String → Type 0) (s : String) (p : ℕ) where
  from_str_if :
      {rest : Option ℕ} (name : String) (q : ℕ)
      → P q name
      → (rest ≡ some p → P p s)
      → (if str_eq s name then some q else rest) ≡ some p
      → P p s
  from_str_if name q h later e = elim (Bool-cases (str_eq s name)) [
    | inl same ↦
        let same_flag : q ≡ p = cc (rw same at e) in
        let same_name : name ≡ s = cc ((eq_iff s name).0 same) in
        subst (λ x. P p x) same_name (subst (λ x. P x name) same_flag h)
    | inr differs ↦ later (rw differs at e)
  ]

  -- What holds of each flag and its name holds of what `from_str` finds.
  pub from_str-All :
      All (λ (entry : ℕ × String). P entry.0 entry.1) named → from_str s ≡ some p → P p s
  unfolding from_str
  from_str-All (h0, (h1, (h2, (h3, (h4, (h5, (h6, (h7, (h8, (h9, _)))))))))) =
      from_str_if "member:add" add_member h0 (
        from_str_if "member:remove" remove_member h1 (
          from_str_if "member:edit-permissions" edit_member_permissions h2 (
            from_str_if "member:assign-role" assign_role h3 (
              from_str_if "role:edit" edit_role h6 (
                from_str_if "book:edit" edit_book h4 (
                  from_str_if "module:edit" edit_module h5 (
                    from_str_if "editing-process:edit" edit_process h7 (
                      from_str_if "editing-process:manage" manage_process h8
                        (from_str_if "resources:manage" manage_resources h9 (λ e. cc))))))))))

module _ (flags : Bitflags) where
  open flags use {contains, difference, contains_iff, difference_bit}

  unfoldable pub as_str : ℕ → String
  as_str p =
      if p == add_member
      then "member:add"
      else if p == remove_member
      then "member:remove"
      else if p == edit_member_permissions
      then "member:edit-permissions"
      else if p == assign_role
      then "member:assign-role"
      else if p == edit_role
      then "role:edit"
      else if p == edit_book
      then "book:edit"
      else if p == edit_module
      then "module:edit"
      else if p == edit_process
      then "editing-process:edit"
      else if p == manage_process
      then "editing-process:manage"
      else if p == manage_resources
      then "resources:manage"
      else if contains manage_members_bits p
      then "member"
      else if contains manage_roles_bits p
      then "role"
      else if contains manage_process_bits p
      then "editing-process"
      else if contains manage_resources p
      then "resources"
      else "*"

  -- `RequirePermissionsError` holds the permissions that are missing.
  unfoldable pub require : ℕ → ℕ → Result ℕ (Unit {0})
  require s permissions = if contains s permissions then ok tt else err (difference permissions s)

  -- The name that `from_str` knows is the name that `as_str` gives to the permission.
  pub as_str-from_str : (s : String) (p : ℕ) → from_str s ≡ some p → as_str p ≡ s
  unfolding from_str as_str
  as_str-from_str s p e =
      from_str-All (λ q name. as_str q ≡ name) s p
        (refl, (refl, (refl, (refl, (refl, (refl, (refl, (refl, (refl, (refl, tt)))))))))) e

  -- `require` accepts a set exactly where it includes what is required; the error that it gives
  -- otherwise holds exactly the permissions that are required and missing.
  pub require_correct :
      (s permissions : ℕ)
      → ((require s permissions ≡ ok tt) × Includes s permissions)
        ⊎ ((missing : ℕ) × (require s permissions ≡ err missing)
            × (¬ Includes s permissions)
            × ((k : ℕ) → k < 32 → has missing k ≡ (has permissions k && not (has s k))))
  unfolding require
  require_correct s permissions = elim (Bool-cases (contains s permissions)) [
    | inl held ↦ inl (rw held, (contains_iff s permissions).0 held)
    | inr lacks ↦ inr (
      difference permissions s,
      rw lacks,
      λ h. cc (lacks, (contains_iff s permissions).1 h),
      difference_bit permissions s,
    )
  ]
