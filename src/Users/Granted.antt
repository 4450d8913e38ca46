-- ===== src/Users/Granted.antt =====
-- What a member of a team is permitted to do (team_member.rs, role.rs, permissions.rs).
use native.Mathlib.Nat.{zero-div}
use adaptarr_server.Prelude.{
  ℕ, ◌^◌, ◌<◌, ◌≡◌, ◌↔◌, ◌⊎◌, inl, inr, ◌||◌, Bool, true, false, Option, none, some, ok, both,
  parts, refl, sym, ◌∙◌,
}
use adaptarr_server.Permissions.{has}
use adaptarr_server.Permissions.Names.{all_flags, require, require_correct}
use adaptarr_server.Users.{Role}
use adaptarr_server.Users.Members.{Flags, Member, role_permissions, own_permissions, permissions}

zero_bit : (k : ℕ) → has 0 k ≡ false
unfolding has
zero_bit k = rw (zero-div (2 ^ k)) refl

module _ (flags : Flags) where
  -- A bit of the role, if there is one.
  abbrev RoleHas : Option Role → ℕ → Type 0
  RoleHas none k = ⊥
  RoleHas (some r) k = has r.permissions k ≡ true

  -- Bit `k` is that of a flag, and the row or the role has it.
  abbrev pub IsGranted : Member → ℕ → Type 0
  IsGranted m k =
      (has all_flags k ≡ true) × ((has m.member.permissions k ≡ true) ⊎ RoleHas m.role k)

  truncated :
      (b k : ℕ)
      → k < 32
      → (has (flags.from_bits_truncate all_flags b) k ≡ true)
        ↔ ((has all_flags k ≡ true) × (has b k ≡ true))
  truncated b k lt =
      let bit = flags.from_bits_truncate_bit all_flags b k lt in
      (λ e. parts (has all_flags k) (has b k) (sym bit ∙ e), λ h. bit ∙ both h.0 h.1)

  role_bit :
      (role : Option Role) (k : ℕ)
      → k < 32
      → (has (role_permissions flags role) k ≡ true) ↔ ((has all_flags k ≡ true) × RoleHas role k)
  unfolding role_permissions
  role_bit none k lt = (λ e. cc (e, zero_bit k), λ h. absurd h.1)
  role_bit (some r) k lt = truncated r.permissions k lt

  either : (a b : Bool) → ((a || b) ≡ true) ↔ ((a ≡ true) ⊎ (b ≡ true))
  either true b = (λ _. inl refl, λ _. refl)
  either false b = (λ e. inr e, λ h. elim h [ inl e ↦ cc e | inr e ↦ e ])

  permission_bit :
      (m : Member) (k : ℕ) → k < 32 → (has (permissions flags m) k ≡ true) ↔ IsGranted m k
  unfolding permissions own_permissions
  permission_bit m k lt =
      let bit =
        flags.sets.union_bit (own_permissions flags m) (role_permissions flags m.role) k lt in
      (
        λ e. elim ((either _ _).0 (sym bit ∙ e)) [
          | inl own ↦ let h = (truncated m.member.permissions k lt).0 own in (h.0, inl h.1)
          | inr role ↦ let h = (role_bit m.role k lt).0 role in (h.0, inr h.1)
        ],
        λ h.
            bit
            ∙ (either _ _).1 (elim h.1 [
              | inl own ↦ inl ((truncated m.member.permissions k lt).1 (h.0, own))
              | inr role ↦ inr ((role_bit m.role k lt).1 (h.0, role))
            ]),
      )

  -- A requirement on the permissions of a member is met exactly when each bit of it is that of a
  -- known flag and is a permission of the member itself or of its role.
  pub require-permissions :
      (m : Member) (required : ℕ)
      → (require flags.sets (permissions flags m) required ≡ ok tt)
        ↔ ((k : ℕ) → k < 32 → has required k ≡ true → IsGranted m k)
  require-permissions m required =
      elim (require_correct flags.sets (permissions flags m) required) [
        | inl (met, includes) ↦
            (λ e k lt on. (permission_bit m k lt).0 (includes k lt on), λ h. met)
        | inr (missing, refused, lacks, bits) ↦ (
          λ e. cc (e, refused),
          λ h. absurd (lacks (λ k lt on. (permission_bit m k lt).1 (h k lt on))),
        )
      ]
