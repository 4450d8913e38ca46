-- ===== src/Permissions/RoundTrip.antt =====
-- What is read is a set of known permissions, and it is the set that was written.
use adaptarr_server.Prelude.{
  ℕ, zero, suc, ◌+◌, ◌-◌, ◌%◌, ◌^◌, ◌<◌, ◌≡◌, ◌≢◌, ◌↔◌, ◌==◌, ◌&&◌, ◌||◌, not, Bool, true, false,
  Bool-cases, Option-cases, some, String, List, [], ◌∷◌, All, ltb, if◌then◌else◌, Result, ok, err,
  panic, stuck, ◌>>=◌, refl, sym, subst, arith, inl, inr, ◌⊎◌,
}
use adaptarr_server.Permissions.{has, Includes, Bitflags}
use adaptarr_server.Permissions.Names.{all_flags, from_str, from_str-All, named}
use adaptarr_server.Permissions.Values.{
  Value, signed, unsigned, string, sequence, other, Values, nil, cons, Error, elements, serialize,
  visit_i64, visit_str, deserialize, visit_seq,
}

-- Over the 32 bits of a set, check every one by evaluation.
all_below : ℕ → (ℕ → Bool) → Bool
all_below zero test = true
all_below (suc n) test = test n && all_below n test

all_below_sound :
    (n : ℕ) (test : ℕ → Bool) (k : ℕ) → all_below n test ≡ true → k < n → test k ≡ true
unfolding all_below
all_below_sound zero test k h lt = absurd (omega arith)
all_below_sound (suc n) test k h lt = ground (arith, all_below_sound n test k)

-- The flag is bit `j` alone, and its name reads back as it.
record IsNamed (p : ℕ) (name : String) : Type 0 where
  bit : ℕ
  small : bit < 32
  alone : (k : ℕ) → k < 32 → (has p k ≡ true) ↔ (k ≡ bit)
  known : has all_flags bit ≡ true
  back : from_str name ≡ some p

same_bit : (p j k : ℕ) → Bool
same_bit p j k = if has p k then k == j else not (k == j)

alone_lem :
    (p j : ℕ) → all_below 32 (same_bit p j) ≡ true → (k : ℕ) → k < 32 → (has p k ≡ true) ↔ (k ≡ j)
unfolding same_bit
alone_lem p j table k lt =
    let checked = all_below_sound 32 (same_bit p j) k table lt in ground (arith, checked)

none_set : all_below 32 (λ k. not (has 0 k)) ≡ true
unfolding all_below has
none_set = refl

has-zero : (k : ℕ) → k < 32 → has 0 k ≡ false
has-zero k lt =
    let checked = all_below_sound 32 (λ j. not (has 0 j)) k none_set lt in ground (arith, checked)

AreNamed : All (λ (entry : ℕ × String). IsNamed entry.0 entry.1) named
unfolding all_below same_bit has from_str
AreNamed = (
  record { bit = 0; small = omega arith; alone = alone_lem 0x1 0 refl; known = refl; back = refl },
  (
    record {
      bit = 1;
      small = omega arith;
      alone = alone_lem 0x2 1 refl;
      known = refl;
      back = refl;
    },
    (
      record {
        bit = 2;
        small = omega arith;
        alone = alone_lem 0x4 2 refl;
        known = refl;
        back = refl;
      },
      (
        record {
          bit = 3;
          small = omega arith;
          alone = alone_lem 0x8 3 refl;
          known = refl;
          back = refl;
        },
        (
          record {
            bit = 4;
            small = omega arith;
            alone = alone_lem 0x10 4 refl;
            known = refl;
            back = refl;
          },
          (
            record {
              bit = 5;
              small = omega arith;
              alone = alone_lem 0x20 5 refl;
              known = refl;
              back = refl;
            },
            (
              record {
                bit = 8;
                small = omega arith;
                alone = alone_lem 0x100 8 refl;
                known = refl;
                back = refl;
              },
              (
                record {
                  bit = 16;
                  small = omega arith;
                  alone = alone_lem 0x10000 16 refl;
                  known = refl;
                  back = refl;
                },
                (
                  record {
                    bit = 17;
                    small = omega arith;
                    alone = alone_lem 0x20000 17 refl;
                    known = refl;
                    back = refl;
                  },
                  (
                    record {
                      bit = 20;
                      small = omega arith;
                      alone = alone_lem 0x100000 20 refl;
                      known = refl;
                      back = refl;
                    },
                    tt,
                  ),
                ),
              ),
            ),
          ),
        ),
      ),
    ),
  ),
)

-- Bit `k` is that of a flag with a name.
unfoldable pub has_any : List (ℕ × String) → ℕ → Bool
has_any [] k = false
has_any ((p, name) ∷ ps) k = has p k || has_any ps k

-- A call that a `?` passes its error on for.
Result-cases :
    {A B : Type 0} (r : Result Error A)
    → ((a : A) × (r ≡ ok a)) ⊎ ((f : A → Result Error B) (b : B) → (r >>= f) ≢ ok b)
Result-cases (ok a) = inl (a, refl)
Result-cases (err x) = inr (λ f b e. cc)
Result-cases panic = inr (λ f b e. cc)
Result-cases stuck = inr (λ f b e. cc)

module _ (flags : Bitflags) where
  open flags use {
    contains, union, from_bits, contains_iff, union_bit, from_bits_known, from_bits_unknown,
  }

  -- What the loop of `visit_seq` collects from the names that `serialize` wrote.
  collected : ℕ → ℕ → List (ℕ × String) → ℕ
  collected s acc [] = acc
  collected s acc ((p, name) ∷ ps) = collected s (if contains s p then union acc p else acc) ps

  visit_seq-elements :
      (s acc : ℕ) (ps : List (ℕ × String))
      → All (λ (entry : ℕ × String). IsNamed entry.0 entry.1) ps
      → visit_seq flags acc (elements flags s ps) ≡ ok (collected s acc ps)
  unfolding visit_seq deserialize elements collected visit_str
  visit_seq-elements s acc [] h = refl
  visit_seq-elements s acc ((p, name) ∷ ps) h = elim (Bool-cases (contains s p)) [
    | inl held ↦ rw (held, h.0.back, ◌>>=◌) (visit_seq-elements s (union acc p) ps h.1)
    | inr lacks ↦ rw lacks (visit_seq-elements s acc ps h.1)
  ]

  -- A set contains a flag of one bit where it has the bit.
  contains-IsNamed :
      (s p k : ℕ) (name : String)
      → IsNamed p name
      → k < 32
      → (contains s p && has p k) ≡ (has s k && has p k)
  contains-IsNamed s p k name h lt = elim (Bool-cases (has p k)) [
    | inr off ↦ ground (arith, off)
    | inl on ↦ elim (Bool-cases (contains s p)) [
      | inl held ↦ let here = (contains_iff s p).0 held k lt on in cc (held, here)
      | inr lacks ↦ elim (Bool-cases (has s k)) [
        | inr off ↦ cc (lacks, off)
        | inl here ↦
            let at_k = (h.alone k lt).0 on in
            let all : Includes s p =
              λ j lt' on'. subst (λ i. has s i ≡ true) (cc (at_k, (h.alone j lt').0 on')) here in
            cc (lacks, (contains_iff s p).1 all)
      ]
    ]
  ]

  collected_bit :
      (s acc k : ℕ) (ps : List (ℕ × String))
      → All (λ (entry : ℕ × String). IsNamed entry.0 entry.1) ps
      → k < 32
      → has (collected s acc ps) k ≡ (has acc k || (has s k && has_any ps k))
  unfolding collected has_any
  collected_bit s acc k [] h lt = ground arith
  collected_bit s acc k ((p, name) ∷ ps) h lt = elim (Bool-cases (contains s p)) [
    | inl held ↦
        let later = collected_bit s (union acc p) k ps h.1 lt in
        rw held
          (ground (arith, later, union_bit acc p k lt, contains-IsNamed s p k name h.0 lt, held))
    | inr lacks ↦
        let later = collected_bit s acc k ps h.1 lt in
        rw lacks (ground (arith, later, contains-IsNamed s p k name h.0 lt, lacks))
  ]

  -- What `serialize` writes for people `deserialize` reads back, less the bits that have no name.
  pub deserialize-serialize :
      (s : ℕ)
      → (t : ℕ) × (deserialize flags (serialize flags true s) ≡ ok t)
        × ((k : ℕ) → k < 32 → has t k ≡ (has s k && has_any named k))
  unfolding serialize deserialize
  deserialize-serialize s = (
    collected s 0 named,
    visit_seq-elements s 0 named AreNamed,
    λ k lt. ground (arith, collected_bit s 0 k named AreNamed lt, has-zero k lt),
  )

  visit_i64_lem :
      (v s : ℕ)
      → (ltb v (2 ^ 31) || not (ltb v (2 ^ 64 - 2 ^ 31))) ≡ true
      → v % 2 ^ 32 ≡ s
      → Includes all_flags s
      → visit_i64 flags v ≡ ok s
  unfolding visit_i64
  visit_i64_lem v s inside low known = rw (inside, low, from_bits_known all_flags s known)

  -- The bits that `serialize` writes for machines `deserialize` reads back, for a set of known flags.
  pub deserialize-serialize_bits :
      (s : ℕ)
      → s < 2 ^ 32
      → Includes all_flags s
      → deserialize flags (serialize flags false s) ≡ ok s
  unfolding serialize deserialize
  deserialize-serialize_bits s lt known = elim (Bool-cases (ltb s (2 ^ 31))) [
    | inl positive ↦ rw positive (visit_i64_lem s s (ground arith) (omega arith) known)
    | inr negative ↦
        rw negative (visit_i64_lem (s + (2 ^ 64 - 2 ^ 32)) s (ground arith) (omega arith) known)
  ]

  Includes-union : (a b c : ℕ) → Includes a b → Includes a c → Includes a (union b c)
  Includes-union a b c hb hc k lt on = ground (arith, union_bit b c k lt, hb k lt, hc k lt, on)

  from_bits-Includes : (b t : ℕ) → from_bits all_flags b ≡ some t → Includes all_flags t
  from_bits-Includes b t e = elim (Bool-cases (contains all_flags b)) [
    | inl held ↦
        let known = (contains_iff all_flags b).0 held in
        let same : b ≡ t = cc (from_bits_known all_flags b known) in
        subst (Includes all_flags) same known
    | inr lacks ↦
        let unknown : ¬ Includes all_flags b = λ h. cc (lacks, (contains_iff all_flags b).1 h) in
        absurd (cc (from_bits_unknown all_flags b unknown))
  ]

  known_bits : (v t : ℕ) → visit_i64 flags v ≡ ok t → Includes all_flags t
  unfolding visit_i64
  known_bits v t e = elim (Bool-cases (ltb v (2 ^ 31) || not (ltb v (2 ^ 64 - 2 ^ 31)))) [
    | inr outside ↦ absurd (cc (rw outside at e))
    | inl inside ↦ elim (Option-cases (from_bits all_flags (v % 2 ^ 32))) [
      | inl gone ↦ absurd (cc (rw (inside, gone) at e))
      | inr (s, found) ↦
          let same : s ≡ t = cc (rw (inside, found) at e) in
          subst (Includes all_flags) same (from_bits-Includes (v % 2 ^ 32) s found)
    ]
  ]

  known_name : (v : String) (t : ℕ) → visit_str v ≡ ok t → Includes all_flags t
  unfolding visit_str
  known_name v t e = elim (Option-cases (from_str v)) [
    | inl gone ↦ absurd (cc (rw (gone, visit_str) at e))
    | inr (p, found) ↦
        let h = from_str-All IsNamed v p AreNamed found in
        let same : p ≡ t = cc (rw (found, visit_str) at e) in
        subst (Includes all_flags) same
          (λ k lt on. subst (λ j. has all_flags j ≡ true) (sym ((h.alone k lt).0 on)) h.known)
  ]

  mutual
    unfolding deserialize visit_seq

    deserialize_known : (v : Value) (t : ℕ) → deserialize flags v ≡ ok t → Includes all_flags t
    deserialize_known (signed v) t e = known_bits v t e
    deserialize_known (unsigned v) t e = known_bits v t e
    deserialize_known (string v) t e = known_name v t e
    deserialize_known (sequence vs) t e =
        visit_seq_known 0 vs t (λ k lt on. cc (on, has-zero k lt)) e
    deserialize_known other t e = cc

    visit_seq_known :
        (bits : ℕ) (vs : Values) (t : ℕ)
        → Includes all_flags bits
        → visit_seq flags bits vs ≡ ok t
        → Includes all_flags t
    visit_seq_known bits nil t h e = let same : bits ≡ t = cc in subst (Includes all_flags) same h
    visit_seq_known bits (cons v vs) t h e = elim (Result-cases {B = ℕ} (deserialize flags v)) [
      | inl (p, found) ↦
          visit_seq_known (union bits p) vs t
            (Includes-union all_flags bits p h (deserialize_known v p found)) (rw found at e)
      | inr failed ↦ absurd (failed (λ p. visit_seq flags (union bits p) vs) t e)
    ]

  -- Whatever is read, from any value, holds no bit but those of the known flags.
  pub deserialize-Includes : (v : Value) (t : ℕ) → deserialize flags v ≡ ok t → Includes all_flags t
  deserialize-Includes = deserialize_known
