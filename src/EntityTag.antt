-- ===== src/EntityTag.antt =====
-- Entity tags and the If-Match header: crates/web/src/etag.rs. A string is its bytes; all the tests
-- on characters are for ASCII.
pub mod Parsing
pub mod Matching
pub mod Header
mod Examples
use mathlib.Core.List.Memᴰ
use adaptarr_server.Prelude.{
  ℕ, zero, suc, ◌+◌, ◌-◌, ◌<◌, ◌≡◌, ◌↔◌, ◌⊎◌, inl, inr, ◌==◌, ==_iff, ◌&&◌, ◌||◌, not, Bool, true,
  false, Bool-cases, Option, none, some, List, [], ◌∷◌, ◌++◌, Memᴰ, ltb, if◌then◌else◌, length,
  take, drop, take-append, length-append, Result, ok, err, panic, stuck, expect, reject, ◌>>=◌,
  ◌>>◌, refl, ap, sym, ◌≢◌, subst, arith, Option-cases,
}

pub data TagStrength : Type 0 where
  strong weak : TagStrength

-- `Strong`, `Weak` and `None` of `TagEquality`.
pub data TagEquality : Type 0 where
  equal_strong equal_weak different : TagEquality

pub data ParseEntityTagError : Type 0 where
  not_quoted : ParseEntityTagError
  bad_byte : ℕ → ParseEntityTagError
  string : ParseEntityTagError

pub record EntityTag : Type 0 where
  pub strength : TagStrength
  pub tag : List ℕ

unfoldable pub is_bad : ℕ → Bool
is_bad b = not (b == 0x21) && (ltb b 0x23 || ltb 0x7e b) && ltb b 0x80

unfoldable pub find_bad : List ℕ → Option ℕ
find_bad [] = none
find_bad (b ∷ bs) = if is_bad b then some b else find_bad bs

unfoldable pub new : TagStrength → List ℕ → Result ParseEntityTagError EntityTag
new strength tag = elim (find_bad tag) [
  | some b ↦ err (bad_byte b)
  | none ↦ ok (record { strength = strength; tag = tag })
]

-- `starts_with("W/")`.
unfoldable pub is_weak : List ℕ → Bool
is_weak (a ∷ b ∷ bs) = a == 0x57 && b == 0x2f
is_weak bs = false

unfoldable pub split_strength : List ℕ → TagStrength × List ℕ
split_strength tag = if is_weak tag then (weak, drop 2 tag) else (strong, tag)

unfoldable pub starts_with_quote : List ℕ → Bool
starts_with_quote [] = false
starts_with_quote (b ∷ bs) = b == 0x22

unfoldable pub ends_with_quote : List ℕ → Bool
ends_with_quote [] = false
ends_with_quote (b ∷ []) = b == 0x22
ends_with_quote (b ∷ c ∷ bs) = ends_with_quote (c ∷ bs)

-- `&tag[1..tag.len() - 1]`, which panics where the end lies before the start.
unfoldable pub unquote : List ℕ → Option (List ℕ)
unquote tag = if ltb (length tag) 2 then none else some (take (length tag - 2) (drop 1 tag))

-- What `from_str` does behind the prefix.
unfoldable pub from_quoted : TagStrength → List ℕ → Result ParseEntityTagError EntityTag
from_quoted strength tag = do
  reject (not (starts_with_quote tag) || not (ends_with_quote tag)) not_quoted
  tag ← expect (unquote tag)
  new strength tag

unfoldable pub from_str : List ℕ → Result ParseEntityTagError EntityTag
from_str bytes = let (strength, tag) = split_strength bytes in from_quoted strength tag

-- The bytes that `try_into` makes the header of.
unfoldable pub to_bytes : EntityTag → List ℕ
to_bytes t = elim t.strength [
  | strong ↦ 0x22 ∷ t.tag ++ 0x22 ∷ []
  | weak ↦ 0x57 ∷ 0x2f ∷ 0x22 ∷ t.tag ++ 0x22 ∷ []
]

-- `==` of two strings.
unfoldable pub same_bytes : List ℕ → List ℕ → Bool
same_bytes [] [] = true
same_bytes [] (y ∷ ys) = false
same_bytes (x ∷ xs) [] = false
same_bytes (x ∷ xs) (y ∷ ys) = if x == y then same_bytes xs ys else false

unfoldable pub compare_tags : EntityTag → EntityTag → TagEquality
compare_tags self other =
    if same_bytes self.tag other.tag
    then elim self.strength [
      | strong ↦ elim other.strength [ strong ↦ equal_strong | weak ↦ equal_weak ]
      | weak ↦ equal_weak
    ]
    else different

pub data IfMatch : Type 0 where
  any : IfMatch
  one_of : List EntityTag → IfMatch

unfoldable pub is_strong : TagEquality → Bool
is_strong equal_strong = true
is_strong e = false

unfoldable pub any_strong : EntityTag → List EntityTag → Bool
any_strong tag [] = false
any_strong tag (t ∷ ts) = is_strong (compare_tags t tag) || any_strong tag ts

unfoldable pub test : IfMatch → EntityTag → Bool
test any tag = true
test (one_of tags) tag = any_strong tag tags
