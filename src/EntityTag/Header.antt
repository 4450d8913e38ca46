-- ===== src/EntityTag/Header.antt =====
-- The If-Match header of a request (etag.rs, `from_request`). After `to_str` the header is visible
-- ASCII, so what `trim` takes away is spaces and tabs.
use adaptarr_server.Prelude.{
  ℕ, ◌≤◌, ◌<◌, ◌≡◌, ◌≢◌, ◌↔◌, ◌==◌, ◌||◌, inl, inr, Bool, true, false, Bool-cases, Option, none,
  some, List, [], ◌∷◌, ◌++◌, All, Memᴰ, if◌then◌else◌, Result, ok, err, ◌>>=◌, refl, arith,
}
use adaptarr_server.Storage.Orders.{All-append, All-map}
use adaptarr_server.EntityTag.{
  TagStrength, strong, weak, ParseEntityTagError, string, EntityTag, IfMatch, any, one_of, is_bad,
  find_bad, from_str, to_bytes, same_bytes, test,
}
use adaptarr_server.EntityTag.Parsing.{from_str-to_bytes}
use adaptarr_server.EntityTag.Matching.{test-one_of}

-- `split(',')`: the first piece and the others.
unfoldable pub split_first : List ℕ → List ℕ × List (List ℕ)
split_first [] = ([], [])
split_first (b ∷ bs) =
    let rest = split_first bs in if b == 44 then ([], rest.0 ∷ rest.1) else (b ∷ rest.0, rest.1)

unfoldable pub split_commas : List ℕ → List (List ℕ)
split_commas bs = let pieces = split_first bs in pieces.0 ∷ pieces.1

unfoldable pub is_space : ℕ → Bool
is_space b = b == 32 || b == 9

unfoldable pub trim_start : List ℕ → List ℕ
trim_start [] = []
trim_start (b ∷ bs) = let rest = trim_start bs in if is_space b then rest else b ∷ bs

unfoldable pub keep_end : ℕ → List ℕ → List ℕ
keep_end b [] = if is_space b then [] else b ∷ []
keep_end b (c ∷ bs) = b ∷ c ∷ bs

unfoldable pub trim_end : List ℕ → List ℕ
trim_end [] = []
trim_end (b ∷ bs) = keep_end b (trim_end bs)

unfoldable pub trim : List ℕ → List ℕ
trim bs = trim_end (trim_start bs)

-- The iterator over the pieces, which stops at the first error.
unfoldable pub parse_tags : List (List ℕ) → Result ParseEntityTagError (List EntityTag)
parse_tags [] = ok []
parse_tags (piece ∷ pieces) = do
  tag ← from_str (trim piece)
  tags ← parse_tags pieces
  ok (tag ∷ tags)

-- `from_request`, with the header if the request has one. `to_str` of the crate `http` succeeds on
-- visible ASCII.
unfoldable pub from_request : (List ℕ → Bool) → Option (List ℕ) → Result ParseEntityTagError IfMatch
from_request to_str none = ok any
from_request to_str (some header) =
    if same_bytes header (42 ∷ [])
    then ok any
    else (if to_str header
        then (do tags ← parse_tags (split_commas header); ok (one_of tags))
        else err string)

-- The header that lists tags.
abbrev pub list_header : EntityTag → List EntityTag → List ℕ
list_header t [] = to_bytes t
list_header t (s ∷ ts) = to_bytes t ++ 44 ∷ 32 ∷ list_header s ts

abbrev pub IsVisible : ℕ → Type 0
IsVisible b = (32 ≤ b) × (b < 127)

-- A tag of valid ASCII bytes without a comma.
abbrev pub IsListed : EntityTag → Type 0
IsListed t = (find_bad t.tag ≡ none) × All (λ b. (b < 0x80) × (b ≢ 44)) t.tag

abbrev Plain : ℕ → Type 0
Plain b = IsVisible b × (b ≢ 44)

tag-Plain : (bs : List ℕ) → find_bad bs ≡ none → All (λ b. (b < 0x80) × (b ≢ 44)) bs → All Plain bs
unfolding find_bad is_bad
tag-Plain [] fine h = tt
tag-Plain (b ∷ bs) fine (h, hs) = elim (Bool-cases (is_bad b)) [
  | inl bad ↦ absurd (cc (rw bad at fine))
  | inr good ↦ ((ground (arith, good, h.0), h.1), tag-Plain bs (rw good at fine) hs)
]

quoted-Plain : (bs : List ℕ) → All Plain bs → All Plain (0x22 ∷ bs ++ 0x22 ∷ [])
quoted-Plain bs h = (
  ((omega arith, omega arith), omega arith),
  All-append Plain bs (0x22 ∷ []) h (((omega arith, omega arith), omega arith), tt),
)

to_bytes-Plain : (t : EntityTag) → IsListed t → All Plain (to_bytes t)
unfolding to_bytes
to_bytes-Plain t h = elim t.strength as (λ s. All Plain (to_bytes (record t { strength = s }))) [
  | strong ↦ quoted-Plain t.tag (tag-Plain t.tag h.0 h.1)
  | weak ↦
      let inner = quoted-Plain t.tag (tag-Plain t.tag h.0 h.1) in
      (
        ((omega arith, omega arith), omega arith),
        (((omega arith, omega arith), omega arith), inner),
      )
]

comma_free : (b : ℕ) → Plain b → (b == 44) ≡ false
comma_free b h = ground (arith, h.1)

split_first-one : (bs : List ℕ) → All Plain bs → split_first bs ≡ (bs, [])
unfolding split_first
split_first-one [] h = refl
split_first-one (b ∷ bs) (h, hs) = rw (comma_free b h, split_first-one bs hs) refl

split_first-append :
    (bs cs : List ℕ) → All Plain bs → split_first (bs ++ 44 ∷ cs) ≡ (bs, split_commas cs)
unfolding split_first split_commas
split_first-append [] cs h = refl
split_first-append (b ∷ bs) cs (h, hs) = rw (comma_free b h, split_first-append bs cs hs) refl

keep_end-cons : (b c : ℕ) (bs : List ℕ) → keep_end b (c ∷ bs) ≡ b ∷ c ∷ bs
unfolding keep_end
keep_end-cons b c bs = refl

trim_end-quote : (bs : List ℕ) → trim_end (bs ++ 0x22 ∷ []) ≡ bs ++ 0x22 ∷ []
unfolding trim_end keep_end is_space
trim_end-quote [] = refl
trim_end-quote (b ∷ []) = refl
trim_end-quote (b ∷ c ∷ bs) = rw (trim_end-quote (c ∷ bs)) refl

trim-to_bytes :
    (t : EntityTag) → (trim (to_bytes t) ≡ to_bytes t) × (trim (32 ∷ to_bytes t) ≡ to_bytes t)
unfolding trim trim_start is_space to_bytes
trim-to_bytes t =
    elim t.strength
      as (λ s.
        (trim (to_bytes (record t { strength = s })) ≡ to_bytes (record t { strength = s }))
        × (trim (32 ∷ to_bytes (record t { strength = s }))
            ≡ to_bytes (record t { strength = s }))) [
              | strong ↦ (trim_end-quote (0x22 ∷ t.tag), trim_end-quote (0x22 ∷ t.tag))
              | weak ↦ (
                trim_end-quote (0x57 ∷ 0x2f ∷ 0x22 ∷ t.tag),
                trim_end-quote (0x57 ∷ 0x2f ∷ 0x22 ∷ t.tag),
              )
            ]

-- What is parsed where the pieces are a tag and those of what follows.
parse_tags-cons :
    (t : EntityTag) (piece : List ℕ) (pieces : List (List ℕ)) (ts : List EntityTag)
    → IsListed t
    → trim piece ≡ to_bytes t
    → parse_tags pieces ≡ ok ts
    → parse_tags (piece ∷ pieces) ≡ ok (t ∷ ts)
unfolding parse_tags
parse_tags-cons t piece pieces ts h e later = rw (e, from_str-to_bytes t h.0, later) refl

space-Plain : Plain 32
space-Plain = ((omega arith, omega arith), omega arith)

spaced_tags :
    (t : EntityTag) (ts : List EntityTag)
    → All IsListed (t ∷ ts)
    → parse_tags (split_commas (32 ∷ list_header t ts)) ≡ ok (t ∷ ts)
unfolding split_commas parse_tags
spaced_tags t [] (h, hs) =
    rw (split_first-one (32 ∷ to_bytes t) (space-Plain, to_bytes-Plain t h))
      (parse_tags-cons t (32 ∷ to_bytes t) [] [] h (trim-to_bytes t).1 refl)
spaced_tags t (s ∷ ts) (h, hs) =
    rw
      (split_first-append (32 ∷ to_bytes t) (32 ∷ list_header s ts)
        (space-Plain, to_bytes-Plain t h))
      (parse_tags-cons t (32 ∷ to_bytes t) (split_commas (32 ∷ list_header s ts)) (s ∷ ts) h
        (trim-to_bytes t).1 (spaced_tags s ts hs))

header_tags :
    (t : EntityTag) (ts : List EntityTag)
    → All IsListed (t ∷ ts)
    → parse_tags (split_commas (list_header t ts)) ≡ ok (t ∷ ts)
unfolding split_commas parse_tags
header_tags t [] (h, hs) =
    rw (split_first-one (to_bytes t) (to_bytes-Plain t h))
      (parse_tags-cons t (to_bytes t) [] [] h (trim-to_bytes t).0 refl)
header_tags t (s ∷ ts) (h, hs) =
    rw (split_first-append (to_bytes t) (32 ∷ list_header s ts) (to_bytes-Plain t h)) (
      parse_tags-cons t (to_bytes t) (split_commas (32 ∷ list_header s ts)) (s ∷ ts) h
        (trim-to_bytes t).0 (spaced_tags s ts hs))

list_header-IsVisible :
    (t : EntityTag) (ts : List EntityTag) → All IsListed (t ∷ ts) → All IsVisible (list_header t ts)
list_header-IsVisible t [] (h, hs) =
    All-map Plain IsVisible (to_bytes t) (λ b k. k.0) (to_bytes-Plain t h)
list_header-IsVisible t (s ∷ ts) (h, hs) =
    All-append IsVisible (to_bytes t) (44 ∷ 32 ∷ list_header s ts)
      (All-map Plain IsVisible (to_bytes t) (λ b k. k.0) (to_bytes-Plain t h))
      ((omega arith, omega arith), ((omega arith, omega arith), list_header-IsVisible s ts hs))

no_star :
    (strength : TagStrength) (tag : List ℕ) (ts : List EntityTag)
    → same_bytes (list_header (record { strength = strength; tag = tag }) ts) (42 ∷ []) ≡ false
unfolding same_bytes to_bytes
no_star strong tag [] = refl
no_star weak tag [] = refl
no_star strong tag (t ∷ ts) = refl
no_star weak tag (t ∷ ts) = refl

-- A header that lists tags of valid ASCII bytes without commas is read as these tags. It matches a
-- version of the resource exactly when the tag of that version is strong and listed.
pub from_request-test :
    (to_str : List ℕ → Bool)
    → ((bs : List ℕ) → All IsVisible bs → to_str bs ≡ true)
    → (t : EntityTag) (ts : List EntityTag) → All IsListed (t ∷ ts)
    → (version : EntityTag)
    → (from_request to_str (some (list_header t ts)) ≡ ok (one_of (t ∷ ts)))
      × ((test (one_of (t ∷ ts)) version ≡ true)
          ↔ ((version.strength ≡ strong) × Memᴰ version (t ∷ ts)))
unfolding from_request
from_request-test to_str visible t ts h version = (
  rw
      (
        from_request,
        no_star t.strength t.tag ts,
        visible (list_header t ts) (list_header-IsVisible t ts h),
        header_tags t ts h,
      )
      refl,
  test-one_of (t ∷ ts) version,
)
