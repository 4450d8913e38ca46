-- ===== src/Permissions/Examples.antt =====
-- The theorems on permissions at concrete sets.
use adaptarr_server.Prelude.{ℕ, ◌<◌, ◌≡◌, ◌&&◌, true, ok, refl}
use adaptarr_server.Permissions.{has, Includes}
use adaptarr_server.Permissions.Names.{all_flags, named, from_str}
use adaptarr_server.Permissions.Values.{
  Value, string, sequence, nil, cons, serialize, deserialize, visit_str,
}
use adaptarr_server.Permissions.RoundTrip.{has_any, deserialize-serialize, deserialize-Includes}
use adaptarr_server.Permissions.Plain.{plain, includes, includes_sound, zip_bits, low}

-- A set of two flags, one of which has no name.
abbrev odd_set : ℕ
odd_set = 0x90

deserialize-serialize_example :
    (t : ℕ) × (deserialize plain (serialize plain true odd_set) ≡ ok t)
    × ((k : ℕ) → k < 32 → has t k ≡ (has odd_set k && has_any named k))
deserialize-serialize_example = deserialize-serialize plain odd_set

odd_set_known : Includes all_flags odd_set
unfolding includes low
odd_set_known = includes_sound 32 all_flags odd_set refl

abbrev book_names : Value
book_names = sequence (cons (string "book:edit") nil)

book_set : deserialize plain book_names ≡ ok 0x10
unfolding deserialize from_str visit_str zip_bits low plain
book_set = refl

deserialize-Includes_example : Includes all_flags 0x10
deserialize-Includes_example = deserialize-Includes plain book_names 0x10 book_set
