-- ===== src/Config/Map.antt =====
-- The two `std::map<std::string, std::string>` of src/ConfigReader.h, and the calls on them.
use socks5_proxy_sum_2022_co.Prelude.{
  ◌≡◌, Bool, false, List, [], ◌∷◌, Option, none, some, arith, Bytes, bytes_eq, bytes_eq_iff,
  bytes_eq_refl, if◌then◌else◌,
}

abbrev pub StringMap : Type 0
StringMap = List (Bytes × Bytes)

unfoldable pub find : Bytes → StringMap → Option Bytes
find k [] = none
find k ((j, v) ∷ m) = if bytes_eq j k then some v else find k m

unfoldable pub erase : Bytes → StringMap → StringMap
erase k [] = []
erase k ((j, v) ∷ m) = let rest = erase k m in if bytes_eq j k then rest else (j, v) ∷ rest

-- `insert` of a pair does nothing if the key is there.
unfoldable pub insert : Bytes → Bytes → StringMap → StringMap
unfolding find
insert k v m = elim (find k m) [ none ↦ (k, v) ∷ m | some _ ↦ m ]

-- The source erases a key that is there, and then inserts.
unfoldable pub replace : Bytes → Bytes → StringMap → StringMap
unfolding find erase insert
replace k v m = elim (find k m) [ none ↦ insert k v m | some _ ↦ insert k v (erase k m) ]

-- `hasUser`: the key is there with that value.
unfoldable pub has_user : StringMap → Bytes → Bytes → Bool
unfolding find
has_user users tag value = elim (find tag users) [ none ↦ false | some v ↦ bytes_eq v value ]

pub find-erase :
    (k j : Bytes) (m : StringMap) → find j (erase k m) ≡ (if bytes_eq k j then none else find j m)
unfolding find erase
find-erase k j [] = ground arith
find-erase k j ((i, v) ∷ m) =
    ground (arith, bytes_eq_iff k j, bytes_eq_iff i k, bytes_eq_iff i j, find-erase k j m)

find-insert :
    (k j v : Bytes) (m : StringMap)
    → find k m ≡ none
    → find j (insert k v m) ≡ (if bytes_eq k j then some v else find j m)
unfolding find insert
find-insert k j v m h = ground arith

-- Setting a key is what a map does, whether the key was there or not.
pub find-replace :
    (k j v : Bytes) (m : StringMap)
    → find j (replace k v m) ≡ (if bytes_eq k j then some v else find j m)
unfolding replace
find-replace k j v m = ground (
  arith,
  find-insert k j v m,
  find-insert k j v (erase k m),
  find-erase k j m,
  find-erase k k m,
  bytes_eq_refl k,
)
