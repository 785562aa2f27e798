-- ===== src/Tests/Texts.antt =====
-- The texts of src/string_utils.h and the files of src/ConfigReader.cpp.
use socks5_proxy_sum_2022_co.Prelude.{
  false, ◌≡◌, ◌≢◌, refl, List, [], ◌∷◌, Option, none, some, Bytes, codes, arith,
}
use socks5_proxy_sum_2022_co.StringUtils.{decimal, form_ip_address_string}
use socks5_proxy_sum_2022_co.StringUtils.Decimal.{value, value-decimal}
use socks5_proxy_sum_2022_co.StringUtils.Address.{form_ip_address_string-injective, ipv6_ambiguous}
use socks5_proxy_sum_2022_co.Config.Reduce.{squeeze, reduce-squeeze}
use socks5_proxy_sum_2022_co.Config.Text.{trim, reduce, last_position}
use socks5_proxy_sum_2022_co.Config.Map
use socks5_proxy_sum_2022_co.Config.Map.{StringMap}
use socks5_proxy_sum_2022_co.Config.Parse.{ConfigReader, fill_users, parse_file, get_instance}
use socks5_proxy_sum_2022_co.Config.Instance.{get_instance_stays}
use socks5_proxy_sum_2022_co.Config.Users.{AreUsers, print_users, fill_users-print}
use socks5_proxy_sum_2022_co.Config.Settings.{AreSettings, print_all, last_value, parse_file-print}

value-decimal_example : value (decimal 1080) 0 ≡ 1080
value-decimal_example = value-decimal 1080

abbrev quad : Bytes
quad = 10 ∷ 0 ∷ 0 ∷ 3 ∷ []

form_ip_address_string-injective_example : quad ≡ quad
form_ip_address_string-injective_example = form_ip_address_string-injective quad quad refl refl refl

abbrev zeros : Bytes
zeros = 0 ∷ 0 ∷ 0 ∷ 0 ∷ 0 ∷ 0 ∷ 0 ∷ 0 ∷ 0 ∷ 0 ∷ 0 ∷ 0 ∷ 0 ∷ 0 ∷ []

ipv6_ambiguous_example :
    (form_ip_address_string (1 ∷ 35 ∷ zeros) ≡ form_ip_address_string (18 ∷ 3 ∷ zeros))
    × (1 ∷ 35 ∷ zeros ≢ 18 ∷ 3 ∷ zeros)
ipv6_ambiguous_example =
    ipv6_ambiguous 1 2 3 zeros (omega arith) (omega arith) (omega arith) (omega arith) (omega arith)
      refl

abbrev settings : StringMap
settings = (codes "auth", codes "0") ∷ (codes "auth", codes "1") ∷ []

settings-AreSettings : AreSettings settings
settings-AreSettings = (
  record {
    tag_ne = refl;
    value_ne = refl;
    tag_plain = (refl, (refl, (refl, (refl, tt))));
    value_plain = (refl, tt);
    no_delimiter = (refl, (refl, (refl, (refl, tt))));
    small = omega arith;
  },
  (
    record {
      tag_ne = refl;
      value_ne = refl;
      tag_plain = (refl, (refl, (refl, (refl, tt))));
      value_plain = (refl, tt);
      no_delimiter = (refl, (refl, (refl, (refl, tt))));
      small = omega arith;
    },
    tt,
  ),
)

parse_file-print_example :
    (reader : ConfigReader) × (parse_file (some (print_all settings)) ≡ some reader)
    × (reader.users ≡ [])
    × ((k : Bytes) → Map.find k reader.settings ≡ last_value k settings none)
parse_file-print_example = parse_file-print settings settings-AreSettings

abbrev users : StringMap
users = (codes "ann", codes "pw") ∷ []

abbrev file : Option (List Bytes)
file =
    some (
      codes "auth = 1 # on" ∷ codes "{" ∷ codes "login: ann" ∷ codes "password:pw" ∷ codes "}" ∷ [])

get_instance_stays_example :
    (reader : ConfigReader) × (get_instance none file ≡ some reader)
    × (get_instance (get_instance none file) none ≡ some reader)
get_instance_stays_example = get_instance_stays file none

abbrev block : StringMap
block = (codes "ann", codes "pw") ∷ []

block-AreUsers : AreUsers block
block-AreUsers = (
  (
    record { value_ne = refl; plain = (refl, (refl, (refl, tt))); small = omega arith },
    record { value_ne = refl; plain = (refl, (refl, tt)); small = omega arith },
  ),
  tt,
)

fill_users-print_example :
    let after = fill_users none (print_users block (codes "auth=1" ∷ [])) [] in
    (after.1 ≡ codes "auth=1" ∷ [])
    × ((k : Bytes) → Map.find k after.0 ≡ last_value k block (Map.find k []))
fill_users-print_example = fill_users-print block [] (codes "auth=1" ∷ []) block-AreUsers

abbrev spaced : Bytes
spaced = codes " a   b  c "

reduce-squeeze_example : reduce spaced ≡ squeeze false (trim spaced)
unfolding trim last_position
reduce-squeeze_example = reduce-squeeze spaced (omega arith)
