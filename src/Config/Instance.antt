-- ===== src/Config/Instance.antt =====
-- The one reader of src/ConfigReader.cpp.
use socks5_proxy_sum_2022_co.Prelude.{◌≡◌, ◌≢◌, refl, List, Option, none, some, Bytes}
use socks5_proxy_sum_2022_co.Config.Parse.{ConfigReader, parse_file, get_instance}
use socks5_proxy_sum_2022_co.Config.Lines.{parse_file_ends}

-- The first `getInstance` gives a reader, whatever its file holds, and each later one gives the same
-- reader, whatever the file holds then.
pub get_instance_stays :
    (file later : Option (List Bytes))
    → (reader : ConfigReader) × (get_instance none file ≡ some reader)
      × (get_instance (get_instance none file) later ≡ some reader)
unfolding get_instance
get_instance_stays file later = read (parse_file file) (parse_file_ends file)
  where
    read :
        (parsed : Option ConfigReader)
        → parsed ≢ none
        → (reader : ConfigReader) × (parsed ≡ some reader)
          × (get_instance parsed later ≡ some reader)
    read none ends = absurd (ends refl)
    read (some reader) ends = (reader, refl, refl)
