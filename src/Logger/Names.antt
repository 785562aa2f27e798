-- ===== src/Logger/Names.antt =====
-- The settings of the log: what `configure` of src/Logger.cpp makes of the configuration.
use mathlib.Core.Option.{some-injective}
use socks5_proxy_sum_2022_co.Prelude.{
  ℕ, zero, suc, ◌≡◌, refl, sym, ap, ◌∙◌, some, Bytes, codes, get_elem?,
}
use socks5_proxy_sum_2022_co.Config.Map
use socks5_proxy_sum_2022_co.Config.Parse.{ConfigReader}
use socks5_proxy_sum_2022_co.Config.Values.{get_value}
use socks5_proxy_sum_2022_co.Logger.{
  Logger, log_level_names, log_type_names, find_name, configure_level, configure_type, configure,
}

level_number :
    (i : ℕ) (s : Bytes)
    → get_elem? log_level_names i ≡ some s
    → find_name s log_level_names ≡ some i
level_number zero s h = rw (sym (some-injective _ _ h)) refl
level_number (suc zero) s h = rw (sym (some-injective _ _ h)) refl
level_number (suc (suc zero)) s h = rw (sym (some-injective _ _ h)) refl
level_number (suc (suc (suc zero))) s h = rw (sym (some-injective _ _ h)) refl
level_number (suc (suc (suc (suc zero)))) s h = rw (sym (some-injective _ _ h)) refl
level_number (suc (suc (suc (suc (suc zero))))) s h = rw (sym (some-injective _ _ h)) refl
level_number (suc (suc (suc (suc (suc (suc zero)))))) s h = rw (sym (some-injective _ _ h)) refl
level_number (suc (suc (suc (suc (suc (suc (suc i))))))) s h = cc

type_number :
    (i : ℕ) (s : Bytes) → get_elem? log_type_names i ≡ some s → find_name s log_type_names ≡ some i
type_number zero s h = rw (sym (some-injective _ _ h)) refl
type_number (suc zero) s h = rw (sym (some-injective _ _ h)) refl
type_number (suc (suc zero)) s h = rw (sym (some-injective _ _ h)) refl
type_number (suc (suc (suc zero))) s h = rw (sym (some-injective _ _ h)) refl
type_number (suc (suc (suc (suc i)))) s h = cc

module _ (to_upper : Bytes → Bytes) where
  configure_level-name :
      (config : ConfigReader) (l : Logger) (i : ℕ) (text : Bytes)
      → Map.find (codes "log_level") config.settings ≡ some text
      → get_elem? log_level_names i ≡ some (to_upper text)
      → configure_level to_upper config l ≡ record l { level = i }
  unfolding configure_level get_value
  configure_level-name config l i text there name =
      rw (configure_level, get_value, there, level_number i (to_upper text) name) refl

  configure_type-name :
      (config : ConfigReader) (l : Logger) (j : ℕ) (text : Bytes)
      → Map.find (codes "log_type") config.settings ≡ some text
      → get_elem? log_type_names j ≡ some (to_upper text)
      → configure_type to_upper config l ≡ record l { type = j }
  unfolding configure_type get_value
  configure_type-name config l j text there name =
      rw (configure_type, get_value, there, type_number j (to_upper text) name) refl

  -- Where both settings are names of the lists, in capitals once `to_upper` is done, the log has the level and the type of
  -- those places, and nothing else of it changes.
  pub configure-names :
      (config : ConfigReader) (l : Logger) (i j : ℕ) (level_text type_text : Bytes)
      → Map.find (codes "log_level") config.settings ≡ some level_text
      → get_elem? log_level_names i ≡ some (to_upper level_text)
      → Map.find (codes "log_type") config.settings ≡ some type_text
      → get_elem? log_type_names j ≡ some (to_upper type_text)
      → configure to_upper config l ≡ record l { level = i; type = j }
  unfolding configure
  configure-names config l i j level_text type_text level_there level_name type_there type_name =
      ap (configure_type to_upper config)
        (configure_level-name config l i level_text level_there level_name)
      ∙ (configure_type-name config (record l { level = i }) j type_text type_there type_name)
