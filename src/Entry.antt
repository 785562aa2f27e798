-- ===== src/Entry.antt =====
-- src/main.cpp: the parameters of the server, and how the program ends.
pub mod Paths
use socks5_proxy_sum_2022_co.Prelude.{
  ℕ, suc, ◌-◌, ◌%◌, ◌^◌, ◌==◌, ◌≡◌, ◌<◌, refl, Bool, false, not, Option, none, some, codes, arith,
}
use socks5_proxy_sum_2022_co.World.{ℤ, pos, negsuc}
use socks5_proxy_sum_2022_co.StringUtils.{decimal}
use socks5_proxy_sum_2022_co.Config.Map
use socks5_proxy_sum_2022_co.Config.Parse.{ConfigReader}
use socks5_proxy_sum_2022_co.Config.Values.{get_value_int, get_value_bool, get_value-decimal}
use socks5_proxy_sum_2022_co.Statistics.Sqlite.{Sqlite}
use socks5_proxy_sum_2022_co.Statistics.Service.{to_size, get_instance}

-- The arguments of `TcpServer`, and `Socks5::AUTH_FLAG`.
pub record Parameters : Type 0 where
  pub port : ℕ
  pub buffer_size_kb : ℕ
  pub max_sessions : ℕ
  pub auth_flag : Bool

-- The conversion of an `int` to `unsigned short`.
abbrev pub to_ushort : ℤ → ℕ
to_ushort (pos n) = n % 2 ^ 16
to_ushort (negsuc n) = 2 ^ 16 - suc (n % 2 ^ 16)

-- The results of `getValue` are not looked at, so that a setting that is not there keeps its default.
unfoldable pub read_parameters : ConfigReader → Parameters
read_parameters config = record {
  port = to_ushort (get_value_int config (codes "listen_port") (pos 1080)).1;
  buffer_size_kb = to_size (get_value_int config (codes "buffer_size_kb") (pos 100)).1;
  max_sessions = to_size (get_value_int config (codes "max_sessions") (pos 0)).1;
  auth_flag = (get_value_bool config (codes "auth") false).1;
}

-- What a `main` that has ended did: the result, and whether the server was made and run.
pub data Exit : Type 0 where
  no_database no_server stopped : Exit

abbrev pub exit_code : Exit → ℤ
exit_code no_database = negsuc 0
exit_code no_server = negsuc 0
exit_code stopped = pos 0

-- `main`; the constructor of `TcpServer` throws, or gives a server that runs until the `io_context`
-- stops or throws, which is caught.
unfoldable pub main :
    {Db Stmt Server : Type 0}
    → Sqlite Db Stmt
    → (Parameters → Option Server)
    → (Server → Db → Db)
    → ConfigReader
    → Db
    → Exit × Db
unfolding read_parameters
main a make_server run config db =
    let (created, db') = get_instance a db in
    elim created [
      | none ↦ (no_database, db')
      | some u ↦ elim (make_server (read_parameters config)) [
        | none ↦ (no_server, db')
        | some server ↦ (stopped, run server db')
      ]
    ]

fits : (n : ℕ) → n < 2 ^ 31 → n % 2 ^ 64 ≡ n
fits n h = omega arith

-- The server's parameters are the numbers that the configuration has in decimal, below 2^31: the port
-- by its last sixteen bits, and a login is asked for just if `auth` is not zero.
pub read_parameters-decimal :
    (config : ConfigReader) (port kb limit auth : ℕ)
    → port < 2 ^ 31
    → kb < 2 ^ 31
    → limit < 2 ^ 31
    → auth < 2 ^ 31
    → Map.find (codes "listen_port") config.settings ≡ some (decimal port)
    → Map.find (codes "buffer_size_kb") config.settings ≡ some (decimal kb)
    → Map.find (codes "max_sessions") config.settings ≡ some (decimal limit)
    → Map.find (codes "auth") config.settings ≡ some (decimal auth)
    → read_parameters config ≡ record {
      port = port % 2 ^ 16;
      buffer_size_kb = kb;
      max_sessions = limit;
      auth_flag = not (auth == 0);
    }
unfolding read_parameters
read_parameters-decimal config port kb limit auth small_p small_k small_l small_a p k l a =
    rw
      (
        (get_value-decimal config _ port (pos 1080) false small_p p).0,
        (get_value-decimal config _ kb (pos 100) false small_k k).0,
        (get_value-decimal config _ limit (pos 0) false small_l l).0,
        (get_value-decimal config _ auth (pos 0) false small_a a).1,
      )
      (rw (fits kb small_k, fits limit small_l) refl)
