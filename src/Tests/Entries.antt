-- ===== src/Tests/Entries.antt =====
-- Examples for the parameters of the server and the paths of its files.
use socks5_proxy_sum_2022_co.Entry.Paths.{Module, path_size, init, init_fits}
use socks5_proxy_sum_2022_co.Prelude.{
  ◌≡◌, ◌%◌, ◌^◌, ◌==◌, ◌+◌, ◌++◌, ◌&&◌, ltb, length, some, none, if◌then◌else◌, refl, not, [], ◌∷◌,
  codes, arith,
}
use socks5_proxy_sum_2022_co.StringUtils.{decimal}
use socks5_proxy_sum_2022_co.Config.Map
use socks5_proxy_sum_2022_co.Config.Parse.{ConfigReader}
use socks5_proxy_sum_2022_co.Entry.{read_parameters, read_parameters-decimal}

abbrev reader : ConfigReader
reader = record {
  settings =
      (codes "listen_port", decimal 1081)
      ∷ (codes "buffer_size_kb", decimal 64)
      ∷ (codes "max_sessions", decimal 5)
      ∷ (codes "auth", decimal 1)
      ∷ [];
  users = [];
}

read_parameters-decimal_example : read_parameters reader ≡ record {
  port = 1081 % 2 ^ 16;
  buffer_size_kb = 64;
  max_sessions = 5;
  auth_flag = not (1 == 0);
}
unfolding Map.find
read_parameters-decimal_example =
    read_parameters-decimal reader 1081 64 5 1 (omega arith) (omega arith) (omega arith)
      (omega arith) refl refl refl refl

-- A program in a directory with the name of a letter.
abbrev installed : Module
installed = record {
  file_name_w = codes "C:\\d\\main.exe";
  file_name_a = codes "C:\\d\\main.exe";
  to_utf8 = λ text. some text;
}

init_fits_example : init installed ≡ (
    if ltb (length (codes "C:\\d\\") + 25) path_size && ltb (length (codes "C:\\d") + 11) path_size
    then some (record {
      default_database_path = codes "C:\\d\\" ++ codes "\\statistics\\statistics.db";
      default_config_path = codes "C:\\d" ++ codes "\\config.txt";
      default_log_path = codes "C:\\d" ++ codes "\\server.log";
    })
    else none)
init_fits_example =
    init_fits installed (codes "C:\\d") (codes "main.exe") (codes "C:\\d") (codes "main.exe")
      (codes "C:\\d\\") (omega arith) (omega arith) refl refl (omega arith) (omega arith) refl
