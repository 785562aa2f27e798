-- ===== src/Tests/Logs.antt =====
-- Examples for the log.
use socks5_proxy_sum_2022_co.Prelude.{ℕ, ◌≡◌, List, [], ◌∷◌, some, Bytes, codes, arith}
use socks5_proxy_sum_2022_co.Logger.{
  Logger, LogLevel, off_log, error_log, info_log, debug_log, file_log, opened, join,
}
use socks5_proxy_sum_2022_co.Logger.Streams.{passing}
use socks5_proxy_sum_2022_co.Logger.Lines.{Wrote, log_all, join-log_all}

abbrev info_file : Logger
info_file = record (opened []) { level = info_log; type = file_log }

abbrev messages : List (Bytes × LogLevel)
messages =
    (codes "no", debug_log)
    ∷ (codes "yes", error_log)
    ∷ (codes "off", off_log)
    ∷ (codes "too", info_log)
    ∷ []

abbrev ctime : ℕ → Bytes
ctime n = codes "Thu"

join-log_all_example :
    (l : Logger) × (join ctime (log_all messages info_file) ≡ some l)
    × Wrote ctime info_file (passing info_log messages) l
join-log_all_example =
    join-log_all ctime messages info_file
      (omega arith, (omega arith, (omega arith, (omega arith, tt))))
