-- ===== src/Logger.antt =====
-- src/Logger.h, src/Logger.cpp: the log. A message is a task for a pool with one thread, which runs
-- its tasks in order; `none` is an index outside of a vector.
pub mod Streams
pub mod Lines
pub mod Names
use socks5_proxy_sum_2022_co.Prelude.{
  ℕ, zero, suc, ◌+◌, ◌-◌, Bool, true, false, not, ◌&&◌, List, [], ◌∷◌, ◌++◌, Option, none, some,
  Bytes, bytes_eq, length, take, ltb, leb, ◌==◌, if◌then◌else◌, codes, get_elem?,
}
use socks5_proxy_sum_2022_co.Config.Parse.{ConfigReader}
use socks5_proxy_sum_2022_co.Config.Values.{get_value}

-- `LOG_LEVEL`, by its number.
abbrev pub LogLevel : Type 0
LogLevel = ℕ

abbrev pub off_log : LogLevel
off_log = 0

abbrev pub fatal_log : LogLevel
fatal_log = 1

abbrev pub error_log : LogLevel
error_log = 2

abbrev pub info_log : LogLevel
info_log = 3

abbrev pub debug_log : LogLevel
debug_log = 4

abbrev pub trace_log : LogLevel
trace_log = 5

abbrev pub all_log : LogLevel
all_log = 6

-- `LOG_TYPE`, by its number.
abbrev pub LogType : Type 0
LogType = ℕ

abbrev pub disable_log : LogType
disable_log = 0

abbrev pub console_log : LogType
console_log = 1

abbrev pub file_log : LogType
file_log = 2

abbrev pub enable_log : LogType
enable_log = 3

abbrev pub log_level_prefix : List Bytes
log_level_prefix =
    codes " [FATAL] "
    ∷ codes " [ERROR] "
    ∷ codes " [ INFO] "
    ∷ codes " [DEBUG] "
    ∷ codes " [TRACE] "
    ∷ []

abbrev pub log_level_names : List Bytes
log_level_names =
    codes "OFF"
    ∷ codes "FATAL"
    ∷ codes "ERROR"
    ∷ codes "INFO"
    ∷ codes "DEBUG"
    ∷ codes "TRACE"
    ∷ codes "ALL"
    ∷ []

abbrev pub log_type_names : List Bytes
log_type_names = codes "DISABLE" ∷ codes "CONSOLE" ∷ codes "FILE" ∷ codes "ENABLE" ∷ []

-- One line of a stream: `time << " " << prefix << " " << data << endl`.
pub record Line : Type 0 where
  pub time : Bytes
  pub prefix : Bytes
  pub data_text : Bytes

abbrev pub line_bytes : Line → Bytes
line_bytes l = l.time ++ codes " " ++ l.prefix ++ codes " " ++ l.data_text ++ b'\n' ∷ []

-- `Logger`, with its two streams, the tasks that wait, and how often the clock was read.
pub record Logger : Type 0 where
  pub level : LogLevel
  pub type : LogType
  pub file : List Line
  pub console : List Line
  pub tasks : List (Bytes × LogLevel)
  pub clock : ℕ

-- `std::find`, as the distance from the beginning.
abbrev pub find_name : Bytes → List Bytes → Option ℕ
find_name s [] = none
find_name s (x ∷ xs) =
    if bytes_eq x s then some 0 else elim (find_name s xs) [ none ↦ none | some i ↦ some (suc i) ]

-- `post` behind the tasks that wait; the data is the task's own.
unfoldable pub log : Bytes → LogLevel → Logger → Logger
log text level l = record l { tasks = l.tasks ++ (text, level) ∷ [] }

-- `BUFF`: the text that `operator<<` collects, for the level that `log` was called with; its destructor
-- posts it.
pub record Buff : Type 0 where
  pub ss : Bytes
  pub buff_level : LogLevel

abbrev pub begin_message : LogLevel → Buff
begin_message level = record { ss = []; buff_level = level }

abbrev pub stream_to : Buff → Bytes → Buff
stream_to b text = record b { ss = b.ss ++ text }

unfoldable pub end_message : Buff → Logger → Logger
unfolding log
end_message b l = log b.ss b.buff_level l

-- The constructor before it calls `configure`: the file is opened to be appended to.
abbrev pub opened : List Line → Logger
opened file = record {
  level = all_log;
  type = enable_log;
  file = file;
  console = [];
  tasks = [];
  clock = 0;
}

-- `std::ctime` at each reading of the clock.
module _ (ctime : ℕ → Bytes) where
  -- The text of `ctime` without its last byte, the end of the line.
  unfoldable pub get_current_time : Logger → Bytes × Logger
  get_current_time l =
      let curr_time = take 26 (ctime l.clock) in
      (take (length curr_time - 1) curr_time, record l { clock = suc l.clock })

  abbrev pub to_console : Bytes → Bytes → Logger → Logger
  to_console prefix text l =
      let (time, l') = get_current_time l in
      record l' {
        console = l'.console ++ record { time = time; prefix = prefix; data_text = text } ∷ [];
      }

  abbrev pub to_file : Bytes → Bytes → Logger → Logger
  to_file prefix text l =
      let (time, l') = get_current_time l in
      record l' { file = l'.file ++ record { time = time; prefix = prefix; data_text = text } ∷ [] }

  -- The prefix is taken only where a line is written.
  unfoldable pub log_task : Bytes → LogLevel → Logger → Option Logger
  unfolding get_current_time
  log_task text level l =
      let prefix = get_elem? log_level_prefix (level - 1) in
      if leb level l.level && not (level == off_log)
      then (if l.type == console_log
          then elim prefix [ none ↦ none | some p ↦ some (to_console p text l) ]
          else if l.type == file_log
          then elim prefix [ none ↦ none | some p ↦ some (to_file p text l) ]
          else if l.type == enable_log
          then elim prefix [ none ↦ none | some p ↦ some (to_console p text (to_file p text l)) ]
          else some l)
      else some l

  -- The worker runs the given tasks.
  unfoldable pub run_tasks : List (Bytes × LogLevel) → Logger → Option Logger
  unfolding log_task
  run_tasks [] l = some l
  run_tasks ((text, level) ∷ tasks) l = elim (log_task text level l) [
    | none ↦ none
    | some l' ↦ run_tasks tasks l'
  ]

  -- `join`: the worker runs all tasks that wait.
  unfoldable pub join : Logger → Option Logger
  unfolding run_tasks
  join l = run_tasks l.tasks (record l { tasks = [] })

-- `boost::to_upper`.
module _ (to_upper : Bytes → Bytes) where
  -- The two halves of `configure`.
  unfoldable pub configure_level : ConfigReader → Logger → Logger
  unfolding log
  configure_level config l =
      let (there, text) = get_value config (codes "log_level") [] in
      if there
      then elim (find_name (to_upper text) log_level_names) [
        | some i ↦ record l { level = i }
        | none ↦ log (codes "[logger] Invalid log level, enabling all log") error_log l
      ]
      else log (codes "[logger] No log level, enabling all log") error_log l

  unfoldable pub configure_type : ConfigReader → Logger → Logger
  unfolding log
  configure_type config l =
      let (there, text) = get_value config (codes "log_type") [] in
      if there
      then elim (find_name (to_upper text) log_type_names) [
        | some i ↦ record l { type = i }
        | none ↦ log (codes "[logger] Invalid log type, enabling all log") error_log l
      ]
      else log (codes "[logger] No log type, enabling all log") error_log l

  unfoldable pub configure : ConfigReader → Logger → Logger
  unfolding configure_level configure_type
  configure config l = configure_type config (configure_level config l)

  -- The first call of `getInstance`: the constructor.
  unfoldable pub make_logger : ConfigReader → List Line → Logger
  unfolding configure
  make_logger config file = configure config (opened file)
