-- ===== src/Windows/Status.antt =====
-- service/windows/service.cpp: `serviceMain` and `serviceControlHandler` run on two threads and share
-- `serviceStatus`. Each call of `SetServiceStatus` reports the status as it is at that time. The
-- results of the calls of Windows are arguments of the steps.
use socks5_proxy_sum_2022_co.Prelude.{
  ℕ, ◌-◌, ◌^◌, ◌≡◌, Bool, true, false, ◌&&◌, ◌||◌, List, [], ◌∷◌, Option, none, some, if◌then◌else◌,
}

-- `dwCurrentState`.
pub data State : Type 0 where
  unset start_pending running stop_pending stopped : State

-- Where `serviceMain` stands: `…_written` is between a write of the status and its report.
pub data Main : Type 0 where
  fresh start_written started failure_written has_event running_written looping end_written ended
        thrown :
      Main

-- Where `serviceControlHandler` stands.
pub data Handler : Type 0 where
  idle pending_written pending_reported handler_thrown : Handler

pub record Service : Type 0 where
  pub state : State
  pub exit_code : ℕ
  pub accepts_stop : Bool
  pub stop_event : Bool
  pub main : Main
  pub handler : Handler
  -- What the service manager was told, the last first.
  pub reported : List State

-- The statics before `start`.
abbrev pub init : Service
init = record {
  state = unset;
  exit_code = 0;
  accepts_stop = false;
  stop_event = false;
  main = fresh;
  handler = idle;
  reported = [];
}

-- `RegisterServiceCtrlHandler`, and the status behind it.
unfoldable pub register : Bool → Service → Service
register false s = record s { main = thrown }
register true s = record s { state = start_pending; main = start_written }

-- Where a report that succeeds leads.
abbrev pub next : Main → Option Main
next start_written = some started
next failure_written = some ended
next running_written = some looping
next end_written = some ended
next _ = none

-- `SetServiceStatus` in `serviceMain`.
unfoldable pub report : Main → Bool → Service → Service
report m false s = record s { main = thrown }
report m true s = record s { main = m; reported = s.state ∷ s.reported }

-- `CreateEvent`; the error is that of `GetLastError`.
unfoldable pub create_event : Option ℕ → Service → Service
create_event none s = record s { main = has_event }
create_event (some error) s = record s {
  state = stopped;
  exit_code = error;
  main = failure_written;
}

-- `CreatePipe` and `CreateProcess`, and the status behind them.
unfoldable pub launch : Bool → Bool → Service → Service
launch piped created s =
    if piped && created
    then record s { accepts_stop = true; state = running; main = running_written }
    else record s { main = thrown }

-- One round of the loop: the event is looked at before the process, and the process before the pipe.
unfoldable pub round : Bool → Bool → Service → Service
round died read_failed s =
    if s.stop_event
    then record s { state = stopped; exit_code = 0; main = end_written }
    else if died
    then record s { state = stopped; exit_code = 2 ^ 32 - 1; main = end_written }
    else if read_failed
    then record s { main = thrown }
    else s

-- The handler, up to the report, the report, and `SetEvent`.
unfoldable pub control_stop : Service → Service
control_stop s = record s { state = stop_pending; handler = pending_written }

unfoldable pub report_pending : Bool → Service → Service
report_pending false s = record s { handler = handler_thrown }
report_pending true s = record s { handler = pending_reported; reported = s.state ∷ s.reported }

unfoldable pub set_event : Service → Service
set_event s = record s { stop_event = true; handler = idle }

-- Windows sends the control to a service whose last report was that it runs.
abbrev pub takes_stop : List State → Bool
takes_stop (running ∷ reported) = true
takes_stop _ = false

abbrev pub is_ending : Main → Bool
is_ending end_written = true
is_ending _ = false

-- The steps of the two threads; the flag says whether a stop is taken while the end is written and
-- not yet reported.
pub data Step : Service → Bool → Service → Type 0 where
  registers : {s : Service} (ok : Bool) → s.main ≡ fresh → Step s false (register ok s)
  reports :
      {s : Service} (m : Main) (ok : Bool) → next s.main ≡ some m → Step s false (report m ok s)
  makes_event :
      {s : Service} (error : Option ℕ) → s.main ≡ started → Step s false (create_event error s)
  launches :
      {s : Service} (piped created : Bool)
      → s.main ≡ has_event
      → Step s false (launch piped created s)
  rounds :
      {s : Service} (died read_failed : Bool)
      → s.main ≡ looping
      → Step s false (round died read_failed s)
  controls :
      {s : Service}
      → s.handler ≡ idle
      → takes_stop s.reported ≡ true
      → Step s (is_ending s.main) (control_stop s)
  reports_pending :
      {s : Service} (ok : Bool) → s.handler ≡ pending_written → Step s false (report_pending ok s)
  sets_event : {s : Service} → s.handler ≡ pending_reported → Step s false (set_event s)

-- The states of a run, and whether a stop was taken so in it.
pub data Reachable : Bool → Service → Type 0 where
  begins : Reachable false init
  goes_on : {b c : Bool} {s t : Service} → Step s c t → Reachable b s → Reachable (c || b) t
