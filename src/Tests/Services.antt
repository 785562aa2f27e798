-- ===== src/Tests/Services.antt =====
-- Examples for the Windows service.
use socks5_proxy_sum_2022_co.Prelude.{◌≡◌, refl, true, false, [], ◌∷◌, none}
use socks5_proxy_sum_2022_co.Windows.Status.{
  start_pending, running, stop_pending, started, looping, ended, Service, init, register, report,
  create_event, launch, round, control_stop, report_pending, set_event, Step, Reachable,
}
use socks5_proxy_sum_2022_co.Windows.Reports.{EndsStopped, ended-EndsStopped}

-- The service runs, and its process dies.
abbrev runs : Service
unfolding register report create_event launch
runs =
    report looping true
      (launch true true (create_event none (report started true (register true init))))

running_run : Reachable false runs
unfolding register report create_event launch
running_run = Reachable.goes_on (Step.reports looping true refl) (
    Reachable.goes_on (Step.launches true true refl) (
      Reachable.goes_on (Step.makes_event none refl) (
        Reachable.goes_on (Step.reports started true refl)
          (Reachable.goes_on (Step.registers true refl) Reachable.begins))))

abbrev dead : Service
unfolding round register report create_event launch
dead = round true false runs

dead_run : Reachable false (report ended true dead)
unfolding round register report create_event launch
dead_run =
    Reachable.goes_on (Step.reports ended true refl)
      (Reachable.goes_on (Step.rounds true false refl) running_run)

ended-EndsStopped_example : EndsStopped (report ended true dead).reported
unfolding round register report create_event launch
ended-EndsStopped_example = ended-EndsStopped dead_run refl

-- A stop that is taken just before the end is reported.
abbrev lost : Service
unfolding round register report create_event launch control_stop report_pending set_event
lost = set_event (report_pending true (report ended true (control_stop dead)))

lost_run : Reachable true lost
unfolding round register report create_event launch control_stop report_pending set_event
lost_run = Reachable.goes_on (Step.sets_event refl) (
    Reachable.goes_on (Step.reports_pending true refl) (
      Reachable.goes_on (Step.reports ended true refl) (
        Reachable.goes_on (Step.controls refl refl)
          (Reachable.goes_on (Step.rounds true false refl) running_run))))

lost_reports : lost.reported ≡ stop_pending ∷ stop_pending ∷ running ∷ start_pending ∷ []
unfolding round register report create_event launch control_stop report_pending set_event
lost_reports = refl
