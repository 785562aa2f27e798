-- ===== src/Windows/Reports.antt =====
-- What the service of service/windows/service.cpp tells the service manager at its end.
use mathlib.Core.Option.{some-injective}
use mathlib.Core.Path.{subst}
use socks5_proxy_sum_2022_co.Prelude.{
  ◌≡◌, ◌≢◌, ◌⊎◌, refl, inl, inr, Bool, true, false, ◌||◌, List, ◌∷◌, none, some, Bool-cases,
}
use socks5_proxy_sum_2022_co.Windows.Status.{
  State, start_pending, stop_pending, stopped, Main, fresh, start_written, started, failure_written,
  has_event, running_written, looping, end_written, ended, thrown, Handler, idle, pending_written,
  pending_reported, Service, register, next, report, create_event, launch, round, control_stop,
  report_pending, set_event, takes_stop, is_ending, Step, Reachable,
}

-- The handler has not run, and cannot yet.
abbrev Untouched : Handler → List State → Type 0
Untouched h rep = (h ≡ idle) × (takes_stop rep ≡ false)

-- The last report is that the service has stopped.
abbrev pub EndsStopped : List State → Type 0
EndsStopped rep = (before : List State) × (rep ≡ stopped ∷ before)

-- What holds at each place of `serviceMain`, unless a stop is taken while its end is written.
abbrev Inv : Main → State → Handler → List State → Type 0
Inv fresh st h rep = Untouched h rep
Inv start_written st h rep = (h ≡ idle) × (takes_stop rep ≡ false) × (st ≡ start_pending)
Inv started st h rep = Untouched h rep
Inv failure_written st h rep = (h ≡ idle) × (takes_stop rep ≡ false) × (st ≡ stopped)
Inv has_event st h rep = Untouched h rep
Inv running_written st h rep = Untouched h rep
Inv looping st h rep = Unit {0}
Inv end_written st h rep = st ≡ stopped
Inv ended st h rep = (st ≡ stopped) × EndsStopped rep
Inv thrown st h rep = Unit {0}

report-Inv :
    (k m : Main) (st : State) (h : Handler) (rep : List State)
    → next k ≡ some m
    → Inv k st h rep
    → Inv m st h (st ∷ rep)
report-Inv start_written m st h rep e (untouched, no_stop, pending) =
    subst (λ m. Inv m st h (st ∷ rep)) (some-injective _ _ e) (untouched, rw pending refl)
report-Inv failure_written m st h rep e (untouched, no_stop, stop) =
    subst (λ m. Inv m st h (st ∷ rep)) (some-injective _ _ e) (stop, (rep, rw stop refl))
report-Inv running_written m st h rep e i =
    subst (λ m. Inv m st h (st ∷ rep)) (some-injective _ _ e) tt
report-Inv end_written m st h rep e stop =
    subst (λ m. Inv m st h (st ∷ rep)) (some-injective _ _ e) (stop, (rep, rw stop refl))
report-Inv fresh m st h rep e i = cc
report-Inv started m st h rep e i = cc
report-Inv has_event m st h rep e i = cc
report-Inv looping m st h rep e i = cc
report-Inv ended m st h rep e i = cc
report-Inv thrown m st h rep e i = cc

abbrev Holds : Service → Type 0
Holds s = Inv s.main s.state s.handler s.reported

at : (s : Service) (m : Main) → s.main ≡ m → Holds s → Inv m s.state s.handler s.reported
at s m e i = subst (λ k. Inv k s.state s.handler s.reported) e i

round-Holds :
    (s : Service) (died read_failed : Bool) → s.main ≡ looping → Holds (round died read_failed s)
unfolding round
round-Holds s died read_failed e = elim (Bool-cases s.stop_event) [
  | inl set ↦ rw (round, set) refl
  | inr clear ↦ elim (Bool-cases died) [
    | inl dead ↦ rw (round, clear, dead) refl
    | inr alive ↦ elim (Bool-cases read_failed) [
      | inl bad ↦ rw (round, clear, alive, bad) tt
      | inr good ↦ rw (round, clear, alive, good) (rw e tt)
    ]
  ]
]

-- A stop is taken only while `serviceMain` is in its loop.
controls-Inv :
    (k : Main) (st : State) (h : Handler) (rep : List State)
    → takes_stop rep ≡ true
    → is_ending k ≡ false
    → Inv k st h rep
    → Inv k stop_pending pending_written rep
controls-Inv fresh st h rep takes calm (_, no_stop) = cc
controls-Inv start_written st h rep takes calm (_, no_stop, _) = cc
controls-Inv started st h rep takes calm (_, no_stop) = cc
controls-Inv failure_written st h rep takes calm (_, no_stop, _) = cc
controls-Inv has_event st h rep takes calm (_, no_stop) = cc
controls-Inv running_written st h rep takes calm (_, no_stop) = cc
controls-Inv looping st h rep takes calm i = tt
controls-Inv end_written st h rep takes calm i = cc
controls-Inv ended st h rep takes calm (_, (before, told)) =
    let no_stop : takes_stop rep ≡ false = rw told refl in cc
controls-Inv thrown st h rep takes calm i = tt

-- A step of the handler keeps the status, and its report adds the status as it is.
handler-Inv :
    (k : Main) (st : State) (h h' : Handler) (rep rep' : List State)
    → h ≢ idle
    → (rep' ≡ rep) ⊎ (rep' ≡ st ∷ rep)
    → Inv k st h rep
    → Inv k st h' rep'
handler-Inv fresh st h h' rep rep' busy more (untouched, _) = absurd (busy untouched)
handler-Inv start_written st h h' rep rep' busy more (untouched, _, _) = absurd (busy untouched)
handler-Inv started st h h' rep rep' busy more (untouched, _) = absurd (busy untouched)
handler-Inv failure_written st h h' rep rep' busy more (untouched, _, _) = absurd (busy untouched)
handler-Inv has_event st h h' rep rep' busy more (untouched, _) = absurd (busy untouched)
handler-Inv running_written st h h' rep rep' busy more (untouched, _) = absurd (busy untouched)
handler-Inv looping st h h' rep rep' busy more i = tt
handler-Inv end_written st h h' rep rep' busy more i = i
handler-Inv ended st h h' rep rep' busy (inl same) (stop, told) = (stop, rw same told)
handler-Inv ended st h h' rep rep' busy (inr more) (stop, told) =
    (stop, (rep, rw (more, stop) refl))
handler-Inv thrown st h h' rep rep' busy more i = tt

pending-idle : (h : Handler) → (h ≡ pending_written) ⊎ (h ≡ pending_reported) → h ≢ idle
pending-idle h (inl e) i = cc
pending-idle h (inr e) i = cc

step-Holds : {c : Bool} {s t : Service} → Step s c t → c ≡ false → Holds s → Holds t
unfolding register report create_event launch control_stop report_pending set_event
step-Holds (Step.registers {s} false e) calm i = tt
step-Holds (Step.registers {s} true e) calm i =
    let (untouched, no_stop) = at s fresh e i in (untouched, no_stop, refl)
step-Holds (Step.reports {s} m false e) calm i = tt
step-Holds (Step.reports {s} m true e) calm i = report-Inv s.main m s.state s.handler s.reported e i
step-Holds (Step.makes_event {s} none e) calm i = at s started e i
step-Holds (Step.makes_event {s} (some error) e) calm i =
    let (untouched, no_stop) = at s started e i in (untouched, no_stop, refl)
step-Holds (Step.launches {s} true true e) calm i = at s has_event e i
step-Holds (Step.launches {s} true false e) calm i = tt
step-Holds (Step.launches {s} false created e) calm i = tt
step-Holds (Step.rounds {s} died read_failed e) calm i = round-Holds s died read_failed e
step-Holds (Step.controls {s} resting takes) calm i =
    controls-Inv s.main s.state s.handler s.reported takes calm i
step-Holds (Step.reports_pending {s} false e) calm i =
    handler-Inv s.main s.state s.handler _ s.reported _ (pending-idle s.handler (inl e)) (inl refl)
      i
step-Holds (Step.reports_pending {s} true e) calm i =
    handler-Inv s.main s.state s.handler _ s.reported _ (pending-idle s.handler (inl e)) (inr refl)
      i
step-Holds (Step.sets_event {s} e) calm i =
    handler-Inv s.main s.state s.handler _ s.reported _ (pending-idle s.handler (inr e)) (inl refl)
      i

or-false : (b c : Bool) → (c || b) ≡ false → (c ≡ false) × (b ≡ false)
or-false b true h = cc
or-false b false h = (refl, h)

reachable-Holds : {b : Bool} {s : Service} → Reachable b s → b ≡ false → Holds s
reachable-Holds Reachable.begins calm = (refl, refl)
reachable-Holds (Reachable.goes_on {b} {c} step before) calm =
    let (c_calm, b_calm) = or-false b c calm in
    step-Holds step c_calm (reachable-Holds before b_calm)

-- Once `serviceMain` has returned, the last that the service manager was told is that the service has
-- stopped, if no stop was taken between the write of its last status and the report of it.
pub ended-EndsStopped : {s : Service} → Reachable false s → s.main ≡ ended → EndsStopped s.reported
ended-EndsStopped {s} run e = (at s ended e (reachable-Holds run refl)).1
