-- ===== src/Windows/Clicks.antt =====
-- What the window of service/windows/servicecontrols.c runs, and what an argument runs.
use socks5_proxy_sum_2022_co.Prelude.{
  ℕ, ◌≡◌, ◌≢◌, ◌%◌, ◌^◌, ◌==◌, refl, sym, ◌∙◌, ap, Bool, true, false, List, [], ◌∷◌, ◌++◌, Option,
  none, some, Bytes, bytes_eq, bytes_eq_iff, if◌then◌else◌, codes, arith, Bool-cases, inl, inr,
}
use mathlib.Core.List.{append_assoc, append-nil}
use socks5_proxy_sum_2022_co.World.{ℤ, pos, negsuc}
use socks5_proxy_sum_2022_co.Windows.Desktop.{
  Windows, IsLogged, Command, start_service, stop_service, enable_service, disable_service, created,
  destroyed, paint, command, other, shell_execute_returned, privileges_failed,
}
use socks5_proxy_sum_2022_co.Windows.Controls.{
  Handles, Turn, message, quit, sleeps, control, wrap_result, run_sc, press, on_command, win_proc,
  open_window, message_loop, window_session, act, ensure_admin, main, run_elevated, elevate,
  check_membership, is_app_running_as_admin_mode,
}

-- No two buttons have one handle.
abbrev pub Differ : Handles → Type 0
Differ h =
    (h.h_button_start ≢ h.h_button_stop)
    × (h.h_button_start ≢ h.h_button_enable)
    × (h.h_button_start ≢ h.h_button_disable)
    × (h.h_button_stop ≢ h.h_button_enable)
    × (h.h_button_stop ≢ h.h_button_disable)
    × (h.h_button_enable ≢ h.h_button_disable)

-- The command of the button with a handle.
abbrev pub command_of : Handles → ℕ → List Command
command_of h handle =
    if handle == h.h_button_start
    then start_service ∷ []
    else if handle == h.h_button_stop
    then stop_service ∷ []
    else if handle == h.h_button_enable
    then enable_service ∷ []
    else if handle == h.h_button_disable
    then disable_service ∷ []
    else []

-- The commands of the buttons that a run of the loop has clicks of, in order.
abbrev pub clicks : Handles → List Turn → List Command
clicks h [] = []
clicks h (message (command wparam lparam) ∷ turns) =
    (if wparam % 2 ^ 16 == 0 then command_of h lparam else []) ++ clicks h turns
clicks h (message created ∷ turns) = clicks h turns
clicks h (message destroyed ∷ turns) = clicks h turns
clicks h (message paint ∷ turns) = clicks h turns
clicks h (message (other n) ∷ turns) = clicks h turns
clicks h (quit code ∷ turns) = clicks h turns
clicks h (sleeps ∷ turns) = clicks h turns

-- Rounds with no `WM_QUIT` and no second `WM_CREATE`.
abbrev pub stays : List Turn → Bool
stays [] = true
stays (message created ∷ turns) = false
stays (message (command wparam lparam) ∷ turns) = stays turns
stays (message destroyed ∷ turns) = stays turns
stays (message paint ∷ turns) = stays turns
stays (message (other n) ∷ turns) = stays turns
stays (quit code ∷ turns) = false
stays (sleeps ∷ turns) = stays turns

control_inverted :
    (arg : Bytes)
    → control arg ≡ some (if bytes_eq arg (codes "start") then stop_service else start_service)
unfolding control
control_inverted arg = elim (Bool-cases (bytes_eq arg (codes "start"))) [
  | inl same ↦ rw (control, (bytes_eq_iff arg (codes "start")).0 same) refl
  | inr differs ↦ rw (control, differs) refl
]

module _ {W : Type 0} (win : Windows W) (log : IsLogged win) where
  run_sc-ran : (c : Command) (w : W) → log.ran (run_sc win c w) ≡ log.ran w ++ c ∷ []
  unfolding run_sc wrap_result
  run_sc-ran c w = ground (
    arith,
    log.executes c w,
    log.message_box (shell_execute_returned (win.shell_execute c w).0) (win.shell_execute c w).1,
  )

  press-ran :
      (pressed : Bool) (c : Command) (w : W)
      → log.ran (press win pressed c w) ≡ log.ran w ++ (if pressed then c ∷ [] else [])
  unfolding press
  press-ran true c w = run_sc-ran c w
  press-ran false c w = sym (append-nil (log.ran w))

  presses_one :
      (h : Handles) (handle : ℕ)
      → Differ h
      → (((if handle == h.h_button_start then start_service ∷ [] else [])
              ++ (if handle == h.h_button_stop then stop_service ∷ [] else []))
            ++ (if handle == h.h_button_enable then enable_service ∷ [] else []))
          ++ (if handle == h.h_button_disable then disable_service ∷ [] else [])
        ≡ command_of h handle
  presses_one h handle differ = ground arith

  on_command-ran :
      (wparam lparam : ℕ) (h : Handles) (w : W)
      → Differ h
      → log.ran (on_command win wparam lparam h w)
        ≡ log.ran w ++ (if wparam % 2 ^ 16 == 0 then command_of h lparam else [])
  unfolding on_command
  on_command-ran wparam lparam h w differ = elim (Bool-cases (wparam % 2 ^ 16 == 0)) [
    | inl clicked ↦ rw (clicked, ← presses_one h lparam differ) (simp (press-ran, append_assoc))
    | inr not_clicked ↦ rw not_clicked (sym (append-nil (log.ran w)))
  ]

  loop-ran :
      (h : Handles) (turns rest : List Turn) (code : ℕ) (w : W)
      → Differ h
      → stays turns ≡ true
      → (w' : W) × (message_loop win (turns ++ quit code ∷ rest) (h, w) ≡ some (code, w'))
        × (log.ran w' ≡ log.ran w ++ clicks h turns)
  unfolding message_loop win_proc
  loop-ran h [] rest code w differ calm = (w, refl, sym (append-nil (log.ran w)))
  loop-ran h (message created ∷ turns) rest code w differ calm = cc
  loop-ran h (quit c ∷ turns) rest code w differ calm = cc
  loop-ran h (message (command wparam lparam) ∷ turns) rest code w differ calm =
      let (w', ends, ran) =
        loop-ran h turns rest code (on_command win wparam lparam h w) differ calm in
      (
        w',
        ends,
        ran
            ∙ ap (λ x. x ++ clicks h turns) (on_command-ran wparam lparam h w differ)
            ∙ append_assoc (log.ran w) _ (clicks h turns),
      )
  loop-ran h (message destroyed ∷ turns) rest code w differ calm =
      let (w', ends, ran) = loop-ran h turns rest code (win.post_quit_message w) differ calm in
      (w', ends, ran ∙ ap (λ x. x ++ clicks h turns) (log.post_quit_message w))
  loop-ran h (message paint ∷ turns) rest code w differ calm =
      let (w', ends, ran) = loop-ran h turns rest code (win.paint_window w) differ calm in
      (w', ends, ran ∙ ap (λ x. x ++ clicks h turns) (log.paint_window w))
  loop-ran h (message (other n) ∷ turns) rest code w differ calm =
      let (w', ends, ran) =
        loop-ran h turns rest code (win.def_window_proc (other n) w) differ calm in
      (w', ends, ran ∙ ap (λ x. x ++ clicks h turns) (log.def_window_proc (other n) w))
  loop-ran h (sleeps ∷ turns) rest code w differ calm = loop-ran h turns rest code w differ calm

  -- Once the window is open, its session ends with the code of the first `WM_QUIT`, and until then it
  -- runs just the commands of the buttons that send a notification, whichever notification that is, in
  -- their order; this if the four buttons have different handles and there is no second `WM_CREATE`.
  pub window_session-ran :
      (turns rest : List Turn) (code : ℕ) (w : W)
      → Differ (open_window win w).0
      → stays turns ≡ true
      → (w' : W) × (window_session win (turns ++ quit code ∷ rest) w ≡ some (code, w'))
        × (log.ran w' ≡ log.ran (open_window win w).1 ++ clicks (open_window win w).0 turns)
  unfolding window_session
  window_session-ran turns rest code w differ calm =
      loop-ran (open_window win w).0 turns rest code (open_window win w).1 differ calm

  run_elevated-ran : (path : Option Bytes) (w : W) → log.ran (run_elevated win path w).1 ≡ log.ran w
  run_elevated-ran none w = refl
  run_elevated-ran (some p) w = ground (
    arith,
    log.shell_execute_ex p w,
    log.message_box privileges_failed (win.shell_execute_ex p w).1,
  )

  elevate-ran : (is_admin : ℤ) (w : W) → log.ran (elevate win is_admin w).1 ≡ log.ran w
  unfolding elevate
  elevate-ran (pos n) w = ground (
    arith,
    log.get_module_file_name w,
    run_elevated-ran (win.get_module_file_name w).0 (win.get_module_file_name w).1,
  )
  elevate-ran (negsuc n) w = refl

  check_membership-ran :
      (group : Option ℕ) (w : W) → log.ran (check_membership win group w).1 ≡ log.ran w
  check_membership-ran none w = refl
  check_membership-ran (some sid) w = log.free_sid sid _ ∙ log.check_token_membership sid w

  ensure_admin-ran : (w : W) → log.ran (ensure_admin win w).1 ≡ log.ran w
  unfolding ensure_admin is_app_running_as_admin_mode
  ensure_admin-ran w =
      elevate-ran (is_app_running_as_admin_mode win w).0 _
      ∙ check_membership-ran (win.allocate_sid w).0 _
      ∙ log.allocate_sid w

  -- With an argument, "start" stops the service, and every other word starts it, also where the program
  -- is not run by an administrator, unless it ends because it has been started again as one; then it
  -- runs nothing.
  pub main_inverted :
      (program arg : Bytes) (args : List Bytes) (turns : List Turn) (w : W)
      → (w' : W) × (main win (program ∷ arg ∷ args) turns w
          ≡ some (if (ensure_admin win w).0 then 1 else 0, w'))
        × (log.ran w'
            ≡ log.ran w
              ++ (if (ensure_admin win w).0
                  then []
                  else (if bytes_eq arg (codes "start") then stop_service else start_service) ∷ []))
  unfolding main act
  main_inverted program arg args turns w = elim (Bool-cases (ensure_admin win w).0) [
    | inl exits ↦
        rw exits ((ensure_admin win w).1, refl, ensure_admin-ran w ∙ sym (append-nil (log.ran w)))
    | inr stays_on ↦
        let c : Command = if bytes_eq arg (codes "start") then stop_service else start_service in
        rw stays_on (
          run_sc win c (ensure_admin win w).1,
          rw (act, control_inverted arg) refl,
          run_sc-ran c (ensure_admin win w).1 ∙ ap (λ x. x ++ c ∷ []) (ensure_admin-ran w),
        )
  ]
