-- ===== src/Windows/Controls.antt =====
-- service/windows/servicecontrols.c: the program that controls the service, by its argument or by the
-- buttons of its window.
use socks5_proxy_sum_2022_co.Prelude.{
  ℕ, ◌%◌, ◌^◌, ◌==◌, Bool, true, false, not, List, [], ◌∷◌, Option, none, some, Bytes, bytes_eq,
  ltb, if◌then◌else◌, codes,
}
use socks5_proxy_sum_2022_co.World.{ℤ, pos, negsuc}
use socks5_proxy_sum_2022_co.Windows.Desktop.{
  Windows, Command, start_service, stop_service, enable_service, disable_service,
  shell_execute_returned, privileges_failed, unknown_option, class_failed, window_failed, Message,
  created, destroyed, paint, command, other,
}

-- A C condition on the result of `strcmp`, which is zero for equal texts.
abbrev pub strcmp : Bytes → Bytes → Bool
strcmp a b = not (bytes_eq a b)

-- The command that an argument runs; `none` is an option that is not recognised.
unfoldable pub control : Bytes → Option Command
control arg =
    if strcmp arg (codes "start")
    then some start_service
    else if strcmp arg (codes "stop")
    then some stop_service
    else if strcmp arg (codes "enable")
    then some enable_service
    else if strcmp arg (codes "disable")
    then some disable_service
    else none

-- The global handles; 0 is the null handle.
pub record Handles : Type 0 where
  pub h_button_start : ℕ
  pub h_button_stop : ℕ
  pub h_button_enable : ℕ
  pub h_button_disable : ℕ

-- A round of the loop of `windowSession`: `PeekMessage` has `WinProc` called for a message, it gives
-- `WM_QUIT` with its code, or there is none, and the program sleeps. The messages that `ShowWindow`
-- sends stand first.
pub data Turn : Type 0 where
  message : Message → Turn
  quit : ℕ → Turn
  sleeps : Turn

module _ {W : Type 0} (win : Windows W) where
  -- The result as a C number, from what `CheckTokenMembership` gave and the last error: -1 is an error,
  -- and `ERROR_SUCCESS` is 0.
  abbrev pub admin_result : Option Bool → ℕ → ℤ
  admin_result none dw_error = if dw_error == 0 then pos 0 else negsuc 0
  admin_result (some is_admin) dw_error = if is_admin then pos 1 else pos 0

  abbrev pub check_membership : Option ℕ → W → ℤ × W
  check_membership none w = (admin_result none (win.get_last_error w), w)
  check_membership (some sid) w =
      let (member, w1) = win.check_token_membership sid w in
      (admin_result member (win.get_last_error w1), win.free_sid sid w1)

  unfoldable pub is_app_running_as_admin_mode : W → ℤ × W
  is_app_running_as_admin_mode w = let (group, w1) = win.allocate_sid w in check_membership group w1

  unfoldable pub wrap_result : ℕ → W → W
  wrap_result r w = if ltb r 33 then win.message_box (shell_execute_returned r) w else w

  unfoldable pub run_sc : Command → W → W
  unfolding wrap_result
  run_sc c w = let (r, w1) = win.shell_execute c w in wrap_result r w1

  -- The start of the program again, as administrator; the result says whether this one ends by
  -- `_exit(1)`. `ERROR_CANCELLED` is 1223.
  abbrev pub run_elevated : Option Bytes → W → Bool × W
  run_elevated none w = (false, w)
  run_elevated (some sz_path) w =
      let (done, w1) = win.shell_execute_ex sz_path w in
      if done
      then (true, w1)
      else if win.get_last_error w1 == 1223
      then (false, win.message_box privileges_failed w1)
      else (false, w1)

  -- The body of the first `if` of `main`, and the `if`: every number but 0 is taken for an administrator.
  unfoldable pub elevate : ℤ → W → Bool × W
  elevate (pos n) w =
      let (path, w1) = win.get_module_file_name w in
      if n == 0 then run_elevated path w1 else (false, w)
  elevate (negsuc n) w = (false, w)

  unfoldable pub ensure_admin : W → Bool × W
  unfolding is_app_running_as_admin_mode elevate
  ensure_admin w = let (is_admin, w1) = is_app_running_as_admin_mode w in elevate is_admin w1

  unfoldable pub press : Bool → Command → W → W
  unfolding run_sc
  press pressed c w = if pressed then run_sc c w else w

  -- `BN_CLICKED` is 0. The four tests follow one another.
  unfoldable pub on_command : ℕ → ℕ → Handles → W → W
  unfolding press
  on_command wparam lparam h w =
      if wparam % 2 ^ 16 == 0
      then press (lparam == h.h_button_disable) disable_service (
          press (lparam == h.h_button_enable) enable_service (
            press (lparam == h.h_button_stop) stop_service
              (press (lparam == h.h_button_start) start_service w)))
      else w

  unfoldable pub create_buttons : W → Handles × W
  create_buttons w =
      let (button_start, w1) = win.create_button start_service (win.create_label w) in
      let (button_stop, w2) = win.create_button stop_service w1 in
      let (button_enable, w3) = win.create_button enable_service w2 in
      let (button_disable, w4) = win.create_button disable_service w3 in
      (
        record {
          h_button_start = button_start;
          h_button_stop = button_stop;
          h_button_enable = button_enable;
          h_button_disable = button_disable;
        },
        w4,
      )

  -- `WinProc`; its result, which it never sets, is left out.
  unfoldable pub win_proc : Message → Handles × W → Handles × W
  unfolding create_buttons on_command
  win_proc created (h, w) = create_buttons w
  win_proc (command wparam lparam) (h, w) = (h, on_command wparam lparam h w)
  win_proc destroyed (h, w) = (h, win.post_quit_message w)
  win_proc paint (h, w) = (h, win.paint_window w)
  win_proc (other n) (h, w) = (h, win.def_window_proc (other n) w)

  unfoldable pub win_proc_all : List Message → Handles × W → Handles × W
  unfolding win_proc
  win_proc_all [] s = s
  win_proc_all (m ∷ ms) s = win_proc_all ms (win_proc m s)

  abbrev pub no_handles : Handles
  no_handles = record {
    h_button_start = 0;
    h_button_stop = 0;
    h_button_enable = 0;
    h_button_disable = 0;
  }

  -- `windowSession` before its loop.
  unfoldable pub open_window : W → Handles × W
  unfolding win_proc_all
  open_window w =
      let (registered, w1) = win.register_class w in
      let w2 = if registered then w1 else win.message_box class_failed w1 in
      let (sent, made, w3) = win.create_window w2 in
      let (h, w4) = win_proc_all sent (no_handles, w3) in
      (h, win.show_window (if made then w4 else win.message_box window_failed w4))

  -- The loop over the rounds that there are; `none` is a loop that goes on behind them.
  unfoldable pub message_loop : List Turn → Handles × W → Option (ℕ × W)
  unfolding win_proc
  message_loop [] s = none
  message_loop (message m ∷ turns) s = message_loop turns (win_proc m s)
  message_loop (quit code ∷ turns) s = some (code, s.1)
  message_loop (sleeps ∷ turns) s = message_loop turns s

  unfoldable pub window_session : List Turn → W → Option (ℕ × W)
  unfolding open_window message_loop
  window_session turns w = message_loop turns (open_window w)

  -- `main` behind its first `if`; the arguments have the name of the program first.
  unfoldable pub act : List Bytes → List Turn → W → Option (ℕ × W)
  unfolding window_session control run_sc
  act (program ∷ arg ∷ args) turns w = elim (control arg) [
    | none ↦ some (0, win.message_box unknown_option w)
    | some c ↦ some (0, run_sc c w)
  ]
  act argv turns w = window_session turns w

  unfoldable pub main : List Bytes → List Turn → W → Option (ℕ × W)
  unfolding ensure_admin act
  main argv turns w =
      let (exits, w1) = ensure_admin w in if exits then some (1, w1) else act argv turns w1
