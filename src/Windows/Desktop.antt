-- ===== src/Windows/Desktop.antt =====
-- What service/windows/servicecontrols.c calls of Windows, over a state `W` of the desktop.
use socks5_proxy_sum_2022_co.Prelude.{ℕ, ◌≡◌, Bool, List, [], ◌∷◌, ◌++◌, Option, Bytes}

-- What `sc.exe` is run with.
pub data Command : Type 0 where
  start_service stop_service enable_service disable_service : Command

-- The texts of the message boxes.
pub data Box : Type 0 where
  shell_execute_returned : ℕ → Box
  privileges_failed unknown_option class_failed window_failed : Box

-- The messages that `WinProc` tells apart; those of `WM_COMMAND` have `wparam` and `lparam`.
pub data Message : Type 0 where
  created destroyed paint : Message
  command : ℕ → ℕ → Message
  other : ℕ → Message

pub record Windows (W : Type 0) : Type 0 where
  -- `ShellExecute` of `sc.exe`, and `MessageBox`.
  pub shell_execute : Command → W → ℕ × W
  pub message_box : Box → W → W
  -- `AllocateAndInitializeSid` of the administrators' group, which gives a pointer or fails,
  -- `CheckTokenMembership`, which gives an answer or fails, and `FreeSid`.
  pub allocate_sid : W → Option ℕ × W
  pub check_token_membership : ℕ → W → Option Bool × W
  pub free_sid : ℕ → W → W
  pub get_last_error : W → ℕ
  -- `GetModuleFileName`, and `ShellExecuteEx` of that file with the verb `runas`.
  pub get_module_file_name : W → Option Bytes × W
  pub shell_execute_ex : Bytes → W → Bool × W
  pub register_class : W → Bool × W
  -- `CreateWindowEx`: the messages that it sends to `WinProc` before it returns, whether it gives a
  -- window, and the state.
  pub create_window : W → List Message × Bool × W
  -- The label, and a button with its command: its handle is 0 if there is none.
  pub create_label : W → W
  pub create_button : Command → W → ℕ × W
  pub show_window : W → W
  pub post_quit_message : W → W
  pub paint_window : W → W
  pub def_window_proc : Message → W → W

-- The commands that have been run; no other call runs one.
pub record IsLogged {W : Type 0} (win : Windows W) : Type 0 where
  pub ran : W → List Command
  pub executes : (c : Command) (w : W) → ran (win.shell_execute c w).1 ≡ ran w ++ c ∷ []
  pub message_box : (b : Box) (w : W) → ran (win.message_box b w) ≡ ran w
  pub allocate_sid : (w : W) → ran (win.allocate_sid w).1 ≡ ran w
  pub check_token_membership : (sid : ℕ) (w : W) → ran (win.check_token_membership sid w).1 ≡ ran w
  pub free_sid : (sid : ℕ) (w : W) → ran (win.free_sid sid w) ≡ ran w
  pub get_module_file_name : (w : W) → ran (win.get_module_file_name w).1 ≡ ran w
  pub shell_execute_ex : (path : Bytes) (w : W) → ran (win.shell_execute_ex path w).1 ≡ ran w
  pub register_class : (w : W) → ran (win.register_class w).1 ≡ ran w
  pub create_window : (w : W) → ran (win.create_window w).2 ≡ ran w
  pub create_label : (w : W) → ran (win.create_label w) ≡ ran w
  pub create_button : (c : Command) (w : W) → ran (win.create_button c w).1 ≡ ran w
  pub show_window : (w : W) → ran (win.show_window w) ≡ ran w
  pub post_quit_message : (w : W) → ran (win.post_quit_message w) ≡ ran w
  pub paint_window : (w : W) → ran (win.paint_window w) ≡ ran w
  pub def_window_proc : (m : Message) (w : W) → ran (win.def_window_proc m w) ≡ ran w
