-- ===== src/Tests/Controls.antt =====
-- Examples for the program that controls the service, on a desktop that keeps the commands.
use socks5_proxy_sum_2022_co.Prelude.{
  ℕ, ◌+◌, ◌≡◌, ◌*◌, ◌^◌, refl, true, List, [], ◌∷◌, ◌++◌, some, codes, bytes_eq, if◌then◌else◌,
  arith,
}
use socks5_proxy_sum_2022_co.Windows.Desktop.{
  Windows, IsLogged, Command, start_service, stop_service, created, destroyed, paint, command,
}
use socks5_proxy_sum_2022_co.Windows.Controls.{
  Turn, message, quit, sleeps, open_window, window_session, ensure_admin, main,
}
use socks5_proxy_sum_2022_co.Windows.Clicks.{Differ, clicks, window_session-ran, main_inverted}

-- The commands run, and the next handle.
record Desktop : Type 0 where
  pub ran : List Command
  pub next : ℕ

-- The user is an administrator, and every call does what it is asked for.
abbrev desktop : Windows Desktop
desktop = record {
  shell_execute = λ c d. (42, record d { ran = d.ran ++ c ∷ [] });
  message_box = λ b d. d;
  allocate_sid = λ d. (some 1, d);
  check_token_membership = λ sid d. (some true, d);
  free_sid = λ sid d. d;
  get_last_error = λ d. 0;
  get_module_file_name = λ d. (some (codes "c.exe"), d);
  shell_execute_ex = λ path d. (true, d);
  register_class = λ d. (true, d);
  create_window = λ d. (created ∷ [], true, d);
  create_label = λ d. d;
  create_button = λ c d. (d.next, record d { next = d.next + 1 });
  show_window = λ d. d;
  post_quit_message = λ d. d;
  paint_window = λ d. d;
  def_window_proc = λ m d. d;
}

abbrev desktop-IsLogged : IsLogged desktop
desktop-IsLogged = record {
  ran = λ d. d.ran;
  executes = λ c d. refl;
  message_box = λ b d. refl;
  allocate_sid = λ d. refl;
  check_token_membership = λ sid d. refl;
  free_sid = λ sid d. refl;
  get_module_file_name = λ d. refl;
  shell_execute_ex = λ path d. refl;
  register_class = λ d. refl;
  create_window = λ d. refl;
  create_label = λ d. refl;
  create_button = λ c d. refl;
  show_window = λ d. refl;
  post_quit_message = λ d. refl;
  paint_window = λ d. refl;
  def_window_proc = λ m d. refl;
}

abbrev quiet : Desktop
quiet = record { ran = []; next = 10 }

-- A click of Stop, then a notification of Start that is no click.
abbrev turns : List Turn
turns =
    message paint
    ∷ message (command 0 11)
    ∷ sleeps
    ∷ message (command (6 * 2 ^ 16) 10)
    ∷ message destroyed
    ∷ []

different : Differ (open_window desktop quiet).0
unfolding open_window
different = omega arith

window_session-ran_example :
    (w' : Desktop) × (window_session desktop (turns ++ quit 0 ∷ []) quiet ≡ some (0, w'))
    × (w'.ran ≡ (open_window desktop quiet).1.ran ++ clicks (open_window desktop quiet).0 turns)
window_session-ran_example =
    window_session-ran desktop desktop-IsLogged turns [] 0 quiet different refl

-- A click and a notification that is none both run their command.
ran_both : clicks (open_window desktop quiet).0 turns ≡ stop_service ∷ start_service ∷ []
unfolding open_window
ran_both = refl

main_inverted_example :
    (w' : Desktop) × (main desktop (codes "c.exe" ∷ codes "stop" ∷ []) [] quiet
      ≡ some (if (ensure_admin desktop quiet).0 then 1 else 0, w'))
    × (w'.ran ≡ (
        if (ensure_admin desktop quiet).0
        then []
        else (if bytes_eq (codes "stop") (codes "start") then stop_service else start_service)
          ∷ []))
main_inverted_example =
    main_inverted desktop desktop-IsLogged (codes "c.exe") (codes "stop") [] [] quiet
