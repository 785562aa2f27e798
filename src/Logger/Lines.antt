-- ===== src/Logger/Lines.antt =====
-- What the log writes: the messages of the levels that it lets through, in the order in which they
-- were posted.
use socks5_proxy_sum_2022_co.Prelude.{
  ℕ, ◌-◌, ◌≡◌, ◌≤◌, inl, inr, refl, sym, ap, ◌∙◌, true, false, ◌||◌, List, [], ◌∷◌, ◌++◌, some,
  Bytes, ◌==◌, Bool-cases, All, arith, get_elem?, get_elem?-below,
}
use mathlib.Core.List.{append_assoc}
use mathlib.Core.Path.{subst}
use socks5_proxy_sum_2022_co.Logger.{
  Logger, Line, LogLevel, get_current_time, to_file, to_console, to_file, to_console,
  log_level_prefix, trace_log, console_log, file_log, enable_log, log_task, run_tasks, log, join,
}
use socks5_proxy_sum_2022_co.Logger.Streams.{
  said, is_let_through, prefix_of-there, passing, when, IsLevel, said-append, when-nil, append_nil,
  follow, passing-cons, type-cases,
}

module _ (ctime : ℕ → Bytes) where
  -- The log `l'` is `l` with these messages in the streams that its type names.
  abbrev pub Wrote : Logger → List (Bytes × Bytes) → Logger → Type 0
  Wrote l messages l' =
      (said l'.file ≡ said l.file ++ when (l.type == file_log || l.type == enable_log) messages)
      × (said l'.console
          ≡ said l.console ++ when (l.type == console_log || l.type == enable_log) messages)
      × (l'.level ≡ l.level)
      × (l'.type ≡ l.type)
      × (l'.tasks ≡ l.tasks)

  Wrote-nothing : (l : Logger) → Wrote l [] l
  Wrote-nothing l = (
    rw when-nil (sym (append_nil (said l.file))),
    rw when-nil (sym (append_nil (said l.console))),
    refl,
    refl,
    refl,
  )

  log_task-blocked :
      (text : Bytes) (level : LogLevel) (l : Logger)
      → is_let_through l.level level ≡ false
      → log_task ctime text level l ≡ some l
  unfolding log_task
  log_task-blocked text level l blocked = rw (log_task, blocked) refl

  -- One line more on a stream.
  abbrev Adds : Bytes → Bytes → List Line → List Line → Type 0
  Adds prefix text before after = said after ≡ said before ++ (prefix, text) ∷ []

  to_file-Adds :
      (prefix text : Bytes) (l : Logger)
      → Adds prefix text l.file (to_file ctime prefix text l).file
  unfolding get_current_time
  to_file-Adds prefix text l = said-append l.file _

  to_console-Adds :
      (prefix text : Bytes) (l : Logger)
      → Adds prefix text l.console (to_console ctime prefix text l).console
  unfolding get_current_time
  to_console-Adds prefix text l = said-append l.console _

  log_task-written :
      (text : Bytes) (level : LogLevel) (prefix : Bytes) (l : Logger)
      → is_let_through l.level level ≡ true
      → get_elem? log_level_prefix (level - 1) ≡ some prefix
      → (l' : Logger) × (log_task ctime text level l ≡ some l') × Wrote l ((prefix, text) ∷ []) l'
  unfolding log_task get_current_time
  log_task-written text level prefix l passes there = elim (type-cases l.type) [
    | inl is_console ↦ (
      to_console ctime prefix text l,
      rw (log_task, passes, there, is_console) refl,
      (
        rw is_console (sym (append_nil (said l.file))),
        rw is_console (to_console-Adds prefix text l),
        refl,
        refl,
        refl,
      ),
    )
    | inr (inl is_file) ↦ (
      to_file ctime prefix text l,
      rw (log_task, passes, there, is_file) refl,
      (
        rw is_file (to_file-Adds prefix text l),
        rw is_file (sym (append_nil (said l.console))),
        refl,
        refl,
        refl,
      ),
    )
    | inr (inr (inl is_enable)) ↦ (
      to_console ctime prefix text (to_file ctime prefix text l),
      rw (log_task, passes, there, is_enable) refl,
      (
        rw is_enable (to_file-Adds prefix text l),
        rw is_enable (to_console-Adds prefix text (to_file ctime prefix text l)),
        refl,
        refl,
        refl,
      ),
    )
    | inr (inr (inr (no_console, no_file, no_enable))) ↦ (
      l,
      rw (log_task, passes, there, no_console, no_file, no_enable) refl,
      (
        rw (no_file, no_enable) (sym (append_nil (said l.file))),
        rw (no_console, no_enable) (sym (append_nil (said l.console))),
        refl,
        refl,
        refl,
      ),
    )
  ]

  log_task-Wrote :
      (text : Bytes) (level : LogLevel) (tasks : List (Bytes × LogLevel)) (l : Logger)
      → level ≤ trace_log
      → (l' : Logger) × (log_task ctime text level l ≡ some l')
        × Wrote l (passing l.level ((text, level) ∷ [])) l'
  log_task-Wrote text level tasks l small = elim (Bool-cases (is_let_through l.level level)) [
    | inr blocked ↦ (l, log_task-blocked text level l blocked, rw blocked (Wrote-nothing l))
    | inl passes ↦
        let (prefix, there) = get_elem?-below log_level_prefix (level - 1) (omega arith) in
        let (l', gives, wrote) = log_task-written text level prefix l passes there in
        (l', gives, rw (passes, prefix_of-there level prefix there) wrote)
  ]

  Wrote-append :
      (l₀ l₁ l₂ : Logger) (xs ys : List (Bytes × Bytes))
      → Wrote l₀ xs l₁
      → Wrote l₁ ys l₂
      → Wrote l₀ (xs ++ ys) l₂
  Wrote-append l₀ l₁ l₂ xs ys (file₁, console₁, level₁, type₁, tasks₁)
        (file₂, console₂, level₂, type₂, tasks₂) =
      (
        follow (l₀.type == file_log || l₀.type == enable_log) _ _ _ xs ys file₁ (rw type₁ at file₂),
        follow (l₀.type == console_log || l₀.type == enable_log) _ _ _ xs ys console₁
            (rw type₁ at console₂),
        level₂ ∙ level₁,
        type₂ ∙ type₁,
        tasks₂ ∙ tasks₁,
      )

  run_tasks-Wrote :
      (tasks : List (Bytes × LogLevel)) (l : Logger)
      → All IsLevel tasks
      → (l' : Logger) × (run_tasks ctime tasks l ≡ some l') × Wrote l (passing l.level tasks) l'
  unfolding run_tasks
  run_tasks-Wrote [] l h = (l, refl, Wrote-nothing l)
  run_tasks-Wrote ((text, level) ∷ tasks) l (small, h) =
      let (l₁, gives, wrote) = log_task-Wrote text level tasks l small in
      let (l₂, gives', wrote') = run_tasks-Wrote tasks l₁ h in
      (
        l₂,
        rw (run_tasks, gives) gives',
        rw (passing-cons l.level (text, level) tasks) (
            Wrote-append l l₁ l₂ (passing l.level ((text, level) ∷ [])) (passing l.level tasks)
              wrote (subst (λ v. Wrote l₁ (passing v tasks) l₂) wrote.2 wrote')),
      )

abbrev pub log_all : List (Bytes × LogLevel) → Logger → Logger
log_all [] l = l
log_all ((text, level) ∷ messages) l = log_all messages (log text level l)

log_all-tasks :
    (messages : List (Bytes × LogLevel)) (l : Logger)
    → log_all messages l ≡ record l { tasks = l.tasks ++ messages }
unfolding log
log_all-tasks [] l = rw append_nil refl
log_all-tasks ((text, level) ∷ messages) l =
    log_all-tasks messages (log text level l)
    ∙ ap (λ x. record l { tasks = x }) (append_assoc l.tasks ((text, level) ∷ []) messages)

-- Once the worker is joined, the streams that the type names have grown by the messages, those that
-- waited first, which the log's level lets through, in the order in which they were posted, each with
-- its level's prefix; this for messages of the levels up to TRACE.
pub join-log_all :
    (ctime : ℕ → Bytes) (messages : List (Bytes × LogLevel)) (l : Logger)
    → All IsLevel (l.tasks ++ messages)
    → (l' : Logger) × (join ctime (log_all messages l) ≡ some l')
      × Wrote ctime (record l { tasks = [] }) (passing l.level (l.tasks ++ messages)) l'
unfolding join
join-log_all ctime messages l h =
    let (l', gives, wrote) =
      run_tasks-Wrote ctime (l.tasks ++ messages) (record l { tasks = [] }) h in
    (l', rw (log_all-tasks messages l) gives, wrote)
