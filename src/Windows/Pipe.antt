-- ===== src/Windows/Pipe.antt =====
-- The output of the server's process, which `serviceMain` of service/windows/service.cpp copies to its
-- log: one byte in a round, as `BUFSIZE` is 1.
use socks5_proxy_sum_2022_co.Prelude.{
  ℕ, ◌≡◌, sym, ap, ◌∙◌, List, [], ◌∷◌, ◌++◌, Bytes, take, drop, take-append-drop,
}
use mathlib.Core.List.{append_assoc, append-nil}

abbrev pub buf_size : ℕ
buf_size = 1

-- What the process has written and the service has not read, and what `fwrite` has put into the log.
pub record Output : Type 0 where
  pub pipe : Bytes
  pub logfile : Bytes

-- `PeekNamedPipe`, `ReadFile` and `fwrite`; where there is nothing to read nothing is done.
unfoldable pub copy_output : Output → Output
copy_output o = record { pipe = drop buf_size o.pipe; logfile = o.logfile ++ take buf_size o.pipe }

-- The process writes, or the service makes a round.
pub data OutputEvent : Type 0 where
  writes : Bytes → OutputEvent
  copies : OutputEvent

unfoldable pub output : List OutputEvent → Output → Output
unfolding copy_output
output [] o = o
output (writes bytes ∷ evs) o = output evs (record o { pipe = o.pipe ++ bytes })
output (copies ∷ evs) o = output evs (copy_output o)

abbrev pub written : List OutputEvent → Bytes
written [] = []
written (writes bytes ∷ evs) = bytes ++ written evs
written (copies ∷ evs) = written evs

-- Whatever the process writes and whenever the service makes a round, the log and then what is still in
-- the pipe are all that was written, in its order.
pub output_kept :
    (evs : List OutputEvent) (o : Output)
    → (output evs o).logfile ++ (output evs o).pipe ≡ (o.logfile ++ o.pipe) ++ written evs
unfolding output copy_output
output_kept [] o = sym (append-nil (o.logfile ++ o.pipe))
output_kept (writes bytes ∷ evs) o =
    output_kept evs (record o { pipe = o.pipe ++ bytes }) ∙ simp append_assoc
output_kept (copies ∷ evs) o =
    output_kept evs (copy_output o)
    ∙ ap (λ x. x ++ written evs)
        (append_assoc o.logfile (take 1 o.pipe) (drop 1 o.pipe)
          ∙ ap (λ x. o.logfile ++ x) (take-append-drop 1 o.pipe))
