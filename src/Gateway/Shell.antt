-- ===== src/Gateway/Shell.antt =====
-- src/runtime/cloud_run_shell.py: the readiness, the spawning and the teardown of a session with the
-- file descriptors of the process, and the main loop. `os.pipe`, `subprocess.Popen` and the clock are
-- arguments: what they return.
pub mod Table
pub mod Descriptors
pub mod Shutdown
use phantom_runtime_lite.Prelude.{
  ℕ, ◌+◌, String, Bool, true, false, not, ◌&&◌, Option, none, some, List, [], ◌∷◌, ◌++◌, ◌==◌,
  nat_eq, string_eq, leb, min, if◌then◌else◌,
}

pub record RuntimeSession : Type 0 where
  pub child : ℕ
  pub audio_fd_w : ℕ
  pub event_fd_r : ℕ
  pub control_fd_w : ℕ
  pub torn_down : Bool

-- The calls that a teardown makes; the seconds of a wait are named.
pub data Patience : Type 0 where
  shutdown_grace : Patience
  kill_wait : Patience

pub data Call : Type 0 where
  send_sigint : ℕ → Call
  wait : ℕ → Patience → Call
  kill : ℕ → Call
  close : ℕ → Call

unfoldable pub stop_child : Bool → ℕ → List Call
stop_child true child = send_sigint child ∷ wait child shutdown_grace ∷ []
stop_child false child =
    send_sigint child ∷ wait child shutdown_grace ∷ kill child ∷ wait child kill_wait ∷ []

-- `RuntimeSession.teardown`; the first argument tells if the child exits within the grace.
unfoldable pub teardown : Bool → RuntimeSession → RuntimeSession × List Call
unfolding stop_child
teardown exits s = if s.torn_down then (s, []) else (
  record s { torn_down = true },
  stop_child exits s.child ++ (close s.audio_fd_w ∷ close s.event_fd_r ∷ close s.control_fd_w ∷ []),
)

-- The open descriptors of the process, and `_close_fd`, which ignores one that is not open.
unfoldable pub close_fd : ℕ → List ℕ → List ℕ
close_fd fd [] = []
close_fd fd (x ∷ xs) = let rest = close_fd fd xs in if x == fd then rest else x ∷ rest

unfoldable pub close_fds : List ℕ → List ℕ → List ℕ
unfolding close_fd
close_fds [] table = table
close_fds (fd ∷ fds) table = close_fds fds (close_fd fd table)

unfoldable pub closed_by : List Call → List ℕ → List ℕ
unfolding close_fd
closed_by [] table = table
closed_by (close fd ∷ calls) table = closed_by calls (close_fd fd table)
closed_by (send_sigint c ∷ calls) table = closed_by calls table
closed_by (wait c p ∷ calls) table = closed_by calls table
closed_by (kill c ∷ calls) table = closed_by calls table

-- What the operating system answers during a spawn: the three pipes (read end, write end) and the
-- process, `none` for an exception.
pub record Answers : Type 0 where
  pub audio : Option (ℕ × ℕ)
  pub event : Option (ℕ × ℕ)
  pub control : Option (ℕ × ℕ)
  pub popen : Option ℕ

-- The `except` branch: no child has been started, since nothing follows `Popen` in the `try`.
unfoldable pub abandon : List ℕ → List ℕ → Option RuntimeSession × List ℕ
unfolding close_fds
abandon opened table = (none, close_fds opened table)

unfoldable pub started : Option ℕ → ℕ × ℕ → ℕ × ℕ → ℕ × ℕ → List ℕ → Option RuntimeSession × List ℕ
unfolding abandon close_fds
started none (ar, aw) (er, ew) (cr, cw) table = abandon (ar ∷ aw ∷ er ∷ ew ∷ cr ∷ cw ∷ []) table
started (some child) (ar, aw) (er, ew) (cr, cw) table = (
  some (record {
    child = child;
    audio_fd_w = aw;
    event_fd_r = er;
    control_fd_w = cw;
    torn_down = false;
  }),
  close_fds (ar ∷ ew ∷ cr ∷ []) table,
)

unfoldable pub with_control :
    Answers → ℕ × ℕ → ℕ × ℕ → Option (ℕ × ℕ) → List ℕ → Option RuntimeSession × List ℕ
unfolding abandon started
with_control a (ar, aw) (er, ew) none table = abandon (ar ∷ aw ∷ er ∷ ew ∷ []) table
with_control a audio event (some (cr, cw)) table =
    started a.popen audio event (cr, cw) (cw ∷ cr ∷ table)

unfoldable pub with_event :
    Answers → ℕ × ℕ → Option (ℕ × ℕ) → List ℕ → Option RuntimeSession × List ℕ
unfolding abandon with_control
with_event a (ar, aw) none table = abandon (ar ∷ aw ∷ []) table
with_event a audio (some (er, ew)) table = with_control a audio (er, ew) a.control (ew ∷ er ∷ table)

unfoldable pub with_audio : Answers → Option (ℕ × ℕ) → List ℕ → Option RuntimeSession × List ℕ
unfolding abandon with_event
with_audio a none table = abandon [] table
with_audio a (some (ar, aw)) table = with_event a (ar, aw) a.event (aw ∷ ar ∷ table)

-- `_spawn_session`: the session, or `none` for `SessionSpawnError`, and the open descriptors.
unfoldable pub spawn_session : Answers → List ℕ → Option RuntimeSession × List ℕ
unfolding with_audio
spawn_session a table = with_audio a a.audio table

-- `_forward_args`
unfoldable pub forward_args : List String → List String
forward_args [] = []
forward_args (first ∷ rest) = if first == "--" then rest else []

pub data Readiness : Type 0 where
  starting : Readiness
  healthy : Readiness
  shutting_down : Readiness

unfoldable pub is_ready : Readiness → Bool
is_ready healthy = true
is_ready _ = false

-- The variables of `main`, with the readiness.
pub record Shell : Type 0 where
  pub readiness : Readiness
  pub marked_healthy : Bool
  pub shutdown_deadline : Option ℕ

-- The first SIGTERM sets the deadline and sends SIGINT to the child of the active session.
unfoldable pub first_sigterm : (grace now : ℕ) → Option ℕ → Shell → Shell × Bool
first_sigterm grace now none s = (record s { shutdown_deadline = some (now + grace) }, true)
first_sigterm grace now (some deadline) s = (s, false)

-- `_handle_sigterm`: the new state, and whether SIGINT is due.
unfoldable pub handle_sigterm : (grace now : ℕ) → Shell → Shell × Bool
unfolding first_sigterm
handle_sigterm grace now s =
    first_sigterm grace now s.shutdown_deadline (record s { readiness = shutting_down })

unfoldable pub note_health : (startup_deadline now : ℕ) → Shell → Shell
note_health startup_deadline now s =
    if not s.marked_healthy && leb startup_deadline now
    then record s { readiness = healthy; marked_healthy = true }
    else s

-- What the loop does next.
pub data Next : Type 0 where
  sleep : Next
  leave : Next
  tear_down_and_leave : Next

-- The active session, if there is one: has its child exited?
unfoldable pub shutdown_step : (now : ℕ) → Option ℕ → Option Bool → Next
shutdown_step now none session = sleep
shutdown_step now (some deadline) none = leave
shutdown_step now (some deadline) (some true) = tear_down_and_leave
shutdown_step now (some deadline) (some false) =
    if leb deadline now then tear_down_and_leave else sleep

-- A round of the loop of `main`, which reads the clock twice.
unfoldable pub main_round : (startup_deadline now later : ℕ) → Option Bool → Shell → Shell × Next
unfolding note_health shutdown_step
main_round startup_deadline now later session s =
    let s' = note_health startup_deadline now s in
    (s', shutdown_step later s'.shutdown_deadline session)

-- What the child does during a teardown: whether another call has torn the session down before, and
-- how long after SIGINT and after SIGKILL the child exits, if it does.
pub record Ending : Type 0 where
  pub torn_down : Bool
  pub exits : Option ℕ
  pub dies : Option ℕ

abbrev pub is_within : ℕ → Option ℕ → Bool
is_within limit none = false
is_within limit (some time) = leb time limit

-- How long `child.wait(timeout=limit)` blocks.
abbrev pub wait_time : ℕ → Option ℕ → ℕ
wait_time limit none = limit
wait_time limit (some time) = min time limit

-- How long `RuntimeSession.teardown` blocks.
unfoldable pub teardown_time : (grace last_wait : ℕ) → Ending → ℕ
teardown_time grace last_wait e =
    if e.torn_down
    then 0
    else if is_within grace e.exits
    then wait_time grace e.exits
    else grace + wait_time last_wait e.dies

-- When the loop is left, if it is.
unfoldable pub left_at : (grace last_wait later : ℕ) → Ending → Next → Option ℕ
unfolding teardown_time
left_at grace last_wait later e sleep = none
left_at grace last_wait later e leave = some later
left_at grace last_wait later e tear_down_and_leave = some (later + teardown_time grace last_wait e)

-- A SIGTERM at its time, or a round with its two readings of the clock, the active session and what a
-- teardown would meet.
pub data Happening : Type 0 where
  sigterm : ℕ → Happening
  main_loop : ℕ → ℕ → Option Bool → Ending → Happening

abbrev pub or_later : Option ℕ → Option ℕ → Option ℕ
or_later none later = later
or_later (some time) later = some time

-- The loop of `main`, with the signals that come in between: when it is left.
unfoldable pub run_main : (startup_deadline grace last_wait : ℕ) → List Happening → Shell → Option ℕ
unfolding main_round handle_sigterm left_at
run_main startup_deadline grace last_wait [] s = none
run_main startup_deadline grace last_wait (sigterm now ∷ hs) s =
    run_main startup_deadline grace last_wait hs (handle_sigterm grace now s).0
run_main startup_deadline grace last_wait (main_loop now later session e ∷ hs) s =
    let (s', next) = main_round startup_deadline now later session s in
    or_later (left_at grace last_wait later e next)
      (run_main startup_deadline grace last_wait hs s')
