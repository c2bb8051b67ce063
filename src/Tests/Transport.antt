-- ===== src/Tests/Transport.antt =====
-- src/runtime: connections, lines and sessions of the gateway and its shell.
use phantom_runtime_lite.Prelude.{
  ◌≤◌, ◌+◌, ℕ, Bool, true, false, Option, none, some, List, [], ◌∷◌, ◌++◌, map, All, ◌==◌, nat_eq,
  leb, string_eq, contains, ◌≡◌, refl, arith,
}
use phantom_runtime_lite.Conversation.Text.{
  Text, codes, Unicode, text_eq, strip_by, drop_while, drop_end, keep_end,
}
use phantom_runtime_lite.Gateway.Provider.{
  selected, rejected, missing_provider, select_provider_from_query, select_values, check_stripped,
  check_supported,
}
use phantom_runtime_lite.Gateway.Lines.{
  Bytes, Read, read, stopped, split_line, take_lines, receive, pump_events,
}
use phantom_runtime_lite.Gateway.Lines.Splitting.{IsEvent, pump_events-print}
use phantom_runtime_lite.Gateway.Shell.{
  Answers, RuntimeSession, teardown, spawn_session, with_audio, with_event, with_control, started,
  closed_by, Shell, healthy, handle_sigterm, Ending, Happening, sigterm, main_loop, run_main,
}
use phantom_runtime_lite.Gateway.Shell.Descriptors.{
  FreshPipes, Balanced, spawn_session-Balanced, teardown-spawn_session,
}
use phantom_runtime_lite.Gateway.Shell.Shutdown.{reaches, shutdown-ends}
use phantom_runtime_lite.Gateway.Sessions.{
  Step, arrive, spawn, attach_session, message, disconnect, finish, shell_teardown, text, new_world,
  arrived, relaying, released, run_steps, step, on_arrive, enter, claim, on_spawn, attempt,
  on_attach, attach, on_message, relay,
}
use phantom_runtime_lite.Gateway.Sessions.Exclusive.{IsExclusive}
use phantom_runtime_lite.Gateway.Sessions.Steps.{run_steps-IsExclusive}
use phantom_runtime_lite.Gateway.Sessions.Admission.{
  Claims, is_selected, selection_of, reconnect-Claims,
}

abbrev ascii : Unicode
ascii = record { is_space = λ c. c == 32; is_alpha = λ c. leb 65 c; lower = λ t. t }

-- Every query names the provider gemini.
abbrev gemini_values : Text → Option (List Text)
gemini_values query = some (codes " gemini" ∷ [])

abbrev three_pipes : Answers
three_pipes = record {
  audio = some (3, 4);
  event = some (5, 6);
  control = some (7, 8);
  popen = some 99;
}

abbrev no_third_pipe : Answers
no_third_pipe = record three_pipes { control = none }

abbrev standard_fds : List ℕ
standard_fds = 0 ∷ 1 ∷ 2 ∷ []

abbrev session_99 : RuntimeSession
session_99 = record {
  child = 99;
  audio_fd_w = 4;
  event_fd_r = 5;
  control_fd_w = 8;
  torn_down = false;
}

-- The first client is served while a second one is refused.
abbrev first_served : List Step
first_served =
    arrive 1 (selected (codes "gemini"))
    ∷ spawn 1 three_pipes standard_fds
    ∷ arrive 2 (selected (codes "openai"))
    ∷ attach_session 1
    ∷ message 1 (text (codes "{}")) true
    ∷ []

abbrev all_over : List Step
all_over =
    disconnect 1 ∷ shell_teardown true ∷ finish 1 false ∷ arrive 3 (rejected missing_provider) ∷ []

first_relays : ((run_steps first_served new_world).handlers 1).phase ≡ relaying
unfolding run_steps step on_arrive enter claim on_spawn spawn_session with_audio with_event
    with_control started attempt on_attach attach on_message relay nat_eq
first_relays = refl

third_waits : ((run_steps first_served new_world).handlers 3).phase ≡ arrived
unfolding run_steps step on_arrive enter claim on_spawn spawn_session with_audio with_event
    with_control started attempt on_attach attach on_message relay nat_eq
third_waits = refl

third_selects : is_selected (selection_of ascii gemini_values (codes "/ws")) ≡ true
unfolding select_provider_from_query select_values check_stripped check_supported strip_by
    drop_while drop_end keep_end nat_eq text_eq
third_selects = refl

run_steps-IsExclusive_example : IsExclusive (run_steps (first_served ++ all_over) new_world)
run_steps-IsExclusive_example = run_steps-IsExclusive (first_served ++ all_over)

reconnect-Claims_example :
    Claims ascii gemini_values
      (step (disconnect 1) (run_steps first_served new_world))
      3
      (codes "/ws")
    × (((step (disconnect 1) (run_steps first_served new_world)).handlers 1).phase ≡ released)
reconnect-Claims_example =
    reconnect-Claims ascii gemini_values first_served 1 3 (codes "/ws") first_relays third_waits
      third_selects

abbrev two_chunks : List Read
two_chunks = read (97 ∷ 98 ∷ []) ∷ read (99 ∷ 10 ∷ 10 ∷ 100 ∷ []) ∷ read (10 ∷ []) ∷ stopped ∷ []

abbrev two_events : List Bytes
two_events = (97 ∷ 98 ∷ 99 ∷ []) ∷ (100 ∷ []) ∷ []

events_read : pump_events (λ line. line) [] two_chunks ≡ two_events
unfolding pump_events receive take_lines split_line nat_eq
events_read = refl

abbrev printed_chunks : List Read
printed_chunks = read (97 ∷ 98 ∷ []) ∷ read (99 ∷ 10 ∷ 100 ∷ []) ∷ read (10 ∷ []) ∷ []

are_events : All IsEvent two_events
unfolding nat_eq
are_events = (((λ p. absurd (cc p)), refl), (((λ p. absurd (cc p)), refl), tt))

pump_events-print_example :
    pump_events (λ line. line) [] printed_chunks ≡ map (λ line. line) two_events
pump_events-print_example =
    pump_events-print (λ line. line) two_events printed_chunks are_events refl

three_fresh : FreshPipes three_pipes standard_fds
unfolding nat_eq
three_fresh = ((refl, refl), ((refl, refl), (refl, refl)))

two_fresh : FreshPipes no_third_pipe standard_fds
unfolding nat_eq
two_fresh = ((refl, refl), ((refl, refl), tt))

spawned_99 : (spawn_session three_pipes standard_fds).0 ≡ some session_99
unfolding spawn_session with_audio with_event with_control started
spawned_99 = refl

spawn_session-Balanced_example : Balanced standard_fds (spawn_session no_third_pipe standard_fds)
spawn_session-Balanced_example = spawn_session-Balanced no_third_pipe standard_fds two_fresh

teardown-spawn_session_example :
    ((y : ℕ)
      → contains
          (closed_by (teardown false session_99).1 (spawn_session three_pipes standard_fds).1)
          y
        ≡ contains standard_fds y)
    × ((again : Bool) → (teardown again (teardown false session_99).0).1 ≡ [])
teardown-spawn_session_example =
    teardown-spawn_session three_pipes standard_fds false session_99 three_fresh spawned_99

abbrev serving : Shell
serving = record { readiness = healthy; marked_healthy = true; shutdown_deadline = none }

-- The child neither exits after SIGINT nor dies in time.
abbrev stubborn : Ending
stubborn = record { torn_down = false; exits = none; dies = none }

abbrev waiting_rounds : List Happening
waiting_rounds =
    main_loop 8 8 (some false) stubborn
    ∷ sigterm 12
    ∷ main_loop 13 13 (some false) stubborn
    ∷ main_loop 18 18 (some false) stubborn
    ∷ []

rounds_suffice : reaches (7 + 10) waiting_rounds ≡ true
rounds_suffice = refl

shutdown-ends_example :
    (x : ℕ) × (run_main 5 10 2 waiting_rounds (handle_sigterm 10 7 serving).0 ≡ some x)
    × (x ≤ (7 + 10) + 5 + (10 + 2))
shutdown-ends_example =
    shutdown-ends 5 10 2 7 5 serving waiting_rounds refl
      (omega arith, (omega arith, (omega arith, tt))) rounds_suffice

left_at_30 : run_main 5 10 2 waiting_rounds (handle_sigterm 10 7 serving).0 ≡ some 30
unfolding run_main
left_at_30 = refl
