-- ===== src/Gateway/Sessions.antt =====
-- src/runtime/transport_gateway.py: `_process_request`, `_handler` and `_finish_disconnect`. A
-- connection is a number, and a session is named by the connection whose handler spawned it. The
-- trace output and the tasks are left out.
pub mod Exclusive
pub mod Slot
pub mod Steps
pub mod Admission
use phantom_runtime_lite.Prelude.{
  ℕ, Bool, true, false, Option, none, some, List, [], ◌∷◌, ◌++◌, ◌==◌, nat_eq, contains,
  if◌then◌else◌,
}
use phantom_runtime_lite.Conversation.Text.{Text, codes, Unicode, text_eq}
use phantom_runtime_lite.Gateway.Lines.{Bytes, newline}
use phantom_runtime_lite.Gateway.Provider.{
  Rejection, Selection, selected, rejected, select_provider_from_query,
}
use phantom_runtime_lite.Gateway.Shell.{
  RuntimeSession, Call, teardown, Answers, spawn_session, Readiness, is_ready,
}

-- `path.partition("?")`: what stands before the first `?` and what stands behind it.
unfoldable pub partition_query : Text → Text × Text
partition_query [] = ([], [])
partition_query (c ∷ cs) =
    let rest = partition_query cs in if c == 63 then ([], cs) else (c ∷ rest.0, rest.1)

pub data Body : Type 0 where
  ok_body : Body
  not_ready : Body
  shutting_down_body : Body
  provider_error : Rejection → Body
  already_connected : Body
  not_found : Body

-- `proceed` is the answer `None`: the handshake goes on.
pub data Response : Type 0 where
  proceed : Response
  respond : ℕ → Body → Response

abbrev pub health_paths : List Text
health_paths = codes "/healthz" ∷ codes "/" ∷ []

abbrev pub ws_path : Text
ws_path = codes "/ws"

unfoldable pub answer_slot : Option ℕ → Response
answer_slot none = proceed
answer_slot (some other) = respond 409 already_connected

unfoldable pub answer_ws : Selection → Option ℕ → Response
unfolding answer_slot
answer_ws (rejected why) active = respond 400 (provider_error why)
answer_ws (selected provider) active = answer_slot active

module _ (u : Unicode) (provider_values : Text → Option (List Text)) where
  unfoldable pub answer_path : Text → Text → Readiness → Option ℕ → Response
  unfolding answer_ws
  answer_path path query readiness active =
      if contains health_paths path
      then (if is_ready readiness then respond 200 ok_body else respond 503 not_ready)
      else if path == ws_path
      then (if is_ready readiness
          then answer_ws (select_provider_from_query u provider_values query) active
          else respond 503 shutting_down_body)
      else respond 404 not_found

  unfoldable pub process_request : Text → Readiness → Option ℕ → Response
  unfolding answer_path
  process_request target readiness active =
      let (path, query) = partition_query target in answer_path path query readiness active

-- Where a handler stands, between two steps that others may come between.
pub data Phase : Type 0 where
  arrived : Phase
  claimed : Text → Phase
  spawned : Phase
  relaying : Phase
  leaving : Phase
  released : Phase
  finished : Phase
  closed_with : ℕ → Phase

-- A handler, its session with the calls that its teardowns made, and what was written to its pipes.
pub record Handler : Type 0 where
  pub phase : Phase
  pub session : Option RuntimeSession
  pub calls : List Call
  pub control : Bytes
  pub audio : Bytes

abbrev pub new_handler : Handler
new_handler = record { phase = arrived; session = none; calls = []; control = []; audio = [] }

-- `_active_connection`, `_active_session`, and the handlers of all connections.
pub record World : Type 0 where
  pub active_connection : Option ℕ
  pub active_session : Option ℕ
  pub handlers : ℕ → Handler

abbrev pub new_world : World
new_world = record { active_connection = none; active_session = none; handlers = λ c. new_handler }

-- `is` for a connection or a session that may be `None`
abbrev pub is_now : Option ℕ → ℕ → Bool
is_now none c = false
is_now (some a) c = a == c

abbrev pub with_handler : ℕ → Handler → (ℕ → Handler) → ℕ → Handler
with_handler c h handlers x = if x == c then h else handlers x

abbrev pub put : ℕ → Handler → World → World
put c h w = record w { handlers = with_handler c h w.handlers }

abbrev pub move : ℕ → Phase → World → World
move c p w = put c (record (w.handlers c) { phase = p }) w

-- The atomic claim.
unfoldable pub claim : ℕ → Text → Option ℕ → World → World
claim c provider none w = record (move c (claimed provider) w) { active_connection = some c }
claim c provider (some other) w = move c (closed_with 1013) w

unfoldable pub enter : ℕ → Selection → World → World
unfolding claim
enter c (rejected why) w = move c (closed_with 1008) w
enter c (selected provider) w = claim c provider w.active_connection w

-- `session_factory`, and the release of the claim where it raises
unfoldable pub attempt : ℕ → Option RuntimeSession → World → World
attempt c none w = record (move c (closed_with 1011) w) { active_connection = none }
attempt c (some s) w = put c (record (w.handlers c) { phase = spawned; session = some s }) w

unfoldable pub attach : ℕ → World → World
attach c w = record (move c relaying w) { active_session = some c }

pub data Message : Type 0 where
  text : Bytes → Message
  binary : Bytes → Message

-- A message goes to the control pipe, with a newline, or to the audio pipe; a failing write ends the
-- loop. The text is given by its encoding.
unfoldable pub relay : Message → Bool → Handler → Handler
relay m false h = record h { phase = leaving }
relay (text bytes) true h = record h { control = h.control ++ (bytes ++ (newline ∷ [])) }
relay (binary bytes) true h = record h { audio = h.audio ++ bytes }

-- The `finally` block, up to the hand-over to the executor.
unfoldable pub release : ℕ → World → World
release c w = record (move c released w) {
  active_connection = if is_now w.active_connection c then none else w.active_connection;
  active_session = none;
}

unfoldable pub teardown_session : Bool → Option RuntimeSession → Handler → Handler
teardown_session exits none h = h
teardown_session exits (some s) h =
    let (s', made) = teardown exits s in record h { session = some s'; calls = h.calls ++ made }

-- `_finish_disconnect`
unfoldable pub finish_disconnect : Bool → Handler → Handler
unfolding teardown_session
finish_disconnect exits h = record (teardown_session exits h.session h) { phase = finished }

-- What may come next at a connection: its handler starts with the selected provider, calls the
-- factory, attaches the session, gets a message (is it written?), loses the connection, or the
-- executor finishes. The main loop of the shell tears the active session down.
pub data Step : Type 0 where
  arrive : ℕ → Selection → Step
  spawn : ℕ → Answers → List ℕ → Step
  attach_session : ℕ → Step
  message : ℕ → Message → Bool → Step
  disconnect : ℕ → Step
  finish : ℕ → Bool → Step
  shell_teardown : Bool → Step

-- A step of a handler that does not stand there is none.
unfoldable pub on_arrive : ℕ → Selection → Phase → World → World
unfolding enter
on_arrive c choice arrived w = enter c choice w
on_arrive c choice _ w = w

unfoldable pub on_spawn : ℕ → Option RuntimeSession → Phase → World → World
unfolding attempt
on_spawn c result (claimed provider) w = attempt c result w
on_spawn c result _ w = w

unfoldable pub on_attach : ℕ → Phase → World → World
unfolding attach
on_attach c spawned w = attach c w
on_attach c _ w = w

unfoldable pub on_message : ℕ → Message → Bool → Phase → World → World
unfolding relay
on_message c m written relaying w = put c (relay m written (w.handlers c)) w
on_message c m written _ w = w

unfoldable pub on_disconnect : ℕ → Phase → World → World
unfolding release
on_disconnect c relaying w = release c w
on_disconnect c leaving w = release c w
on_disconnect c _ w = w

unfoldable pub on_finish : ℕ → Bool → Phase → World → World
unfolding finish_disconnect
on_finish c exits released w = put c (finish_disconnect exits (w.handlers c)) w
on_finish c exits _ w = w

unfoldable pub on_shell_teardown : Bool → Option ℕ → World → World
unfolding teardown_session
on_shell_teardown exits none w = w
on_shell_teardown exits (some c) w =
    put c (teardown_session exits (w.handlers c).session (w.handlers c)) w

unfoldable pub step : Step → World → World
unfolding on_arrive on_spawn on_attach on_message on_disconnect on_finish on_shell_teardown
step (arrive c choice) w = on_arrive c choice (w.handlers c).phase w
step (spawn c answers table) w = on_spawn c (spawn_session answers table).0 (w.handlers c).phase w
step (attach_session c) w = on_attach c (w.handlers c).phase w
step (message c m written) w = on_message c m written (w.handlers c).phase w
step (disconnect c) w = on_disconnect c (w.handlers c).phase w
step (finish c exits) w = on_finish c exits (w.handlers c).phase w
step (shell_teardown exits) w = on_shell_teardown exits w.active_session w

unfoldable pub run_steps : List Step → World → World
unfolding step
run_steps [] w = w
run_steps (s ∷ steps) w = run_steps steps (step s w)
