-- ===== src/Gateway/Sessions/Steps.antt =====
-- Every step of src/runtime/transport_gateway.py keeps the session slot exclusive.
use phantom_runtime_lite.Prelude.{
  ℕ, Bool, true, false, Option, none, some, List, [], ◌∷◌, ◌++◌, nat_eq, ◌≡◌, ◌⊎◌, refl, sym, ap,
  ◌∙◌, inl, inr, ==_refl, append_nil,
}
use mathlib.Core.Path.{subst}
use phantom_runtime_lite.Conversation.Text.{Text}
use phantom_runtime_lite.Gateway.Provider.{Selection, selected, rejected}
use phantom_runtime_lite.Gateway.Shell.{RuntimeSession, Call, teardown, spawn_session}
use phantom_runtime_lite.Gateway.Shell.Descriptors.{spawn_session-new}
use phantom_runtime_lite.Gateway.Sessions.{
  Phase, arrived, claimed, spawned, relaying, leaving, released, finished, closed_with, Handler,
  World, new_world, is_now, put, claim, enter, attempt, attach, Message, text, binary, relay,
  release, teardown_session, finish_disconnect, Step, arrive, spawn, attach_session, message,
  disconnect, finish, shell_teardown, on_arrive, on_spawn, on_attach, on_message, on_disconnect,
  on_finish, on_shell_teardown, step, run_steps,
}
use phantom_runtime_lite.Gateway.Sessions.Exclusive.{
  holds, attached, Untouched, TornDownOnce, Spawned, Settled, Owns, IsExclusive, only_one,
  updated-IsExclusive,
}
use phantom_runtime_lite.Gateway.Sessions.Slot.{
  here_slot, here_session, here_owned, other_slot, other_session, same_slot,
}

-- A teardown, be it the first or not, leaves a session that was torn down once.
torn_down_once :
    (exits : Bool) (s : RuntimeSession) (calls : List Call)
    → Untouched s calls ⊎ TornDownOnce s calls
    → TornDownOnce (teardown exits s).0 (calls ++ (teardown exits s).1)
unfolding teardown
torn_down_once exits s calls (inl (untouched, quiet)) = rw (untouched, quiet) (refl, (exits, refl))
torn_down_once exits s calls (inr (done, once)) = rw (done, append_nil calls) (refl, once)

teardown_session-Settled :
    (exits : Bool) (o : Option RuntimeSession) (h : Handler)
    → Spawned o h.calls
    → Settled (teardown_session exits o h).session (teardown_session exits o h).calls
unfolding teardown_session
teardown_session-Settled exits none h owned = absurd owned
teardown_session-Settled exits (some s) h owned = torn_down_once exits s h.calls owned

Settled-Spawned :
    (o : Option RuntimeSession) (calls : List Call) → Settled o calls → Spawned o calls
Settled-Spawned none calls settled = settled
Settled-Spawned (some s) calls settled = inr settled

teardown_session_phase :
    (exits : Bool) (o : Option RuntimeSession) (h : Handler)
    → (teardown_session exits o h).phase ≡ h.phase
unfolding teardown_session
teardown_session_phase exits none h = refl
teardown_session_phase exits (some s) h = refl

module _ (w : World) (c : ℕ) (ex : IsExclusive w) where
  claim-IsExclusive :
      (provider : Text) (o : Option ℕ)
      → w.active_connection ≡ o
      → (w.handlers c).phase ≡ arrived
      → IsExclusive (claim c provider o w)
  unfolding claim
  claim-IsExclusive provider none free here =
      updated-IsExclusive w c (record (w.handlers c) { phase = claimed provider }) (some c)
        w.active_session ex
        (record {
          slot = sym (==_refl c);
          current = here_session w c ex arrived here;
          owned = here_owned w c ex arrived here;
          slots =
              λ x other. only_one (some c) c x (==_refl c) other ∙ sym (ap (λ o. is_now o x) free);
          sessions = λ x other. refl;
        })
  claim-IsExclusive provider (some other) taken here =
      same_slot w c ex (record (w.handlers c) { phase = closed_with 1013 }) (ap holds (sym here))
        (ap attached (sym here)) (here_owned w c ex arrived here)

  on_arrive-IsExclusive :
      (choice : Selection) (p : Phase)
      → (w.handlers c).phase ≡ p
      → IsExclusive (on_arrive c choice p w)
  unfolding on_arrive enter
  on_arrive-IsExclusive (rejected why) arrived here =
      same_slot w c ex (record (w.handlers c) { phase = closed_with 1008 }) (ap holds (sym here))
        (ap attached (sym here)) (here_owned w c ex arrived here)
  on_arrive-IsExclusive (selected provider) arrived here =
      claim-IsExclusive provider w.active_connection refl here
  on_arrive-IsExclusive choice _ here = ex

  attempt-IsExclusive :
      (provider : Text) (result : Option RuntimeSession)
      → ((s : RuntimeSession) → result ≡ some s → s.torn_down ≡ false)
      → (w.handlers c).phase ≡ claimed provider
      → IsExclusive (attempt c result w)
  unfolding attempt
  attempt-IsExclusive provider none new here =
      let mine = sym (here_slot w c ex (claimed provider) here) in
      updated-IsExclusive w c (record (w.handlers c) { phase = closed_with 1011 }) none
        w.active_session ex
        (record {
          slot = refl;
          current = here_session w c ex (claimed provider) here;
          owned = here_owned w c ex (claimed provider) here;
          slots = λ x other. sym (other_slot w c ex x mine other);
          sessions = λ x other. refl;
        })
  attempt-IsExclusive provider (some s) new here =
      same_slot w c ex (record (w.handlers c) { phase = spawned; session = some s })
        (ap holds (sym here)) (ap attached (sym here))
        (inl (new s refl, (here_owned w c ex (claimed provider) here).1))

  on_spawn-IsExclusive :
      (result : Option RuntimeSession) (p : Phase)
      → ((s : RuntimeSession) → result ≡ some s → s.torn_down ≡ false)
      → (w.handlers c).phase ≡ p
      → IsExclusive (on_spawn c result p w)
  unfolding on_spawn
  on_spawn-IsExclusive result (claimed provider) new here =
      attempt-IsExclusive provider result new here
  on_spawn-IsExclusive result _ new here = ex

  on_attach-IsExclusive : (p : Phase) → (w.handlers c).phase ≡ p → IsExclusive (on_attach c p w)
  unfolding on_attach attach
  on_attach-IsExclusive spawned here =
      let mine = sym (here_slot w c ex spawned here) in
      updated-IsExclusive w c (record (w.handlers c) { phase = relaying }) w.active_connection
        (some c) ex
        (record {
          slot = here_slot w c ex spawned here;
          current = sym (==_refl c);
          owned = here_owned w c ex spawned here;
          slots = λ x other. refl;
          sessions = λ x other.
              only_one (some c) c x (==_refl c) other ∙ sym (other_session w c ex x mine other);
        })
  on_attach-IsExclusive _ here = ex

  relay-IsExclusive :
      (m : Message) (written : Bool)
      → (w.handlers c).phase ≡ relaying
      → IsExclusive (put c (relay m written (w.handlers c)) w)
  unfolding relay
  relay-IsExclusive m false here =
      same_slot w c ex (record (w.handlers c) { phase = leaving }) (ap holds (sym here))
        (ap attached (sym here)) (here_owned w c ex relaying here)
  relay-IsExclusive (text bytes) true here =
      same_slot w c ex (relay (text bytes) true (w.handlers c)) refl refl (ex.owned c)
  relay-IsExclusive (binary bytes) true here =
      same_slot w c ex (relay (binary bytes) true (w.handlers c)) refl refl (ex.owned c)

  on_message-IsExclusive :
      (m : Message) (written : Bool) (p : Phase)
      → (w.handlers c).phase ≡ p
      → IsExclusive (on_message c m written p w)
  unfolding on_message
  on_message-IsExclusive m written relaying here = relay-IsExclusive m written here
  on_message-IsExclusive m written _ here = ex

  release-IsExclusive :
      is_now w.active_connection c ≡ true
      → Spawned (w.handlers c).session (w.handlers c).calls
      → IsExclusive (release c w)
  unfolding release
  release-IsExclusive mine owned = rw (mine) (
      updated-IsExclusive w c (record (w.handlers c) { phase = released }) none none ex
        (record {
          slot = refl;
          current = refl;
          owned = owned;
          slots = λ x other. sym (other_slot w c ex x mine other);
          sessions = λ x other. sym (other_session w c ex x mine other);
        }))

  on_disconnect-IsExclusive :
      (p : Phase) → (w.handlers c).phase ≡ p → IsExclusive (on_disconnect c p w)
  unfolding on_disconnect
  on_disconnect-IsExclusive relaying here =
      release-IsExclusive (sym (here_slot w c ex relaying here)) (here_owned w c ex relaying here)
  on_disconnect-IsExclusive leaving here =
      release-IsExclusive (sym (here_slot w c ex leaving here)) (here_owned w c ex leaving here)
  on_disconnect-IsExclusive _ here = ex

  on_finish-IsExclusive :
      (exits : Bool) (p : Phase) → (w.handlers c).phase ≡ p → IsExclusive (on_finish c exits p w)
  unfolding on_finish finish_disconnect
  on_finish-IsExclusive exits released here =
      same_slot w c ex (finish_disconnect exits (w.handlers c)) (ap holds (sym here))
        (ap attached (sym here))
        (teardown_session-Settled exits (w.handlers c).session (w.handlers c)
          (here_owned w c ex released here))
  on_finish-IsExclusive exits _ here = ex

  attached_owned :
      (p : Phase) (o : Option RuntimeSession) (calls calls' : List Call)
      (o' : Option RuntimeSession)
      → attached p ≡ true
      → (Spawned o calls → Spawned o' calls')
      → Owns p o calls
      → Owns p o' calls'
  attached_owned relaying o calls calls' o' now next owned = next owned
  attached_owned leaving o calls calls' o' now next owned = next owned
  attached_owned arrived o calls calls' o' now next owned = absurd (cc now)
  attached_owned (claimed provider) o calls calls' o' now next owned = absurd (cc now)
  attached_owned spawned o calls calls' o' now next owned = absurd (cc now)
  attached_owned released o calls calls' o' now next owned = absurd (cc now)
  attached_owned finished o calls calls' o' now next owned = absurd (cc now)
  attached_owned (closed_with code) o calls calls' o' now next owned = absurd (cc now)

  active_teardown :
      (exits : Bool)
      → is_now w.active_session c ≡ true
      → IsExclusive (put c (teardown_session exits (w.handlers c).session (w.handlers c)) w)
  active_teardown exits now =
      let h = w.handlers c in
      let h' = teardown_session exits h.session h in
      let stays = teardown_session_phase exits h.session h in
      same_slot w c ex h' (ap holds stays) (ap attached stays) (
        subst (λ p. Owns p h'.session h'.calls) (sym stays)
          (attached_owned h.phase h.session h.calls h'.calls h'.session (ex.session c ∙ now)
            (λ o.
              Settled-Spawned h'.session h'.calls (teardown_session-Settled exits h.session h o))
            (ex.owned c)))

on_shell_teardown-IsExclusive :
    (exits : Bool) (w : World) (o : Option ℕ)
    → w.active_session ≡ o
    → IsExclusive w
    → IsExclusive (on_shell_teardown exits o w)
unfolding on_shell_teardown
on_shell_teardown-IsExclusive exits w none active ex = ex
on_shell_teardown-IsExclusive exits w (some c) active ex =
    active_teardown w c ex exits (ap (λ o. is_now o c) active ∙ ==_refl c)

step-IsExclusive : (s : Step) (w : World) → IsExclusive w → IsExclusive (step s w)
unfolding step
step-IsExclusive (arrive c choice) w ex =
    on_arrive-IsExclusive w c ex choice (w.handlers c).phase refl
step-IsExclusive (spawn c answers table) w ex =
    on_spawn-IsExclusive w c ex (spawn_session answers table).0 (w.handlers c).phase
      (λ s made. spawn_session-new answers table s made) refl
step-IsExclusive (attach_session c) w ex = on_attach-IsExclusive w c ex (w.handlers c).phase refl
step-IsExclusive (message c m written) w ex =
    on_message-IsExclusive w c ex m written (w.handlers c).phase refl
step-IsExclusive (disconnect c) w ex = on_disconnect-IsExclusive w c ex (w.handlers c).phase refl
step-IsExclusive (finish c exits) w ex =
    on_finish-IsExclusive w c ex exits (w.handlers c).phase refl
step-IsExclusive (shell_teardown exits) w ex =
    on_shell_teardown-IsExclusive exits w w.active_session refl ex

steps-IsExclusive :
    (steps : List Step) (w : World) → IsExclusive w → IsExclusive (run_steps steps w)
unfolding run_steps
steps-IsExclusive [] w ex = ex
steps-IsExclusive (s ∷ steps) w ex = steps-IsExclusive steps (step s w) (step-IsExclusive s w ex)

pub new_world-IsExclusive : IsExclusive new_world
new_world-IsExclusive = record { slot = λ c. refl; session = λ c. refl; owned = λ c. (refl, refl) }

-- However the steps of all connections and of the shell interleave: the slot belongs to exactly the
-- handler between its claim and its release, so to one at most; the active session is that of the
-- attached handler; a refused or waiting connection has no session; and a session is torn down once at
-- most, and once for sure when its handler is finished.
pub run_steps-IsExclusive : (steps : List Step) → IsExclusive (run_steps steps new_world)
run_steps-IsExclusive steps = steps-IsExclusive steps new_world new_world-IsExclusive
