-- ===== src/Gateway/Shell/Descriptors.antt =====
-- The file descriptors of src/runtime/cloud_run_shell.py over the life of a session.
use phantom_runtime_lite.Prelude.{
  ℕ, Bool, true, false, not, ◌&&◌, ◌||◌, Option, none, some, List, [], ◌∷◌, ◌++◌, ◌==◌, nat_eq,
  contains, ◌≡◌, refl, ap, ◌∙◌, arith, Bool-cases, inl, inr,
}
use mathlib.Core.Path.{subst}
use phantom_runtime_lite.Gateway.Shell.{
  RuntimeSession, Call, close, stop_child, teardown, close_fds, closed_by, Answers, abandon,
  started, with_control, with_event, with_audio, spawn_session,
}
use phantom_runtime_lite.Gateway.Shell.Table.{
  contains-close_fds, absent_differs, none_opened, two_closed, four_closed, six_closed, three_kept,
}

-- `os.pipe` returns two descriptors that are not open.
abbrev pub Fresh : Option (ℕ × ℕ) → List ℕ → Type 0
Fresh none table = Unit
Fresh (some (r, w)) table = (contains table r ≡ false) × (contains (r ∷ table) w ≡ false)

abbrev pub after : Option (ℕ × ℕ) → List ℕ → List ℕ
after none table = table
after (some (r, w)) table = w ∷ r ∷ table

abbrev pub FreshPipes : Answers → List ℕ → Type 0
FreshPipes a table =
    Fresh a.audio table
    × (Fresh a.event (after a.audio table) × Fresh a.control (after a.event (after a.audio table)))

-- The ends of the pipes that the shell keeps.
abbrev pub kept_open : RuntimeSession → ℕ → Bool
kept_open s y = (y == s.control_fd_w) || ((y == s.event_fd_r) || (y == s.audio_fd_w))

-- What is open after a spawn.
abbrev pub Balanced : List ℕ → Option RuntimeSession × List ℕ → Type 0
Balanced table (none, table') = (y : ℕ) → contains table' y ≡ contains table y
Balanced table (some s, table') =
    (s.torn_down ≡ false)
    × ((y : ℕ)
        → (contains table' y ≡ (kept_open s y || contains table y))
          × ((kept_open s y && contains table y) ≡ false))

module _ (table : List ℕ) where
  started-Balanced :
      (popen : Option ℕ) (ar aw er ew cr cw : ℕ)
      → Fresh (some (ar, aw)) table
      → Fresh (some (er, ew)) (aw ∷ ar ∷ table)
      → Fresh (some (cr, cw)) (ew ∷ er ∷ aw ∷ ar ∷ table)
      → Balanced table
          (started popen (ar, aw) (er, ew) (cr, cw) (cw ∷ cr ∷ ew ∷ er ∷ aw ∷ ar ∷ table))
  unfolding started abandon
  started-Balanced none ar aw er ew cr cw f1 f2 f3 = λ y.
      contains-close_fds (ar ∷ aw ∷ er ∷ ew ∷ cr ∷ cw ∷ []) y (cw ∷ cr ∷ ew ∷ er ∷ aw ∷ ar ∷ table)
      ∙ six_closed (y == ar) (y == aw) (y == er) (y == ew) (y == cr) (y == cw) (contains table y)
          (absent_differs table ar y f1.0) (absent_differs (ar ∷ table) aw y f1.1)
          (absent_differs (aw ∷ ar ∷ table) er y f2.0)
          (absent_differs (er ∷ aw ∷ ar ∷ table) ew y f2.1)
          (absent_differs (ew ∷ er ∷ aw ∷ ar ∷ table) cr y f3.0)
          (absent_differs (cr ∷ ew ∷ er ∷ aw ∷ ar ∷ table) cw y f3.1)
  started-Balanced (some child) ar aw er ew cr cw f1 f2 f3 = (
    refl,
    λ y.
        let kept =
          three_kept (y == ar) (y == aw) (y == er) (y == ew) (y == cr) (y == cw) (contains table y)
            (absent_differs table ar y f1.0) (absent_differs (ar ∷ table) aw y f1.1)
            (absent_differs (aw ∷ ar ∷ table) er y f2.0)
            (absent_differs (er ∷ aw ∷ ar ∷ table) ew y f2.1)
            (absent_differs (ew ∷ er ∷ aw ∷ ar ∷ table) cr y f3.0)
            (absent_differs (cr ∷ ew ∷ er ∷ aw ∷ ar ∷ table) cw y f3.1) in
        (
          contains-close_fds (ar ∷ ew ∷ cr ∷ []) y (cw ∷ cr ∷ ew ∷ er ∷ aw ∷ ar ∷ table) ∙ kept.0,
          kept.1,
        ),
  )

  with_control-Balanced :
      (a : Answers) (ar aw er ew : ℕ) (control : Option (ℕ × ℕ))
      → Fresh (some (ar, aw)) table
      → Fresh (some (er, ew)) (aw ∷ ar ∷ table)
      → Fresh control (ew ∷ er ∷ aw ∷ ar ∷ table)
      → Balanced table (with_control a (ar, aw) (er, ew) control (ew ∷ er ∷ aw ∷ ar ∷ table))
  unfolding with_control abandon
  with_control-Balanced a ar aw er ew none f1 f2 f3 = λ y.
      contains-close_fds (ar ∷ aw ∷ er ∷ ew ∷ []) y (ew ∷ er ∷ aw ∷ ar ∷ table)
      ∙ four_closed (y == ar) (y == aw) (y == er) (y == ew) (contains table y)
          (absent_differs table ar y f1.0) (absent_differs (ar ∷ table) aw y f1.1)
          (absent_differs (aw ∷ ar ∷ table) er y f2.0)
          (absent_differs (er ∷ aw ∷ ar ∷ table) ew y f2.1)
  with_control-Balanced a ar aw er ew (some (cr, cw)) f1 f2 f3 =
      started-Balanced a.popen ar aw er ew cr cw f1 f2 f3

  with_event-Balanced :
      (a : Answers) (ar aw : ℕ) (event : Option (ℕ × ℕ))
      → Fresh (some (ar, aw)) table
      → Fresh event (aw ∷ ar ∷ table)
      → Fresh a.control (after event (aw ∷ ar ∷ table))
      → Balanced table (with_event a (ar, aw) event (aw ∷ ar ∷ table))
  unfolding with_event abandon
  with_event-Balanced a ar aw none f1 f2 f3 = λ y.
      contains-close_fds (ar ∷ aw ∷ []) y (aw ∷ ar ∷ table)
      ∙ two_closed (y == ar) (y == aw) (contains table y) (absent_differs table ar y f1.0)
          (absent_differs (ar ∷ table) aw y f1.1)
  with_event-Balanced a ar aw (some (er, ew)) f1 f2 f3 =
      with_control-Balanced a ar aw er ew a.control f1 f2 f3

  with_audio-Balanced :
      (a : Answers) (audio : Option (ℕ × ℕ))
      → Fresh audio table
      → Fresh a.event (after audio table)
      → Fresh a.control (after a.event (after audio table))
      → Balanced table (with_audio a audio table)
  unfolding with_audio abandon
  with_audio-Balanced a none f1 f2 f3 =
      λ y. contains-close_fds [] y table ∙ none_opened (contains table y)
  with_audio-Balanced a (some (ar, aw)) f1 f2 f3 = with_event-Balanced a ar aw a.event f1 f2 f3

-- A spawn leaks no descriptor: if it fails, whichever of its calls raises, the same descriptors are
-- open as before; if it succeeds, the three ends of the session are open besides, and these were not
-- open before. The pipes are fresh.
pub spawn_session-Balanced :
    (a : Answers) (table : List ℕ) → FreshPipes a table → Balanced table (spawn_session a table)
unfolding spawn_session
spawn_session-Balanced a table (f1, (f2, f3)) = with_audio-Balanced table a a.audio f1 f2 f3

abbrev IsNew : Option RuntimeSession → Type 0
IsNew none = Unit
IsNew (some s) = s.torn_down ≡ false

started-IsNew :
    (popen : Option ℕ) (a e c : ℕ × ℕ) (table : List ℕ) → IsNew (started popen a e c table).0
unfolding started abandon
started-IsNew none a e c table = tt
started-IsNew (some child) a e c table = refl

with_control-IsNew :
    (a : Answers) (au ev : ℕ × ℕ) (o : Option (ℕ × ℕ)) (table : List ℕ)
    → IsNew (with_control a au ev o table).0
unfolding with_control abandon
with_control-IsNew a au ev none table = tt
with_control-IsNew a au ev (some (cr, cw)) table =
    started-IsNew a.popen au ev (cr, cw) (cw ∷ cr ∷ table)

with_event-IsNew :
    (a : Answers) (au : ℕ × ℕ) (o : Option (ℕ × ℕ)) (table : List ℕ)
    → IsNew (with_event a au o table).0
unfolding with_event abandon
with_event-IsNew a au none table = tt
with_event-IsNew a au (some (er, ew)) table =
    with_control-IsNew a au (er, ew) a.control (ew ∷ er ∷ table)

with_audio-IsNew :
    (a : Answers) (o : Option (ℕ × ℕ)) (table : List ℕ) → IsNew (with_audio a o table).0
unfolding with_audio abandon
with_audio-IsNew a none table = tt
with_audio-IsNew a (some (ar, aw)) table = with_event-IsNew a (ar, aw) a.event (aw ∷ ar ∷ table)

-- A new session is not torn down.
pub spawn_session-new :
    (a : Answers) (table : List ℕ) (s : RuntimeSession)
    → (spawn_session a table).0 ≡ some s
    → s.torn_down ≡ false
unfolding spawn_session
spawn_session-new a table s made = subst IsNew made (with_audio-IsNew a a.audio table)

stopped-closed_by :
    (exits : Bool) (child : ℕ) (fds : List Call) (table : List ℕ)
    → closed_by (stop_child exits child ++ fds) table ≡ closed_by fds table
unfolding stop_child closed_by
stopped-closed_by true child fds table = refl
stopped-closed_by false child fds table = refl

closed_again :
    (a e c t t' : Bool)
    → t' ≡ ((c || (e || a)) || t)
    → ((c || (e || a)) && t) ≡ false
    → (t' && not (a || (e || (c || false)))) ≡ t
closed_again a e c t t' h1 h2 = ground arith

teardown-closed_by :
    (exits : Bool) (s : RuntimeSession) (table : List ℕ)
    → s.torn_down ≡ false
    → closed_by (teardown exits s).1 table
      ≡ close_fds (s.audio_fd_w ∷ s.event_fd_r ∷ s.control_fd_w ∷ []) table
unfolding teardown close_fds closed_by
teardown-closed_by exits s table fresh = rw (fresh) (
    stopped-closed_by exits s.child
      (close s.audio_fd_w ∷ close s.event_fd_r ∷ close s.control_fd_w ∷ []) table)

teardown_twice :
    (exits again : Bool) (s : RuntimeSession) → (teardown again (teardown exits s).0).1 ≡ []
unfolding teardown
teardown_twice exits again s = elim (Bool-cases s.torn_down) [
  | inl done ↦ rw (done) refl
  | inr untouched ↦ rw (untouched) refl
]

-- The teardown of a spawned session brings the descriptors back to those before the spawn, whether or
-- not the child exits in time; a second teardown of it makes no call.
pub teardown-spawn_session :
    (a : Answers) (table : List ℕ) (exits : Bool) (s : RuntimeSession)
    → FreshPipes a table
    → (spawn_session a table).0 ≡ some s
    → ((y : ℕ)
        → contains (closed_by (teardown exits s).1 (spawn_session a table).1) y ≡ contains table y)
      × ((again : Bool) → (teardown again (teardown exits s).0).1 ≡ [])
teardown-spawn_session a table exits s fresh spawned =
    let left = (spawn_session a table).1 in
    let (untouched, balance) : Balanced table (some s, left) =
      (subst (λ o. Balanced table (o, left)) spawned (spawn_session-Balanced a table fresh)) in
    (
      λ y.
          ap (λ t. contains t y) (teardown-closed_by exits s left untouched)
          ∙ contains-close_fds (s.audio_fd_w ∷ s.event_fd_r ∷ s.control_fd_w ∷ []) y left
          ∙ closed_again (y == s.audio_fd_w) (y == s.event_fd_r) (y == s.control_fd_w)
              (contains table y) (contains left y) (balance y).0 (balance y).1,
      λ again. teardown_twice exits again s,
    )
