-- ===== src/Gateway/Shell/Shutdown.antt =====
-- The shutdown of src/runtime/cloud_run_shell.py: what SIGTERM leads to.
use phantom_runtime_lite.Prelude.{
  ℕ, ◌+◌, ◌≤◌, Bool, true, false, not, ◌&&◌, ◌||◌, Option, none, some, List, [], ◌∷◌, leb, ◌≡◌, ◌⊎◌,
  refl, ap, ◌∙◌, arith, Bool-cases, inl, inr,
}
use phantom_runtime_lite.Gateway.Shell.{
  shutting_down, is_ready, Shell, first_sigterm, handle_sigterm, note_health, shutdown_step,
  main_round, Ending, teardown_time, left_at, Happening, sigterm, main_loop, run_main,
}

module _ (startup_deadline grace : ℕ) where
  abbrev pub happen : Happening → Shell → Shell
  happen (sigterm now) s = (handle_sigterm grace now s).0
  happen (main_loop now later session e) s = (main_round startup_deadline now later session s).0

  abbrev pub happen_all : List Happening → Shell → Shell
  happen_all [] s = s
  happen_all (h ∷ hs) s = happen_all hs (happen h s)

  note_health_deadline :
      (now : ℕ) (s : Shell)
      → (note_health startup_deadline now s).shutdown_deadline ≡ s.shutdown_deadline
  unfolding note_health
  note_health_deadline now s =
      elim (Bool-cases (not s.marked_healthy && leb startup_deadline now)) [
        | inl due ↦ rw (due) refl
        | inr late ↦ rw (late) refl
      ]

  happen_deadline :
      (h : Happening) (s : Shell) (d : ℕ)
      → s.shutdown_deadline ≡ some d
      → (happen h s).shutdown_deadline ≡ some d
  unfolding handle_sigterm main_round
  happen_deadline (sigterm now) s d set = rw (set) refl
  happen_deadline (main_loop now later session e) s d set = note_health_deadline now s ∙ set

  happen_all_deadline :
      (hs : List Happening) (s : Shell) (d : ℕ)
      → s.shutdown_deadline ≡ some d
      → (happen_all hs s).shutdown_deadline ≡ some d
  happen_all_deadline [] s d set = set
  happen_all_deadline (h ∷ hs) s d set =
      happen_all_deadline hs (happen h s) d (happen_deadline h s d set)

  sigterm_deadline :
      (now : ℕ) (s : Shell)
      → s.shutdown_deadline ≡ none
      → (handle_sigterm grace now s).0.shutdown_deadline ≡ some (now + grace)
  unfolding handle_sigterm
  sigterm_deadline now s unset = rw (unset) refl

  -- Shutting down, with the start behind it.
  abbrev IsClosing : Shell → Type 0
  IsClosing s = (s.marked_healthy ≡ true) × (s.readiness ≡ shutting_down)

  first_sigterm-IsClosing :
      (now : ℕ) (o : Option ℕ) (s : Shell) → IsClosing s → IsClosing (first_sigterm grace now o s).0
  unfolding first_sigterm
  first_sigterm-IsClosing now none s closing = closing
  first_sigterm-IsClosing now (some d) s closing = closing

  sigterm-IsClosing :
      (now : ℕ) (s : Shell) → s.marked_healthy ≡ true → IsClosing (handle_sigterm grace now s).0
  unfolding handle_sigterm
  sigterm-IsClosing now s marked =
      first_sigterm-IsClosing now s.shutdown_deadline (record s { readiness = shutting_down })
        (marked, refl)

  happen-IsClosing : (h : Happening) (s : Shell) → IsClosing s → IsClosing (happen h s)
  unfolding main_round note_health
  happen-IsClosing (sigterm now) s (marked, closing) = sigterm-IsClosing now s marked
  happen-IsClosing (main_loop now later session e) s (marked, closing) = rw (marked) (refl, closing)

  happen_all-IsClosing :
      (hs : List Happening) (s : Shell) → IsClosing s → IsClosing (happen_all hs s)
  happen_all-IsClosing [] s closing = closing
  happen_all-IsClosing (h ∷ hs) s closing =
      happen_all-IsClosing hs (happen h s) (happen-IsClosing h s closing)

  -- A shell that was marked healthy accepts no session after a SIGTERM, whatever happens then.
  pub sigterm-refuses :
      (t : ℕ) (s : Shell) (hs : List Happening)
      → s.marked_healthy ≡ true
      → is_ready (happen_all hs (handle_sigterm grace t s).0).readiness ≡ false
  unfolding is_ready
  sigterm-refuses t s hs marked =
      ap is_ready
        (happen_all-IsClosing hs (handle_sigterm grace t s).0 (sigterm-IsClosing t s marked)).1

-- From each round to the next at most so much time passes.
abbrev pub IsPaced : (pace since : ℕ) → List Happening → Type 0
IsPaced pace since [] = Unit
IsPaced pace since (sigterm now ∷ hs) = IsPaced pace since hs
IsPaced pace since (main_loop now later session e ∷ hs) =
    (later ≤ since + pace) × IsPaced pace later hs

-- Some round comes at the time or later.
abbrev pub reaches : ℕ → List Happening → Bool
reaches d [] = false
reaches d (sigterm now ∷ hs) = reaches d hs
reaches d (main_loop now later session e ∷ hs) = leb d later || reaches d hs

module _ (startup_deadline grace last_wait : ℕ) where
  teardown_time_bound : (e : Ending) → teardown_time grace last_wait e ≤ grace + last_wait
  unfolding teardown_time
  teardown_time_bound e = ground arith

  -- A round either leaves the loop, its teardown included, or comes before the deadline.
  round_ends :
      (later d : ℕ) (session : Option Bool) (e : Ending)
      → ((x : ℕ) × (left_at grace last_wait later e (shutdown_step later (some d) session) ≡ some x)
          × (x ≤ later + (grace + last_wait)))
        ⊎ ((left_at grace last_wait later e (shutdown_step later (some d) session) ≡ none)
            × (leb d later ≡ false))
  unfolding left_at shutdown_step
  round_ends later d none e = inl (later, refl, omega arith)
  round_ends later d (some true) e =
      inl (later + teardown_time grace last_wait e, refl, omega (arith, teardown_time_bound e))
  round_ends later d (some false) e = elim (Bool-cases (leb d later)) [
    | inl due ↦
        rw (due) (
          inl (later + teardown_time grace last_wait e, refl, omega (arith, teardown_time_bound e)))
    | inr early ↦ rw (early) (inr (refl, refl))
  ]

  before : (d later : ℕ) → leb d later ≡ false → later ≤ d
  before d later h = ground (arith, h)

  run_main-ends :
      (hs : List Happening) (s : Shell) (d pace since : ℕ)
      → s.shutdown_deadline ≡ some d
      → since ≤ d
      → IsPaced pace since hs
      → reaches d hs ≡ true
      → (x : ℕ) × (run_main startup_deadline grace last_wait hs s ≡ some x)
        × (x ≤ d + pace + (grace + last_wait))
  unfolding run_main main_round
  run_main-ends [] s d pace since set early paced r = cc
  run_main-ends (sigterm now ∷ hs) s d pace since set early paced r =
      run_main-ends hs (handle_sigterm grace now s).0 d pace since
        (happen_deadline startup_deadline grace (sigterm now) s d set) early paced r
  run_main-ends (main_loop now later session e ∷ hs) s d pace since set early (step, paced) r =
      let kept : (note_health startup_deadline now s).shutdown_deadline ≡ some d =
        (note_health_deadline startup_deadline grace now s ∙ set) in
      elim (round_ends later d session e) [
        | inl (x, left, bound) ↦ rw (kept, left) (x, refl, omega (arith, step, bound, early))
        | inr (stays, soon) ↦
            let rest =
              run_main-ends hs (note_health startup_deadline now s) d pace later kept
                (before d later soon) paced (rw (soon) at r) in
            rw (kept, stays) rest
      ]

  -- After the first SIGTERM the main loop is left, whatever comes in between, also if more SIGTERMs
  -- come: at the latest a `pace` after the end of the grace, and after the teardown in that round, which
  -- waits once more for the grace and for the killed child. At most a `pace` passes from one round to
  -- the next, and the rounds go on until the end of the grace.
  pub shutdown-ends :
      (t pace : ℕ) (s : Shell) (hs : List Happening)
      → s.shutdown_deadline ≡ none
      → IsPaced pace t hs
      → reaches (t + grace) hs ≡ true
      → (x : ℕ) × (run_main startup_deadline grace last_wait hs (handle_sigterm grace t s).0
          ≡ some x)
        × (x ≤ (t + grace) + pace + (grace + last_wait))
  shutdown-ends t pace s hs first paced r =
      run_main-ends hs (handle_sigterm grace t s).0 (t + grace) pace t
        (sigterm_deadline startup_deadline grace t s first) (omega arith) paced r
