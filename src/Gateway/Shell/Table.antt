-- ===== src/Gateway/Shell/Table.antt =====
-- The table of open file descriptors of src/runtime/cloud_run_shell.py: what is open after some are
-- closed.
use phantom_runtime_lite.Prelude.{
  ℕ, Bool, false, not, ◌&&◌, ◌||◌, List, [], ◌∷◌, ◌==◌, nat_eq, contains, ◌≡◌, refl, ap, ◌∙◌, arith,
  Bool-cases, inl, inr,
}
use phantom_runtime_lite.Gateway.Shell.{close_fd, close_fds}

contains-close_fd :
    (fd y : ℕ) (t : List ℕ) → contains (close_fd fd t) y ≡ (contains t y && not (y == fd))
unfolding close_fd
contains-close_fd fd y [] = refl
contains-close_fd fd y (x ∷ xs) = elim (Bool-cases (x == fd)) [
  | inl hit ↦ rw (hit) (ground (arith, contains-close_fd fd y xs))
  | inr miss ↦ rw (miss) (ground (arith, contains-close_fd fd y xs))
]

pub contains-close_fds :
    (fds : List ℕ) (y : ℕ) (t : List ℕ)
    → contains (close_fds fds t) y ≡ (contains t y && not (contains fds y))
unfolding close_fds
contains-close_fds [] y t = ground arith
contains-close_fds (fd ∷ fds) y t =
    contains-close_fds fds y (close_fd fd t) ∙ ground (arith, contains-close_fd fd y t)

-- A descriptor that is not open differs from each open one.
pub absent_differs :
    (t : List ℕ) (fd y : ℕ) → contains t fd ≡ false → ((y == fd) && contains t y) ≡ false
absent_differs t fd y absent = elim (Bool-cases (y == fd)) [
  | inl hit ↦ let same : y ≡ fd = (ground arith) in rw (hit) (ap (contains t) same ∙ absent)
  | inr miss ↦ rw (miss) refl
]

pub none_opened : (t : Bool) → (t && not false) ≡ t
none_opened t = ground arith

pub two_closed :
    (ar aw t : Bool)
    → (ar && t) ≡ false
    → (aw && (ar || t)) ≡ false
    → ((aw || (ar || t)) && not (ar || (aw || false))) ≡ t
two_closed ar aw t h1 h2 = ground arith

pub four_closed :
    (ar aw er ew t : Bool)
    → (ar && t) ≡ false
    → (aw && (ar || t)) ≡ false
    → (er && (aw || (ar || t))) ≡ false
    → (ew && (er || (aw || (ar || t)))) ≡ false
    → ((ew || (er || (aw || (ar || t)))) && not (ar || (aw || (er || (ew || false))))) ≡ t
four_closed ar aw er ew t h1 h2 h3 h4 = ground arith

pub six_closed :
    (ar aw er ew cr cw t : Bool)
    → (ar && t) ≡ false
    → (aw && (ar || t)) ≡ false
    → (er && (aw || (ar || t))) ≡ false
    → (ew && (er || (aw || (ar || t)))) ≡ false
    → (cr && (ew || (er || (aw || (ar || t))))) ≡ false
    → (cw && (cr || (ew || (er || (aw || (ar || t)))))) ≡ false
    → ((cw || (cr || (ew || (er || (aw || (ar || t))))))
        && not (ar || (aw || (er || (ew || (cr || (cw || false)))))))
      ≡ t
six_closed ar aw er ew cr cw t h1 h2 h3 h4 h5 h6 = ground arith

pub three_kept :
    (ar aw er ew cr cw t : Bool)
    → (ar && t) ≡ false
    → (aw && (ar || t)) ≡ false
    → (er && (aw || (ar || t))) ≡ false
    → (ew && (er || (aw || (ar || t)))) ≡ false
    → (cr && (ew || (er || (aw || (ar || t))))) ≡ false
    → (cw && (cr || (ew || (er || (aw || (ar || t)))))) ≡ false
    → (((cw || (cr || (ew || (er || (aw || (ar || t)))))) && not (ar || (ew || (cr || false))))
        ≡ ((cw || (er || aw)) || t))
      × (((cw || (er || aw)) && t) ≡ false)
three_kept ar aw er ew cr cw t h1 h2 h3 h4 h5 h6 = (ground arith, ground arith)
