-- ===== src/Gateway/Sessions/Exclusive.antt =====
-- The single session slot of src/runtime/transport_gateway.py, whatever order the steps of the
-- connections come in.
use phantom_runtime_lite.Prelude.{
  ℕ, Bool, true, false, Option, none, some, List, [], ◌==◌, nat_eq, ◌≡◌, ◌⊎◌, refl, sym, ap, ◌∙◌,
  arith, Bool-cases, inl, inr,
}
use phantom_runtime_lite.Gateway.Shell.{RuntimeSession, Call, teardown}
use phantom_runtime_lite.Gateway.Sessions.{
  Phase, arrived, claimed, spawned, relaying, leaving, released, finished, closed_with, Handler,
  World, is_now, put,
}

-- Between the claim and the release.
abbrev pub holds : Phase → Bool
holds (claimed provider) = true
holds spawned = true
holds relaying = true
holds leaving = true
holds _ = false

abbrev pub attached : Phase → Bool
attached relaying = true
attached leaving = true
attached _ = false

pub attached-holds : (p : Phase) → attached p ≡ true → holds p ≡ true
attached-holds arrived h = absurd (cc h)
attached-holds (claimed provider) h = refl
attached-holds spawned h = refl
attached-holds relaying h = refl
attached-holds leaving h = refl
attached-holds released h = absurd (cc h)
attached-holds finished h = absurd (cc h)
attached-holds (closed_with code) h = absurd (cc h)

-- The calls on the child: none yet, or those of one teardown.
abbrev pub Untouched : RuntimeSession → List Call → Type 0
Untouched s calls = (s.torn_down ≡ false) × (calls ≡ [])

abbrev pub TornDownOnce : RuntimeSession → List Call → Type 0
TornDownOnce s calls =
    (s.torn_down ≡ true)
    × ((exits : Bool) × (calls ≡ (teardown exits (record s { torn_down = false })).1))

abbrev pub Spawned : Option RuntimeSession → List Call → Type 0
Spawned none calls = ⊥
Spawned (some s) calls = Untouched s calls ⊎ TornDownOnce s calls

abbrev pub Settled : Option RuntimeSession → List Call → Type 0
Settled none calls = ⊥
Settled (some s) calls = TornDownOnce s calls

abbrev pub Sessionless : Option RuntimeSession → List Call → Type 0
Sessionless session calls = (session ≡ none) × (calls ≡ [])

-- What a handler owns where it stands: no session before the spawn and after a refusal, one until the
-- disconnect, torn down once at the end.
abbrev pub Owns : Phase → Option RuntimeSession → List Call → Type 0
Owns arrived = Sessionless
Owns (claimed provider) = Sessionless
Owns spawned = Spawned
Owns relaying = Spawned
Owns leaving = Spawned
Owns released = Spawned
Owns finished = Settled
Owns (closed_with code) = Sessionless

-- The slot names the one handler that holds it, the active session is that of the one attached
-- handler, and every handler owns what its phase says.
pub record IsExclusive (w : World) : Type 0 where
  pub slot : (c : ℕ) → holds (w.handlers c).phase ≡ is_now w.active_connection c
  pub session : (c : ℕ) → attached (w.handlers c).phase ≡ is_now w.active_session c
  pub owned : (c : ℕ) → Owns (w.handlers c).phase (w.handlers c).session (w.handlers c).calls

pub only_one : (o : Option ℕ) (c x : ℕ) → is_now o c ≡ true → (x == c) ≡ false → is_now o x ≡ false
only_one none c x now other = refl
only_one (some a) c x now other = ground arith

-- What a step of connection `c` has to keep.
pub record Kept (w : World) (c : ℕ) (h : Handler) (connection session : Option ℕ) : Type 0 where
  pub slot : holds h.phase ≡ is_now connection c
  pub current : attached h.phase ≡ is_now session c
  pub owned : Owns h.phase h.session h.calls
  pub slots : (x : ℕ) → (x == c) ≡ false → is_now connection x ≡ is_now w.active_connection x
  pub sessions : (x : ℕ) → (x == c) ≡ false → is_now session x ≡ is_now w.active_session x

pub updated-IsExclusive :
    (w : World) (c : ℕ) (h : Handler) (connection session : Option ℕ)
    → IsExclusive w
    → Kept w c h connection session
    → IsExclusive (record (put c h w) { active_connection = connection; active_session = session })
updated-IsExclusive w c h connection session ex kept = record {
  slot = λ x. elim (Bool-cases (x == c)) [
    | inl hit ↦
        let same : x ≡ c = (ground arith) in
        rw (hit) (kept.slot ∙ ap (is_now connection) (sym same))
    | inr miss ↦ rw (miss) (ex.slot x ∙ sym (kept.slots x miss))
  ];
  session = λ x. elim (Bool-cases (x == c)) [
    | inl hit ↦
        let same : x ≡ c = (ground arith) in
        rw (hit) (kept.current ∙ ap (is_now session) (sym same))
    | inr miss ↦ rw (miss) (ex.session x ∙ sym (kept.sessions x miss))
  ];
  owned = λ x. elim (Bool-cases (x == c)) [
    | inl hit ↦ rw (hit) (kept.owned)
    | inr miss ↦ rw (miss) (ex.owned x)
  ];
}
