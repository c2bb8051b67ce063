-- ===== src/Gateway/Sessions/Slot.antt =====
-- What the invariant of src/runtime/transport_gateway.py says of one connection, and what a step of it
-- has to show.
use phantom_runtime_lite.Prelude.{
  ℕ, true, false, ◌==◌, nat_eq, ◌≡◌, refl, sym, ap, ◌∙◌, Bool-cases, inl, inr,
}
use mathlib.Core.Path.{subst}
use phantom_runtime_lite.Gateway.Sessions.{Phase, Handler, World, is_now, put}
use phantom_runtime_lite.Gateway.Sessions.Exclusive.{
  holds, attached, attached-holds, Owns, IsExclusive, only_one, updated-IsExclusive,
}

module _ (w : World) (c : ℕ) (ex : IsExclusive w) where
  -- What the invariant says of the handler where it stands.
  pub here_slot : (p : Phase) → (w.handlers c).phase ≡ p → holds p ≡ is_now w.active_connection c
  here_slot p same = ap holds (sym same) ∙ ex.slot c

  pub here_session : (p : Phase) → (w.handlers c).phase ≡ p → attached p ≡ is_now w.active_session c
  here_session p same = ap attached (sym same) ∙ ex.session c

  pub here_owned :
      (p : Phase) → (w.handlers c).phase ≡ p → Owns p (w.handlers c).session (w.handlers c).calls
  here_owned p same =
      subst (λ q. Owns q (w.handlers c).session (w.handlers c).calls) same (ex.owned c)

  -- Nobody else holds the slot, and no other session is active, while a handler holds it.
  pub other_slot :
      (x : ℕ)
      → is_now w.active_connection c ≡ true
      → (x == c) ≡ false
      → is_now w.active_connection x ≡ false
  other_slot x mine other = only_one w.active_connection c x mine other

  pub other_session :
      (x : ℕ)
      → is_now w.active_connection c ≡ true
      → (x == c) ≡ false
      → is_now w.active_session x ≡ false
  other_session x mine other = elim (Bool-cases (is_now w.active_session x)) [
    | inl theirs ↦
        let held = attached-holds (w.handlers x).phase (ex.session x ∙ theirs) in
        absurd (cc (held, ex.slot x, other_slot x mine other))
    | inr idle ↦ idle
  ]

  -- A step of a handler that leaves slot and session alone.
  pub same_slot :
      (h : Handler)
      → holds h.phase ≡ holds (w.handlers c).phase
      → attached h.phase ≡ attached (w.handlers c).phase
      → Owns h.phase h.session h.calls
      → IsExclusive (put c h w)
  same_slot h holding attachment owned =
      updated-IsExclusive w c h w.active_connection w.active_session ex (record {
        slot = holding ∙ ex.slot c;
        current = attachment ∙ ex.session c;
        owned = owned;
        slots = λ x other. refl;
        sessions = λ x other. refl;
      })
