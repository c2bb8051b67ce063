-- ===== src/Gateway/Sessions/Admission.antt =====
-- Who is let in by src/runtime/transport_gateway.py.
use phantom_runtime_lite.Prelude.{
  ℕ, Bool, true, false, ◌&&◌, Option, none, some, List, [], ◌∷◌, ◌==◌, nat_eq, contains, ◌≡◌, ◌↔◌,
  refl, sym, ap, ◌∙◌, arith, Bool-cases, inl, inr, ==_refl,
}
use phantom_runtime_lite.Conversation.Text.{Text, Unicode, text_eq, strip}
use phantom_runtime_lite.Gateway.Provider.{
  Selection, selected, rejected, check_supported, check_stripped, select_values,
  select_provider_from_query, supported_providers,
}
use phantom_runtime_lite.Gateway.Shell.{Readiness, is_ready}
use phantom_runtime_lite.Gateway.Sessions.{
  partition_query, proceed, health_paths, ws_path, answer_slot, answer_ws, answer_path,
  process_request, arrived, claimed, relaying, released, World, new_world, is_now, claim, enter,
  release, Step, arrive, disconnect, on_arrive, on_disconnect, step, run_steps,
}
use phantom_runtime_lite.Gateway.Sessions.Exclusive.{holds}
use phantom_runtime_lite.Gateway.Sessions.Steps.{run_steps-IsExclusive}

abbrev pub is_selected : Selection → Bool
is_selected (selected provider) = true
is_selected (rejected why) = false

abbrev pub is_free : Option ℕ → Bool
is_free none = true
is_free (some c) = false

answer_ws_iff :
    (choice : Selection) (active : Option ℕ)
    → (answer_ws choice active ≡ proceed) ↔ ((is_selected choice && is_free active) ≡ true)
unfolding answer_ws answer_slot
answer_ws_iff (rejected why) active = (λ p. absurd (cc p), λ p. absurd (cc p))
answer_ws_iff (selected provider) none = (λ p. refl, λ p. refl)
answer_ws_iff (selected provider) (some c) = (λ p. absurd (cc p), λ p. absurd (cc p))

no_health_path : contains health_paths ws_path ≡ false
unfolding text_eq
no_health_path = refl

module _ (u : Unicode) (provider_values : Text → Option (List Text)) where
  abbrev pub selection_of : Text → Selection
  selection_of target = select_provider_from_query u provider_values (partition_query target).1

  -- What a request needs to reach the handshake.
  abbrev pub admits : Text → Readiness → Option ℕ → Bool
  admits target readiness active =
      ((partition_query target).0 == ws_path)
      && (is_ready readiness && (is_selected (selection_of target) && is_free active))

  answer_path_iff :
      (path query : Text) (readiness : Readiness) (active : Option ℕ)
      → (answer_path u provider_values path query readiness active ≡ proceed) ↔ (
          ((path == ws_path)
            && (is_ready readiness
                && (is_selected (select_provider_from_query u provider_values query)
                    && is_free active)))
          ≡ true)
  unfolding answer_path
  answer_path_iff path query readiness active = elim (Bool-cases (path == ws_path)) [
    | inl ws ↦
        let same : path ≡ ws_path = (ground arith) in
        let other : contains health_paths path ≡ false =
          (ap (contains health_paths) same ∙ no_health_path) in
        elim (Bool-cases (is_ready readiness)) [
          | inl ready ↦
              rw (other, ws, ready)
                (answer_ws_iff (select_provider_from_query u provider_values query) active)
          | inr waiting ↦ rw (other, ws, waiting) (λ p. absurd (cc p), λ p. absurd (cc p))
        ]
    | inr elsewhere ↦ elim (Bool-cases (contains health_paths path)) [
      | inl health ↦ elim (Bool-cases (is_ready readiness)) [
        | inl ready ↦ rw (health, elsewhere, ready) (λ p. absurd (cc p), λ p. absurd (cc p))
        | inr waiting ↦ rw (health, elsewhere, waiting) (λ p. absurd (cc p), λ p. absurd (cc p))
      ]
      | inr other ↦ rw (other, elsewhere) (λ p. absurd (cc p), λ p. absurd (cc p))
    ]
  ]

  -- A request reaches the handshake exactly if its path is that of the WebSocket, the shell is ready,
  -- the query selects a provider and no connection is active.
  pub process_request_iff :
      (target : Text) (readiness : Readiness) (active : Option ℕ)
      → (process_request u provider_values target readiness active ≡ proceed)
        ↔ (admits target readiness active ≡ true)
  unfolding process_request
  process_request_iff target readiness active =
      answer_path_iff (partition_query target).0 (partition_query target).1 readiness active

abbrev Supported : Selection → Type 0
Supported (selected provider) = contains supported_providers provider ≡ true
Supported (rejected why) = Unit

check_supported-Supported : (provider : Text) → Supported (check_supported provider)
unfolding check_supported
check_supported-Supported provider = elim (Bool-cases (contains supported_providers provider)) [
  | inl known ↦ rw (known) known
  | inr unknown ↦ rw (unknown) tt
]

check_stripped-Supported : (u : Unicode) (v : Text) → Supported (check_stripped u v)
unfolding check_stripped
check_stripped-Supported u [] = tt
check_stripped-Supported u (c ∷ cs) = check_supported-Supported (u.lower (c ∷ cs))

select_values-Supported : (u : Unicode) (vs : Option (List Text)) → Supported (select_values u vs)
unfolding select_values
select_values-Supported u none = tt
select_values-Supported u (some []) = tt
select_values-Supported u (some (v ∷ more)) = check_stripped-Supported u (strip u v)

-- The claim of a connection that finds the slot free.
claims :
    (w : World) (c : ℕ) (choice : Selection)
    → Supported choice
    → is_selected choice ≡ true
    → (w.handlers c).phase ≡ arrived
    → w.active_connection ≡ none
    → (provider : Text) × (((step (arrive c choice) w).active_connection ≡ some c)
        × ((((step (arrive c choice) w).handlers c).phase ≡ claimed provider)
            × (contains supported_providers provider ≡ true)))
unfolding step on_arrive enter claim
claims w c (rejected why) known chosen here free = absurd (cc chosen)
claims w c (selected provider) known chosen here free =
    rw (here, free) (provider, (refl, (rw (==_refl c) refl, known)))

free-none : (o : Option ℕ) → is_free o ≡ true → o ≡ none
free-none none h = refl
free-none (some c) h = absurd (cc h)

released_by :
    (steps : List Step) (c : ℕ)
    → ((run_steps steps new_world).handlers c).phase ≡ relaying
    → ((step (disconnect c) (run_steps steps new_world)).active_connection ≡ none)
      × (((step (disconnect c) (run_steps steps new_world)).handlers c).phase ≡ released)
unfolding step on_disconnect release
released_by steps c here =
    let w = run_steps steps new_world in
    let mine : is_now w.active_connection c ≡ true =
      (sym ((run_steps-IsExclusive steps).slot c) ∙ ap holds here) in
    rw (here, mine) (refl, rw (==_refl c) refl)

others_stay :
    (w : World) (c x : ℕ)
    → (w.handlers c).phase ≡ relaying
    → (w.handlers x).phase ≡ arrived
    → ((step (disconnect c) w).handlers x).phase ≡ arrived
unfolding step on_disconnect release
others_stay w c x here there = elim (Bool-cases (x == c)) [
  | inl hit ↦ let same : x ≡ c = (ground arith) in absurd (cc (here, there, same))
  | inr miss ↦ rw (here, miss) there
]

module _ (u : Unicode) (provider_values : Text → Option (List Text)) where
  -- What a connection gets that claims the slot: it is the active one, with a supported provider.
  abbrev pub Claims : World → ℕ → Text → Type 0
  Claims w c target =
      let w' = step (arrive c (selection_of u provider_values target)) w in
      (provider : Text) × ((w'.active_connection ≡ some c)
        × (((w'.handlers c).phase ≡ claimed provider)
            × (contains supported_providers provider ≡ true)))

  -- A request that is let through to the handshake claims the slot, for a supported provider, if its
  -- handler starts before any other step.
  pub process_request-Claims :
      (w : World) (c : ℕ) (target : Text) (readiness : Readiness)
      → (w.handlers c).phase ≡ arrived
      → process_request u provider_values target readiness w.active_connection ≡ proceed
      → Claims w c target
  unfolding select_provider_from_query
  process_request-Claims w c target readiness here passed =
      let ok : admits u provider_values target readiness w.active_connection ≡ true =
        ((process_request_iff u provider_values target readiness w.active_connection).0 passed) in
      claims w c (selection_of u provider_values target)
        (select_values-Supported u (provider_values (partition_query target).1)) (ground arith) here
        (free-none w.active_connection (ground arith))

  -- A client that reconnects is not kept waiting: whatever came before, once the relaying connection
  -- is lost, the next handler with a valid provider claims the slot, though the old session has not
  -- been torn down yet.
  pub reconnect-Claims :
      (steps : List Step) (c x : ℕ) (target : Text)
      → ((run_steps steps new_world).handlers c).phase ≡ relaying
      → ((run_steps steps new_world).handlers x).phase ≡ arrived
      → is_selected (selection_of u provider_values target) ≡ true
      → Claims (step (disconnect c) (run_steps steps new_world)) x target
        × (((step (disconnect c) (run_steps steps new_world)).handlers c).phase ≡ released)
  unfolding select_provider_from_query
  reconnect-Claims steps c x target here there chosen =
      let w = run_steps steps new_world in
      let (free, gone) = released_by steps c here in
      (
        claims (step (disconnect c) w) x (selection_of u provider_values target)
            (select_values-Supported u (provider_values (partition_query target).1)) chosen
            (others_stay w c x here there) free,
        gone,
      )
