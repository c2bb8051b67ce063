-- ===== src/Gateway/Lines/Queue.antt =====
-- The event queue of src/runtime/transport_gateway.py between its reader and its drain task.
use phantom_runtime_lite.Prelude.{
  ℕ, ◌+◌, ◌≤◌, ◌<◌, List, [], ◌∷◌, ◌++◌, length, length-append, ltb, ◌≡◌, sym, ap, ◌∙◌, arith,
  Bool-cases, inl, inr, append_assoc, append_nil, Sublist, skip, same_end, Sublist_refl,
  append-Sublist,
}
use mathlib.Core.Path.{subst}
use phantom_runtime_lite.Gateway.Lines.{enqueue_event, drain_event}

-- What happens to the queue, in the order of the event loop.
pub data Turn {ℓ} (A : Type ℓ) : Type ℓ where
  put : A → Turn A
  get : Turn A

module _ {ℓ} {A : Type ℓ} where
  abbrev pub puts : List (Turn A) → List A
  puts [] = []
  puts (put text ∷ turns) = text ∷ puts turns
  puts (get ∷ turns) = puts turns

module _ {ℓ} {A : Type ℓ} (maxsize : ℕ) where
  -- What is sent so far and the queue.
  abbrev pub turn : Turn A → List A × List A → List A × List A
  turn (put text) (sent, queue) = (sent, enqueue_event maxsize queue text)
  turn get (sent, queue) = let (out, queue') = drain_event queue in (sent ++ out, queue')

  abbrev pub turns_from : List A × List A → List (Turn A) → List A × List A
  turns_from s [] = s
  turns_from s (t ∷ turns) = turns_from (turn t s) turns

  -- The queue is bounded, and nothing is made up, doubled or put out of order.
  pub record IsLive (past : List A) (s : List A × List A) : Type ℓ where
    pub bounded : length s.1 ≤ maxsize
    pub in_order : Sublist (s.0 ++ s.1) past

  turn-put :
      (text : A) (past sent queue : List A)
      → IsLive past (sent, queue)
      → IsLive (past ++ (text ∷ [])) (turn (put text) (sent, queue))
  unfolding enqueue_event
  turn-put text past sent queue live = elim (Bool-cases (ltb (length queue) maxsize)) [
    | inl room ↦ rw (room) record {
      bounded = ground (arith, length-append queue (text ∷ []));
      in_order =
          rw (sym (append_assoc sent queue (text ∷ [])))
            (append-Sublist live.in_order (Sublist_refl (text ∷ [])));
    }
    | inr full ↦ rw (full) record {
      bounded = live.bounded;
      in_order =
          subst (λ l. Sublist l (past ++ (text ∷ []))) (append_nil (sent ++ queue))
            (append-Sublist live.in_order (skip same_end));
    }
  ]

  turn-get :
      (past sent queue : List A) → IsLive past (sent, queue) → IsLive past (turn get (sent, queue))
  unfolding drain_event
  turn-get past sent [] live = rw (append_nil sent) live
  turn-get past sent (text ∷ queue) live = record {
    bounded = omega (arith, live.bounded);
    in_order = rw (append_assoc sent (text ∷ []) queue) (live.in_order);
  }

  turns_from-IsLive :
      (past : List A) (s : List A × List A) (turns : List (Turn A))
      → IsLive past s
      → IsLive (past ++ puts turns) (turns_from s turns)
  turns_from-IsLive past s [] live = rw (append_nil past) live
  turns_from-IsLive past (sent, queue) (put text ∷ turns) live =
      rw (sym (append_assoc past (text ∷ []) (puts turns))) (
        turns_from-IsLive (past ++ (text ∷ [])) (turn (put text) (sent, queue)) turns
          (turn-put text past sent queue live))
  turns_from-IsLive past (sent, queue) (get ∷ turns) live =
      turns_from-IsLive past (turn get (sent, queue)) turns (turn-get past sent queue live)

  -- Whatever the reader puts and the drain task takes, in any order: the queue never exceeds its
  -- size, and what is sent and what waits are, in order and once, events that were put.
  pub turns_from-bounded : (turns : List (Turn A)) → IsLive (puts turns) (turns_from ([], []) turns)
  turns_from-bounded turns =
      turns_from-IsLive [] ([], []) turns (record { bounded = omega arith; in_order = same_end })

  enqueue_room :
      (text : A) (queue : List A)
      → length queue < maxsize
      → enqueue_event maxsize queue text ≡ queue ++ (text ∷ [])
  unfolding enqueue_event
  enqueue_room text queue room = ground arith

  turns_from_room :
      (s : List A × List A) (turns : List (Turn A))
      → length s.1 + length (puts turns) ≤ maxsize
      → (turns_from s turns).0 ++ (turns_from s turns).1 ≡ (s.0 ++ s.1) ++ puts turns
  unfolding drain_event
  turns_from_room s [] room = sym (append_nil (s.0 ++ s.1))
  turns_from_room (sent, queue) (put text ∷ turns) room =
      let more = length-append queue (text ∷ []) in
      let rest =
        turns_from_room (sent, queue ++ (text ∷ [])) turns (rw (more) (omega (arith, room))) in
      ap (λ q. (turns_from (sent, q) turns).0 ++ (turns_from (sent, q) turns).1)
        (enqueue_room text queue (omega (arith, room)))
      ∙ rest
      ∙ rw (sym (append_assoc sent queue (text ∷ [])))
          (append_assoc (sent ++ queue) (text ∷ []) (puts turns))
  turns_from_room (sent, []) (get ∷ turns) room =
      ap (λ l. (turns_from (l, []) turns).0 ++ (turns_from (l, []) turns).1) (append_nil sent)
      ∙ turns_from_room (sent, []) turns room
  turns_from_room (sent, text ∷ queue) (get ∷ turns) room =
      turns_from_room (sent ++ (text ∷ []), queue) turns (omega (arith, room))
      ∙ ap (λ l. l ++ puts turns) (append_assoc sent (text ∷ []) queue)

  -- While no more events are put than the queue holds, none is lost: the events sent and those that
  -- wait are all that were put.
  pub turns_from_complete :
      (turns : List (Turn A))
      → length (puts turns) ≤ maxsize
      → (turns_from ([], []) turns).0 ++ (turns_from ([], []) turns).1 ≡ puts turns
  turns_from_complete turns few = turns_from_room ([], []) turns (omega (arith, few))
