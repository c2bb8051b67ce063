-- ===== src/Client/Events/Log.antt =====
-- What src/runtime_client/typed_event.py keeps of the stream of events.
use phantom_runtime_lite.Prelude.{
  ℕ, zero, suc, ◌+◌, ◌-◌, ◌≤◌, String, Bool, true, false, Option, none, some, List, [], ◌∷◌, ◌++◌,
  ◌==◌, string_eq, length, drop, length-append, length-drop, append_assoc, append_nil,
  if◌then◌else◌, ◌≡◌, refl, sym, ap, ◌∙◌, arith, Bool-cases, inl, inr,
}
use phantom_runtime_lite.Value.{Value, str, dict, Fields, end}
use phantom_runtime_lite.Client.Events.{
  get_or, LogEntry, TypedEventStore, new_store, Client, keep_last, transcript_entry, reply_entry,
  append_log, handle_transcript, handle_reply, handle_status, handle_latency, handle_error,
  handle_analysis, handle_other, handle_named, handle_typed, payload_of, handle_envelope,
  handle_line, handle_lines,
}

module _ {ℓ} {A : Type ℓ} where
  drop_over :
      (k : ℕ) (xs ys : List A)
      → k ≤ length xs
      → (m : ℕ) → drop (k + m) (xs ++ ys) ≡ drop m (drop k xs ++ ys)
  drop_over zero xs ys fits m = let same : 0 + m ≡ m = (omega arith) in rw (same) refl
  drop_over (suc k) [] ys fits m = absurd (omega arith)
  drop_over (suc k) (x ∷ xs) ys fits m =
      let same : suc k + m ≡ suc (k + m) = (omega arith) in
      rw (same) (drop_over k xs ys (omega (arith, fits)) m)

  -- To forget early and late is to forget once.
  keep_last-append :
      (n : ℕ) (xs ys : List A) → keep_last n (keep_last n xs ++ ys) ≡ keep_last n (xs ++ ys)
  unfolding keep_last
  keep_last-append n xs ys =
      let k = length xs - n in
      let all = length-append xs ys in
      let kept = length-append (drop k xs) ys in
      let left = length-drop k xs in
      let m = length (drop k xs ++ ys) - n in
      let split : length (xs ++ ys) - n ≡ k + m = (omega (arith, all, kept, left)) in
      rw (split) (sym (drop_over k xs ys (omega arith) m))

  keep_last-short : (n : ℕ) (xs : List A) → length xs ≤ n → keep_last n xs ≡ xs
  unfolding keep_last
  keep_last-short n xs short =
      let none_over : length xs - n ≡ 0 = (omega arith) in rw (none_over) refl

  length-keep_last : (n : ℕ) (xs : List A) → length (keep_last n xs) ≤ n
  unfolding keep_last
  length-keep_last n xs = rw (length-drop (length xs - n) xs) (omega arith)

-- What one line adds to the log, and the status that it reports.
module _ (c : Client) where
  abbrev pub named_entries : String → Fields → List LogEntry
  named_entries type payload =
      if type == "transcript"
      then transcript_entry c payload ∷ []
      else if type == "reply"
      then reply_entry c payload ∷ []
      else []

  abbrev pub typed_entries : Value → Fields → List LogEntry
  typed_entries (str type) payload = named_entries type payload
  typed_entries _ payload = []

  abbrev pub entries_of : Option Value → List LogEntry
  entries_of (some (dict envelope)) =
      typed_entries (get_or "type" (str "?") envelope)
        (payload_of c (get_or "payload" (dict end) envelope))
  entries_of _ = []

  abbrev pub all_entries : List String → List LogEntry
  all_entries [] = []
  all_entries (line ∷ rest) = entries_of (c.loads line) ++ all_entries rest

  -- The log of a store is what is left of all entries so far.
  abbrev Remembers : List LogEntry → TypedEventStore → Type 0
  Remembers past s = s.transcript_log ≡ keep_last c.maxlen past

  append_log-Remembers :
      (past : List LogEntry) (entry : LogEntry) (s : TypedEventStore)
      → Remembers past s
      → Remembers (past ++ (entry ∷ [])) (append_log c entry s)
  unfolding append_log
  append_log-Remembers past entry s held =
      ap (λ l. keep_last c.maxlen (l ++ (entry ∷ []))) held
      ∙ keep_last-append c.maxlen past (entry ∷ [])

  -- The handlers of the other types leave the log alone.
  if_log :
      (b : Bool) (x y : TypedEventStore) (l : List LogEntry)
      → x.transcript_log ≡ l
      → y.transcript_log ≡ l
      → (if b then x else y).transcript_log ≡ l
  if_log true x y l h k = h
  if_log false x y l h k = k

  handle_other_log :
      (type : String) (payload : Fields) (s : TypedEventStore)
      → (handle_other c type payload s).transcript_log ≡ s.transcript_log
  unfolding handle_other handle_status handle_latency handle_error handle_analysis
  handle_other_log type payload s =
      let l = s.transcript_log in
      if_log (type == "status") (handle_status c payload s) _ l refl (
        if_log (type == "latency") (handle_latency c payload s) _ l refl (
          if_log (type == "error") (handle_error c payload s) _ l refl
            (if_log (type == "analysis") (handle_analysis c payload s) _ l refl refl)))

  handle_named-Remembers :
      (past : List LogEntry) (type : String) (payload : Fields) (s : TypedEventStore)
      → Remembers past s
      → Remembers (past ++ named_entries type payload) (handle_named c type payload s)
  unfolding handle_named handle_transcript handle_reply
  handle_named-Remembers past type payload s held = elim (Bool-cases (type == "transcript")) [
    | inl t ↦ rw (t) (append_log-Remembers past (transcript_entry c payload) s held)
    | inr t ↦ elim (Bool-cases (type == "reply")) [
      | inl r ↦ rw (t, r) (append_log-Remembers past (reply_entry c payload) s held)
      | inr r ↦ rw (t, r, append_nil past) (handle_other_log type payload s ∙ held)
    ]
  ]

  handle_typed-Remembers :
      (past : List LogEntry) (type : Value) (payload : Fields) (s : TypedEventStore)
      → Remembers past s
      → Remembers (past ++ typed_entries type payload) (handle_typed c type payload s)
  unfolding handle_typed
  handle_typed-Remembers past (str type) payload s held =
      handle_named-Remembers past type payload s held
  handle_typed-Remembers past _ payload s held = rw (append_nil past) held

  handle_envelope-Remembers :
      (past : List LogEntry) (line : String) (o : Option Value) (s : TypedEventStore)
      → Remembers past s
      → Remembers (past ++ entries_of o) (handle_envelope c line o s)
  unfolding handle_envelope
  handle_envelope-Remembers past line none s held = rw (append_nil past) held
  handle_envelope-Remembers past line (some (dict envelope)) s held =
      handle_typed-Remembers past (get_or "type" (str "?") envelope)
        (payload_of c (get_or "payload" (dict end) envelope)) s held
  handle_envelope-Remembers past line (some _) s held = rw (append_nil past) held

  handle_lines-Remembers :
      (past : List LogEntry) (lines : List String) (s : TypedEventStore)
      → Remembers past s
      → Remembers (past ++ all_entries lines) (handle_lines c lines s)
  unfolding handle_lines handle_line
  handle_lines-Remembers past [] s held = rw (append_nil past) held
  handle_lines-Remembers past (line ∷ rest) s held =
      rw (sym (append_assoc past (entries_of (c.loads line)) (all_entries rest))) (
        handle_lines-Remembers (past ++ entries_of (c.loads line)) rest (handle_line c line s)
          (handle_envelope-Remembers past line (c.loads line) s held))

  -- Whatever lines come, the log holds the last entries of all transcripts and replies received, as
  -- many as it may, in order; it is all of them while they fit.
  pub handle_lines_log :
      (lines : List String)
      → ((handle_lines c lines new_store).transcript_log ≡ keep_last c.maxlen (all_entries lines))
        × (length (handle_lines c lines new_store).transcript_log ≤ c.maxlen
            × (length (all_entries lines) ≤ c.maxlen
                → (handle_lines c lines new_store).transcript_log ≡ all_entries lines))
  handle_lines_log lines =
      let kept =
        handle_lines-Remembers [] lines new_store
          (sym (keep_last-short c.maxlen [] (omega arith))) in
      (
        kept,
        (
          rw (kept) (length-keep_last c.maxlen (all_entries lines)),
          λ few. kept ∙ keep_last-short c.maxlen (all_entries lines) few,
        ),
      )
