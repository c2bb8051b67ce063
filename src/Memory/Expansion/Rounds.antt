-- ===== src/Memory/Expansion/Rounds.antt =====
-- One round of the search of src/phantom_runtime.py for the subjects around a subject.
use mathlib.Core.Path.{subst}
use phantom_runtime_lite.Prelude.{
  ℕ, suc, String, true, false, none, some, List, [], ◌∷◌, ◌++◌, ◌==◌, contains, string_eq, ◌≡◌, ◌⊎◌,
  ◌∙◌, sym, arith, Bool-cases, Option-cases, inl, inr,
}
use phantom_runtime_lite.Prelude.Dict.{Dict, lookup}
use phantom_runtime_lite.Memory.Graph.{SubjectEdge}
use phantom_runtime_lite.Memory.Expansion.{
  Found, Search, edges_from, add_if_new, discover, scan, visit,
}
use phantom_runtime_lite.Memory.Expansion.Walks.{
  Route, onward, leads_to, leads_to-edges_from, At, At-of_insert, contains_added, contains_last,
  contains_one_of, Grows, Grows-trans, Covers, Grows-refl, Grows-insert, At-inserted, Covers-one,
  Covers-nil, Covers-cons, Covers-grown, leads_first, leads_later, contains_head, contains_tail,
  contains_split, discover_empty, discover_new, discover_old,
}

module _ (graph : List SubjectEdge) (seed : String) where
  -- What has been found in a round that started with `old` and looks at the distance `suc n`.
  pub record InRound (n : ℕ) (old : Dict String Found) (s : Search) : Type 0 where
    pub fresh :
        (i : String) (x : Found)
        → At i x s.found
        → At i x old
          ⊎ ((x.distance ≡ suc n) × Route graph seed (suc n) i × (contains s.next i ≡ true))
    pub queued : (i : String) → contains s.next i ≡ true → Route graph seed (suc n) i

  add-InRound :
      (n : ℕ) (old : Dict String Found) (s : Search) (e : SubjectEdge)
      → InRound n old s
      → Route graph seed (suc n) e.target
      → InRound n old (add_if_new (suc n) e none s)
  add-InRound n old s e h walk =
      let new : Found = (record { distance = suc n; edge = some e }) in
      record {
        fresh = λ i x at. elim (At-of_insert i e.target x new s.found at) [
          | inl here_it ↦ inr (
            ground (arith, here_it.1),
            subst (Route graph seed (suc n)) (sym (here_it.0)) walk,
            subst (λ k. contains (s.next ++ (e.target ∷ [])) k ≡ true) (sym (here_it.0))
                (contains_last s.next e.target),
          )
          | inr before ↦ elim (h.fresh i x before) [
            | inl there ↦ inl there
            | inr (d, w, q) ↦ inr (d, w, contains_added s.next e.target i q)
          ]
        ];
        queued = λ i q. elim (contains_one_of s.next e.target i q) [
          | inl before ↦ h.queued i before
          | inr same ↦ subst (Route graph seed (suc n)) (sym same) walk
        ];
      }

  -- A part of a round that looks at these edges.
  record Advance (n : ℕ) (old : Dict String Found) (edges : List SubjectEdge) (s s' : Search)
      : Type 0 where
    round : InRound n old s'
    grows : Grows s.found s'.found
    covers : Covers edges s'.found

  discover-Advance :
      (n : ℕ) (old : Dict String Found) (s : Search) (e : SubjectEdge)
      → InRound n old s
      → ((e.target == "") ≡ false → Route graph seed (suc n) e.target)
      → Advance n old (e ∷ []) s (discover (suc n) e s)
  discover-Advance n old s e h walk = elim (Bool-cases (e.target == "")) [
    | inl empty ↦
        subst (Advance n old (e ∷ []) s) (sym (discover_empty (suc n) e s empty)) (record {
          round = h;
          grows = Grows-refl s.found;
          covers = Covers-one e s.found (λ given. absurd (ground (arith, empty, given)));
        })
    | inr given ↦ elim (Option-cases (lookup e.target s.found)) [
      | inl new ↦
          subst (Advance n old (e ∷ []) s) (sym (discover_new (suc n) e s given new)) (record {
            round = add-InRound n old s e h (walk given);
            grows = Grows-insert e.target (record { distance = suc n; edge = some e }) s.found new;
            covers = Covers-one e (add_if_new (suc n) e none s).found (λ _. (
              record { distance = suc n; edge = some e },
              At-inserted e.target (record { distance = suc n; edge = some e }) s.found,
            ));
          })
      | inr (x, there) ↦
          subst (Advance n old (e ∷ []) s) (sym (discover_old (suc n) e s x given there)) (record {
            round = h;
            grows = Grows-refl s.found;
            covers = Covers-one e s.found (λ _. (x, there));
          })
    ]
  ]

  scan-Advance :
      (n : ℕ) (old : Dict String Found) (edges : List SubjectEdge) (s : Search)
      → InRound n old s
      → ((j : String) → (j == "") ≡ false → leads_to j edges ≡ true → Route graph seed (suc n) j)
      → Advance n old edges s (scan (suc n) edges s)
  unfolding scan
  scan-Advance n old [] s h walks = record {
    round = h;
    grows = Grows-refl s.found;
    covers = Covers-nil s.found;
  }
  scan-Advance n old (e ∷ edges) s h walks =
      let first =
        discover-Advance n old s e h (λ given. walks e.target given (leads_first e edges)) in
      let rest =
        scan-Advance n old edges (discover (suc n) e s) first.round
          (λ j given l. walks j given (leads_later j e edges l)) in
      record {
        round = rest.round;
        grows = Grows-trans _ _ _ first.grows rest.grows;
        covers =
            Covers-cons e edges _ (Covers-grown (e ∷ []) _ _ rest.grows first.covers) rest.covers;
      }

  pub visit-InRound :
      (n : ℕ) (old : Dict String Found) (frontier : List String) (s : Search)
      → InRound n old s
      → ((i : String) → contains frontier i ≡ true → Route graph seed n i)
      → InRound n old (visit graph (suc n) frontier s)
        × Grows s.found (visit graph (suc n) frontier s).found
        × ((i : String)
            → contains frontier i ≡ true
            → Covers (edges_from i graph) (visit graph (suc n) frontier s).found)
  unfolding visit
  visit-InRound n old [] s h walks = (h, Grows-refl s.found, λ i c. cc)
  visit-InRound n old (a ∷ frontier) s h walks =
      let first = scan-Advance n old (edges_from a graph) s h (λ j given l.
        onward (walks a (contains_head a frontier)) j given
          (sym (leads_to-edges_from a j graph) ∙ l)) in
      let (round, grows, covers) =
        visit-InRound n old frontier (scan (suc n) (edges_from a graph) s) first.round
          (λ i c. walks i (contains_tail a frontier i c)) in
      (
        round,
        Grows-trans _ _ _ first.grows grows,
        λ i c. elim (contains_split a frontier i c) [
          | inl same ↦
              subst (λ k. Covers (edges_from k graph) (visit graph (suc n) (a ∷ frontier) s).found)
                (sym same) (Covers-grown _ _ _ grows first.covers)
          | inr later ↦ covers i later
        ],
      )
