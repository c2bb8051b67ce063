-- ===== src/Memory/Expansion/Nearest.antt =====
-- The subjects that src/phantom_runtime.py finds around a subject are those within the depth, each at
-- its distance.
use mathlib.Core.Path.{subst}
use phantom_runtime_lite.Prelude.{
  ℕ, zero, suc, ◌+◌, ◌≤◌, ◌<◌, String, true, false, none, List, [], ◌∷◌, ◌==◌, ==_refl, contains,
  string_eq, ◌≡◌, ◌⊎◌, refl, sym, ◌∙◌, arith, inl, inr,
}
use phantom_runtime_lite.Prelude.Dict.{Dict, lookup}
use phantom_runtime_lite.Memory.Graph.{SubjectEdge}
use phantom_runtime_lite.Memory.Expansion.{
  Found, Search, edges_from, visit, rounds, collect_related_subjects,
}
use phantom_runtime_lite.Memory.Expansion.Walks.{
  Route, here, onward, leads_to, leads_to-edges_from, At, Grows, Covers, contains_split,
  contains_head,
}
use phantom_runtime_lite.Memory.Expansion.Rounds.{InRound, visit-InRound}

-- Exactly the subjects that a walk of at most so many edges reaches, each at the least such number.
pub record IsNearest (graph : List SubjectEdge) (seed : String) (depth : ℕ)
    (found : Dict String Found) : Type 0 where
  pub sound :
      (i : String) (x : Found) → At i x found → Route graph seed x.distance i × (x.distance ≤ depth)
  pub complete :
      (k : ℕ) (i : String)
      → Route graph seed k i
      → k ≤ depth
      → (x : Found) × At i x found × (x.distance ≤ k)

-- Every target that has an id was found at a distance of at most `d`.
NearCovers : ℕ → List SubjectEdge → Dict String Found → Type 0
NearCovers d edges found =
    (j : String)
    → (j == "") ≡ false
    → leads_to j edges ≡ true
    → (y : Found) × At j y found × (y.distance ≤ d)

NearCovers-grown :
    (d : ℕ) (edges : List SubjectEdge) (a b : Dict String Found)
    → Grows a b
    → NearCovers d edges a
    → NearCovers d edges b
unfolding NearCovers Grows
NearCovers-grown d edges a b grows h j given l =
    let (y, at, near) = h j given l in (y, grows j y at, near)

abbrev origin : Found
origin = record { distance = 0; edge = none }

At-origin : (seed i : String) (x : Found) → At i x ((seed, origin) ∷ []) → (i ≡ seed) × (x ≡ origin)
unfolding lookup
At-origin seed i x at = (ground (arith, at), ground (arith, at))

origin-At : (seed : String) → At seed origin ((seed, origin) ∷ [])
unfolding lookup
origin-At seed = ground (arith, ==_refl seed)

lt_or_eq : (a n : ℕ) → a < suc n → (a < n) ⊎ (a ≡ n)
lt_or_eq a n h = ground arith

add_zero : (n : ℕ) → n + 0 ≡ n
add_zero n = omega arith

module _ (graph : List SubjectEdge) (seed : String) where
  -- What has been found after the distances up to `n`.
  record IsLevel (n : ℕ) (frontier : List String) (found : Dict String Found) : Type 0 where
    start : (x : Found) × At seed x found × (x.distance ≡ 0)
    reached :
        (i : String) (x : Found) → At i x found → Route graph seed x.distance i × (x.distance ≤ n)
    last : (i : String) (x : Found) → At i x found → x.distance ≡ n → contains frontier i ≡ true
    front : (i : String) → contains frontier i ≡ true → Route graph seed n i
    closed :
        (i : String) (x : Found)
        → At i x found
        → x.distance < n
        → NearCovers (suc x.distance) (edges_from i graph) found

  first-IsLevel : IsLevel 0 (seed ∷ []) ((seed, record { distance = 0; edge = none }) ∷ [])
  first-IsLevel = record {
    start = (origin, origin-At seed, refl);
    reached = λ i x at.
        let (same, first) = At-origin seed i x at in
        subst (λ y. Route graph seed y.distance i × (y.distance ≤ 0)) (sym first)
          (subst (Route graph seed 0) (sym same) here, omega arith);
    last = λ i x at nought.
        subst (λ k. contains (seed ∷ []) k ≡ true) (sym ((At-origin seed i x at).0))
          (contains_head seed []);
    front = λ i c. elim (contains_split seed [] i c) [
      | inl same ↦ subst (Route graph seed 0) (sym same) here
      | inr none_left ↦ cc
    ];
    closed = λ i x at less. absurd (omega arith);
  }

  empty-InRound :
      (n : ℕ) (found : Dict String Found)
      → InRound graph seed n found (record { found = found; next = [] })
  empty-InRound n found = record { fresh = λ i x at. inl at; queued = λ i c. cc }

  next-IsLevel :
      (n : ℕ) (frontier : List String) (found : Dict String Found)
      → IsLevel n frontier found
      → let s = visit graph (suc n) frontier (record { found = found; next = [] }) in
        IsLevel (suc n) s.next s.found
  unfolding Grows NearCovers Covers
  next-IsLevel n frontier found h =
      let s : Search = visit graph (suc n) frontier (record { found = found; next = [] }) in
      let (round, grows, covers) =
        visit-InRound graph seed n found frontier (record { found = found; next = [] })
          (empty-InRound n found) h.front in
      let (x0, at0, zero0) = h.start in
      record {
        start = (x0, grows seed x0 at0, zero0);
        reached = λ i x at. elim (round.fresh i x at) [
          | inl old ↦ let (walk, near) = h.reached i x old in (walk, omega (arith, near))
          | inr (far, walk, queued) ↦
              (subst (λ d. Route graph seed d i) (sym far) walk, omega (arith, far))
        ];
        last = λ i x at far. elim (round.fresh i x at) [
          | inl old ↦ absurd (omega (arith, (h.reached i x old).1, far))
          | inr (_, walk, queued) ↦ queued
        ];
        front = round.queued;
        closed = λ i x at less. elim (round.fresh i x at) [
          | inr (far, walk, queued) ↦ absurd (omega (arith, far))
          | inl old ↦ elim (lt_or_eq x.distance n less) [
            | inl before ↦
                NearCovers-grown (suc x.distance) (edges_from i graph) found s.found grows
                  (h.closed i x old before)
            | inr now ↦ λ j given l.
                let (y, there) = covers i (h.last i x old now) j given l in
                (
                  y,
                  there,
                  elim (round.fresh j y there) [
                    | inl earlier ↦ omega (arith, (h.reached j y earlier).1, now)
                    | inr (far, walk, queued) ↦ omega (arith, far, now)
                  ],
                )
          ]
        ];
      }

  rounds-IsLevel :
      (k n : ℕ) (frontier : List String) (found : Dict String Found)
      → IsLevel n frontier found
      → (last : List String) × IsLevel (k + n) last (rounds graph k n frontier found)
  unfolding rounds
  rounds-IsLevel zero n frontier found h =
      (frontier, subst (λ m. IsLevel m frontier found) (omega arith) h)
  rounds-IsLevel (suc k) n frontier found h =
      let s : Search = visit graph (suc n) frontier (record { found = found; next = [] }) in
      let (last, level) =
        rounds-IsLevel k (suc n) s.next s.found (next-IsLevel n frontier found h) in
      (
        last,
        subst (λ m. IsLevel m last (rounds graph k (suc n) s.next s.found)) (omega arith) level,
      )

  level_complete :
      (n : ℕ) (frontier : List String) (found : Dict String Found)
      → IsLevel n frontier found
      → (k : ℕ) (i : String) → Route graph seed k i
      → k ≤ n
      → (x : Found) × At i x found × (x.distance ≤ k)
  unfolding NearCovers
  level_complete n frontier found h k i here le =
      let (x, at, start) = h.start in (x, at, omega (arith, start))
  level_complete n frontier found h k i (onward {n = m} {i = j} walk _ given l) le =
      let (x, at, near) = level_complete n frontier found h m j walk (omega arith) in
      let (y, there, close) =
        h.closed j x at (omega (arith, near, le)) i given (leads_to-edges_from j i graph ∙ l) in
      (y, there, omega (arith, close, near))

-- The subjects found around a subject are exactly those that a walk of at most `depth` RELATED_TO edges
-- reaches from it, each at the length of its shortest walk.
pub collect_related_subjects-IsNearest :
    (graph : List SubjectEdge) (seed : String) (depth : ℕ)
    → IsNearest graph seed depth (collect_related_subjects graph seed depth)
unfolding collect_related_subjects
collect_related_subjects-IsNearest graph seed depth =
    let (frontier, level) =
      rounds-IsLevel graph seed depth 0 (seed ∷ []) ((seed, origin) ∷ [])
        (first-IsLevel graph seed) in
    let at_depth =
      subst
        (λ n.
          IsLevel graph seed n frontier (rounds graph depth 0 (seed ∷ []) ((seed, origin) ∷ [])))
        (add_zero depth) level in
    record {
      sound = at_depth.reached;
      complete = level_complete graph seed depth frontier _ at_depth;
    }
