-- ===== src/Memory/Answers/Counted.antt =====
-- How many answers of src/phantom_runtime.py there are for a timeline to show.
use phantom_runtime_lite.Prelude.{
  ℕ, suc, ◌+◌, String, Bool, false, ◌&&◌, none, List, [], ◌∷◌, ◌==◌, map, string_eq, ◌≡◌, refl, ap,
  ap₂, ◌∙◌, arith, Bool-cases, inl, inr, if◌then◌else◌,
}
use phantom_runtime_lite.Prelude.Dict.{Dict}
use phantom_runtime_lite.Memory.Lifecycle.{count_if}
use phantom_runtime_lite.Memory.Answers.{AnswerEntry, sort_reverse, put_sorted, keep_if, has_status}
use phantom_runtime_lite.Memory.Answers.Ordered.{count_if-append}
use phantom_runtime_lite.Memory.Answers.Contexts.{
  AnswerContext, Records, context_from_bucket, contexts_of, to_timeline_entry, TimelineEntry,
  timelines_of, timeline_of,
}

-- An answer as the timeline shows it.
abbrev pub shown_as : AnswerContext → AnswerEntry → TimelineEntry
shown_as c e = record {
  subject_id = c.subject_id;
  subject_name = c.subject_name;
  lifecycle = c.lifecycle;
  entry = e;
}

-- How many answered entries of a context have a property.
unfoldable pub answers_in : (TimelineEntry → Bool) → AnswerContext → List AnswerEntry → ℕ
answers_in p c [] = 0
answers_in p c (e ∷ entries) =
    let rest = answers_in p c entries in
    if e.status == "ANSWERED" && p (shown_as c e) then suc rest else rest

-- How many there are in all buckets but the one of the unassigned records.
unfoldable pub answers_of : (String → ℕ) → (TimelineEntry → Bool) → Dict String Records → ℕ
unfolding answers_in
answers_of mentions p [] = 0
answers_of mentions p ((i, b) ∷ buckets) =
    let rest = answers_of mentions p buckets in
    let c = context_from_bucket mentions i b in
    if i == "_unassigned" then rest else answers_in p c c.answer_entries + rest

count_if-timeline_of :
    (p : TimelineEntry → Bool) (c : AnswerContext) (entries : List AnswerEntry)
    → count_if p (map (to_timeline_entry c) (keep_if (has_status "ANSWERED") entries))
      ≡ answers_in p c entries
unfolding count_if keep_if to_timeline_entry answers_in
count_if-timeline_of p c [] = refl
count_if-timeline_of p c (e ∷ entries) = elim (Bool-cases (e.status == "ANSWERED")) [
  | inr miss ↦ rw (miss) (count_if-timeline_of p c entries)
  | inl hit ↦ elim (Bool-cases (p (shown_as c e))) [
    | inl holds ↦ rw (hit, holds) (ap suc (count_if-timeline_of p c entries))
    | inr fails ↦ rw (hit, fails) (count_if-timeline_of p c entries)
  ]
]

-- The sum of a measure of contexts.
unfoldable pub total : (AnswerContext → ℕ) → List AnswerContext → ℕ
total g [] = 0
total g (c ∷ contexts) = g c + total g contexts

module _ (precedes : AnswerContext → AnswerContext → Bool) (g : AnswerContext → ℕ) where
  total-put_sorted :
      (c : AnswerContext) (cs : List AnswerContext)
      → total g (put_sorted precedes c cs) ≡ g c + total g cs
  unfolding put_sorted total
  total-put_sorted c [] = refl
  total-put_sorted c (d ∷ cs) = elim (Bool-cases (precedes c d)) [
    | inl less ↦ rw (less) (omega (arith, total-put_sorted c cs))
    | inr more ↦ rw (more) refl
  ]

  pub total-sort_reverse :
      (cs : List AnswerContext) → total g (sort_reverse precedes cs) ≡ total g cs
  unfolding sort_reverse total
  total-sort_reverse [] = refl
  total-sort_reverse (c ∷ cs) =
      total-put_sorted c (sort_reverse precedes cs) ∙ ap (λ n. g c + n) (total-sort_reverse cs)

abbrev pub answers : (TimelineEntry → Bool) → AnswerContext → ℕ
answers p c = answers_in p c c.answer_entries

pub count_if-timelines_of :
    (p : TimelineEntry → Bool) (contexts : List AnswerContext)
    → count_if p (timelines_of contexts) ≡ total (answers p) contexts
unfolding timelines_of timeline_of total count_if
count_if-timelines_of p [] = refl
count_if-timelines_of p (c ∷ contexts) =
    count_if-append p (timeline_of c) (timelines_of contexts)
    ∙ ap₂ (λ m n. m + n) (count_if-timeline_of p c c.answer_entries)
        (count_if-timelines_of p contexts)

pub total-contexts_of :
    (mentions : String → ℕ) (p : TimelineEntry → Bool) (buckets : Dict String Records)
    → total (answers p) (contexts_of mentions none false buckets) ≡ answers_of mentions p buckets
unfolding contexts_of total answers_of
total-contexts_of mentions p [] = refl
total-contexts_of mentions p ((i, b) ∷ buckets) = elim (Bool-cases (i == "_unassigned")) [
  | inl hit ↦ rw (hit) (total-contexts_of mentions p buckets)
  | inr miss ↦ rw (miss) (
      ap (λ n. answers p (context_from_bucket mentions i b) + n)
        (total-contexts_of mentions p buckets))
]
