-- ===== src/Memory/Answers/Timeline.antt =====
-- The order of times in src/phantom_runtime.py, and the timeline over all subjects.
use phantom_runtime_lite.Prelude.{
  ℕ, String, Bool, false, List, [], ◌∷◌, take, nat_eq, string_eq, All, ◌≡◌, refl, ap₂, arith,
  Bool-cases, inl, inr,
}
use Prim.Native.Char.{code}
use text.Mathlib.TextEquality.{Char-path}
use phantom_runtime_lite.Conversation.Text.{Text, codes}
use phantom_runtime_lite.Memory.Records.{Memory}
use phantom_runtime_lite.Prelude.Dict.{Dict}
use phantom_runtime_lite.Memory.Lifecycle.{count_if}
use phantom_runtime_lite.Memory.Answers.{text_before, string_before}
use phantom_runtime_lite.Memory.Answers.Ordered.{IsDescending}
use phantom_runtime_lite.Memory.Answers.Linked.{text_before-asym, string_before-asym}
use phantom_runtime_lite.Memory.Answers.Counted.{answers_of}
use phantom_runtime_lite.Memory.Answers.Contexts.{Records, TimelineEntry, timeline_before}

pub string_before_irrefl : (a : String) → string_before a a ≡ false
string_before_irrefl a = elim (Bool-cases (string_before a a)) [
  | inl less ↦ string_before-asym a a less
  | inr more ↦ more
]

text_before-total : (s t : Text) → text_before s t ≡ false → text_before t s ≡ false → s ≡ t
unfolding text_before
text_before-total [] [] h g = refl
text_before-total [] (d ∷ t) h g = absurd (ground (arith, h))
text_before-total (c ∷ s) [] h g = absurd (ground (arith, g))
text_before-total (c ∷ s) (d ∷ t) h g = elim (Bool-cases (text_before s t)) [
  | inl less ↦ absurd (ground (arith, h, g, less, text_before-asym s t less))
  | inr more ↦ elim (Bool-cases (text_before t s)) [
    | inl less ↦ absurd (ground (arith, h, g, less, more))
    | inr more' ↦
        let same : c ≡ d = (ground (arith, h, g, more, more')) in
        ap₂ (λ e r. e ∷ r) same (text_before-total s t more more')
  ]
]

same_codes : (a b : String) → codes a ≡ codes b → a ≡ b
same_codes String.[] String.[] h = refl
same_codes String.[] (String.◌∷◌ d t) h = absurd (ground (arith, h))
same_codes (String.◌∷◌ c s) String.[] h = absurd (ground (arith, h))
same_codes (String.◌∷◌ c s) (String.◌∷◌ d t) h =
    let first : code c ≡ code d = (cc h) in
    let rest : codes s ≡ codes t = (cc h) in
    ap₂ (λ e r. String.◌∷◌ e r) (Char-path c d first) (same_codes s t rest)

pub string_before-total :
    (a b : String) → string_before a b ≡ false → string_before b a ≡ false → a ≡ b
unfolding string_before
string_before-total a b h g = same_codes a b (text_before-total (codes a) (codes b) h g)

abbrev IsAnswered : TimelineEntry → Type 0
IsAnswered t = t.entry.status ≡ "ANSWERED"

-- What is shown is the beginning, of at most `limit` entries, of a list in descending order that has
-- every answer of the buckets as often as these do, and nothing else.
pub record IsLatest (mentions : String → ℕ) (limit : ℕ) (buckets : Dict String Records)
    (shown : List TimelineEntry) : Type 0 where
  pub sorted : List TimelineEntry
  pub shows : shown ≡ take limit sorted
  pub newest : IsDescending timeline_before sorted
  pub same : (p : TimelineEntry → Bool) → count_if p sorted ≡ answers_of mentions p buckets
  pub answered : All IsAnswered sorted
