-- ===== src/Tests/Graphs.antt =====
-- src/phantom_runtime.py: the graph of subjects, the search in it, and what is found more than once.
use phantom_runtime_lite.Prelude.{
  ℕ, ◌*◌, ◌/◌, min, max, ◌&&◌, String, true, false, some, List, [], ◌∷◌, ◌==◌, leb, length, nat_eq,
  string_eq, ◌≡◌, refl,
}
use phantom_runtime_lite.Prelude.Dict.{keys, lookup, insert}
use phantom_runtime_lite.Conversation.Text.{codes, Unicode, text_eq, strip_by}
use phantom_runtime_lite.Memory.Records.{Entry, Memory}
use phantom_runtime_lite.Memory.Registry.{resolve_merge}
use phantom_runtime_lite.Memory.Context.{build_subject_context}
use phantom_runtime_lite.Memory.Decisions.{Decision}
use phantom_runtime_lite.Memory.Questions.{Question}
use phantom_runtime_lite.Memory.Answers.{Known, Acting, Wording, sort_reverse, string_before}
use phantom_runtime_lite.Memory.Graph.{
  SubjectEdge, merge_candidate, related_to, build_subject_graph, link_all, weight_of, SubjectNode,
}
use phantom_runtime_lite.Memory.Graph.Symmetric.{IsSymmetric, build_subject_graph-IsSymmetric}
use phantom_runtime_lite.Memory.Expansion.{collect_related_subjects}
use phantom_runtime_lite.Memory.Expansion.Nearest.{IsNearest, collect_related_subjects-IsNearest}
use phantom_runtime_lite.Memory.Expansion.Mutual.{
  distance_in, collect_related_subjects-build_subject_graph,
}
use phantom_runtime_lite.Memory.Expansion.Items.{
  Key, key_eq, Weighted, collect, dedup, order, ranks_after,
}
use phantom_runtime_lite.Memory.Expansion.Items.Merged.{read, distance_of, chosen, collect_lem}
use phantom_runtime_lite.Memory.Expansion.Items.Merged
use phantom_runtime_lite.Memory.History.{
  HistoryEvent, check_consistency, status_events, inconsistent,
}
use phantom_runtime_lite.Memory.History.Settled.{verdict_if, absorbs, check_consistency_iff}

abbrev lowered : Unicode
lowered = record { is_space = λ c. c == 32; is_alpha = λ c. leb 65 c; lower = λ t. t }

abbrev halves : ℕ → ℕ → ℕ
halves a b = a * 10000 / b

abbrev no_mentions : String → ℕ
no_mentions i = 0

abbrev fact_of : String → String → String → Entry Known
fact_of subject i text = record {
  subject_id = some subject;
  rest = record { id = i; value = some (codes text); timestamp = "t1" };
}

abbrev shared_words : Memory Known (Question Wording) (Decision Acting)
shared_words = record {
  facts = fact_of "s1" "f1" "launch at noon" ∷ fact_of "s2" "f2" "launch at night" ∷ [];
  questions = [];
  decisions = [];
  subjects = [];
  history = [];
  approvals = [];
}

build_subject_graph-IsSymmetric_example :
    IsSymmetric (build_subject_graph lowered halves no_mentions shared_words)
build_subject_graph-IsSymmetric_example =
    build_subject_graph-IsSymmetric lowered halves no_mentions shared_words

abbrev node : String → List (List ℕ) → SubjectNode
node i tokens = record { subject_id = i; subject_name = []; tokens = tokens }

-- Two of four words are shared.
half_shared :
    weight_of "s2" "s1" related_to (
      link_all lowered halves
        (node "s1" (codes "launch" ∷ codes "at" ∷ codes "noon" ∷ [])
          ∷ node "s2" (codes "launch" ∷ codes "at" ∷ codes "night" ∷ [])
          ∷ [])
        [])
    ≡ some 5000
unfolding weight_of link_all string_eq nat_eq text_eq strip_by
half_shared = refl

abbrev arrow : String → String → SubjectEdge
arrow s t = record { source = s; target = t; relation = related_to; weight = 5000 }

abbrev chain : List SubjectEdge
chain =
    arrow "a" "b"
    ∷ (record (arrow "a" "x") { relation = merge_candidate })
    ∷ arrow "b" "c"
    ∷ arrow "c" "d"
    ∷ []

collect_related_subjects-IsNearest_example :
    IsNearest chain "a" 2 (collect_related_subjects chain "a" 2)
collect_related_subjects-IsNearest_example = collect_related_subjects-IsNearest chain "a" 2

within_two : keys (collect_related_subjects chain "a" 2) ≡ "a" ∷ "b" ∷ "c" ∷ []
unfolding collect_related_subjects string_eq lookup insert
within_two = refl

abbrev s1 : String
s1 = "s1"

abbrev s2 : String
s2 = "s2"

abbrev built : List SubjectEdge
built = build_subject_graph lowered halves no_mentions shared_words

s1_given : (s1 == "") ≡ false
unfolding string_eq
s1_given = refl

s2_given : (s2 == "") ≡ false
unfolding string_eq
s2_given = refl

collect_related_subjects-build_subject_graph_example :
    distance_in (lookup s2 (collect_related_subjects built s1 1))
    ≡ distance_in (lookup s1 (collect_related_subjects built s2 1))
collect_related_subjects-build_subject_graph_example =
    collect_related_subjects-build_subject_graph lowered halves no_mentions shared_words s1 s2 1
      s1_given s2_given

found_at_one : distance_in (lookup s2 (collect_related_subjects built s1 1)) ≡ some 1
unfolding build_subject_graph collect_related_subjects lookup insert string_eq nat_eq text_eq
    strip_by build_subject_context resolve_merge
found_at_one = refl

abbrev fact_1 : Key
fact_1 = ("FACT", "f1")

abbrev seen_at : ℕ → ℕ → Weighted
seen_at weight distance = record {
  weight = weight;
  item = record {
    entity = fact_1;
    relation = "A31_SUPPORTS";
    source_subject_id = "s1";
    distance = distance;
    consistency_flag = "UNKNOWN";
    provenance = [];
  };
}

abbrev seen_twice : List Weighted
seen_twice = seen_at 4000 2 ∷ seen_at 3000 1 ∷ []

collect_lem_example :
    (read distance_of (lookup fact_1 (collect seen_twice []))
      ≡ chosen min distance_of fact_1 seen_twice)
    × (read Merged.weight_in (lookup fact_1 (collect seen_twice []))
        ≡ chosen max Merged.weight_in fact_1 seen_twice)
collect_lem_example = collect_lem fact_1 seen_twice

seen_once : length (dedup seen_twice) ≡ 1
unfolding dedup key_eq string_eq
seen_once = refl

abbrev event : String → String → HistoryEvent
event at status = record {
  is_decision = true;
  event_id = at;
  timestamp = at;
  status_hint = some status;
}

abbrev reopened : List HistoryEvent
reopened = event "t1" "OPEN" ∷ event "t2" "DONE" ∷ event "t3" "IN_PROGRESS" ∷ []

check_consistency_iff_example :
    (check_consistency reopened).consistency
    ≡ verdict_if
        (leb 2 (length (status_events reopened)))
        (absorbs "DONE" (status_events reopened) && absorbs "CANCELLED" (status_events reopened))
check_consistency_iff_example = check_consistency_iff reopened

reopened_inconsistent : (check_consistency reopened).consistency ≡ inconsistent
unfolding check_consistency string_eq
reopened_inconsistent = refl

-- The greater weight comes first, and of two equal weights the smaller distance.
ordered :
    order (seen_at 3000 1 ∷ seen_at 4000 2 ∷ seen_at 3000 0 ∷ [])
    ≡ seen_at 4000 2 ∷ seen_at 3000 0 ∷ seen_at 3000 1 ∷ []
unfolding order ranks_after sort_reverse string_before nat_eq
ordered = refl
