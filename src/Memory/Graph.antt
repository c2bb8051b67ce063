-- ===== src/Memory/Graph.antt =====
-- src/phantom_runtime.py: the graph of subjects: `_a32_tokenize`, `_a32_fact_overlap`, `_a32_build_edges`,
-- `build_subject_graph` and its two queries. The graph is its edges; the fields of a node that no edge
-- reads, an edge's id and origin, which its other fields determine, and the times of building are left
-- out. A weight is given in ten thousandths, to which the code rounds it; `round4` rounds a quotient.
-- Two scores compare with the threshold 0.3 as the quotients do.
pub mod Symmetric
use phantom_runtime_lite.Prelude.{
  ℕ, ◌+◌, ◌-◌, ◌*◌, String, Bool, true, false, not, ◌&&◌, ◌||◌, Option, none, some, List, [], ◌∷◌,
  ◌++◌, ◌==◌, contains, length, leb, ltb, string_eq, if◌then◌else◌,
}
use phantom_runtime_lite.Conversation.Text.{Text, codes, Unicode, text_eq, strip}
use phantom_runtime_lite.Memory.Records.{Entry, Memory}
use phantom_runtime_lite.Memory.Decisions.{Decision}
use phantom_runtime_lite.Memory.Questions.{Question}
use phantom_runtime_lite.Memory.Names.{merge_confidence}
use phantom_runtime_lite.Memory.Answers.{Known, Acting, Wording, keep_if}
use phantom_runtime_lite.Memory.Answers.Contexts.{
  AnswerContext, by_priority, build_all_subject_answer_contexts,
}

abbrev in_range : ℕ → ℕ → ℕ → Bool
in_range low high c = leb low c && leb c high

-- A digit, a Latin letter, a kana or a CJK ideograph
abbrev pub is_token_char : ℕ → Bool
is_token_char c =
    in_range 0x30 0x39 c
    || in_range 0x41 0x5A c
    || in_range 0x61 0x7A c
    || in_range 0x3040 0x30FF c
    || in_range 0x4E00 0x9FFF c

abbrev pub closed_run : Text → List Text
closed_run [] = []
closed_run (c ∷ run) = (c ∷ run) ∷ []

-- The runs of such characters, with the one that is being read.
unfoldable pub runs : Text → Text → List Text
runs run [] = closed_run run
runs run (c ∷ t) =
    let inside = runs (run ++ (c ∷ [])) t in
    let outside = closed_run run ++ runs [] t in if is_token_char c then inside else outside

-- A set is a list without repetitions.
unfoldable pub add_all : List Text → List Text → List Text
add_all set [] = set
add_all set (t ∷ ts) = add_all (if contains set t then set else set ++ (t ∷ [])) ts

-- `str(f.get("value", ""))` of a stored fact, which has a value: `none` is null.
abbrev pub value_text : Option Text → Text
value_text none = codes "None"
value_text (some t) = t

unfoldable pub subject_tokens : Unicode → List Text → List (Entry Known) → List Text
unfolding runs add_all
subject_tokens u set [] = set
subject_tokens u set (f ∷ facts) =
    subject_tokens u (add_all set (runs [] (u.lower (value_text f.rest.value)))) facts

pub record SubjectNode : Type 0 where
  pub subject_id : String
  pub subject_name : Text
  pub tokens : List Text

pub data Relation : Type 0 where
  merge_candidate related_to : Relation

pub record SubjectEdge : Type 0 where
  pub source : String
  pub target : String
  pub relation : Relation
  pub weight : ℕ

abbrev pub same_relation : Relation → Relation → Bool
same_relation merge_candidate merge_candidate = true
same_relation related_to related_to = true
same_relation _ _ = false

abbrev pub has_key : String → String → Relation → SubjectEdge → Bool
has_key s t r e = e.source == s && e.target == t && same_relation e.relation r

-- The weight of the edge with this key, if there is one: `seen` holds the keys of the edges.
unfoldable pub weight_of : String → String → Relation → List SubjectEdge → Option ℕ
weight_of s t r [] = none
weight_of s t r (e ∷ edges) =
    let later = weight_of s t r edges in if has_key s t r e then some e.weight else later

abbrev pub add_unless :
    Option ℕ → String → String → Relation → ℕ → List SubjectEdge → List SubjectEdge
add_unless (some seen) s t r w edges = edges
add_unless none s t r w edges =
    edges ++ ((record { source = s; target = t; relation = r; weight = w }) ∷ [])

unfoldable pub add_edge : String → String → Relation → ℕ → List SubjectEdge → List SubjectEdge
unfolding weight_of
add_edge s t r w edges = if s == t then edges else add_unless (weight_of s t r edges) s t r w edges

unfoldable pub add_both : String → String → Relation → ℕ → List SubjectEdge → List SubjectEdge
unfolding add_edge
add_both s t r w edges = add_edge t s r w (add_edge s t r w edges)

module _ (u : Unicode) (round4 : ℕ → ℕ → ℕ) where
  -- The body of the inner loop.
  unfoldable pub link_names : SubjectNode → SubjectNode → List SubjectEdge → List SubjectEdge
  unfolding add_both merge_confidence
  link_names a b edges =
      let name_a = strip u a.subject_name in
      let name_b = strip u b.subject_name in
      let confidence = merge_confidence u name_a name_b in
      if not (name_a == []) && not (name_b == []) && ltb 0 confidence
      then add_both a.subject_id b.subject_id merge_candidate (confidence * 100) edges
      else edges

  unfoldable pub link_facts : SubjectNode → SubjectNode → List SubjectEdge → List SubjectEdge
  unfolding add_both keep_if
  link_facts a b edges =
      let common = length (keep_if (contains b.tokens) a.tokens) in
      let union = length a.tokens + length b.tokens - common in
      if ltb 0 union && leb (3 * union) (10 * common)
      then add_both a.subject_id b.subject_id related_to (round4 common union) edges
      else edges

  unfoldable pub link : SubjectNode → SubjectNode → List SubjectEdge → List SubjectEdge
  unfolding link_names link_facts
  link a b edges =
      if a.subject_id == "" || b.subject_id == "" || a.subject_id == b.subject_id
      then edges
      else link_facts a b (link_names a b edges)

  unfoldable pub link_to : SubjectNode → List SubjectNode → List SubjectEdge → List SubjectEdge
  unfolding link
  link_to a [] edges = edges
  link_to a (b ∷ nodes) edges = link_to a nodes (link a b edges)

  unfoldable pub link_all : List SubjectNode → List SubjectEdge → List SubjectEdge
  unfolding link_to
  link_all [] edges = edges
  link_all (a ∷ nodes) edges = link_all nodes (link_to a nodes edges)

  unfoldable pub node_of : AnswerContext → SubjectNode
  unfolding subject_tokens
  node_of c = record {
    subject_id = c.subject_id;
    subject_name = c.subject_name;
    tokens = subject_tokens u [] c.facts;
  }

  unfoldable pub nodes_of : List AnswerContext → List SubjectNode
  unfolding node_of
  nodes_of [] = []
  nodes_of (c ∷ contexts) =
      let nodes = nodes_of contexts in
      if c.subject_id == "_unassigned" then nodes else node_of c ∷ nodes

  unfoldable pub build_subject_graph :
      (String → ℕ) → Memory Known (Question Wording) (Decision Acting) → List SubjectEdge
  unfolding nodes_of link_all build_all_subject_answer_contexts
  build_subject_graph mentions m =
      link_all (nodes_of (build_all_subject_answer_contexts mentions none by_priority false m)) []

abbrev pub is_incident : String → SubjectEdge → Bool
is_incident i e = e.source == i || e.target == i

unfoldable pub get_related_subjects : String → List SubjectEdge → List SubjectEdge
unfolding keep_if
get_related_subjects i graph = if i == "" then [] else keep_if (is_incident i) graph

unfoldable pub get_merge_candidate_subjects : String → List SubjectEdge → List SubjectEdge
unfolding get_related_subjects keep_if
get_merge_candidate_subjects i graph =
    keep_if (λ e. same_relation e.relation merge_candidate) (get_related_subjects i graph)
