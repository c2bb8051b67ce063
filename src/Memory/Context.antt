-- ===== src/Memory/Context.antt =====
-- src/phantom_runtime.py: `_build_subject_context`, which files all records under the subjects that
-- theirs are merged into. Its own walk along the merges is that of `_subject_resolve_merge`.
pub mod Filing
use phantom_runtime_lite.Prelude.{
  String, Option, none, some, List, [], ◌∷◌, ◌++◌, ◌==◌, string_eq, if◌then◌else◌,
}
use phantom_runtime_lite.Prelude.Dict.{Dict, lookup, insert}
use phantom_runtime_lite.Memory.Records.{Entry, Subject, Memory}
use phantom_runtime_lite.Memory.Registry.{entry_of, resolve_merge}

pub record Bucket (F Q D : Type 0) : Type 0 where
  pub subject : Option Subject
  pub questions : List (Entry Q)
  pub decisions : List (Entry D)
  pub facts : List (Entry F)

-- `subject_id or ""`
abbrev pub or_empty : Option String → String
or_empty none = ""
or_empty (some i) = i

unfoldable pub bucket_key : String → String
bucket_key i = if i == "" then "_unassigned" else i

-- The subject a record is filed under.
unfoldable pub filed_under : List Subject → Option String → String
filed_under subjects i = resolve_merge subjects (or_empty i)

module _ {F Q D : Type 0} (subjects : List Subject) where
  abbrev pub new_bucket : String → Bucket F Q D
  new_bucket i = record {
    subject = if i == "" then none else entry_of subjects i;
    questions = [];
    decisions = [];
    facts = [];
  }

  abbrev pub found_or_new : String → Option (Bucket F Q D) → Bucket F Q D
  found_or_new i none = new_bucket i
  found_or_new i (some b) = b

  -- `_bucket(i)`, and what is done to it.
  unfoldable pub on_bucket :
      String
      → (Bucket F Q D → Bucket F Q D)
      → Dict String (Bucket F Q D)
      → Dict String (Bucket F Q D)
  unfolding bucket_key
  on_bucket i f context =
      insert (bucket_key i) (f (found_or_new i (lookup (bucket_key i) context))) context

  -- A loop over the records of a kind.
  unfoldable pub file_all :
      {B : Type 0}
      → (Entry B → Bucket F Q D → Bucket F Q D)
      → List (Entry B)
      → Dict String (Bucket F Q D)
      → Dict String (Bucket F Q D)
  unfolding on_bucket filed_under
  file_all put [] context = context
  file_all put (e ∷ entries) context =
      file_all put entries (on_bucket (filed_under subjects e.subject_id) (put e) context)

module _ {F Q D : Type 0} where
  abbrev pub put_question : Entry Q → Bucket F Q D → Bucket F Q D
  put_question q b = record b { questions = b.questions ++ (q ∷ []) }

  abbrev pub put_decision : Entry D → Bucket F Q D → Bucket F Q D
  put_decision d b = record b { decisions = b.decisions ++ (d ∷ []) }

  abbrev pub put_fact : Entry F → Bucket F Q D → Bucket F Q D
  put_fact f b = record b { facts = b.facts ++ (f ∷ []) }

  unfoldable pub build_subject_context : Memory F Q D → Dict String (Bucket F Q D)
  unfolding file_all
  build_subject_context m = file_all m.subjects put_fact m.facts (
      file_all m.subjects put_decision m.decisions
        (file_all m.subjects put_question m.questions []))
