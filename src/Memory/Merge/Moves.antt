-- ===== src/Memory/Merge/Moves.antt =====
-- What `_subject_merge_transaction` of src/phantom_runtime.py does to the facts, questions and
-- decisions of the two subjects.
use phantom_runtime_lite.Prelude.{
  ℕ, ◌+◌, String, true, false, Option, some, List, [], ◌∷◌, map, ◌==◌, ==_refl, string_eq,
  option_eq, if◌then◌else◌, ◌≡◌, ◌≢◌, refl, ap, arith, Bool-cases, inl, inr,
}
use phantom_runtime_lite.Conversation.Text.{Unicode}
use phantom_runtime_lite.Memory.Records.{Entry, Memory, reassign, migrate_subject}
use phantom_runtime_lite.Memory.Merge.{merge_transaction, TransactionResult}

some_differ : (a b : String) → a ≢ b → (some b == some a) ≡ false
some_differ a b differ = ground arith

other_owner :
    (o : Option String) (a b : String) → (o == some a) ≡ true → a ≢ b → (o == some b) ≡ false
other_owner o a b mine differ = ground arith

module _ {B : Type 0} where
  unfoldable pub count_of : String → List (Entry B) → ℕ
  count_of s [] = 0
  count_of s (e ∷ es) = (if e.subject_id == some s then 1 else 0) + count_of s es

  -- What becomes of one entry: it belongs to `target` now if it belonged to `source`, and is the same
  -- otherwise.
  abbrev pub moved_entry : String → String → Entry B → Entry B
  moved_entry source target e =
      if e.subject_id == some source then record { subject_id = some target; rest = e.rest } else e

  -- Every entry of `source` belongs to `target` now, `n` of them; all other entries are the same, and
  -- the order is kept.
  pub record Moved (source target : String) (before after : List (Entry B)) (n : ℕ) : Type 0 where
    pub emptied : count_of source after ≡ 0
    pub gained : count_of target after ≡ count_of target before + count_of source before
    pub counted : n ≡ count_of source before
    pub entries : after ≡ map (moved_entry source target) before

  reassign-Moved :
      (source target : String) (es : List (Entry B))
      → source ≢ target
      → Moved source target es (reassign source target es).0 (reassign source target es).1
  unfolding reassign count_of
  reassign-Moved source target [] differ = record {
    emptied = refl;
    gained = refl;
    counted = refl;
    entries = refl;
  }
  reassign-Moved source target (e ∷ es) differ =
      let rest = reassign-Moved source target es differ in
      elim (Bool-cases (e.subject_id == some source)) [
        | inl mine ↦
            let theirs : (e.subject_id == some target) ≡ false =
              (other_owner e.subject_id source target mine differ) in
            record {
              emptied = rw (mine, some_differ source target differ) (omega (arith, rest.emptied));
              gained = rw (mine, theirs, ==_refl (some target)) (omega (arith, rest.gained));
              counted = rw (mine) (omega (arith, rest.counted));
              entries =
                  rw (mine) (
                    ap (λ es. record { subject_id = some target; rest = e.rest } ∷ es)
                      rest.entries);
            }
        | inr other ↦ record {
          emptied = rw (other, other) (omega (arith, rest.emptied));
          gained = rw (other) (omega (arith, rest.gained));
          counted = rw (other) (omega (arith, rest.counted));
          entries = rw (other) (ap (λ es. e ∷ es) rest.entries);
        }
      ]

  migrate_subject-Moved :
      (source target : String) (es : List (Entry B))
      → source ≢ ""
      → target ≢ ""
      → source ≢ target
      → Moved source target es
          (migrate_subject source target es).0
          (migrate_subject source target es).1
  unfolding migrate_subject
  migrate_subject-Moved source target es full full' differ =
      let no_source : (source == "") ≡ false = (ground arith) in
      let no_target : (target == "") ≡ false = (ground arith) in
      rw (no_source, no_target) (reassign-Moved source target es differ)

-- A merge of two different subjects with ids moves the facts, the questions and the decisions of the
-- source to the target, whether it ends in success or not: none is left with the source, and the
-- reported numbers are those of the records moved. A moved record keeps its place and all but its
-- subject; every other record stays as it was.
pub merge_transaction-Moved :
    {F Q D : Type 0} (u : Unicode) (now new_id source target : String) (m : Memory F Q D)
    → source ≢ ""
    → target ≢ ""
    → source ≢ target
    → (let done : Memory F Q D × TransactionResult =
          (merge_transaction u now new_id source target m) in
        Moved source target m.facts (done.0.facts) (done.1.migrated_facts)
        × Moved source target m.questions (done.0.questions) (done.1.migrated_questions)
        × Moved source target m.decisions (done.0.decisions) (done.1.migrated_decisions))
unfolding merge_transaction
merge_transaction-Moved u now new_id source target m full full' differ = (
  migrate_subject-Moved source target m.facts full full' differ,
  migrate_subject-Moved source target m.questions full full' differ,
  migrate_subject-Moved source target m.decisions full full' differ,
)
