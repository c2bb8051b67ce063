-- ===== src/Tests/Merging.antt =====
-- src/phantom_runtime.py: a registry with a chain, and merges in it.
use phantom_runtime_lite.Prelude.{
  ℕ, String, true, false, none, some, List, [], ◌∷◌, ◌==◌, nat_eq, leb, ◌≡◌, ◌≢◌, ◌⊎◌, refl, ap,
  string_eq, option_eq,
}
use phantom_runtime_lite.Conversation.Text.{codes, Unicode, text_eq}
use phantom_runtime_lite.Memory.Records.{Entry, Subject, approve, Memory, reassign, migrate_subject}
use phantom_runtime_lite.Memory.Registry.{
  resolve_merge, follow, next_of, entry_of, truthy, merge_validate, check_all, check_target, walk,
}
use phantom_runtime_lite.Memory.Registry.Chains.{Chain, IsEnd}
use phantom_runtime_lite.Memory.Registry.Validated.{validated-resolve_merge}
use phantom_runtime_lite.Memory.Merge.{merge_transaction, TransactionResult}
use phantom_runtime_lite.Memory.Merge.Moves.{Moved, merge_transaction-Moved}
use phantom_runtime_lite.Memory.Approval.{Stamps}
use phantom_runtime_lite.Memory.Approval.Queue.{Request, create, execute}

abbrev merged_to : String → String → Subject
merged_to a b = record {
  id = a;
  canonical_name = codes a;
  merged_into = some b;
  merged_at = some "t";
}

abbrev alone : String → Subject
alone a = record { id = a; canonical_name = codes a; merged_into = none; merged_at = none }

abbrev short_chain : List Subject
short_chain = merged_to "a" "b" ∷ merged_to "b" "c" ∷ alone "c" ∷ []

resolve_short : resolve_merge short_chain "a" ≡ "c"
unfolding resolve_merge follow next_of entry_of truthy string_eq
resolve_short = refl

abbrev source : String
source = "a"

abbrev target : String
target = "c"

source_filled : source ≢ ""
source_filled p = absurd (cc)

target_filled : target ≢ ""
target_filled p = absurd (cc)

source_differs : source ≢ target
unfolding string_eq
source_differs p = let q : true ≡ false = (ap (λ x. x == source) p) in absurd (cc q)

short_chain_passes : merge_validate short_chain ≡ []
unfolding merge_validate check_all check_target walk next_of entry_of truthy string_eq
short_chain_passes = refl

validated-resolve_merge_example :
    IsEnd short_chain (resolve_merge short_chain source)
    ⊎ ((e : String) × (Chain short_chain 10 source e
          × (IsEnd short_chain e × resolve_merge short_chain source ≡ source)))
validated-resolve_merge_example =
    validated-resolve_merge short_chain source source_filled short_chain_passes

-- A chain of exactly ten hops passes validation, and its head is not resolved to its end.
abbrev long_chain : List Subject
long_chain =
    merged_to "0" "1"
    ∷ merged_to "1" "2"
    ∷ merged_to "2" "3"
    ∷ merged_to "3" "4"
    ∷ merged_to "4" "5"
    ∷ merged_to "5" "6"
    ∷ merged_to "6" "7"
    ∷ merged_to "7" "8"
    ∷ merged_to "8" "9"
    ∷ merged_to "9" "end"
    ∷ alone "end"
    ∷ []

long_chain_passes : merge_validate long_chain ≡ []
unfolding merge_validate check_all check_target walk next_of entry_of truthy string_eq
long_chain_passes = refl

long_chain_unresolved : resolve_merge long_chain "0" ≡ "0"
unfolding resolve_merge follow next_of entry_of truthy string_eq
long_chain_unresolved = refl

abbrev ascii : Unicode
ascii = record { is_space = λ c. c == 32; is_alpha = λ c. leb 65 c; lower = λ t. t }

abbrev owned_by : String → Entry ℕ
owned_by s = record { subject_id = some s; rest = 7 }

abbrev store : Memory ℕ ℕ ℕ
store = record {
  facts = owned_by "a" ∷ owned_by "c" ∷ owned_by "a" ∷ [];
  questions = owned_by "a" ∷ [];
  decisions = [];
  subjects = alone "a" ∷ alone "c" ∷ [];
  history = [];
  approvals = [];
}

merge_transaction-Moved_example :
    (let done : Memory ℕ ℕ ℕ × TransactionResult =
        (merge_transaction ascii "now" "mh" source target store) in
      Moved source target store.facts (done.0.facts) (done.1.migrated_facts)
      × Moved source target store.questions (done.0.questions) (done.1.migrated_questions)
      × Moved source target store.decisions (done.0.decisions) (done.1.migrated_decisions))
merge_transaction-Moved_example =
    merge_transaction-Moved ascii "now" "mh" source target store source_filled target_filled
      source_differs

two_moved : (merge_transaction ascii "now" "mh" source target store).1.migrated_facts ≡ 2
unfolding merge_transaction migrate_subject reassign string_eq option_eq
two_moved = refl

abbrev stamps : Stamps
stamps = record { now = "t"; later = "u"; history_id = "mh" }

abbrev requests : List Request
requests =
    create "t" "m1" source (codes "a") target (codes "c") 100 approve
    ∷ create "t" "m2" source (codes "a") target (codes "c") 100 approve
    ∷ execute stamps "m1"
    ∷ []
