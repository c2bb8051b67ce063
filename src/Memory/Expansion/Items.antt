-- ===== src/Memory/Expansion/Items.antt =====
-- src/phantom_runtime.py: `_a34_dedup` and `_a34_order`, by which the items of an expanded context that
-- were found more than once become one. Weights are given in ten thousandths.
pub mod Merged
use phantom_runtime_lite.Prelude.{
  ℕ, max, String, Bool, not, ◌&&◌, ◌||◌, Option, none, some, List, [], ◌∷◌, ◌++◌, ◌==◌, contains,
  ltb, Eq, nat_eq, string_eq, if◌then◌else◌,
}
use phantom_runtime_lite.Prelude.Dict.{Dict, lookup, insert}
use phantom_runtime_lite.Memory.Answers.{keep_if, sort_reverse, string_before}

-- A type and an id, of an entity or of a reference.
abbrev pub Key : Type 0
Key = String × String

key_dec : Discrete Key
key_dec = hlevel (string_eq.dec)

instance unfoldable pub key_eq : Eq Key
unfolding key_dec
key_eq = record { dec = key_dec }

pub record Item : Type 0 where
  pub entity : Key
  pub relation : String
  pub source_subject_id : String
  pub distance : ℕ
  pub consistency_flag : String
  pub provenance : List Key

pub record Weighted : Type 0 where
  pub weight : ℕ
  pub item : Item

-- Whether the second record decides the relation and the distance.
abbrev pub is_better : Weighted → Weighted → Bool
is_better kept r =
    ltb r.item.distance kept.item.distance
    || (r.item.distance == kept.item.distance && ltb kept.weight r.weight)

unfoldable pub merge_record : Weighted → Weighted → Weighted
unfolding keep_if key_eq
merge_record kept r =
    let provenance =
      kept.item.provenance
      ++ keep_if (λ p. not (contains kept.item.provenance p)) r.item.provenance in
    let item = record kept.item { provenance = provenance } in
    record {
      weight = max kept.weight r.weight;
      item =
          if is_better kept r
          then record item {
            distance = r.item.distance;
            relation = r.item.relation;
            source_subject_id = r.item.source_subject_id;
          }
          else item;
    }

abbrev pub merged_with : Option Weighted → Weighted → Weighted
merged_with none r = r
merged_with (some kept) r = merge_record kept r

unfoldable pub collect : List Weighted → Dict Key Weighted → Dict Key Weighted
unfolding merge_record lookup insert
collect [] by_key = by_key
collect (r ∷ records) by_key =
    collect records (insert r.item.entity (merged_with (lookup r.item.entity by_key) r) by_key)

abbrev pub values : Dict Key Weighted → List Weighted
values [] = []
values ((_, v) ∷ d) = v ∷ values d

unfoldable pub dedup : List Weighted → List Weighted
unfolding collect
dedup records = values (collect records [])

-- The order of the keys, the other way round for an ascending sort.
unfoldable pub ranks_after : Weighted → Weighted → Bool
unfolding string_before
ranks_after a b =
    ltb a.weight b.weight
    || (b.weight == a.weight
        && (ltb b.item.distance a.item.distance
            || (b.item.distance == a.item.distance
                && string_before (b.item.entity.1) (a.item.entity.1))))

unfoldable pub order : List Weighted → List Weighted
unfolding sort_reverse ranks_after
order records = sort_reverse ranks_after records
