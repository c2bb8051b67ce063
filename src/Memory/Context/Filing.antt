-- ===== src/Memory/Context/Filing.antt =====
-- What the buckets of src/phantom_runtime.py hold.
use phantom_runtime_lite.Prelude.{
  String, Option, none, some, List, [], ◌∷◌, ◌++◌, ◌==◌, string_eq, append_assoc, append_nil,
  if◌then◌else◌, ◌≡◌, refl, sym, ap, ◌∙◌, arith, Bool-cases, Option-cases, inl, inr,
}
use phantom_runtime_lite.Prelude.Dict.{Dict, lookup, lookup-insert}
use phantom_runtime_lite.Memory.Records.{Entry, Subject, Memory}
use phantom_runtime_lite.Memory.Registry.{resolve_merge}
use phantom_runtime_lite.Memory.Context.{
  Bucket, bucket_key, new_bucket, found_or_new, on_bucket, filed_under, file_all, put_question,
  put_decision, put_fact, build_subject_context,
}

-- One field of a bucket, empty where there is no bucket.
abbrev pub field_of :
    {F Q D : Type 0} → {X : Type 0} → (Bucket F Q D → List X) → Option (Bucket F Q D) → List X
field_of v none = []
field_of v (some b) = v b

-- Where a record belongs: to the subject that its own is merged into, as `resolve_merge` finds it, or
-- among the unassigned ones.
abbrev pub home_of : List Subject → Option String → String
home_of subjects none = "_unassigned"
home_of subjects (some i) =
    let owner = resolve_merge subjects i in if owner == "" then "_unassigned" else owner

no_owner : (subjects : List Subject) → resolve_merge subjects "" ≡ ""
unfolding resolve_merge string_eq
no_owner subjects = refl

key-home_of :
    (subjects : List Subject) (o : Option String)
    → bucket_key (filed_under subjects o) ≡ home_of subjects o
unfolding bucket_key filed_under string_eq
key-home_of subjects none = rw (no_owner subjects) refl
key-home_of subjects (some i) = refl

-- The records that belong under the key.
abbrev pub under : {B : Type 0} → List Subject → String → List (Entry B) → List (Entry B)
under subjects key [] = []
under subjects key (e ∷ entries) =
    let rest = under subjects key entries in
    if key == home_of subjects e.subject_id then e ∷ rest else rest

module _ {F Q D X : Type 0} (subjects : List Subject) (v : Bucket F Q D → List X)
    (key : String) where
  -- What a step adds to the field of the bucket with the key.
  on_bucket_field :
      (i : String) (f : Bucket F Q D → Bucket F Q D) (context : Dict String (Bucket F Q D))
      (more : List X)
      → ((j : String) → v (new_bucket subjects j) ≡ [])
      → ((b : Bucket F Q D) → v (f b) ≡ v b ++ more)
      → field_of v (lookup key (on_bucket subjects i f context))
        ≡ field_of v (lookup key context) ++ (if key == bucket_key i then more else [])
  unfolding on_bucket
  on_bucket_field i f context more empty adds =
      let b = found_or_new subjects i (lookup (bucket_key i) context) in
      ap (field_of v) (lookup-insert key (bucket_key i) (f b) context)
      ∙ elim (Bool-cases (key == bucket_key i)) [
        | inl hit ↦
            let same : key ≡ bucket_key i = (ground arith) in
            elim (Option-cases (lookup (bucket_key i) context)) [
              | inl absent ↦
                  rw (hit, absent, same, absent) (adds (new_bucket subjects i) ∙ rw (empty i) refl)
              | inr (old, found) ↦ rw (hit, found, same, found) (adds old)
            ]
        | inr miss ↦ rw (miss) (sym (append_nil (field_of v (lookup key context))))
      ]

  -- A loop that leaves the field alone.
  file_all_other :
      {B : Type 0} (put : Entry B → Bucket F Q D → Bucket F Q D) (entries : List (Entry B))
      (context : Dict String (Bucket F Q D))
      → ((j : String) → v (new_bucket subjects j) ≡ [])
      → ((e : Entry B) (b : Bucket F Q D) → v (put e b) ≡ v b)
      → field_of v (lookup key (file_all subjects put entries context))
        ≡ field_of v (lookup key context)
  unfolding file_all
  file_all_other put [] context empty same = refl
  file_all_other put (e ∷ entries) context empty same =
      let i = filed_under subjects e.subject_id in
      file_all_other put entries (on_bucket subjects i (put e) context) empty same
      ∙ on_bucket_field i (put e) context [] empty (λ b. same e b ∙ sym (append_nil (v b)))
      ∙ elim (Bool-cases (key == bucket_key i)) [
        | inl hit ↦ rw (hit) (append_nil (field_of v (lookup key context)))
        | inr miss ↦ rw (miss) (append_nil (field_of v (lookup key context)))
      ]

module _ {F Q D B : Type 0} (subjects : List Subject) (v : Bucket F Q D → List (Entry B))
    (key : String) where
  -- A loop that files its records in the field.
  file_all-under :
      (put : Entry B → Bucket F Q D → Bucket F Q D) (entries : List (Entry B))
      (context : Dict String (Bucket F Q D))
      → ((j : String) → v (new_bucket subjects j) ≡ [])
      → ((e : Entry B) (b : Bucket F Q D) → v (put e b) ≡ v b ++ (e ∷ []))
      → field_of v (lookup key (file_all subjects put entries context))
        ≡ field_of v (lookup key context) ++ under subjects key entries
  unfolding file_all
  file_all-under put [] context empty adds = sym (append_nil (field_of v (lookup key context)))
  file_all-under put (e ∷ entries) context empty adds =
      let i = filed_under subjects e.subject_id in
      let old = field_of v (lookup key context) in
      file_all-under put entries (on_bucket subjects i (put e) context) empty adds
      ∙ ap (λ l. l ++ under subjects key entries)
          (on_bucket_field subjects v key i (put e) context (e ∷ []) empty (adds e))
      ∙ elim (Bool-cases (key == bucket_key i)) [
        | inl hit ↦
            rw (hit, sym (key-home_of subjects e.subject_id), hit)
              (append_assoc old (e ∷ []) (under subjects key entries))
        | inr miss ↦
            rw (miss, sym (key-home_of subjects e.subject_id), miss)
              (ap (λ l. l ++ under subjects key entries) (append_nil old))
      ]

-- The context files every record once, in order, under the subject that its own is merged into, as
-- `_subject_resolve_merge` finds it, or under the key for none: the questions, decisions and facts of each bucket are exactly those that
-- belong there, and no others.
pub build_subject_context-under :
    {F Q D : Type 0} (m : Memory F Q D) (key : String)
    → (field_of (λ b. b.questions) (lookup key (build_subject_context m))
        ≡ under m.subjects key m.questions)
      × ((field_of (λ b. b.decisions) (lookup key (build_subject_context m))
            ≡ under m.subjects key m.decisions)
          × (field_of (λ b. b.facts) (lookup key (build_subject_context m))
              ≡ under m.subjects key m.facts))
unfolding build_subject_context lookup
build_subject_context-under {F = F} {Q = Q} {D = D} m key =
    let s = m.subjects in
    let asked : Dict String (Bucket F Q D) = (file_all s put_question m.questions []) in
    let decided : Dict String (Bucket F Q D) = (file_all s put_decision m.decisions asked) in
    (
      file_all_other s (λ b. b.questions) key put_fact m.facts decided (λ j. refl) (λ e b. refl)
          ∙ file_all_other s (λ b. b.questions) key put_decision m.decisions asked (λ j. refl)
              (λ e b. refl)
          ∙ file_all-under s (λ b. b.questions) key put_question m.questions [] (λ j. refl)
              (λ e b. refl),
      (
        file_all_other s (λ b. b.decisions) key put_fact m.facts decided (λ j. refl) (λ e b. refl)
            ∙ file_all-under s (λ b. b.decisions) key put_decision m.decisions asked (λ j. refl)
                (λ e b. refl)
            ∙ ap (λ l. l ++ under s key m.decisions)
                (file_all_other s (λ b. b.decisions) key put_question m.questions [] (λ j. refl)
                  (λ e b. refl)),
        file_all-under s (λ b. b.facts) key put_fact m.facts decided (λ j. refl) (λ e b. refl)
            ∙ ap (λ l. l ++ under s key m.facts)
                (file_all_other s (λ b. b.facts) key put_decision m.decisions asked (λ j. refl)
                    (λ e b. refl)
                  ∙ file_all_other s (λ b. b.facts) key put_question m.questions [] (λ j. refl)
                      (λ e b. refl)),
      ),
    )
