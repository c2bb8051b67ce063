-- ===== src/Memory/Links/Loops.antt =====
-- Loops of src/phantom_runtime.py that look up every loaded record again by its id, against one pass
-- over the records.
use phantom_runtime_lite.Prelude.{
  String, Bool, false, ◌||◌, List, [], ◌∷◌, ◌++◌, map, ◌==◌, contains, string_eq, ==_refl, All,
  append_assoc, if◌then◌else◌, ◌≡◌, refl, sym, ap, ◌∙◌, arith, Bool-cases, inl, inr,
}

module _ {A : Type 0} (id_of : A → String) where
  abbrev pub ids : List A → List String
  ids = map id_of

  -- No id stands twice.
  abbrev pub Distinct : List A → Type 0
  Distinct [] = Unit
  Distinct (x ∷ xs) = (contains (ids xs) (id_of x) ≡ false) × Distinct xs

  -- The first record with the id is replaced.
  abbrev pub replace_first : String → (A → A) → List A → List A
  replace_first i f [] = []
  replace_first i f (x ∷ xs) =
      let rest = replace_first i f xs in if id_of x == i then f x ∷ xs else x ∷ rest

  -- The loop over the loaded records.
  abbrev pub replace_each : (A → Bool) → (A → A) → List A → List A → List A
  replace_each p f [] stored = stored
  replace_each p f (x ∷ loaded) stored =
      replace_each p f loaded (if p x then replace_first (id_of x) f stored else stored)

  -- One pass.
  abbrev pub revise : (A → Bool) → (A → A) → List A → List A
  revise p f [] = []
  revise p f (x ∷ xs) = (if p x then f x else x) ∷ revise p f xs

  first_behind :
      (done : List A) (x : A) (xs : List A) (f : A → A)
      → contains (ids done) (id_of x) ≡ false
      → replace_first (id_of x) f (done ++ (x ∷ xs)) ≡ done ++ (f x ∷ xs)
  first_behind [] x xs f absent = rw (==_refl (id_of x)) refl
  first_behind (d ∷ done) x xs f absent =
      let other : (id_of d == id_of x) ≡ false = (ground arith) in
      let later : contains (ids done) (id_of x) ≡ false = (ground arith) in
      rw (other) (ap (λ l. d ∷ l) (first_behind done x xs f later))

  ids-one :
      (done : List A) (y : A) (i : String)
      → contains (ids (done ++ (y ∷ []))) i ≡ (contains (ids done) i || (i == id_of y))
  ids-one [] y i = ground arith
  ids-one (d ∷ done) y i = ground (arith, ids-one done y i)

  still_absent :
      (done : List A) (y : A) (xs : List A)
      → contains (ids xs) (id_of y) ≡ false
      → All (λ x. contains (ids done) (id_of x) ≡ false) xs
      → All (λ x. contains (ids (done ++ (y ∷ []))) (id_of x) ≡ false) xs
  still_absent done y [] unlike absent = tt
  still_absent done y (x ∷ xs) unlike (here, rest) =
      let differs : (id_of x == id_of y) ≡ false = (ground arith) in
      let later : contains (ids xs) (id_of y) ≡ false = (ground arith) in
      (ids-one done y (id_of x) ∙ rw (here, differs) refl, still_absent done y xs later rest)

  replaced_behind :
      (p : A → Bool) (f : A → A) (same_id : (x : A) → id_of (f x) ≡ id_of x) (done loaded : List A)
      → Distinct loaded
      → All (λ x. contains (ids done) (id_of x) ≡ false) loaded
      → replace_each p f loaded (done ++ loaded) ≡ done ++ revise p f loaded
  replaced_behind p f same_id done [] distinct absent = refl
  replaced_behind p f same_id done (x ∷ loaded) (unlike, distinct) (here, rest) =
      elim (Bool-cases (p x)) [
        | inl yes_ ↦
            let unlike' : contains (ids loaded) (id_of (f x)) ≡ false = (rw (same_id x) unlike) in
            rw (yes_) (
              ap (replace_each p f loaded)
                (first_behind done x loaded f here ∙ sym (append_assoc done (f x ∷ []) loaded))
              ∙ replaced_behind p f same_id (done ++ (f x ∷ [])) loaded distinct
                  (still_absent done (f x) loaded unlike' rest)
              ∙ append_assoc done (f x ∷ []) (revise p f loaded))
        | inr no_ ↦ rw (no_) (
            ap (replace_each p f loaded) (sym (append_assoc done (x ∷ []) loaded))
            ∙ replaced_behind p f same_id (done ++ (x ∷ [])) loaded distinct
                (still_absent done x loaded unlike rest)
            ∙ append_assoc done (x ∷ []) (revise p f loaded))
      ]

  none_done : (xs : List A) → All (λ x. contains (ids []) (id_of x) ≡ false) xs
  none_done [] = tt
  none_done (x ∷ xs) = (refl, none_done xs)

  pub replace_each-revise :
      (p : A → Bool) (f : A → A) (xs : List A)
      → ((x : A) → id_of (f x) ≡ id_of x)
      → Distinct xs
      → replace_each p f xs xs ≡ revise p f xs
  replace_each-revise p f xs same_id distinct =
      replaced_behind p f same_id [] xs distinct (none_done xs)
