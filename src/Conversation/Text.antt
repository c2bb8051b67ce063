-- ===== src/Conversation/Text.antt =====
-- Python's text functions that src/conversation uses, over the code points of a text. What Unicode
-- says of a character (white space, letter, lower case) is a parameter.
use Prim.Native.Char.{code}
use phantom_runtime_lite.Prelude.{
  ℕ, String, Bool, true, false, List, [], ◌∷◌, ◌++◌, ◌≡◌, refl, ◌∙◌, Eq, ℕ_discrete, nat_eq, ap,
  contains, if◌then◌else◌, Bool-cases, inl, inr,
}

abbrev pub Text : Type 0
Text = List ℕ

abbrev pub codes : String → Text
codes String.[] = []
codes (String.◌∷◌ c s) = code c ∷ codes s

-- The Unicode database: `str.isspace` and `str.isalpha` of one character, and `str.lower`.
pub record Unicode : Type 0 where
  pub is_space : ℕ → Bool
  pub is_alpha : ℕ → Bool
  pub lower : Text → Text

text_dec : Discrete Text
text_dec = hlevel ℕ_discrete

instance unfoldable pub text_eq : Eq Text
unfolding text_dec ℕ_discrete
text_eq = record { dec = text_dec }

module _ (p : ℕ → Bool) where
  unfoldable pub drop_while : Text → Text
  drop_while [] = []
  drop_while (c ∷ t) = elim (p c) [ true ↦ drop_while t | false ↦ c ∷ t ]

  unfoldable pub keep_end : ℕ → Text → Text
  keep_end c [] = if p c then [] else c ∷ []
  keep_end c (d ∷ r) = c ∷ d ∷ r

  -- `rstrip` of the characters with `p`
  unfoldable pub drop_end : Text → Text
  unfolding keep_end
  drop_end [] = []
  drop_end (c ∷ t) = keep_end c (drop_end t)

  unfoldable pub strip_by : Text → Text
  unfolding drop_while drop_end
  strip_by t = drop_end (drop_while t)

  -- The words so far come first in `split`: `word` is the one that is being read.
  unfoldable pub split_from : Text → Text → List Text
  split_from [] [] = []
  split_from (c ∷ word) [] = (c ∷ word) ∷ []
  split_from [] (c ∷ t) = split_from (if p c then [] else c ∷ []) t
  split_from (d ∷ word) (c ∷ t) =
      let next = split_from [] t in
      let more = split_from (d ∷ word ++ (c ∷ [])) t in if p c then (d ∷ word) ∷ next else more

  -- Starts with a character that lacks `p`, or is empty.
  abbrev StartsWithout : Text → Type 0
  StartsWithout [] = Unit
  StartsWithout (c ∷ t) = p c ≡ false

  drop_while-StartsWithout : (t : Text) → StartsWithout (drop_while t)
  unfolding drop_while
  drop_while-StartsWithout [] = tt
  drop_while-StartsWithout (c ∷ t) = starts (p c) refl (drop_while-StartsWithout t)
    where
      starts :
          (b : Bool)
          → p c ≡ b
          → StartsWithout (drop_while t)
          → StartsWithout (elim b [ true ↦ drop_while t | false ↦ c ∷ t ])
      starts true e h = h
      starts false e h = e

  drop_while_self : (t : Text) → StartsWithout t → drop_while t ≡ t
  unfolding drop_while
  drop_while_self [] h = refl
  drop_while_self (c ∷ t) h = rw (h, drop_while) refl

  keep_end-StartsWithout : (c : ℕ) (r : Text) → p c ≡ false → StartsWithout (keep_end c r)
  unfolding keep_end
  keep_end-StartsWithout c [] h = rw h h
  keep_end-StartsWithout c (d ∷ r) h = h

  drop_end-StartsWithout : (t : Text) → StartsWithout t → StartsWithout (drop_end t)
  unfolding drop_end
  drop_end-StartsWithout [] h = tt
  drop_end-StartsWithout (c ∷ t) h = keep_end-StartsWithout c (drop_end t) h

  keep_end-drop_end : (c : ℕ) (r : Text) → drop_end r ≡ r → drop_end (keep_end c r) ≡ keep_end c r
  unfolding drop_end
  keep_end-drop_end c [] h = elim (Bool-cases (p c)) [ inl e ↦ rw e | inr e ↦ rw e (rw e) ]
  keep_end-drop_end c (d ∷ r) h = rw h

  drop_end_idem : (t : Text) → drop_end (drop_end t) ≡ drop_end t
  unfolding drop_end
  drop_end_idem [] = refl
  drop_end_idem (c ∷ t) = keep_end-drop_end c (drop_end t) (drop_end_idem t)

  pub strip_by_idem : (t : Text) → strip_by (strip_by t) ≡ strip_by t
  strip_by_idem t =
      let s = drop_end-StartsWithout (drop_while t) (drop_while-StartsWithout t) in
      unfold strip_by in
      (ap drop_end (drop_while_self (drop_end (drop_while t)) s) ∙ drop_end_idem (drop_while t))

abbrev pub strip : Unicode → Text → Text
strip u = strip_by u.is_space

-- `t.rstrip(".,!?")`
abbrev pub is_mark : ℕ → Bool
is_mark = contains (codes ".,!?")

abbrev pub rstrip_marks : Text → Text
rstrip_marks = drop_end is_mark

-- `t.split()`
abbrev pub split : Unicode → Text → List Text
split u = split_from u.is_space []

-- `set(words)`
unfoldable pub distinct : List Text → List Text
distinct [] = []
distinct (w ∷ ws) = let rest = distinct ws in if contains ws w then rest else w ∷ rest
