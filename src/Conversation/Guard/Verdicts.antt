-- ===== src/Conversation/Guard/Verdicts.antt =====
-- What `is_meaningful` of src/conversation/hallucination_guard.py lets through.
use phantom_runtime_lite.Prelude.{
  ℕ, ◌≤◌, Bool, true, false, ◌||◌, ◌≡◌, refl, arith, leb, ltb, length, contains, nat_eq,
}
use phantom_runtime_lite.Conversation.Text.{Text, Unicode, text_eq, strip, split, strip_by_idem}
use phantom_runtime_lite.Conversation.Guard.{
  english, detect_language, english_passes, punctuation_only, is_meaningful,
}

-- White space around a text does not change the verdict.
pub is_meaningful-strip :
    (enabled : Bool) (u : Unicode) (text : Text)
    → is_meaningful enabled u (strip u text) ≡ is_meaningful enabled u text
unfolding is_meaningful
is_meaningful-strip enabled u text = rw (strip_by_idem u.is_space text)

Bool-or_true : (b : Bool) → (b || true) ≡ true
Bool-or_true true = refl
Bool-or_true false = refl

english_passes_words :
    (u : Unicode) (t : Text)
    → detect_language t ≡ english
    → leb 4 (length (split u t)) ≡ true
    → english_passes u t ≡ true
unfolding english_passes
english_passes_words u t lang words = rw (lang, words, Bool-or_true (contains t b'?'))

by_ltb : (n : ℕ) → 6 ≤ n → ltb n 6 ≡ false
by_ltb n h = ground arith

by_leb : (n : ℕ) → 4 ≤ n → leb 4 n ≡ true
by_leb n h = ground arith

-- A text of at least six characters that is not punctuation only, is detected as English and has
-- four words or more passes, whatever it says.
english_four_words :
    (u : Unicode) (text : Text)
    → 6 ≤ length (strip u text)
    → punctuation_only u (strip u text) ≡ false
    → detect_language (strip u text) ≡ english
    → 4 ≤ length (split u (strip u text))
    → is_meaningful true u text ≡ true
unfolding is_meaningful
english_four_words u text long letters lang words =
    let enough : ltb (length (strip u text)) 6 ≡ false = (by_ltb (length (strip u text)) long) in
    rw (
      enough,
      letters,
      english_passes_words u (strip u text) lang (by_leb (length (split u (strip u text))) words),
    )
