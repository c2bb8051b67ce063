-- ===== src/Conversation/Guard.antt =====
-- src/conversation/hallucination_guard.py: `is_meaningful`, without its tracing. `enabled` is the
-- flag that the module reads from the environment. The `except` around the language detection is
-- left out: the detection cannot raise.
pub mod Verdicts
use phantom_runtime_lite.Prelude.{
  ℕ, ◌+◌, ◌*◌, Bool, true, false, not, ◌&&◌, ◌||◌, List, [], ◌∷◌, ltb, leb, length, all, any, ◌==◌,
  contains, nat_eq, if◌then◌else◌, map,
}
use phantom_runtime_lite.Conversation.Text.{
  Text, codes, Unicode, text_eq, strip, rstrip_marks, split, distinct,
}
use phantom_runtime_lite.Conversation.Speaker.{filler_patterns}

abbrev pub hallucinations : List Text
hallucinations = map codes (
    "ご視聴ありがとうございました" ∷ "字幕は自動生成されています" ∷ "この動画は" ∷ "翻訳" ∷ "thank you for watching"
    ∷ "please subscribe" ∷ "like and subscribe" ∷ "thanks for watching" ∷ "[music]" ∷ "(music)"
    ∷ "♪" ∷ "…" ∷ "." ∷ "。" ∷ [])

pub data Language : Type 0 where
  unknown japanese english : Language

abbrev pub between : ℕ → ℕ → ℕ → Bool
between lo hi c = leb lo c && leb c hi

-- Hiragana, katakana, half-width kana, Japanese punctuation.
unfoldable pub is_kana : ℕ → Bool
is_kana c =
    between 0x3040 0x309F c
    || between 0x30A0 0x30FF c
    || between 0xFF65 0xFF9F c
    || between 0x3000 0x303F c

unfoldable pub is_kanji : ℕ → Bool
is_kanji c = between 0x3400 0x4DBF c || between 0x4E00 0x9FFF c

unfoldable pub count_kanji : Text → ℕ
unfolding is_kanji
count_kanji [] = 0
count_kanji (c ∷ t) = (if is_kanji c then 1 else 0) + count_kanji t

-- `kanji / len(text) >= 0.05` is `20 * kanji >= len(text)`.
unfoldable pub detect_language : Text → Language
unfolding is_kana count_kanji
detect_language [] = unknown
detect_language (c ∷ t) =
    let text = c ∷ t in
    let kanji = count_kanji text in
    if any is_kana text
    then japanese
    else if kanji == 0
    then english
    else if leb (length text) 25
    then japanese
    else if leb (length text) (20 * kanji)
    then japanese
    else english

abbrev pub is_english : Language → Bool
is_english english = true
is_english _ = false

-- No letter, and no character from U+3040 to U+9FFF.
unfoldable pub punctuation_only : Unicode → Text → Bool
punctuation_only u = all (λ c. not (u.is_alpha c) && not (between 0x3040 0x9FFF c))

-- The English texts that are let through at once: a question mark, or four words.
unfoldable pub english_passes : Unicode → Text → Bool
english_passes u stripped =
    is_english (detect_language stripped)
    && (contains stripped b'?' || leb 4 (length (split u stripped)))

-- The repetition guard: at least four words, at most two different ones.
unfoldable pub is_repetition : Unicode → Text → Bool
is_repetition u stripped =
    leb 4 (length (split u stripped))
    && leb (length (distinct (map (λ w. rstrip_marks (u.lower w)) (split u stripped)))) 2

-- What comes behind the English tests.
unfoldable pub passes_patterns : Unicode → Text → Bool
passes_patterns u stripped =
    if contains hallucinations (u.lower stripped)
    then false
    else if contains filler_patterns (rstrip_marks (u.lower stripped))
    then false
    else if length (split u stripped) == 1 && ltb (length stripped) 10
    then false
    else not (is_repetition u stripped)

unfoldable pub is_meaningful : Bool → Unicode → Text → Bool
is_meaningful enabled u text =
    let stripped = strip u text in
    if not enabled
    then true
    else if ltb (length stripped) 6
    then false
    else if punctuation_only u stripped
    then false
    else if english_passes u stripped
    then true
    else passes_patterns u stripped
