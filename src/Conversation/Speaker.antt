-- ===== src/Conversation/Speaker.antt =====
-- src/conversation/speaker_inference.py: `infer_speaker`. The module's two globals are the state;
-- the lock makes each update of them one step. `effective_lang` is not read, tracing is left out.
pub mod History
use phantom_runtime_lite.Prelude.{
  ℕ, String, Bool, true, false, ◌&&◌, ◌||◌, List, [], ◌∷◌, ◌≡◌, refl, arith, ltb, leb, length,
  nat_eq, ap, Bool-cases, inl, inr, ◌∙◌, ◌==◌, contains, if◌then◌else◌, map, Eq,
}
use phantom_runtime_lite.Conversation.Text.{
  Text, codes, Unicode, text_eq, strip, rstrip_marks, split,
}

pub data Speaker : Type 0 where
  recruiter user : Speaker

speaker_dec : Discrete Speaker
speaker_dec = hlevel

instance unfoldable pub speaker_eq : Eq Speaker
unfolding speaker_dec
speaker_eq = record { dec = speaker_dec }

pub record SpeakerState : Type 0 where
  pub last_inferred : Speaker
  pub consecutive_lang : Text

-- One utterance: the language that was detected, its text, and the state of the conversation.
pub record Utterance : Type 0 where
  pub lang : Text
  pub text : Text
  pub conv_state : Text

abbrev pub initial : SpeakerState
initial = record { last_inferred = recruiter; consecutive_lang = [] }

abbrev pub japanese_langs : List Text
japanese_langs = codes "japanese" ∷ codes "ja" ∷ codes "jpn" ∷ []

abbrev pub filler_patterns : List Text
filler_patterns =
    map codes
      ("um" ∷ "uh" ∷ "ah" ∷ "oh" ∷ "hmm" ∷ "mm" ∷ "mhm" ∷ "うん" ∷ "えー" ∷ "あー" ∷ "はい" ∷ "ええ" ∷ [])

abbrev pub agent_active_states : List Text
agent_active_states = codes "generating" ∷ codes "speaking" ∷ []

unfoldable pub starts_with : Text → Text → Bool
starts_with t [] = true
starts_with [] (d ∷ p) = false
starts_with (c ∷ t) (d ∷ p) = c == d && starts_with t p

unfoldable pub is_japanese_lang : Unicode → Text → Bool
unfolding starts_with
is_japanese_lang u lang =
    contains japanese_langs (u.lower lang) || starts_with (u.lower lang) (codes "ja")

unfoldable pub is_agent_active : Utterance → Bool
is_agent_active x = contains agent_active_states x.conv_state

-- A filler, or an utterance too short to tell: the last speaker is kept.
unfoldable pub is_unclear : Unicode → Utterance → Bool
is_unclear u x =
    contains filler_patterns (rstrip_marks (u.lower (strip u x.text)))
    || (leb (length (split u x.text)) 2 && ltb (length (strip u x.text)) 8)

unfoldable pub candidate_of : Unicode → Text → Speaker
unfolding is_japanese_lang
candidate_of u lang = if is_japanese_lang u lang then user else recruiter

-- The body of the `with _speaker_lock` block.
unfoldable pub settle : Speaker → Text → SpeakerState → Speaker × SpeakerState
settle candidate lang st =
    if candidate == st.last_inferred
    then (candidate, record { last_inferred = candidate; consecutive_lang = lang })
    else if lang == st.consecutive_lang
    then (st.last_inferred, st)
    else (candidate, record { last_inferred = candidate; consecutive_lang = lang })

-- `infer_speaker`, on what its tests say of the utterance.
unfoldable pub infer_with : Bool → Bool → Speaker → Text → SpeakerState → Speaker × SpeakerState
unfolding settle
infer_with active unclear candidate lang st =
    if active
    then (user, st)
    else if unclear
    then (st.last_inferred, st)
    else settle candidate lang st

unfoldable pub infer_speaker : Unicode → Utterance → SpeakerState → Speaker × SpeakerState
unfolding infer_with
infer_speaker u x st =
    infer_with (is_agent_active x) (is_unclear u x) (candidate_of u x.lang) x.lang st

-- The state after a sequence of utterances.
unfoldable pub infer_all : Unicode → List Utterance → SpeakerState → SpeakerState
infer_all u [] st = st
infer_all u (x ∷ xs) st = infer_all u xs (infer_speaker u x st).1

-- `reset_speaker_state`
unfoldable pub reset_speaker_state : SpeakerState → SpeakerState
reset_speaker_state st = initial
