-- ===== src/Conversation/Speaker/History.antt =====
-- What the state of src/conversation/speaker_inference.py comes to: the languages of the utterances.
use phantom_runtime_lite.Prelude.{
  Bool, List, [], ◌∷◌, ◌≡◌, refl, arith, if◌then◌else◌, ◌∙◌, ap, nat_eq,
}
use phantom_runtime_lite.Conversation.Text.{Text, Unicode, text_eq}
use phantom_runtime_lite.Conversation.Speaker.{
  Speaker, recruiter, user, speaker_eq, SpeakerState, Utterance, initial, is_agent_active,
  is_unclear, candidate_of, infer_with, infer_speaker, infer_all,
}

-- The last speaker is the one that the stored language calls for.
abbrev IsSettled : Unicode → SpeakerState → Type 0
IsSettled u st = candidate_of u st.consecutive_lang ≡ st.last_inferred

module _ (u : Unicode) where
  -- The answer without the state: the speaker of the last utterance that was clear and not the
  -- agent's, by its language alone.
  abbrev pub next_speaker : Speaker → Utterance → Speaker
  next_speaker last x =
      if is_agent_active x then last else if is_unclear u x then last else candidate_of u x.lang

  abbrev pub last_speaker : Speaker → List Utterance → Speaker
  last_speaker last [] = last
  last_speaker last (x ∷ xs) = last_speaker (next_speaker last x) xs

  abbrev pub answer : Speaker → Utterance → Speaker
  answer last x = if is_agent_active x then user else next_speaker last x

  module _ (active unclear : Bool) (lang : Text) (st : SpeakerState) (h : IsSettled u st) where
    with-IsSettled : IsSettled u (infer_with active unclear (candidate_of u lang) lang st).1
    unfolding infer_with
    with-IsSettled = ground arith

    with-last : (infer_with active unclear (candidate_of u lang) lang st).1.last_inferred ≡ (
        if active
        then st.last_inferred
        else if unclear
        then st.last_inferred
        else candidate_of u lang)
    unfolding infer_with
    with-last = ground arith

    with-answer : (infer_with active unclear (candidate_of u lang) lang st).0 ≡ (
        if active
        then user
        else if active
        then st.last_inferred
        else if unclear
        then st.last_inferred
        else candidate_of u lang)
    unfolding infer_with
    with-answer = ground arith

  history :
      (xs : List Utterance) (st : SpeakerState)
      → IsSettled u st
      → IsSettled u (infer_all u xs st)
        × ((infer_all u xs st).last_inferred ≡ last_speaker st.last_inferred xs)
  unfolding infer_all infer_speaker
  history [] st h = (h, refl)
  history (x ∷ xs) st h =
      let st' =
        (infer_with (is_agent_active x) (is_unclear u x) (candidate_of u x.lang) x.lang st).1 in
      let r = history xs st' (with-IsSettled (is_agent_active x) (is_unclear u x) x.lang st h) in
      (
        r.0,
        r.1
            ∙ ap (λ s. last_speaker s xs)
                (with-last (is_agent_active x) (is_unclear u x) x.lang st h),
      )

  initial-IsSettled : u.lower [] ≡ [] → IsSettled u initial
  unfolding candidate_of text_eq
  initial-IsSettled h = rw h

  -- The guard against oscillation never holds a speaker back: after any utterances from the start,
  -- the answer for the next one is the one that its language gives, whatever languages came before
  -- (`user` while the agent is active, the last clear utterance's speaker for an unclear one).
  pub infer_speaker-answer :
      u.lower [] ≡ []
      → (xs : List Utterance) (x : Utterance)
      → (infer_speaker u x (infer_all u xs initial)).0 ≡ answer (last_speaker recruiter xs) x
  infer_speaker-answer low xs x =
      let h = history xs initial (initial-IsSettled low) in
      unfold infer_speaker in
      (with-answer (is_agent_active x) (is_unclear u x) x.lang (infer_all u xs initial) h.0
        ∙ ap (λ s. answer s x) h.1)
