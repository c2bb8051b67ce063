-- ===== src/Tests/Talk.antt =====
-- Speaker inference of src/conversation on concrete utterances.
use phantom_runtime_lite.Prelude.{List, [], ◌∷◌, ◌≡◌, refl, leb, ◌==◌, nat_eq}
use phantom_runtime_lite.Conversation.Text.{Text, codes, Unicode, text_eq}
use phantom_runtime_lite.Conversation.Speaker.{
  recruiter, Utterance, initial, infer_speaker, infer_all,
}
use phantom_runtime_lite.Conversation.Speaker.History.{last_speaker, answer, infer_speaker-answer}

abbrev ascii : Unicode
ascii = record { is_space = λ c. c == 32; is_alpha = λ c. leb 65 c; lower = λ t. t }

abbrev said : Text → Text → Utterance
said lang text = record { lang = lang; text = text; conv_state = codes "listening" }

abbrev earlier : List Utterance
earlier =
    said (codes "japanese") (codes "konnichiwa") ∷ said (codes "english") (codes "hello there") ∷ []

infer_speaker-answer_example :
    (infer_speaker ascii
      (said (codes "japanese") (codes "arigatou"))
      (infer_all ascii earlier initial)).0
    ≡ answer ascii
        (last_speaker ascii recruiter earlier)
        (said (codes "japanese") (codes "arigatou"))
infer_speaker-answer_example =
    infer_speaker-answer ascii refl earlier (said (codes "japanese") (codes "arigatou"))
