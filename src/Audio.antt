-- ===== src/Audio.antt =====
-- src/audio: the buffering of the voice activity detection, and the loop that drives it.
pub mod Buffer
pub mod Vad
