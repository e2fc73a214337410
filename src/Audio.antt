-- ===== src/Audio.antt =====
-- drivers/audio.c and drivers/audio.h: the settings and the buffer that audio_write fills. The port of
-- the speaker is left out.
use blockos.Prelude.{
  ℕ, ◌+◌, ◌%◌, Bool, true, false, List, [], ◌∷◌, if◌then◌else◌, ◌==◌, set, replicate,
}

abbrev buffer_bytes : ℕ
buffer_bytes = 4096

-- `audio_t`
pub record Audio : Type 0 where
  pub initialized : Bool
  pub playing : Bool
  pub sample_rate : ℕ
  pub channels : ℕ
  pub bits : ℕ
  pub volume : ℕ
  pub buffer : List ℕ
  pub buf_head : ℕ
  pub buf_tail : ℕ

unfoldable pub audio_init : Audio
audio_init = record {
  initialized = true;
  playing = false;
  sample_rate = 44100;
  channels = 2;
  bits = 16;
  volume = 75;
  buffer = replicate buffer_bytes 0;
  buf_head = 0;
  buf_tail = 0;
}

unfoldable pub audio_play : Audio → Audio
audio_play a = record a { playing = true }

unfoldable pub audio_stop : Audio → Audio
audio_stop a = record a { playing = false }

unfoldable pub audio_set_volume : Audio → ℕ → Audio
audio_set_volume a v = record a { volume = v }

-- The loop over the bytes; it leaves where the buffer is full.
unfoldable pub write_loop : Audio → List ℕ → Audio × Bool
write_loop a [] = (a, true)
write_loop a (b ∷ data_left) =
    let next = (a.buf_tail + 1) % buffer_bytes in
    let written =
      write_loop (record a { buffer = set a.buffer a.buf_tail b; buf_tail = next }) data_left in
    if next == a.buf_head then (a, false) else written

unfoldable pub audio_write : Audio → List ℕ → Audio × Bool
unfolding write_loop
audio_write a bytes = if a.initialized then write_loop a bytes else (a, false)
