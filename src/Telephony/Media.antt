-- ===== src/Telephony/Media.antt =====
-- voiceagent/telephony/freeswitch/media.py: the outgoing audio of one call, which is buffered, paced
-- and handed to a socket. Times are nanoseconds, so that the duration of a chunk in either of the
-- supported formats is exact. Base64 is a parameter.
pub mod Heard
pub mod Sending
pub mod Pacing
pub mod Provider
use call_agent.Prelude.{
  ℕ, suc, ◌+◌, ◌-◌, ◌*◌, ◌/◌, String, Bool, true, false, Option, none, some, List, [], ◌∷◌, ◌++◌,
  length, leb, if◌then◌else◌,
}
use call_agent.Prelude.Results.{Result, ok, err}

-- voiceagent/telephony/contracts.py
pub record AudioFormat : Type 0 where
  pub encoding : String
  pub sample_rate : ℕ
  pub channels : ℕ

-- What a call raises: TransportError, UnsupportedFormatError, whatever the socket raises, or the
-- cancellation of the task.
pub data MediaError : Type 0 where
  transport_error unsupported_format_error socket_error cancelled_error : MediaError

-- What happens to one flush while it is awaited: the task is cancelled, in the pacing sleep if there is
-- one and else in `send_text`; it is cancelled in `send_text` after the sleep; `send_text` raises, or
-- it returns.
pub data Fate : Type 0 where
  interrupted cancelled refused accepted : Fate

-- The dict that is sent as JSON.
pub record Envelope (Text : Type 0) : Type 0 where
  pub type : String
  pub audio_data_type : String
  pub sample_rate : ℕ
  pub audio_data : Text

-- One call of `send_text`, with the time at which it begins and the chunk's length in bytes.
pub record Handed (Text : Type 0) : Type 0 where
  pub envelope : Envelope Text
  pub at : ℕ
  pub bytes : ℕ

-- `_FreeSwitchMediaStream`; `handed` is what its socket was given, newest first, and `hung_up` is
-- whether the socket was closed.
pub record MediaStream (Text : Type 0) : Type 0 where
  pub format : AudioFormat
  pub sent : ℕ
  pub received : ℕ
  pub closed : Bool
  pub playback_started_at : Option ℕ
  pub audio_sent : ℕ
  pub buffer : List ℕ
  pub handed : List (Handed Text)
  pub hung_up : Bool

abbrev pub new_stream : (Text : Type 0) → AudioFormat → MediaStream Text
new_stream Text fmt = record {
  format = fmt;
  sent = 0;
  received = 0;
  closed = false;
  playback_started_at = none;
  audio_sent = 0;
  buffer = [];
  handed = [];
  hung_up = false;
}

-- `_LATENCY_MARGIN_SECONDS`, 0.03
abbrev pub latency_margin : ℕ
latency_margin = 30000000

-- the duration of so many bytes of two-byte samples
abbrev pub duration : AudioFormat → ℕ → ℕ
duration fmt bytes = bytes * 1000000000 / (2 * fmt.channels * fmt.sample_rate)

-- `_MIN_CHUNK_SECONDS`, 0.2, in bytes
unfoldable pub threshold_bytes : AudioFormat → ℕ
threshold_bytes fmt = fmt.sample_rate * fmt.channels * 2 / 5

-- `_pace`: when the chunk may be handed over. A sleep ends no earlier than it was asked to.
abbrev pub pace_until : Option ℕ → ℕ → ℕ → ℕ
pace_until none audio_sent now = now
pace_until (some started) audio_sent now =
    if leb (started + audio_sent) now then now else started + audio_sent

abbrev pub start_of : Option ℕ → ℕ → ℕ
start_of none now = now
start_of (some started) now = started

-- A first chunk does not sleep, and neither does a late one.
abbrev pub sleeps : Option ℕ → ℕ → ℕ → Bool
sleeps none audio_sent now = false
sleeps (some started) audio_sent now = if leb (started + audio_sent) now then false else true

module _ {Text : Type 0} where
  -- One frame of `receive`.
  abbrev pub receive : MediaStream Text → MediaStream Text
  receive s = record s { received = suc s.received }

  abbrev pub paced : MediaStream Text → List ℕ → ℕ → MediaStream Text
  paced s chunk now = record s {
    playback_started_at = some (start_of s.playback_started_at now);
    audio_sent = s.audio_sent + (duration s.format (length chunk) + latency_margin);
  }

  abbrev pub send_text : MediaStream Text → Fate → Result MediaError (Unit {0}) × MediaStream Text
  send_text s accepted = (ok tt, record s { sent = suc s.sent })
  send_text s refused = (err socket_error, s)
  send_text s _ = (err cancelled_error, s)

  -- `bytes(self._buffer)` is taken and the buffer cleared before the flush is awaited.
  abbrev pub taken : MediaStream Text → MediaStream Text
  taken s = record s { buffer = [] }

  abbrev pub buffered : MediaStream Text → List ℕ → MediaStream Text
  buffered s frame = record s { buffer = s.buffer ++ frame }

module _ {Text : Type 0} (b64encode : List ℕ → Text) where
  abbrev pub hand_over : MediaStream Text → List ℕ → ℕ → MediaStream Text
  hand_over s chunk at = record s {
    handed =
        record {
          envelope = record {
            type = "streamAudio";
            audio_data_type = "raw";
            sample_rate = s.format.sample_rate;
            audio_data = b64encode chunk;
          };
          at = at;
          bytes = length chunk;
        }
        ∷ s.handed;
  }

  abbrev pub flush_fated :
      MediaStream Text → List ℕ → ℕ → Fate → Bool → Result MediaError (Unit {0}) × MediaStream Text
  flush_fated s chunk now interrupted true = (err cancelled_error, s)
  flush_fated s chunk now fate slept =
      send_text
        (hand_over (paced s chunk now) chunk (pace_until s.playback_started_at s.audio_sent now))
        fate

  unfoldable pub flush :
      MediaStream Text → List ℕ → ℕ → Fate → Result MediaError (Unit {0}) × MediaStream Text
  flush s chunk now fate =
      flush_fated s chunk now fate (sleeps s.playback_started_at s.audio_sent now)

  unfoldable pub send :
      MediaStream Text → List ℕ → ℕ → Fate → Result MediaError (Unit {0}) × MediaStream Text
  unfolding flush threshold_bytes
  send s frame now fate =
      if s.closed
      then (err transport_error, s)
      else if leb (threshold_bytes s.format) (length (s.buffer ++ frame))
      then flush (taken (buffered s frame)) (s.buffer ++ frame) now fate
      else (ok tt, buffered s frame)

  abbrev pub flush_rest :
      MediaStream Text → List ℕ → ℕ → Fate → Result MediaError (Unit {0}) × MediaStream Text
  flush_rest s [] now fate = (ok tt, s)
  flush_rest s (b ∷ bs) now fate = flush (taken s) (b ∷ bs) now fate

  -- `contextlib.suppress(Exception)` takes what the socket raises, not a cancellation.
  abbrev pub hang_up :
      Result MediaError (Unit {0}) × MediaStream Text
      → Result MediaError (Unit {0}) × MediaStream Text
  hang_up (err cancelled_error, s) = (err cancelled_error, s)
  hang_up (_, s) = (ok tt, record s { hung_up = true })

  unfoldable pub close :
      MediaStream Text → ℕ → Fate → Result MediaError (Unit {0}) × MediaStream Text
  unfolding flush
  close s now fate =
      if s.closed
      then (ok tt, s)
      else hang_up (flush_rest (record s { closed = true }) s.buffer now fate)
