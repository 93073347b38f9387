-- ===== src/Telephony/Media/Provider.antt =====
-- `FreeSwitchMediaProvider` of voiceagent/telephony/freeswitch/media.py: which calls have a stream.
-- A stream object lives in the dict, where its holder's calls change it; metrics are left out.
pub mod Attached
use call_agent.Prelude.{
  ℕ, ◌≡◌, ◌⊎◌, ◌↔◌, inl, inr, refl, arith, String, Bool, true, false, not, ◌&&◌, ◌||◌, Option, none,
  some, List, [], ◌∷◌, is_some, is_none, if◌then◌else◌, Option-cases,
}
use call_agent.Prelude.Eq.{Eq, ◌==◌, nat_eq, string_eq}
use call_agent.Prelude.Dicts.{lookup, put, pop_key, lookup-put, lookup-pop_key}
use call_agent.Prelude.Results.{Result, ok, err}
use call_agent.Telephony.Media.{
  AudioFormat, MediaError, transport_error, unsupported_format_error, Fate, MediaStream, new_stream,
  receive, send, close,
}

abbrev pub supported_formats : List AudioFormat
supported_formats =
    record { encoding = "pcm_s16le"; sample_rate = 8000; channels = 1 }
    ∷ record { encoding = "pcm_s16le"; sample_rate = 16000; channels = 1 }
    ∷ []

abbrev same_format : AudioFormat → AudioFormat → Bool
same_format a b =
    a.encoding == b.encoding && a.sample_rate == b.sample_rate && a.channels == b.channels

-- `chosen in _SUPPORTED_FORMATS`
abbrev is_supported_by : AudioFormat → List AudioFormat → Bool
is_supported_by fmt [] = false
is_supported_by fmt (f ∷ fs) = same_format fmt f || is_supported_by fmt fs

unfoldable pub is_supported : AudioFormat → Bool
is_supported fmt = is_supported_by fmt supported_formats

-- the default is the first supported format
abbrev pub chosen : Option AudioFormat → AudioFormat
chosen none = record { encoding = "pcm_s16le"; sample_rate = 8000; channels = 1 }
chosen (some fmt) = fmt

-- Calls and sockets are known by numbers. `detached` are the streams that were taken out, with their
-- sockets, as they were left.
pub record Provider (Text : Type 0) : Type 0 where
  pub streams : List (ℕ × (ℕ × MediaStream Text))
  pub sockets : List (ℕ × ℕ)
  pub attached_at : List (ℕ × ℕ)
  pub detached : List (ℕ × MediaStream Text)

abbrev pub new_provider : (Text : Type 0) → Provider Text
new_provider Text = record { streams = []; sockets = []; attached_at = []; detached = [] }

-- voiceagent/telephony/contracts.py
pub record StreamHealth : Type 0 where
  pub attached : Bool
  pub frames_sent : ℕ
  pub frames_received : ℕ

module _ {Text : Type 0} where
  abbrev pub register_socket : Provider Text → ℕ → ℕ → Provider Text
  register_socket p call_ref socket = record p { sockets = put call_ref socket p.sockets }

  abbrev pub attach_to :
      Provider Text → ℕ → AudioFormat → ℕ → Option ℕ → Result MediaError (Unit {0}) × Provider Text
  attach_to p call_ref fmt now none = (err transport_error, p)
  attach_to p call_ref fmt now (some socket) = (
    ok tt,
    record p {
      streams = put call_ref (socket, new_stream Text fmt) p.streams;
      attached_at = put call_ref now p.attached_at;
    },
  )

  unfoldable pub attach :
      Provider Text → ℕ → Option AudioFormat → ℕ → Result MediaError (Unit {0}) × Provider Text
  unfolding is_supported
  attach p call_ref fmt now =
      if not (is_supported (chosen fmt))
      then (err unsupported_format_error, p)
      else if is_some (lookup call_ref p.streams)
      then (err transport_error, p)
      else attach_to p call_ref (chosen fmt) now (lookup call_ref p.sockets)

  abbrev health_of : Option (ℕ × MediaStream Text) → StreamHealth
  health_of none = record { attached = false; frames_sent = 0; frames_received = 0 }
  health_of (some (socket, stream)) = record {
    attached = true;
    frames_sent = stream.sent;
    frames_received = stream.received;
  }

  unfoldable pub health : Provider Text → ℕ → StreamHealth
  health p call_ref = health_of (lookup call_ref p.streams)

module _ {Text : Type 0} (b64encode : List ℕ → Text) where
  abbrev pub detach_from :
      Provider Text
      → ℕ
      → Option (ℕ × MediaStream Text)
      → ℕ
      → Fate
      → Result MediaError (Unit {0}) × Provider Text
  detach_from p call_ref none now fate = (err transport_error, p)
  detach_from p call_ref (some (socket, stream)) now fate =
      let closed = close b64encode stream now fate in
      (
        closed.0,
        record {
          streams = pop_key call_ref p.streams;
          sockets = pop_key call_ref p.sockets;
          attached_at = pop_key call_ref p.attached_at;
          detached = (socket, closed.1) ∷ p.detached;
        },
      )

  unfoldable pub detach :
      Provider Text → ℕ → ℕ → Fate → Result MediaError (Unit {0}) × Provider Text
  unfolding close
  detach p call_ref now fate = detach_from p call_ref (lookup call_ref p.streams) now fate

  -- The holder of an attached stream sends on it.
  abbrev pub speak_on :
      Provider Text → ℕ → Option (ℕ × MediaStream Text) → List ℕ → ℕ → Fate → Provider Text
  speak_on p call_ref none frame now fate = p
  speak_on p call_ref (some (socket, stream)) frame now fate = record p {
    streams = put call_ref (socket, (send b64encode stream frame now fate).1) p.streams;
  }

  unfoldable pub speak : Provider Text → ℕ → List ℕ → ℕ → Fate → Provider Text
  unfolding send
  speak p call_ref frame now fate = speak_on p call_ref (lookup call_ref p.streams) frame now fate

  -- The holder of an attached stream takes a frame from it.
  abbrev pub listen_on : Provider Text → ℕ → Option (ℕ × MediaStream Text) → Provider Text
  listen_on p call_ref none = p
  listen_on p call_ref (some (socket, stream)) = record p {
    streams = put call_ref (socket, receive stream) p.streams;
  }

  unfoldable pub listen : Provider Text → ℕ → Provider Text
  listen p call_ref = listen_on p call_ref (lookup call_ref p.streams)
