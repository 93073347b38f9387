-- ===== src/Telephony/Media/Pacing.antt =====
-- When the chunks of a stream are handed to its socket.
use call_agent.Prelude.{
  ℕ, ◌+◌, ◌≤◌, ◌≡◌, refl, arith, Bool, true, false, Option, none, some, List, [], ◌∷◌, ◌++◌, length,
  leb, if_elim,
}
use call_agent.Prelude.Results.{Result, ok, err}
use call_agent.Telephony.Media.{
  AudioFormat, MediaError, transport_error, unsupported_format_error, socket_error, cancelled_error,
  Fate, interrupted, cancelled, refused, accepted, Handed, MediaStream, new_stream, duration,
  latency_margin, threshold_bytes, pace_until, start_of, sleeps, paced, taken, buffered, hand_over,
  flush, flush_fated, send, close, flush_rest, hang_up,
}
use call_agent.Telephony.Media.Sending.{Call, sending, closing, step, run}

-- The playing time of these chunks, each with the margin that the pacing adds.
unfoldable pub playing_time : {Text : Type 0} → AudioFormat → List (Handed Text) → ℕ
playing_time fmt [] = 0
playing_time fmt (h ∷ earlier) = playing_time fmt earlier + (duration fmt h.bytes + latency_margin)

-- No chunk is handed over before all earlier ones, counted from the start, have been played.
unfoldable pub IsPaced : {Text : Type 0} → AudioFormat → ℕ → List (Handed Text) → Type 0
unfolding playing_time
IsPaced fmt started [] = Unit
IsPaced fmt started (h ∷ earlier) =
    (started + playing_time fmt earlier ≤ h.at) × IsPaced fmt started earlier

module _ {Text : Type 0} (b64encode : List ℕ → Text) where
  abbrev pub PacedSince : AudioFormat → Option ℕ → List (Handed Text) → Type 0
  PacedSince fmt none handed = handed ≡ []
  PacedSince fmt (some started) handed = IsPaced fmt started handed

  pub record IsOnTime (fmt : AudioFormat) (s : MediaStream Text) : Type 0 where
    pub format : s.format ≡ fmt
    pub audio_sent : s.audio_sent ≡ playing_time fmt s.handed
    pub handed : PacedSince fmt s.playback_started_at s.handed

  -- Only the format, the clockwork and the log matter.
  same_clock :
      (fmt : AudioFormat) (s : MediaStream Text) (sent : ℕ) (closed hung_up : Bool)
      (buffer : List ℕ)
      → IsOnTime fmt s
      → IsOnTime fmt (record s { sent = sent; closed = closed; hung_up = hung_up; buffer = buffer })
  same_clock fmt s sent closed hung_up buffer h = record {
    format = h.format;
    audio_sent = h.audio_sent;
    handed = h.handed;
  }

  handed-IsOnTime :
      (fmt : AudioFormat) (s : MediaStream Text) (chunk : List ℕ) (now : ℕ)
      → IsOnTime fmt s
      → IsOnTime fmt (
          hand_over b64encode
            (paced s chunk now)
            chunk
            (pace_until s.playback_started_at s.audio_sent now))
  unfolding playing_time IsPaced
  handed-IsOnTime fmt s chunk now h = record {
    format = h.format;
    audio_sent = rw (h.audio_sent, h.format) refl;
    handed = go s.playback_started_at h.handed;
  }
    where
      go :
          (o : Option ℕ)
          → PacedSince fmt o s.handed
          → PacedSince fmt
              (some (start_of o now))
              (hand_over b64encode (paced s chunk now) chunk (pace_until o s.audio_sent now)).handed
      go none p = rw p (omega arith, tt)
      go (some started) p = (
        if_elim (λ at. started + playing_time fmt s.handed ≤ at) (leb (started + s.audio_sent) now)
            _ _ (λ early. ground (arith, h.audio_sent)) (λ late. ground (arith, h.audio_sent)),
        p,
      )

  flush-IsOnTime :
      (fmt : AudioFormat) (s : MediaStream Text) (chunk : List ℕ) (now : ℕ) (fate : Fate)
      → IsOnTime fmt s
      → IsOnTime fmt (flush b64encode s chunk now fate).1
  unfolding flush
  flush-IsOnTime fmt s chunk now interrupted h = go (sleeps s.playback_started_at s.audio_sent now)
    where
      go : (slept : Bool) → IsOnTime fmt (flush_fated b64encode s chunk now interrupted slept).1
      go true = h
      go false = handed-IsOnTime fmt s chunk now h
  flush-IsOnTime fmt s chunk now cancelled h = handed-IsOnTime fmt s chunk now h
  flush-IsOnTime fmt s chunk now refused h = handed-IsOnTime fmt s chunk now h
  flush-IsOnTime fmt s chunk now accepted h =
      same_clock fmt _ _ _ _ _ (handed-IsOnTime fmt s chunk now h)

  step-IsOnTime :
      (fmt : AudioFormat) (s : MediaStream Text) (call : Call)
      → IsOnTime fmt s
      → IsOnTime fmt (step b64encode s call)
  unfolding send close
  step-IsOnTime fmt s (sending frame now fate) h =
      if_elim (λ (p : Result MediaError (Unit {0}) × MediaStream Text). IsOnTime fmt p.1) s.closed _
        _ (λ _. h)
        λ _.
          if_elim (λ (p : Result MediaError (Unit {0}) × MediaStream Text). IsOnTime fmt p.1)
            (leb (threshold_bytes s.format) (length (s.buffer ++ frame))) _ _
            (λ _.
              flush-IsOnTime fmt (taken (buffered s frame)) (s.buffer ++ frame) now fate
                (same_clock fmt s s.sent s.closed s.hung_up [] h))
            λ _. same_clock fmt s s.sent s.closed s.hung_up (s.buffer ++ frame) h
  step-IsOnTime fmt s (closing now fate) h =
      if_elim (λ (p : Result MediaError (Unit {0}) × MediaStream Text). IsOnTime fmt p.1) s.closed _
        _ (λ _. h) λ _. hung _ (rest s.buffer)
    where
      hung :
          (r : Result MediaError (Unit {0}) × MediaStream Text)
          → IsOnTime fmt r.1
          → IsOnTime fmt (hang_up b64encode r).1
      hung (ok done, t) i = same_clock fmt t t.sent t.closed true t.buffer i
      hung (err cancelled_error, t) i = i
      hung (err transport_error, t) i = same_clock fmt t t.sent t.closed true t.buffer i
      hung (err unsupported_format_error, t) i = same_clock fmt t t.sent t.closed true t.buffer i
      hung (err socket_error, t) i = same_clock fmt t t.sent t.closed true t.buffer i

      rest :
          (bs : List ℕ)
          → IsOnTime fmt (flush_rest b64encode (record s { closed = true }) bs now fate).1
      rest [] = same_clock fmt s s.sent true s.hung_up s.buffer h
      rest (b ∷ bs) =
          flush-IsOnTime fmt (taken (record s { closed = true })) (b ∷ bs) now fate
            (same_clock fmt s s.sent true s.hung_up [] h)

  run-IsOnTime :
      (fmt : AudioFormat) (s : MediaStream Text) (calls : List Call)
      → IsOnTime fmt s
      → IsOnTime fmt (run b64encode s calls)
  unfolding run
  run-IsOnTime fmt s [] h = h
  run-IsOnTime fmt s (call ∷ calls) h =
      run-IsOnTime fmt (step b64encode s call) calls (step-IsOnTime fmt s call h)

  -- Whatever `send` and `close` are called with on a new stream, and whichever flushes are cancelled
  -- or refused: no chunk is handed to the socket before the start of playback plus the playing time
  -- of all chunks handed over before it, each lengthened by the 30 ms margin; and while nothing was
  -- handed over, playback has not started.
  pub run-IsPaced :
      (fmt : AudioFormat) (calls : List Call)
      → let s = run b64encode (new_stream Text fmt) calls in
        PacedSince fmt s.playback_started_at s.handed
  unfolding playing_time
  run-IsPaced fmt calls =
      let h =
        run-IsOnTime fmt (new_stream Text fmt) calls
          (record { format = refl; audio_sent = refl; handed = refl }) in
      h.handed
