-- ===== src/Telephony/Media/Sending.antt =====
-- What the far end of a stream hears: the bytes that `send` was given, in their order.
use mathlib.Core.List.{append-nil, append_assoc}
use call_agent.Prelude.{
  ℕ, ◌<◌, ◌≡◌, ◌≢◌, refl, sym, ◌∙◌, arith, Bool, true, false, List, [], ◌∷◌, ◌++◌, if_elim, All,
}
use call_agent.Prelude.Results.{Result, ok, err}
use call_agent.Telephony.Media.{
  AudioFormat, MediaError, transport_error, unsupported_format_error, socket_error, cancelled_error,
  Fate, MediaStream, new_stream, threshold_bytes, flush, taken, flush_rest, hang_up, send, close,
}
use call_agent.Telephony.Media.Heard.{
  is_interrupted, audio, heard, IsSound, IsFlushed, flush-IsFlushed, send-IsSent,
}

-- The calls that a stream gets, each with the time at which its flush, if it has one, begins.
pub data Call : Type 0 where
  sending : List ℕ → ℕ → Fate → Call
  closing : ℕ → Fate → Call

abbrev pub fate_of : Call → Fate
fate_of (sending frame now fate) = fate
fate_of (closing now fate) = fate

abbrev pub Uninterrupted : List Call → Type 0
Uninterrupted = All (λ call. is_interrupted (fate_of call) ≡ false)

-- The abstract stream: the frames sent before the first close, one after another.
unfoldable pub played : List Call → List ℕ
played [] = []
played (sending frame now fate ∷ calls) = frame ++ played calls
played (closing now fate ∷ calls) = []

module _ {Text : Type 0} (b64encode : List ℕ → Text) where
  abbrev pub step : MediaStream Text → Call → MediaStream Text
  step s (sending frame now fate) = (send b64encode s frame now fate).1
  step s (closing now fate) = (close b64encode s now fate).1

  -- A history of calls; what they raise does not end it.
  unfoldable pub run : MediaStream Text → List Call → MediaStream Text
  unfolding send close
  run s [] = s
  run s (call ∷ calls) = run (step s call) calls

module _ {Text : Type 0} (b64encode : List ℕ → Text) (b64decode : Text → List ℕ)
    (decode-encode : (bytes : List ℕ) → b64decode (b64encode bytes) ≡ bytes) where
  -- What `close` does on an open stream.
  pub record IsClosed (s t : MediaStream Text) : Type 0 where
    pub heard :
        heard b64encode b64decode decode-encode t ≡ heard b64encode b64decode decode-encode s
    pub closed : t.closed ≡ true
    pub drained : t.buffer ≡ []
    pub format : t.format ≡ s.format

  hung_up-IsClosed :
      (s t : MediaStream Text) → IsClosed s t → IsClosed s (record t { hung_up = true })
  hung_up-IsClosed s t c = record {
    heard = c.heard;
    closed = c.closed;
    drained = c.drained;
    format = c.format;
  }

  IsFlushed→IsClosed :
      (s t : MediaStream Text) (rest : List ℕ)
      → s.buffer ≡ rest
      → IsFlushed b64encode b64decode decode-encode (taken (record s { closed = true })) rest t
      → IsClosed s t
  IsFlushed→IsClosed s t rest e f = record {
    heard = rw (f.audio, f.buffer, append-nil, e) refl;
    closed = f.closed;
    drained = f.buffer;
    format = f.format;
  }

  hang_up-IsClosed :
      (s : MediaStream Text) (rest : List ℕ)
      → s.buffer ≡ rest
      → (r : Result MediaError (Unit {0}) × MediaStream Text)
      → IsFlushed b64encode b64decode decode-encode (taken (record s { closed = true })) rest r.1
      → IsClosed s (hang_up b64encode r).1
  hang_up-IsClosed s rest e (ok done, t) f = hung_up-IsClosed s t (IsFlushed→IsClosed s t rest e f)
  hang_up-IsClosed s rest e (err cancelled_error, t) f = IsFlushed→IsClosed s t rest e f
  hang_up-IsClosed s rest e (err transport_error, t) f =
      hung_up-IsClosed s t (IsFlushed→IsClosed s t rest e f)
  hang_up-IsClosed s rest e (err unsupported_format_error, t) f =
      hung_up-IsClosed s t (IsFlushed→IsClosed s t rest e f)
  hang_up-IsClosed s rest e (err socket_error, t) f =
      hung_up-IsClosed s t (IsFlushed→IsClosed s t rest e f)

  close-IsClosed :
      (s : MediaStream Text) (now : ℕ) (fate : Fate)
      → is_interrupted fate ≡ false
      → s.closed ≡ false
      → IsClosed s (close b64encode s now fate).1
  unfolding close
  close-IsClosed s now fate uninterrupted open' =
      if_elim (λ (p : Result MediaError (Unit {0}) × MediaStream Text). IsClosed s p.1) s.closed _ _
        (λ (c : s.closed ≡ true). absurd (ground arith)) λ _. go s.buffer refl
    where
      go :
          (rest : List ℕ)
          → s.buffer ≡ rest
          → IsClosed s
              (hang_up b64encode
                (flush_rest b64encode (record s { closed = true }) rest now fate)).1
      go [] e = record { heard = refl; closed = refl; drained = e; format = refl }
      go (b ∷ bs) e =
          hang_up-IsClosed s (b ∷ bs) e
            (flush b64encode (taken (record s { closed = true })) (b ∷ bs) now fate)
            (flush-IsFlushed b64encode b64decode decode-encode (taken (record s { closed = true }))
              (b ∷ bs) now fate uninterrupted)

  step_closed : (s : MediaStream Text) (call : Call) → s.closed ≡ true → step b64encode s call ≡ s
  unfolding send close
  step_closed s (sending frame now fate) c =
      if_elim (λ (p : Result MediaError (Unit {0}) × MediaStream Text). p.1 ≡ s) s.closed _ _
        (λ _. refl) λ (o : s.closed ≡ false). absurd (ground arith)
  step_closed s (closing now fate) c =
      if_elim (λ (p : Result MediaError (Unit {0}) × MediaStream Text). p.1 ≡ s) s.closed _ _
        (λ _. refl) λ (o : s.closed ≡ false). absurd (ground arith)

  run_closed :
      (s : MediaStream Text) (calls : List Call) → s.closed ≡ true → run b64encode s calls ≡ s
  unfolding run
  run_closed s [] c = refl
  run_closed s (call ∷ calls) c = rw (step_closed s call c) (run_closed s calls c)

  differ : (b : Bool) → b ≡ true → b ≢ false
  differ b p q = cc

  run_open :
      (fmt : AudioFormat) (s : MediaStream Text) (calls : List Call)
      → 0 < threshold_bytes fmt
      → Uninterrupted calls
      → IsSound b64encode b64decode decode-encode fmt s
      → s.closed ≡ false
      → (heard b64encode b64decode decode-encode (run b64encode s calls)
          ≡ heard b64encode b64decode decode-encode s ++ played calls)
        × IsSound b64encode b64decode decode-encode fmt (run b64encode s calls)
  unfolding run played
  run_open fmt s [] positive u h o =
      (sym (append-nil (heard b64encode b64decode decode-encode s)), h)
  run_open fmt s (sending frame now fate ∷ calls) positive u h o =
      let sent = send-IsSent b64encode b64decode decode-encode s frame now fate u.0 o in
      let (rest, sound) =
        run_open fmt (send b64encode s frame now fate).1 calls positive u.1
          (sent.sound fmt positive h) sent.closed in
      (
        rest
            ∙ rw sent.heard
                (append_assoc (heard b64encode b64decode decode-encode s) frame (played calls)),
        sound,
      )
  run_open fmt s (closing now fate ∷ calls) positive u h o =
      let c = close-IsClosed s now fate u.0 o in
      rw (run_closed (close b64encode s now fate).1 calls c.closed) (
        c.heard ∙ sym (append-nil (heard b64encode b64decode decode-encode s)),
        record {
          format = c.format ∙ h.format;
          bounded = λ p. absurd (differ _ c.closed p);
          drained = λ _. c.drained;
          full = λ p. absurd (differ _ c.closed p);
        },
      )

  -- Base64 being decodable, and whatever `send` and `close` are called with on a new stream whose
  -- pacing sleeps are not cancelled: the socket was given, in order, the frames that were sent before
  -- the first close, less what the buffer still holds. An open stream's buffer holds less than 200 ms
  -- and each chunk handed over so far at least 200 ms; a closed stream's buffer is empty.
  pub run-refines :
      (fmt : AudioFormat) (calls : List Call)
      → 0 < threshold_bytes fmt
      → Uninterrupted calls
      → let s = run b64encode (new_stream Text fmt) calls in
        (audio b64encode b64decode decode-encode s.handed ++ s.buffer ≡ played calls)
        × IsSound b64encode b64decode decode-encode fmt s
  unfolding audio
  run-refines fmt calls positive u =
      run_open fmt (new_stream Text fmt) calls positive u
        (record { format = refl; bounded = λ _. positive; drained = λ _. refl; full = λ _. tt })
        refl
