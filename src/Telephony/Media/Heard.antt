-- ===== src/Telephony/Media/Heard.antt =====
-- What one `send` adds to what the far end of a stream hears.
use mathlib.Core.List.{append-nil, append_assoc}
use call_agent.Prelude.{
  ℕ, ◌≤◌, ◌<◌, ◌≡◌, refl, sym, ap, ◌∙◌, arith, Bool, true, false, List, [], ◌∷◌, ◌++◌, length, leb,
  if_elim, All,
}
use call_agent.Prelude.Results.{Result}
use call_agent.Telephony.Media.{
  AudioFormat, MediaError, Fate, interrupted, cancelled, refused, accepted, Handed, MediaStream,
  threshold_bytes, flush, taken, buffered, send,
}

abbrev pub is_interrupted : Fate → Bool
is_interrupted interrupted = true
is_interrupted _ = false

module _ {Text : Type 0} (b64encode : List ℕ → Text) (b64decode : Text → List ℕ)
    (decode-encode : (bytes : List ℕ) → b64decode (b64encode bytes) ≡ bytes) where
  -- what the socket was given, decoded
  unfoldable pub audio : List (Handed Text) → List ℕ
  audio [] = []
  audio (h ∷ earlier) = audio earlier ++ b64decode h.envelope.audio_data

  abbrev pub heard : MediaStream Text → List ℕ
  heard s = audio s.handed ++ s.buffer

  -- What every history keeps of a stream.
  pub record IsSound (fmt : AudioFormat) (s : MediaStream Text) : Type 0 where
    pub format : s.format ≡ fmt
    pub bounded : s.closed ≡ false → length s.buffer < threshold_bytes fmt
    pub drained : s.closed ≡ true → s.buffer ≡ []
    pub full : s.closed ≡ false → All (λ h. threshold_bytes fmt ≤ h.bytes) s.handed

  -- What a flush does that is not interrupted.
  pub record IsFlushed (s : MediaStream Text) (chunk : List ℕ) (t : MediaStream Text) : Type 0 where
    pub format : t.format ≡ s.format
    pub closed : t.closed ≡ s.closed
    pub buffer : t.buffer ≡ s.buffer
    pub audio : audio t.handed ≡ audio s.handed ++ chunk
    pub handed : (h : Handed Text) × (t.handed ≡ h ∷ s.handed) × (h.bytes ≡ length chunk)

  pub flush-IsFlushed :
      (s : MediaStream Text) (chunk : List ℕ) (now : ℕ) (fate : Fate)
      → is_interrupted fate ≡ false
      → IsFlushed s chunk (flush b64encode s chunk now fate).1
  unfolding flush audio
  flush-IsFlushed s chunk now interrupted h = cc
  flush-IsFlushed s chunk now cancelled h = record {
    format = refl;
    closed = refl;
    buffer = refl;
    audio = ap (λ x. audio s.handed ++ x) (decode-encode chunk);
    handed = (_, refl, refl);
  }
  flush-IsFlushed s chunk now refused h = record {
    format = refl;
    closed = refl;
    buffer = refl;
    audio = ap (λ x. audio s.handed ++ x) (decode-encode chunk);
    handed = (_, refl, refl);
  }
  flush-IsFlushed s chunk now accepted h = record {
    format = refl;
    closed = refl;
    buffer = refl;
    audio = ap (λ x. audio s.handed ++ x) (decode-encode chunk);
    handed = (_, refl, refl);
  }

  -- What `send` does on an open stream.
  pub record IsSent (s : MediaStream Text) (frame : List ℕ) (t : MediaStream Text) : Type 0 where
    pub heard : heard t ≡ heard s ++ frame
    pub sound : (fmt : AudioFormat) → 0 < threshold_bytes fmt → IsSound fmt s → IsSound fmt t
    pub closed : t.closed ≡ false

  pub send-IsSent :
      (s : MediaStream Text) (frame : List ℕ) (now : ℕ) (fate : Fate)
      → is_interrupted fate ≡ false
      → s.closed ≡ false
      → IsSent s frame (send b64encode s frame now fate).1
  unfolding send
  send-IsSent s frame now fate uninterrupted open' =
      if_elim (λ (p : Result MediaError (Unit {0}) × MediaStream Text). IsSent s frame p.1) s.closed
        _ _ (λ c. absurd (ground arith))
        λ _.
          if_elim (λ (p : Result MediaError (Unit {0}) × MediaStream Text). IsSent s frame p.1)
            (leb (threshold_bytes s.format) (length (s.buffer ++ frame))) _ _
            (λ full.
              let f =
                flush-IsFlushed (taken (buffered s frame)) (s.buffer ++ frame) now fate
                  uninterrupted in
              record {
                heard =
                    rw (f.audio, f.buffer, append-nil)
                      (sym (append_assoc (audio s.handed) s.buffer frame));
                sound = λ fmt positive h.
                    let (x, e, n) = f.handed in
                    record {
                      format = f.format ∙ h.format;
                      bounded = λ _. rw f.buffer positive;
                      drained = λ _. f.buffer;
                      full = λ _. rw e (n_full fmt x n (rw h.format at full), h.full open');
                    };
                closed = f.closed ∙ open';
              })
            λ short. record {
              heard = sym (append_assoc (audio s.handed) s.buffer frame);
              sound = λ fmt positive h. record {
                format = h.format;
                bounded = λ _. not_full fmt (rw h.format at short);
                drained = λ (c : s.closed ≡ true). absurd (ground arith);
                full = λ _. h.full open';
              };
              closed = open';
            }
    where
      n_full :
          (fmt : AudioFormat) (x : Handed Text)
          → x.bytes ≡ length (s.buffer ++ frame)
          → leb (threshold_bytes fmt) (length (s.buffer ++ frame)) ≡ true
          → threshold_bytes fmt ≤ x.bytes
      n_full fmt x n l = ground arith

      not_full :
          (fmt : AudioFormat)
          → leb (threshold_bytes fmt) (length (s.buffer ++ frame)) ≡ false
          → length (s.buffer ++ frame) < threshold_bytes fmt
      not_full fmt l = ground arith
