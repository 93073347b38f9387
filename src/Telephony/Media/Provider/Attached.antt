-- ===== src/Telephony/Media/Provider/Attached.antt =====
-- What the provider's three dicts say of one call.
use call_agent.Prelude.{
  ℕ, ◌≡◌, ◌≢◌, ◌↔◌, refl, arith, Bool, true, false, not, ◌&&◌, Option, none, some, List, [], ◌∷◌,
  is_some, if_elim,
}
use call_agent.Prelude.Eq.{nat_eq}
use call_agent.Prelude.Dicts.{lookup, put, pop_key, lookup-put, lookup-pop_key}
use call_agent.Prelude.Results.{Result, ok, err}
use call_agent.Telephony.Media.{AudioFormat, MediaError, Fate, MediaStream, new_stream}
use call_agent.Telephony.Media.Provider.{
  Provider, new_provider, is_supported, chosen, register_socket, attach, detach, health, speak,
  attach_to, detach_from, speak_on, listen_on, listen,
}

-- The calls that a provider and its streams get.
pub data Event : Type 0 where
  registering : ℕ → ℕ → Event
  attaching : ℕ → Option AudioFormat → ℕ → Event
  detaching : ℕ → ℕ → Fate → Event
  speaking : ℕ → List ℕ → ℕ → Fate → Event
  listening : ℕ → Event

module _ {Text : Type 0} (b64encode : List ℕ → Text) where
  abbrev pub step : Provider Text → Event → Provider Text
  step p (registering call_ref socket) = register_socket p call_ref socket
  step p (attaching call_ref fmt now) = (attach p call_ref fmt now).1
  step p (detaching call_ref now fate) = (detach b64encode p call_ref now fate).1
  step p (speaking call_ref frame now fate) = speak b64encode p call_ref frame now fate
  step p (listening call_ref) = listen b64encode p call_ref

  unfoldable pub run : Provider Text → List Event → Provider Text
  unfolding attach detach speak listen
  run p [] = p
  run p (event ∷ events) = run (step p event) events

  -- An attached call has an attachment time and a socket; a call that is not attached has no time.
  pub record IsConsistentAt (p : Provider Text) (r : ℕ) : Type 0 where
    pub timed : is_some (lookup r p.streams) ≡ is_some (lookup r p.attached_at)
    pub wired : is_some (lookup r p.streams) ≡ true → is_some (lookup r p.sockets) ≡ true

  register_socket-IsConsistentAt :
      (p : Provider Text) (r call_ref socket : ℕ)
      → IsConsistentAt p r
      → IsConsistentAt (register_socket p call_ref socket) r
  register_socket-IsConsistentAt p r call_ref socket h = record {
    timed = h.timed;
    wired = λ a. ground (arith, lookup-put r call_ref socket p.sockets, h.wired a);
  }

  attach_to-IsConsistentAt :
      (p : Provider Text) (r call_ref : ℕ) (fmt : AudioFormat) (now : ℕ) (o : Option ℕ)
      → lookup call_ref p.sockets ≡ o
      → IsConsistentAt p r
      → IsConsistentAt (attach_to p call_ref fmt now o).1 r
  attach_to-IsConsistentAt p r call_ref fmt now none e h = h
  attach_to-IsConsistentAt p r call_ref fmt now (some socket) e h = record {
    timed = ground (
      arith,
      h.timed,
      lookup-put r call_ref (socket, new_stream Text fmt) p.streams,
      lookup-put r call_ref now p.attached_at,
    );
    wired = λ a. ground (
      arith,
      h.wired,
      e,
      nat_eq.equal_iff call_ref r,
      lookup-put r call_ref (socket, new_stream Text fmt) p.streams,
    );
  }

  attach-IsConsistentAt :
      (p : Provider Text) (r call_ref : ℕ) (fmt : Option AudioFormat) (now : ℕ)
      → IsConsistentAt p r
      → IsConsistentAt (attach p call_ref fmt now).1 r
  unfolding attach
  attach-IsConsistentAt p r call_ref fmt now h =
      if_elim (λ (x : Result MediaError (Unit {0}) × Provider Text). IsConsistentAt x.1 r)
        (not (is_supported (chosen fmt))) _ _ (λ _. h)
        λ _.
          if_elim (λ (x : Result MediaError (Unit {0}) × Provider Text). IsConsistentAt x.1 r)
            (is_some (lookup call_ref p.streams)) _ _ (λ _. h)
            λ _.
              attach_to-IsConsistentAt p r call_ref (chosen fmt) now (lookup call_ref p.sockets)
                refl h

  detach_from-IsConsistentAt :
      (p : Provider Text) (r call_ref : ℕ) (o : Option (ℕ × MediaStream Text)) (now : ℕ)
      (fate : Fate)
      → IsConsistentAt p r
      → IsConsistentAt (detach_from b64encode p call_ref o now fate).1 r
  detach_from-IsConsistentAt p r call_ref none now fate h = h
  detach_from-IsConsistentAt p r call_ref (some (socket, stream)) now fate h = record {
    timed = ground (
      arith,
      h.timed,
      lookup-pop_key r call_ref p.streams,
      lookup-pop_key r call_ref p.attached_at,
    );
    wired = λ a.
        ground (
          arith,
          h.wired,
          lookup-pop_key r call_ref p.streams,
          lookup-pop_key r call_ref p.sockets,
        );
  }

  -- Another state of the same stream.
  replaced-IsConsistentAt :
      (p : Provider Text) (r call_ref : ℕ) (old new : ℕ × MediaStream Text)
      → lookup call_ref p.streams ≡ some old
      → IsConsistentAt p r
      → IsConsistentAt (record p { streams = put call_ref new p.streams }) r
  replaced-IsConsistentAt p r call_ref old new e h = record {
    timed =
        ground
          (arith, h.timed, e, nat_eq.equal_iff call_ref r, lookup-put r call_ref new p.streams);
    wired = λ a.
        ground
          (arith, h.wired, e, nat_eq.equal_iff call_ref r, lookup-put r call_ref new p.streams);
  }

  step-IsConsistentAt :
      (p : Provider Text) (r : ℕ) (event : Event)
      → IsConsistentAt p r
      → IsConsistentAt (step p event) r
  unfolding detach speak listen
  step-IsConsistentAt p r (registering call_ref socket) h =
      register_socket-IsConsistentAt p r call_ref socket h
  step-IsConsistentAt p r (attaching call_ref fmt now) h =
      attach-IsConsistentAt p r call_ref fmt now h
  step-IsConsistentAt p r (detaching call_ref now fate) h =
      detach_from-IsConsistentAt p r call_ref (lookup call_ref p.streams) now fate h
  step-IsConsistentAt p r (speaking call_ref frame now fate) h = go (lookup call_ref p.streams) refl
    where
      go :
          (o : Option (ℕ × MediaStream Text))
          → lookup call_ref p.streams ≡ o
          → IsConsistentAt (speak_on b64encode p call_ref o frame now fate) r
      go none e = h
      go (some (socket, stream)) e = replaced-IsConsistentAt p r call_ref _ _ e h
  step-IsConsistentAt p r (listening call_ref) h = go (lookup call_ref p.streams) refl
    where
      go :
          (o : Option (ℕ × MediaStream Text))
          → lookup call_ref p.streams ≡ o
          → IsConsistentAt (listen_on b64encode p call_ref o) r
      go none e = h
      go (some (socket, stream)) e = replaced-IsConsistentAt p r call_ref _ _ e h

  run_keeps :
      (p : Provider Text) (events : List Event) (r : ℕ)
      → IsConsistentAt p r
      → IsConsistentAt (run p events) r
  unfolding run
  run_keeps p [] r h = h
  run_keeps p (event ∷ events) r h =
      run_keeps (step p event) events r (step-IsConsistentAt p r event h)

  -- After any history of calls on a new provider and its streams, a call that is attached has a socket
  -- and a time of attachment, and a call that is not attached has no time of attachment.
  pub run-IsConsistentAt :
      (events : List Event) (call_ref : ℕ)
      → IsConsistentAt (run (new_provider Text) events) call_ref
  run-IsConsistentAt events call_ref =
      run_keeps (new_provider Text) events call_ref (record { timed = refl; wired = λ a. cc })

  abbrev can_attach : Provider Text → ℕ → Option AudioFormat → Bool
  can_attach p call_ref fmt =
      is_supported (chosen fmt)
      && not (is_some (lookup call_ref p.streams))
      && is_some (lookup call_ref p.sockets)

  -- What `attach` returned with, the provider that it left, and that provider after a `detach`.
  abbrev pub IsAttach :
      Provider Text
      → ℕ
      → Option AudioFormat
      → ℕ
      → Fate
      → Result MediaError (Unit {0}) × Provider Text
      → Type 0
  IsAttach p call_ref fmt later fate (r, q) =
      ((r ≡ ok tt) ↔ (can_attach p call_ref fmt ≡ true))
      × (r ≢ ok tt → q ≡ p)
      × (r ≡ ok tt
          → health q call_ref ≡ record { attached = true; frames_sent = 0; frames_received = 0 })
      × (r ≡ ok tt
          → let last = (detach b64encode q call_ref later fate).1 in
            (lookup call_ref last.streams ≡ none) × (lookup call_ref last.sockets ≡ none))

  refuses :
      (p : Provider Text) (call_ref : ℕ) (fmt : Option AudioFormat) (later : ℕ) (fate : Fate)
      (x : MediaError)
      → can_attach p call_ref fmt ≡ false
      → IsAttach p call_ref fmt later fate (err x, p)
  refuses p call_ref fmt later fate x h = (((λ e. cc), λ e. cc), (λ e. refl), (λ e. cc), λ e. cc)

  attaches :
      (p : Provider Text) (call_ref : ℕ) (fmt : Option AudioFormat) (now later : ℕ) (fate : Fate)
      (o : Option ℕ)
      → lookup call_ref p.sockets ≡ o
      → is_supported (chosen fmt) ≡ true
      → is_some (lookup call_ref p.streams) ≡ false
      → IsAttach p call_ref fmt later fate (attach_to p call_ref (chosen fmt) now o)
  unfolding detach health
  attaches p call_ref fmt now later fate none e supported free =
      refuses p call_ref fmt later fate _ (ground arith)
  attaches p call_ref fmt now later fate (some socket) e supported free = (
    ((λ _. ground arith), λ _. refl),
    (λ n. absurd (n refl)),
    (λ _. rw there refl),
    λ _.
        rw there
          (gone (put call_ref (socket, new_stream Text (chosen fmt)) p.streams), gone p.sockets),
  )
    where
      there :
          lookup call_ref (put call_ref (socket, new_stream Text (chosen fmt)) p.streams)
          ≡ some (socket, new_stream Text (chosen fmt))
      there = ground (
        arith,
        nat_eq.equal_iff call_ref call_ref,
        lookup-put call_ref call_ref (socket, new_stream Text (chosen fmt)) p.streams,
      )

      gone : {A : Type 0} (d : List (ℕ × A)) → lookup call_ref (pop_key call_ref d) ≡ none
      gone d =
          ground (arith, nat_eq.equal_iff call_ref call_ref, lookup-pop_key call_ref call_ref d)

  -- `attach` returns exactly if the format is supported, the call is not attached, and a socket is
  -- registered for it; the call is then attached with no frame sent or received, and a `detach` after
  -- it leaves the call with no stream and no socket. If `attach` raises, it changes nothing.
  pub attach-detach :
      (p : Provider Text) (call_ref : ℕ) (fmt : Option AudioFormat) (now later : ℕ) (fate : Fate)
      → IsAttach p call_ref fmt later fate (attach p call_ref fmt now)
  unfolding attach
  attach-detach p call_ref fmt now later fate =
      if_elim (IsAttach p call_ref fmt later fate) (not (is_supported (chosen fmt))) _ _
        (λ unsupported. refuses p call_ref fmt later fate _ (ground arith))
        λ supported.
          if_elim (IsAttach p call_ref fmt later fate) (is_some (lookup call_ref p.streams)) _ _
            (λ attached. refuses p call_ref fmt later fate _ (ground arith))
            λ free.
              attaches p call_ref fmt now later fate (lookup call_ref p.sockets) refl (ground arith)
                free
