-- ===== src/Calendars/Disjoint.antt =====
-- The intervals of the events that voiceagent/calendars/service.py books and cancels.
use call_agent.Prelude.{
  All-append, ℕ, ◌≡◌, ◌<◌, refl, arith, String, Bool, false, not, ◌&&◌, Option, none, some, List,
  [], ◌∷◌, ◌++◌, All, is_some, ltb, if_elim, nat_beq, ap, subst, sym, ◌∙◌, Bool-cases, inl, inr,
}
use call_agent.Prelude.Eq.{◌==◌, ◌!=◌, string_eq, nat_eq}
use call_agent.Prelude.Results.{ok}
use call_agent.Store.{Store}
use call_agent.Store.Rows.{TenantContext, Calendar, Contact, CalendarEvent}
use call_agent.Store.Errors.{
  invalid_interval, calendar_event_conflict, calendar_not_found, contact_not_found,
  calendar_event_not_found,
}
use call_agent.Store.Table.{find_row, update_row, find_row-update_row, find_row-key}
use call_agent.Store.Tx.{>>=-eq-ok, committed, raise_if-bind, raise_if-eq-ok, pure}
use call_agent.Calendars.{
  calendar_visible, contact_visible, optional_contact, found_event, cancel_row, overlaps,
  conflicting_event, new_event, require_calendar, require_contact, get_event_row, create_event,
  cancel_event,
}

-- Two scheduled events of one calendar that overlap.
abbrev pub clash : CalendarEvent → CalendarEvent → Bool
clash e f =
    e.tenant_id == f.tenant_id
    && e.calendar_id == f.calendar_id
    && e.status == "scheduled"
    && f.status == "scheduled"
    && overlaps f.start_at f.end_at e

abbrev pub IsDisjoint : List CalendarEvent → Type 0
IsDisjoint [] = Unit
IsDisjoint (e ∷ es) = All (λ f. clash e f ≡ false) es × IsDisjoint es

IsDisjoint-append :
    (es : List CalendarEvent) (e : CalendarEvent)
    → IsDisjoint es
    → All (λ f. clash f e ≡ false) es
    → IsDisjoint (es ++ e ∷ [])
IsDisjoint-append [] e d h = (tt, tt)
IsDisjoint-append (x ∷ es) e d h =
    (All-append (λ f. clash x f ≡ false) es e d.0 h.0, IsDisjoint-append es e d.1 h.1)

no_conflict :
    (context : TenantContext) (id calendar_id : ℕ) (title : String) (start_at end_at : ℕ)
    (contact_id : Option ℕ) (es : List CalendarEvent)
    → is_some (conflicting_event context.tenant_id calendar_id start_at end_at es) ≡ false
    → All
        (λ f. clash f (new_event context id calendar_id title start_at end_at contact_id) ≡ false)
        es
unfolding conflicting_event new_event
no_conflict context id calendar_id title start_at end_at contact_id [] h = tt
no_conflict context id calendar_id title start_at end_at contact_id (e ∷ es) h = (
  ground arith,
  no_conflict context id calendar_id title start_at end_at contact_id es (ground arith),
)

-- What a write that cancels does to a clash.
clash-cancelled : (e f : CalendarEvent) → clash e (record f { status = "cancelled" }) ≡ false
clash-cancelled e f = ground arith

cancelled-clash : (e f : CalendarEvent) → clash (record e { status = "cancelled" }) f ≡ false
cancelled-clash e f = ground arith

abbrev cancelled : CalendarEvent → CalendarEvent
cancelled e = record e { status = "cancelled" }

All-clash-cancel :
    (x e : CalendarEvent) (es : List CalendarEvent)
    → All (λ f. clash x f ≡ false) es
    → All (λ f. clash x f ≡ false) (update_row (λ (r : CalendarEvent). r.id) (cancelled e) es)
unfolding update_row
All-clash-cancel x e [] h = tt
All-clash-cancel x e (y ∷ es) h =
    if_elim (All (λ f. clash x f ≡ false)) (nat_beq y.id e.id) (cancelled e ∷ es)
      (y ∷ update_row (λ (r : CalendarEvent). r.id) (cancelled e) es)
      (λ _. (clash-cancelled x e, h.1)) (λ _. (h.0, All-clash-cancel x e es h.1))

All-cancelled-clash :
    (e : CalendarEvent) (es : List CalendarEvent) → All (λ f. clash (cancelled e) f ≡ false) es
All-cancelled-clash e [] = tt
All-cancelled-clash e (y ∷ es) = (cancelled-clash e y, All-cancelled-clash e es)

IsDisjoint-cancel :
    (e : CalendarEvent) (es : List CalendarEvent)
    → IsDisjoint es
    → IsDisjoint (update_row (λ (r : CalendarEvent). r.id) (cancelled e) es)
unfolding update_row
IsDisjoint-cancel e [] d = tt
IsDisjoint-cancel e (y ∷ es) d =
    if_elim IsDisjoint (nat_beq y.id e.id) (cancelled e ∷ es)
      (y ∷ update_row (λ (r : CalendarEvent). r.id) (cancelled e) es)
      (λ _. (All-cancelled-clash e es, d.1))
      (λ _. (All-clash-cancel y e es d.0, IsDisjoint-cancel e es d.1))

require_calendar-keeps :
    (context : TenantContext) (id : ℕ) (s t : Store) (u : Unit {0})
    → require_calendar context id s ≡ ok (u, t)
    → t ≡ s
unfolding require_calendar
require_calendar-keeps context id s t u h =
    (raise_if-eq-ok
      (not (calendar_visible context (find_row (λ (c : Calendar). c.id) id s.calendars)))
      (calendar_not_found id) s t u h).1

optional_contact-keeps :
    (context : TenantContext) (id : Option ℕ) (s t : Store) (u : Unit {0})
    → optional_contact context id s ≡ ok (u, t)
    → t ≡ s
unfolding require_contact
optional_contact-keeps context none s t u h = ground arith
optional_contact-keeps context (some id) s t u h =
    (raise_if-eq-ok (not (contact_visible context (find_row (λ (c : Contact). c.id) id s.contacts)))
      (contact_not_found id) s t u h).1

-- An event that `create_event` made starts before it ends, and if no two scheduled events of one
-- calendar overlapped before, none do after.
pub create_event-IsDisjoint :
    (context : TenantContext) (calendar_id : ℕ) (title : String) (start_at end_at : ℕ)
    (contact_id : Option ℕ) (s t : Store) (event : CalendarEvent)
    → IsDisjoint s.calendar_events
    → create_event context calendar_id title start_at end_at contact_id s ≡ ok (event, t)
    → (event.start_at < event.end_at) × IsDisjoint t.calendar_events
unfolding create_event require_calendar new_event
create_event-IsDisjoint context calendar_id title start_at end_at contact_id s t event d p =
    let (ordered, p₁) = raise_if-bind (not (ltb start_at end_at)) invalid_interval _ s t event p in
    let (u, s₁, a, p₂) = >>=-eq-ok (require_calendar context calendar_id) _ s p₁ in
    let (v, s₂, b, p₃) = >>=-eq-ok (optional_contact context contact_id) _ s₁ p₂ in
    let (free, p₄) =
      raise_if-bind
        (is_some
          (conflicting_event context.tenant_id calendar_id start_at end_at s₂.calendar_events))
        calendar_event_conflict _ s₂ t event p₃ in
    let same_store =
      optional_contact-keeps context contact_id s₁ s₂ v b
      ∙ require_calendar-keeps context calendar_id s s₁ u a in
    let (made, stored) = committed p₄ in
    appended s₂ (subst (λ (x : Store). IsDisjoint x.calendar_events) (sym same_store) d) free made
      (ap (λ (x : Store). x.calendar_events) stored)
  where
    appended :
        (s₂ : Store)
        → IsDisjoint s₂.calendar_events
        → is_some
            (conflicting_event context.tenant_id calendar_id start_at end_at s₂.calendar_events)
          ≡ false
        → new_event context s₂.supply calendar_id title start_at end_at contact_id ≡ event
        → s₂.calendar_events
            ++ new_event context s₂.supply calendar_id title start_at end_at contact_id ∷ []
          ≡ t.calendar_events
        → (event.start_at < event.end_at) × IsDisjoint t.calendar_events
    appended s₂ d₂ free made stored = (
      subst (λ (e : CalendarEvent). e.start_at < e.end_at) made
          (starts_first s₂.supply
            (raise_if-bind (not (ltb start_at end_at)) invalid_interval _ s t event p).0),
      subst IsDisjoint stored (
          IsDisjoint-append s₂.calendar_events
            (new_event context s₂.supply calendar_id title start_at end_at contact_id) d₂
            (no_conflict context s₂.supply calendar_id title start_at end_at contact_id
              s₂.calendar_events free)),
    )
      where
        starts_first :
            (id : ℕ)
            → not (ltb start_at end_at) ≡ false
            → (new_event context id calendar_id title start_at end_at contact_id).start_at
              < (new_event context id calendar_id title start_at end_at contact_id).end_at
        starts_first id h = ground arith

get_event_row-reads :
    (context : TenantContext) (id : ℕ) (s t : Store) (e : CalendarEvent)
    → get_event_row context id s ≡ ok (e, t)
    → (t ≡ s)
      × (find_row (λ (e : CalendarEvent). e.id) id s.calendar_events ≡ some e)
      × (e.tenant_id ≡ context.tenant_id)
unfolding get_event_row
get_event_row-reads context id s t e h =
    go (find_row (λ (e : CalendarEvent). e.id) id s.calendar_events) refl h
  where
    go :
        (o : Option CalendarEvent)
        → find_row (λ (e : CalendarEvent). e.id) id s.calendar_events ≡ o
        → found_event context id o s ≡ ok (e, t)
        → (t ≡ s)
          × (find_row (λ (e : CalendarEvent). e.id) id s.calendar_events ≡ some e)
          × (e.tenant_id ≡ context.tenant_id)
    go none r p = cc
    go (some x) r p =
        let (mine, rest) =
          raise_if-bind (x.tenant_id != context.tenant_id) (calendar_event_not_found id) (pure x) s
            t e p in
        let (same_row, same_store) = committed rest in
        (
          sym same_store,
          r ∙ ap some same_row,
          subst (λ (y : CalendarEvent). y.tenant_id ≡ context.tenant_id) same_row
              (ground (arith, nat_eq.equal_iff x.tenant_id context.tenant_id)),
        )

-- The row of this identifier, which was the tenant's, is the returned one: as it was, but cancelled.
-- The rows of the other identifiers are as they were.
pub record IsCancellation (context : TenantContext) (id : ℕ) (event : CalendarEvent) (s t : Store)
    : Type 0 where
  pub old : CalendarEvent
  pub there : find_row (λ (e : CalendarEvent). e.id) id s.calendar_events ≡ some old
  pub mine : old.tenant_id ≡ context.tenant_id
  pub made : event ≡ record old { status = "cancelled" }
  pub stored : find_row (λ (e : CalendarEvent). e.id) id t.calendar_events ≡ some event
  pub others :
      (k : ℕ)
      → nat_beq id k ≡ false
      → find_row (λ (e : CalendarEvent). e.id) k t.calendar_events
        ≡ find_row (λ (e : CalendarEvent). e.id) k s.calendar_events

-- An event that is cancelled already is its own cancellation.
cancelled_already : (e : CalendarEvent) → e.status ≡ "cancelled" → e ≡ cancelled e
cancelled_already e h = ap (λ status. record e { status = status }) h

-- A `cancel_event` that commits writes the cancelled event into its row, which was the tenant's, and
-- changes no other; a second cancellation changes nothing. If no two scheduled events of one calendar
-- overlapped before, none do after.
pub cancel_event-IsDisjoint :
    (context : TenantContext) (event_id : ℕ) (s t : Store) (event : CalendarEvent)
    → IsDisjoint s.calendar_events
    → cancel_event context event_id s ≡ ok (event, t)
    → IsDisjoint t.calendar_events × IsCancellation context event_id event s t
unfolding cancel_event get_event_row
cancel_event-IsDisjoint context event_id s t event d p =
    let (e, s', a, p₁) = >>=-eq-ok (get_event_row context event_id) _ s p in
    let (same, there, mine) = get_event_row-reads context event_id s s' e a in
    go e there mine (subst (λ (x : Store). cancel_row e x ≡ ok (event, t)) same p₁)
  where
    go :
        (e : CalendarEvent)
        → find_row (λ (e : CalendarEvent). e.id) event_id s.calendar_events ≡ some e
        → e.tenant_id ≡ context.tenant_id
        → cancel_row e s ≡ ok (event, t)
        → IsDisjoint t.calendar_events × IsCancellation context event_id event s t
    go e there mine q = elim (Bool-cases (e.status == "cancelled")) [
      | inl done ↦
          let (made, stored) = committed (rw done at q) in
          let was : e.status ≡ "cancelled" = (string_eq.equal_iff e.status "cancelled").0 done in
          (
            subst (λ (x : Store). IsDisjoint x.calendar_events) stored d,
            record {
              old = e;
              there = there;
              mine = mine;
              made = sym made ∙ cancelled_already e was;
              stored =
                  subst
                    (λ (x : Store).
                      find_row (λ (e : CalendarEvent). e.id) event_id x.calendar_events
                      ≡ some event)
                    stored (there ∙ ap some made);
              others = λ k other. rw (sym stored) refl;
            },
          )
      | inr live ↦
          let (made, stored) = committed (rw live at q) in
          let key = find_row-key (λ (e : CalendarEvent). e.id) event_id s.calendar_events e there in
          (
            subst (λ (x : Store). IsDisjoint x.calendar_events) stored
                (IsDisjoint-cancel e s.calendar_events d),
            record {
              old = e;
              there = there;
              mine = mine;
              made = sym made;
              stored =
                  subst
                    (λ (x : Store).
                      find_row (λ (e : CalendarEvent). e.id) event_id x.calendar_events
                      ≡ some event)
                    stored
                    (ground (
                      arith,
                      find_row-update_row (λ (e : CalendarEvent). e.id) event_id (cancelled e)
                          s.calendar_events,
                      key,
                      made,
                      there,
                    ));
              others = λ k other.
                  subst
                    (λ (x : Store).
                      find_row (λ (e : CalendarEvent). e.id) k x.calendar_events
                      ≡ find_row (λ (e : CalendarEvent). e.id) k s.calendar_events)
                    stored
                    (ground (
                      arith,
                      find_row-update_row (λ (e : CalendarEvent). e.id) k (cancelled e)
                          s.calendar_events,
                      key,
                    ));
            },
          )
    ]
