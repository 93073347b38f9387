-- ===== src/Runtime/Reconciliation.antt =====
-- What `reconcile_tenant` does with the calls of a tenant while other tasks change them too.
use call_agent.Prelude.{ℕ, ℤ, ◌≡◌, inl, inr, refl, arith, Bool, ◌&&◌, List, [], ◌∷◌, filter, length}
use call_agent.Prelude.Results.{Result, ok, err}
use call_agent.Store.{Store}
use call_agent.Store.Rows.{TenantContext, CallSession}
use call_agent.Store.Errors.{Error}
use call_agent.Store.Proc.{then_with, finish_with, settle, attempt}
use call_agent.Calls.Service.{is_non_terminal, transition_call_session}
use call_agent.Runtime.{
  Heartbeats, is_gone, find_stale_call_sessions, ReconciliationReport, interruption, repair_one,
  prepend, repair, reconcile_tenant,
}
use call_agent.Runtime.Interruption.{
  IsLanded, IsShut, IsFault, transition-IsLanded, transition-IsShut,
}

module _ (millis : ℕ → ℕ → ℤ) (meanwhile : CallSession → Store → Store)
    (context : TenantContext) where
  -- The repairs of these calls from one store to another, with the calls that they interrupted.
  -- Before each repair the other tasks have written; a call whose status by then forbids an
  -- interruption is left alone.
  pub data IsRepaired : List CallSession → Store → List CallSession → Store → Type 0 where
    finished : {s : Store} → IsRepaired [] s [] s
    interrupted :
        {call c : CallSession} {calls cs : List CallSession} {s t u : Store}
        → IsLanded millis context "interrupted" call.id c (meanwhile call s) t
        → IsRepaired calls t cs u
        → IsRepaired (call ∷ calls) s (c ∷ cs) u
    ignored :
        {call : CallSession} {calls cs : List CallSession} {s u : Store}
        → IsShut millis context "interrupted" call.id (meanwhile call s)
        → IsRepaired calls (meanwhile call s) cs u
        → IsRepaired (call ∷ calls) s cs u

  abbrev IsLoop : List CallSession → Store → Result Error (List CallSession) × Store → Type 0
  IsLoop calls s (ok cs, u) = IsRepaired calls s cs u
  IsLoop calls s (err x, u) = IsFault millis context x

  repair-IsLoop :
      (calls : List CallSession) (s : Store)
      → IsLoop calls s (repair millis meanwhile context calls s)
  unfolding repair
  repair-IsLoop [] s = finished
  repair-IsLoop (call ∷ calls) s =
      go (transition_call_session millis context call.id interruption (meanwhile call s)) refl
        (λ t. repair-IsLoop calls t)
    where
      landed :
          (c : CallSession) (t : Store) (x : Result Error (List CallSession) × Store)
          → IsLanded millis context "interrupted" call.id c (meanwhile call s) t
          → IsLoop calls t x
          → IsLoop (call ∷ calls) s (then_with x λ r. finish_with (prepend millis (c ∷ []) r))
      landed c t (err y, u) l i = i
      landed c t (ok cs, u) l i = interrupted l i

      shut :
          (x : Result Error (List CallSession) × Store)
          → IsShut millis context "interrupted" call.id (meanwhile call s)
          → IsLoop calls (meanwhile call s) x
          → IsLoop (call ∷ calls) s (then_with x λ r. finish_with (prepend millis [] r))
      shut (err y, u) l i = i
      shut (ok cs, u) l i = ignored l i

      go :
          (r : Result Error (CallSession × Store))
          → transition_call_session millis context call.id interruption (meanwhile call s) ≡ r
          → ((t : Store) → IsLoop calls t (repair millis meanwhile context calls t))
          → IsLoop (call ∷ calls) s (
              then_with (attempt (settle (meanwhile call s) r) (repair_one millis)) λ one s'.
                then_with
                  (repair millis meanwhile context calls s')
                  λ r. finish_with (prepend millis one r))
      go (ok (c, t)) e ih =
          landed c t (repair millis meanwhile context calls t)
            (transition-IsLanded millis context interruption call.id (meanwhile call s) t c e)
            (ih t)
      go (err x) e ih =
          elim (transition-IsShut millis context interruption call.id (meanwhile call s) x refl refl
            e) [
              | inl (refused, closed) ↦ rw refused (
                  shut (repair millis meanwhile context calls (meanwhile call s)) closed
                    (ih (meanwhile call s)))
              | inr (other, fault) ↦ rw other fault
            ]

  -- A call of the tenant that has not ended and whose runtime sent no heartbeat.
  abbrev pub is_stale : Heartbeats → CallSession → Bool
  is_stale heartbeats c = is_non_terminal context c && is_gone heartbeats c.runtime_instance_id

  stale-filter :
      (heartbeats : Heartbeats) (calls : List CallSession)
      → find_stale_call_sessions (filter (is_non_terminal context) calls) heartbeats
        ≡ filter (is_stale heartbeats) calls
  unfolding find_stale_call_sessions
  stale-filter heartbeats [] = refl
  stale-filter heartbeats (c ∷ calls) = ground (arith, stale-filter heartbeats calls)

  -- What `reconcile_tenant` reports and leaves, or raises.
  abbrev pub IsReconciled : Heartbeats → Store → Result Error ReconciliationReport × Store → Type 0
  IsReconciled heartbeats s (ok report, t) =
      (report.stale ≡ filter (is_stale heartbeats) s.call_sessions)
      × IsRepaired report.stale s report.repaired t
  IsReconciled heartbeats s (err x, t) = IsFault millis context x

  -- Whatever other transactions commit between the scan and each repair: `reconcile_tenant` raises
  -- nothing but the IntegrityError of a channel that two rows share or that a call is not found. If it
  -- returns, it reports as stale exactly the tenant's calls that had not ended at the scan and whose
  -- runtime sent no heartbeat; and it went through these in order, and each whose status at its turn
  -- allowed it, it interrupted, writing that row only and reporting it as repaired, and each other
  -- one, which had ended by then, it left alone.
  pub reconcile_tenant-IsReconciled :
      (heartbeats : Heartbeats) (s : Store)
      → IsReconciled heartbeats s (reconcile_tenant millis meanwhile context heartbeats s)
  unfolding reconcile_tenant
  reconcile_tenant-IsReconciled heartbeats s =
      go (repair millis meanwhile context (stale_of) s) (repair-IsLoop stale_of s)
    where
      stale_of : List CallSession
      stale_of =
          find_stale_call_sessions (filter (is_non_terminal context) s.call_sessions) heartbeats

      go :
          (x : Result Error (List CallSession) × Store)
          → IsLoop stale_of s x
          → IsReconciled heartbeats s (
              then_with x λ repaired. finish_with (record {
                scanned = length (filter (is_non_terminal context) s.call_sessions);
                stale = stale_of;
                repaired = repaired;
              }))
      go (err x, t) i = i
      go (ok repaired, t) i = (stale-filter heartbeats s.call_sessions, i)
