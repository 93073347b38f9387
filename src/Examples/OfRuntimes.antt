-- ===== src/Examples/OfRuntimes.antt =====
-- The theorems on runtimes at a call whose runtime is gone.
use call_agent.Prelude.{ℕ, ◌≡◌, ◌⊎◌, refl, none, some, [], ◌∷◌, length}
use call_agent.Prelude.Results.{Result, ok, err}
use call_agent.Store.{Store}
use call_agent.Store.Errors.{Error, no_runtime_capacity}
use call_agent.Store.Rows.{CallSession}
use call_agent.Store.Proc.{run}
use call_agent.Calls.Service.{transition_call_session}
use call_agent.Runtime.{
  RuntimeHeartbeat, Heartbeats, ReconciliationReport, interruption, assign_call_to_runtime,
  reconcile_tenant,
}
use call_agent.Runtime.Assignment.{
  NoneHasCapacity, IsLeastLoaded, IsAssigned, assign_call_to_runtime-cases,
}
use call_agent.Runtime.Reconciliation.{IsReconciled, reconcile_tenant-IsReconciled}
use call_agent.Examples.{tenant, call_with, store_with, millis}

abbrev heartbeat : ℕ → RuntimeHeartbeat
heartbeat load = record {
  instance_id = "runtime-2";
  address = "10.0.0.2";
  capacity = 4;
  current_load = load;
  last_heartbeat = 4000;
}

abbrev heartbeats : Heartbeats
heartbeats = ("runtime-2", heartbeat 1) ∷ []

abbrev unowned : Store
unowned = store_with (call_with 1 "ringing" none none) []

assign_call_to_runtime-cases_example :
    (NoneHasCapacity heartbeats
      × (assign_call_to_runtime tenant 1 heartbeats unowned
          ≡ (err (no_runtime_capacity 1), unowned)))
    ⊎ ((h : RuntimeHeartbeat) × IsLeastLoaded h heartbeats
        × IsAssigned tenant 1 h unowned (assign_call_to_runtime tenant 1 heartbeats unowned))
assign_call_to_runtime-cases_example = assign_call_to_runtime-cases tenant 1 heartbeats unowned

abbrev orphaned : Store
orphaned = store_with (call_with 1 "in_progress" none (some "runtime-1")) []

-- The call ends between the scan and its repair.
abbrev hangup : CallSession → Store → Store
hangup call s =
    (run
      (transition_call_session millis tenant call.id
        (record interruption { to_status = "completed" }))
      s).1

reconcile_tenant-IsReconciled_example :
    IsReconciled millis hangup tenant heartbeats orphaned
      (reconcile_tenant millis hangup tenant heartbeats orphaned)
reconcile_tenant-IsReconciled_example =
    reconcile_tenant-IsReconciled millis hangup tenant heartbeats orphaned

abbrev lengths : Result Error ReconciliationReport → ℕ × ℕ
lengths (ok report) = (length report.stale, length report.repaired)
lengths (err x) = (0, 0)

late_repair : lengths (reconcile_tenant millis hangup tenant heartbeats orphaned).0 ≡ (1, 0)
unfolding reconcile_tenant
late_repair = refl

repair_alone : lengths (reconcile_tenant millis (λ call s. s) tenant heartbeats orphaned).0 ≡ (1, 1)
unfolding reconcile_tenant
repair_alone = refl
