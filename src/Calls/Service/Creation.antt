-- ===== src/Calls/Service/Creation.antt =====
-- `create_call_session` of voiceagent/calls/service.py: what an insert does to the store.
use call_agent.Prelude.{
  suc, ◌≡◌, refl, String, false, not, Option, none, some, [], ◌∷◌, ◌++◌, arith, ◌⊎◌, inl, inr,
}
use call_agent.Prelude.Eq.{string_eq, nat_eq, option_eq}
use call_agent.Prelude.Sets.{elem}
use call_agent.Prelude.Results.{Result, ok, err}
use call_agent.Store.{Store}
use call_agent.Store.Rows.{TenantContext, CallSession}
use call_agent.Store.Errors.{Error, integrity_error}
use call_agent.Store.Tx.{Tx, raise_if-bind, ◌>>◌}
use call_agent.Store.Proc.{settle, attempt}
use call_agent.Calls.Service.{
  NewCall, new_call, channel_taken, insert_call, check_keys, create_call_session, recover,
  get_call_session_by_fs_channel_uuid, fs_channel_uuid_unique_constraint,
}

-- The store with a new row.
abbrev pub inserted : CallSession → Store → Store
inserted call s = record s { supply = suc s.supply; call_sessions = s.call_sessions ++ call ∷ [] }

recover-err :
    (context : TenantContext) (channel : Option String) (x : Error) (s : Store)
    → (recover context channel (err x) s).1 ≡ s
unfolding get_call_session_by_fs_channel_uuid
recover-err context none x s = refl
recover-err context (some channel) (integrity_error name) s = ground arith
recover-err context (some channel) _ s = refl

-- The constraints on the keys let the rest run.
check_keys-bind :
    {B : Type 0} (o : Option String) (m : Tx B) (s t : Store) (b : B)
    → (check_keys o >> m) s ≡ ok (b, t)
    → m s ≡ ok (b, t)
check_keys-bind none m s t b h = h
check_keys-bind (some name) m s t b h = cc

module _ (foreign_keys : CallSession → Option String) (context : TenantContext) (n : NewCall)
    (s : Store) where
  abbrev fresh : CallSession
  fresh = new_call context s.supply s.now n

  insert_call-ok :
      (call : CallSession) (t : Store)
      → insert_call foreign_keys context n s ≡ ok (call, t)
      → (call ≡ fresh) × (t ≡ inserted fresh s) × (channel_taken fresh s.call_sessions ≡ false)
  unfolding insert_call
  insert_call-ok call t h =
      let s' = record s { supply = suc s.supply } in
      let (directed, h₁) =
        raise_if-bind (not (elem n.direction ("inbound" ∷ "outbound" ∷ [])))
          (integrity_error "ck_call_sessions_direction") _ s' t call h in
      let (free, h₂) =
        raise_if-bind (channel_taken fresh s.call_sessions)
          (integrity_error fs_channel_uuid_unique_constraint) _ s' t call h₁ in
      let h₃ = check_keys-bind (foreign_keys fresh) _ s' t call h₂ in ground arith

  -- A call of `create_call_session` adds its row, or leaves the store as it was.
  pub create_call_session-cases :
      ((create_call_session foreign_keys context n s).1 ≡ s)
      ⊎ ((create_call_session foreign_keys context n s).1 ≡ inserted fresh s)
  unfolding create_call_session
  create_call_session-cases = split (insert_call foreign_keys context n s) refl
    where
      split :
          (r : Result Error (CallSession × Store))
          → insert_call foreign_keys context n s ≡ r
          → ((attempt (settle s r) (recover context n.fs_channel_uuid)).1 ≡ s)
            ⊎ ((attempt (settle s r) (recover context n.fs_channel_uuid)).1 ≡ inserted fresh s)
      split (err x) e = inl (recover-err context n.fs_channel_uuid x s)
      split (ok (call, t)) e = inr (ground (arith, insert_call-ok call t e))
