-- ===== src/Telephony/Esl/Reconnect.antt =====
-- The waits between the attempts of `ManagedEslConnection._supervise` to reconnect, in
-- voiceagent/telephony/freeswitch/esl_transport.py. An attempt fails with a TransportError or
-- succeeds; the attempts are given as a list of outcomes.
use call_agent.Prelude.{ℕ, suc, ◌*◌, ◌^◌, Bool, true, false, List, [], ◌∷◌, min}

-- `self._initial_backoff` and `self._max_backoff`
pub record Reconnection : Type 0 where
  pub initial_backoff : ℕ
  pub max_backoff : ℕ

module _ (r : Reconnection) where
  -- The sleeps of one loop `while not self._closed`, begun with this backoff, and the backoff after.
  unfoldable pub reconnect : ℕ → List Bool → List ℕ × ℕ
  reconnect backoff [] = ([], backoff)
  reconnect backoff (true ∷ outcomes) = ([], r.initial_backoff)
  reconnect backoff (false ∷ outcomes) =
      let (sleeps, last) = reconnect (min (backoff * 2) r.max_backoff) outcomes in
      (backoff ∷ sleeps, last)

  -- The sleeps of the whole supervision, one loop for each lost connection.
  unfoldable pub supervise : ℕ → List (List Bool) → List (List ℕ)
  unfolding reconnect
  supervise backoff [] = []
  supervise backoff (outcomes ∷ losses) =
      let (sleeps, next) = reconnect backoff outcomes in sleeps ∷ supervise next losses

  -- The waits that are due from the k-th attempt of a loop on: one for each attempt that fails.
  unfoldable pub waits : ℕ → List Bool → List ℕ
  waits k [] = []
  waits k (true ∷ outcomes) = []
  waits k (false ∷ outcomes) =
      min (r.initial_backoff * 2 ^ k) r.max_backoff ∷ waits (suc k) outcomes

  -- Some attempt succeeds.
  abbrev pub EndsWell : List Bool → Type 0
  EndsWell [] = ⊥
  EndsWell (true ∷ outcomes) = Unit
  EndsWell (false ∷ outcomes) = EndsWell outcomes
