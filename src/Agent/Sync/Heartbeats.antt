-- ===== src/Agent/Sync/Heartbeats.antt =====
-- The heartbeats of a round of sync of internal/agent/agent.go, and the state in effect after its stages.
use xnode_agent.Prelude.{
  codes, map, ◌==◌, nat_eq, length, if◌then◌else◌, ◌&&◌, ◌||◌, not, refl, List, [], ◌∷◌, ◌++◌, Str,
  Bool, true, false, some, ap, ◌∙◌, ◌≡◌, arith, if_both,
}
use xnode_agent.Model.{DesiredState, SessionRecord, PolicyViolation}
use xnode_agent.Agent.Reload.{Call}
use xnode_agent.Agent.Round.{
  Config, Agent, Failure, Round, Heartbeat, Action, stop_core, call_core, limit_users, recover_core,
  report, persist, send, Ended, done, stopped, crashed, Synced,
}
use xnode_agent.Agent.Report.{heartbeat, fail_with, report_action, persisted, succeed, is_healthy}
use xnode_agent.Agent.Sync.{sync_checked, sync_api, limit_action, sync_stopped}

-- The heartbeats among the actions.
unfoldable pub heartbeats : List Action → List Heartbeat
heartbeats [] = []
heartbeats (send h ∷ rest) = h ∷ heartbeats rest
heartbeats (stop_core ∷ rest) = heartbeats rest
heartbeats (call_core c ∷ rest) = heartbeats rest
heartbeats (limit_users s ∷ rest) = heartbeats rest
heartbeats (recover_core ∷ rest) = heartbeats rest
heartbeats (report rs vs ∷ rest) = heartbeats rest
heartbeats (persist s ∷ rest) = heartbeats rest

pub heartbeats-append :
    (xs ys : List Action) → heartbeats xs ≡ [] → heartbeats (xs ++ ys) ≡ heartbeats ys
unfolding heartbeats
heartbeats-append [] ys h = refl
heartbeats-append (send x ∷ xs) ys h = absurd (ground (arith, h))
heartbeats-append (stop_core ∷ xs) ys h = heartbeats-append xs ys h
heartbeats-append (call_core c ∷ xs) ys h = heartbeats-append xs ys h
heartbeats-append (limit_users s ∷ xs) ys h = heartbeats-append xs ys h
heartbeats-append (recover_core ∷ xs) ys h = heartbeats-append xs ys h
heartbeats-append (report rs vs ∷ xs) ys h = heartbeats-append xs ys h
heartbeats-append (persist s ∷ xs) ys h = heartbeats-append xs ys h

pub heartbeats_calls : (cs : List Call) → heartbeats (map call_core cs) ≡ []
unfolding heartbeats
heartbeats_calls [] = refl
heartbeats_calls (c ∷ cs) = heartbeats_calls cs

module _ (cfg : Config) (r : Round) where
  heartbeats_report :
      (rs : List SessionRecord) (vs : List PolicyViolation)
      → heartbeats (report_action cfg r rs vs) ≡ []
  unfolding heartbeats report_action
  heartbeats_report rs vs = ground arith

  pub heartbeats_limit : (s : DesiredState) → heartbeats (limit_action cfg r s) ≡ []
  unfolding heartbeats limit_action
  heartbeats_limit s = ground arith

  -- The API that is told to work has answered, and a node that is told to be healthy with it enforces its
  -- strict limits if the configuration requires that.
  abbrev pub IsBacked : Agent → Bool → Bool → Type 0
  IsBacked a healthy api =
      ((api && not r.api_healthy && not r.api_recovered) ≡ false)
      × ((healthy && api && cfg.require_patched_core && not a.strict_ready) ≡ false)

  is_healthy-IsBacked :
      (a : Agent) (strict : List Str) (api : Bool)
      → (api && not r.api_healthy && not r.api_recovered) ≡ false
      → IsBacked
          (record a { strict_ready = length strict == 0 || r.patch_ready })
          (is_healthy cfg r strict
            (record a { strict_ready = length strict == 0 || r.patch_ready })
            api)
          api
  unfolding is_healthy
  is_healthy-IsBacked a strict api h = (h, ground arith)

  -- What the heartbeats of a round tell of the agent after it: nothing, if the round panics; that the
  -- node is not healthy, if it returns an error.
  abbrev pub Tells : Ended → Agent → List Heartbeat → Type 0
  Tells crashed a hs = hs ≡ []
  Tells stopped a hs = (text : Str) × (hs ≡ heartbeat cfg r a false text false ∷ [])
  Tells done a hs =
      (healthy : Bool) × (text : Str) × (api : Bool) × (hs
        ≡ heartbeat cfg r a healthy text api ∷ [])
      × IsBacked a healthy api

  -- What a round leaves of the state in effect: the new one where it returns nil, and otherwise the old.
  abbrev pub Keeps : Agent → DesiredState → Ended → Agent → Type 0
  Keeps old state crashed a =
      (a.state_version ≡ old.state_version) × (a.state_file ≡ old.state_file)
  Keeps old state stopped a =
      (a.state_version ≡ old.state_version) × (a.state_file ≡ old.state_file)
  Keeps old state done a =
      (a.state_version ≡ state.version)
      × (a.state_file ≡ (if r.persists then some state else old.state_file))

  abbrev pub IsConcluded : Agent → DesiredState → Synced → Type 0
  IsConcluded old state s =
      Tells s.ended s.agent (heartbeats s.actions) × Keeps old state s.ended s.agent

  -- The state in effect is that of the agent before the round.
  abbrev pub IsAsOld : Agent → Agent → Type 0
  IsAsOld old a = (a.state_version ≡ old.state_version) × (a.state_file ≡ old.state_file)

  module _ (old : Agent) (state : DesiredState) where
    pub fail_with-IsConcluded :
        (a : Agent) (actions : List Action) (prefix : Str) (f : Failure)
        → IsAsOld old a
        → heartbeats actions ≡ []
        → IsConcluded old state (fail_with cfg r a actions prefix f)
    unfolding fail_with heartbeats
    fail_with-IsConcluded a actions prefix f k h =
        ((prefix ++ r.error_text f, heartbeats-append actions _ h), k)

    persisted-Keeps : (a : Agent) → IsAsOld old a → Keeps old state done (persisted cfg r state a)
    unfolding persisted
    persisted-Keeps a k = (refl, ap (λ f. if r.persists then some state else f) k.1)

    module _ (rs : List SessionRecord) (vs : List PolicyViolation) where
      succeed-IsConcluded :
          (a : Agent) (actions : List Action) (healthy : Bool) (text : Str) (api : Bool)
          → IsAsOld old a
          → heartbeats actions ≡ []
          → IsBacked a healthy api
          → IsConcluded old state (succeed cfg r a actions state rs vs healthy text api)
      unfolding succeed heartbeats persisted
      succeed-IsConcluded a actions healthy text api k h b = (
        (
          healthy,
          text,
          api,
          heartbeats-append actions _ h
              ∙ heartbeats-append (report_action cfg r rs vs) _ (heartbeats_report rs vs),
          b,
        ),
        persisted-Keeps a k,
      )

      pub sync_api-IsConcluded :
          (a : Agent) (actions : List Action) (triggered : Bool) (strict : List Str)
          → IsAsOld old a
          → heartbeats actions ≡ []
          → IsConcluded old state (sync_api cfg r a actions state rs vs triggered strict)
      unfolding sync_api sync_checked
      sync_api-IsConcluded a actions triggered strict k h =
          let recovered : heartbeats (actions ++ recover_core ∷ []) ≡ [] =
            heartbeats-append actions _ h ∙ unfold heartbeats in refl in
          if_both (IsConcluded old state) (not (r.running_later && not r.api_healthy)) _ _
            (succeed-IsConcluded _ actions _ _ _ k h
              (is_healthy-IsBacked a strict r.api_healthy (ground arith)))
            (if_both (IsConcluded old state) (not r.recovers) _ _
              (fail_with-IsConcluded a (actions ++ recover_core ∷ []) _ _ k recovered)
              (succeed-IsConcluded _ (actions ++ recover_core ∷ []) _ _ _ k recovered
                (is_healthy-IsBacked a strict r.api_recovered (ground arith))))

      pub sync_stopped-IsConcluded :
          (a : Agent) (strict : List Str)
          → IsAsOld old a
          → IsConcluded old state (sync_stopped cfg r a state rs vs strict)
      unfolding sync_stopped heartbeats
      sync_stopped-IsConcluded a strict k = (
        (
          true,
          codes "node " ++ state.mode,
          false,
          heartbeats-append (report_action cfg r rs vs) _ (heartbeats_report rs vs),
          (refl, refl),
        ),
        persisted-Keeps (record a { strict_ready = length strict == 0 }) k,
      )
