-- ===== src/Agent/Run/Beats.antt =====
-- How long Run of internal/agent/agent.go goes on, and its heartbeats.
use xnode_agent.Prelude.{
  ℤ, ℕ, suc, ◌+◌, true, Option, List, [], ◌∷◌, ◌++◌, Str, map, length, inl, inr, ◌⊎◌, str_eq, ◌≡◌,
  ◌≢◌, refl, ap, subst, arith,
}
use xnode_agent.Model.Values.{Json}
use xnode_agent.Agent.Round.{
  Config, Agent, Round, Heartbeat, Action, stop_core, call_core, limit_users, recover_core, report,
  persist, send, Ended, done, stopped, crashed, Synced,
}
use xnode_agent.Agent.Sync.{sync}
use xnode_agent.Agent.Sync.Heartbeats.{heartbeats, Tells}
use xnode_agent.Agent.Sync.Concludes.{sync-Tells}
use xnode_agent.Agent.Run.{
  tick, Exit, waiting, panicked, Life, no_heartbeat, after_round, ends_with, run_loop, run,
}

module _ (read_time : Str → Option ℤ) (decode : Str → Option Json) (cfg : Config) where
  abbrev pub Beats : ℕ → Life × Exit → Type 0
  Beats n x = (x.1 ≡ panicked) ⊎ ((x.1 ≡ waiting) × (length (heartbeats x.0.actions) ≡ n))

  heartbeats_more :
      (xs ys : List Action)
      → length (heartbeats (xs ++ ys)) ≡ length (heartbeats xs) + length (heartbeats ys)
  unfolding heartbeats
  heartbeats_more [] ys = omega arith
  heartbeats_more (send h ∷ xs) ys = omega (arith, heartbeats_more xs ys)
  heartbeats_more (stop_core ∷ xs) ys = heartbeats_more xs ys
  heartbeats_more (call_core c ∷ xs) ys = heartbeats_more xs ys
  heartbeats_more (limit_users s ∷ xs) ys = heartbeats_more xs ys
  heartbeats_more (recover_core ∷ xs) ys = heartbeats_more xs ys
  heartbeats_more (report rs vs ∷ xs) ys = heartbeats_more xs ys
  heartbeats_more (persist s ∷ xs) ys = heartbeats_more xs ys

  one_heartbeat :
      (r : Round) (a b : Agent) (e : Ended) (hs : List Heartbeat)
      → Tells cfg r e b hs
      → e ≢ crashed
      → length hs ≡ 1
  one_heartbeat r a b crashed hs t n = absurd (n refl)
  one_heartbeat r a b stopped hs (text, q) n = ap length q
  one_heartbeat r a b done hs (healthy, text, api, q, backed) n = ap length q

  run_loop-Beats :
      (rs : List Round) (l : Life)
      → Beats
          (length (heartbeats l.actions) + length rs)
          (run_loop read_time decode cfg (map tick rs) l)
  unfolding run_loop
  run_loop-Beats [] l = inr (refl, omega arith)
  run_loop-Beats (r ∷ rs) l =
      go s.ended
        (one_heartbeat r l.agent s.agent s.ended (heartbeats s.actions)
          (sync-Tells read_time decode cfg r l.agent))
        (run_loop-Beats rs next)
    where
      s : Synced
      s = sync read_time decode cfg r l.agent

      next : Life
      next = after_round read_time decode cfg r l

      more :
          length (heartbeats s.actions) ≡ 1
          → length (heartbeats next.actions) + length rs
            ≡ length (heartbeats l.actions) + suc (length rs)
      more h = omega (arith, h, heartbeats_more l.actions s.actions)

      beats :
          length (heartbeats s.actions) ≡ 1
          → (x : Life × Exit) → Beats (length (heartbeats next.actions) + length rs) x
          → Beats (length (heartbeats l.actions) + suc (length rs)) x
      beats h x b = subst (λ n. Beats n x) (more h) b

      go :
          (e : Ended)
          → (e ≢ crashed → length (heartbeats s.actions) ≡ 1)
          → Beats
              (length (heartbeats next.actions) + length rs)
              (run_loop read_time decode cfg (map tick rs) next)
          → Beats (length (heartbeats l.actions) + suc (length rs)) (
              ends_with read_time decode cfg e
                (run_loop read_time decode cfg (map tick rs) next)
                next)
      go crashed h b = inl refl
      go stopped h b = beats (h (λ q. cc)) (run_loop read_time decode cfg (map tick rs) next) b
      go done h b = beats (h (λ q. cc)) (run_loop read_time decode cfg (map tick rs) next) b

  -- Rounds do not end the loop, whatever they answer and whatever errors they return, unless BuildConfig
  -- panics: after the first round and those of the ticks Run still waits, and each has sent a heartbeat.
  pub run-Beats :
      (first : Round) (rs : List Round) (a : Agent)
      → Beats (suc (length rs)) (run read_time decode cfg true first (map tick rs) a)
  unfolding run heartbeats
  run-Beats first rs a =
      subst (λ n. Beats n (run read_time decode cfg true first (map tick rs) a)) (omega arith)
        (run_loop-Beats (first ∷ rs) (record { agent = a; last = no_heartbeat; actions = [] }))
