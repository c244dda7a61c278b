-- ===== src/Agent/Run/Lives.antt =====
-- What holds all through Run of internal/agent/agent.go, whatever its rounds meet: what a ready agent has
-- done last, and which version is in effect.
use xnode_agent.Prelude.{
  ℤ, Bool, true, false, not, ◌&&◌, ◌||◌, Option, List, [], ◌∷◌, Str, codes, In, inl, inr, ◌⊎◌,
  str_eq, ◌≡◌, ◌≢◌, refl, ap, sym, ◌∙◌, arith, dec_eq, is_yes, Str-discrete, ℕ_discrete,
}
use xnode_agent.Model.{DesiredState}
use xnode_agent.Model.Values.{Json}
use xnode_agent.Admin.{handle, is_ready}
use xnode_agent.Agent.Round.{
  Config, Agent, fetched, Round, Heartbeat, Action, stop_core, call_core, limit_users, recover_core,
  report, persist, send, Ended, done, stopped, crashed, Synced,
}
use xnode_agent.Agent.Report.{heartbeat}
use xnode_agent.Agent.Sync.{sync}
use xnode_agent.Agent.Sync.Heartbeats.{heartbeats, Tells}
use xnode_agent.Agent.Sync.Concludes.{KeepsFrom, sync-Tells, sync-KeepsFrom}
use xnode_agent.Agent.Run.{
  Event, tick, cancelled, admin_ended, Exit, panicked, Life, last_sent, no_heartbeat, after_round,
  ends_with, run_loop, run,
}

-- The last of the heartbeats, or the one before.
abbrev last_of : Heartbeat → List Heartbeat → Heartbeat
last_of hb [] = hb
last_of hb (h ∷ hs) = last_of h hs

last_sent-heartbeats :
    (hb : Heartbeat) (xs : List Action) → last_sent hb xs ≡ last_of hb (heartbeats xs)
unfolding last_sent heartbeats
last_sent-heartbeats hb [] = refl
last_sent-heartbeats hb (send h ∷ xs) = last_sent-heartbeats h xs
last_sent-heartbeats hb (stop_core ∷ xs) = last_sent-heartbeats hb xs
last_sent-heartbeats hb (call_core c ∷ xs) = last_sent-heartbeats hb xs
last_sent-heartbeats hb (limit_users s ∷ xs) = last_sent-heartbeats hb xs
last_sent-heartbeats hb (recover_core ∷ xs) = last_sent-heartbeats hb xs
last_sent-heartbeats hb (report rs vs ∷ xs) = last_sent-heartbeats hb xs
last_sent-heartbeats hb (persist s ∷ xs) = last_sent-heartbeats hb xs

-- The rounds of the events.
abbrev pub rounds_of : List Event → List Round
rounds_of [] = []
rounds_of (tick r ∷ es) = r ∷ rounds_of es
rounds_of (cancelled ∷ es) = rounds_of es
rounds_of (admin_ended e ∷ es) = rounds_of es

module _ (read_time : Str → Option ℤ) (decode : Str → Option Json) (cfg : Config) (rs : List Round)
    (start : Life) where
  abbrev synced : Round → Agent → Synced
  synced r a = sync read_time decode cfg r a

  -- The life before a round, after rounds that have not panicked.
  pub data Reached : Life → Type 0 where
    begun : Reached start
    went_on :
        {l : Life} (r : Round)
        → Reached l
        → In r rs
        → (synced r l.agent).ended ≢ crashed
        → Reached (after_round read_time decode cfg r l)

  -- The agent and the heartbeat are what a round left that was reached, which found a core that is ready.
  abbrev pub IsServing : Life → Type 0
  IsServing l =
      (r : Round) × (k : Life) × In r rs
      × Reached k
      × ((sync read_time decode cfg r k.agent).ended ≡ done)
      × (l.agent ≡ (after_round read_time decode cfg r k).agent)
      × (l.last ≡ (after_round read_time decode cfg r k).last)
      × (r.running_last ≡ true)
      × ((r.api_healthy || r.api_recovered) ≡ true)
      × ((cfg.require_patched_core && not l.agent.strict_ready) ≡ false)
      × (l.last.state_version ≡ l.agent.state_version)

  abbrev Vouched : Life → Type 0
  Vouched l = is_ready l.last ≡ true → IsServing l

  vouched :
      (r : Round) (l : Life)
      → In r rs
      → Reached l
      → (e : Ended) → (synced r l.agent).ended ≡ e
      → Tells cfg r e (synced r l.agent).agent (heartbeats (synced r l.agent).actions)
      → e ≢ crashed
      → Vouched (after_round read_time decode cfg r l)
  unfolding after_round is_ready heartbeat
  vouched r l i x crashed h t n = absurd (n refl)
  vouched r l i x stopped h (text, q) n =
      let last : last_sent l.last (synced r l.agent).actions
          ≡ heartbeat cfg r (synced r l.agent).agent false text false =
        last_sent-heartbeats l.last (synced r l.agent).actions ∙ ap (last_of l.last) q in
      λ ready. absurd (ground (arith, ready, ap (λ (b : Heartbeat). b.healthy) last))
  vouched r l i x done h (healthy, text, api, q, (answered, enforced)) n =
      let last : last_sent l.last (synced r l.agent).actions
          ≡ heartbeat cfg r (synced r l.agent).agent healthy text api =
        last_sent-heartbeats l.last (synced r l.agent).actions ∙ ap (last_of l.last) q in
      λ ready. (
        r,
        l,
        i,
        x,
        h,
        refl,
        refl,
        ground (arith, ready, ap (λ (b : Heartbeat). b.xray_running) last),
        ground (arith, ready, ap (λ (b : Heartbeat). b.xray_api) last, answered),
        ground (
          arith,
          ready,
          ap (λ (b : Heartbeat). b.healthy) last,
          ap (λ (b : Heartbeat). b.xray_api) last,
          enforced,
        ),
        ap (λ (b : Heartbeat). b.state_version) last,
      )

  -- The version in effect is the old one, or that of a state that the panel sent in a round that
  -- returned nil.
  abbrev pub IsFrom : Str → Life → Type 0
  IsFrom old l =
      (l.agent.state_version ≡ old)
      ⊎ ((r : Round) × (k : Life) × (desired : DesiredState) × In r rs
          × Reached k
          × ((sync read_time decode cfg r k.agent).ended ≡ done)
          × (r.panel ≡ fetched desired)
          × (desired.version ≡ l.agent.state_version))

  after_round-IsFrom :
      (old : Str) (r : Round) (l : Life)
      → In r rs
      → Reached l
      → IsFrom old l
      → (e : Ended) → (synced r l.agent).ended ≡ e
      → KeepsFrom cfg r l.agent r.panel e (synced r l.agent).agent
      → IsFrom old (after_round read_time decode cfg r l)
  unfolding after_round
  after_round-IsFrom old r l i t (inl p) crashed h k = inl (k.0 ∙ p)
  after_round-IsFrom old r l i t (inr (q, a, d, j, w, x, y, z)) crashed h k =
      inr (q, a, d, j, w, x, y, z ∙ sym k.0)
  after_round-IsFrom old r l i t (inl p) stopped h k = inl (k.0 ∙ p)
  after_round-IsFrom old r l i t (inr (q, a, d, j, w, x, y, z)) stopped h k =
      inr (q, a, d, j, w, x, y, z ∙ sym k.0)
  after_round-IsFrom old r l i t f done h (desired, state, p, v, k) =
      inr (r, l, desired, i, t, h, p, sym v ∙ sym k.0)

  -- A life that holds so far, whatever its exit.
  Holds : Str → Life × Exit → Type 0
  Holds old (l, e) = IsFrom old l × (e ≢ panicked → Vouched l)

  run_loop-Holds :
      (old : Str) (es : List Event) (l : Life)
      → ((r : Round) → In r (rounds_of es) → In r rs)
      → Reached l
      → IsFrom old l
      → Vouched l
      → Holds old (run_loop read_time decode cfg es l)
  unfolding run_loop Holds
  run_loop-Holds old [] l sub t f v = (f, λ n. v)
  run_loop-Holds old (cancelled ∷ es) l sub t f v = (f, λ n. v)
  run_loop-Holds old (admin_ended e ∷ es) l sub t f v = (f, λ n. v)
  run_loop-Holds old (tick r ∷ es) l sub t f v =
      go (synced r l.agent).ended refl (sync-Tells read_time decode cfg r l.agent)
        (after_round-IsFrom old r l (sub r (inl refl)) t f (synced r l.agent).ended refl
          (sync-KeepsFrom read_time decode cfg r l.agent))
        (λ n f' v'.
          run_loop-Holds old es (after_round read_time decode cfg r l) (λ q i. sub q (inr i))
            (went_on r t (sub r (inl refl)) n) f' v')
    where
      next : Life
      next = after_round read_time decode cfg r l

      go :
          (e : Ended)
          → (synced r l.agent).ended ≡ e
          → Tells cfg r e (synced r l.agent).agent (heartbeats (synced r l.agent).actions)
          → IsFrom old next
          → ((synced r l.agent).ended ≢ crashed
              → IsFrom old next
              → Vouched next
              → Holds old (run_loop read_time decode cfg es next))
          → Holds old
              (ends_with read_time decode cfg e (run_loop read_time decode cfg es next) next)
      go crashed h told f' rest = (f', λ n. absurd (n refl))
      go stopped h told f' rest =
          rest (λ q. cc) f' (vouched r l (sub r (inl refl)) t stopped h told (λ q. cc))
      go done h told f' rest =
          rest (λ q. cc) f' (vouched r l (sub r (inl refl)) t done h told (λ q. cc))

readyz-is_ready : (hb : Heartbeat) → (handle (codes "/readyz") hb).status ≡ 200 → is_ready hb ≡ true
unfolding handle dec_eq is_yes Str-discrete ℕ_discrete
readyz-is_ready hb h = ground (arith, h)

-- The life at its first round.
abbrev pub at_start : Agent → Life
at_start a = record { agent = a; last = no_heartbeat; actions = [] }

module _ (read_time : Str → Option ℤ) (decode : Str → Option Json) (cfg : Config) (first : Round)
    (es : List Event) (a : Agent) where
  holds :
      Holds read_time decode cfg
        (first ∷ rounds_of es)
        (at_start a)
        a.state_version
        (run read_time decode cfg true first es a)
  unfolding run no_heartbeat is_ready Holds
  holds =
      run_loop-Holds read_time decode cfg (first ∷ rounds_of es) (at_start a) a.state_version
        (tick first ∷ es) (at_start a) (λ r i. i) begun (inl refl) (λ h. cc)

  -- Whatever the panel, the core and the disk answer, and however Run ends, the version in effect is the
  -- one that the agent started with, or that of a state that the panel sent in a round of this run that
  -- returned nil.
  pub run-IsFrom :
      (prepared : Bool)
      → IsFrom read_time decode cfg
          (first ∷ rounds_of es)
          (at_start a)
          a.state_version
          (run read_time decode cfg prepared first es a).0
  unfolding Holds
  run-IsFrom true = holds.0
  run-IsFrom false = unfold run in inl refl

  -- As long as the program has not panicked, /readyz answers 200 only if the agent and the heartbeat that is
  -- shown are what one round left that was reached by rounds of this run: it returned nil, found the core
  -- running and had an answer of its API, the strict limits are enforced if the configuration requires the
  -- patched core, and the heartbeat tells the version in effect.
  pub readyz-IsServing :
      (prepared : Bool)
      → (run read_time decode cfg prepared first es a).1 ≢ panicked
      → (handle (codes "/readyz") (run read_time decode cfg prepared first es a).0.last).status
        ≡ 200
      → IsServing read_time decode cfg
          (first ∷ rounds_of es)
          (at_start a)
          (run read_time decode cfg prepared first es a).0
  unfolding Holds
  readyz-IsServing true n h =
      holds.1 n (readyz-is_ready (run read_time decode cfg true first es a).0.last h)
  readyz-IsServing false n h = absurd (
      unfold run in
      unfold no_heartbeat in unfold is_ready in ground (arith, readyz-is_ready no_heartbeat h))
