-- ===== src/Xray/Manager/Wait.antt =====
-- The loop of stopLocked of internal/xray/process.go, which waits for the core to exit. Its rounds are
-- counted; `clock` is the time at the test of a round, in milliseconds, and `alive` what a signal says.
use xnode_agent.Prelude.{
  ℕ, zero, suc, ◌+◌, ◌*◌, ◌≤◌, ltb, Bool, true, false, not, Option, none, some, List, [], ◌∷◌,
  if◌then◌else◌, ◌≡◌, refl, ◌⊎◌, inl, inr, arith, Bool-cases,
}
use xnode_agent.Xray.Manager.{Manager, is_running, stop_locked}

pub data Signal : Type 0 where
  terminate kill : Signal

-- The rounds from `i` on: whether the core exited before the deadline, `none` where the fuel runs out.
unfoldable pub wait_exit : ℕ → (ℕ → ℕ) → (ℕ → Bool) → ℕ → ℕ → Option Bool
wait_exit zero clock alive deadline i = none
wait_exit (suc fuel) clock alive deadline i =
    let rest = wait_exit fuel clock alive deadline (i + 1) in
    if not (ltb (clock i) deadline) then some false else if not (alive i) then some true else rest

-- The signals sent, by how the loop ends.
unfoldable pub signals : Option Bool → Option (List Signal)
signals none = none
signals (some true) = some (terminate ∷ [])
signals (some false) = some (terminate ∷ kill ∷ [])

-- The whole of stopLocked, begun at `now`: the manager after it and the signals that were sent.
unfoldable pub stop_waiting :
    ℕ → ℕ → (ℕ → ℕ) → (ℕ → Bool) → Manager → Option (Manager × List Signal)
unfolding wait_exit signals
stop_waiting fuel now clock alive m =
    if not (is_running m)
    then some (record m { cmd = none }, [])
    else elim (signals (wait_exit fuel clock alive (now + 5000) 0)) [
      | none ↦ none
      | some sent ↦ some (record m { cmd = none }, sent)
    ]

-- Each sleep takes 100 ms at least.
abbrev pub Ticks : ℕ → (ℕ → ℕ) → Type 0
Ticks now clock = (now ≤ clock 0) × ((i : ℕ) → clock i + 100 ≤ clock (i + 1))

wait_exit-ends :
    (n : ℕ) (clock : ℕ → ℕ) (alive : ℕ → Bool) (deadline i : ℕ)
    → ((j : ℕ) → clock j + 100 ≤ clock (j + 1))
    → deadline ≤ clock i + 100 * n
    → (b : Bool) × (wait_exit (suc n) clock alive deadline i ≡ some b)
unfolding wait_exit
wait_exit-ends zero clock alive deadline i t h = (false, ground arith)
wait_exit-ends (suc n) clock alive deadline i t h =
    elim (Bool-cases (not (ltb (clock i) deadline))) [
      | inl e ↦ (false, rw e refl)
      | inr e ↦ elim (Bool-cases (not (alive i))) [
        | inl a ↦ (true, rw (e, a) refl)
        | inr a ↦ rw (e, a) (wait_exit-ends n clock alive deadline (i + 1) t (omega (arith, t i)))
      ]
    ]

-- The wait ends within 51 rounds, whatever the core does and however late the clock is: the process is
-- forgotten, and the core got no signal if it was not running, and else one to terminate, which may be
-- followed by one to kill.
pub stop_waiting-ends :
    (now : ℕ) (clock : ℕ → ℕ) (alive : ℕ → Bool) (m : Manager)
    → Ticks now clock
    → (sent : List Signal) × (stop_waiting 51 now clock alive m ≡ some (stop_locked m, sent))
      × ((is_running m ≡ false) × (sent ≡ [])
          ⊎ (is_running m ≡ true) × ((sent ≡ terminate ∷ []) ⊎ (sent ≡ terminate ∷ kill ∷ [])))
unfolding stop_waiting stop_locked
stop_waiting-ends now clock alive m t = elim (Bool-cases (is_running m)) [
  | inl r ↦ go (wait_exit-ends 50 clock alive (now + 5000) 0 t.1 (omega (arith, t.0))) r
  | inr r ↦ ([], rw r refl, inl (r, refl))
]
  where
    go :
        (b : Bool) × (wait_exit 51 clock alive (now + 5000) 0 ≡ some b)
        → is_running m ≡ true
        → (sent : List Signal) × (stop_waiting 51 now clock alive m ≡ some (stop_locked m, sent))
          × ((is_running m ≡ false) × (sent ≡ [])
              ⊎ (is_running m ≡ true) × ((sent ≡ terminate ∷ []) ⊎ (sent ≡ terminate ∷ kill ∷ [])))
    go (true, e) r = (terminate ∷ [], rw (r, e) refl, inr (r, inl refl))
    go (false, e) r = (terminate ∷ kill ∷ [], rw (r, e) refl, inr (r, inr refl))
