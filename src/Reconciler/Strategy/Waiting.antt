-- ===== src/Reconciler/Strategy/Waiting.antt =====
-- internal/reconciler/strategy.go: the two polling loops, `waitForFirstHealthy` and `waitForExit`. A round looks,
-- reads the clock and waits for a tick; times are in nanoseconds.
use proxa.Prelude.{
  ℕ, zero, suc, ◌+◌, ◌*◌, ◌/◌, subst, ap, ◌<◌, ◌≤◌, ◌≡◌, ◌⊎◌, inl, inr, refl, Bool, true, false,
  Option, none, some, if◌then◌else◌, ltb, Bool-cases, arith,
}
use mathlib.Core.Option
use proxa.Prelude.Text.{Text, codes, text_eq}
use proxa.Probe.{Manager, Snapshot, snapshot}
use proxa.Types.{ContainerInfo}

-- How a loop ends.
pub data Waited : Type 0 where
  seen timed_out cancelled : Waited

-- What the rounds meet: the time that `time.Now()` reads in round `k`, and whether the context is done in
-- its `select`.
pub record Rounds : Type 0 where
  pub clock : ℕ → ℕ
  pub done : ℕ → Bool

-- The loop from round `k` on, for at most `fuel` rounds; `look` is what its first test sees.
pub poll : Rounds → (look : ℕ → Bool) → (deadline : ℕ) → (fuel : ℕ) → ℕ → Option Waited
poll r look deadline zero k = none
poll r look deadline (suc fuel) k =
    let later = poll r look deadline fuel (suc k) in
    if look k
    then some seen
    else if ltb deadline (r.clock k)
    then some timed_out
    else if r.done k
    then some cancelled
    else later

abbrev pub health_of : Option Snapshot → Bool
health_of none = false
health_of (some s) = s.health_ok

abbrev is_seen : Waited → Bool
is_seen seen = true
is_seen _ = false

-- `waitForFirstHealthy`; `managers` is the probe manager as each round sees it.
unfoldable pub wait_for_first_healthy :
    Rounds → (managers : ℕ → Manager) → (id : Text) → (start timeout fuel : ℕ) → Option Bool
unfolding poll
wait_for_first_healthy r managers id start timeout fuel =
    Option.map is_seen (poll r (λ k. health_of (snapshot (managers k) id)) (start + timeout) fuel 0)

abbrev pub has_exited : Option ContainerInfo → Bool
has_exited none = false
has_exited (some info) = text_eq info.state (codes "exited")

-- `waitForExit`: `seen` is no error; `inspect` is what each round is told of the container.
unfoldable pub wait_for_exit :
    Rounds → (inspect : ℕ → Option ContainerInfo) → (start timeout fuel : ℕ) → Option Waited
unfolding poll
wait_for_exit r inspect start timeout fuel =
    poll r (λ k. has_exited (inspect k)) (start + timeout) fuel 0

-- The ticker of 200 ms: round `k` comes after `k` ticks, the last of which is not sent early.
abbrev pub Ticking : Rounds → ℕ → Type 0
Ticking r start = (k : ℕ) → start + k * 200000000 ≤ r.clock k

-- What an answer says of the rounds from `k` on.
abbrev pub Explains : Rounds → (ℕ → Bool) → ℕ → Waited → Type 0
Explains r look deadline seen = (k : ℕ) × (look k ≡ true)
Explains r look deadline timed_out = (k : ℕ) × (deadline < r.clock k) × (look k ≡ false)
Explains r look deadline cancelled = (k : ℕ) × (r.done k ≡ true) × (look k ≡ false)

abbrev Returns : Rounds → (ℕ → Bool) → (deadline fuel k : ℕ) → Type 0
Returns r look deadline fuel k =
    (w : Waited) × (poll r look deadline fuel k ≡ some w) × Explains r look deadline w

one_round :
    (r : Rounds) (look : ℕ → Bool) (deadline fuel k : ℕ)
    → (ltb deadline (r.clock k) ≡ false → Returns r look deadline fuel (suc k))
    → Returns r look deadline (suc fuel) k
unfolding poll
one_round r look deadline fuel k next = elim (Bool-cases (look k)) [
  | inl here ↦ (seen, rw here refl, (k, here))
  | inr absent ↦ elim (Bool-cases (ltb deadline (r.clock k))) [
    | inl past ↦ (timed_out, rw (absent, past) refl, (k, ground (arith, past), absent))
    | inr early ↦ elim (Bool-cases (r.done k)) [
      | inl stopped ↦ (cancelled, rw (absent, early, stopped) refl, (k, stopped, absent))
      | inr on ↦ let (w, e, why) = next early in (w, rw (absent, early, on) e, why)
    ]
  ]
]

-- The loop returns, if the clock passes the deadline in some round.
poll-Returns :
    (r : Rounds) (look : ℕ → Bool) (deadline fuel k : ℕ)
    → deadline < r.clock (k + fuel)
    → Returns r look deadline (suc fuel) k
poll-Returns r look deadline zero k late =
    let now : deadline < r.clock k = subst (λ t. deadline < r.clock t) (omega arith) late in
    one_round r look deadline zero k (λ early. absurd (ground (arith, now, early)))
poll-Returns r look deadline (suc fuel) k late = one_round r look deadline (suc fuel) k (λ early.
    poll-Returns r look deadline fuel (suc k)
      (subst (λ t. deadline < r.clock t) (omega arith) late))

-- The rounds that a timeout takes, with one to spare for the deadline itself.
abbrev pub rounds_for : ℕ → ℕ
rounds_for timeout = suc (timeout / 200000000 + 1)

-- What an answer of `waitForFirstHealthy` says: of true, that some round saw the container healthy; of false,
-- that some round that did not was past the deadline or found the context done.
abbrev pub Means : Rounds → (ℕ → Manager) → Text → (deadline : ℕ) → Bool → Type 0
Means r managers id deadline true = (k : ℕ) × (health_of (snapshot (managers k) id) ≡ true)
Means r managers id deadline false =
    (k : ℕ) × (health_of (snapshot (managers k) id) ≡ false)
    × ((deadline < r.clock k) ⊎ (r.done k ≡ true))

meaning :
    (r : Rounds) (managers : ℕ → Manager) (id : Text) (deadline : ℕ) (w : Waited)
    → Explains r (λ k. health_of (snapshot (managers k) id)) deadline w
    → Means r managers id deadline (is_seen w)
meaning r managers id deadline seen (k, here) = (k, here)
meaning r managers id deadline timed_out (k, past, absent) = (k, absent, inl past)
meaning r managers id deadline cancelled (k, stopped, absent) = (k, absent, inr stopped)

-- Waiting for a new container returns, where the clock has moved by 200 ms for every tick that was waited
-- for: after at most one round for each 200 ms of the timeout and two more, with true only if some round saw
-- the container healthy, and with false only if some round that did not see it so was past the deadline or
-- found the context done.
pub wait_for_first_healthy-returns :
    (r : Rounds) (managers : ℕ → Manager) (id : Text) (start timeout : ℕ)
    → Ticking r start
    → (b : Bool) × (wait_for_first_healthy r managers id start timeout (rounds_for timeout)
        ≡ some b)
      × Means r managers id (start + timeout) b
unfolding wait_for_first_healthy
wait_for_first_healthy-returns r managers id start timeout ticks =
    let n = timeout / 200000000 + 1 in
    let look : ℕ → Bool = λ k. health_of (snapshot (managers k) id) in
    let late : start + timeout < r.clock n = omega (arith, ticks n) in
    let from_0 : n ≡ 0 + n = omega arith in
    let (w, e, why) =
      poll-Returns r look (start + timeout) n 0
        (subst (λ t. start + timeout < r.clock t) from_0 late) in
    (is_seen w, ap (Option.map is_seen) e, meaning r managers id (start + timeout) w why)
