-- ===== src/Bootstrap/Rounds.antt =====
-- The loop of durable_bootstrap ends at its deadline.
use capi_provider_ssh.Base.{
  ℕ, zero, suc, ◌+◌, ◌-◌, ◌*◌, ◌≤◌, ◌<◌, String, true, ◌≡◌, refl, inl, inr, Bool-cases, Option,
  none, some, ◌∷◌, ltb, arith,
}
use capi_provider_ssh.World.{
  Env, Error, Outcome, ok, err, Event, Trace, State, Exec, continue, ◌>>=◌, gets, raise, pure,
  sleep, SshResult, sleep_for,
}
use capi_provider_ssh.World.Wp.{wp-bind, wp-remote, wp-lift, wp-last, logged}
use capi_provider_ssh.Bootstrap.{
  still_running, observe_turn, observe_again, observe_before, observe_until,
}

module _ (env : Env) (uid : String) where
  -- The loop as the source has it, with no count of rounds: `Loop deadline n s r` says that it ends
  -- from s with r after n observations. The sleep of two seconds is between two of them.
  pub data Loop (deadline : ℕ) : ℕ → State → Outcome SshResult × State → Type 0 where
    late : (s : State) → deadline ≤ env.seconds s.trace → Loop deadline 0 s (err still_running, s)
    failed :
        (s s' : State) (e : Error)
        → env.seconds s.trace < deadline
        → observe_turn env uid s ≡ (err e, s')
        → Loop deadline 1 s (err e, s')
    found :
        (s s' : State) (result : SshResult)
        → env.seconds s.trace < deadline
        → observe_turn env uid s ≡ (ok (some result), s')
        → Loop deadline 1 s (ok result, s')
    pending :
        (n : ℕ) (s s' : State) (r : Outcome SshResult × State)
        → env.seconds s.trace < deadline
        → observe_turn env uid s ≡ (ok none, s')
        → Loop deadline n (logged s' (sleep_for 2) true) r
        → Loop deadline (suc n) s r

  -- The clock does not go back, and a sleep lasts for its seconds.
  pub record Clock : Type 0 where
    pub forward : (t : Trace) (e : Event) → env.seconds t ≤ env.seconds (e ∷ t)
    pub slept :
        (t : Trace) (n : ℕ)
        → env.seconds t + n ≤ env.seconds (record { request = sleep_for n; done = true } ∷ t)

  turn_forward :
      Clock → (s : State) → env.seconds s.trace ≤ env.seconds (observe_turn env uid s).1.trace
  unfolding observe_turn
  turn_forward clock s =
      wp-last (λ s'. env.seconds s.trace ≤ env.seconds s'.trace) _ s
        (wp-bind _ _ _ (
          wp-remote _ _ _
            (λ reply _.
              wp-lift _ _ (λ _ _. clock.forward s.trace _) (λ _ _. clock.forward s.trace _))
            (λ _. clock.forward s.trace _)))

  abbrev Ends : ℕ → State → Outcome SshResult × State → Type 0
  Ends deadline s r = (n : ℕ) × Loop deadline n s r × (2 * n ≤ suc (deadline - env.seconds s.trace))

  late-Ends :
      (deadline : ℕ) (s : State)
      → deadline ≤ env.seconds s.trace
      → Ends deadline s (err still_running, s)
  late-Ends deadline s h = (0, late s h, omega arith)

  round-Ends :
      (clock : Clock) (deadline : ℕ) (next : Exec SshResult) (s : State)
      → env.seconds s.trace < deadline
      → ((t : State) → env.seconds s.trace + 2 ≤ env.seconds t.trace → Ends deadline t (next t))
      → (r : Outcome (Option SshResult) × State) → observe_turn env uid s ≡ r
      → env.seconds s.trace ≤ env.seconds r.1.trace
      → Ends deadline s (continue r.0 (observe_again env next) r.1)
  unfolding observe_again ◌>>=◌ pure sleep
  round-Ends clock deadline next s early h (err e, s') turn after =
      (1, failed s s' e early turn, omega arith)
  round-Ends clock deadline next s early h (ok (some result), s') turn after =
      (1, found s s' result early turn, omega arith)
  round-Ends clock deadline next s early h (ok none, s') turn after =
      let slept = clock.slept s'.trace 2 in
      let woken : State = logged s' (sleep_for 2) true in
      let (n, loop, bound) = h woken (omega arith) in
      (suc n, pending n s s' _ early turn loop, omega arith)

  rounds_end :
      (clock : Clock) (deadline rounds : ℕ) (s : State)
      → deadline ≤ env.seconds s.trace + 2 * rounds
      → Ends deadline s (observe_until env uid deadline rounds s)
  unfolding observe_until observe_before ◌>>=◌ gets raise
  rounds_end clock deadline zero s h = late-Ends deadline s (omega arith)
  rounds_end clock deadline (suc rounds) s h =
      elim (Bool-cases (ltb (env.seconds s.trace) deadline)) [
        | inl early ↦ rw early (
            round-Ends clock deadline (observe_until env uid deadline rounds) s (ground arith)
              (λ t later. rounds_end clock deadline rounds t (omega arith)) (observe_turn env uid s)
              refl (turn_forward clock s))
        | inr over ↦ rw over (late-Ends deadline s (ground arith))
      ]

  -- On a clock that does not go back, where a sleep lasts for its seconds, the loop of the source
  -- ends: it has the outcome of observe_until with a round for each second of the timeout, after at
  -- most half as many observations as the timeout has seconds, rounded up.
  pub observe_until-Loop :
      (clock : Clock) (timeout : ℕ) (s : State)
      → (n : ℕ) × Loop
          (env.seconds s.trace + timeout)
          n
          s
          (observe_until env uid (env.seconds s.trace + timeout) timeout s)
        × (2 * n ≤ suc timeout)
  observe_until-Loop clock timeout s =
      let (n, loop, bound) =
        rounds_end clock (env.seconds s.trace + timeout) timeout s (omega arith) in
      (n, loop, omega arith)
