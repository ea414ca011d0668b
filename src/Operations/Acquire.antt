-- ===== src/Operations/Acquire.antt =====
-- What an acquired host Lease says (HostLease.acquire).
use capi_provider_ssh.Base.{
  ℕ, ◌+◌, ◌≤◌, String, Bool, Bool-cases, has_text, ltb, nat_eq, true, false, ◌≡◌, refl, ap, sym,
  subst, ◌∙◌, arith, ◌⊎◌, inl, inr, Option, none, some, ◌∷◌,
}
use capi_provider_ssh.World.{
  Env, outcome, err-ne-ok, Error, api_exception, permanent, temporary, other_error, ok, err,
  answered, State, Trace, Event, Lease, read_lease, create_lease, replace_lease, ok-injective,
}
use capi_provider_ssh.World.Wp.{
  Wp, wp-bind, wp-call, wp-pure, wp-if, wp-gets, wp-lift, wp-attempt, wp-ok, logged,
}
use capi_provider_ssh.Operations.{
  HostLease, renewed, duration, is_held, found_lease, own_lease, taken, write_lease, acquire_over,
  acquire,
}

module _ (env : Env) (lease : HostLease) (s : State) where
  abbrev now : ℕ
  now = env.seconds s.trace

  abbrev read_event : Bool → Event
  read_event b = record { request = read_lease lease.name; done = b }

  -- The Lease of this holder from now on for a minute, to be written over one version of the Lease.
  pub record Written (version : Option String) (l : Lease) : Type 0 where
    pub holder : l.holder_identity ≡ some lease.holder
    pub renewed_now : l.renew_time ≡ some now
    pub acquired_now : l.acquire_time ≡ some now
    pub one_minute : l.lease_duration_seconds ≡ some 60
    pub over_version : l.resource_version ≡ version

  -- There is no holder, or the time of the last renewal and the duration are over.
  abbrev pub NotHeld : Lease → Type 0
  NotHeld l =
      (has_text l.holder_identity ≡ false) ⊎ ((t : ℕ) → renewed l ≡ some t → t + duration l ≤ now)

  -- There was no Lease, and the own one was created; or the Lease that was read had no holder that
  -- was still in its time, and was replaced with the version that was read.
  abbrev pub Acquired : Trace → Type 0
  Acquired t =
      ((written : Lease) × (outcome (env.lease s.trace (read_lease lease.name))
          ≡ err (api_exception 404))
        × Written none written
        × (t
            ≡ record { request = create_lease lease.name written; done = true }
              ∷ read_event false
              ∷ s.trace))
      ⊎ ((current : Lease) × (env.lease s.trace (read_lease lease.name) ≡ answered current)
          × NotHeld current
          × ((written : Lease) × Written current.resource_version written
              × (t
                  ≡ record { request = replace_lease lease.name written; done = true }
                    ∷ read_event true
                    ∷ s.trace)))

  abbrev IfAcquired : Bool → State → Type 0
  IfAcquired b s' = b ≡ true → Acquired s'.trace

  abbrev Anyway : Error → State → Type 0
  Anyway _ _ = Unit

  not_acquired : {P : Type 0} → false ≡ true → P
  not_acquired h = cc

  -- a write that raised is no acquisition
  taken_failed : (e : Error) → taken (err e) ≡ ok true → ⊥
  unfolding taken
  taken_failed (api_exception n) h = ground arith
  taken_failed (permanent m) h = cc
  taken_failed (temporary m d) h = cc
  taken_failed Error.timeout_error h = cc
  taken_failed other_error h = cc

  found_created :
      (e : Error) (o : Option Lease)
      → found_lease (err e) ≡ ok o
      → (o ≡ none) × (e ≡ api_exception 404)
  unfolding found_lease
  found_created (api_exception n) o h = elim (Bool-cases (nat_eq n 404)) [
    | inl missing ↦ (sym (ok-injective (rw missing at h)), ap api_exception (missing_404 missing))
    | inr other ↦ absurd (err-ne-ok (rw other at h))
  ]
    where
      missing_404 : nat_eq n 404 ≡ true → n ≡ 404
      missing_404 h = ground arith
  found_created (permanent m) o h = cc
  found_created (temporary m d) o h = cc
  found_created Error.timeout_error o h = cc
  found_created other_error o h = cc

  own_Written :
      (current : Option Lease)
      → Written
          (elim current [ none ↦ none | some l ↦ l.resource_version ])
          (own_lease lease now current)
  own_Written current = record {
    holder = refl;
    renewed_now = refl;
    acquired_now = refl;
    one_minute = refl;
    over_version = refl;
  }

  not_held : (l : Lease) → is_held l now ≡ false → NotHeld l
  unfolding is_held
  not_held l h = elim (Bool-cases (has_text l.holder_identity)) [
    | inl held ↦ inr (λ t e. past t (rw (held, e) at h))
    | inr nobody ↦ inl nobody
  ]
    where
      past : (t : ℕ) → ltb now (t + duration l) ≡ false → t + duration l ≤ now
      past t h = ground arith

  over_none :
      outcome (env.lease s.trace (read_lease lease.name)) ≡ err (api_exception 404)
      → Wp
          (acquire_over env lease now none)
          (logged s (read_lease lease.name) false)
          IfAcquired
          Anyway
  unfolding acquire_over write_lease
  over_none missing = wp-bind _ _ _ (
      wp-attempt _ _ (
        wp-call _ _ _
          (λ l _.
            wp-lift _ _ (λ b p h. inl (own_lease lease now none, missing, own_Written none, refl))
              (λ _ _. tt))
          (λ e _. wp-lift _ _ (λ b p h. absurd (taken_failed e (p ∙ ap ok h))) (λ _ _. tt))))

  over_some :
      (current : Lease)
      → env.lease s.trace (read_lease lease.name) ≡ answered current
      → Wp
          (acquire_over env lease now (some current))
          (logged s (read_lease lease.name) true)
          IfAcquired
          Anyway
  unfolding acquire_over write_lease
  over_some current read =
      wp-if (is_held current now) _ _ _ (λ _. wp-pure false _ not_acquired)
        (λ free. wp-bind _ _ _ (
          wp-attempt _ _ (
            wp-call _ _ _
              (λ l _.
                wp-lift _ _
                  (λ b p h. inr (
                    current,
                    read,
                    not_held current free,
                    (own_lease lease now (some current), own_Written (some current), refl),
                  ))
                  (λ _ _. tt))
              (λ e _. wp-lift _ _ (λ b p h. absurd (taken_failed e (p ∙ ap ok h))) (λ _ _. tt)))))

  acquire-wp : Wp (acquire env lease) s IfAcquired Anyway
  unfolding acquire
  acquire-wp = wp-bind _ _ _ (
      wp-gets _ _ (
        wp-bind _ _ _ (
          wp-attempt _ _ (
            wp-call _ _ _
              (λ current read. wp-bind _ _ _ (
                unfold found_lease in
                wp-lift _ _
                  (λ o p.
                    subst
                      (λ c.
                        Wp (acquire_over env lease now c) (logged s (read_lease lease.name) true)
                          IfAcquired Anyway)
                      (ok-injective p) (over_some current read))
                  (λ _ _. tt)))
              (λ e failed. wp-bind _ _ _ (
                wp-lift _ _
                  (λ o p.
                    subst
                      (λ c.
                        Wp (acquire_over env lease now c) (logged s (read_lease lease.name) false)
                          IfAcquired Anyway)
                      (sym (found_created e o p).0)
                      (over_none (failed ∙ ap err (found_created e o p).1)))
                  (λ _ _. tt)))))))

-- Where the acquisition of a host Lease answers that it is held, its last two requests read the Lease
-- and wrote it, and the write was confirmed. Either there was no Lease and the write created it, or
-- the Lease that was read had no holder, or one whose last renewal and duration were over at the
-- start, and the write replaced it with the version that was read. What is written names the holder and the start as the
-- time of acquisition and renewal, with sixty seconds, and a creation has no version.
pub acquire-Acquired :
    (env : Env) (lease : HostLease) (s : State)
    → (acquire env lease s).0 ≡ ok true
    → Acquired env lease s (acquire env lease s).1.trace
acquire-Acquired env lease s held = wp-ok (acquire env lease) s (acquire-wp env lease s) held refl
