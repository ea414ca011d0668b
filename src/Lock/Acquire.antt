-- ===== src/Lock/Acquire.antt =====
-- What an acquired reconcile lock says.
use capi_provider_ssh.Base.{
  ℕ, zero, suc, ◌+◌, String, Bool, true, false, some, or_else, has_text, not, ◌≡◌, refl, ◌∷◌,
  nat_eq, of_not-false,
}
use capi_provider_ssh.Objects.{Machine}
use capi_provider_ssh.World.{
  Env, Error, api_exception, ok, err, answered, State, Exec, Trace, Event, get_machine,
  patch_machine_lock,
}
use capi_provider_ssh.World.Wp.{
  Wp, wp-bind, wp-call, wp-pure, wp-raise, wp-if, wp-gets, wp-attempt, wp-ok,
}
use capi_provider_ssh.Lock.{
  LockSettings, at_least_30, lock_value, is_foreign_lock, lock_of, written, acquire_turn,
  acquire_turns, acquire_lock,
}

module _ (env : Env) (settings : LockSettings) (namespace name : String) where
  abbrev read_event : Event
  read_event = record { request = get_machine namespace name; done = true }

  -- The last two requests read the object, and wrote the lock with the version that was read, when
  -- no other holder had a lock there that was not expired.
  pub record Taken (t : Trace) : Type 0 where
    pub before : Trace
    pub current : Machine
    pub read : env.machine before (get_machine namespace name) ≡ answered current
    pub has_version : has_text current.metadata.resource_version ≡ true
    pub free :
        is_foreign_lock settings.holder (env.seconds (read_event ∷ before)) (lock_of current)
        ≡ false
    pub written_last :
        t
        ≡ record {
          request =
              patch_machine_lock namespace name (or_else current.metadata.resource_version "") (
                some (
                  lock_value settings.holder
                    (env.seconds (read_event ∷ before) + at_least_30 settings.ttl_seconds)));
          done = true;
        }
          ∷ read_event
          ∷ before

  abbrev IfTaken : Bool → State → Type 0
  IfTaken b s = b ≡ true → Taken s.trace

  abbrev Anyway : Error → State → Type 0
  Anyway _ _ = Unit

  not_taken : {P : Type 0} → false ≡ true → P
  not_taken h = cc

  failed :
      (next : Exec Bool) (e : Error) (s : State)
      → ((t : State) → Wp next t IfTaken Anyway)
      → Wp (written {A = Machine} false next (err e)) s IfTaken Anyway
  unfolding written
  failed next (api_exception n) s h =
      wp-if (nat_eq n 409) _ _ _ (λ _. h s)
        (λ _. wp-if (nat_eq n 404) _ _ _ (λ _. wp-pure false s not_taken) (λ _. wp-raise _ s tt))
  failed next Error.timeout_error s h = wp-raise _ s tt
  failed next Error.other_error s h = wp-raise _ s tt
  failed next (Error.permanent m) s h = wp-raise _ s tt
  failed next (Error.temporary m d) s h = wp-raise _ s tt

  turns-Taken :
      (n : ℕ) (s : State) → Wp (acquire_turns env settings namespace name n) s IfTaken Anyway
  unfolding acquire_turns acquire_turn
  turns-Taken zero s = wp-pure false s not_taken
  turns-Taken (suc n) s = wp-bind _ _ _ (
      wp-call _ _ _
        (λ current read.
          wp-if (not (has_text current.metadata.resource_version)) _ _ _
            (λ _. wp-pure false _ not_taken)
            (λ version. wp-bind _ _ _ (
              wp-gets _ _ (
                wp-if
                  (is_foreign_lock settings.holder (env.seconds (read_event ∷ s.trace))
                    (lock_of current))
                  _ _ _ (λ _. wp-pure false _ not_taken)
                  (λ free. wp-bind _ _ _ (
                    wp-attempt _ _ (
                      wp-call _ _ _
                        (λ _ _.
                          unfold written in
                          wp-pure true _ (λ _. record {
                            before = s.trace;
                            current = current;
                            read = read;
                            has_version = of_not-false _ version;
                            free = free;
                            written_last = refl;
                          }))
                        (λ e _. failed _ e _ (turns-Taken n)))))))))
        (λ _ _. tt))

  enabled-Taken :
      (s : State)
      → settings.enabled ≡ true
      → Wp (acquire_lock env settings namespace name) s IfTaken Anyway
  unfolding acquire_lock
  enabled-Taken s on = wp-if settings.enabled _ _ _ (λ _. turns-Taken 5 s) (λ off. cc)

-- Where the reconcile lock is enabled and its acquisition answers that it is held, the last two
-- requests read the object and wrote the lock. The object that was read had no lock of another
-- holder that had not expired at that time, and the confirmed write carries the version that was
-- read, the own holder and an expiry at least 30 seconds later.
pub acquire_lock-Taken :
    (env : Env) (settings : LockSettings) (namespace name : String) (s : State)
    → settings.enabled ≡ true
    → (acquire_lock env settings namespace name s).0 ≡ ok true
    → Taken env settings namespace name (acquire_lock env settings namespace name s).1.trace
acquire_lock-Taken env settings namespace name s on held =
    wp-ok (acquire_lock env settings namespace name) s
      (enabled-Taken env settings namespace name s on) held refl
