-- ===== src/Contracts/Persist.antt =====
-- The status write is fenced by the UID and the version that its own read returned.
use capi_provider_ssh.Base.{
  String, Bool, true, false, ◌≡◌, ◌⊎◌, inl, inr, refl, some, ◌∷◌, truthy, eq_of_text, Bool-cases,
  text_eq,
}
use capi_provider_ssh.Objects.{Machine}
use capi_provider_ssh.World.{
  Env, Error, State, Outcome, ok, err, permanent, temporary, api_exception, other_error, raise,
  pure, replied, answered, ◌>>=◌, call, Changes, Event, get_machine, patch_machine_status,
  Reply-cases,
}
use capi_provider_ssh.Contracts.{persist_machine_status, persisted, merged_changes}

persisted-state : (o : Outcome Machine) (s : State) → (persisted o s).1 ≡ s
unfolding persisted raise pure
persisted-state (ok m) s = refl
persisted-state (err (permanent m)) s = refl
persisted-state (err (temporary m n)) s = refl
persisted-state (err (api_exception n)) s = refl
persisted-state (err Error.timeout_error) s = refl
persisted-state (err other_error) s = refl

module _ (env : Env) (namespace name uid : String) (changes : Changes) (s : State) where
  -- The object read just before has the UID, and the write carries the version that was read.
  pub record Fenced : Type 0 where
    pub current : Machine
    pub now : String
    pub done : Bool
    pub read : env.machine s.trace (get_machine namespace name) ≡ answered current
    pub same_uid : current.metadata.uid ≡ some uid
    pub written :
        (persist_machine_status env namespace name uid changes s).1.trace
        ≡ record {
          request =
              patch_machine_status namespace name uid current.metadata.resource_version
                (merged_changes current now changes);
          done = done;
        }
          ∷ record { request = get_machine namespace name; done = true }
          ∷ s.trace

  -- the event of the read
  abbrev read_event : Bool → Event
  read_event b = record { request = get_machine namespace name; done = b }

  fenced :
      (current : Machine)
      → env.machine s.trace (get_machine namespace name) ≡ answered current
      → truthy uid ≡ true
      → text_eq current.metadata.uid (some uid) ≡ true
      → Fenced
  unfolding persist_machine_status ◌>>=◌ call persisted
  fenced current e has_uid same = record {
    current = current;
    now = env.iso (read_event true ∷ s.trace);
    done = replied (
        env.machine (read_event true ∷ s.trace) (
          patch_machine_status namespace name uid current.metadata.resource_version
            (merged_changes current (env.iso (read_event true ∷ s.trace)) changes)));
    read = e;
    same_uid = eq_of_text current.metadata.uid (some uid) same;
    written = rw (has_uid, e) (rw (same, persisted-state) refl);
  }

  -- A status write makes no request, or one request that reads the object, or two requests: the read,
  -- which returned an object with the expected UID, and a write that carries that UID, the version
  -- that was read and the changes merged into the conditions that were read.
  pub persist_machine_status-writes :
      (((persist_machine_status env namespace name uid changes s).1.trace ≡ s.trace)
        ⊎ ((b : Bool) × ((persist_machine_status env namespace name uid changes s).1.trace
              ≡ record { request = get_machine namespace name; done = b } ∷ s.trace)))
      ⊎ Fenced
  unfolding persist_machine_status ◌>>=◌ call
  persist_machine_status-writes = elim (Bool-cases (truthy uid)) [
    | inr no_uid ↦ inl (inl (rw no_uid refl))
    | inl has_uid ↦ elim (Reply-cases (env.machine s.trace (get_machine namespace name))) [
      | inr (e, raised, not_done) ↦ inl (inr (false, rw (has_uid, raised, not_done) refl))
      | inl (current, e) ↦ elim (Bool-cases (text_eq current.metadata.uid (some uid))) [
        | inr other ↦ inl (inr (true, rw (has_uid, e, other) refl))
        | inl same ↦ inr (fenced current e has_uid same)
      ]
    ]
  ]
