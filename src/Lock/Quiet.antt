-- ===== src/Lock/Quiet.antt =====
-- The reconcile lock and the refresh of a possibly stale event clear no claim.
use capi_provider_ssh.Base.{ℕ, zero, suc, String, Bool, Option, none, some}
use capi_provider_ssh.Text.Number.{ℤ}
use capi_provider_ssh.Objects.{Meta, MachineSpec, MachineStatus, Machine}
use capi_provider_ssh.World.{Env, Error, api_exception, Outcome, ok, err, Exec}
use capi_provider_ssh.World.Trace.{Emits, emits_rules}
use capi_provider_ssh.World.Claims.{Quiet}
use capi_provider_ssh.Lock.{
  LockSettings, written, acquire_turn, acquire_turns, acquire_lock, release_own, release_found,
  release_turn, release_turns, release_lock, lock_or_requeue, acquire_lock_or_requeue,
  release_lock_with_logging, current_machine, read_current_sshmachine, Action, on_live, refreshed,
  serialized,
}

written-Quiet :
    {A : Type 0} (gone : Bool) (next : Exec Bool) (o : Outcome A)
    → Emits Quiet next
    → Emits Quiet (written gone next o)
unfolding written
written-Quiet gone next (ok a) h = search emits_rules
written-Quiet gone next (err (api_exception n)) h = search emits_rules
written-Quiet gone next (err Error.timeout_error) h = search emits_rules
written-Quiet gone next (err Error.other_error) h = search emits_rules
written-Quiet gone next (err (Error.permanent m)) h = search emits_rules
written-Quiet gone next (err (Error.temporary m d)) h = search emits_rules

module _ (env : Env) (settings : LockSettings) (namespace name : String) where
  acquire_turn-Quiet :
      (next : Exec Bool)
      → Emits Quiet next
      → Emits Quiet (acquire_turn env settings namespace name next)
  unfolding acquire_turn
  acquire_turn-Quiet next h = search (emits_rules, written-Quiet) depth 12

  acquire-Quiet : (n : ℕ) → Emits Quiet (acquire_turns env settings namespace name n)
  unfolding acquire_turns
  acquire-Quiet zero = search emits_rules
  acquire-Quiet (suc n) =
      acquire_turn-Quiet (acquire_turns env settings namespace name n) (acquire-Quiet n)

  own-Quiet :
      (next : Exec Bool) (obj : Machine) (lock : Option (String × ℤ))
      → Emits Quiet next
      → Emits Quiet (release_own env settings namespace name next obj lock)
  unfolding release_own
  own-Quiet next obj none h = search emits_rules
  own-Quiet next obj (some lock) h = search (emits_rules, written-Quiet) depth 9

  found-Quiet :
      (next : Exec Bool) (o : Outcome Machine)
      → Emits Quiet next
      → Emits Quiet (release_found env settings namespace name next o)
  unfolding release_found
  found-Quiet next (ok obj) h = search (emits_rules, own-Quiet)
  found-Quiet next (err (api_exception n)) h = search emits_rules
  found-Quiet next (err Error.timeout_error) h = search emits_rules
  found-Quiet next (err Error.other_error) h = search emits_rules
  found-Quiet next (err (Error.permanent m)) h = search emits_rules
  found-Quiet next (err (Error.temporary m d)) h = search emits_rules

  release_turn-Quiet :
      (next : Exec Bool)
      → Emits Quiet next
      → Emits Quiet (release_turn env settings namespace name next)
  unfolding release_turn
  release_turn-Quiet next h = search (emits_rules, found-Quiet)

  release-Quiet : (n : ℕ) → Emits Quiet (release_turns env settings namespace name n)
  unfolding release_turns
  release-Quiet zero = search emits_rules
  release-Quiet (suc n) =
      release_turn-Quiet (release_turns env settings namespace name n) (release-Quiet n)

  requeue-Quiet :
      (operation : String) (o : Outcome Bool)
      → Emits Quiet (lock_or_requeue env settings namespace name operation o)
  unfolding lock_or_requeue
  requeue-Quiet operation (ok b) = search emits_rules
  requeue-Quiet operation (err e) = search emits_rules

  pub lock-Quiet :
      (operation : String)
      → Emits Quiet (acquire_lock_or_requeue env settings namespace name operation)
  unfolding acquire_lock_or_requeue acquire_lock
  lock-Quiet operation = search (emits_rules, acquire-Quiet, requeue-Quiet)

  pub unlock-Quiet : Emits Quiet (release_lock_with_logging env settings namespace name)
  unfolding release_lock_with_logging release_lock
  unlock-Quiet = search (emits_rules, release-Quiet)

  current-Quiet :
      (o : Outcome Machine) → Emits Quiet (current_machine env settings namespace name o)
  unfolding current_machine
  current-Quiet (ok m) = search emits_rules
  current-Quiet (err e) = search emits_rules

  pub read-Quiet : Emits Quiet (read_current_sshmachine env settings namespace name)
  unfolding read_current_sshmachine
  read-Quiet = search (emits_rules, current-Quiet)

  live-Quiet :
      (act : Action env settings namespace name) (event_uid : Option String)
      (latest : Option Machine)
      → ((spec : MachineSpec) (status : MachineStatus) (meta : Meta)
          → Emits Quiet (act spec status meta))
      → Emits Quiet (on_live env settings namespace name act event_uid latest)
  unfolding on_live
  live-Quiet act event_uid none h = search emits_rules
  live-Quiet act event_uid (some latest) h = search (emits_rules, h)

  -- an action that clears no claim clears none under the lock
  pub serialized-Quiet :
      (act : Action env settings namespace name)
      → ((spec : MachineSpec) (status : MachineStatus) (meta : Meta)
          → Emits Quiet (act spec status meta))
      → (spec : MachineSpec) (status : MachineStatus) (meta : Meta)
      → Emits Quiet (serialized env settings namespace name act spec status meta)
  unfolding serialized refreshed
  serialized-Quiet act h spec status meta =
      search (emits_rules, lock-Quiet, unlock-Quiet, read-Quiet, live-Quiet, h) depth 12
