-- ===== src/Operations.antt =====
-- capi_provider_ssh/operations.py: the Lease of a host, the operation that holds it, and the remote
-- UID fence.
pub mod Local
pub mod Quiet
pub mod Acquire
pub mod Receipt
pub mod Ordered
use capi_provider_ssh.Base.{
  ℕ, ◌+◌, String, Bool, true, false, not, ◌&&◌, List, [], ◌∷◌, ◌++◌, Option, none, some, or_else,
  has_text, is_some, truthy, text_eq, nat_eq, ltb, if◌then◌else◌,
}
use capi_provider_ssh.Text.{codes, lower, rstrip, show, join}
use capi_provider_ssh.Shell.{text, quote}
use capi_provider_ssh.Objects.{Binding}
use capi_provider_ssh.World.{
  other_error, Env, Error, permanent, temporary, api_exception, Outcome, ok, err, Exec, pure, raise,
  lift, attempt, gets, ◌>>=◌, ◌>>◌, call, Lease, read_lease, create_lease, replace_lease,
}
use capi_provider_ssh.Inventory.{slash_char}

abbrev pub owner_path : String
owner_path = "/var/lib/capi-provider-ssh/owner"

abbrev pub remote_lock : String
remote_lock = "/var/lib/capi-provider-ssh-operation.lock"

abbrev pub lease_seconds : ℕ
lease_seconds = 60

pub record HostLease : Type 0 where
  pub name : String
  pub holder : String

-- `f"{address.lower().rstrip('.')}:{port}"`, by its code points
pub target : (address : String) (port : ℕ) → List ℕ
target address port = rstrip b'.' (lower (codes address)) ++ b':' ∷ codes (show port)

-- `spec.renew_time or spec.acquire_time`
abbrev pub renewed : Lease → Option ℕ
renewed lease = if is_some lease.renew_time then lease.renew_time else lease.acquire_time

-- `spec.lease_duration_seconds or 60`
abbrev pub duration : Lease → ℕ
duration lease =
    if nat_eq (or_else lease.lease_duration_seconds 0) 0
    then 60
    else or_else lease.lease_duration_seconds 60

abbrev runs_past : Option ℕ → ℕ → ℕ → Bool
runs_past none d now = false
runs_past (some t) d now = ltb now (t + d)

-- the test that makes `acquire` give up
unfoldable pub is_held : Lease → (now : ℕ) → Bool
is_held lease now = has_text lease.holder_identity && runs_past (renewed lease) (duration lease) now

-- `except ApiException`: a missing Lease is none
unfoldable pub found_lease : Outcome Lease → Outcome (Option Lease)
found_lease (ok lease) = ok (some lease)
found_lease (err (api_exception status)) =
    if nat_eq status 404 then ok none else err (api_exception status)
found_lease (err e) = err e

-- a conflict on the write means that another holder was first
unfoldable pub taken : Outcome Lease → Outcome Bool
taken (ok lease) = ok true
taken (err (api_exception status)) =
    if nat_eq status 409 then ok false else err (api_exception status)
taken (err e) = err e

-- the Lease that this holder writes over `current`
abbrev pub own_lease : HostLease → (now : ℕ) → Option Lease → Lease
own_lease lease now current = record {
  holder_identity = some lease.holder;
  renew_time = some now;
  acquire_time = some now;
  lease_duration_seconds = some lease_seconds;
  resource_version = elim current [ none ↦ none | some l ↦ l.resource_version ];
}

module _ (env : Env) where
  -- `HostLease(address, port, machine_uid)`; without an address `lower` raises
  pub new_lease : Binding → (machine_uid : String) → Exec HostLease
  new_lease binding machine_uid = do
    address ← lift (elim binding.address [ none ↦ err other_error | some a ↦ ok a ])
    gets λ s. record {
      name = text ("ssh-host-" ∷ env.sha256 (target address binding.port) ∷ []);
      holder = join machine_uid slash_char (env.uuid s.trace);
    }

  unfoldable pub write_lease : HostLease → (now : ℕ) → Option Lease → Exec Lease
  write_lease lease now none = call env.lease (create_lease lease.name (own_lease lease now none))
  write_lease lease now (some current) =
      call env.lease (replace_lease lease.name (own_lease lease now (some current)))

  -- `acquire`, after the read
  unfoldable pub acquire_over : HostLease → (now : ℕ) → Option Lease → Exec Bool
  acquire_over lease now current =
      if elim current [ none ↦ false | some l ↦ is_held l now ]
      then pure false
      else (do reply ← attempt (write_lease lease now current); lift (taken reply))

  -- `HostLease.acquire`
  unfoldable pub acquire : HostLease → Exec Bool
  acquire lease = do
    now ← gets (λ s. env.seconds s.trace)
    reply ← attempt (call env.lease (read_lease lease.name))
    current ← lift (found_lease reply)
    acquire_over lease now current

  -- `HostLease.renew`
  pub renew : HostLease → Exec Bool
  renew lease = do
    current ← call env.lease (read_lease lease.name)
    if not (text_eq current.holder_identity (some lease.holder)) then pure false else (do
      now ← gets (λ s. env.seconds s.trace)
      _ ← call env.lease (replace_lease lease.name (record current { renew_time = some now }))
      pure true)

  -- `HostLease.check`
  pub check_lease : HostLease → Exec Unit
  check_lease lease = do
    held ← renew lease
    if held then pure tt else raise (temporary "Host operation Lease was lost" 15)

  -- `HostLease.release`
  pub release_lease : HostLease → Exec Unit
  release_lease lease = do
    current ← call env.lease (read_lease lease.name)
    if not (text_eq current.holder_identity (some lease.holder)) then pure tt else (do
      _ ← call env.lease (replace_lease lease.name (record current { holder_identity = none }))
      pure tt)

  -- what `host_operation` raises before its body
  pub acquired : Outcome Bool → Outcome Unit
  acquired (err e) = err (temporary "Cannot acquire host operation Lease" 15)
  acquired (ok false) = err (temporary "Another operation owns this host" 15)
  acquired (ok true) = ok tt

  -- `async with host_operation(binding, machine_uid) as lease: body`. The Lease is released on every
  -- way out, and a failed release is ignored.
  pub host_operation :
      {A : Type 0} → Binding → (machine_uid : String) → (HostLease → Exec A) → Exec A
  host_operation binding machine_uid body = do
    lease ← new_lease binding machine_uid
    reply ← attempt (acquire lease)
    lift (acquired reply)
    result ← attempt (body lease)
    _ ← attempt (release_lease lease)
    lift result
