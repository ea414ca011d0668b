-- ===== src/World/Remote.antt =====
-- Histories in which the work on hosts comes after a confirmed record of their ownership.
use capi_provider_ssh.Base.{String, Bool, false, none, some, text_eq}
use capi_provider_ssh.World.{Exec, Request, Event, Trace, patch_machine_status}
use capi_provider_ssh.World.Order
use capi_provider_ssh.World.Trace.{Emits, Emits-mono}
use capi_provider_ssh.World.Claims.{Local, is_remote}

-- the status write of an ownership record that names this UID
abbrev pub is_ownership : (uid : String) → Request → Bool
is_ownership uid (patch_machine_status _ _ _ _ changes) = elim changes.bootstrap_ownership [
  | none ↦ false
  | some o ↦ text_eq o.machine_uid (some uid)
]
is_ownership uid _ = false

-- Each command and each upload comes after a confirmed record.
abbrev pub Recorded : (uid : String) → Trace → Type 0
Recorded uid = Order.Ordered is_remote (is_ownership uid)

abbrev pub Keeps : (uid : String) → {A : Type 0} → Exec A → Type 0
Keeps uid = Order.Keeps is_remote (is_ownership uid)

abbrev pub Readies : (uid : String) → {A : Type 0} → Exec A → Type 0
Readies uid = Order.Readies is_remote (is_ownership uid)

Avoids-Local : (e : Event) → Local e → Order.Avoids is_remote e
Avoids-Local e h = record { avoids = h.not_remote }

pub Keeps-Local : (uid : String) {A : Type 0} {m : Exec A} → Emits Local m → Keeps uid m
Keeps-Local uid h = Order.Keeps-Avoids is_remote (is_ownership uid) (Emits-mono Avoids-Local h)
