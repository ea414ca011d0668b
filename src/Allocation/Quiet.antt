-- ===== src/Allocation/Quiet.antt =====
-- The binding of a Machine makes claims and clears none.
use capi_provider_ssh.Base.{String}
use capi_provider_ssh.Objects.{MachineSpec, MachineStatus}
use capi_provider_ssh.World.{Env}
use capi_provider_ssh.World.Trace.{Emits, Emits-mono}
use capi_provider_ssh.World.Claims.{Quiet, Quiet-Local}
use capi_provider_ssh.Allocation.{bind_machine}
use capi_provider_ssh.Allocation.Local.{bind-Local}

pub bind-Quiet :
    (env : Env) (spec : MachineSpec) (status : MachineStatus) (name namespace uid : String)
    → Emits Quiet (bind_machine env spec status name namespace uid)
bind-Quiet env spec status name namespace uid =
    Emits-mono Quiet-Local (bind-Local env spec status name namespace uid)
