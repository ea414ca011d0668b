-- ===== src/Probe/Local.antt =====
-- Reading an SSH key clears no claim and does nothing on a host.
use capi_provider_ssh.Base.{String, Option, none, some}
use capi_provider_ssh.World.{Env}
use capi_provider_ssh.World.Trace.{Emits, emits_rules}
use capi_provider_ssh.World.Claims.{Local}
use capi_provider_ssh.Probe.{key_entry, read_ssh_key}

module _ (env : Env) where
  entry-Local :
      (namespace secret_name secret_key : String) (e : Option String)
      → Emits Local (key_entry env namespace secret_name secret_key e)
  unfolding key_entry
  entry-Local namespace secret_name secret_key none = search emits_rules
  entry-Local namespace secret_name secret_key (some e) = search emits_rules

  pub key-Local :
      (namespace secret_name secret_key : String)
      → Emits Local (read_ssh_key env namespace secret_name secret_key)
  unfolding read_ssh_key
  key-Local namespace secret_name secret_key = search (emits_rules, entry-Local)
