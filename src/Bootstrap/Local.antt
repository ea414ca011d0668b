-- ===== src/Bootstrap/Local.antt =====
-- Reading the bootstrap data and the certificates clears no claim and does nothing on a host.
use capi_provider_ssh.Base.{String, Option, none, some, List}
use capi_provider_ssh.Objects.{CapiObject}
use capi_provider_ssh.World.{
  Env, permanent, temporary, timeout_error, other_error, api_exception, Outcome, ok, err,
}
use capi_provider_ssh.World.Trace.{Emits, emits_rules}
use capi_provider_ssh.World.Claims.{Local}
use capi_provider_ssh.Probe.Local.{key-Local}
use capi_provider_ssh.Bootstrap.{
  if_found, secret_entry, secret_value, read_data, read_bootstrap_data, read_secret_value,
}

module _ (env : Env) where
  pub found-Local : {A : Type 0} (o : Outcome A) → Emits Local (if_found env o)
  unfolding if_found
  found-Local (ok a) = search emits_rules
  found-Local (err (api_exception n)) = search emits_rules
  found-Local (err timeout_error) = search emits_rules
  found-Local (err other_error) = search emits_rules
  found-Local (err (permanent m)) = search emits_rules
  found-Local (err (temporary m d)) = search emits_rules

  encoded-Local : (e : Option String) → Emits Local (secret_entry env e)
  unfolding secret_entry
  encoded-Local none = search emits_rules
  encoded-Local (some e) = search emits_rules

  value-Local : (v : Option (Option (List (String × String)))) → Emits Local (secret_value env v)
  unfolding secret_value
  value-Local none = search emits_rules
  value-Local (some v) = search (emits_rules, encoded-Local)

  machine-Local :
      (namespace : String) (m : Option CapiObject) → Emits Local (read_data env namespace m)
  unfolding read_data
  machine-Local namespace none = search emits_rules
  machine-Local namespace (some m) = search (emits_rules, found-Local, value-Local) depth 10

  pub read-Local :
      (namespace machine_name : String)
      → Emits Local (read_bootstrap_data env namespace machine_name)
  unfolding read_bootstrap_data
  read-Local namespace machine_name = search (emits_rules, found-Local, machine-Local) depth 10

  pub secret-Local :
      (namespace secret_name secret_key : String)
      → Emits Local (read_secret_value env namespace secret_name secret_key)
  unfolding read_secret_value
  secret-Local namespace secret_name secret_key = key-Local env namespace secret_name secret_key
