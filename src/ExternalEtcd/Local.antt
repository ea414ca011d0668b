-- ===== src/ExternalEtcd/Local.antt =====
-- The certificates of an external etcd are only read.
use capi_provider_ssh.Base.{String}
use capi_provider_ssh.World.{Env}
use capi_provider_ssh.World.Trace.{Emits, emits_rules}
use capi_provider_ssh.World.Claims.{Local}
use capi_provider_ssh.Bootstrap.Local.{secret-Local}
use capi_provider_ssh.ExternalEtcd.{KeyRef, ExternalEtcd, staged_file, external_etcd_files_script}

module _ (env : Env) where
  file-Local :
      (namespace : String) (ref : KeyRef) (mode path : String)
      → Emits Local (staged_file env namespace ref mode path)
  unfolding staged_file
  file-Local namespace ref mode path = search (emits_rules, secret-Local)

  pub script-Local :
      (namespace : String) (etcd : ExternalEtcd)
      → Emits Local (external_etcd_files_script env namespace etcd)
  unfolding external_etcd_files_script
  script-Local namespace etcd = search (emits_rules, file-Local) depth 9
