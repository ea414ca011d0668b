-- ===== src/Sample.antt =====
-- A small cluster that answers every request, for the concrete runs of the test modules.
use capi_provider_ssh.Base.{String, true, false, [], ◌∷◌, none, some}
use capi_provider_ssh.Objects.{
  SecretRef, ConsumerRef, OwnerRef, Meta, CapiObject, Host, Binding, Ownership, MachineSpec,
  MachineStatus, Machine,
}
use capi_provider_ssh.Text.Number.{pos}
use capi_provider_ssh.Value.{null, parsed}
use capi_provider_ssh.World.{Env, answered, refused, Lease}

abbrev pub meta_of : (name uid : String) → Meta
meta_of name uid = record {
  name = name;
  uid = some uid;
  resource_version = some "7";
  generation = some 1;
  annotations = [];
  labels = [];
  owner_references = [];
  deletion_timestamp = none;
}

abbrev pub capi_owner : OwnerRef
capi_owner = record {
  api_version = some "cluster.x-k8s.io/v1beta1";
  kind = some "Cluster";
  name = "c1";
  uid = some "cluster-uid";
}

abbrev pub owned_meta : Meta
owned_meta = record (meta_of "m1" "machine-uid") { owner_references = capi_owner ∷ [] }

abbrev pub cluster_object : CapiObject
cluster_object = record {
  metadata = meta_of "c1" "cluster-uid";
  paused = some false;
  cluster_name = none;
  data_secret_name = none;
}

abbrev pub secret_ref : SecretRef
secret_ref = record { name = some "ssh"; key = none }

abbrev pub claim : ConsumerRef
claim = record {
  kind = some "SSHMachine";
  name = some "m1";
  namespace = some "ns";
  uid = some "machine-uid";
}

abbrev pub claimed_host : Host
claimed_host = record {
  metadata = meta_of "h1" "host-uid";
  spec = record {
    address = some "10.0.0.1";
    port = some 22;
    user = none;
    ssh_key_ref = some secret_ref;
    ssh_host_key_ref = some secret_ref;
    consumer_ref = some claim;
  };
  status = record { phase = some "Claimed"; ready = some true };
}

abbrev pub binding : Binding
binding = record {
  connection = record {
    address = some "10.0.0.1";
    port = 22;
    user = "root";
    ssh_key_ref = secret_ref;
    ssh_host_key_ref = secret_ref;
  };
  machine_uid = some "machine-uid";
  host_uid = some "host-uid";
  host_ref = some "ns/h1";
}

abbrev pub ownership : Ownership
ownership = record {
  machine_uid = some "machine-uid";
  address = some "10.0.0.1";
  port = some 22;
  host_uid = some "host-uid";
  started_at = some "t0";
}

abbrev pub machine_spec : MachineSpec
machine_spec = record {
  address = none;
  port = none;
  user = none;
  ssh_key_ref = some secret_ref;
  ssh_host_key_ref = some secret_ref;
  host_ref = some "ns/h1";
  host_selector = none;
  provider_id = none;
  paused = none;
  dry_run = none;
  reboot_requested_at = none;
  bootstrap_check_strategy = none;
  external_etcd = none;
}

abbrev pub machine_status : MachineStatus
machine_status = record {
  ready = none;
  provisioned = none;
  cleanup_phase = none;
  conditions = [];
  allocation = some binding;
  bootstrap_ownership = some ownership;
  reboot = none;
  failure_reason = none;
  failure_message = none;
  bootstrap_diagnostics = none;
}

abbrev pub machine : Machine
machine = record { metadata = owned_meta; spec = machine_spec; status = machine_status }

abbrev pub no_lease : Lease
no_lease = record {
  holder_identity = none;
  renew_time = none;
  acquire_time = none;
  lease_duration_seconds = none;
  resource_version = some "1";
}

abbrev pub env : Env
env = record {
  machine = λ _ _. answered machine;
  host = λ _ _. answered claimed_host;
  capi_object = λ _ _. answered cluster_object;
  hosts = λ _ _. answered (claimed_host ∷ []);
  secret = λ _ _. answered (some (("value", "key") ∷ ("known_hosts", "trust") ∷ []));
  lease = λ _ _. answered no_lease;
  unit = λ _ _. answered tt;
  ssh = λ _ _. answered (record { exit_code = pos 0; stdout = ""; stderr = "" });
  seconds = λ _. 1000;
  iso = λ _. "t1";
  parse_iso = λ _. none;
  b64decode = λ s. some s;
  b64decode_strict = λ s. some s;
  b64encode = λ s. s;
  yaml_load = λ _. parsed null;
  yaml_load_all = λ _. parsed [];
  yaml_dump = λ _. "";
  yaml_dump_all = λ _. "";
  sha256 = λ _. "digest";
  error_text = λ _. "error";
  uuid = λ _. "u1";
}

-- the same cluster, with no host
abbrev pub hostless_env : Env
hostless_env = record env { host = λ _ _. refused 404 }
