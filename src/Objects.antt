-- ===== src/Objects.antt =====
-- The Kubernetes objects that the provider reads and writes, by the fields that its code touches
-- (shared/crds/*.yaml gives their types). A key that may be missing, or null, is an `Option`.
use capi_provider_ssh.Base.{ℕ, String, Bool, List, Option, Dict}
use capi_provider_ssh.Text.Number.{ℤ}
use capi_provider_ssh.Value.{Value}

-- `{"name": ..., "key": ...}`
pub record SecretRef : Type 0 where
  pub name : Option String
  pub key : Option String

-- `spec.consumerRef` of an SSHHost
pub record ConsumerRef : Type 0 where
  pub kind : Option String
  pub name : Option String
  pub namespace : Option String
  pub uid : Option String

-- an entry of `status.conditions`
pub record Condition : Type 0 where
  pub type : String
  pub status : String
  pub reason : String
  pub message : String
  pub last_transition_time : Option String
  pub observed_generation : Option ℕ

pub record OwnerRef : Type 0 where
  pub api_version : Option String
  pub kind : Option String
  pub name : String
  pub uid : Option String

pub record Meta : Type 0 where
  pub name : String
  pub uid : Option String
  pub resource_version : Option String
  pub generation : Option ℕ
  pub annotations : Dict String
  pub labels : Dict String
  pub owner_references : List OwnerRef
  pub deletion_timestamp : Option String

-- a Machine or Cluster of Cluster API, as far as the pause check reads it
pub record CapiObject : Type 0 where
  pub metadata : Meta
  pub paused : Option Bool
  pub cluster_name : Option String
  -- `spec.bootstrap.dataSecretName`
  pub data_secret_name : Option String

pub record HostSpec : Type 0 where
  pub address : Option String
  pub port : Option ℕ
  pub user : Option String
  pub ssh_key_ref : Option SecretRef
  pub ssh_host_key_ref : Option SecretRef
  pub consumer_ref : Option ConsumerRef

pub record HostStatus : Type 0 where
  pub phase : Option String
  pub ready : Option Bool

pub record Host : Type 0 where
  pub metadata : Meta
  pub spec : HostSpec
  pub status : HostStatus

-- what `connection_spec` returns
pub record Connection : Type 0 where
  pub address : Option String
  pub port : ℕ
  pub user : String
  pub ssh_key_ref : SecretRef
  pub ssh_host_key_ref : SecretRef

-- `status.allocation`
pub record Binding : Type 0 where
  pub connection : Connection
  pub open connection use *
  pub machine_uid : Option String
  pub host_uid : Option String
  pub host_ref : Option String

-- `status.bootstrapOwnership`; the rest of the binding that is stored with it is never read
pub record Ownership : Type 0 where
  pub machine_uid : Option String
  pub address : Option String
  pub port : Option ℕ
  pub host_uid : Option String
  pub started_at : Option String

-- `status.remediation.reboot`
pub record Reboot : Type 0 where
  pub last_requested_at : Option String
  pub phase : Option String
  pub previous_boot_id : Option String
  pub started_at : Option String
  pub success : Bool
  pub last_completed_at : Option String
  pub observed_boot_id : Option String
  pub message : String

-- `spec.hostSelector`; `{}`, with no `matchLabels`, is false to Python
pub record HostSelector : Type 0 where
  pub match_labels : Option (Dict String)

pub record MachineSpec : Type 0 where
  pub address : Option String
  pub port : Option ℕ
  pub user : Option String
  pub ssh_key_ref : Option SecretRef
  pub ssh_host_key_ref : Option SecretRef
  pub host_ref : Option String
  pub host_selector : Option HostSelector
  pub provider_id : Option String
  pub paused : Option Bool
  pub dry_run : Option Bool
  pub reboot_requested_at : Option String
  -- these two are checked by the code, so they are any values
  pub bootstrap_check_strategy : Option Value
  pub external_etcd : Option Value

-- `status.bootstrapDiagnostics`
pub record Diagnostics : Type 0 where
  pub phase : String
  pub exit_code : ℤ
  pub stderr_excerpt : String

pub record MachineStatus : Type 0 where
  pub ready : Option Bool
  -- `initialization.provisioned`
  pub provisioned : Option Bool
  -- `cleanup.phase`
  pub cleanup_phase : Option String
  pub conditions : List Condition
  pub allocation : Option Binding
  pub bootstrap_ownership : Option Ownership
  pub reboot : Option Reboot
  pub failure_reason : Option String
  pub failure_message : Option String
  pub bootstrap_diagnostics : Option Diagnostics

pub record Machine : Type 0 where
  pub metadata : Meta
  pub spec : MachineSpec
  pub status : MachineStatus
