-- ===== src/Lib.antt =====
-- A verification library for the SSH infrastructure provider of Cluster API, which allocates hosts,
-- bootstraps and reboots machines over SSH, and cleans hosts before it releases them.
--
-- The provider's parts, with their paths below python/capi_provider_ssh, and the files here:
-- api_io.py            `request` is World.outcome and World.call
-- conditions.py        Conditions (merge_conditions, patch_conditions, report_pause)
-- contracts.py         Contracts (capi_owner_api_version, is_paused, persist_machine_status,
--                      read_known_hosts)
-- inventory.py         Inventory (claims, phases, release, recovery) and Allocation (_select_host,
--                      bind_machine)
-- operations.py        Operations (HostLease, host_operation), Fence (owned_command) and Bootstrap
--                      (durable_bootstrap)
-- lifecycle.py         Remote (connect, check_current), Reboot (reconcile_reboot) and Lifecycle
--                      (delete_machine)
-- controllers/sshcluster.py   Cluster
-- controllers/sshhost.py      Probe
-- controllers/sshmachine.py   Lock: the reconcile lock in an annotation, and sshmachine_delete;
--                             Provision: owners, provisioned fields, the ownership record;
--                             Bootstrap: the Secrets that it reads;
--                             Kubeadm: kubeadm documents (_set_kubeadm_args, the patches);
--                             ExternalEtcd: its configuration, documents and certificates;
--                             CloudConfig: formats, cloud-config, _prepare_bootstrap_script;
--                             Inject: heredocs and files with kubeadm documents;
--                             Diagnose: redaction, excerpts, the failed phase;
--                             Machine: _sshmachine_reconcile_impl up to its SSH session,
--                             Machine.Job: the session, Machine.Reconcile: the whole function and
--                             the handlers of events
-- readiness.py         Readiness (check_readiness)
-- namespace_audit.py   NamespaceAudit (is_stuck_test, audit)
-- Base, Text, Shell, Value, Fallible and Objects have the shared helpers: Python's operations on
-- texts, regular expressions (Text.Regex), shlex.quote, the values of YAML, code that raises without
-- requests, and the Kubernetes objects. Sample, Tests, MachineTests and
-- ReadinessTests are concrete runs.
--
-- How they interact. A handler is an action of World: it makes requests and stages changes of the
-- kopf patch, and it returns or raises. The API server, SSH, base64, PyYAML, SHA-256, the texts of
-- exceptions and the clock are an `Env`, whose answers are any functions of the history of requests.
-- So a theorem for every Env covers every race with another controller, conflict, failure and time.
-- The history records each request with its body and whether it was confirmed. World.Trace says which
-- events an action can add, World.Returns which values an action can return, World.Wp what holds when
-- it returns or raises, and World.Order relates requests of one kind to confirmed requests of another:
-- World.Claims the clearing of a claim to the receipt of a cleanup, and World.Remote the work on a
-- host to the record of its ownership. A file Quiet below a module says that its actions clear no
-- claim, a file Local that they also do nothing on a host, and a file Ordered that they keep the order
-- of World.Remote. Lock.serialized runs an action under the reconcile lock; the handlers of
-- Machine.Reconcile and the deletion of Lifecycle are such actions.
--
-- Choices. The objects are records of the fields that the code reads, with the types of the CRDs; the
-- two fields that the code checks itself, externalEtcd and bootstrapCheckStrategy, are any values. A
-- missing key is none, and an object without a status is one whose status is empty. A YAML alias is a
-- copy, and an int of YAML equals no bool and no float. Times are whole seconds, and microseconds in
-- Readiness and NamespaceAudit; a naive time there is refused as the code does. lower, strip, int and
-- the classes of regular expressions are those of ASCII texts. The repeated attempts of the reconcile
-- lock are counted as in the source, five for each call. The observation of a bootstrap job has one
-- round for each second of its timeout, and each round sleeps for two seconds; Bootstrap.Rounds has the
-- loop without a count. All updates of one merge of conditions have one time. Other loops are recursions over
-- lists and texts. The fuel of `show` and `octal` is one more than the number, which has fewer digits.
--
-- Not modelled: the heartbeat of a host operation and the cancellation of tasks; the in-process locks
-- and the thread pools, which only order the runs of handlers; logging; the shell that runs the
-- scripts, whose texts are modelled; ssh.py and main.py, which are a client and the settings around the
-- handlers; the HTTP clients of readiness.py; and the scripts of the release.
pub mod Base
pub mod Text
pub mod Value
pub mod Fallible
pub mod Kubeadm
pub mod ExternalEtcd
pub mod CloudConfig
pub mod Inject
pub mod Diagnose
pub mod Machine
pub mod MachineTests
pub mod Objects
pub mod World
pub mod Conditions
pub mod Contracts
pub mod Inventory
pub mod Allocation
pub mod Shell
pub mod NamespaceAudit
pub mod Operations
pub mod Fence
pub mod Remote
pub mod Reboot
pub mod Lifecycle
pub mod Cluster
pub mod Probe
pub mod Lock
pub mod Provision
pub mod Readiness
pub mod ReadinessTests
pub mod Bootstrap
pub mod Sample
pub mod Tests
