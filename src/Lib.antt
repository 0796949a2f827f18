-- ===== src/Lib.antt =====
-- pve-manage, a cloud management service over Proxmox VE clusters: a model of its Go code and the
-- theorems on it.
--
-- The program has an HTTP API (internal/api) that reads and writes PostgreSQL tables, and a worker
-- (internal/worker/worker.go) that takes the tasks which the API queues in `vm_tasks` and carries
-- them out through the Proxmox client (internal/pve). Both meet in the tables only, so a VM's life
-- is the interleaving of their transactions and statements.
--
-- The files:
--   Prelude     tests, lists and integers over the native numbers; Go's `int` is ℤ without bound.
--   Text        Go's strings as lists of runes: `strings`, `strconv.Atoi`.
--   Vmname      internal/vmname/vmname.go, and `stripVMNamePrefix` of internal/api/vm_handlers.go.
--   Json        the objects in JSON columns and payloads, and how the code reads them.
--   Sql         statements that may fail and transactions, as state passing over a session: the
--               tables, the outcome of each statement to come, and the clock. Sql/Keeps, Sql/Ensures
--               and Sql/Atomic are the rules for invariants, for results and for requests that
--               change nothing where they fail.
--   Tables      the rows of internal/db/migrate.go, with UPDATE and DELETE.
--   Tasks       the queue: `queueVMTaskTx` of internal/api/common.go and the worker's statements on
--               `vm_tasks` and `maintenance_tasks`, the choice of the tasks of a round included.
--   Api         the handlers on one VM of internal/api/vm_handlers.go (Api/Vms), and security groups:
--               internal/api/security_handlers.go (Api/Rules, Api/Groups). The creation of a VM:
--               `handleCreateVM` (Api/Create) with its checks (Api/CreateChecks, Api/CreateOptions),
--               the id and the quota (Api/Allocation), the address (Api/Ipv4) and the node
--               (Api/Placement) of internal/api/common.go and internal/api/helpers.go. The change of
--               a VM: `handlePatchVM` (Api/Patch) field by field (Api/PatchFields). SSH keys:
--               internal/api/sshkey_handlers.go (Api/Keys). The administrators' requests on a VM:
--               address and exemption of internal/api/template_handlers.go (Api/Admin), adoption
--               of internal/api/vm_handlers.go (Api/Adoption its checks, Api/Adopt what it writes);
--               Api/Settles has the rules for such all-or-nothing handlers.
--   Auth        internal/auth/auth.go: signed cookies (Auth/Cookies), the claims of an ID token
--               (Auth/Claims), and the handlers with `CurrentUser` (Auth/Handlers).
--   Config      internal/config/config.go.
--   Migrate     the migrations of internal/db/migrate.go.
--   Client      the Proxmox client: internal/pve/firewall.go (Client/Firewall, Client/Ipset) and
--               `EnsureFirewall` of internal/pve/client.go, over one HTTP request as a parameter.
--   Worker      internal/worker/worker.go: power, deletion, disks, provisioning, the
--               configuration and the firewall of a VM (Worker/Apply, Worker/Net0), the inventory
--               scan (Worker/Scanning, Worker/Scan, Worker/Snapshot), and the pass (Worker/Loop).
--   Examples    sample data, and the theorems at concrete inputs.
--
-- A state passes through a handler or a step as a session, or as a session and a state of Proxmox VE
-- of which nothing is known but the operations in the record `Pve` (Worker/Remote). A Go error is
-- its message; a message that the code wraps in another is kept as it is, or replaced by a constant
-- where it is made by the code, since no code reads those.
--
-- The loops are over lists, and no definition runs on fuel but `decimal` (Text/Numbers), the digits of
-- a number: its fuel is the number plus one, and each step divides by ten. The bound 20 of a round is
-- `take_ready`'s count of free places, as in the source.
--
-- Not modelled: HTTP, JSON and YAML decoding, logging, the third-party OIDC client (the record
-- `Provider`), HMAC-SHA256, base64 and the JSON of a session (the record `Codec`), lists,
-- floating-point metrics, and `diskMiB` of the worker, a regular expression over a decimal
-- fraction (the parameter `disk_mib`). The scores of the placement of a VM are computed over the
-- record `Floats`, of whose numbers nothing is known. The clock stands still within one handler or
-- worker step, which is coarser than the program's repeated `time.Now()`. Times are instants, not
-- the texts that the tables hold.
pub mod Prelude
pub mod Text
pub mod Vmname
pub mod Json
pub mod Sql
pub mod Tables
pub mod Tasks
pub mod Api
pub mod Config
pub mod Migrate
pub mod Auth
pub mod Worker
pub mod Client
pub mod Examples
