-- ===== src/Lib.antt =====
-- proxmox-actions-runners: ephemeral GitHub Actions runners on a Proxmox VE host.
--
-- The controller (internal/controller) keeps as many worker VMs alive as GitHub's messages ask for. A
-- message session sets each scale set's target; a reconcile pass lists the pool's VMs, reads what they
-- are from their tags alone, and starts retirements and creations in the background, which call
-- Proxmox and GitHub and wake the loop when they end. The controller has no other state that outlives
-- it, so the tags that a creation writes and a pass reads are the contract between the two.
--
-- Files and code:
--   Proxmox          internal/proxmox/vm.go and errors.go: listings, tags, which errors callers tell apart;
--                    Tasks is tasks.go, waiting for a task; Access is access.go, the token's permissions
--   VmTags           internal/vmtags/vmtags.go: the tags, and the newest template
--   Config           internal/config: the types, the VMID range, defaults.go, units.go, validate.go
--   GitHub           internal/github: RunnerRelease is rest.go, how far a runner is behind a release;
--                    ScaleSets is scaleset.go, with EnsureScaleSet; Runners is runners.go; Listen is listen.go
--   Release          internal/release: the order of the project's own versions, read by Parse
--                    (version.go); Verify is verify.go; Download is download.go
--   Settings         internal/settings: settings.go with its checks in Settings/Validate, keys.go in
--                    Settings/Keys, render.go in Settings/Render
--   Installer        internal/installer, over the log of the host's commands:
--     Template         steps.go: importTemplate, freeReservedVMID
--     Network, Access  steps.go and uninstall.go: createNetwork, createAccess, grantACLs, and removing them
--     SystemVm         systemvm.go: systemVMID
--     Update, Upgrade  update.go: Update up to the release asked for; Upgrade and upgradeSteps
--     Status, Report, Objects
--                      status.go: the findings of parcon status and its lists
--     Tuning           offloads.go, asyncpf.go: what is left to tune on a node that is a VM
--     Uninstall        uninstall.go and smoke.go: managedVMs, destroyVM and the loop over them
--   Controller       internal/controller:
--     Naming           naming.go: workerName, workerTags, parseWorker
--     ScaleSet         scaleset.go: one scale set's state, every handler a function on the state
--     State            controller.go and worker.go: the controller's record, New, startOp and its end
--     Observe, RetireReason, Scale, Reconcile
--                      reconcile.go: observe, retireReason, scale with allocateVMID, reconcile
--     Prune, Freshness, Status
--                      templates.go, freshness.go, status.go
--     Worker           worker.go: retire, destroy, removeRunner, waitForAgent; create in Worker/Create
--     Register         controller.go: registerScaleSets
--     Run              controller.go: Run and the operations in the background, as a step relation
--     Safety           what a pass may touch, in terms of the listing
--   Prelude          Go's int64, strings, strconv, time and maps, as far as the program uses them
--   Examples         a small fleet on which the theorems are applied
--
-- The model. A Go struct is a record, a method a function from the old state to the new one. An
-- operation that startOp puts in the background is put on the controller's list `started`; what it
-- does is a function of its own over a `World`, which answers every call of Proxmox and GitHub, and
-- tells the time, from the list of calls made before it. So the answers may change from call to call
-- and are otherwise arbitrary; the theorems hold for every world. Run is a step relation on the
-- controller, the operations in flight and the stage of the loop: a pass, a handler of a message, the
-- start of an operation's work and its end are each taken as one step, and come in any order.
--
-- A Go int is an integer, and a sum that may overflow is reduced to 64 bits where a theorem depends on
-- it. A time is its nanoseconds since 1970. A Go map is a list of pairs with one entry for a key, in
-- the order of insertion, where Go's order is random; sort.Slice is a stable sort.
--
-- The settings are what parcon on the host keeps; they are rendered into the configuration that the
-- controller reads. The installer's commands and the calls of the scale set library are logged in the
-- same way as the controller's calls, and what they answer is arbitrary. An update's plan is a list of
-- steps; the work of a step is a parameter.
--
-- Fuel. waitForAgent: one round for each two-second interval of the boot timeout and one more are
-- enough where the clock counts every sleep (Controller.Worker.Waiting). Listen: one more than the
-- number of sessions after which the context ends. Has: one more than the length of the path.
-- registerScaleSets and the wait for a task: one more than the number of events after which GitHub,
-- or the task, answers. The wait for the VNet: 63 rounds, since each waits a second and a minute is
-- allowed. systemVMID: one more round than there are VMs. allocateVMID and freeReservedVMID run
-- through as many IDs as their ranges hold.
--
-- Not modelled: logging, the JSON and YAML files, HTTP and the scale set library, and the reading of
-- files with keys (PEM, secrets, the embedded keys) and of settings. What happens between two calls of
-- one operation to others is not interleaved: their calls meet only in the world's answers. Of the
-- installer, the gateway and controller VMs but for their VMIDs, the tuning itself and the checks before
-- an installation, the order of install's steps, what an uninstall does besides VMs, access and network,
-- how the status is printed, and the download of a newer parcon and its replacement on disk. Packages
-- hostsys, pvecli and term wrap the host's files, commands and terminal, and cmd/parcon is the command
-- line. Deadlines on a context enter as answers of the world.
pub mod Prelude
pub mod Proxmox
pub mod VmTags
pub mod Config
pub mod GitHub
pub mod Release
pub mod Settings
pub mod Controller
pub mod Installer
mod Examples
