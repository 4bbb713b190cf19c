-- ===== src/Config/InstallDefaults.antt =====
-- internal/config/defaults.go and config.go: what an install sets up when the user does not choose
-- otherwise, and the controller VM's files.
use proxmox_actions_runners.Prelude.{ℤ, pos, Text, codes}

abbrev pub scale_set_name : Text
scale_set_name = codes "proxmox-ubuntu-26.04"

abbrev pub min_runners : ℤ
min_runners = pos 0

abbrev pub max_runners : ℤ
max_runners = pos 1

abbrev pub storage : Text
storage = codes "local-lvm"

abbrev pub bridge : Text
bridge = codes "vmbr0"

abbrev pub worker_subnet : Text
worker_subnet = codes "10.251.0.0/22"

abbrev pub vmid_start : ℤ
vmid_start = pos 10000

abbrev pub vmid_end : ℤ
vmid_end = pos 10099

abbrev pub pool : Text
pool = codes "par-runners"

abbrev pub vnet : Text
vnet = codes "parnet"

abbrev pub token_id : Text
token_id = codes "par@pve!controller"

abbrev pub token_secret_file : Text
token_secret_file = codes "/etc/proxmox-actions-runners/pve-token"

abbrev pub app_key_file : Text
app_key_file = codes "/etc/proxmox-actions-runners/github-app.pem"

abbrev pub ca_cert_file : Text
ca_cert_file = codes "/etc/proxmox-actions-runners/pve-ca.pem"
