-- ===== src/Client.antt =====
-- The Proxmox client: internal/pve. Its one call of the HTTP API, `request` of
-- internal/pve/client.go, is the parameter `request`: the key of the cluster, the method, the path
-- and the parameters. What a GET yields is a list of JSON objects.
pub mod Firewall
pub mod Ipset
pub mod Steps
pub mod Loops
pub mod Forms
pub mod Converged
pub mod Ensured
pub mod Cleared
use pve_manage.Prelude.{String, List}
use pve_manage.Text.{Text}
use pve_manage.Json.{Object}
use pve_manage.Sql.{Exec}

pub data Method : Type 0 where
  get post put delete : Method

-- `url.Values`, each name with one value.
abbrev pub Values : Type 0
Values = List (String × Text)

abbrev pub Requests : Type 0 → Type 0
Requests P = Text → Method → Text → Values → Exec Text P (List Object)
