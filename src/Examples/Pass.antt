-- ===== src/Examples/Pass.antt =====
-- The theorems on a pass of the worker and on its scan, at the sample tables.
use pve_manage.Prelude.{none, some, false, refl, [], ◌∷◌}
use pve_manage.Text.{codes, text_eq}
use pve_manage.Sql.{ok, query, exec, ◌>>=◌, ◌>>◌}
use pve_manage.Tables.{Db}
use pve_manage.Tasks.Sequence.{IsOrdered}
use pve_manage.Worker.Settings.{Libraries}
use pve_manage.Worker.Loop.{sync_once}
use pve_manage.Worker.Scan.{mark_each_deleted, mark_missing_unmanaged_vms_deleted}
use pve_manage.Worker.Swept.{IsSwept, mark_missing_unmanaged_vms_deleted-IsSwept}
use pve_manage.Worker.Pass.{sync_once-IsOrdered}
use pve_manage.Examples.{web, tables, session_of}
use pve_manage.Examples.Names.{app}
use pve_manage.Examples.Queue.{tables-IsOrdered}
use pve_manage.Examples.Remote.{pve, world}

-- Libraries that take every line for a key, and know no address.
abbrev pub libraries : Libraries
libraries = record {
  disk_mib = λ raw. 10240;
  parse_key = λ line. ok (line, []);
  query_escape = λ s. s;
  query_unescape = λ s. some s;
  cidr_ip = λ s. none;
  ip_text = λ s. some s;
}

sync_once-IsOrdered_example : IsOrdered (sync_once app libraries pve world).1.tables.db
sync_once-IsOrdered_example = sync_once-IsOrdered app libraries pve world tables-IsOrdered

-- One VM of the program, and one that Proxmox VE no longer has.
abbrev vanished : Db
vanished = record tables { vms = web ∷ record web { id = 8; vmid = 300; managed = false } ∷ [] }

mark_missing_unmanaged_vms_deleted-IsSwept_example :
    IsSwept
      (codes "main")
      (107 ∷ [])
      vanished
      (mark_missing_unmanaged_vms_deleted (codes "main") (107 ∷ []) 50 (session_of vanished)).1.db
unfolding mark_missing_unmanaged_vms_deleted mark_each_deleted query exec ◌>>=◌ ◌>>◌ text_eq
mark_missing_unmanaged_vms_deleted-IsSwept_example =
    mark_missing_unmanaged_vms_deleted-IsSwept (codes "main") (107 ∷ []) 50 (session_of vanished) tt
      refl
