-- ===== src/Examples/Provisioning.antt =====
-- The theorem on the network device of a VM, at a device with another bridge and no firewall.
use pve_manage.Prelude.{◌≡◌, refl}
use pve_manage.Text.{Text, codes, split}
use pve_manage.Worker.Net0.{rewrite_net0}
use pve_manage.Worker.Rewritten.{IsRewritten, rewrite_net0_done}

abbrev device : Text
device = codes "virtio=BC:24:11:00:00:01,bridge=vmbr0,firewall=0"

abbrev rewritten : Text
rewritten = rewrite_net0 device (codes "vmbr7")

rewrite_net0_done_example :
    IsRewritten (codes "vmbr7") (split 44 device) (split 44 rewritten)
    × (rewrite_net0 rewritten (codes "vmbr7") ≡ rewritten)
rewrite_net0_done_example = rewrite_net0_done (codes "vmbr7") device (λ e. cc) refl
