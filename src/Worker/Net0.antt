-- ===== src/Worker/Net0.antt =====
-- The first network device of a VM: `rewriteNet0` of internal/worker/worker.go.
use pve_manage.Prelude.{Bool, true, false, List, [], ◌∷◌, ◌++◌, map, any, if◌then◌else◌}
use pve_manage.Text.{Text, codes, has_prefix, split, join}

abbrev pub bridge_part : Text → Text
bridge_part bridge = codes "bridge=" ++ bridge

abbrev pub is_bridge : Text → Bool
is_bridge part = has_prefix part (codes "bridge=")

abbrev pub is_firewall : Text → Bool
is_firewall part = has_prefix part (codes "firewall=")

-- The loop's body at one part.
abbrev pub rewrite_part : Text → Text → Text
rewrite_part bridge part =
    if is_firewall part
    then codes "firewall=1"
    else if is_bridge part
    then bridge_part bridge
    else part

abbrev pub unless_seen : Bool → Text → List Text
unless_seen true part = []
unless_seen false part = part ∷ []

unfoldable pub rewrite_parts : Text → List Text → List Text
rewrite_parts bridge parts =
    map (rewrite_part bridge) parts
    ++ (unless_seen (any is_bridge parts) (bridge_part bridge)
        ++ unless_seen (any is_firewall parts) (codes "firewall=1"))

-- `rewriteNet0`
unfoldable pub rewrite_net0 : Text → Text → Text
rewrite_net0 [] bridge = []
rewrite_net0 (c ∷ s) bridge = join 44 (rewrite_parts bridge (split 44 (c ∷ s)))
