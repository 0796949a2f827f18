-- ===== src/Worker/Snapshot.antt =====
-- What the inventory scan keeps of a VM's configuration: `unmanagedConfigSnapshot` of
-- internal/worker/worker.go with the readers of single settings.
use pve_manage.Prelude.{
  ℕ, ◌+◌, ◌/◌, ◌||◌, String, Option, none, some, List, [], ◌∷◌, ◌++◌, if◌then◌else◌, is_nil,
}
use pve_manage.Prelude.Int.{ℤ, pos, ltb_ℤ, pos_part}
use pve_manage.Text.{Text, codes, text_eq, trim_space, trim_prefix, has_prefix, to_lower, split}
use pve_manage.Json.{Object, str, num, string_from, int_from}
use pve_manage.Worker.Disks.{primary_disk_config, storage_key_from_disk}

-- The value of the first part that has the prefix, as the source trims it.
unfoldable pub setting_of : Text → List Text → Option Text
setting_of prefix [] = none
setting_of prefix (part ∷ parts) =
    let rest = setting_of prefix parts in
    let trimmed = trim_space part in
    if has_prefix trimmed prefix then some (trim_space (trim_prefix trimmed prefix)) else rest

abbrev pub or_nil : Option Text → Text
or_nil none = []
or_nil (some s) = s

-- `bridgeFromNet0`; 44 is the comma.
unfoldable pub bridge_from_net0 : Text → Text
bridge_from_net0 raw = or_nil (setting_of (codes "bridge=") (split 44 raw))

abbrev pub unless_dynamic : Text → Text
unless_dynamic value =
    if is_nil value
      || text_eq (to_lower value) (codes "dhcp")
      || text_eq (to_lower value) (codes "auto")
    then []
    else value

-- `ipv4FromIPConfig`
unfoldable pub ipv4_from_ip_config : Text → Text
ipv4_from_ip_config raw = unless_dynamic (or_nil (setting_of (codes "ip=") (split 44 raw)))

-- An entry of the snapshot, where there is something to keep.
abbrev pub text_entry : String → Text → Object
text_entry key value = if is_nil value then [] else (key, str value) ∷ []

abbrev pub num_entry : String → ℤ → ℤ → Object
num_entry key wanted value = if ltb_ℤ (pos 0) wanted then (key, num value) ∷ [] else []

-- `int(math.Ceil(float64(n) / 1024))`, which is exact for the sizes of a VM.
abbrev pub in_gib : ℤ → ℤ
in_gib n = pos ((pos_part n + 1023) / 1024)

module _ (disk_mib : Text → ℕ) where
  abbrev pub disk_entries : Text × Text → Object
  disk_entries (key, raw) =
      if is_nil key
      then []
      else ("primary_disk_key", str key)
        ∷ (text_entry "storage_key" (storage_key_from_disk raw)
            ++ (num_entry "primary_disk_mib" (pos (disk_mib raw)) (pos (disk_mib raw))
                ++ num_entry "disk_gb_current" (pos (disk_mib raw)) (in_gib (pos (disk_mib raw)))))

  -- `unmanagedConfigSnapshot`
  unfoldable pub unmanaged_config_snapshot : Object → Object
  unmanaged_config_snapshot cfg =
      text_entry "pve_cpu" (string_from cfg "cpu" [])
      ++ (num_entry "cpu_cores" (int_from cfg "cores") (int_from cfg "cores")
          ++ (num_entry "memory_gb" (int_from cfg "memory") (in_gib (int_from cfg "memory"))
              ++ (text_entry "boot_order" (string_from cfg "boot" [])
                  ++ (disk_entries (primary_disk_config cfg)
                      ++ (text_entry "bridge_key" (bridge_from_net0 (string_from cfg "net0" []))
                          ++ text_entry "ip"
                              (ipv4_from_ip_config (string_from cfg "ipconfig0" [])))))))
