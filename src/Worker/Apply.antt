-- ===== src/Worker/Apply.antt =====
-- `applyVMConfigIfNeeded` and `syncFirewall` of internal/worker/worker.go.
use pve_manage.Prelude.{String, Bool, not, ◌&&◌, [], ◌∷◌, ◌++◌, if◌then◌else◌, is_nil}
use pve_manage.Prelude.Int.{ℤ, pos, eqb_ℤ, ltb_ℤ}
use pve_manage.Text.{Text, codes, text_eq, join, itoa}
use pve_manage.Json.{Object, get, as_string, string_from, int_from, bool_from, truthy, or_empty}
use pve_manage.Sql.{Exec, pure, ◌>>=◌, ◌>>◌}
use pve_manage.Tables.{Vm}
use pve_manage.Vmname.{prefixed, validate_pve}
use pve_manage.Config.{App, BridgeConfig, cluster_by_key}
use pve_manage.Api.Keys.{normalize_ssh_key_list}
use pve_manage.Client.{Values}
use pve_manage.Client.Firewall.{when}
use pve_manage.Worker.{World, local, call}
use pve_manage.Worker.Remote.{Pve}
use pve_manage.Worker.Net0.{rewrite_net0}
use pve_manage.Worker.Settings.{
  Libraries, desired_min_memory_mib, times_1024, normalize_boot_order, strict_percent_escape,
  canonical_ssh_keys_config_value, exact_ipv4_cidr, convert_rules, mark_password_synced,
  load_security_group_config, name_or_fail, from_except, uestc_of,
}

-- A text that is set where the configuration has another one.
abbrev pub text_param : Object → String → Text → Values
text_param cfg key wanted =
    when (not (text_eq (string_from cfg key []) wanted)) ((key, wanted) ∷ [])

abbrev pub int_param : Object → String → ℤ → Values
int_param cfg key wanted = when (not (eqb_ℤ (int_from cfg key) wanted)) ((key, itoa wanted) ∷ [])

module _ (vm : Vm) where
  abbrev pub password_changed : Bool
  password_changed = not (bool_from (or_empty vm.config) "password_synced")

  -- `fmt.Sprintf("ip=%s,gw=%s,ip6=auto", …)`
  abbrev pub ipconfig0 : BridgeConfig → Text
  ipconfig0 bridge =
      codes "ip=" ++ (vm.ip ++ (codes ",gw=" ++ (bridge.ipv4.gateway ++ codes ",ip6=auto")))

  abbrev pub boot_param : Object → Text → Values
  boot_param cfg order = when (not (is_nil order)) (text_param cfg "boot" order)

  abbrev pub balloon_param : Object → ℤ → Values
  balloon_param cfg memory =
      when (ltb_ℤ (pos 0) memory) (int_param cfg "balloon" (desired_min_memory_mib memory))

  -- The parameters before those of the keys and of the device.
  unfoldable pub base_params : Object → BridgeConfig → Object → Values
  base_params prefer bridge cfg =
      text_param cfg "name" (prefixed vm.owner_username vm.vmname)
      ++ (int_param cfg "cores" (int_from prefer "cpu_cores")
          ++ (int_param cfg "memory" (times_1024 (int_from prefer "memory_gb"))
              ++ (balloon_param cfg (times_1024 (int_from prefer "memory_gb"))
                  ++ (text_param cfg "ciuser" (codes "root")
                      ++ (when password_changed (("cipassword", vm.password) ∷ [])
                          ++ (text_param cfg "ipconfig0" (ipconfig0 bridge)
                              ++ (boot_param cfg
                                    (normalize_boot_order (string_from prefer "boot_order" []))
                                  ++ when (truthy (get "agent" cfg))
                                      (("agent", codes "0") ∷ []))))))))

  unfoldable pub key_params : Libraries → Text → Text → Values
  key_params libraries current desired =
      if text_eq current desired
      then []
      else if is_nil desired
      then ("delete", codes "sshkeys") ∷ []
      else ("sshkeys", strict_percent_escape libraries desired) ∷ []

  abbrev pub new_net0 : Text → Text → Values
  new_net0 current desired =
      when (not (is_nil desired) && not (text_eq current desired)) (("net0", desired) ∷ [])

  unfoldable pub net_params : Text → Text → Values
  net_params current bridge_key =
      if is_nil current
      then ("net0", codes "virtio,bridge=" ++ (bridge_key ++ codes ",firewall=1")) ∷ []
      else new_net0 current (rewrite_net0 current bridge_key)

module _ {P : Type 0} (app : App) (libraries : Libraries) (pve : Pve P) (vm : Vm) where
  -- Nothing is sent where nothing differs.
  abbrev pub send_params : Text → Values → Exec Text (World P) (Unit {0})
  send_params node params = if is_nil params then pure tt else do
    call (pve.set_vm_config vm.cluster_key node vm.vmid params)
    (if password_changed vm then local (mark_password_synced vm.id) else pure tt)

  -- `applyVMConfigIfNeeded`
  unfoldable pub apply_vm_config_if_needed :
      Object → Text → BridgeConfig → Object → Text → Exec Text (World P) (Unit {0})
  apply_vm_config_if_needed prefer bridge_key bridge cfg node = do
    name_or_fail (validate_pve (prefixed vm.owner_username vm.vmname))
    ssh_keys ← from_except (normalize_ssh_key_list libraries.parse_key vm.sshkeys)
    current ← from_except (canonical_ssh_keys_config_value libraries (string_from cfg "sshkeys" []))
    send_params node (
        base_params vm prefer bridge cfg
        ++ (key_params vm libraries current (join 10 ssh_keys)
            ++ net_params vm (as_string (get "net0" cfg)) bridge_key))

  -- `syncFirewall`
  unfoldable pub sync_firewall : Object → BridgeConfig → Text → Exec Text (World P) (Unit {0})
  sync_firewall prefer bridge node = do
    sg ← local (load_security_group_config vm.owner_username vm.security_group_name)
    let uestc = uestc_of (cluster_by_key app vm.cluster_key)
    call (
        pve.ensure_firewall vm.cluster_key node vm.vmid (record {
          user_group_name = [];
          policy_in = sg.policy_in;
          policy_out = sg.policy_out;
          rules = convert_rules sg.rules;
          ip_filter = exact_ipv4_cidr libraries vm.ip ∷ bridge.ipfilter;
          groups = when (bool_from prefer "uestc_restricted" && not (is_nil uestc)) (uestc ∷ []);
        }))
