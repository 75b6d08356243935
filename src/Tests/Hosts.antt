-- ===== src/Tests/Hosts.antt =====
-- Examples for the settings of a host and of its VMs.
use fc_qemu.Base.{
  ℕ, ◌*◌, ◌≡◌, ◌≢◌, ◌⊎◌, refl, true, false, none, List, [], ◌∷◌, Result, ok, In, Bool, ◌↔◌, map,
}
use fc_qemu.Util.Text.{Text, chars, same}
use fc_qemu.Util.Parse.{Dict, get}
use fc_qemu.Config.{Interface, Settings, network, sorted}
use fc_qemu.SysConfig.{network_hooks}
use fc_qemu.SysConfig.Hooks.{HasHooks, network-Formats}
use fc_qemu.Listing
use fc_qemu.Listing.{
  clean_run_files, shutdown_all, running_vms, vm_agents_for_host, choose, confirmed, insert_text,
  ends_with,
}
use fc_qemu.Enc.{Enc, Cfg, mib, gib, swap_size, tmp_size, find_template, update_from_enc}
use fc_qemu.Enc.Sizes.{IsSize, update_from_enc-IsSize}
use fc_qemu.Config.Template.{format}
use fc_qemu.Config.Template as Template
use fc_qemu.Listing.RunFiles.{file_of, clean_run_files-removes}
use fc_qemu.Listing.Names.{run_file}
use fc_qemu.Listing.Stops.{shutdown_all-stops}
use fc_qemu.Config.Words.{filter}
use fc_qemu.Util.Replace.{replace_from}

abbrev hook_items : Dict Text
hook_items =
    (chars "tap-ifup-bridge", chars "/etc/kvm/kvm-ifup")
    ∷ (chars "tap-ifdown-bridge", chars "/etc/kvm/kvm-ifdown")
    ∷ (chars "tap-ifup-vrf", chars "/etc/kvm/kvm-vrf-ifup")
    ∷ (chars "tap-ifdown-vrf", chars "/etc/kvm/kvm-vrf-ifdown")
    ∷ []

hook_items-HasHooks : HasHooks hook_items
unfolding get
hook_items-HasHooks = record {
  bridge_up = (_, refl);
  bridge_down = (_, refl);
  vrf_up = (_, refl);
  vrf_down = (_, refl);
}

abbrev agent : Settings
agent = record {
  accelerator = [];
  machine_type = chars "pc-i440fx";
  vhost = false;
  network_hooks = network_hooks hook_items;
  id = chars "1234";
}

abbrev interfaces : List Interface
interfaces =
    (record { net = chars "srv"; routed = true; mac = chars "02:00:00:03:6d:1f" })
    ∷ (record { net = chars "fe"; routed = false; mac = chars "02:00:00:02:6d:1f" })
    ∷ []

network-Formats_example : (t : Text) × (network agent (sorted interfaces) ≡ ok t)
network-Formats_example = network-Formats hook_items agent hook_items-HasHooks refl interfaces

abbrev names : List Text
names = chars "test00" ∷ chars "test01" ∷ []

abbrev look : Text → Result Bool
look name = ok (same name (chars "test01"))

only_test01 :
    shutdown_all (λ n. true) look true (chars "maybe" ∷ chars "yes" ∷ []) (map run_file names)
    ≡ ok (chars "test01" ∷ [])
unfolding shutdown_all running_vms vm_agents_for_host choose filter Listing.sorted insert_text
    ends_with replace_from
only_test01 = refl

shutdown_all-stops_example : In (chars "test01") (chars "test01" ∷ []) ↔ (
    ((In (chars "test01") names × (true ≡ true)) × (look (chars "test01") ≡ ok true))
    × (confirmed true (chars "maybe" ∷ chars "yes" ∷ []) ≡ ok true))
shutdown_all-stops_example =
    shutdown_all-stops (λ n. true) look true (chars "maybe" ∷ chars "yes" ∷ []) names
      (chars "test01" ∷ []) (chars "test01") ((refl, refl), ((refl, refl), tt)) only_test01

abbrev run_dir : List Text
run_dir =
    chars "qemu.test00.pid"
    ∷ chars "qemu.test00.lock"
    ∷ chars "qemu.test01.pid"
    ∷ chars "qemu.test01.lock"
    ∷ []

clean_run_files-removes_example :
    In (file_of (chars "test01") (chars "pid")) (clean_run_files (chars "test00") run_dir) ↔ (
      In (file_of (chars "test01") (chars "pid")) run_dir
      × ((chars "test01" ≢ chars "test00")
          ⊎ (ends_with (file_of (chars "test01") (chars "pid")) (chars ".lock") ≡ true)))
clean_run_files-removes_example =
    clean_run_files-removes (chars "test00") (chars "test01") (chars "pid") run_dir refl refl

abbrev enc : Enc
enc = record {
  name = chars "test00";
  disk = 30;
  memory = 2048;
  cpu_model = none;
  consul_generation = 7;
}

abbrev cfg : Cfg
cfg = record {
  name = chars "test00";
  root_size = 30 * gib;
  swap_size = swap_size 2048;
  tmp_size = tmp_size 30;
  cidata_size = 10 * mib;
  ceph_id = chars "admin";
  cpu_model = chars "qemu64";
  binary_generation = 1;
  consul_generation = 7;
  migration_ctl_address = chars "127.0.0.3:1234";
  vm_config_template = chars "/etc/qemu/qemu.vm.cfg.in";
}

abbrev cfg_texts : Dict Text
cfg_texts = (chars "id", chars "1234") ∷ []

abbrev templates : List Text
templates = chars "/etc/qemu/qemu.vm.cfg.in" ∷ chars "qemu.vm.cfg.in" ∷ []

cfg_computed :
    update_from_enc (chars "admin") 1 (chars "127.0.0.3:{id}") cfg_texts (λ t. true) templates enc
    ≡ ok cfg
unfolding update_from_enc format Template.render get find_template
cfg_computed = refl

update_from_enc-IsSize_example :
    ((s : ℕ) × ((cfg.swap_size ≡ s * mib) × IsSize 1024 (1024 * 2048) s))
    × ((s : ℕ) × ((cfg.tmp_size ≡ s * gib) × IsSize 5 30 s))
update_from_enc-IsSize_example =
    update_from_enc-IsSize (chars "admin") 1 (chars "127.0.0.3:{id}") cfg_texts (λ t. true)
      templates enc cfg cfg_computed
