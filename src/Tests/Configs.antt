-- ===== src/Tests/Configs.antt =====
-- Examples for the configuration of Qemu, the migration lock, the events of Consul and the CPU models.
use fc_qemu.Base.{
  ℕ, Bool, Option, ◌≡◌, refl, true, false, none, some, List, [], ◌∷◌, ◌++◌, ok, inl, inr, ◌⊎◌, In,
  ◌↔◌, ◌==◌, if◌then◌else◌,
}
use fc_qemu.Util.Text.{Text, pos, chars, same, split, push}
use fc_qemu.Util.Address.{decimal}
use fc_qemu.Util.Parse.{Dict, get}
use fc_qemu.Staging.{Config, missing, Store}
use fc_qemu.Config.{
  ◌>>=◌, format_all, local_settings, generate_args, adapt_memory, prepare_config, RunFiles,
  run_files, command, proc,
}
use fc_qemu.Config.Template.{format, render}
use fc_qemu.Config.Words.{words, is_blank}
use fc_qemu.Config.Memory.{Values, HasValues, generated, adapt_memory-generate_args}
use fc_qemu.Config.Process.{proc-prepare_config}
use fc_qemu.MigrationLock.{Host, acquire_migration_lock, acquires, Reach, here, next, idle}
use fc_qemu.MigrationLock.Exclusive.{Reach-exclusive}
use fc_qemu.Consul
use fc_qemu.Consul.{Value, configuration, snapshot_wanted, Event, handle_consul_event}
use fc_qemu.Consul.Covered.{Brings, Served, handle_consul_event-Served}
use fc_qemu.CpuScan.{amd_host, cpu_arg, new_variation, scan_cpus}
use fc_qemu.CpuScan.Variations.{Part, IsVariation, scan_cpus_complete}

abbrev values : Values
values = record {
  cpu_model = chars "qemu64-v1";
  name = chars "test00";
  serial_file = chars "/var/log/vm/test00.serial";
  memory = decimal 512;
}

abbrev settings : Dict Text
settings =
    (chars "cpu_model", values.cpu_model)
    ∷ (chars "name", values.name)
    ∷ (chars "serial_file", values.serial_file)
    ∷ (chars "memory", values.memory)
    ∷ (chars "chroot", chars "/srv/vm/test00")
    ∷ (chars "id", decimal 1234)
    ∷ (chars "pid_file", chars "/run/qemu.test00.pid")
    ∷ (chars "config_file", chars "/run/qemu.test00.cfg")
    ∷ []

settings-HasValues : HasValues settings values
unfolding get
settings-HasValues = record {
  has_cpu_model = refl;
  has_name = refl;
  has_serial_file = refl;
  has_memory = refl;
}

adapt_memory-generate_args_example :
    (generate_args settings >>= λ args. adapt_memory args (pos 1024)) ≡ ok (pos 512)
adapt_memory-generate_args_example =
    adapt_memory-generate_args settings values 512 (pos 1024) settings-HasValues refl

abbrev files : RunFiles
files =
    run_files (generated values) (chars "pidfile = {pidfile}")
      (chars "-nodefaults"
        ∷ chars "-only-migratable"
        ∷ chars "-cpu qemu64-v1,enforce"
        ∷ chars "-name test00,process=kvm.test00"
        ∷ chars "-chroot /srv/vm/test00"
        ∷ chars "-runas nobody"
        ∷ chars "-serial file:/var/log/vm/test00.serial"
        ∷ chars "-display vnc=host:1234"
        ∷ chars "-pidfile /run/qemu.test00.pid"
        ∷ chars "-vga std"
        ∷ chars "-m 512"
        ∷ chars "-readconfig /run/qemu.test00.cfg"
        ∷ [])
      (chars "pidfile = /run/qemu.test00.pid")

prepared :
    (generate_args settings >>= λ args.
    prepare_config (chars "20001") (chars "host:{id}") settings args (chars "pidfile = {pidfile}"))
    ≡ ok files
unfolding get generate_args prepare_config local_settings format_all format render decimal
prepared = refl

abbrev cmdline : List Text
cmdline = words is_blank (command (chars "qemu-system-x86_64") files.local_args [] (chars "test00"))

abbrev table : ℕ → Option (List Text)
table pid = if pid == 4711 then some cmdline else none

proc-prepare_config_example :
    proc values.name (some (decimal 4711 ++ b'\n' ∷ chars "11")) table ≡ some 4711
proc-prepare_config_example =
    proc-prepare_config settings values (chars "pidfile = {pidfile}") (chars "host:{id}")
      (chars "20001") (chars "qemu-system-x86_64") [] files 4711 (chars "11") table
      settings-HasValues (refl, refl) prepared refl

-- Process 1 has the lock, and process 2 asks for it.
abbrev one_has_it : Host
one_has_it = (acquire_migration_lock 1 idle).1

one_has_it-Reach : Reach one_has_it
one_has_it-Reach = next here (acquires 1 idle)

one_has_it_open : one_has_it.fd 1 ≡ true
unfolding acquire_migration_lock
one_has_it_open = refl

Reach-exclusive_example :
    ((one_has_it.fd 2 ≡ true) × ◌≡◌ {A = ℕ} 1 2)
    ⊎ ((one_has_it.fd 2 ≡ false) × ((acquire_migration_lock 2 one_has_it).0 ≡ ok false))
Reach-exclusive_example = Reach-exclusive one_has_it-Reach 1 2 one_has_it_open

abbrev ibpb_only : List Text
ibpb_only = chars "ibpb" ∷ []

abbrev epyc_accepted : Text → Bool
epyc_accepted arg = same arg (chars "EPYC-v1,ibpb,enforce")

scan_cpus_complete_example :
    In (new_variation (chars "EPYC-v1") ibpb_only) (scan_cpus epyc_accepted amd_host)
    ↔ IsVariation amd_host.cpu_models
        (λ fs. Part fs amd_host.bug_flags)
        (new_variation (chars "EPYC-v1") ibpb_only)
      × (epyc_accepted (cpu_arg (new_variation (chars "EPYC-v1") ibpb_only) ++ chars ",enforce")
          ≡ true)
scan_cpus_complete_example =
    scan_cpus_complete epyc_accepted amd_host (new_variation (chars "EPYC-v1") ibpb_only)

abbrev sent : Config
sent = record { generation = 3; content = 7 }

abbrev sent_event : Event
sent_event = record { key = chars "node/test00"; value = some (configuration 5 true sent) }

abbrev snapshot_event : Event
snapshot_event = record { key = chars "snapshot/abc"; value = some (snapshot_wanted 5 1) }

abbrev no_files : Store
no_files = record { staging = missing; active = missing; enc = none; generation = none }

abbrev fresh_host : Consul.Host
fresh_host = record { store = λ vm. no_files; ensured = []; snapped = [] }

sent_event-Brings : Brings 5 sent sent_event
unfolding split push
sent_event-Brings = record { value = refl; key = refl }

handle_consul_event-Served_example :
    Served 5 sent
      (handle_consul_event (λ vm. true) (λ vm. true) (snapshot_event ∷ sent_event ∷ []) fresh_host)
handle_consul_event-Served_example =
    handle_consul_event-Served (λ vm. true) (λ vm. true) 5 sent sent_event
      (snapshot_event ∷ sent_event ∷ []) fresh_host sent_event-Brings (inr (inl refl))
