-- ===== src/Config.antt =====
-- The arguments and the configuration of Qemu: `generate_config` of agent.py, `prepare_config`,
-- `get_running_config`, the command of `_start`, `proc` and `detect_current_machine_type` of
-- hazmat/qemu.py, and what `prepare_incoming` of incoming.py reads in the arguments.
pub mod Template
pub mod Bind
pub mod Words
pub mod Memory
pub mod Process
pub mod Screen
use fc_qemu.Base.{
  ℕ, Bool, true, false, not, Option, none, some, List, [], ◌∷◌, ◌++◌, Result, ok, err, stuck, any,
  ltb, key_error, index_error, value_error, ◌==◌, if◌then◌else◌,
}
use fc_qemu.Util.Text.{
  Text, ℤ, pos, negsuc, chars, same, starts_with, splitlines, split, int, is_space,
}
use fc_qemu.Util.Address.{decimal}
use fc_qemu.Util.Parse.{Dict, get}
use fc_qemu.Config.Template.{format}
use fc_qemu.Config.Words.{words, join, is_blank, filter, text_le}

infixl 5 ◌>>=◌
abbrev pub ◌>>=◌ : {A B : Type 0} → Result A → (A → Result B) → Result B
ok a >>= f = f a
err e >>= f = err e
stuck >>= f = stuck

-- `d[k]`
abbrev pub at : Text → Dict Text → Result Text
at k d = elim (get k d) [ none ↦ err key_error | some v ↦ ok v ]

unfoldable pub format_all : List Text → Dict Text → Result (List Text)
format_all [] d = ok []
format_all (t ∷ ts) d = format t d >>= λ s. format_all ts d >>= λ ss. ok (s ∷ ss)

abbrev pub arg_templates : List Text
arg_templates =
    chars "-nodefaults"
    ∷ chars "-only-migratable"
    ∷ chars "-cpu {cpu_model},enforce"
    ∷ chars "-name {name},process=kvm.{name}"
    ∷ chars "-chroot {{chroot}}"
    ∷ chars "-runas nobody"
    ∷ chars "-serial file:{serial_file}"
    ∷ chars "-display vnc={{vnc}}"
    ∷ chars "-pidfile {{pidfile}}"
    ∷ chars "-vga std"
    ∷ chars "-m {memory}"
    ∷ chars "-readconfig {{configfile}}"
    ∷ []

unfoldable pub generate_args : Dict Text → Result (List Text)
generate_args cfg = format_all arg_templates cfg

-- One of the VM's `interfaces`, under the name of its network.
pub record Interface : Type 0 where
  pub net : Text
  pub routed : Bool
  pub mac : Text

-- `sorted` by the names of the networks.
unfoldable pub insert_interface : Interface → List Interface → List Interface
insert_interface i [] = i ∷ []
insert_interface i (j ∷ js) =
    let rest = insert_interface i js in if text_le i.net j.net then i ∷ j ∷ js else j ∷ rest

unfoldable pub sorted : List Interface → List Interface
sorted [] = []
sorted (i ∷ is) = insert_interface i (sorted is)

abbrev pub net_template : Text
net_template =
    chars
      "\n[device]\n  driver = \"virtio-net-pci\"\n  netdev = \"{ifname}\"\n  mac = \"{mac}\"\n\n[netdev \"{ifname}\"]\n  type = \"tap\"\n  ifname = \"{ifname}\"\n  script = \"{ifup}\"\n  downscript = \"{ifdown}\"\n{vhost}\n"

-- Settings of the agent. The VM's number is a text, as it is written.
pub record Settings : Type 0 where
  pub accelerator : Text
  pub machine_type : Text
  pub vhost : Bool
  pub network_hooks : Dict Text
  pub id : Text

unfoldable pub netconfig : Settings → Interface → Result Text
netconfig agent i =
    let kind = if i.routed then chars "vrf" else chars "bridge" in
    let ifname = b't' ∷ i.net ++ agent.id in
    at (chars "ifup-" ++ kind) agent.network_hooks >>= λ ifup.
    at (chars "ifdown-" ++ kind) agent.network_hooks >>= λ ifdown. format net_template (
      (chars "ifname", ifname)
      ∷ (chars "mac", i.mac)
      ∷ (chars "vhost", if agent.vhost then chars "  vhost = \"on\"" else [])
      ∷ (chars "ifup", ifup)
      ∷ (chars "ifdown", ifdown)
      ∷ [])

unfoldable pub network : Settings → List Interface → Result Text
network agent [] = ok []
network agent (i ∷ is) = netconfig agent i >>= λ s. network agent is >>= λ rest. ok (s ++ rest)

abbrev pub first_word : List Text → Result Text
first_word [] = err index_error
first_word (w ∷ ws) = ok w

-- The loop over the lines of `qemu -machine help`.
unfoldable pub find_machine_type : Text → List Text → Result Text
find_machine_type prefix [] = err key_error
find_machine_type prefix (line ∷ lines) =
    let rest = find_machine_type prefix lines in
    if starts_with line prefix then first_word (words is_space line) else rest

unfoldable pub detect_current_machine_type : Text → Text → Result Text
detect_current_machine_type prefix output = find_machine_type prefix (splitlines output)

-- `generate_config`, with the text of the template and the output of Qemu. `cfg` has the names of the
-- volumes, too, under the fields that the template has for them.
unfoldable pub generate_config :
    Settings → Dict Text → List Interface → Text → Text → Result (List Text × Text)
generate_config agent cfg interfaces template output = generate_args cfg >>= λ args.
    network agent (sorted interfaces) >>= λ net.
    detect_current_machine_type agent.machine_type output >>= λ machine_type.
    format template (
      (
        chars "accelerator",
        elim agent.accelerator [
          | [] ↦ []
          | _ ↦ chars "  accel = \"" ++ agent.accelerator ++ chars "\""
        ],
      )
      ∷ (chars "machine_type", machine_type)
      ∷ (chars "network", net)
      ∷ cfg)
    >>= λ config. ok (args, config)

-- The files of a VM under /run, of which `arg_file_in` holds a list, and the attribute `local_args`.
pub record RunFiles : Type 0 where
  pub config_file_in : Text
  pub config_file : Text
  pub arg_file_in : List Text
  pub pid_file : Text
  pub local_args : List Text

-- What the names in double braces stand for, where `vnc` is the template of the address.
unfoldable pub local_settings : Text → Text → Dict Text → Result (Dict Text)
local_settings monitor_port vnc cfg = format vnc cfg >>= λ local_vnc.
    at (chars "pid_file") cfg >>= λ pid_file. at (chars "config_file") cfg >>= λ config_file. ok (
      (chars "monitor_port", monitor_port)
      ∷ (chars "vnc", local_vnc)
      ∷ (chars "pidfile", pid_file)
      ∷ (chars "configfile", config_file)
      ∷ cfg)

abbrev pub run_files : List Text → Text → List Text → Text → RunFiles
run_files args config local_args local_config = record {
  config_file_in = config;
  config_file = local_config;
  arg_file_in = args;
  pid_file = [];
  local_args = local_args;
}

unfoldable pub prepare_config : Text → Text → Dict Text → List Text → Text → Result RunFiles
prepare_config monitor_port vnc cfg args config = local_settings monitor_port vnc cfg >>= λ d.
    format_all args d >>= λ local_args.
    format config d >>= λ local_config. ok (run_files args config local_args local_config)

unfoldable pub get_running_config : RunFiles → List Text × Text
get_running_config files = (files.arg_file_in, files.config_file_in)

-- The command that `_start` runs.
unfoldable pub command : Text → List Text → List Text → Text → Text
command executable local_args additional_args name =
    let args = local_args ++ additional_args in
    let kept = filter (λ x. not (same x (chars "-daemonize"))) args in
    let logged = filter (λ x. not (starts_with x (chars "-D "))) kept in
    join
      (executable ∷ logged ++ (chars "-D /var/log/vm/" ++ name ++ chars ".qemu.internal.log") ∷ [])

abbrev pub marker : Text → Text
marker name = name ++ (chars ",process=kvm." ++ name)

-- The first line of a file, which is the only one that `proc` looks at.
unfoldable pub first_line : Text → Text
first_line [] = []
first_line (c ∷ s) = let rest = first_line s in if c == 10 then [] else c ∷ rest

abbrev pub pid_in : Option ℤ → Option ℕ
pid_in (some (pos pid)) = some pid
pid_in (some (negsuc n)) = none
pid_in none = none

-- `proc`: the text of the PID file, if there is one, and the command lines of the processes.
unfoldable pub proc : Text → Option Text → (ℕ → Option (List Text)) → Option ℕ
proc name none table = none
proc name (some text) table = elim (pid_in (int (first_line text))) [
  | none ↦ none
  | some pid ↦ elim (table pid) [
    | none ↦ none
    | some cmdline ↦ if any (same (marker name)) cmdline then some pid else none
  ]
]

-- The loop of `prepare_incoming` over the arguments, which adapts the memory.
abbrev pub second_int : List Text → Result ℤ
second_int (a ∷ b ∷ more) = elim (int b) [ none ↦ err value_error | some n ↦ ok n ]
second_int _ = err index_error

unfoldable pub adapt_memory : List Text → ℤ → Result ℤ
adapt_memory [] memory = ok memory
adapt_memory (arg ∷ args) memory = elim (starts_with arg (chars "-m ")) [
  | true ↦ second_int (split b' ' arg) >>= λ n. adapt_memory args n
  | false ↦ adapt_memory args memory
]
