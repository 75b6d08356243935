-- ===== src/Lib.antt =====
-- A model of fc.qemu, which runs the virtual machines of a host: one agent process per command, which
-- locks the VM's Ceph volumes, starts, stops and migrates Qemu processes, and registers them with
-- Consul. Paths are from the root of the repository.
--
-- The parts, and the files that model them:
--   Base       shared types and lemmas, and the exceptions of src/fc/qemu/exc.py.
--   World      what a command does, as calls to the outside with their replies. `World/State` has the
--              events, the surroundings (`Env`), the attributes of the process (`World`) and the
--              monad; `World/Calls` the calls; `World/Triples` pre- and postconditions;
--              `World/Effects` which calls an action makes.
--   Timeout    src/fc/qemu/timeout.py and the loops over a TimeOut.
--   Util       src/fc/qemu/util.py: addresses, exports, key files, the services of Consul, files.
--   Config     the arguments and the configuration of Qemu: `generate_config` of src/fc/qemu/agent.py,
--              `prepare_config`, `proc` and the command of `_start` of src/fc/qemu/hazmat/qemu.py, and
--              what src/fc/qemu/incoming.py reads in them and screens (`Config/Screen`).
--   Enc        the settings of a VM: `_update_from_enc` of src/fc/qemu/agent.py.
--   SysConfig  the settings of a host: src/fc/qemu/sysconfig.py.
--   MigrationLock  the migration lock of src/fc/qemu/hazmat/qemu.py, with the steps of any number of
--              processes.
--   Consul     the handlers of Consul's events: src/fc/qemu/agent.py.
--   CpuScan    src/fc/qemu/hazmat/cpuscan.py and `report_supported_cpu_models`.
--   Logging    src/fc/qemu/logging.py.
--   Listing    the VMs of a host, `ls` and `shutdown_all` of src/fc/qemu/agent.py, and the run files of
--              src/fc/qemu/hazmat/qemu.py.
--   Command    the exit codes of src/fc/qemu/main.py.
--   Supervise  src/fc/qemu/hazmat/supervise.py.
--   Volume     the locks of a volume, its device and mount point (`Volume/Device`), its size and
--              snapshots (`Volume/Size`): src/fc/qemu/hazmat/libceph.py (Image) and
--              src/fc/qemu/hazmat/volume.py (Volume).
--   Ceph       the locks of all volumes of a VM, where its images are (`Ceph/Pools`), and its disks
--              (`Ceph/Specs`): src/fc/qemu/hazmat/ceph.py.
--   Qemu       the process and the monitor, and the start of a VM (`Qemu/Start`):
--              src/fc/qemu/hazmat/qemu.py (Qemu).
--   Agent      the commands: src/fc/qemu/agent.py (Agent, `locked`, `running`), with `status`
--              (`Agent/Status`).
--   Guest      the agent in the guest: src/fc/qemu/hazmat/guestagent.py, and `freeze`, `thaw`,
--              `write_file`, `exec` of src/fc/qemu/hazmat/qemu.py.
--   Snapshot   `frozen_vm` and `snapshot` of src/fc/qemu/agent.py.
--   Ensure     `ensure_` of src/fc/qemu/agent.py and its steps.
--   Outgoing   the sending side of a migration: src/fc/qemu/outgoing.py.
--   Cookie     `auth_cookie` of src/fc/qemu/hazmat/ceph.py.
--   Heartbeat  class Heartbeat of src/fc/qemu/outgoing.py.
--   Incoming   the receiving side of a migration: src/fc/qemu/incoming.py.
--   Maintenance  `maintenance_enter` and `maintenance_leave` of src/fc/qemu/agent.py.
--   Staging    new configurations and the loop of `ensure`: src/fc/qemu/agent.py.
--   Memory     `_verify_memory` of src/fc/qemu/hazmat/qemu.py and `check` of src/fc/qemu/agent.py.
--   Throttle   `ensure_online_disk_throttle` of src/fc/qemu/agent.py.
--   Routes     `ensure_online_host_routes` of src/fc/qemu/agent.py.
--   Tests      examples.
-- The agent uses Ceph and Qemu, Ceph uses Volume, Outgoing and Incoming use all of them, and Ensure
-- uses those.
--
-- How state and operations correspond: an operation is an `Action`, a function from the state of the
-- process to a result and a new state. The state has the trace of all calls so far with their replies,
-- newest first, and the attributes that the operations read. The surroundings answer a call by any
-- function of the trace, so other hosts and the VM itself may act between any two calls. Names of
-- hosts, images and locks are numbers, since the code only compares them; times are milliseconds.
-- Operations have the names of the code, without leading underscores; `destroy_vm` is
-- `Agent._destroy`, `shut_down` the body of `Agent.stop`, `run_outgoing` is `Outgoing.__call__`.
-- What only works on values (Util, Config, Enc, SysConfig, Consul, CpuScan, Logging, Listing, Cookie,
-- Heartbeat, Staging, Memory, Throttle, Routes) is a function of these values, with the replies of
-- programs and files as arguments.
--
-- Fuel: a loop over a TimeOut gets `fuel_for duration interval` rounds, the number of intervals that
-- fit into the duration and three more; that is enough where the clock goes on while the process
-- sleeps. The loops whose timeout the body changes (for the migration locks, the status of a
-- migration, and the server of an incoming one) take their fuel as a parameter; what is said of them
-- holds for each amount. `ensure` takes a list of rounds. The wait for the device of a mapped image,
-- which has no timeout, also takes its fuel as a parameter.
--
-- Texts are lists of ASCII characters.
--
-- Not modelled: the texts that are seeded into disks; the parsing of arguments by argparse and of
-- configuration files by configparser, of which the sections are given; daemonize; the directory's
-- remote procedures. src/fc/qemu/hazmat/qmp.py is a copy of Qemu's library. Ceph, Qemu, Consul, the
-- kernel, the guest and the other host are known by their replies only. `str.format`, `str.replace` and
-- the patterns of `re` are modelled as far as the code uses them.
pub mod Base
pub mod World
pub mod Timeout
pub mod Volume
pub mod Ceph
pub mod Qemu
pub mod Agent
pub mod Snapshot
pub mod Staging
pub mod Outgoing
pub mod Memory
pub mod Throttle
pub mod Routes
pub mod Tests
pub mod Incoming
pub mod Maintenance
pub mod Util
pub mod Config
pub mod MigrationLock
pub mod Consul
pub mod CpuScan
pub mod SysConfig
pub mod Logging
pub mod Listing
pub mod Cookie
pub mod Enc
pub mod Heartbeat
pub mod Command
pub mod Supervise
pub mod Ensure
pub mod Guest
