-- ===== src/Tests/Utilities.antt =====
-- Examples for util.py, the command line and the supervisor.
use fc_qemu.Base.{ℕ, ◌≡◌, refl, true, none, some, List, ◌++◌, if◌then◌else◌, ◌==◌, arith}
use fc_qemu.World.{pure}
use fc_qemu.Util.Text.{chars}
use fc_qemu.Util.Files.{File, Disk, line_end, conditional_update}
use fc_qemu.Util.Files.Contents.{contents, write, Fresh, conditional_update-writes}
use fc_qemu.Command.{main}
use fc_qemu.Command.Codes.{expected, body, main-expected}
use fc_qemu.Supervise.{run_supervised}
use fc_qemu.Supervise.Tries.{Stops, runs, run_supervised-Stops}
use fc_qemu.Tests.{idle}

abbrev exported : List ℕ
exported = chars "UUID=1\nTYPE=ext4\nTYPE='xfs'\n"

abbrev old_file : File
old_file = record { content = chars "old\n"; mtime = 3 }

abbrev old_disk : Disk
old_disk n = if n == 0 then some old_file else none

old_disk-Fresh : Fresh 5 9 0 old_disk
old_disk-Fresh = record { unused = refl; older = λ f e. ground (arith, e); other = refl }

conditional_update-writes_example :
    contents (conditional_update true 5 9 0 (chars "new") old_disk).1 0
    ≡ write 0 (chars "new" ++ line_end) (contents old_disk) 0
conditional_update-writes_example =
    conditional_update-writes 5 9 0 (chars "new") old_disk old_disk-Fresh 0

main-expected_example :
    (main none (pure tt) true (pure tt) (pure tt) (pure (some 75)) idle).0
    ≡ expected none (body (pure tt) true (pure tt) (pure tt) (pure (some 75)) idle).0
main-expected_example = main-expected none (pure tt) true (pure tt) (pure tt) (pure (some 75)) idle

abbrev codes : ℕ → ℕ
codes n = if n == 2 then 0 else 75

run_supervised-Stops_example : Stops 12 0 (runs (run_supervised 1 codes)) codes
run_supervised-Stops_example = run_supervised-Stops 1 codes
