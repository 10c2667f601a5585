-- ===== src/System.antt =====
-- The state that the kernel's handlers share: the devices behind the ports, the calls made of the
-- terminal so far, and the static variables of kernel/ata.c and kernel/filesystem.c.
use szym_os_kernel.Prelude.{List, ◌++◌}
use szym_os_kernel.Console.{Call}
use szym_os_kernel.Ata.State.{AtaState}
use szym_os_kernel.Filesystem.State.{FsState}

pub record System (Device : Type 0) : Type 0 where
  pub dev : Device
  pub console : List Call
  pub ata : AtaState
  pub fs : FsState

-- The calls are appended to the output.
abbrev pub say : {Device : Type 0} → List Call → System Device → System Device
say calls s = record s { console = s.console ++ calls }

abbrev pub with_dev : {Device : Type 0} → Device → System Device → System Device
with_dev d s = record s { dev = d }

abbrev pub with_fs : {Device : Type 0} → FsState → System Device → System Device
with_fs f s = record s { fs = f }
