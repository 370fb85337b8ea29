-- ===== src/Stat/Defs/Tests.antt =====
-- The mode of a file on disk that is read-only.
use magiskboot_build.Prelude.{not, some}
use magiskboot_build.Win.Api.{FileInfo}
use magiskboot_build.Win.Example.{dir_info, dir_path}
use magiskboot_build.Stat.Defs.{on_disk, file_mode}
use magiskboot_build.Stat.Defs.Mode.{IsMode, type_bits, read_only, executable, file_mode-IsMode}

abbrev locked : FileInfo
locked = record dir_info { attributes = 1 }

file_mode-IsMode_example :
    IsMode
      (file_mode 1 locked (some dir_path))
      (type_bits 1 locked)
      (on_disk 1)
      (not (read_only locked))
      (executable 1 locked (some dir_path))
file_mode-IsMode_example = file_mode-IsMode 1 locked (some dir_path)
