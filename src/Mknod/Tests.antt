-- ===== src/Mknod/Tests.antt =====
-- The device number 8:1.
use magiskboot_build.Prelude.{◌%◌, ◌^◌, ◌<◌, ◌≡◌, arith}
use magiskboot_build.Mknod.{makedev, major, minor}
use magiskboot_build.Mknod.Laws.{makedev-major}

makedev-major_example :
    (major (makedev 8 65537) ≡ 8 % 65536)
    × (minor (makedev 8 65537) ≡ 65537 % 65536)
    × (makedev 8 65537 < 2 ^ 32)
    × (makedev (major 0x80001) (minor 0x80001) ≡ 0x80001)
makedev-major_example = makedev-major 8 65537 0x80001 (omega arith)
