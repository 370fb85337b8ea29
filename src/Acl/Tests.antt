-- ===== src/Acl/Tests.antt =====
-- A file that is read-only and to be archived becomes writable.
use magiskboot_build.Prelude.{ap, sym, ℕ, pos, ◌==◌, Bool, true, Option, some, refl, if◌then◌else◌}
use mathlib.Core.Option.{some-injective}
use magiskboot_build.Errno.{no_error}
use magiskboot_build.Sys.{Ext, Ensures}
use magiskboot_build.Win.Api.{Api, FileInfo}
use magiskboot_build.Win.Proc.{Proc}
use magiskboot_build.Win.Example.{api_over, dir_info, example_proc}
use magiskboot_build.Acl.{fchmod}
use magiskboot_build.Acl.Laws.{Attributes, Outcome, fchmod-Outcome}

-- The world is the attributes of the only file.
abbrev read_info : ℕ → Ext ℕ (Option FileInfo)
read_info h s = (some (record dir_info { attributes = s.world }), s)

abbrev write_attributes : (h a : ℕ) → Ext ℕ Bool
write_attributes h a s = (true, record s { world = if a == 0 then s.world else a })

abbrev one_file : Api ℕ
one_file = record (api_over (λ path w. w)) {
  get_file_information = read_info;
  set_file_attributes = write_attributes;
}

abbrev one_file-Attributes : Attributes one_file
one_file-Attributes = record {
  attrs = λ w h. w;
  handle_keeps = λ fd h s. refl;
  info_keeps = λ g h s. refl;
  info_reads = λ h s hfi e. ap (λ i. i.attributes) (some-injective _ _ (sym e));
  set_writes = λ h a s. refl;
}

abbrev file_proc : Proc ℕ
file_proc = record {
  sys = record { errno = no_error; last_error = 0; world = 0x21 };
  live = 0;
  cache = example_proc.cache;
}

fchmod-Outcome_example :
    Ensures (λ r q. Outcome 0x1a4 0x21 q.sys.world r) (fchmod one_file (pos 3) 0x1a4 file_proc)
fchmod-Outcome_example = fchmod-Outcome one_file-Attributes (pos 3) 0x1a4 3 file_proc refl
