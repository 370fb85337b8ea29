-- ===== src/Link/Read/Tests.antt =====
-- A link to "ab" is read, on the system of Win/Example.
use magiskboot_build.Prelude.{false, negsuc, some, [], ◌∷◌, ◌≡◌, refl}
use magiskboot_build.Sys.{ok, Post}
use magiskboot_build.Win.Api.{Api, Reparse}
use magiskboot_build.Win.Proc.{steps}
use magiskboot_build.Win.Example.{Opened, answers, dir_path, example_api, example_proc}
use magiskboot_build.Fd.Open.{open_symlink_fd, open_handle_fd}
use magiskboot_build.Link.Read.{
  io_reparse_tag_symlink, reparse_name, convert_name, convert, read_reparse, readlink,
}
use magiskboot_build.Link.Read.Target.{Read, closes_by, readlink-Read}

abbrev link_data : Reparse
link_data = record {
  tag = io_reparse_tag_symlink;
  print_name_offset = 0;
  print_name_length = 2;
  substitute_name_offset = 0;
  substitute_name_length = 0;
  path_buffer = b'a' ∷ b'b' ∷ [];
}

abbrev link_api : Api Opened
link_api = record example_api {
  get_osfhandle = λ fd. answers (some 3);
  get_reparse_point = λ h. answers (some link_data);
  wide_to_multi_byte = λ wide chars len. answers (some (b'a' ∷ b'b' ∷ 0 ∷ []));
}

two_bytes :
    readlink link_api false dir_path 10 example_proc
    ≡ ok (some (2, b'a' ∷ b'b' ∷ 0 ∷ [])) example_proc
unfolding readlink read_reparse convert convert_name reparse_name open_symlink_fd open_handle_fd
    steps
two_bytes = refl

readlink-Read_example :
    Post (λ r q. Read link_api 10 r) (readlink link_api false dir_path 10 example_proc)
    × (readlink (closes_by link_api (λ fd. answers (negsuc 0))) false dir_path 10 example_proc
        ≡ readlink link_api false dir_path 10 example_proc)
readlink-Read_example =
    readlink-Read link_api 10 (λ fd. answers (negsuc 0)) false dir_path example_proc
      (λ fd s o n. (3, refl))
