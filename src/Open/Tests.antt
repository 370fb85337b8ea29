-- ===== src/Open/Tests.antt =====
-- A file is created by a wide name.
use magiskboot_build.Prelude.{some, [], ◌∷◌, ◌≡◌, refl}
use magiskboot_build.Sys.{ok, Post}
use magiskboot_build.Win.Proc.{call}
use magiskboot_build.Win.Example.{Opened, answers, dir_path, example_api, example_proc}
use magiskboot_build.Open.{wrap_open}
use magiskboot_build.Open.Wide.{wrap__open, CreateArgs, WideApi, wrap_create_file_w}
use magiskboot_build.Open.Laws.{wrap__open-wrap_create_file_w}

abbrev example_wide : WideApi Opened
example_wide = record {
  wide_to_multi_byte = λ chars len. answers (some (b'a' ∷ []));
  real_create_file_w = λ name args. answers (some 7);
}

abbrev create_new : CreateArgs
create_new = record {
  desired_access = 0;
  share_mode = 0;
  security_attributes = 0;
  creation_disposition = 1;
  flags_and_attributes = 0;
  template_file = 0;
}

wrap__open-wrap_create_file_w_example :
    (wrap__open example_api dir_path 1 7 example_proc
      ≡ wrap_open example_api dir_path 1 7 example_proc)
    × Post
        (λ r q.
          call (example_wide.real_create_file_w (some (b'a' ∷ [])) create_new) example_proc
          ≡ ok r q)
        (wrap_create_file_w example_wide (some (b'a' ∷ [])) create_new example_proc)
wrap__open-wrap_create_file_w_example =
    wrap__open-wrap_create_file_w example_api example_wide dir_path 1 7 (some (b'a' ∷ []))
      create_new example_proc (λ chars len s made e. refl)
