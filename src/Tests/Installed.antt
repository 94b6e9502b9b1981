-- ===== src/Tests/Installed.antt =====
-- The service on a host that is its files, and whose service manager fails at everything.
use leshy.Prelude.{
  ◌≡◌, refl, Option, none, some, [], arith, nat_eq, list_eq, ◌==◌, beq_refl, if◌then◌else◌, true,
  false,
}
use leshy.Prelude.HashMap.{is_some}
use leshy.Prelude.Results.{ok, Result}
use leshy.Prelude.Text.{Str, codes, contains, starts_with}
use leshy.Service
use leshy.Service.Platform
use leshy.Main.Commands.{
  Cli, ServiceAction, install_service, uninstall_service, service, MainError, Ended, main, ended,
  main-services,
}
use leshy.Tests.Fixtures.{lower, plain, table_adder, entries, no_v6, files}
use leshy.Tests.Answers.{hickory}
use leshy.Tests.Loading.{fs, toml}
use leshy.Tests.Running.{binds}
use leshy.Service.{Host, Done, ServiceError, not_written}
use leshy.Service.Linux
use leshy.Service.Macos
use leshy.Service.Platform.{
  linux, macos, default_name, default_config, unwrap_or, install, uninstall,
}
use leshy.Service.Platform.Files.{
  HasFile, Written, service_path, service_text, install-Written, uninstall-Removed,
}

abbrev Disk : Type 0
Disk = Str → Option Str

abbrev host : Host Disk
host = record {
  write = λ h path text. (λ p. if p == path then some text else h p, ok tt);
  remove_file = λ h path. (λ p. if p == path then none else h p, ok tt);
  exists = λ h path. is_some (h path);
  status = λ h program args. (h, ok false);
}

host-HasFile : (path : Str) → HasFile host path (λ h. h path)
host-HasFile path =
    let t = beq_refl path in
    record {
      writes = λ h text done. rw t refl;
      removes = λ h done. rw t refl;
      sees = λ h. refl;
      runs = λ h program args. refl;
    }

install-Written_applied :
    Written host
      (service_path linux (unwrap_or (some (codes "l")) default_name))
      (λ h. h (service_path linux (unwrap_or (some (codes "l")) default_name)))
      (host-HasFile (service_path linux (unwrap_or (some (codes "l")) default_name)))
      (service_text linux
        (unwrap_or (some (codes "l")) default_name)
        (codes "/b")
        (unwrap_or none default_config))
      (install host linux (codes "/b") (λ p. none) (some (codes "l")) none)
install-Written_applied =
    install-Written host linux (codes "/b") (λ p. none) (some (codes "l")) none
      (λ h. h (service_path linux (unwrap_or (some (codes "l")) default_name)))
      (λ e. absurd (ground arith))
      (host-HasFile (service_path linux (unwrap_or (some (codes "l")) default_name)))

uninstall-Removed_applied :
    (uninstall host macos (λ p. some []) none).0 (service_path macos (unwrap_or none default_name))
    ≡ none
unfolding uninstall Macos.uninstall Service.must_remove
uninstall-Removed_applied =
    uninstall-Removed host macos (λ p. some []) none
      (λ h. h (service_path macos (unwrap_or none default_name))) (λ e. absurd (ground arith))
      (host-HasFile (service_path macos (unwrap_or none default_name))) refl

-- the tests of src/service
texts :
    (contains
        (codes "Description=leshy-corp")
        (Linux.generate_unit (codes "leshy-corp") (codes "/b") (codes "/c"))
      ≡ true)
    × (contains
          (codes "ExecStart=/b /c")
          (Linux.generate_unit (codes "leshy") (codes "/b") (codes "/c"))
        ≡ true)
    × (contains
          (codes "com.leshy-corp.server")
          (Macos.generate_plist (codes "leshy-corp") (codes "/b") (codes "/c"))
        ≡ true)
    × (contains
          (codes "<string>/b</string>")
          (Macos.generate_plist (codes "leshy") (codes "/b") (codes "/c"))
        ≡ true)
unfolding contains starts_with Linux.generate_unit Linux.lines Macos.generate_plist
    Macos.plist_label
texts = (refl, refl, refl, refl)

-- With commands that work.
abbrev working : Host Disk
working = record host { status = λ h program args. (h, ok true) }

working-HasFile : (path : Str) → HasFile working path (λ h. h path)
working-HasFile path =
    let laws = host-HasFile path in
    record {
      writes = laws.writes;
      removes = laws.removes;
      sees = laws.sees;
      runs = λ h program args. refl;
    }

abbrev run_main :
    Cli
    → Disk
    → Disk
      × Result
          (Ended lower plain hickory table_adder entries no_v6 working linux
            (codes "/b")
            fs
            toml
            files
            (ok (λ key. none))
            binds
            none)
          MainError
run_main =
    main lower plain hickory table_adder entries no_v6 working linux (codes "/b") fs toml files
      (ok (λ key. none)) binds none

abbrev for_service : ServiceAction → Cli
for_service action = record { config = none; command = some (service action) }

abbrev unit_of_l : Disk → Option Str
unit_of_l disk = disk (service_path linux (codes "l"))

abbrev with_unit : Disk
with_unit = (run_main (for_service (install_service (codes "/c") (codes "l"))) (λ p. none)).0

main-services_example :
    (unit_of_l with_unit ≡ some (service_text linux (codes "l") (codes "/b") (codes "/c")))
    × (unit_of_l (run_main (for_service (uninstall_service (codes "l"))) with_unit).0 ≡ none)
unfolding main ended Platform.install Platform.uninstall Linux.install Linux.uninstall
    Service.must_write Service.must_run Service.◌then◌ Service.must_remove Linux.unit_path unwrap_or
main-services_example =
    main-services lower plain hickory table_adder entries no_v6 working linux (codes "/b") fs toml
      files (ok (λ key. none)) binds none (λ p. none) (codes "/c") (codes "l") unit_of_l
      (λ e. absurd (ground arith)) (working-HasFile (service_path linux (codes "l"))) refl refl
