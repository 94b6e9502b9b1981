-- ===== src/Service.antt =====
-- src/service: the installation of the program as a service of systemd and of launchd.
-- The host is a record of functions on its state: files by their paths as texts, and commands.
pub mod Linux
pub mod Macos
pub mod Platform
use leshy.Prelude.{ℕ, Bool, true, false, Option, none, some, List, [], ◌∷◌, if◌then◌else◌}
use leshy.Prelude.Results.{Result, ok, err}
use leshy.Prelude.Text.{Str, codes}

-- `std::fs::write`, `remove_file`, `Path::exists`, and `Command::status` as whether the command was
-- successful, if it could be run.
pub record Host (H : Type 0) : Type 0 where
  pub write : H → Str → Str → H × Result (Unit {0}) Str
  pub remove_file : H → Str → H × Result (Unit {0}) Str
  pub exists : H → Str → Bool
  pub status : H → Str → List Str → H × Result Bool Str

pub data ServiceError : Type 0 where
  not_written : Str → ServiceError
  not_removed : Str → ServiceError
  not_run : Str → ServiceError
  unsuccessful : List Str → ServiceError
  unsupported : ServiceError

abbrev pub Done : Type 0
Done = Result (Unit {0}) ServiceError

module _ {H : Type 0} (host : Host H) where
  -- `let status = ...?; if !status.success() { bail! }`
  unfoldable pub must_run : H → Str → List Str → H × Done
  must_run h program args =
      let (h', ran) = host.status h program args in
      elim ran [
        | err e ↦ (h', err (not_run e))
        | ok success ↦ if success then (h', ok tt) else (h', err (unsuccessful args))
      ]

  unfoldable pub must_write : H → Str → Str → H × Done
  must_write h path text =
      let (h', written) = host.write h path text in
      elim written [ err e ↦ (h', err (not_written e)) | ok done ↦ (h', ok tt) ]

  unfoldable pub must_remove : H → Str → H × Done
  must_remove h path =
      let (h', removed) = host.remove_file h path in
      elim removed [ err e ↦ (h', err (not_removed e)) | ok done ↦ (h', ok tt) ]

-- `?` on what changes the state
infixl 5 ◌then◌
unfoldable pub ◌then◌ : {H : Type 0} → H × Done → (H → H × Done) → H × Done
(h, err e) then f = (h, err e)
(h, ok done) then f = f h
