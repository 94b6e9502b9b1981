-- ===== src/Service/Platform.antt =====
-- src/service/mod.rs: the installation for the platform that the program was built for.
-- The program's own path and its resolution are parameters.
pub mod Files
use leshy.Prelude.{ℕ, Option, none, some, List, [], ◌∷◌}
use leshy.Prelude.Results.{Result, ok, err}
use leshy.Prelude.Text.{Str, codes}
use leshy.Service.{Host, Done, ServiceError, unsupported}
use leshy.Service.Linux
use leshy.Service.Macos

-- `target_os`
pub data Platform : Type 0 where
  linux : Platform
  macos : Platform
  another : Platform

unfoldable pub default_name : Str
default_name = codes "leshy"

unfoldable pub default_config : Str
default_config = codes "/etc/leshy/config.toml"

unfoldable pub detect_binary : Option Str → (Str → Option Str) → Str
detect_binary current_exe canonicalize =
    let fallback = codes "/usr/local/bin/leshy" in
    elim current_exe [
      | none ↦ fallback
      | some p ↦ elim (canonicalize p) [ none ↦ fallback | some resolved ↦ resolved ]
    ]

unfoldable pub unwrap_or : Option Str → Str → Str
unwrap_or none default = default
unwrap_or (some s) default = s

module _ {H : Type 0} (host : Host H) where
  unfoldable pub install : Platform → Str → H → Option Str → Option Str → H × Done
  install linux binary h name config =
      Linux.install host h (unwrap_or name default_name) binary (unwrap_or config default_config)
  install macos binary h name config =
      Macos.install host h (unwrap_or name default_name) binary (unwrap_or config default_config)
  install another binary h name config = (h, err unsupported)

  unfoldable pub uninstall : Platform → H → Option Str → H × Done
  uninstall linux h name = Linux.uninstall host h (unwrap_or name default_name)
  uninstall macos h name = Macos.uninstall host h (unwrap_or name default_name)
  uninstall another h name = (h, err unsupported)
