-- ===== src/Service/Macos.antt =====
-- src/service/macos.rs: the property list of launchd.
use leshy.Prelude.{[], ◌∷◌, ◌++◌, if◌then◌else◌}
use leshy.Prelude.Results.{ok}
use leshy.Prelude.Text.{Str, codes}
use leshy.Service.{Host, Done, must_run, must_write, must_remove, ◌then◌}
use leshy.Service.Linux.{lines}

unfoldable pub plist_label : Str → Str
plist_label name = codes "com." ++ (name ++ codes ".server")

unfoldable pub plist_path : Str → Str
plist_path name = codes "/Library/LaunchDaemons/" ++ (plist_label name ++ codes ".plist")

abbrev pub quoted : Str → Str
quoted s = b'"' ∷ (s ++ b'"' ∷ [])

abbrev pub as_string : Str → Str
as_string s = codes "<string>" ++ (s ++ codes "</string>")

unfoldable pub generate_plist : Str → Str → Str → Str
generate_plist name binary config = lines (
    (codes "<?xml version="
      ++ (quoted (codes "1.0") ++ (codes " encoding=" ++ (quoted (codes "UTF-8") ++ codes "?>"))))
    ∷ (codes "<!DOCTYPE plist PUBLIC "
        ++ (quoted (codes "-//Apple//DTD PLIST 1.0//EN")
            ++ (codes " "
                ++ (quoted (codes "http://www.apple.com/DTDs/PropertyList-1.0.dtd") ++ codes ">"))))
    ∷ (codes "<plist version=" ++ (quoted (codes "1.0") ++ codes ">"))
    ∷ codes "<dict>"
    ∷ codes "    <key>Label</key>"
    ∷ (codes "    " ++ as_string (plist_label name))
    ∷ codes "    <key>ProgramArguments</key>"
    ∷ codes "    <array>"
    ∷ (codes "        " ++ as_string binary)
    ∷ (codes "        " ++ as_string config)
    ∷ codes "    </array>"
    ∷ codes "    <key>RunAtLoad</key>"
    ∷ codes "    <true/>"
    ∷ codes "    <key>KeepAlive</key>"
    ∷ codes "    <true/>"
    ∷ codes "    <key>StandardOutPath</key>"
    ∷ (codes "    " ++ as_string (codes "/var/log/" ++ (name ++ codes ".log")))
    ∷ codes "    <key>StandardErrorPath</key>"
    ∷ (codes "    " ++ as_string (codes "/var/log/" ++ (name ++ codes ".err")))
    ∷ codes "</dict>"
    ∷ codes "</plist>"
    ∷ [])

abbrev pub launchctl : Str
launchctl = codes "launchctl"

module _ {H : Type 0} (host : Host H) where
  unfoldable pub install : H → Str → Str → Str → H × Done
  install h name binary config =
      let path = plist_path name in
      must_write host h path (generate_plist name binary config)
      then (λ h'. must_run host h' launchctl (codes "load" ∷ codes "-w" ∷ path ∷ []))

  unfoldable pub uninstall : H → Str → H × Done
  uninstall h name =
      let path = plist_path name in
      let unloaded = (host.status h launchctl (codes "unload" ∷ codes "-w" ∷ path ∷ [])).0 in
      if host.exists h path then must_remove host unloaded path else (h, ok tt)
