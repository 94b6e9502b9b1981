-- ===== src/Service/Linux.antt =====
-- src/service/linux.rs: the unit file of systemd.
use leshy.Prelude.{List, [], ◌∷◌, ◌++◌, if◌then◌else◌}
use leshy.Prelude.Results.{ok}
use leshy.Prelude.Text.{Str, codes}
use leshy.Service.{Host, Done, must_run, must_write, must_remove, ◌then◌}

unfoldable pub unit_path : Str → Str
unit_path name = codes "/etc/systemd/system/" ++ (name ++ codes ".service")

abbrev pub newline : Str
newline = 10 ∷ []

unfoldable pub lines : List Str → Str
lines [] = []
lines (l ∷ ls) = l ++ (newline ++ lines ls)

unfoldable pub generate_unit : Str → Str → Str → Str
generate_unit name binary config = lines (
    codes "[Unit]"
    ∷ (codes "Description=" ++ (name ++ codes " DNS-driven split-tunnel router"))
    ∷ codes "After=network-online.target"
    ∷ codes "Wants=network-online.target"
    ∷ []
    ∷ codes "[Service]"
    ∷ codes "Type=simple"
    ∷ (codes "ExecStart=" ++ (binary ++ (codes " " ++ config)))
    ∷ codes "Restart=on-failure"
    ∷ codes "RestartSec=5"
    ∷ codes "AmbientCapabilities=CAP_NET_ADMIN CAP_NET_BIND_SERVICE"
    ∷ codes "CapabilityBoundingSet=CAP_NET_ADMIN CAP_NET_BIND_SERVICE"
    ∷ []
    ∷ codes "[Install]"
    ∷ codes "WantedBy=multi-user.target"
    ∷ [])

abbrev pub systemctl : Str
systemctl = codes "systemctl"

module _ {H : Type 0} (host : Host H) where
  unfoldable pub install : H → Str → Str → Str → H × Done
  install h name binary config =
      must_write host h (unit_path name) (generate_unit name binary config)
      then (λ h'. must_run host h' systemctl (codes "daemon-reload" ∷ []))
      then (λ h'. must_run host h' systemctl (codes "enable" ∷ name ∷ []))

  -- The outcomes of the commands are ignored.
  unfoldable pub uninstall : H → Str → H × Done
  uninstall h name =
      let path = unit_path name in
      let stopped = (host.status h systemctl (codes "stop" ∷ name ∷ [])).0 in
      let disabled = (host.status stopped systemctl (codes "disable" ∷ name ∷ [])).0 in
      (if host.exists disabled path then must_remove host disabled path else (disabled, ok tt))
      then (λ h'. ((host.status h' systemctl (codes "daemon-reload" ∷ [])).0, ok tt))
