-- ===== src/Service/Platform/Files.antt =====
-- The service's file under the installation and the removal.
use leshy.Prelude.{
  ◌≡◌, ◌≢◌, refl, ◌∙◌, ◌⊎◌, inl, inr, false, Option, none, some, List, [], ◌∷◌, arith, Bool-cases,
  Option-cases, if◌then◌else◌,
}
use leshy.Prelude.HashMap.{is_some}
use leshy.Prelude.Results.{ok, err, Result-cases}
use leshy.Prelude.Text.{Str, codes}
use leshy.Service.{Host, Done, not_written, must_run, must_write, must_remove, ◌then◌}
use leshy.Service.Linux
use leshy.Service.Macos
use leshy.Service.Platform.{
  Platform, linux, macos, another, default_name, default_config, unwrap_or, install, uninstall,
}

-- What one file is: writing and removing it do what they say, its existence is seen, and the
-- service manager's commands leave it alone.
pub record HasFile {H : Type 0} (host : Host H) (path : Str) (file : H → Option Str) : Type 0 where
  pub writes :
      (h : H) (text : Str)
      → (host.write h path text).1 ≡ ok tt
      → file (host.write h path text).0 ≡ some text
  pub removes :
      (h : H) → (host.remove_file h path).1 ≡ ok tt → file (host.remove_file h path).0 ≡ none
  pub sees : (h : H) → host.exists h path ≡ is_some (file h)
  pub runs :
      (h : H) (program : Str) (args : List Str) → file (host.status h program args).0 ≡ file h

module _ {H : Type 0} (host : Host H) (path : Str) (file : H → Option Str)
    (laws : HasFile host path file) where
  must_run-file :
      (h : H) (program : Str) (args : List Str) → file (must_run host h program args).0 ≡ file h
  unfolding must_run
  must_run-file h program args = elim (Result-cases (host.status h program args).1) [
    | inr (x, e) ↦ rw (e, must_run) (laws.runs h program args)
    | inl (success, e) ↦ elim (Bool-cases success) [
      | inl t ↦ rw (e, t, must_run) (laws.runs h program args)
      | inr t ↦ rw (e, t, must_run) (laws.runs h program args)
    ]
  ]

  -- The write failed, or the file has the text.
  abbrev pub Written : Str → H × Done → Type 0
  Written text r = ((e : Str) × (r.1 ≡ err (not_written e))) ⊎ (file r.0 ≡ some text)

  must_write-Written : (h : H) (text : Str) → Written text (must_write host h path text)
  unfolding must_write
  must_write-Written h text = elim (Result-cases (host.write h path text).1) [
    | inr (x, e) ↦ rw (e, must_write) (inl (x, refl))
    | inl (u, e) ↦ rw (e, must_write) (inr (laws.writes h text e))
  ]

  then-Written :
      (text : Str) (r : H × Done) (program : Str) (args : List Str)
      → Written text r
      → Written text (r then (λ h. must_run host h program args))
  unfolding ◌then◌
  then-Written text (h, err x) program args w = w
  then-Written text (h, ok u) program args (inl (x, e)) = absurd (ground arith)
  then-Written text (h, ok u) program args (inr e) = inr (must_run-file h program args ∙ e)

  -- A success leaves no file.
  abbrev pub Removed : H × Done → Type 0
  Removed r = r.1 ≡ ok tt → file r.0 ≡ none

  absent : (h : H) → host.exists h path ≡ false → file h ≡ none
  absent h e =
      let seen = laws.sees h in
      elim (Option-cases (file h)) [ inl gone ↦ gone | inr (text, there) ↦ absurd (ground arith) ]

  must_remove-Removed : (h : H) → Removed (must_remove host h path)
  unfolding must_remove
  must_remove-Removed h = elim (Result-cases (host.remove_file h path).1) [
    | inr (x, e) ↦ rw (e, must_remove) (λ d. absurd (ground arith))
    | inl (u, e) ↦ rw (e, must_remove) (λ d. laws.removes h e)
  ]

  if_there-Removed :
      (h gone : H)
      → (host.exists h path ≡ false → file gone ≡ none)
      → (start : H)
      → Removed (if host.exists h path then must_remove host start path else (gone, ok tt))
  if_there-Removed h gone is_gone start = elim (Bool-cases (host.exists h path)) [
    | inl e ↦ rw e (must_remove-Removed start)
    | inr e ↦ rw e (λ d. is_gone e)
  ]

  then-Removed :
      (r : H × Done) (program : Str) (args : List Str)
      → Removed r
      → Removed (r then (λ h. ((host.status h program args).0, ok tt)))
  unfolding ◌then◌
  then-Removed (h, err x) program args w d = absurd (ground arith)
  then-Removed (h, ok u) program args w d = laws.runs h program args ∙ w refl

abbrev pub service_path : Platform → Str → Str
service_path linux name = Linux.unit_path name
service_path macos name = Macos.plist_path name
service_path another name = []

abbrev pub service_text : Platform → Str → Str → Str → Str
service_text linux name binary config = Linux.generate_unit name binary config
service_text macos name binary config = Macos.generate_plist name binary config
service_text another name binary config = []

-- On systemd and launchd, if the service manager's commands leave the service's file alone, an
-- installation either could not write it or leaves it there with its text, also if a command of
-- the service manager fails and the installation is reported as failed.
pub install-Written :
    {H : Type 0} (host : Host H) (platform : Platform) (binary : Str) (h : H)
    (name config : Option Str) (file : H → Option Str)
    → platform ≢ another
    → (laws : HasFile host (service_path platform (unwrap_or name default_name)) file)
    → let n = unwrap_or name default_name in
      Written host
        (service_path platform n)
        file
        laws
        (service_text platform n binary (unwrap_or config default_config))
        (install host platform binary h name config)
unfolding install Linux.install Macos.install
install-Written host linux binary h name config file supported laws =
    let n = unwrap_or name default_name in
    let text = Linux.generate_unit n binary (unwrap_or config default_config) in
    let path = Linux.unit_path n in
    let wrote = must_write host h path text in
    let reloaded =
      wrote then (λ h'. must_run host h' Linux.systemctl (codes "daemon-reload" ∷ [])) in
    then-Written host path file laws text reloaded Linux.systemctl (codes "enable" ∷ n ∷ []) (
      then-Written host path file laws text wrote Linux.systemctl (codes "daemon-reload" ∷ [])
        (must_write-Written host path file laws h text))
install-Written host macos binary h name config file supported laws =
    let n = unwrap_or name default_name in
    let text = Macos.generate_plist n binary (unwrap_or config default_config) in
    let path = Macos.plist_path n in
    then-Written host path file laws text (must_write host h path text) Macos.launchctl
      (codes "load" ∷ codes "-w" ∷ path ∷ []) (must_write-Written host path file laws h text)
install-Written host another binary h name config file supported laws = absurd (supported refl)

-- On systemd and launchd, if the service manager's commands leave the service's file alone, a
-- successful removal leaves no such file, whether there was one or not, and whatever the commands
-- come to.
pub uninstall-Removed :
    {H : Type 0} (host : Host H) (platform : Platform) (h : H) (name : Option Str)
    (file : H → Option Str)
    → platform ≢ another
    → HasFile host (service_path platform (unwrap_or name default_name)) file
    → (uninstall host platform h name).1 ≡ ok tt
    → file (uninstall host platform h name).0 ≡ none
unfolding uninstall Linux.uninstall Macos.uninstall
uninstall-Removed host linux h name file supported laws =
    let n = unwrap_or name default_name in
    let path = Linux.unit_path n in
    let stopped = (host.status h Linux.systemctl (codes "stop" ∷ n ∷ [])).0 in
    let disabled = (host.status stopped Linux.systemctl (codes "disable" ∷ n ∷ [])).0 in
    then-Removed host path file laws _ Linux.systemctl (codes "daemon-reload" ∷ []) (
      if_there-Removed host path file laws disabled disabled (absent host path file laws disabled)
        disabled)
uninstall-Removed host macos h name file supported laws =
    let n = unwrap_or name default_name in
    let path = Macos.plist_path n in
    if_there-Removed host path file laws h h (absent host path file laws h)
      (host.status h Macos.launchctl (codes "unload" ∷ codes "-w" ∷ path ∷ [])).0
uninstall-Removed host another h name file supported laws = absurd (supported refl)
