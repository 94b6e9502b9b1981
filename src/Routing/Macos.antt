-- ===== src/Routing/Macos.antt =====
-- src/routing/macos.rs: `MacosRouteAdder`, which runs `/sbin/route` for every call.
-- The process is a parameter: a program and its arguments give its output, or an error if it could
-- not be run. The printer of IPv6 addresses is a parameter, too.
pub mod RoundTrip
use leshy.Prelude.{ℕ, Bool, Option, some, none, List, [], ◌∷◌, ◌++◌, if◌then◌else◌, eqb}
use leshy.Prelude.Results.{Result, ok, err}
use leshy.Prelude.Text.{Str, codes, contains}
use leshy.Config.{IpAddr, v4, v6}
use leshy.Net.{show_u8, show_ip}
use leshy.Routing.Manager.{RouteAdder, Outcome, RouteError, io, adder_failed, longest}

-- `std::process::Output`, with the error output decoded
pub record Output : Type 0 where
  pub success : Bool
  pub stderr : Str

module _ (show_v6 : ℕ → Str) where
  unfoldable pub is_host : IpAddr → ℕ → Bool
  is_host ip prefix_len = eqb prefix_len (longest ip)

  unfoldable pub destination : IpAddr → ℕ → Str
  destination ip prefix_len =
      if is_host ip prefix_len
      then show_ip show_v6 ip
      else show_ip show_v6 ip ++ b'/' ∷ show_u8 prefix_len

  unfoldable pub family_args : IpAddr → List Str
  family_args (v4 ip) = []
  family_args (v6 ip) = codes "-inet6" ∷ []

  -- the arguments, with what stands after the destination
  unfoldable pub route_args : Str → IpAddr → ℕ → List Str → List Str
  route_args command ip prefix_len target =
      codes "-n"
      ∷ command
      ∷ (family_args ip
          ++ (if is_host ip prefix_len then codes "-host" else codes "-net")
            ∷ destination ip prefix_len
            ∷ target)

-- A failure whose error output has the given text is none.
unfoldable pub concluded : Str → Str → Result Output Str → Outcome
concluded harmless prefix (err e) = err (io e)
concluded harmless prefix (ok output) =
    if output.success
    then ok tt
    else if contains harmless output.stderr
    then ok tt
    else err (adder_failed (prefix ++ output.stderr))

module _ {K : Type 0} (show_v6 : ℕ → Str) (run : K → Str → List Str → K × Result Output Str) where
  unfoldable pub add_via_route : K → IpAddr → ℕ → Str → K × Outcome
  add_via_route k ip prefix_len gateway =
      let (k', output) =
        run k (codes "/sbin/route")
          (route_args show_v6 (codes "add") ip prefix_len (gateway ∷ [])) in
      (k', concluded (codes "File exists") (codes "route add failed: ") output)

  unfoldable pub add_dev_route : K → IpAddr → ℕ → Str → K × Outcome
  add_dev_route k ip prefix_len device =
      let (k', output) =
        run k (codes "/sbin/route")
          (route_args show_v6 (codes "add") ip prefix_len (codes "-interface" ∷ device ∷ [])) in
      (k', concluded (codes "File exists") (codes "route add failed: ") output)

  unfoldable pub remove_route : K → IpAddr → ℕ → K × Outcome
  remove_route k ip prefix_len =
      let (k', output) =
        run k (codes "/sbin/route") (route_args show_v6 (codes "delete") ip prefix_len []) in
      (k', concluded (codes "not in table") (codes "route delete failed: ") output)

  abbrev pub macos : RouteAdder K
  macos = record {
    add_via_route = add_via_route;
    add_dev_route = add_dev_route;
    remove_route = remove_route;
  }
