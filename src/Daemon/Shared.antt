-- ===== src/Daemon/Shared.antt =====
-- `SharedInfo` and `create_args` of src/daemon/mod.rs: what a new connection to Ebbflow is started
-- with. The lookup's answer, the random choice and the test of a name are parameters; `none` is a
-- panic. The resolver and the certificates, which only the libraries look into, are left out of the
-- record: Dns has what a lookup comes to, and Certs the certificates. The key stands in the runner
-- too (src/lib.rs).
pub mod Chosen
use ebbflow.Prelude.{
  ℕ, String, Bool, true, List, [], ◌∷◌, Option, none, some, unwrap_or, if◌then◌else◌,
}
use ebbflow.Prelude.Result.{Result, ok, err, ◌>>◌}
use ebbflow.Dns.{Ipv4Addr, Answer, ips, ResolverSettings, resolver_new}
use ebbflow.Daemon.Addrs.{SocketAddr}
use ebbflow.Daemon.Heap.{EndpointArgs}
use ebbflow.Connection.Establish.{EndpointConnectionArgs}

pub record SocketAddrV4 : Type 0 where
  pub ip : Ipv4Addr
  pub port : ℕ

pub record SharedInfo : Type 0 where
  pub key : Option String
  pub hardcoded_ebbflow_addr : Option SocketAddrV4
  pub hardcoded_ebbflow_dns : Option String

-- `tokio` makes a resolver of its settings, or fails.
unfoldable pub innernew :
    (ResolverSettings → Result String (Unit {0}))
    → Option SocketAddrV4
    → Option String
    → Result (Unit {0}) SharedInfo
innernew tokio addr dns = do
  resolver_new tokio
  ok (record { key = none; hardcoded_ebbflow_addr = addr; hardcoded_ebbflow_dns = dns })

unfoldable pub new : (ResolverSettings → Result String (Unit {0})) → Result (Unit {0}) SharedInfo
unfolding innernew
new tokio = innernew tokio none none

unfoldable pub new_with_ebbflow_overrides :
    (ResolverSettings → Result String (Unit {0}))
    → SocketAddrV4
    → String
    → Result (Unit {0}) SharedInfo
unfolding innernew
new_with_ebbflow_overrides tokio addr dns = innernew tokio (some addr) (some dns)

unfoldable pub update_key : String → SharedInfo → SharedInfo
update_key newkey info = record info { key = some newkey }

abbrev pub ebbflow_port : ℕ
ebbflow_port = 443

abbrev pub default_ebbflow_dns : String
default_ebbflow_dns = "s.ebbflow.io"

abbrev pub fallbacks : List Ipv4Addr
fallbacks =
    record { octets = 75 ∷ 2 ∷ 87 ∷ 195 ∷ [] }
    ∷ record { octets = 99 ∷ 83 ∷ 181 ∷ 168 ∷ [] }
    ∷ record { octets = 34 ∷ 120 ∷ 207 ∷ 167 ∷ [] }
    ∷ []

-- `unwrap_or_else` of what was looked up.
unfoldable pub candidates : Result (Unit {0}) (List Ipv4Addr) → List Ipv4Addr
candidates (ok rs) = rs
candidates (err u) = fallbacks

-- `chosen.unwrap()`
unfoldable pub chosen : Option Ipv4Addr → Option SocketAddrV4
chosen none = none
chosen (some ip) = some (record { ip = ip; port = ebbflow_port })

unfoldable pub ebbflow_addr :
    (List Ipv4Addr → Option Ipv4Addr) → Answer → SharedInfo → Option SocketAddrV4
unfolding ips candidates chosen
ebbflow_addr choose answer info = elim info.hardcoded_ebbflow_addr [
  | some overridden ↦ some overridden
  | none ↦ chosen (choose (candidates (ips answer)))
]

-- `is_dns_name` is the test of `try_from_ascii_str`, whose result is unwrapped.
unfoldable pub ebbflow_dns : (String → Bool) → SharedInfo → Option String
ebbflow_dns is_dns_name info =
    let name = unwrap_or info.hardcoded_ebbflow_dns default_ebbflow_dns in
    if is_dns_name name then some name else none

-- The fields that the connection's record leaves out.
pub record Target : Type 0 where
  pub ebbflow_addr : SocketAddrV4
  pub ebbflow_dns : String

unfoldable pub with_target :
    EndpointConnectionArgs
    → Option SocketAddrV4
    → Option String
    → Option (EndpointConnectionArgs × Target)
with_target c (some addr) (some dns) = some (c, record { ebbflow_addr = addr; ebbflow_dns = dns })
with_target c _ _ = none

unfoldable pub create_args :
    (List Ipv4Addr → Option Ipv4Addr)
    → (String → Bool)
    → Answer
    → SharedInfo
    → EndpointArgs
    → List SocketAddr
    → Option (EndpointConnectionArgs × Target)
unfolding ebbflow_addr ebbflow_dns with_target
create_args choose is_dns_name answer info args addrs =
    with_target
      (record {
        endpoint = args.endpoint;
        key = unwrap_or info.key "unset";
        addrs = addrs;
        ctype = args.ctype;
      })
      (ebbflow_addr choose answer info) (ebbflow_dns is_dns_name info)
