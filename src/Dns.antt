-- ===== src/Dns.antt =====
-- src/dns.rs: the settings of the resolver, and what a lookup comes to. The resolver itself is a
-- library; its answers are arguments.
use ebbflow.Prelude.{ℕ, ◌*◌, String, List, [], ◌∷◌, Option, none, some}
use ebbflow.Prelude.Result.{Result, ok, err, map_err}

pub record Ipv4Addr : Type 0 where
  pub octets : List ℕ

-- The options and the configuration that the resolver is made with; times are in seconds.
pub record ResolverSettings : Type 0 where
  pub positive_max_ttl : Option ℕ
  pub negative_max_ttl : Option ℕ
  pub domain : Option String
  pub search : List String
  pub nameservers : List Ipv4Addr
  pub port : ℕ

abbrev pub ttl : ℕ
ttl = 60 * 60

abbrev pub group : List Ipv4Addr
group =
    record { octets = 1 ∷ 1 ∷ 1 ∷ 1 ∷ [] }
    ∷ record { octets = 1 ∷ 0 ∷ 0 ∷ 1 ∷ [] }
    ∷ record { octets = 9 ∷ 9 ∷ 9 ∷ 9 ∷ [] }
    ∷ record { octets = 8 ∷ 8 ∷ 8 ∷ 8 ∷ [] }
    ∷ record { octets = 8 ∷ 8 ∷ 4 ∷ 4 ∷ [] }
    ∷ []

abbrev pub settings : ResolverSettings
settings = record {
  positive_max_ttl = some ttl;
  negative_max_ttl = some ttl;
  domain = none;
  search = [];
  nameservers = group;
  port = 53;
}

-- `DnsResolver::new`, which forgets why the library failed.
unfoldable pub resolver_new :
    {R : Type 0} → (ResolverSettings → Result String R) → Result (Unit {0}) R
resolver_new tokio = map_err (λ e. tt) (tokio settings)

-- What the lookup of a name comes to within its second.
pub data Answer : Type 0 where
  timed_out no_records_found failed : Answer
  records : List Ipv4Addr → Answer

-- `DnsResolver::ips`
unfoldable pub ips : Answer → Result (Unit {0}) (List Ipv4Addr)
ips timed_out = err tt
ips no_records_found = ok []
ips failed = err tt
ips (records rs) = ok rs
