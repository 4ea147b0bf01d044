-- ===== src/Daemon/Addrs.antt =====
-- `get_addrs` of src/daemon/mod.rs: the addresses of localhost, IPv4 first. The resolver's answers
-- are an argument: the errors that it gives before it succeeds, and the addresses.
use Prim.Native.String.{◌++◌ as str_append}
use ebbflow.Prelude.{String, Bool, true, false, List, [], ◌∷◌}
use ebbflow.MessageQueue.{MessageQueue, add_message}

pub record SocketAddr : Type 0 where
  pub is_ipv4 : Bool
  pub text : String

pub record Lookup : Type 0 where
  pub failures : List String
  pub addrs : List SocketAddr

pub data Order : Type 0 where
  less equal greater : Order

-- The comparison of `sort_by`.
unfoldable pub compare_addrs : SocketAddr → SocketAddr → Order
compare_addrs l r = elim l.is_ipv4 [
  | true ↦ elim r.is_ipv4 [ true ↦ equal | false ↦ less ]
  | false ↦ elim r.is_ipv4 [ true ↦ greater | false ↦ equal ]
]

-- A stable sort by a comparison, as `sort_by` is.
unfoldable pub insert_by :
    (SocketAddr → SocketAddr → Order) → SocketAddr → List SocketAddr → List SocketAddr
insert_by f x [] = x ∷ []
insert_by f x (y ∷ ys) = elim (f x y) [ greater ↦ y ∷ insert_by f x ys | _ ↦ x ∷ y ∷ ys ]

unfoldable pub sort_by : (SocketAddr → SocketAddr → Order) → List SocketAddr → List SocketAddr
unfolding insert_by
sort_by f [] = []
sort_by f (x ∷ xs) = insert_by f x (sort_by f xs)

-- One message for each failed lookup; the loop goes on until the lookup succeeds.
unfoldable pub report_failures : String → List String → MessageQueue → MessageQueue
report_failures now [] q = q
report_failures now (e ∷ es) q = report_failures now es (
    add_message now
      (str_append
        "Extremely unexpected error, could not resolve DNS of localhost, will try again in a second "
        e)
      q)

unfoldable pub get_addrs : String → Lookup → MessageQueue → List SocketAddr × MessageQueue
unfolding sort_by compare_addrs report_failures
get_addrs now answers q =
    (sort_by compare_addrs answers.addrs, report_failures now answers.failures q)

-- The addresses of one family, in their order.
unfoldable pub family : Bool → List SocketAddr → List SocketAddr
family b [] = []
family true (a ∷ as') = elim a.is_ipv4 [ true ↦ a ∷ family true as' | false ↦ family true as' ]
family false (a ∷ as') = elim a.is_ipv4 [ true ↦ family false as' | false ↦ a ∷ family false as' ]
