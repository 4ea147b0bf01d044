-- ===== src/Daemon/Shared/Chosen.antt =====
-- When a new connection of src/daemon/mod.rs has a target.
use ebbflow.Prelude.{
  ◌≡◌, refl, ◌↔◌, ◌⊎◌, inl, inr, ℕ, String, Bool, false, List, [], ◌∷◌, Option, none, some,
  get_elem?, unwrap_or, Bool-cases,
}
use ebbflow.Prelude.Result.{Result, ok, err}
use ebbflow.Daemon.Addrs.{SocketAddr}
use ebbflow.Daemon.Heap.{EndpointArgs}
use ebbflow.Connection.Establish.{EndpointConnectionArgs}
use ebbflow.Dns.{Ipv4Addr, Answer, ips}
use ebbflow.Daemon.Shared.{
  SocketAddrV4, SharedInfo, candidates, chosen, ebbflow_addr, ebbflow_dns, default_ebbflow_dns,
  create_args, with_target,
}

-- A random choice of a slice is none of an empty one and else one of its elements.
pub record IsChoice (choose : List Ipv4Addr → Option Ipv4Addr) : Type 0 where
  pub of_empty : choose [] ≡ none
  pub of_cons :
      (r : Ipv4Addr) (rs : List Ipv4Addr)
      → (i : ℕ) × (ip : Ipv4Addr) × (choose (r ∷ rs) ≡ some ip) × (get_elem? (r ∷ rs) i ≡ some ip)

-- The name is the one that is hardcoded, or Ebbflow's.
abbrev pub dns_of : SharedInfo → String
dns_of info = unwrap_or info.hardcoded_ebbflow_dns default_ebbflow_dns

-- Nothing to connect to: no address is hardcoded, and the lookup found the name without records.
abbrev pub IsStranded : SharedInfo → Answer → Type 0
IsStranded info answer = (info.hardcoded_ebbflow_addr ≡ none) × (ips answer ≡ ok [])

module _ (choose : List Ipv4Addr → Option Ipv4Addr) (is_choice : IsChoice choose) where
  picked : (r : Ipv4Addr) (rs : List Ipv4Addr) → ¬ (chosen (choose (r ∷ rs)) ≡ none)
  unfolding chosen
  picked r rs h = let (i, ip, is_some, e) = is_choice.of_cons r rs in cc (rw (is_some, chosen) at h)

  chosen-none :
      (r : Result (Unit {0}) (List Ipv4Addr)) → chosen (choose (candidates r)) ≡ none → r ≡ ok []
  unfolding chosen candidates
  chosen-none (ok []) h = refl
  chosen-none (ok (r ∷ rs)) h = absurd (picked r rs h)
  chosen-none (err u) h = absurd (picked _ _ h)

  ebbflow_addr-none :
      (info : SharedInfo) (answer : Answer) (o : Option SocketAddrV4)
      → info.hardcoded_ebbflow_addr ≡ o
      → ebbflow_addr choose answer info ≡ none
      → IsStranded info answer
  unfolding ebbflow_addr
  ebbflow_addr-none info answer none e h = (e, chosen-none (ips answer) (rw (e, ebbflow_addr) at h))
  ebbflow_addr-none info answer (some a) e h = cc (rw (e, ebbflow_addr) at h)

  stranded-none :
      (info : SharedInfo) (answer : Answer)
      → IsStranded info answer
      → ebbflow_addr choose answer info ≡ none
  unfolding ebbflow_addr candidates chosen
  stranded-none info answer (e, empty) =
      rw (e, ebbflow_addr) (rw empty (rw (is_choice.of_empty) refl))

  with_target-none :
      (c : EndpointConnectionArgs) (a : Option SocketAddrV4) (n : Option String)
      → with_target c a n ≡ none
      → (a ≡ none) ⊎ (n ≡ none)
  unfolding with_target
  with_target-none c none n h = inl refl
  with_target-none c (some a) none h = inr refl
  with_target-none c (some a) (some n) h = cc h

  without_name :
      (c : EndpointConnectionArgs) (a : Option SocketAddrV4) → with_target c a none ≡ none
  unfolding with_target
  without_name c none = refl
  without_name c (some a) = refl

  ebbflow_dns-none :
      (is_dns_name : String → Bool) (info : SharedInfo)
      → (ebbflow_dns is_dns_name info ≡ none) ↔ (is_dns_name (dns_of info) ≡ false)
  unfolding ebbflow_dns
  ebbflow_dns-none is_dns_name info = elim (Bool-cases (is_dns_name (dns_of info))) [
    | inl good ↦ ((λ h. cc (rw good at h)), λ bad. cc)
    | inr bad ↦ ((λ h. bad), λ h. rw bad refl)
  ]

  -- If the random choice fails only on no records, the task that opens connections panics on
  -- starting one exactly if Ebbflow's address is not hardcoded and the lookup found no records, or
  -- the name of Ebbflow is not a name of the DNS.
  pub create_args-eq_none :
      (is_dns_name : String → Bool) (answer : Answer) (info : SharedInfo) (args : EndpointArgs)
      (addrs : List SocketAddr)
      → (create_args choose is_dns_name answer info args addrs ≡ none)
        ↔ (IsStranded info answer ⊎ (is_dns_name (dns_of info) ≡ false))
  unfolding create_args
  create_args-eq_none is_dns_name answer info args addrs = (
    (λ h. elim (with_target-none _ _ _ h) [
      | inl no_addr ↦ inl (ebbflow_addr-none info answer info.hardcoded_ebbflow_addr refl no_addr)
      | inr no_name ↦ inr ((ebbflow_dns-none is_dns_name info).0 no_name)
    ]),
    λ o. elim o [
      | inl stranded ↦ rw (stranded-none info answer stranded) refl
      | inr not_name ↦ rw ((ebbflow_dns-none is_dns_name info).1 not_name) (without_name _ _)
    ],
  )
