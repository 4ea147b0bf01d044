-- ===== src/Runner/Inv.antt =====
-- The invariant of the runner: every task that runs is held by exactly one instance, which is
-- enabled by its configuration and was started with it.
pub mod Entries
pub mod Retained
use ebbflow.Prelude.{
  ℕ, ◌+◌, ◌-◌, ◌≤◌, ◌≡◌, refl, String, List, [], ◌∷◌, Option, none, some, arith, All, if◌then◌else◌,
  str_eq, Bool-cases, inl, inr,
}
use ebbflow.Prelude.Map.{HashMap, lookup, insert, HasDistinctKeys, insert-HasDistinctKeys}
use ebbflow.Config.{Endpoint, endpoint_eq}
use ebbflow.Daemon.{World, Host, cap_idle}
use ebbflow.Daemon.Heap.{MetaHeap, IsFresh, running}
use ebbflow.Runner.{
  EndpointInstance, SshInstance, stop_task, endpoint_args, ssh_args, contains, retain_endpoints,
  start_endpoint, apply_entry, apply_endpoints,
}
use ebbflow.Runner.Tasks.{
  owns, Runs, Extends, Extends-refl, Extends-trans, Runs-Extends, stop_task-Extends,
  stop_task-IsFresh, running-stop_task, start_task-Started,
}

-- How many instances of the map hold an address.
abbrev pub owned : HashMap EndpointInstance → ℕ → ℕ
owned [] i = 0
owned ((dns, inst) ∷ m) i = owns inst.enabledisable i + owned m i

abbrev pub ssh_owned : Option SshInstance → ℕ → ℕ
ssh_owned none i = 0
ssh_owned (some inst) i = owns inst.enabledisable i

-- An instance stands under its own name and runs what its configuration asks for.
abbrev pub Matches : MetaHeap → String × EndpointInstance → Type 0
Matches h (dns, inst) =
    (dns ≡ inst.existing_config.dns)
    × Runs h inst.existing_config.enabled (cap_idle (endpoint_args inst.existing_config))
        inst.enabledisable

abbrev pub SshMatches : MetaHeap → Option SshInstance → Type 0
SshMatches h none = Unit {0}
SshMatches h (some inst) =
    Runs h inst.existing_config.enabled (cap_idle (ssh_args inst.existing_config))
      inst.enabledisable

-- The part of the invariant about the endpoints, beside instances that hold `others`.
pub record Holds (others : ℕ → ℕ) (m : HashMap EndpointInstance) (h : MetaHeap) : Type 0 where
  pub fresh : IsFresh h
  pub distinct : HasDistinctKeys m
  pub matching : All (Matches h) m
  pub balanced : (i : ℕ) → owned m i + others i ≡ running h i

pub Matches-Extends :
    {h h' : MetaHeap} (m : HashMap EndpointInstance)
    → Extends h h'
    → All (Matches h) m
    → All (Matches h') m
Matches-Extends [] x a = tt
Matches-Extends ((dns, inst) ∷ m) x a =
    ((a.0.0, Runs-Extends _ _ inst.enabledisable x a.0.1), Matches-Extends m x a.1)

pub SshMatches-Extends :
    {h h' : MetaHeap} (s : Option SshInstance) → Extends h h' → SshMatches h s → SshMatches h' s
SshMatches-Extends none x a = tt
SshMatches-Extends (some inst) x a = Runs-Extends _ _ inst.enabledisable x a

-- A new instance takes the place of the old one, or joins.
abbrev pub held_by : Option EndpointInstance → ℕ → ℕ
held_by none i = 0
held_by (some inst) i = owns inst.enabledisable i

pub owned-insert :
    (k : String) (v : EndpointInstance) (m : HashMap EndpointInstance) (i : ℕ)
    → owned (insert k v m) i + held_by (lookup k m) i ≡ owns v.enabledisable i + owned m i
unfolding insert lookup
owned-insert k v [] i = omega arith
owned-insert k v ((j, w) ∷ m) i = elim (Bool-cases (str_eq j k)) [
  | inl e ↦ rw e (omega arith)
  | inr e ↦ rw e (omega (arith, owned-insert k v m i))
]

pub insert-Matches :
    (h : MetaHeap) (k : String) (v : EndpointInstance) (m : HashMap EndpointInstance)
    → Matches h (k, v)
    → All (Matches h) m
    → All (Matches h) (insert k v m)
unfolding insert
insert-Matches h k v [] a as' = (a, tt)
insert-Matches h k v ((j, w) ∷ m) a as' = elim (Bool-cases (str_eq j k)) [
  | inl e ↦ rw e (a, as'.1)
  | inr e ↦ rw e (as'.0, insert-Matches h k v m a as'.1)
]

pub held_by-le :
    (k : String) (m : HashMap EndpointInstance) (i : ℕ) → held_by (lookup k m) i ≤ owned m i
unfolding lookup
held_by-le k [] i = omega arith
held_by-le k ((j, w) ∷ m) i = elim (Bool-cases (str_eq j k)) [
  | inl e ↦ rw e (omega arith)
  | inr e ↦ rw e (omega (arith, held_by-le k m i))
]
