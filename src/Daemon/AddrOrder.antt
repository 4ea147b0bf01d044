-- ===== src/Daemon/AddrOrder.antt =====
-- The order in which the addresses of localhost are tried.
use ebbflow.Prelude.{
  ◌≡◌, refl, ap, ◌∙◌, true, false, String, List, [], ◌∷◌, ◌++◌, Bool-cases, inl, inr,
}
use ebbflow.MessageQueue.{MessageQueue}
use ebbflow.Daemon.Addrs.{SocketAddr, Lookup, compare_addrs, insert_by, sort_by, family, get_addrs}

insert_by-ipv4 :
    (a : SocketAddr) (l : List SocketAddr) → a.is_ipv4 ≡ true → insert_by compare_addrs a l ≡ a ∷ l
unfolding insert_by compare_addrs
insert_by-ipv4 a [] h = refl
insert_by-ipv4 a (b ∷ l) h = elim (Bool-cases b.is_ipv4) [
  | inl e ↦ simp (h, e, insert_by, compare_addrs) refl
  | inr e ↦ simp (h, e, insert_by, compare_addrs) refl
]

insert_by-ipv6 :
    (a : SocketAddr) (l : List SocketAddr)
    → a.is_ipv4 ≡ false
    → insert_by compare_addrs a (family false l) ≡ a ∷ family false l
unfolding insert_by compare_addrs family
insert_by-ipv6 a [] h = refl
insert_by-ipv6 a (b ∷ l) h = elim (Bool-cases b.is_ipv4) [
  | inl e ↦ simp (e, family) (insert_by-ipv6 a l h)
  | inr e ↦ simp (h, e, insert_by, compare_addrs, family) refl
]

insert_by-past :
    (a b : SocketAddr) (l : List SocketAddr)
    → a.is_ipv4 ≡ false
    → b.is_ipv4 ≡ true
    → insert_by compare_addrs a (b ∷ l) ≡ b ∷ insert_by compare_addrs a l
unfolding insert_by compare_addrs
insert_by-past a b l h e = simp (h, e, insert_by, compare_addrs) refl

insert_by-family :
    (a : SocketAddr) (l r : List SocketAddr)
    → a.is_ipv4 ≡ false
    → insert_by compare_addrs a (family true l ++ r) ≡ family true l ++ insert_by compare_addrs a r
unfolding family
insert_by-family a [] r h = refl
insert_by-family a (b ∷ l) r h = elim (Bool-cases b.is_ipv4) [
  | inl e ↦
      simp (e, family)
        (insert_by-past a b (family true l ++ r) h e ∙ ap (◌∷◌ b) (insert_by-family a l r h))
  | inr e ↦ simp (e, family) (insert_by-family a l r h)
]

sort_by-family : (l : List SocketAddr) → sort_by compare_addrs l ≡ family true l ++ family false l
unfolding sort_by family
sort_by-family [] = refl
sort_by-family (a ∷ l) = elim (Bool-cases a.is_ipv4) [
  | inl e ↦
      simp (e, family)
        (ap (insert_by compare_addrs a) (sort_by-family l)
          ∙ insert_by-ipv4 a (family true l ++ family false l) e)
  | inr e ↦
      simp (e, family)
        (ap (insert_by compare_addrs a) (sort_by-family l)
          ∙ insert_by-family a l (family false l) e
          ∙ ap (λ r. family true l ++ r) (insert_by-ipv6 a l e))
]

-- The addresses of localhost are those that were resolved, the IPv4 ones before all others, and
-- within each family in the order in which they were resolved.
pub get_addrs-family :
    (now : String) (answers : Lookup) (q : MessageQueue)
    → (get_addrs now answers q).0 ≡ family true answers.addrs ++ family false answers.addrs
unfolding get_addrs
get_addrs-family now answers q = sort_by-family answers.addrs
