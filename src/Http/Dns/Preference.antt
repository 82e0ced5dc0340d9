-- ===== src/Http/Dns/Preference.antt =====
-- How src/http/dns.rs splits a list of addresses by their family.
use simple_http.Base.{Bool, true, false, not, [], ◌∷◌, ◌≡◌, sym, refl, inl, inr, Bool-cases}
use simple_http.Http.Dns.{SocketAddr, IpAddrs, is_ipv6, same, partition, split_by_preference}

-- `addrs` is made of `kept` and `others`, each in its order.
pub data Merges : IpAddrs → IpAddrs → IpAddrs → Type 0 where
  both_done : Merges [] [] []
  from_kept :
      (a : SocketAddr) {kept others addrs : IpAddrs}
      → Merges kept others addrs
      → Merges (a ∷ kept) others (a ∷ addrs)
  from_others :
      (a : SocketAddr) {kept others addrs : IpAddrs}
      → Merges kept others addrs
      → Merges kept (a ∷ others) (a ∷ addrs)

-- Every address of the list is, or is not, of IPv6.
pub data AllV6 (b : Bool) : IpAddrs → Type 0 where
  none_left : AllV6 b []
  one_more : {a : SocketAddr} {tail : IpAddrs} → is_ipv6 a ≡ b → AllV6 b tail → AllV6 b (a ∷ tail)

same_eq : (a b : Bool) → same a b ≡ true → a ≡ b
same_eq true b h = sym h
same_eq false true h = cc
same_eq false false h = refl

same_ne : (a b : Bool) → same a b ≡ false → a ≡ not b
same_ne true true h = cc
same_ne true false h = refl
same_ne false true h = refl
same_ne false false h = cc

pub same_refl : (a : Bool) → same a a ≡ true
same_refl true = refl
same_refl false = refl

partition-Merges :
    (v : Bool) (tail : IpAddrs)
    → (let (kept, others) = partition (λ a. same (is_ipv6 a) v) tail in
        Merges kept others tail × AllV6 v kept × AllV6 (not v) others)
unfolding partition
partition-Merges v [] = (both_done, none_left, none_left)
partition-Merges v (a ∷ tail) =
    let (m, y, n) = partition-Merges v tail in
    elim (Bool-cases (same (is_ipv6 a) v)) [
      | inl e ↦ rw e (from_kept a m, one_more (same_eq (is_ipv6 a) v e) y, n)
      | inr e ↦ rw e (from_others a m, y, one_more (same_ne (is_ipv6 a) v e) n)
    ]

-- The addresses that are tried first are those of the family of the first address, the fallback
-- those of the other family. Each keeps its order, none is lost or added, and the first is kept.
pub split_by_preference-Merges :
    (a : SocketAddr) (tail : IpAddrs)
    → (let (preferred, fallback) = split_by_preference (a ∷ tail) in
        Merges preferred fallback (a ∷ tail)
        × AllV6 (is_ipv6 a) preferred
        × AllV6 (not (is_ipv6 a)) fallback)
      × (rest : IpAddrs) × ((split_by_preference (a ∷ tail)).0 ≡ a ∷ rest)
unfolding split_by_preference partition
split_by_preference-Merges a tail = (
  partition-Merges (is_ipv6 a) (a ∷ tail),
  (partition (λ b. same (is_ipv6 b) (is_ipv6 a)) tail).0,
  rw same_refl refl,
)
