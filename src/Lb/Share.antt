-- ===== src/Lb/Share.antt =====
-- The share of each address: counts of pkg/lbcontroller/lbcontroller.go that are even, against the
-- number of nodes.
use google_cloud_platform_nf.Prelude.{
  ℕ, suc, ◌+◌, ◌*◌, ◌≤◌, ◌≡◌, refl, List, [], ◌∷◌, true, false, length, arith, All, if◌then◌else◌,
  Option-cases, inl, inr,
}
use google_cloud_platform_nf.Text.{Bytes, eq_bytes, eq_bytes_iff}
use google_cloud_platform_nf.Cluster.{Node, assigned_ip}
use google_cloud_platform_nf.Lb.Census.{holds, population}
use google_cloud_platform_nf.Lb.Counted.{IsCounted}
use google_cloud_platform_nf.Lb.Balance.{IsBalanced}
use google_cloud_platform_nf.Lb.{IpMap, load, has_ip}

-- No address stands in the list twice.
abbrev pub Distinct : List Bytes → Type 0
Distinct [] = Unit {0}
Distinct (ip ∷ ips) = All (λ j. eq_bytes ip j ≡ false) ips × Distinct ips

-- How many nodes carry one of the addresses.
total : List Bytes → List Node → ℕ
total [] ns = 0
total (ip ∷ ips) ns = population ip ns + total ips ns

-- How many of the addresses a node carries.
carried : List Bytes → Node → ℕ
carried [] n = 0
carried (ip ∷ ips) n = (if holds ip n then 1 else 0) + carried ips n

one_address :
    (ip j : Bytes) (n : Node) → holds ip n ≡ true → eq_bytes ip j ≡ false → holds j n ≡ false
unfolding holds
one_address ip j n here other = elim (Option-cases (assigned_ip n)) [
  | inl bare ↦ rw (bare, holds) refl
  | inr (i, e) ↦
      let same : eq_bytes i ip ≡ true = rw (e, holds) at here in
      rw (e, holds) (ground (arith, same, other, eq_bytes_iff i ip, eq_bytes_iff i j))
]

none_carried :
    (ip : Bytes) (ips : List Bytes) (n : Node)
    → holds ip n ≡ true
    → All (λ j. eq_bytes ip j ≡ false) ips
    → carried ips n ≡ 0
unfolding carried
none_carried ip [] n here others = refl
none_carried ip (j ∷ ips) n here (other, others) =
    ground (arith, none_carried ip ips n here others, one_address ip j n here other)

carried-le : (ips : List Bytes) (n : Node) → Distinct ips → carried ips n ≤ 1
unfolding carried
carried-le [] n distinct = omega arith
carried-le (ip ∷ ips) n (others, distinct) =
    ground (arith, carried-le ips n distinct, none_carried ip ips n)

total-cons :
    (ips : List Bytes) (n : Node) (ns : List Node)
    → total ips (n ∷ ns) ≡ carried ips n + total ips ns
unfolding total carried population
total-cons [] n ns = refl
total-cons (ip ∷ ips) n ns = omega (arith, total-cons ips n ns)

total-nil : (ips : List Bytes) → total ips [] ≡ 0
unfolding total population
total-nil [] = refl
total-nil (ip ∷ ips) = omega (arith, total-nil ips)

-- Each node carries one address at most.
total-le-length : (ips : List Bytes) (ns : List Node) → Distinct ips → total ips ns ≤ length ns
total-le-length ips [] distinct = omega (arith, total-nil ips)
total-le-length ips (n ∷ ns) distinct =
    omega (arith, total-cons ips n ns, carried-le ips n distinct, total-le-length ips ns distinct)

suc_mul : (n x : ℕ) → suc n * x ≡ x + n * x
suc_mul n x = omega arith

-- An address that has one node more than any of the others at most.
length-mul-le :
    (m : IpMap) (ns : List Node) (ips : List Bytes) (x : ℕ)
    → IsCounted m ns
    → All (λ j. has_ip m j ≡ true) ips
    → ((j : Bytes) → has_ip m j ≡ true → x ≤ load m j + 1)
    → length ips * x ≤ total ips ns + length ips
unfolding total
length-mul-le m ns [] x counted known even = omega arith
length-mul-le m ns (ip ∷ ips) x counted (here, known) even = omega (
  arith,
  suc_mul (length ips) x,
  even ip here,
  counted.exact ip here,
  length-mul-le m ns ips x counted known even,
)

-- Where the counts are those of the nodes and within one of each other, an address carries at most the
-- average and one node more.
pub load-le-share :
    (m : IpMap) (ns : List Node) (ips : List Bytes) (ip : Bytes)
    → IsCounted m ns
    → IsBalanced m
    → Distinct ips
    → All (λ j. has_ip m j ≡ true) ips
    → has_ip m ip ≡ true
    → length ips * load m ip ≤ length ns + length ips
load-le-share m ns ips ip counted balanced distinct known there = omega (
  arith,
  total-le-length ips ns distinct,
  length-mul-le m ns ips (load m ip) counted known (λ j here. balanced.even j ip here there),
)
