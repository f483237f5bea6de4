-- ===== src/Lb/Resync.antt =====
-- The counts that `NewLBController` starts from: `resyncIPMap` of pkg/lbcontroller/lbcontroller.go.
use google_cloud_platform_nf.Prelude.{
  ◌+◌, ◌^◌, ◌<◌, ◌≡◌, refl, List, [], ◌∷◌, Bool, Option, none, some, arith, length, true, false,
  ◌||◌, if◌then◌else◌,
}
use google_cloud_platform_nf.Text.{Bytes, eq_bytes}
use google_cloud_platform_nf.Maps.{lookup, insert}
use google_cloud_platform_nf.Cluster.{Node, assigned_ip, NodeApi, IsFresh, Reply, found, refused}
use google_cloud_platform_nf.Lb.Census.{count_laws, holds, population}
use google_cloud_platform_nf.Lb.Counted.{IsCounted}
use google_cloud_platform_nf.Lb.{
  IpMap, load, has_ip, increment, zero_ips, count_node, count_nodes, resync_ip_map,
}

has_ip-count_node :
    (a : Option Bytes) (m : IpMap) (j : Bytes) → has_ip (count_node a m) j ≡ has_ip m j
unfolding count_node
has_ip-count_node none m j = refl
has_ip-count_node (some ip) m j = grind count_laws

has_ip-count_nodes :
    (ns : List Node) (m : IpMap) (j : Bytes) → has_ip (count_nodes ns m) j ≡ has_ip m j
unfolding count_nodes
has_ip-count_nodes [] m j = refl
has_ip-count_nodes (n ∷ ns) m j = ground (
  arith,
  has_ip-count_nodes ns (count_node (assigned_ip n) m) j,
  has_ip-count_node (assigned_ip n) m j,
)

load-count_node :
    (n : Node) (a : Option Bytes) (m : IpMap) (j : Bytes)
    → assigned_ip n ≡ a
    → has_ip m j ≡ true
    → load m j + 1 < 2 ^ 63
    → load (count_node a m) j ≡ load m j + (if holds j n then 1 else 0)
unfolding count_node increment holds
load-count_node n none m j e h r = ground arith
load-count_node n (some ip) m j e h r = grind count_laws

load-count_nodes :
    (ns : List Node) (m : IpMap) (j : Bytes)
    → has_ip m j ≡ true
    → load m j + length ns < 2 ^ 63
    → load (count_nodes ns m) j ≡ load m j + population j ns
unfolding count_nodes population
load-count_nodes [] m j h r = omega arith
load-count_nodes (n ∷ ns) m j h r = ground (
  arith,
  load-count_node n (assigned_ip n) m j refl,
  has_ip-count_node (assigned_ip n) m j,
  load-count_nodes ns (count_node (assigned_ip n) m) j,
)

-- The address is on the list.
unfoldable pub listed : Bytes → List Bytes → Bool
listed j [] = false
listed j (ip ∷ ips) = eq_bytes ip j || listed j ips

has_ip-zero_ips :
    (ips : List Bytes) (m : IpMap) (j : Bytes)
    → has_ip (zero_ips ips m) j ≡ (listed j ips || has_ip m j)
unfolding zero_ips listed
has_ip-zero_ips [] m j = refl
has_ip-zero_ips (ip ∷ ips) m j = grind (count_laws, has_ip-zero_ips ips (insert ip 0 m) j)

load-zero_ips :
    (ips : List Bytes) (m : IpMap) (j : Bytes) → load m j ≡ 0 → load (zero_ips ips m) j ≡ 0
unfolding zero_ips
load-zero_ips [] m j h = h
load-zero_ips (ip ∷ ips) m j h = grind (count_laws, load-zero_ips ips (insert ip 0 m) j)

load-nil : (j : Bytes) → load [] j ≡ 0
unfolding load lookup
load-nil j = refl

has_ip-nil : (j : Bytes) → has_ip [] j ≡ false
unfolding lookup
has_ip-nil j = refl

module _ (api : NodeApi) (s : api.State) (ips : List Bytes) (m : IpMap) where
  resync_inversion :
      resync_ip_map api s ips ≡ found m
      → (ns : List Node) × (api.list s ≡ found ns) × (m ≡ count_nodes ns (zero_ips ips []))
  unfolding resync_ip_map
  resync_inversion h = by_reply (api.list s) refl
    where
      by_reply :
          (r : Reply (List Node))
          → api.list s ≡ r
          → (ns : List Node) × (api.list s ≡ found ns) × (m ≡ count_nodes ns (zero_ips ips []))
      by_reply (found ns) e = (ns, e, ground arith)
      by_reply (refused err) e = absurd (ground arith)

  -- A resync that succeeds counts every address of the list, and no other.
  pub resync_ip_map-keys :
      (j : Bytes) → resync_ip_map api s ips ≡ found m → has_ip m j ≡ listed j ips
  resync_ip_map-keys j h =
      let (ns, _, e) = resync_inversion h in
      ground (
        arith,
        e,
        has_ip-count_nodes ns (zero_ips ips []) j,
        has_ip-zero_ips ips [] j,
        has_ip-nil j,
      )

  -- What a resync counts is the list that it reads, so the list is all that has to be up to date.
  pub resync_ip_map_current :
      (nodes : api.State → List Node)
      → ((ns : List Node) → api.list s ≡ found ns → ns ≡ nodes s)
      → length (nodes s) < 2 ^ 63
      → resync_ip_map api s ips ≡ found m
      → IsCounted m (nodes s)
  resync_ip_map_current nodes current fits h =
      let (ns, got, e) = resync_inversion h in
      let same : ns ≡ nodes s = current ns got in
      record { exact = exact_of ns e same; bounded = fits }
    where
      exact_of :
          (ns : List Node)
          → m ≡ count_nodes ns (zero_ips ips [])
          → ns ≡ nodes s
          → (ip : Bytes) → has_ip m ip ≡ true
          → load m ip ≡ population ip (nodes s)
      exact_of ns e same ip known =
          let zeroed : load (zero_ips ips []) ip ≡ 0 = load-zero_ips ips [] ip (load-nil ip) in
          let here : has_ip (zero_ips ips []) ip ≡ true =
            ground (arith, e, known, has_ip-count_nodes ns (zero_ips ips []) ip) in
          let small : length ns < 2 ^ 63 = rw same fits in
          rw (← same, e)
            (ground (arith, load-count_nodes ns (zero_ips ips []) ip here, zeroed, small))

  -- A resync that succeeds gives each address the number of nodes that carry it, where the lister
  -- is up to date and the nodes fit an `int`.
  pub resync_ip_map-IsCounted :
      (nodes : api.State → List Node)
      → IsFresh api nodes
      → length (nodes s) < 2 ^ 63
      → resync_ip_map api s ips ≡ found m
      → IsCounted m (nodes s)
  resync_ip_map-IsCounted nodes fresh fits h =
      resync_ip_map_current nodes (λ ns got. fresh.list_found s ns got) fits h
