-- ===== src/Lb/Counted.antt =====
-- Counts that are those of the cluster's nodes, and one node that is written back: the arithmetic of
-- `ipMap[ip]++` and `ipMap[ip]--` in pkg/lbcontroller/lbcontroller.go.
use google_cloud_platform_nf.Prelude.{
  ◌^◌, ◌<◌, ◌≡◌, ◌≢◌, List, ◌∷◌, ◌++◌, length-append, none, some, arith, length, Option-cases, true,
  false, inl, inr,
}
use google_cloud_platform_nf.Text.{Bytes}
use google_cloud_platform_nf.Maps.{lookup, insert}
use google_cloud_platform_nf.Cluster.{Node, assigned_ip, find_node, replace_node}
use google_cloud_platform_nf.Lb.Census.{
  count_laws, holds, population, population-le-length, population-middle, length-replace_node,
  population-replace_node,
}
use google_cloud_platform_nf.Lb.{IpMap, load, has_ip, increment, decrement}

-- Each address of the map is counted as often as nodes carry it; the cluster has room in an `int`.
pub record IsCounted (m : IpMap) (ns : List Node) : Type 0 where
  pub exact : (ip : Bytes) → has_ip m ip ≡ true → load m ip ≡ population ip ns
  pub bounded : length ns < 2 ^ 63

module _ (m : IpMap) (ns : List Node) (counted : IsCounted m ns) (k ip : Bytes) (n : Node)
    (there : find_node k ns ≡ some n) (known : has_ip m ip ≡ true) where
  below : (j : Bytes) → has_ip m j ≡ true → load m j < 2 ^ 63
  below j h = omega (arith, counted.exact j h, counted.bounded, population-le-length j ns)

  -- A node with no address of the map is written back with one.
  count_up_at :
      (n' : Node) (j : Bytes)
      → n'.name ≡ n.name
      → assigned_ip n' ≡ some ip
      → (has_ip m j ≡ true → holds j n ≡ false)
      → has_ip (insert ip (increment (load m ip)) m) j ≡ true
      → load (insert ip (increment (load m ip)) m) j ≡ population j (replace_node n' ns)
  unfolding increment holds
  count_up_at n' j same given free h =
      grind (
        count_laws,
        counted.exact j,
        below ip known,
        population-replace_node j k ns n n' there same,
      )

  pub count_up :
      (n' : Node)
      → n'.name ≡ n.name
      → assigned_ip n' ≡ some ip
      → ((j : Bytes) → has_ip m j ≡ true → holds j n ≡ false)
      → IsCounted (insert ip (increment (load m ip)) m) (replace_node n' ns)
  count_up n' same given free = record {
    exact = λ j h. count_up_at n' j same given (free j) h;
    bounded = omega (arith, counted.bounded, length-replace_node n' ns);
  }

  count_down_at :
      (n' : Node) (j : Bytes)
      → n'.name ≡ n.name
      → assigned_ip n' ≡ none
      → assigned_ip n ≡ some ip
      → has_ip (insert ip (decrement (load m ip)) m) j ≡ true
      → load (insert ip (decrement (load m ip)) m) j ≡ population j (replace_node n' ns)
  unfolding decrement holds
  count_down_at n' j same bare held h =
      grind (
        count_laws,
        counted.exact j,
        below ip known,
        population-replace_node j k ns n n' there same,
      )

  pub count_down :
      (n' : Node)
      → n'.name ≡ n.name
      → assigned_ip n' ≡ none
      → assigned_ip n ≡ some ip
      → IsCounted (insert ip (decrement (load m ip)) m) (replace_node n' ns)
  count_down n' same bare held = record {
    exact = λ j h. count_down_at n' j same bare held h;
    bounded = omega (arith, counted.bounded, length-replace_node n' ns);
  }

pub has_ip_of_lookup : (m : IpMap) (ip : Bytes) → lookup ip m ≢ none → has_ip m ip ≡ true
has_ip_of_lookup m ip h = elim (Option-cases (lookup ip m)) [
  | inl e ↦ absurd (h e)
  | inr (v, e) ↦ rw (e, has_ip)
]

-- Nodes without an address come and go.
pub joins-IsCounted :
    (m : IpMap) (ns : List Node) (n : Node)
    → IsCounted m ns
    → assigned_ip n ≡ none
    → length (n ∷ ns) < 2 ^ 63
    → IsCounted m (n ∷ ns)
unfolding population holds
joins-IsCounted m ns n counted bare fits = record {
  exact = λ ip h. ground (arith, counted.exact ip h, bare);
  bounded = fits;
}

pub leaves-IsCounted :
    (m : IpMap) (before : List Node) (n : Node) (after : List Node)
    → IsCounted m (before ++ n ∷ after)
    → assigned_ip n ≡ none
    → IsCounted m (before ++ after)
unfolding holds
leaves-IsCounted m before n after counted bare = record {
  exact = λ ip h. ground (arith, counted.exact ip h, population-middle ip before n after, bare);
  bounded =
      omega (arith, counted.bounded, length-append before (n ∷ after), length-append before after);
}
