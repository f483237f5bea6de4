-- ===== src/Lb/Balance.antt =====
-- How evenly the nodes are spread over the addresses.
use mathlib.Core.List.{Perm}
use google_cloud_platform_nf.Prelude.{
  ℕ, ◌+◌, ◌^◌, ◌≤◌, ◌<◌, ◌≡◌, ◌≢◌, List, Option, none, arith, true,
}
use google_cloud_platform_nf.Text.{Bytes}
use google_cloud_platform_nf.Maps.{lookup, insert}
use google_cloud_platform_nf.Cluster.{NodeApi}
use google_cloud_platform_nf.Lb.Census.{count_laws}
use google_cloud_platform_nf.Lb.Counted.{has_ip_of_lookup}
use google_cloud_platform_nf.Lb.Selection.{select_ip-mem, select_ip-le}
use google_cloud_platform_nf.Lb.Outcomes.{
  Effect, keeps, fails, counts, crashes, assign_ip_to_node-Effect,
}
use google_cloud_platform_nf.Lb.{
  IpMap, LbController, load, has_ip, biased, increment, assign_ip_to_node, Assignment,
}

-- Any two addresses differ by one node at most.
pub record IsBalanced (m : IpMap) : Type 0 where
  pub even : (i j : Bytes) → has_ip m i ≡ true → has_ip m j ≡ true → load m j ≤ load m i + 1

-- The counts are natural numbers.
pub record IsSmall (m : IpMap) : Type 0 where
  pub room : (i : Bytes) → has_ip m i ≡ true → load m i < 2 ^ 63

pub lookup_of_has_ip : (m : IpMap) (i : Bytes) → has_ip m i ≡ true → lookup i m ≢ none
lookup_of_has_ip m i h e = ground (arith, h, e)

biased-le : (a b : ℕ) → a < 2 ^ 63 → b < 2 ^ 63 → biased a ≤ biased b → a ≤ b
unfolding biased
biased-le a b p q h = omega arith

-- The least loaded address is counted up.
insert-IsBalanced :
    (m : IpMap) (ip : Bytes)
    → IsBalanced m
    → IsSmall m
    → has_ip m ip ≡ true
    → ((j : Bytes) → has_ip m j ≡ true → load m ip ≤ load m j)
    → IsBalanced (insert ip (increment (load m ip)) m)
unfolding increment
insert-IsBalanced m ip balanced small known least = record {
  even = λ i j hi hj.
      grind
        (count_laws, balanced.even i j, balanced.even i ip, small.room ip known, least i, least j);
}

module _ (visit : List Bytes → List Bytes) (visits : (ks : List Bytes) → Perm (visit ks) ks) where
  pub Effect-IsBalanced :
      (old : Option Bytes) (c c' : LbController) (r : Assignment)
      → Effect visit old c c' r
      → IsBalanced c.ip_map
      → IsSmall c.ip_map
      → IsBalanced c'.ip_map
  Effect-IsBalanced old c c' r (keeps _ _ _ e _) balanced small = rw e balanced
  Effect-IsBalanced old c c' r (fails _ e _) balanced small = rw e balanced
  Effect-IsBalanced old c c' r (crashes e _ _) balanced small = rw e balanced
  Effect-IsBalanced old c c' r (counts ip pick e _) balanced small = rw e (
      insert-IsBalanced c.ip_map ip balanced small known (λ j hj.
        biased-le (load c.ip_map ip) (load c.ip_map j) (small.room ip known) (small.room j hj)
          (select_ip-le visit visits c.ip_map ip j pick (lookup_of_has_ip c.ip_map j hj))))
    where
      known : has_ip c.ip_map ip ≡ true
      known = has_ip_of_lookup c.ip_map ip (select_ip-mem visit visits c.ip_map ip pick)

  -- Where any two addresses are within one node of each other and each count is below 2 ^ 63, an
  -- assignment, whatever it returns, keeps them so.
  pub assign_ip_to_node-IsBalanced :
      (api : NodeApi) (s : api.State) (c : LbController) (k : Bytes)
      → IsBalanced c.ip_map
      → IsSmall c.ip_map
      → IsBalanced (assign_ip_to_node api visit s c k).1.ip_map
  assign_ip_to_node-IsBalanced api s c k balanced small =
      Effect-IsBalanced _ c _ _ (assign_ip_to_node-Effect api visit s c k) balanced small
