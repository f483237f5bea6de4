-- ===== src/Lb/Census.antt =====
-- The count of an address against the nodes that carry it as their annotation.
use google_cloud_platform_nf.Prelude.{
  ℕ, ◌+◌, ◌≤◌, ◌≡◌, refl, List, [], ◌∷◌, ◌++◌, Bool, Option, none, some, arith, length, true, false,
  if◌then◌else◌,
}
use google_cloud_platform_nf.Text.{Bytes, eq_bytes, eq_bytes_iff, eq_bytes_refl}
use google_cloud_platform_nf.Maps.{insert, lookup-insert, lookup-remove}
use google_cloud_platform_nf.Cluster.{
  Node, node_annotation, assigned_ip, find_node, replace_node, with_version,
}
use google_cloud_platform_nf.Lb.{IpMap, load, has_ip, annotate, unannotate}

-- The node carries the address.
unfoldable pub holds : Bytes → Node → Bool
holds ip n = elim (assigned_ip n) [ none ↦ false | some j ↦ eq_bytes j ip ]

unfoldable pub population : Bytes → List Node → ℕ
population ip [] = 0
population ip (n ∷ ns) = (if holds ip n then 1 else 0) + population ip ns

pub load-insert :
    (m : IpMap) (ip j : Bytes) (v : ℕ)
    → load (insert ip v m) j ≡ (if eq_bytes ip j then v else load m j)
unfolding load
load-insert m ip j v = ground (arith, lookup-insert ip j v m)

pub has_ip-insert :
    (m : IpMap) (ip j : Bytes) (v : ℕ)
    → has_ip (insert ip v m) j ≡ (if eq_bytes ip j then true else has_ip m j)
has_ip-insert m ip j v = ground (arith, lookup-insert ip j v m)

-- What a write of one count does to the others.
pub ruleset count_laws = (arith, load-insert, has_ip-insert, eq_bytes_iff)

pub assigned_ip-annotate : (n : Node) (ip : Bytes) → assigned_ip (annotate n ip) ≡ some ip
unfolding assigned_ip annotate
assigned_ip-annotate n ip = ground (
  arith,
  lookup-insert node_annotation node_annotation ip (elim n.annotations [ none ↦ [] | some m ↦ m ]),
  eq_bytes_refl node_annotation,
)

pub name-annotate : (n : Node) (ip : Bytes) → (annotate n ip).name ≡ n.name
unfolding annotate
name-annotate n ip = refl

pub version-annotate :
    (n : Node) (ip : Bytes) → (annotate n ip).resource_version ≡ n.resource_version
unfolding annotate
version-annotate n ip = refl

pub version-unannotate : (n : Node) → (unannotate n).resource_version ≡ n.resource_version
unfolding unannotate
version-unannotate n = refl

pub assigned_ip-with_version :
    (v : Bytes) (n : Node) → assigned_ip (with_version v n) ≡ assigned_ip n
unfolding assigned_ip
assigned_ip-with_version v n = refl

pub name-unannotate : (n : Node) → (unannotate n).name ≡ n.name
unfolding unannotate
name-unannotate n = refl

unannotate_cases :
    (n : Node) (a : Option (List (Bytes × Bytes)))
    → n.annotations ≡ a
    → assigned_ip (unannotate n) ≡ none
unfolding assigned_ip unannotate
unannotate_cases n none e = rw e
unannotate_cases n (some m) e =
    rw (e, lookup-remove node_annotation node_annotation m, eq_bytes_refl node_annotation)

pub assigned_ip-unannotate : (n : Node) → assigned_ip (unannotate n) ≡ none
assigned_ip-unannotate n = unannotate_cases n n.annotations refl

pub population-le-length : (ip : Bytes) (ns : List Node) → population ip ns ≤ length ns
unfolding population
population-le-length ip [] = omega arith
population-le-length ip (n ∷ ns) = ground (arith, population-le-length ip ns)

pub population-middle :
    (ip : Bytes) (before : List Node) (n : Node) (after : List Node)
    → population ip (before ++ n ∷ after)
      ≡ (if holds ip n then 1 else 0) + population ip (before ++ after)
unfolding population
population-middle ip [] n after = refl
population-middle ip (m ∷ before) n after = omega (arith, population-middle ip before n after)

pub length-replace_node : (n : Node) (ns : List Node) → length (replace_node n ns) ≡ length ns
unfolding replace_node
length-replace_node n [] = refl
length-replace_node n (m ∷ ms) = ground (arith, length-replace_node n ms)

pub find_node-name : (k : Bytes) (ns : List Node) (n : Node) → find_node k ns ≡ some n → n.name ≡ k
unfolding find_node
find_node-name k [] n e = cc
find_node-name k (m ∷ ms) n e = ground (arith, eq_bytes_iff m.name k, find_node-name k ms n)

-- A node that is written back moves the counts by itself alone.
pub population-replace_node :
    (ip k : Bytes) (ns : List Node) (n n' : Node)
    → find_node k ns ≡ some n
    → n'.name ≡ n.name
    → population ip (replace_node n' ns) + (if holds ip n then 1 else 0)
      ≡ population ip ns + (if holds ip n' then 1 else 0)
unfolding population find_node replace_node
population-replace_node ip k [] n n' e h = cc
population-replace_node ip k (m ∷ ms) n n' e h = ground (
  arith,
  eq_bytes_iff m.name k,
  eq_bytes_iff m.name n'.name,
  find_node-name k (m ∷ ms) n e,
  population-replace_node ip k ms n n',
)
