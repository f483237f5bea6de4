-- ===== src/Lb/Withdrawal.antt =====
-- A `RemoveIPFromNode` of pkg/lbcontroller/lbcontroller.go that takes an address off a node.
use google_cloud_platform_nf.Prelude.{
  ◌+◌, ◌^◌, ◌<◌, ◌≡◌, refl, ◌∙◌, List, none, some, true, arith, if◌then◌else◌,
}
use google_cloud_platform_nf.Text.{Bytes, eq_bytes, eq_bytes_iff}
use google_cloud_platform_nf.Maps.{insert}
use google_cloud_platform_nf.Cluster.{
  Node, assigned_ip, find_node, with_version, NodeApi, IsVersioned, found,
}
use google_cloud_platform_nf.Lb.Census.{
  holds, count_laws, population-le-length, population-replace_node, load-insert, name-unannotate,
  version-unannotate, assigned_ip-unannotate, assigned_ip-with_version,
}
use google_cloud_platform_nf.Lb.Branches.{
  write_removal_done, remove_ip_from_node_found, remove_from_known,
}
use google_cloud_platform_nf.Lb.Counted.{IsCounted}
use google_cloud_platform_nf.Lb.Repeats.{find_node-replace_node}
use google_cloud_platform_nf.Lb.{
  IpMap, LbController, load, has_ip, decrement, unannotate, remove_ip_from_node,
}

-- A node that carries the address is counted.
load-positive :
    (m : IpMap) (ns : List Node) (n n' : Node) (ip : Bytes)
    → IsCounted m ns
    → has_ip m ip ≡ true
    → find_node n.name ns ≡ some n
    → assigned_ip n ≡ some ip
    → n'.name ≡ n.name
    → assigned_ip n' ≡ none
    → (0 < load m ip) × (load m ip < 2 ^ 63)
unfolding holds
load-positive m ns n n' ip counted known there held same bare =
    let moved = population-replace_node ip n.name ns n n' there same in
    let exact = counted.exact ip known in
    let few = population-le-length ip ns in
    let bounded = counted.bounded in
    (
      ground (arith, moved, exact, few, bounded, held, bare, eq_bytes_iff ip ip),
      ground (arith, exact, few, bounded),
    )

-- The address is counted once less and the other addresses as before; the server's node of that name
-- carries none.
pub record IsWithdrawn (c c' : LbController) (ns' : List Node) (n : Node) (ip : Bytes)
    : Type 0 where
  pub counts : (j : Bytes) → load c'.ip_map j + (if eq_bytes ip j then 1 else 0) ≡ load c.ip_map j
  pub bare : (m : Node) × (find_node n.name ns' ≡ some m) × (assigned_ip m ≡ none)

module _ (api : NodeApi) (nodes : api.State → List Node) (Issued : api.State → Node → Type 0)
    (versioned : IsVersioned api nodes Issued) (s : api.State) (c : LbController) (k ip : Bytes)
    (n : Node) (got : api.get s k ≡ found n) (held : assigned_ip n ≡ some ip)
    (known : has_ip c.ip_map ip ≡ true) (accepted : (api.update s (unannotate n)).1 ≡ none) where
  pub remove_ip_from_node_withdraws : remove_ip_from_node api s c k ≡ (
    (api.update s (unannotate n)).0,
    record c { ip_map = insert ip (decrement (load c.ip_map ip)) c.ip_map },
    none,
  )
  remove_ip_from_node_withdraws =
      rw
        (
          remove_ip_from_node_found api s c k n got,
          held,
          remove_from_known api s c n ip known,
          write_removal_done api s c n ip accepted,
        )
        refl

  decrement-counts :
      (j : Bytes)
      → 0 < load c.ip_map ip
      → load c.ip_map ip < 2 ^ 63
      → load (insert ip (decrement (load c.ip_map ip)) c.ip_map) j
          + (if eq_bytes ip j then 1 else 0)
        ≡ load c.ip_map j
  unfolding decrement
  decrement-counts j some_there small =
      grind (count_laws, some_there, small, load-insert c.ip_map ip j)

  pub remove_ip_from_node-IsWithdrawn :
      IsCounted c.ip_map (nodes s)
      → IsWithdrawn c
          (remove_ip_from_node api s c k).1
          (nodes (remove_ip_from_node api s c k).0)
          n
          ip
  remove_ip_from_node-IsWithdrawn counted =
      let (v, stored) = versioned.update_done s (unannotate n) accepted in
      let m : Node = with_version v (unannotate n) in
      let there =
        versioned.update_current s n (unannotate n) (versioned.get_issued s k n got)
          (name-unannotate n) (version-unannotate n) accepted in
      let bare : assigned_ip m ≡ none =
        assigned_ip-with_version v (unannotate n) ∙ assigned_ip-unannotate n in
      let range =
        load-positive c.ip_map (nodes s) n m ip counted known there held (name-unannotate n) bare in
      rw (remove_ip_from_node_withdraws, stored)
        (record {
          counts = λ j. decrement-counts j range.0 range.1;
          bare = (m, find_node-replace_node n.name (nodes s) n m there (name-unannotate n), bare);
        })
