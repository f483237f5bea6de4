-- ===== src/Lb/Progress.antt =====
-- When `AssignIPToNode` and `RemoveIPFromNode` of pkg/lbcontroller/lbcontroller.go succeed.
use mathlib.Core.List.{Perm}
use google_cloud_platform_nf.Prelude.{
  ◌≡◌, ◌≢◌, refl, List, Option, none, some, true, Bool-cases, inl, inr,
}
use google_cloud_platform_nf.Text.{Bytes}
use google_cloud_platform_nf.Maps.{lookup}
use google_cloud_platform_nf.Cluster.{Node, assigned_ip, NodeApi, found}
use google_cloud_platform_nf.Lb.Counted.{has_ip_of_lookup}
use google_cloud_platform_nf.Lb.Selection.{select_ip-mem, select_ip-ne-none}
use google_cloud_platform_nf.Lb.Branches.{
  write_ip_done, assign_ip_to_node_found, assign_to_kept, assign_to_stale, assign_to_fresh,
}
use google_cloud_platform_nf.Lb.{
  LbController, has_ip, annotate, select_ip, write_ip, assign_to, assign_ip_to_node, assigned,
  Assignment,
}

-- The outcome is an address that the controller counts.
pub record IsAssigned (c : LbController) (r : Assignment) : Type 0 where
  pub ip : Bytes
  pub is_ip : r ≡ assigned ip
  pub counted : has_ip c.ip_map ip ≡ true

module _ (api : NodeApi) (visit : List Bytes → List Bytes)
    (visits : (ks : List Bytes) → Perm (visit ks) ks) (s : api.State) (c : LbController) where
  module _ (n : Node) (j : Bytes) (known : lookup j c.ip_map ≢ none)
      (accepted : (ip : Bytes) → (api.update s (annotate n ip)).1 ≡ none) where
    write_ip-IsAssigned :
        (pick : Option Bytes)
        → select_ip visit c.ip_map ≡ pick
        → IsAssigned c (write_ip api visit s c n pick).2
    write_ip-IsAssigned none e = absurd (select_ip-ne-none visit visits c.ip_map j known e)
    write_ip-IsAssigned (some ip) e = rw (write_ip_done api visit s c n ip (accepted ip)) (record {
      ip = ip;
      is_ip = refl;
      counted = has_ip_of_lookup c.ip_map ip (select_ip-mem visit visits c.ip_map ip e);
    })

    assign_to-IsAssigned : (old : Option Bytes) → IsAssigned c (assign_to api visit s c n old).2
    assign_to-IsAssigned none = rw (assign_to_fresh api visit s c n) (write_ip-IsAssigned _ refl)
    assign_to-IsAssigned (some ip) = elim (Bool-cases (has_ip c.ip_map ip)) [
      | inl there ↦
          rw (assign_to_kept api visit s c n ip there)
            (record { ip = ip; is_ip = refl; counted = there })
      | inr gone ↦ rw (assign_to_stale api visit s c n ip gone) (write_ip-IsAssigned _ refl)
    ]

    pub assign_ip_to_node-IsAssigned :
        (k : Bytes) → api.get s k ≡ found n → IsAssigned c (assign_ip_to_node api visit s c k).2
    assign_ip_to_node-IsAssigned k got =
        rw (assign_ip_to_node_found api visit s c k n got) (assign_to-IsAssigned (assigned_ip n))
