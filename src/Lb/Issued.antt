-- ===== src/Lb/Issued.antt =====
-- Nodes that the server has held stay so under `AssignIPToNode` and `RemoveIPFromNode`,
-- pkg/lbcontroller/lbcontroller.go.
use google_cloud_platform_nf.Prelude.{List, Option, none, some, Bool-cases, Option-cases, inl, inr}
use google_cloud_platform_nf.Text.{Bytes}
use google_cloud_platform_nf.Cluster.{Node, NodeApi, IsVersioned}
use google_cloud_platform_nf.Lb.Branches.{
  write_ip_done, write_ip_failed, assign_to_kept, assign_to_stale, assign_to_fresh,
  write_removal_done, write_removal_failed, remove_from-none, remove_from_unknown,
  remove_from_known,
}
use google_cloud_platform_nf.Lb.{
  LbController, has_ip, annotate, unannotate, write_ip, assign_to, remove_from,
}

module _ (api : NodeApi) (nodes : api.State → List Node) (Issued : api.State → Node → Type 0)
    (versioned : IsVersioned api nodes Issued) where
  write_ip-issued :
      (visit : List Bytes → List Bytes) (s : api.State) (c : LbController) (n m : Node)
      (pick : Option Bytes)
      → Issued s m
      → Issued (write_ip api visit s c n pick).0 m
  unfolding write_ip
  write_ip-issued visit s c n m none issued = issued
  write_ip-issued visit s c n m (some ip) issued =
      elim (Option-cases (api.update s (annotate n ip)).1) [
        | inl done ↦
            rw (write_ip_done api visit s c n ip done)
              (versioned.update_issued s (annotate n ip) m issued)
        | inr (err, failed) ↦
            rw (write_ip_failed api visit s c n ip err failed)
              (versioned.update_issued s (annotate n ip) m issued)
      ]

  pub assign_to-issued :
      (visit : List Bytes → List Bytes) (s : api.State) (c : LbController) (n m : Node)
      (old : Option Bytes)
      → Issued s m
      → Issued (assign_to api visit s c n old).0 m
  assign_to-issued visit s c n m none issued =
      rw (assign_to_fresh api visit s c n) (write_ip-issued visit s c n m _ issued)
  assign_to-issued visit s c n m (some ip) issued = elim (Bool-cases (has_ip c.ip_map ip)) [
    | inl known ↦ rw (assign_to_kept api visit s c n ip known) issued
    | inr unknown ↦
        rw (assign_to_stale api visit s c n ip unknown) (write_ip-issued visit s c n m _ issued)
  ]

  pub remove_from-issued :
      (s : api.State) (c : LbController) (n m : Node) (old : Option Bytes)
      → Issued s m
      → Issued (remove_from api s c n old).0 m
  remove_from-issued s c n m none issued = rw (remove_from-none api s c n) issued
  remove_from-issued s c n m (some ip) issued = elim (Bool-cases (has_ip c.ip_map ip)) [
    | inr unknown ↦ rw (remove_from_unknown api s c n ip unknown) issued
    | inl known ↦
        rw (remove_from_known api s c n ip known)
          (elim (Option-cases (api.update s (unannotate n)).1) [
            | inl done ↦
                rw (write_removal_done api s c n ip done)
                  (versioned.update_issued s (unannotate n) m issued)
            | inr (err, failed) ↦
                rw (write_removal_failed api s c n ip err failed)
                  (versioned.update_issued s (unannotate n) m issued)
          ])
  ]
