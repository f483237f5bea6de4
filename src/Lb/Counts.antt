-- ===== src/Lb/Counts.antt =====
-- The in-memory counts stay those of the cluster: `resyncIPMap`, `AssignIPToNode` and
-- `RemoveIPFromNode` of pkg/lbcontroller/lbcontroller.go.
use mathlib.Core.List.{Perm}
use google_cloud_platform_nf.Prelude.{
  ◌≡◌, refl, ◌∙◌, List, Option, none, some, arith, Bool-cases, Option-cases, true, false, inl, inr,
}
use google_cloud_platform_nf.Text.{Bytes, eq_bytes_iff}
use google_cloud_platform_nf.Cluster.{
  Node, assigned_ip, with_version, NodeApi, IsVersioned, Reply, found, refused, missing,
  unavailable,
}
use google_cloud_platform_nf.Lb.Census.{
  holds, assigned_ip-annotate, assigned_ip-unannotate, name-annotate, name-unannotate,
  version-annotate, version-unannotate, assigned_ip-with_version,
}
use google_cloud_platform_nf.Lb.Selection.{select_ip-mem}
use google_cloud_platform_nf.Lb.Branches.{
  write_ip_done, write_ip_failed, assign_ip_to_node_found, assign_ip_to_node_refused,
  assign_to_kept, assign_to_stale, assign_to_fresh, write_removal_done, write_removal_failed,
  remove_ip_from_node_found, remove_ip_from_node_missing, remove_ip_from_node_unavailable,
  remove_from-none, remove_from_unknown, remove_from_known,
}
use google_cloud_platform_nf.Lb.{
  LbController, has_ip, annotate, unannotate, select_ip, write_ip, assign_to, assign_ip_to_node,
  write_removal, remove_from, remove_ip_from_node,
}
use google_cloud_platform_nf.Lb.Counted.{IsCounted, count_up, count_down, has_ip_of_lookup}

module _ (api : NodeApi) (nodes : api.State → List Node) where
  -- A call keeps the counts, whatever it returns.
  abbrev pub Keeps : {R : Type 0} → api.State × LbController × R → Type 0
  Keeps t = IsCounted t.1.ip_map (nodes t.0)

module _ (api : NodeApi) (nodes : api.State → List Node) (Issued : api.State → Node → Type 0)
    (versioned : IsVersioned api nodes Issued) (visit : List Bytes → List Bytes)
    (visits : (ks : List Bytes) → Perm (visit ks) ks) where
  write_ip-Keeps :
      (s : api.State) (c : LbController) (n : Node) (pick : Option Bytes)
      → IsCounted c.ip_map (nodes s)
      → Issued s n
      → ((j : Bytes) → has_ip c.ip_map j ≡ true → holds j n ≡ false)
      → select_ip visit c.ip_map ≡ pick
      → Keeps api nodes (write_ip api visit s c n pick)
  unfolding write_ip
  write_ip-Keeps s c n none counted issued free e = counted
  write_ip-Keeps s c n (some ip) counted issued free e =
      elim (Option-cases (api.update s (annotate n ip)).1) [
        | inl done ↦
            let (v, stored) = versioned.update_done s (annotate n ip) done in
            rw (write_ip_done api visit s c n ip done, stored)
              (count_up c.ip_map (nodes s) counted n.name ip n
                (versioned.update_current s n (annotate n ip) issued (name-annotate n ip)
                  (version-annotate n ip) done)
                (has_ip_of_lookup c.ip_map ip (select_ip-mem visit visits c.ip_map ip e))
                (with_version v (annotate n ip)) (name-annotate n ip)
                (assigned_ip-with_version v (annotate n ip) ∙ assigned_ip-annotate n ip) free)
        | inr (err, failed) ↦
            rw
              (
                write_ip_failed api visit s c n ip err failed,
                versioned.update_failed s (annotate n ip) err failed,
              )
              counted
      ]

  pub assign_to-Keeps :
      (s : api.State) (c : LbController) (n : Node) (old : Option Bytes)
      → IsCounted c.ip_map (nodes s)
      → Issued s n
      → assigned_ip n ≡ old
      → Keeps api nodes (assign_to api visit s c n old)
  unfolding holds
  assign_to-Keeps s c n none counted issued e =
      rw (assign_to_fresh api visit s c n)
        (write_ip-Keeps s c n _ counted issued (λ j h. rw (e, holds)) refl)
  assign_to-Keeps s c n (some ip) counted issued e = elim (Bool-cases (has_ip c.ip_map ip)) [
    | inl known ↦ rw (assign_to_kept api visit s c n ip known) counted
    | inr unknown ↦ rw (assign_to_stale api visit s c n ip unknown) (
        write_ip-Keeps s c n _ counted issued
          (λ j h. ground (arith, e, h, unknown, eq_bytes_iff ip j)) refl)
  ]

  -- Counts that are those of the cluster's nodes still are after `AssignIPToNode`, whatever it
  -- returns and even where the lister lags behind: an update is relied on to succeed only where it is
  -- made from the server's own node, to replace that node then, and to change nothing otherwise.
  pub assign_ip_to_node-IsCounted :
      (s : api.State) (c : LbController) (k : Bytes)
      → IsCounted c.ip_map (nodes s)
      → Keeps api nodes (assign_ip_to_node api visit s c k)
  assign_ip_to_node-IsCounted s c k counted = by_reply (api.get s k) refl
    where
      by_reply :
          (r : Reply Node) → api.get s k ≡ r → Keeps api nodes (assign_ip_to_node api visit s c k)
      by_reply (found n) e =
          rw (assign_ip_to_node_found api visit s c k n e)
            (assign_to-Keeps s c n (assigned_ip n) counted (versioned.get_issued s k n e) refl)
      by_reply (refused err) e = rw (assign_ip_to_node_refused api visit s c k err e) counted

module _ (api : NodeApi) (nodes : api.State → List Node) (Issued : api.State → Node → Type 0)
    (versioned : IsVersioned api nodes Issued) where
  write_removal-Keeps :
      (s : api.State) (c : LbController) (n : Node) (ip : Bytes)
      → IsCounted c.ip_map (nodes s)
      → Issued s n
      → has_ip c.ip_map ip ≡ true
      → assigned_ip n ≡ some ip
      → Keeps api nodes (write_removal api s c n ip)
  write_removal-Keeps s c n ip counted issued known e =
      elim (Option-cases (api.update s (unannotate n)).1) [
        | inl done ↦
            let (v, stored) = versioned.update_done s (unannotate n) done in
            rw (write_removal_done api s c n ip done, stored)
              (count_down c.ip_map (nodes s) counted n.name ip n
                (versioned.update_current s n (unannotate n) issued (name-unannotate n)
                  (version-unannotate n) done)
                known (with_version v (unannotate n)) (name-unannotate n)
                (assigned_ip-with_version v (unannotate n) ∙ assigned_ip-unannotate n) e)
        | inr (err, failed) ↦
            rw
              (
                write_removal_failed api s c n ip err failed,
                versioned.update_failed s (unannotate n) err failed,
              )
              counted
      ]

  pub remove_from-Keeps :
      (s : api.State) (c : LbController) (n : Node) (old : Option Bytes)
      → IsCounted c.ip_map (nodes s)
      → Issued s n
      → assigned_ip n ≡ old
      → Keeps api nodes (remove_from api s c n old)
  remove_from-Keeps s c n none counted issued e = rw (remove_from-none api s c n) counted
  remove_from-Keeps s c n (some ip) counted issued e = elim (Bool-cases (has_ip c.ip_map ip)) [
    | inr unknown ↦ rw (remove_from_unknown api s c n ip unknown) counted
    | inl known ↦
        rw (remove_from_known api s c n ip known)
          (write_removal-Keeps s c n ip counted issued known e)
  ]

  -- Counts that are those of the cluster's nodes still are after `RemoveIPFromNode`, whatever it
  -- returns and even where the lister lags behind: an update is relied on to succeed only where it is
  -- made from the server's own node, to replace that node then, and to change nothing otherwise.
  pub remove_ip_from_node-IsCounted :
      (s : api.State) (c : LbController) (k : Bytes)
      → IsCounted c.ip_map (nodes s)
      → Keeps api nodes (remove_ip_from_node api s c k)
  remove_ip_from_node-IsCounted s c k counted = by_reply (api.get s k) refl
    where
      by_reply :
          (r : Reply Node) → api.get s k ≡ r → Keeps api nodes (remove_ip_from_node api s c k)
      by_reply (found n) e =
          rw (remove_ip_from_node_found api s c k n e)
            (remove_from-Keeps s c n (assigned_ip n) counted (versioned.get_issued s k n e) refl)
      by_reply (refused missing) e = rw (remove_ip_from_node_missing api s c k e) counted
      by_reply (refused unavailable) e = rw (remove_ip_from_node_unavailable api s c k e) counted
