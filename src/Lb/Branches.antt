-- ===== src/Lb/Branches.antt =====
-- The branches of `AssignIPToNode` and `RemoveIPFromNode`, as equations for rewriting.
use google_cloud_platform_nf.Prelude.{◌≡◌, refl, List, none, some, true, false}
use google_cloud_platform_nf.Text.{Bytes}
use google_cloud_platform_nf.Maps.{insert}
use google_cloud_platform_nf.Cluster.{
  Node, assigned_ip, ApiError, NodeApi, found, refused, missing, unavailable,
}
use google_cloud_platform_nf.Lb.{
  LbController, load, has_ip, increment, decrement, annotate, unannotate, select_ip, write_ip,
  assign_to, assign_ip_to_node, write_removal, remove_from, remove_ip_from_node, assigned,
  not_assigned,
}

module _ (api : NodeApi) (visit : List Bytes → List Bytes) (s : api.State) (c : LbController) where
  pub write_ip_done :
      (n : Node) (ip : Bytes)
      → (api.update s (annotate n ip)).1 ≡ none
      → write_ip api visit s c n (some ip) ≡ (
        (api.update s (annotate n ip)).0,
        record c { ip_map = insert ip (increment (load c.ip_map ip)) c.ip_map },
        assigned ip,
      )
  unfolding write_ip
  write_ip_done n ip e = rw (e, write_ip)

  pub write_ip_failed :
      (n : Node) (ip : Bytes) (err : ApiError)
      → (api.update s (annotate n ip)).1 ≡ some err
      → write_ip api visit s c n (some ip) ≡ ((api.update s (annotate n ip)).0, c, not_assigned err)
  unfolding write_ip
  write_ip_failed n ip err e = rw (e, write_ip)

  pub assign_ip_to_node_found :
      (k : Bytes) (n : Node)
      → api.get s k ≡ found n
      → assign_ip_to_node api visit s c k ≡ assign_to api visit s c n (assigned_ip n)
  unfolding assign_ip_to_node
  assign_ip_to_node_found k n e = rw (e, assign_ip_to_node)

  pub assign_ip_to_node_refused :
      (k : Bytes) (err : ApiError)
      → api.get s k ≡ refused err
      → assign_ip_to_node api visit s c k ≡ (s, c, not_assigned err)
  unfolding assign_ip_to_node
  assign_ip_to_node_refused k err e = rw (e, assign_ip_to_node)

  pub assign_to_kept :
      (n : Node) (ip : Bytes)
      → has_ip c.ip_map ip ≡ true
      → assign_to api visit s c n (some ip) ≡ (s, c, assigned ip)
  unfolding assign_to
  assign_to_kept n ip e = rw (e, assign_to)

  pub assign_to_stale :
      (n : Node) (ip : Bytes)
      → has_ip c.ip_map ip ≡ false
      → assign_to api visit s c n (some ip) ≡ write_ip api visit s c n (select_ip visit c.ip_map)
  unfolding assign_to
  assign_to_stale n ip e = rw (e, assign_to)

  pub assign_to_fresh :
      (n : Node)
      → assign_to api visit s c n none ≡ write_ip api visit s c n (select_ip visit c.ip_map)
  unfolding assign_to
  assign_to_fresh n = refl

module _ (api : NodeApi) (s : api.State) (c : LbController) where
  pub write_removal_done :
      (n : Node) (ip : Bytes)
      → (api.update s (unannotate n)).1 ≡ none
      → write_removal api s c n ip ≡ (
        (api.update s (unannotate n)).0,
        record c { ip_map = insert ip (decrement (load c.ip_map ip)) c.ip_map },
        none,
      )
  unfolding write_removal
  write_removal_done n ip e = rw (e, write_removal)

  pub write_removal_failed :
      (n : Node) (ip : Bytes) (err : ApiError)
      → (api.update s (unannotate n)).1 ≡ some err
      → write_removal api s c n ip ≡ ((api.update s (unannotate n)).0, c, some err)
  unfolding write_removal
  write_removal_failed n ip err e = rw (e, write_removal)

  pub remove_ip_from_node_found :
      (k : Bytes) (n : Node)
      → api.get s k ≡ found n
      → remove_ip_from_node api s c k ≡ remove_from api s c n (assigned_ip n)
  unfolding remove_ip_from_node
  remove_ip_from_node_found k n e = rw (e, remove_ip_from_node)

  -- A node that is gone is passed over; its count stays.
  pub remove_ip_from_node_missing :
      (k : Bytes) → api.get s k ≡ refused missing → remove_ip_from_node api s c k ≡ (s, c, none)
  unfolding remove_ip_from_node
  remove_ip_from_node_missing k e = rw (e, remove_ip_from_node)

  pub remove_ip_from_node_unavailable :
      (k : Bytes)
      → api.get s k ≡ refused unavailable
      → remove_ip_from_node api s c k ≡ (s, c, some unavailable)
  unfolding remove_ip_from_node
  remove_ip_from_node_unavailable k e = rw (e, remove_ip_from_node)

  pub remove_from-none : (n : Node) → remove_from api s c n none ≡ (s, c, none)
  unfolding remove_from
  remove_from-none n = refl

  pub remove_from_unknown :
      (n : Node) (ip : Bytes)
      → has_ip c.ip_map ip ≡ false
      → remove_from api s c n (some ip) ≡ (s, c, none)
  unfolding remove_from
  remove_from_unknown n ip e = rw (e, remove_from)

  pub remove_from_known :
      (n : Node) (ip : Bytes)
      → has_ip c.ip_map ip ≡ true
      → remove_from api s c n (some ip) ≡ write_removal api s c n ip
  unfolding remove_from
  remove_from_known n ip e = rw (e, remove_from)
