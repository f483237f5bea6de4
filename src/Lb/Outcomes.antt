-- ===== src/Lb/Outcomes.antt =====
-- What `AssignIPToNode` and `RemoveIPFromNode` leave as it was, and how they can end.
use mathlib.Core.List.{Perm}
use google_cloud_platform_nf.Prelude.{
  ℕ, ◌≤◌, ◌≡◌, ◌≢◌, refl, List, Option, none, some, arith, Bool-cases, Option-cases, true, inl, inr,
}
use google_cloud_platform_nf.Text.{Bytes}
use google_cloud_platform_nf.Maps.{lookup, insert}
use google_cloud_platform_nf.Cluster.{Node, assigned_ip, ApiError, NodeApi, Reply, found, refused}
use google_cloud_platform_nf.Lb.Census.{count_laws}
use google_cloud_platform_nf.Lb.Counted.{has_ip_of_lookup}
use google_cloud_platform_nf.Lb.Selection.{select_ip-mem, select_ip-ne-none, select_ip-le}
use google_cloud_platform_nf.Lb.Branches.{
  write_ip_done, write_ip_failed, assign_ip_to_node_found, assign_ip_to_node_refused,
  assign_to_kept, assign_to_stale, assign_to_fresh,
}
use google_cloud_platform_nf.Lb.{
  IpMap, LbController, load, biased, has_ip, increment, annotate, select_ip, write_ip, assign_to,
  assign_ip_to_node, Assignment, assigned, not_assigned, crashed,
}

pub has_ip-insert_same :
    (m : IpMap) (ip j : Bytes) (v : ℕ) → has_ip m ip ≡ true → has_ip (insert ip v m) j ≡ has_ip m j
has_ip-insert_same m ip j v h = grind count_laws

-- The ways through `AssignIPToNode` for a node that carries the address `old`: the controller
-- stays as it was, or the selected address is counted up, or there is no address to select.
pub data Effect (visit : List Bytes → List Bytes) (old : Option Bytes) (c c' : LbController)
    (r : Assignment) : Type 0 where
  keeps :
      (ip : Bytes)
      → old ≡ some ip
      → has_ip c.ip_map ip ≡ true
      → c' ≡ c
      → r ≡ assigned ip
      → Effect visit old c c' r
  fails : (err : ApiError) → c' ≡ c → r ≡ not_assigned err → Effect visit old c c' r
  counts :
      (ip : Bytes)
      → select_ip visit c.ip_map ≡ some ip
      → c' ≡ record c { ip_map = insert ip (increment (load c.ip_map ip)) c.ip_map }
      → r ≡ assigned ip
      → Effect visit old c c' r
  crashes : c' ≡ c → r ≡ crashed → select_ip visit c.ip_map ≡ none → Effect visit old c c' r

-- The address of the node that the lister returned.
abbrev pub found_ip : Reply Node → Option Bytes
found_ip (found n) = assigned_ip n
found_ip (refused err) = none

module _ (api : NodeApi) (visit : List Bytes → List Bytes) (s : api.State) (c : LbController) where
  abbrev pub Has : Option Bytes → api.State × LbController × Assignment → Type 0
  Has old t = Effect visit old c t.1 t.2

  write_ip-Effect :
      (old : Option Bytes) (n : Node) (pick : Option Bytes)
      → select_ip visit c.ip_map ≡ pick
      → Has old (write_ip api visit s c n pick)
  unfolding write_ip
  write_ip-Effect old n none e = crashes refl refl e
  write_ip-Effect old n (some ip) e = elim (Option-cases (api.update s (annotate n ip)).1) [
    | inl done ↦ rw (write_ip_done api visit s c n ip done) (counts ip e refl refl)
    | inr (err, failed) ↦ rw (write_ip_failed api visit s c n ip err failed) (fails err refl refl)
  ]

  pub assign_to-Effect : (n : Node) (old : Option Bytes) → Has old (assign_to api visit s c n old)
  assign_to-Effect n none = rw (assign_to_fresh api visit s c n) (write_ip-Effect none n _ refl)
  assign_to-Effect n (some ip) = elim (Bool-cases (has_ip c.ip_map ip)) [
    | inl known ↦ rw (assign_to_kept api visit s c n ip known) (keeps ip refl known refl refl)
    | inr unknown ↦ rw (assign_to_stale api visit s c n ip unknown) (write_ip-Effect _ n _ refl)
  ]

  pub assign_ip_to_node-Effect :
      (k : Bytes) → Has (found_ip (api.get s k)) (assign_ip_to_node api visit s c k)
  assign_ip_to_node-Effect k = by_reply (api.get s k) refl
    where
      by_reply :
          (r : Reply Node) → api.get s k ≡ r → Has (found_ip r) (assign_ip_to_node api visit s c k)
      by_reply (found n) e =
          rw (assign_ip_to_node_found api visit s c k n e) (assign_to-Effect n (assigned_ip n))
      by_reply (refused err) e =
          rw (assign_ip_to_node_refused api visit s c k err e) (fails err refl refl)

module _ (visit : List Bytes → List Bytes) (visits : (ks : List Bytes) → Perm (visit ks) ks)
    (old : Option Bytes) (c c' : LbController) (r : Assignment) where
  pub Effect-keys : (j : Bytes) → Effect visit old c c' r → has_ip c'.ip_map j ≡ has_ip c.ip_map j
  Effect-keys j (keeps _ _ _ e _) = rw e refl
  Effect-keys j (fails _ e _) = rw e refl
  Effect-keys j (crashes e _ _) = rw e refl
  Effect-keys j (counts ip pick e _) = rw e (
      has_ip-insert_same c.ip_map ip j (increment (load c.ip_map ip))
        (has_ip_of_lookup c.ip_map ip (select_ip-mem visit visits c.ip_map ip pick)))

  Effect-failed : (err : ApiError) → Effect visit old c c' r → r ≡ not_assigned err → c' ≡ c
  Effect-failed err (keeps _ _ _ e _) h = e
  Effect-failed err (fails _ e _) h = e
  Effect-failed err (crashes e _ _) h = e
  Effect-failed err (counts _ _ _ e) h = cc

  Effect-crashed : (j : Bytes) → Effect visit old c c' r → lookup j c.ip_map ≢ none → r ≢ crashed
  Effect-crashed j (keeps _ _ _ _ e) h f = cc
  Effect-crashed j (fails _ _ e) h f = cc
  Effect-crashed j (crashes _ _ e) h f = select_ip-ne-none visit visits c.ip_map j h e
  Effect-crashed j (counts _ _ _ e) h f = cc

  Effect-least :
      (ip j : Bytes)
      → Effect visit old c c' r
      → old ≡ none
      → r ≡ assigned ip
      → lookup j c.ip_map ≢ none
      → biased (load c.ip_map ip) ≤ biased (load c.ip_map j)
  Effect-least ip j (keeps _ e _ _ _) fresh h k = absurd (cc)
  Effect-least ip j (fails _ _ e) fresh h k = absurd (cc)
  Effect-least ip j (crashes _ e _) fresh h k = absurd (cc)
  Effect-least ip j (counts i pick _ e) fresh h k =
      select_ip-le visit visits c.ip_map ip j (ground (arith, pick, e, h)) k

module _ (api : NodeApi) (visit : List Bytes → List Bytes)
    (visits : (ks : List Bytes) → Perm (visit ks) ks) (s : api.State) (c : LbController)
    (k : Bytes) where
  -- A node that carries no address and is given one gets one of the addresses with the fewest nodes,
  -- in whatever order the map is visited.
  pub assign_ip_to_node-least :
      (n : Node) (ip j : Bytes)
      → api.get s k ≡ found n
      → assigned_ip n ≡ none
      → (assign_ip_to_node api visit s c k).2 ≡ assigned ip
      → lookup j c.ip_map ≢ none
      → biased (load c.ip_map ip) ≤ biased (load c.ip_map j)
  assign_ip_to_node-least n ip j got bare h known =
      Effect-least visit visits (found_ip (api.get s k)) c _ _ ip j
        (assign_ip_to_node-Effect api visit s c k) (rw got bare) h known

  -- An assignment that fails, whether at the lister or at the update, counts nothing.
  pub assign_ip_to_node-failed :
      (err : ApiError)
      → (assign_ip_to_node api visit s c k).2 ≡ not_assigned err
      → (assign_ip_to_node api visit s c k).1 ≡ c
  assign_ip_to_node-failed err h =
      Effect-failed visit visits _ c _ _ err (assign_ip_to_node-Effect api visit s c k) h

  -- With an address in the map, `ips[0]` does not panic.
  pub assign_ip_to_node-ne-crashed :
      (j : Bytes) → lookup j c.ip_map ≢ none → (assign_ip_to_node api visit s c k).2 ≢ crashed
  assign_ip_to_node-ne-crashed j h =
      Effect-crashed visit visits _ c _ _ j (assign_ip_to_node-Effect api visit s c k) h

  -- An assignment neither adds an address to the map nor takes one from it.
  assign_ip_to_node-keys :
      (j : Bytes) → has_ip (assign_ip_to_node api visit s c k).1.ip_map j ≡ has_ip c.ip_map j
  assign_ip_to_node-keys j =
      Effect-keys visit visits _ c _ _ j (assign_ip_to_node-Effect api visit s c k)
