-- ===== src/Lb/Origin.antt =====
-- Where the address that `AssignIPToNode` of pkg/lbcontroller/lbcontroller.go returns comes from, also
-- where the lister lags behind the server.
use google_cloud_platform_nf.Prelude.{
  ◌≡◌, refl, List, Option, none, some, arith, Bool-cases, Option-cases, true, inl, inr, ◌∙◌, ap,
}
use google_cloud_platform_nf.Text.{Bytes}
use google_cloud_platform_nf.Cluster.{
  Node, assigned_ip, find_node, with_version, NodeApi, IsVersioned, Reply, found, refused,
}
use google_cloud_platform_nf.Lb.Census.{
  name-annotate, version-annotate, assigned_ip-annotate, assigned_ip-with_version,
}
use google_cloud_platform_nf.Lb.Branches.{
  write_ip_done, write_ip_failed, assign_ip_to_node_found, assign_ip_to_node_refused,
  assign_to_kept, assign_to_stale, assign_to_fresh,
}
use google_cloud_platform_nf.Lb.Repeats.{find_node-replace_node, has_ip-insert_self}
use google_cloud_platform_nf.Lb.{
  LbController, load, has_ip, increment, annotate, write_ip, assign_to, assign_ip_to_node,
  Assignment, assigned,
}

module _ (api : NodeApi) (nodes : api.State → List Node) where
  -- The address stands on the node that the lister gave, and nothing was written and counted; or that
  -- node was the server's, and the server's node of that name carries the address now.
  pub data Source (s : api.State) (c : LbController) (n : Node) (ip : Bytes) (s' : api.State)
      (c' : LbController) : Type 0 where
    kept : assigned_ip n ≡ some ip → s' ≡ s → c' ≡ c → Source s c n ip s' c'
    written :
        find_node n.name (nodes s) ≡ some n
        → (m : Node) → find_node n.name (nodes s') ≡ some m
        → assigned_ip m ≡ some ip
        → Source s c n ip s' c'

  -- The lister found the node, the address comes from there, and the controller counts it.
  pub record IsGiven (s : api.State) (c : LbController) (k ip : Bytes) (s' : api.State)
      (c' : LbController) : Type 0 where
    pub node : Node
    pub got : api.get s k ≡ found node
    pub known : has_ip c'.ip_map ip ≡ true
    pub source : Source s c node ip s' c'

module _ (api : NodeApi) (nodes : api.State → List Node) (Issued : api.State → Node → Type 0)
    (versioned : IsVersioned api nodes Issued) (visit : List Bytes → List Bytes) (s : api.State)
    (c : LbController) (k ip : Bytes) where
  Gives : api.State × LbController × Assignment → Type 0
  Gives t = t.2 ≡ assigned ip → IsGiven api nodes s c k ip t.0 t.1

  write_ip-Gives :
      (n : Node) (pick : Option Bytes)
      → api.get s k ≡ found n
      → Gives (write_ip api visit s c n pick)
  unfolding Gives write_ip
  write_ip-Gives n none got = λ h. absurd (cc)
  write_ip-Gives n (some i) got = elim (Option-cases (api.update s (annotate n i)).1) [
    | inr (err, failed) ↦ rw (write_ip_failed api visit s c n i err failed) (λ h. absurd (cc))
    | inl done ↦
        let (v, stored) = versioned.update_done s (annotate n i) done in
        let current =
          versioned.update_current s n (annotate n i) (versioned.get_issued s k n got)
            (name-annotate n i) (version-annotate n i) done in
        let m : Node = with_version v (annotate n i) in
        rw (write_ip_done api visit s c n i done) λ h.
          let same : i ≡ ip = ground (arith, h) in
          record {
            node = n;
            got = got;
            known = rw⁻¹ same (has_ip-insert_self c.ip_map i (increment (load c.ip_map i)));
            source =
                written current m
                  (rw stored
                    (find_node-replace_node n.name (nodes s) n m current (name-annotate n i)))
                  (assigned_ip-with_version v (annotate n i)
                    ∙ assigned_ip-annotate n i
                    ∙ ap some same);
          }
  ]

  assign_to-Gives :
      (n : Node) (old : Option Bytes)
      → api.get s k ≡ found n
      → assigned_ip n ≡ old
      → Gives (assign_to api visit s c n old)
  unfolding Gives
  assign_to-Gives n none got e = rw (assign_to_fresh api visit s c n) (write_ip-Gives n _ got)
  assign_to-Gives n (some i) got e = elim (Bool-cases (has_ip c.ip_map i)) [
    | inr unknown ↦ rw (assign_to_stale api visit s c n i unknown) (write_ip-Gives n _ got)
    | inl known ↦ rw (assign_to_kept api visit s c n i known) λ h.
        let same : i ≡ ip = ground (arith, h) in
        record {
          node = n;
          got = got;
          known = rw⁻¹ same known;
          source = kept (e ∙ ap some same) refl refl;
        }
  ]

  -- The address that is returned is one that the controller counts then. Either the node carries it as
  -- the lister shows the node, which may lag behind, and nothing was written or counted; or the
  -- lister's node was the server's own, and the server's node of that name carries the address now.
  -- An update is relied on to succeed only where it is made from the server's node.
  pub assign_ip_to_node-IsGiven :
      (assign_ip_to_node api visit s c k).2 ≡ assigned ip
      → IsGiven api nodes s c k ip
          (assign_ip_to_node api visit s c k).0
          (assign_ip_to_node api visit s c k).1
  unfolding Gives
  assign_ip_to_node-IsGiven = by_reply (api.get s k) refl
    where
      by_reply : (r : Reply Node) → api.get s k ≡ r → Gives (assign_ip_to_node api visit s c k)
      by_reply (found n) e =
          rw (assign_ip_to_node_found api visit s c k n e)
            (assign_to-Gives n (assigned_ip n) e refl)
      by_reply (refused err) e =
          rw (assign_ip_to_node_refused api visit s c k err e) (λ h. absurd (cc))
