-- ===== src/Controller/EndToEnd.antt =====
-- From the controller to the node: the address that `ControllerPublishVolume` of
-- pkg/nfs/controllerserver.go answers with, and the source that `NodePublishVolume` of
-- pkg/nfs/nodeserver.go mounts with that answer as its publish context.
use google_cloud_platform_nf.Prelude.{◌≡◌, refl, List, [], ◌∷◌, some, arith}
use google_cloud_platform_nf.Text.{Bytes, eq_bytes_refl}
use google_cloud_platform_nf.Maps.{Map, lookup}
use google_cloud_platform_nf.Cluster.{Node, NodeApi, IsVersioned, node_annotation}
use google_cloud_platform_nf.Locks.{StringSet}
use google_cloud_platform_nf.Rpc.{Outcome, done, NodePublishVolumeRequest}
use google_cloud_platform_nf.Driver.{Driver}
use google_cloud_platform_nf.Host.{Host}
use google_cloud_platform_nf.Node.{World}
use google_cloud_platform_nf.Node.Publish.{node_publish_volume}
use google_cloud_platform_nf.Node.MountLaws.{IsPublished, node_publish_volume-IsPublished}
use google_cloud_platform_nf.Lb.{Assignment, assigned, not_assigned, crashed, assign_ip_to_node}
use google_cloud_platform_nf.Lb.Origin.{IsGiven, assign_ip_to_node-IsGiven}
use google_cloud_platform_nf.Controller.{
  ControllerWorld, ControllerPublishVolumeRequest, locking_volume_id, publish_answer, release_key,
  assign, controller_publish_volume,
}
use google_cloud_platform_nf.Controller.Publish.{
  Ends, turned_away, ran, controller_publish_volume-Ends,
}

publish_answer_done :
    (r : Assignment) (context : Map Bytes)
    → publish_answer r ≡ done context
    → (ip : Bytes) × (r ≡ assigned ip) × (context ≡ (node_annotation, ip) ∷ [])
unfolding publish_answer
publish_answer_done (assigned ip) context h = (ip, refl, ground arith)
publish_answer_done (not_assigned e) context h = absurd (cc)
publish_answer_done crashed context h = absurd (cc)

module _ (api : NodeApi) (sets : StringSet) (nodes : api.State → List Node)
    (Issued : api.State → Node → Type 0) (versioned : IsVersioned api nodes Issued)
    (visit : List Bytes → List Bytes) where
  -- The address was given by the load balancer between two worlds.
  abbrev Given :
      ControllerPublishVolumeRequest
      → ControllerWorld api sets
      → ControllerWorld api sets
      → Bytes
      → Type 0
  Given req w w' ip =
      IsGiven api nodes w.cluster w.lb_controller req.node_id ip w'.cluster w'.lb_controller

  -- The answer holds one address, which the load balancer gave.
  pub record Answers (req : ControllerPublishVolumeRequest) (w w' : ControllerWorld api sets)
      (context : Map Bytes) : Type 0 where
    pub ip : Bytes
    pub is_context : context ≡ (node_annotation, ip) ∷ []
    pub given : Given req w w' ip

  Ends-Answers :
      (req : ControllerPublishVolumeRequest) (w : ControllerWorld api sets) (key : Bytes)
      (r : ControllerWorld api sets × Outcome (Map Bytes)) (context : Map Bytes)
      → Ends api sets key (assign api sets visit req.node_id) w r
      → r.1 ≡ done context
      → Answers req w r.0 context
  unfolding release_key assign
  Ends-Answers req w key r context (turned_away c e) h = absurd (ground (arith, e, h))
  Ends-Answers req w key r context (ran free e) h =
      let a = assign_ip_to_node api visit w.cluster w.lb_controller req.node_id in
      let (ip, given, shape) = publish_answer_done a.2 context (rw e at h) in
      rw e (record {
        ip = ip;
        is_context = shape;
        given =
            assign_ip_to_node-IsGiven api nodes Issued versioned visit w.cluster w.lb_controller
              req.node_id ip given;
      })

  -- A successful `ControllerPublishVolume` answers with one address, under the key that the node
  -- server reads. The controller counts it then. Either the node carries it as the lister shows the
  -- node, which may lag behind, and nothing was written or counted; or the lister's node was the
  -- server's own, and the server's node of that name carries the address now. An update is relied on
  -- to succeed only where it is made from the server's node.
  pub controller_publish_volume-Answers :
      (req : ControllerPublishVolumeRequest) (w : ControllerWorld api sets) (context : Map Bytes)
      → (controller_publish_volume api sets visit req w).1 ≡ done context
      → Answers req w (controller_publish_volume api sets visit req w).0 context
  controller_publish_volume-Answers req w context h =
      Ends-Answers req w (locking_volume_id req.node_id req.volume_id)
        (controller_publish_volume api sets visit req w) context
        (controller_publish_volume-Ends api sets visit req w) h

  lookup_answer :
      (ip jp : Bytes) (context : Map Bytes)
      → context ≡ (node_annotation, ip) ∷ []
      → lookup node_annotation context ≡ some jp
      → jp ≡ ip
  unfolding lookup
  lookup_answer ip jp context e h = ground (arith, e, h, eq_bytes_refl node_annotation)

  -- Where `ControllerPublishVolume` succeeds and `NodePublishVolume` then succeeds with its answer as
  -- the publish context, the address from which the node server takes its source is the one that the
  -- controller gave: it counts the address; and either the node carries it as the lister shows the
  -- node, which may lag behind, or the lister's node was the server's own, and the server's node of
  -- that name carried the address after the call. An update is relied on to succeed only where it is
  -- made from the server's node.
  pub node_publish_volume-controller_publish_volume :
      (host : Host) (d : Driver) (req : ControllerPublishVolumeRequest)
      (w : ControllerWorld api sets) (node_req : NodePublishVolumeRequest)
      (node_w : World host sets)
      → (controller_publish_volume api sets visit req w).1 ≡ done node_req.publish_context
      → (node_publish_volume host sets d node_req node_w).1 ≡ done tt
      → (published : IsPublished host sets d node_req node_w.host_state) × Given req w
          (controller_publish_volume api sets visit req w).0
          published.ip
  node_publish_volume-controller_publish_volume host d req w node_req node_w first second =
      let answer = controller_publish_volume-Answers req w node_req.publish_context first in
      let published = node_publish_volume-IsPublished host sets d node_req node_w second in
      (
        published,
        rw
            (lookup_answer answer.ip published.ip node_req.publish_context answer.is_context
              published.assigned)
            answer.given,
      )
