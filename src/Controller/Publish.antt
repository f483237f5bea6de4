-- ===== src/Controller/Publish.antt =====
-- `ControllerPublishVolume` and `ControllerUnpublishVolume` of pkg/nfs/controllerserver.go: their
-- locks, their answers and the counts.
use mathlib.Core.List.{Perm}
use google_cloud_platform_nf.Prelude.{◌≡◌, refl, List, Bool, true, false, not, Bool-cases, inl, inr}
use google_cloud_platform_nf.Text.{Bytes, is_empty}
use google_cloud_platform_nf.Maps.{Map}
use google_cloud_platform_nf.Cluster.{Node, NodeApi, IsVersioned}
use google_cloud_platform_nf.Locks.{
  StringSet, IsStringSet, try_acquire, locked, release-try_acquire, try_acquire-locked,
}
use google_cloud_platform_nf.Rpc.{
  Code, invalid_argument, aborted, Outcome, failed, ◌>>◌, require, after_return,
}
use google_cloud_platform_nf.Lb.Counted.{IsCounted}
use google_cloud_platform_nf.Lb.Counts.{assign_ip_to_node-IsCounted, remove_ip_from_node-IsCounted}
use google_cloud_platform_nf.Controller.{
  ControllerWorld, ControllerPublishVolumeRequest, ControllerUnpublishVolumeRequest,
  locking_volume_id, is_some, Handler, acquire, release_key, locking, assign, remove,
  controller_publish_volume, controller_unpublish_volume,
}

module _ (api : NodeApi) (sets : StringSet) where
  -- The world in which the body of a handler runs.
  abbrev pub with_lock : Bytes → ControllerWorld api sets → ControllerWorld api sets
  with_lock key w = record w { volume_locks = (try_acquire sets w.volume_locks key).0 }

  -- How a handler under a lock ends: turned away with nothing changed, or the body ran.
  pub data Ends {A : Type 0} (key : Bytes) (body : Handler api sets A)
      (w : ControllerWorld api sets) (r : ControllerWorld api sets × Outcome A) : Type 0 where
    turned_away : (c : Code) → r ≡ (w, failed c) → Ends key body w r
    ran :
        locked sets w.volume_locks key ≡ false
        → r ≡ after_return (release_key api sets key) (body (with_lock key w))
        → Ends key body w r

  locking-Ends :
      {A : Type 0} (key : Bytes) (body : Handler api sets A) (w : ControllerWorld api sets)
      → Ends key body w (locking api sets key body w)
  unfolding locking acquire try_acquire
  locking-Ends key body w = elim (Bool-cases (locked sets w.volume_locks key)) [
    | inl taken ↦ turned_away aborted (rw (taken, locking, acquire, try_acquire))
    | inr free ↦ ran free (rw (free, locking, acquire, try_acquire))
  ]

  require-Ends :
      {A : Type 0} (key : Bytes) (body : Handler api sets A) (b : Bool) (m : Handler api sets A)
      (w : ControllerWorld api sets)
      → Ends key body w (m w)
      → Ends key body w ((require b invalid_argument >> m) w)
  require-Ends key body true m w h = h
  require-Ends key body false m w h = turned_away invalid_argument refl

  pub controller_publish_volume-Ends :
      (visit : List Bytes → List Bytes) (req : ControllerPublishVolumeRequest)
      (w : ControllerWorld api sets)
      → Ends
          (locking_volume_id req.node_id req.volume_id)
          (assign api sets visit req.node_id)
          w
          (controller_publish_volume api sets visit req w)
  controller_publish_volume-Ends visit req w =
      let key = locking_volume_id req.node_id req.volume_id in
      let body = assign api sets visit req.node_id in
      let m3 = locking api sets key body in
      let m2 : Handler api sets (Map Bytes) =
        require (is_some req.volume_capability) invalid_argument >> m3 in
      let m1 : Handler api sets (Map Bytes) =
        require (not (is_empty req.node_id)) invalid_argument >> m2 in
      let all = require-Ends key body (not (is_empty req.volume_id)) m1 w (
        require-Ends key body (not (is_empty req.node_id)) m2 w
          (require-Ends key body (is_some req.volume_capability) m3 w (locking-Ends key body w))) in
      unfold controller_publish_volume in all

  controller_unpublish_volume-Ends :
      (req : ControllerUnpublishVolumeRequest) (w : ControllerWorld api sets)
      → Ends
          (locking_volume_id req.node_id req.volume_id)
          (remove api sets req.node_id)
          w
          (controller_unpublish_volume api sets req w)
  controller_unpublish_volume-Ends req w =
      let key = locking_volume_id req.node_id req.volume_id in
      let body = remove api sets req.node_id in
      let m2 = locking api sets key body in
      let m1 : Handler api sets (Unit {0}) =
        require (not (is_empty req.node_id)) invalid_argument >> m2 in
      let all =
        require-Ends key body (not (is_empty req.volume_id)) m1 w
          (require-Ends key body (not (is_empty req.node_id)) m2 w (locking-Ends key body w)) in
      unfold controller_unpublish_volume in all

module _ (api : NodeApi) (sets : StringSet) (laws : IsStringSet sets) where
  Ends-locked :
      {A : Type 0} (key j : Bytes) (body : Handler api sets A) (w : ControllerWorld api sets)
      (r : ControllerWorld api sets × Outcome A)
      → Ends api sets key body w r
      → (body (with_lock api sets key w)).0.volume_locks ≡ (with_lock api sets key w).volume_locks
      → locked sets r.0.volume_locks j ≡ locked sets w.volume_locks j
  unfolding release_key
  Ends-locked key j body w r (turned_away c e) keeps = rw e refl
  Ends-locked key j body w r (ran free e) keeps =
      rw (e, keeps)
        (release-try_acquire sets laws w.volume_locks key j
          (rw ((try_acquire-locked sets laws w.volume_locks key key).0, free)))

  assign-locks :
      (visit : List Bytes → List Bytes) (k : Bytes) (w : ControllerWorld api sets)
      → (assign api sets visit k w).0.volume_locks ≡ w.volume_locks
  unfolding assign
  assign-locks visit k w = refl

  remove-locks :
      (k : Bytes) (w : ControllerWorld api sets)
      → (remove api sets k w).0.volume_locks ≡ w.volume_locks
  unfolding remove
  remove-locks k w = refl

  -- On every return of `ControllerPublishVolume`, errors and the panic included, each key is locked
  -- as it was before the call.
  pub controller_publish_volume-locked :
      (visit : List Bytes → List Bytes) (req : ControllerPublishVolumeRequest)
      (w : ControllerWorld api sets) (j : Bytes)
      → locked sets (controller_publish_volume api sets visit req w).0.volume_locks j
        ≡ locked sets w.volume_locks j
  controller_publish_volume-locked visit req w j =
      let key = locking_volume_id req.node_id req.volume_id in
      Ends-locked key j (assign api sets visit req.node_id) w
        (controller_publish_volume api sets visit req w)
        (controller_publish_volume-Ends api sets visit req w)
        (assign-locks visit req.node_id (with_lock api sets key w))

  -- On every return of `ControllerUnpublishVolume`, errors included, each key is locked as it was
  -- before the call.
  pub controller_unpublish_volume-locked :
      (req : ControllerUnpublishVolumeRequest) (w : ControllerWorld api sets) (j : Bytes)
      → locked sets (controller_unpublish_volume api sets req w).0.volume_locks j
        ≡ locked sets w.volume_locks j
  controller_unpublish_volume-locked req w j =
      let key = locking_volume_id req.node_id req.volume_id in
      Ends-locked key j (remove api sets req.node_id) w (controller_unpublish_volume api sets req w)
        (controller_unpublish_volume-Ends api sets req w)
        (remove-locks req.node_id (with_lock api sets key w))

module _ (api : NodeApi) (sets : StringSet) (nodes : api.State → List Node)
    (Issued : api.State → Node → Type 0) (versioned : IsVersioned api nodes Issued) where
  -- The counts are those of the cluster's nodes.
  abbrev pub InStep : ControllerWorld api sets → Type 0
  InStep w = IsCounted w.lb_controller.ip_map (nodes w.cluster)

  Ends-InStep :
      {A : Type 0} (key : Bytes) (body : Handler api sets A) (w : ControllerWorld api sets)
      (r : ControllerWorld api sets × Outcome A)
      → Ends api sets key body w r
      → InStep w
      → InStep (body (with_lock api sets key w)).0
      → InStep r.0
  unfolding release_key
  Ends-InStep key body w r (turned_away c e) before inside = rw e before
  Ends-InStep key body w r (ran free e) before inside = rw e inside

  -- Counts that are those of the cluster's nodes still are after `ControllerPublishVolume`, whatever
  -- it answers and even where the lister lags behind: an update is relied on to succeed only where it
  -- is made from the server's own node, to replace that node then, and to change nothing otherwise.
  pub controller_publish_volume-InStep :
      (visit : List Bytes → List Bytes) (visits : (ks : List Bytes) → Perm (visit ks) ks)
      (req : ControllerPublishVolumeRequest) (w : ControllerWorld api sets)
      → InStep w
      → InStep (controller_publish_volume api sets visit req w).0
  controller_publish_volume-InStep visit visits req w before =
      let key = locking_volume_id req.node_id req.volume_id in
      let inside =
        assign_ip_to_node-IsCounted api nodes Issued versioned visit visits w.cluster
          w.lb_controller req.node_id before in
      Ends-InStep key (assign api sets visit req.node_id) w
        (controller_publish_volume api sets visit req w)
        (controller_publish_volume-Ends api sets visit req w) before (unfold assign in inside)

  -- Counts that are those of the cluster's nodes still are after `ControllerUnpublishVolume`, whatever
  -- it answers and even where the lister lags behind: an update is relied on to succeed only where it
  -- is made from the server's own node, to replace that node then, and to change nothing otherwise.
  pub controller_unpublish_volume-InStep :
      (req : ControllerUnpublishVolumeRequest) (w : ControllerWorld api sets)
      → InStep w
      → InStep (controller_unpublish_volume api sets req w).0
  controller_unpublish_volume-InStep req w before =
      let key = locking_volume_id req.node_id req.volume_id in
      let inside =
        remove_ip_from_node-IsCounted api nodes Issued versioned w.cluster w.lb_controller
          req.node_id before in
      Ends-InStep key (remove api sets req.node_id) w (controller_unpublish_volume api sets req w)
        (controller_unpublish_volume-Ends api sets req w) before (unfold remove in inside)
