-- ===== src/Provisioner/Deletions.antt =====
-- `DeleteVolume` and `DeleteSnapshot` of pkg/nfs/controllerserver.go, none of whose internal
-- mounts succeeds.
use google_cloud_platform_nf.Prelude.{
  ◌≡◌, refl, [], Bool, true, false, not, Option, none, some, Bool-cases, ◌⊎◌, inl, inr,
}
use google_cloud_platform_nf.Text.{Bytes, equal_fold, is_empty}
use google_cloud_platform_nf.Maps.{Map}
use google_cloud_platform_nf.Locks.{StringSet}
use google_cloud_platform_nf.Rpc.{
  Code, invalid_argument, ◌>>◌, require, done, failed, panicked, Outcome,
}
use google_cloud_platform_nf.Driver.{Driver}
use google_cloud_platform_nf.Host.{Host}
use google_cloud_platform_nf.Node.{World, Handler}
use google_cloud_platform_nf.Volumes.{NfsVolume, retain, get_nfs_vol_from_id}
use google_cloud_platform_nf.Volumes.Params.{get_mount_options}
use google_cloud_platform_nf.Provisioner.{options_capability}
use google_cloud_platform_nf.Provisioner.Laws.{Fails, FailsBy-Fails, while_mounted-FailsBy}
use google_cloud_platform_nf.Provisioner.Volume.{
  DeleteVolumeRequest, dispose_volume, with_policy, delete_parsed, delete_volume,
}

module _ (host : Host) (sets : StringSet) (d : Driver) where
  -- A deletion does not touch the host: it succeeds where nothing is to be deleted, and otherwise it
  -- fails, or panics where the process has no node server.
  pub record Deletes (idle : Type 0) (w : World host sets)
      (r : World host sets × Outcome (Unit {0})) : Type 0 where
    pub untouched : r.0.host_state ≡ w.host_state
    pub answer :
        ((r.1 ≡ done tt) × idle)
        ⊎ (((c : Code) × (r.1 ≡ failed c)) ⊎ ((r.1 ≡ panicked) × (d.run_node_server ≡ false)))

  Fails-Deletes :
      (idle : Type 0) (w : World host sets) (r : World host sets × Outcome (Unit {0}))
      → Fails host sets d w r
      → Deletes idle w r
  Fails-Deletes idle w r v = record { untouched = v.untouched; answer = inr v.answer }

  require-Deletes :
      {idle : Type 0} (b : Bool) (c : Code) (m : Handler host sets (Unit {0})) (w : World host sets)
      → Deletes idle w (m w)
      → Deletes idle w ((require b c >> m) w)
  require-Deletes true c m w h = h
  require-Deletes false c m w h = record { untouched = refl; answer = inr (inl (c, refl)) }

  -- The id is no volume's, or the policy of the volume is retain.
  abbrev pub IsKept : Option NfsVolume → Type 0
  IsKept none = Unit {0}
  IsKept (some vol) = equal_fold (with_policy host sets d vol).on_delete retain ≡ true

  delete_parsed-Deletes :
      (secrets : Map Bytes) (vol : Option NfsVolume) (w : World host sets)
      → Deletes (IsKept vol) w (delete_parsed host sets d secrets vol w)
  unfolding delete_parsed
  delete_parsed-Deletes secrets none w = record { untouched = refl; answer = inl (refl, tt) }
  delete_parsed-Deletes secrets (some vol) w =
      elim (Bool-cases (equal_fold (with_policy host sets d vol).on_delete retain)) [
        | inl kept ↦
            rw (kept, delete_parsed) (record { untouched = refl; answer = inl (refl, refl) })
        | inr other ↦
            rw (other, delete_parsed)
              (Fails-Deletes _ w _ (
                FailsBy-Fails host sets d w _ (
                  while_mounted-FailsBy host sets d (with_policy host sets d vol) []
                    (options_capability (get_mount_options secrets))
                    (dispose_volume host sets d (with_policy host sets d vol)) w)))
      ]

  -- `DeleteVolume` touches nothing on the host, and succeeds only where the id is no volume's or
  -- the policy of the volume, or the driver's, is retain; otherwise it fails, or panics where the
  -- process has no node server.
  pub delete_volume-Deletes :
      (req : DeleteVolumeRequest) (w : World host sets)
      → Deletes (IsKept (get_nfs_vol_from_id req.volume_id)) w (delete_volume host sets d req w)
  unfolding delete_volume
  delete_volume-Deletes req w =
      require-Deletes (not (is_empty req.volume_id)) invalid_argument _ w
        (delete_parsed-Deletes req.secrets (get_nfs_vol_from_id req.volume_id) w)
