-- ===== src/Examples/Provisioning.antt =====
-- The locks and the calls of the provisioner: their theorems applied.
use google_cloud_platform_nf.Prelude.{◌≡◌, refl, [], ◌∷◌, none, some, true, false}
use google_cloud_platform_nf.Text.{codes}
use google_cloud_platform_nf.Text.Numerals.{pos}
use google_cloud_platform_nf.Rpc.{mounted_with, panicked}
use google_cloud_platform_nf.Locks.{VolumeLocks, new_volume_locks, try_acquire}
use google_cloud_platform_nf.Locks.Exclusion.{
  System, Step, enter, here, next, IsExclusive, start, Reach-IsExclusive,
}
use google_cloud_platform_nf.Node.{World}
use google_cloud_platform_nf.Volumes.{NfsVolume, get_nfs_vol_from_id, get_volume_id_from_nfs_vol}
use google_cloud_platform_nf.Volumes.Params.{new_nfs_volume}
use google_cloud_platform_nf.Driver.{Driver}
use google_cloud_platform_nf.Provisioner.{is_valid_volume_capabilities}
use google_cloud_platform_nf.Provisioner.Panics.{create_volume_panics}
use google_cloud_platform_nf.Provisioner.Volume.{
  CreateVolumeRequest, DeleteVolumeRequest, create_volume, delete_volume, validate_params,
}
use google_cloud_platform_nf.Provisioner.Snapshot.{CreateSnapshotRequest, create_snapshot}
use google_cloud_platform_nf.Provisioner.Laws.{Fails, create_volume-Fails, create_snapshot-Fails}
use google_cloud_platform_nf.Provisioner.Deletions.{Deletes, IsKept, delete_volume-Deletes}
use google_cloud_platform_nf.Examples.{
  first_address, key_list, key_list-IsStringSet, counting_host, driver,
}

abbrev world : World counting_host key_list
world = record { host_state = 0; volume_locks = record { locks = [] } }

abbrev create_request : CreateVolumeRequest
create_request = record {
  name = codes "pvc-1";
  volume_capabilities = mounted_with [] ∷ [];
  required_bytes = pos 0;
  parameters = (codes "server", first_address) ∷ (codes "share", codes "/vol1") ∷ [];
  content_source = none;
}

abbrev delete_request : DeleteVolumeRequest
delete_request = record { volume_id = codes "10.0.0.1#vol1#pvc-1##"; secrets = [] }

abbrev snapshot_request : CreateSnapshotRequest
snapshot_request = record {
  name = codes "snap-1";
  source_volume_id = codes "10.0.0.1#vol1#pvc-1##";
  parameters = [];
}

create_volume-Fails_example :
    Fails counting_host key_list driver world
      (create_volume counting_host key_list driver create_request world)
create_volume-Fails_example = create_volume-Fails counting_host key_list driver create_request world

create_snapshot-Fails_example :
    Fails counting_host key_list driver world
      (create_snapshot counting_host key_list driver snapshot_request world)
create_snapshot-Fails_example =
    create_snapshot-Fails counting_host key_list driver snapshot_request world

delete_volume-Deletes_example :
    Deletes counting_host key_list driver
      (IsKept counting_host key_list driver (get_nfs_vol_from_id (codes "10.0.0.1#vol1#pvc-1##")))
      world
      (delete_volume counting_host key_list driver delete_request world)
delete_volume-Deletes_example =
    delete_volume-Deletes counting_host key_list driver delete_request world

-- The driver of a process that runs the controller server alone.
abbrev controller_only : Driver
controller_only = record driver { run_node_server = false; run_controller_server = true }

abbrev made_volume : NfsVolume
made_volume = record {
  id = codes "10.0.0.1#vol1#pvc-1##";
  server = first_address;
  base_dir = codes "/vol1";
  sub_dir = codes "pvc-1";
  size = pos 0;
  uuid = [];
  on_delete = [];
}

volume_made : new_nfs_volume (codes "pvc-1") (pos 0) create_request.parameters [] ≡ some made_volume
unfolding new_nfs_volume get_volume_id_from_nfs_vol
volume_made = refl

params_valid : validate_params create_request.parameters (some 0) ≡ some 0
unfolding validate_params
params_valid = refl

caps_valid : is_valid_volume_capabilities create_request.volume_capabilities ≡ true
unfolding is_valid_volume_capabilities
caps_valid = refl

create_volume_panics_example :
    create_volume counting_host key_list controller_only create_request world ≡ (world, panicked)
create_volume_panics_example =
    create_volume_panics counting_host key_list controller_only create_request 0 made_volume world
      refl refl caps_valid params_valid volume_made

abbrev one_key : VolumeLocks key_list
one_key = record { locks = codes "a/v" ∷ [] }

abbrev one_running : System key_list
one_running = record { table = one_key; running = codes "a/v" ∷ [] }

acquired : (try_acquire key_list (new_volume_locks key_list) (codes "a/v")).1 ≡ true
unfolding try_acquire new_volume_locks
acquired = refl

one_enters : Step key_list (start key_list) one_running
unfolding start try_acquire new_volume_locks
one_enters = enter (codes "a/v") one_running refl refl

Reach-IsExclusive_example : IsExclusive key_list one_running
Reach-IsExclusive_example = Reach-IsExclusive key_list key_list-IsStringSet (next here one_enters)
