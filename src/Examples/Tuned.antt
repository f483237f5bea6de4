-- ===== src/Examples/Tuned.antt =====
-- A node whose volumes get their permissions and a read-ahead: the theorems applied.
use google_cloud_platform_nf.Prelude.{◌+◌, ◌≡◌, refl, [], ◌∷◌, ◌++◌, some, true, arith}
use google_cloud_platform_nf.Text.{codes, eq_bytes, to_lower, lower}
use google_cloud_platform_nf.Maps.{lookup}
use google_cloud_platform_nf.Host.{Host}
use google_cloud_platform_nf.Text.Numerals.{parse_int}
use google_cloud_platform_nf.Rpc.{mounted_with, done, NodePublishVolumeRequest}
use google_cloud_platform_nf.Node.Progress.{IsComplete}
use google_cloud_platform_nf.Node.Repeats.{node_publish_volume_twice}
use google_cloud_platform_nf.Node.Finish.{Sticks, changed_mode, written}
use google_cloud_platform_nf.Node.Options.{collect_mount_options}
use google_cloud_platform_nf.Examples.{key_list-IsStringSet}
use google_cloud_platform_nf.Prelude.{arith}
use google_cloud_platform_nf.Node.{World, PublishParams, publish_params, mount_source, decimal}
use google_cloud_platform_nf.Node.Options.{
  extract_read_ahead_kb_mount_flag, read_ahead_flag, read_ahead_kb,
}
use google_cloud_platform_nf.Node.Publish.{node_publish_volume, request_options, update_read_ahead}
use google_cloud_platform_nf.Node.Progress.{IsMountable}
use google_cloud_platform_nf.Node.ReadAheadLaws.{update_read_ahead-done}
use google_cloud_platform_nf.Examples.{first_address, key_list, counting_host, driver}
use google_cloud_platform_nf.Examples.Requests.{free_locks, node_request}
use google_cloud_platform_nf.Examples.Successes.{params}

-- A host whose shell prints one number; it counts the commands and the changes of modes.
abbrev printing_host : Host
printing_host = record counting_host {
  lstat_mode = λ h p. some 0o755;
  chmod = λ h p mode. (h + 1, true);
  mountpoint_device = λ h t. some (codes "0:51");
  shell = λ h command. (h + 1, some (decimal 15360 ++ b'\n' ∷ []));
}

abbrev printing_world : World printing_host key_list
printing_world = record { host_state = 0; volume_locks = free_locks }

-- A request for the permissions 0777 and a read-ahead of 15360.
abbrev tuned_request : NodePublishVolumeRequest
tuned_request = record node_request {
  volume_capability = some (mounted_with (codes "read_ahead_kb=15360" ∷ []));
  volume_context = (codes "share", codes "/vol1") ∷ (codes "mountPermissions", codes "0777") ∷ [];
}

abbrev tuned_params : PublishParams
tuned_params = record params {
  mount_options = codes "read_ahead_kb=15360" ∷ codes "ro" ∷ [];
  mount_permissions = 0o777;
}

tuned_request-IsComplete :
    IsComplete printing_host key_list driver tuned_request
      (mounted_with (codes "read_ahead_kb=15360" ∷ []))
      first_address
      tuned_params
unfolding publish_params request_options eq_bytes to_lower lower lookup
tuned_request-IsComplete = record {
  volume_given = refl;
  target_given = refl;
  cap_given = refl;
  address_given = refl;
  parsed = refl;
  shared = refl;
}

read_ahead_given : extract_read_ahead_kb_mount_flag tuned_params.mount_options ≡ read_ahead_kb 15360
unfolding extract_read_ahead_kb_mount_flag read_ahead_flag parse_int
read_ahead_given = refl

tuned_request-IsMountable :
    IsMountable printing_host key_list 0
      (mount_source first_address tuned_params)
      (codes "/t")
      tuned_params
tuned_request-IsMountable = record {
  checked = λ e. cc;
  made = refl;
  finishes = record {
    permitted = 2;
    tuned = 4;
    accepted = refl;
    permits = changed_mode 0o755 refl refl refl refl;
    tunes =
        written 15360 (codes "0:51") (decimal 15360 ++ b'\n' ∷ []) 3 read_ahead_given (omega arith)
          refl refl refl;
  };
}

mount-Sticks :
    Sticks printing_host
      (codes "/t")
      (mount_source first_address tuned_params)
      (collect_mount_options tuned_params.mount_options)
mount-Sticks = record {
  stuck = λ h accepted. ground arith;
  kept_by_chmod = λ h mode mounted. ground arith;
  kept_by_shell = λ h command mounted. ground arith;
}

node_publish_volume_twice_example :
    ((node_publish_volume printing_host key_list driver tuned_request
        (node_publish_volume printing_host key_list driver tuned_request printing_world).0).1
      ≡ done tt)
    × ((node_publish_volume printing_host key_list driver tuned_request
          (node_publish_volume printing_host key_list driver tuned_request
            printing_world).0).0.host_state
        ≡ (node_publish_volume printing_host key_list driver tuned_request
            printing_world).0.host_state)
node_publish_volume_twice_example =
    node_publish_volume_twice printing_host key_list key_list-IsStringSet driver tuned_request
      (mounted_with (codes "read_ahead_kb=15360" ∷ [])) first_address tuned_params printing_world
      tuned_request-IsComplete refl tuned_request-IsMountable mount-Sticks

update_read_ahead-done_example :
    update_read_ahead printing_host key_list (codes "/t") 15360 printing_world
    ≡ (record printing_world { host_state = 2 }, done tt)
update_read_ahead-done_example =
    update_read_ahead-done printing_host key_list (codes "/t") (codes "0:51")
      (decimal 15360 ++ b'\n' ∷ []) 15360 printing_world 1 2 (omega arith) refl refl refl
