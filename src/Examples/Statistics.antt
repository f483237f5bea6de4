-- ===== src/Examples/Statistics.antt =====
-- Volume statistics from a cache of one entry: the theorem applied.
use google_cloud_platform_nf.Prelude.{
  ◌≡◌, refl, Bool, true, false, Option, none, some, if◌then◌else◌,
}
use google_cloud_platform_nf.Text.{codes}
use google_cloud_platform_nf.Text.Numerals.{pos}
use google_cloud_platform_nf.Rpc.{done}
use google_cloud_platform_nf.Node.Stats.{
  VolumeUsage, VolumeStats, Metrics, exists, is_absent, StatsSource, NodeGetVolumeStatsRequest,
  node_get_volume_stats,
}
use google_cloud_platform_nf.Node.Stats.Cache.{IsCache, node_get_volume_stats_twice}

abbrev usage : VolumeUsage
usage = record { available = pos 5; total = pos 7; used = pos 2 }

abbrev stats : VolumeStats
stats = record { bytes = usage; inodes = usage }

abbrev metrics : Metrics
metrics = record {
  available = some (pos 5);
  capacity = some (pos 7);
  used = some (pos 2);
  inodes_free = some (pos 5);
  inodes = some (pos 7);
  inodes_used = some (pos 2);
}

-- One entry for whatever key, and whether the path still exists.
abbrev one_entry : StatsSource
one_entry = record {
  State = Option VolumeStats × Bool;
  cache_get = λ s k. (s, some s.0);
  cache_set = λ s k new. (some new, s.1);
  lstat = λ s path. if s.1 then exists else is_absent;
  get_metrics = λ s path. some metrics;
}

one_entry-IsCache : IsCache one_entry
one_entry-IsCache = record { get_set = λ s k new. refl; get_get = λ s k new h. h }

abbrev stats_request : NodeGetVolumeStatsRequest
stats_request = record { volume_id = codes "v"; volume_path = codes "/t" }

measured : (node_get_volume_stats one_entry stats_request (none, true)).1 ≡ done stats
unfolding node_get_volume_stats
measured = refl

remembered :
    (one_entry.cache_get (some stats, false) (codes "v")).1
    ≡ (one_entry.cache_get
        (node_get_volume_stats one_entry stats_request (none, true)).0
        (codes "v")).1
unfolding node_get_volume_stats
remembered = refl

-- The path is gone, and the cache still answers.
node_get_volume_stats_twice_example :
    (node_get_volume_stats one_entry
      (record { volume_id = codes "v"; volume_path = codes "/elsewhere" })
      (some stats, false)).1
    ≡ done stats
node_get_volume_stats_twice_example =
    node_get_volume_stats_twice one_entry one_entry-IsCache stats_request (codes "/elsewhere")
      (none, true) (some stats, false) stats refl refl measured remembered
