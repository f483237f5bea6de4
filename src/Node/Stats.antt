-- ===== src/Node/Stats.antt =====
-- pkg/nfs/nodeserver.go: `NodeGetVolumeStats`, and the calls that answer from the driver alone. The
-- timed cache, `Lstat` and the metrics of the file system are the parameter `StatsSource`.
pub mod Cache
use google_cloud_platform_nf.Prelude.{
  ◌≡◌, refl, List, Bool, true, false, not, Option, none, some, arith,
}
use google_cloud_platform_nf.Text.{Bytes, is_empty}
use google_cloud_platform_nf.Text.Numerals.{ℤ}
use google_cloud_platform_nf.Rpc.{
  Code, invalid_argument, internal, not_found, unimplemented, Outcome, done, failed, panicked, M,
  continue, ◌>>=◌, ◌>>◌, pure, fail, require,
}
use google_cloud_platform_nf.Driver.{Driver, NodeServiceCapability}

-- `csi.VolumeUsage` of one unit.
pub record VolumeUsage : Type 0 where
  pub available : ℤ
  pub total : ℤ
  pub used : ℤ

-- `csi.NodeGetVolumeStatsResponse`: the usage in bytes and in inodes.
pub record VolumeStats : Type 0 where
  pub bytes : VolumeUsage
  pub inodes : VolumeUsage

-- `volume.Metrics`, each quantity as its `AsInt64` returns it.
pub record Metrics : Type 0 where
  pub available : Option ℤ
  pub capacity : Option ℤ
  pub used : Option ℤ
  pub inodes_free : Option ℤ
  pub inodes : Option ℤ
  pub inodes_used : Option ℤ

pub data PathCheck : Type 0 where
  exists is_absent lstat_failed : PathCheck

-- `none` is an error, also within `cache_get`.
pub record StatsSource : Type 1 where
  pub State : Type 0
  pub cache_get : State → Bytes → State × Option (Option VolumeStats)
  pub cache_set : State → Bytes → VolumeStats → State
  pub lstat : State → Bytes → PathCheck
  pub get_metrics : State → Bytes → Option Metrics

pub record NodeGetVolumeStatsRequest : Type 0 where
  pub volume_id : Bytes
  pub volume_path : Bytes

unfoldable usage_of : Option ℤ → Option ℤ → Option ℤ → Option VolumeUsage
usage_of (some available) (some total) (some used) =
    some (record { available = available; total = total; used = used })
usage_of available total used = none

unfoldable both_usages : Option VolumeUsage → Option VolumeUsage → Option VolumeStats
both_usages (some b) (some i) = some (record { bytes = b; inodes = i })
both_usages b i = none

unfoldable pub stats_of : Metrics → Option VolumeStats
unfolding usage_of both_usages
stats_of m =
    both_usages (usage_of m.available m.capacity m.used)
      (usage_of m.inodes_free m.inodes m.inodes_used)

module _ (source : StatsSource) where
  abbrev Run : Type 0 → Type 0
  Run A = M source.State A

  unfoldable pub read_cache : Bytes → Run (Option VolumeStats)
  read_cache volume_id s =
      let (s', r) = source.cache_get s volume_id in
      (s', elim r [ none ↦ failed internal | some cached ↦ done cached ])

  -- The code for the answer of `Lstat`.
  unfoldable pub check_path : PathCheck → Run (Unit {0})
  check_path exists = pure tt
  check_path is_absent = fail not_found
  check_path lstat_failed = fail internal

  unfoldable pub read_metrics : Bytes → Run Metrics
  read_metrics volume_path s =
      (s, elim (source.get_metrics s volume_path) [ none ↦ failed internal | some m ↦ done m ])

  unfoldable pub convert : Option VolumeStats → Run VolumeStats
  convert none = fail internal
  convert (some stats) = pure stats

  unfoldable pub store : Bytes → VolumeStats → Run VolumeStats
  store volume_id stats s = (source.cache_set s volume_id stats, done stats)

  -- What runs where nothing is cached.
  unfoldable pub measure : NodeGetVolumeStatsRequest → Run VolumeStats
  unfolding check_path read_metrics convert stats_of store
  measure req s =
      (do
        check_path (source.lstat s req.volume_path)
        m ← read_metrics req.volume_path
        stats ← convert (stats_of m)
        store req.volume_id stats)
        s

  unfoldable pub cached_or_measured :
      NodeGetVolumeStatsRequest → Option VolumeStats → Run VolumeStats
  unfolding measure
  cached_or_measured req (some stats) = pure stats
  cached_or_measured req none = measure req

  unfoldable pub node_get_volume_stats : NodeGetVolumeStatsRequest → Run VolumeStats
  unfolding read_cache cached_or_measured
  node_get_volume_stats req = do
    require (not (is_empty req.volume_id)) invalid_argument
    require (not (is_empty req.volume_path)) invalid_argument
    cached ← read_cache req.volume_id
    cached_or_measured req cached

unfoldable node_get_info : Driver → Outcome Bytes
node_get_info d = done d.node_id

unfoldable node_get_capabilities : Driver → Outcome (List NodeServiceCapability)
node_get_capabilities d = done d.nscap

-- `NodeStageVolume`, `NodeUnstageVolume` and `NodeExpandVolume`.
unfoldable unimplemented_node_call : Outcome (Unit {0})
unimplemented_node_call = failed unimplemented
