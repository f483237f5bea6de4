-- ===== src/Node/Stats/Cache.antt =====
-- The cache of `NodeGetVolumeStats`, pkg/nfs/nodeserver.go.
use google_cloud_platform_nf.Prelude.{
  ◌≡◌, refl, ◌∙◌, Bool, true, false, not, Option, none, some, arith,
}
use google_cloud_platform_nf.Text.{Bytes, is_empty}
use google_cloud_platform_nf.Rpc.{
  Code, invalid_argument, Outcome, done, failed, panicked, M, continue, ◌>>=◌, ◌>>◌, require,
}
use google_cloud_platform_nf.Node.Stats.{
  VolumeStats, StatsSource, NodeGetVolumeStatsRequest, stats_of, read_cache, check_path,
  read_metrics, convert, store, measure, cached_or_measured, node_get_volume_stats,
}

-- What a cache promises whose entries do not expire meanwhile.
pub record IsCache (source : StatsSource) : Type 0 where
  pub get_set :
      (s : source.State) (k : Bytes) (stats : VolumeStats)
      → (source.cache_get (source.cache_set s k stats) k).1 ≡ some (some stats)
  pub get_get :
      (s : source.State) (k : Bytes) (stats : VolumeStats)
      → (source.cache_get s k).1 ≡ some (some stats)
      → (source.cache_get (source.cache_get s k).0 k).1 ≡ some (some stats)

module _ (source : StatsSource) (laws : IsCache source) where
  -- The state in which a call left the cache holds its answer.
  Remembers : Bytes → source.State × Outcome VolumeStats → Type 0
  Remembers k r =
      (stats : VolumeStats) → r.1 ≡ done stats → (source.cache_get r.0 k).1 ≡ some (some stats)

  bind-Remembers :
      {A : Type 0} (k : Bytes) (r : source.State × Outcome A) (f : A → M source.State VolumeStats)
      → ((a : A) (s : source.State) → Remembers k (f a s))
      → Remembers k (continue r f)
  unfolding Remembers
  bind-Remembers k (s, done a) f h stats e = h a s stats e
  bind-Remembers k (s, failed c) f h stats e = absurd (cc)
  bind-Remembers k (s, panicked) f h stats e = absurd (cc)

  convert-Remembers :
      (k : Bytes) (s : source.State) (o : Option VolumeStats)
      → Remembers k ((convert source o >>= store source k) s)
  unfolding Remembers convert store
  convert-Remembers k s none stats h = absurd (cc)
  convert-Remembers k s (some found) stats h = ground (arith, h, laws.get_set s k found)

  measure-Remembers :
      (req : NodeGetVolumeStatsRequest) (s : source.State)
      → Remembers req.volume_id (measure source req s)
  measure-Remembers req s =
      let inner =
        bind-Remembers req.volume_id (check_path source (source.lstat s req.volume_path) s) _
          (λ u s'.
            bind-Remembers req.volume_id (read_metrics source req.volume_path s') _
              (λ m s''. convert-Remembers req.volume_id s'' (stats_of m))) in
      unfold measure in inner

  cached-Remembers :
      (req : NodeGetVolumeStatsRequest) (s : source.State) (r : Option (Option VolumeStats))
      → (source.cache_get s req.volume_id).1 ≡ r
      → Remembers req.volume_id
          ((read_cache source req.volume_id >>= cached_or_measured source req) s)
  unfolding Remembers read_cache cached_or_measured
  cached-Remembers req s none e = λ stats h. absurd (let bad = rw e at h in cc)
  cached-Remembers req s (some none) e = rw e (unfold Remembers in measure-Remembers req _)
  cached-Remembers req s (some (some found)) e = λ stats h.
      let same : stats ≡ found = ground (arith, (rw e at h)) in
      rw (e, same) (laws.get_get s req.volume_id found e)

  require-Remembers :
      (k : Bytes) (b : Bool) (c : Code) (m : M source.State VolumeStats) (s : source.State)
      → Remembers k (m s)
      → Remembers k ((require b c >> m) s)
  unfolding Remembers
  require-Remembers k true c m s h = h
  require-Remembers k false c m s h = λ stats e. absurd (cc)

  node_get_volume_stats-Remembers :
      (req : NodeGetVolumeStatsRequest) (s : source.State)
      → Remembers req.volume_id (node_get_volume_stats source req s)
  node_get_volume_stats-Remembers req s =
      let body : M source.State VolumeStats =
        read_cache source req.volume_id >>= cached_or_measured source req in
      let named : M source.State VolumeStats =
        require (not (is_empty req.volume_path)) invalid_argument >> body in
      let inner =
        require-Remembers req.volume_id (not (is_empty req.volume_id)) invalid_argument named s (
          require-Remembers req.volume_id (not (is_empty req.volume_path)) invalid_argument body s
            (cached-Remembers req s (source.cache_get s req.volume_id).1 refl)) in
      unfold node_get_volume_stats in inner

  answer_cached :
      (req : NodeGetVolumeStatsRequest) (s : source.State) (stats : VolumeStats)
      → is_empty req.volume_id ≡ false
      → is_empty req.volume_path ≡ false
      → (source.cache_get s req.volume_id).1 ≡ some (some stats)
      → (node_get_volume_stats source req s).1 ≡ done stats
  unfolding node_get_volume_stats read_cache cached_or_measured
  answer_cached req s stats id path e = rw (id, path, e)

  -- A second call for the same volume, with a path that is not empty, gives the same statistics in
  -- every later state in which the cache answers for the volume as it did after the first call,
  -- whatever has happened to the file system and the metrics: the entry has not expired, and the
  -- volume id is not empty.
  pub node_get_volume_stats_twice :
      (req : NodeGetVolumeStatsRequest) (path : Bytes) (s later : source.State)
      (stats : VolumeStats)
      → is_empty req.volume_id ≡ false
      → is_empty path ≡ false
      → (node_get_volume_stats source req s).1 ≡ done stats
      → (source.cache_get later req.volume_id).1
        ≡ (source.cache_get (node_get_volume_stats source req s).0 req.volume_id).1
      → (node_get_volume_stats source
          (record { volume_id = req.volume_id; volume_path = path })
          later).1
        ≡ done stats
  node_get_volume_stats_twice req path s later stats id named first kept =
      let remembered : (source.cache_get (node_get_volume_stats source req s).0 req.volume_id).1
          ≡ some (some stats) =
        unfold Remembers in (node_get_volume_stats-Remembers req s) stats first in
      answer_cached (record { volume_id = req.volume_id; volume_path = path }) later stats id named
        (kept ∙ remembered)
