-- ===== src/Node/Finish.antt =====
-- What `NodePublishVolume` of pkg/nfs/nodeserver.go does behind the mount: the permissions of the
-- target and the read-ahead of its device.
use google_cloud_platform_nf.Prelude.{
  ℕ, ◌%◌, ◌^◌, ◌<◌, ◌≡◌, refl, ◌∙◌, ap, List, [], ◌∷◌, ◌++◌, true, false, none, some, ltb, ◌==◌,
  if◌then◌else◌,
}
use google_cloud_platform_nf.Text.{Bytes, codes}
use google_cloud_platform_nf.Locks.{StringSet}
use google_cloud_platform_nf.Rpc.{done, pure, continue, ◌>>=◌}
use google_cloud_platform_nf.Host.{Host, is_mounted}
use google_cloud_platform_nf.Node.Options.{
  collect_mount_options, ReadAhead, no_flag, read_ahead_kb, extract_read_ahead_kb_mount_flag,
}
use google_cloud_platform_nf.Node.{
  World, Handler, PublishParams, file_mode, decimal, trim_space, echo_command, cat_command,
  call_host,
}
use google_cloud_platform_nf.Node.Publish.{
  mount, mount_volume, apply_read_ahead, chmod_if_permission_mismatch,
}
use google_cloud_platform_nf.Node.ReadAheadLaws.{update_read_ahead-done}

module _ (host : Host) (t : Bytes) where
  -- From one state of the host to another, the target gets its permissions: none are asked for, it
  -- has them, or the change of its mode succeeds.
  pub data Permits (permissions : ℕ) (h h' : host.State) : Type 0 where
    none_asked : ltb 0 permissions ≡ false → h' ≡ h → Permits permissions h h'
    right_mode :
        (m : ℕ)
        → ltb 0 permissions ≡ true
        → host.lstat_mode h t ≡ some m
        → (m % 512 == file_mode permissions) ≡ true
        → h' ≡ h
        → Permits permissions h h'
    changed_mode :
        (m : ℕ)
        → ltb 0 permissions ≡ true
        → host.lstat_mode h t ≡ some m
        → (m % 512 == file_mode permissions) ≡ false
        → host.chmod h t (file_mode permissions) ≡ (h', true)
        → Permits permissions h h'

  -- The device of the target gets its read-ahead: none is asked for, or it is a number below 2 ^ 63,
  -- the device is known, the shell writes the number, and prints it when it is read back.
  pub data Tunes (flag : ReadAhead) (h h' : host.State) : Type 0 where
    no_flag_given : flag ≡ no_flag → h' ≡ h → Tunes flag h h'
    written :
        (kb : ℕ) (output echoed : Bytes) (mid : host.State)
        → flag ≡ read_ahead_kb kb
        → kb < 2 ^ 63
        → host.mountpoint_device h t ≡ some output
        → host.shell h (echo_command kb (trim_space output)) ≡ (mid, some echoed)
        → host.shell mid (cat_command (trim_space output)) ≡ (h', some (decimal kb ++ b'\n' ∷ []))
        → Tunes flag h h'

  -- The mount is accepted, and all that follows it succeeds.
  pub record Finishes (source : Bytes) (p : PublishParams) (h : host.State) : Type 0 where
    pub permitted : host.State
    pub tuned : host.State
    pub accepted :
        (host.mount h source t (codes "nfs") (collect_mount_options p.mount_options)).1 ≡ none
    pub permits :
        Permits p.mount_permissions
          (host.mount h source t (codes "nfs") (collect_mount_options p.mount_options)).0
          permitted
    pub tunes : Tunes (extract_read_ahead_kb_mount_flag p.mount_options) permitted tuned

  -- A mount that succeeds makes the target a mount point, and neither a change of its mode nor a
  -- command of the shell undoes that.
  pub record Sticks (source : Bytes) (options : List Bytes) : Type 0 where
    pub stuck :
        (h : host.State)
        → (host.mount h source t (codes "nfs") options).1 ≡ none
        → host.is_likely_not_mount_point (host.mount h source t (codes "nfs") options).0 t
          ≡ is_mounted
    pub kept_by_chmod :
        (h : host.State) (mode : ℕ)
        → host.is_likely_not_mount_point h t ≡ is_mounted
        → host.is_likely_not_mount_point (host.chmod h t mode).0 t ≡ is_mounted
    pub kept_by_shell :
        (h : host.State) (command : Bytes)
        → host.is_likely_not_mount_point h t ≡ is_mounted
        → host.is_likely_not_mount_point (host.shell h command).0 t ≡ is_mounted

  module _ (source : Bytes) (options : List Bytes) (sticks : Sticks source options) where
    Permits-mounted :
        (permissions : ℕ) (h h' : host.State)
        → Permits permissions h h'
        → host.is_likely_not_mount_point h t ≡ is_mounted
        → host.is_likely_not_mount_point h' t ≡ is_mounted
    Permits-mounted permissions h h' (none_asked a e) mounted = rw e mounted
    Permits-mounted permissions h h' (right_mode m a b c e) mounted = rw e mounted
    Permits-mounted permissions h h' (changed_mode m a b c e) mounted =
        rw e at (sticks.kept_by_chmod h (file_mode permissions) mounted)

    Tunes-mounted :
        (flag : ReadAhead) (h h' : host.State)
        → Tunes flag h h'
        → host.is_likely_not_mount_point h t ≡ is_mounted
        → host.is_likely_not_mount_point h' t ≡ is_mounted
    Tunes-mounted flag h h' (no_flag_given a e) mounted = rw e mounted
    Tunes-mounted flag h h' (written kb output echoed mid a small device wrote read) mounted =
        let first = sticks.kept_by_shell h (echo_command kb (trim_space output)) mounted in
        let still = rw wrote at first in
        rw read at (sticks.kept_by_shell mid (cat_command (trim_space output)) still)

  pub Finishes-mounted :
      (source : Bytes) (p : PublishParams) (h : host.State)
      → Sticks source (collect_mount_options p.mount_options)
      → (f : Finishes source p h) → host.is_likely_not_mount_point f.tuned t ≡ is_mounted
  Finishes-mounted source p h sticks f =
      let options = collect_mount_options p.mount_options in
      Tunes-mounted source options sticks (extract_read_ahead_kb_mount_flag p.mount_options)
        f.permitted f.tuned f.tunes
        (Permits-mounted source options sticks p.mount_permissions _ f.permitted f.permits
          (sticks.stuck h f.accepted))

module _ (host : Host) (sets : StringSet) (t : Bytes) where
  abbrev Run : Type 0
  Run = Handler host sets (Unit {0})

  abbrev permit : ℕ → Run
  permit permissions =
      if ltb 0 permissions
      then chmod_if_permission_mismatch host sets t (file_mode permissions)
      else pure tt

  permit_done :
      (permissions : ℕ) (w : World host sets) (h' : host.State)
      → Permits host t permissions w.host_state h'
      → permit permissions w ≡ (record w { host_state = h' }, done tt)
  unfolding chmod_if_permission_mismatch call_host
  permit_done permissions w h' (none_asked a e) = rw (a, e) refl
  permit_done permissions w h' (right_mode m a b c e) =
      rw (a, chmod_if_permission_mismatch, b, c, e) refl
  permit_done permissions w h' (changed_mode m a b c e) =
      rw (a, chmod_if_permission_mismatch, b, c, call_host, e) refl

  tune_done :
      (flag : ReadAhead) (w : World host sets) (h' : host.State)
      → Tunes host t flag w.host_state h'
      → apply_read_ahead host sets t flag w ≡ (record w { host_state = h' }, done tt)
  unfolding apply_read_ahead
  tune_done flag w h' (no_flag_given a e) = rw (a, e) refl
  tune_done flag w h' (written kb output echoed mid a small device wrote read) =
      rw a (update_read_ahead-done host sets t output echoed kb w mid h' small device wrote read)

  mount_done :
      (source : Bytes) (options : List Bytes) (w : World host sets)
      → (host.mount w.host_state source t (codes "nfs") options).1 ≡ none
      → mount host sets source t options w ≡ (
        record w { host_state = (host.mount w.host_state source t (codes "nfs") options).0 },
        done tt,
      )
  unfolding mount
  mount_done source options w accepted = rw accepted refl

  pub mount_volume_done :
      (source : Bytes) (p : PublishParams) (w : World host sets)
      → (f : Finishes host t source p w.host_state)
      → mount_volume host sets source t p w ≡ (record w { host_state = f.tuned }, done tt)
  unfolding mount_volume
  mount_volume_done source p w f =
      let options = collect_mount_options p.mount_options in
      let mounted : World host sets = record w {
        host_state = (host.mount w.host_state source t (codes "nfs") options).0;
      } in
      let last : Unit {0} → Run =
        λ u. apply_read_ahead host sets t (extract_read_ahead_kb_mount_flag p.mount_options) in
      let behind : Unit {0} → Run = λ u. permit p.mount_permissions >>= last in
      ap (λ r. continue r behind) (mount_done source options w f.accepted)
      ∙ ap (λ r. continue r last) (permit_done p.mount_permissions mounted f.permitted f.permits)
      ∙ tune_done (extract_read_ahead_kb_mount_flag p.mount_options)
          (record w { host_state = f.permitted }) f.tuned f.tunes
