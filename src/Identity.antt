-- ===== src/Identity.antt =====
-- pkg/nfs/identityserver.go: the identity server.
use google_cloud_platform_nf.Prelude.{◌≡◌, List, [], ◌∷◌, Bool, true, false, arith, if◌then◌else◌}
use google_cloud_platform_nf.Text.{Bytes, is_empty}
use google_cloud_platform_nf.Rpc.{Outcome, done, failed, unavailable}
use google_cloud_platform_nf.Driver.{Driver}

record PluginInfo : Type 0 where
  pub name : Bytes
  pub vendor_version : Bytes

data PluginCapability : Type 0 where
  controller_service : PluginCapability

unfoldable get_plugin_info : Driver → Outcome PluginInfo
get_plugin_info d =
    if is_empty d.name
    then failed unavailable
    else if is_empty d.version
    then failed unavailable
    else done (record { name = d.name; vendor_version = d.version })

-- `ProbeResponse.Ready`.
unfoldable probe : Outcome Bool
probe = done true

unfoldable get_plugin_capabilities : Outcome (List PluginCapability)
get_plugin_capabilities = done (controller_service ∷ [])

-- `GetPluginInfo` answers exactly where the driver has a name and a version, with these two.
get_plugin_info-eq-done :
    (d : Driver) (info : PluginInfo)
    → get_plugin_info d ≡ done info
    → (is_empty d.name ≡ false)
      × (is_empty d.version ≡ false)
      × (info ≡ record { name = d.name; vendor_version = d.version })
unfolding get_plugin_info
get_plugin_info-eq-done d info h = ground arith
