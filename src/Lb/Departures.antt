-- ===== src/Lb/Departures.antt =====
-- A node that leaves the cluster: `RemoveIPFromNode` of pkg/lbcontroller/lbcontroller.go for a node
-- that the lister does not find.
use google_cloud_platform_nf.Prelude.{List, [], ◌∷◌, if◌then◌else◌}
use google_cloud_platform_nf.Text.{Bytes, eq_bytes}
use google_cloud_platform_nf.Cluster.{Node}

-- The nodes without the one of that name.
unfoldable pub delete_node : Bytes → List Node → List Node
delete_node k [] = []
delete_node k (n ∷ ns) = if eq_bytes n.name k then ns else n ∷ delete_node k ns
