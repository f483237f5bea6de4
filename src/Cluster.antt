-- ===== src/Cluster.antt =====
-- The nodes of the cluster, as pkg/lbcontroller/lbcontroller.go sees them through client-go.
-- The lister and the API server are not the driver's code: they are the parameter `NodeApi`.
use google_cloud_platform_nf.Prelude.{◌≡◌, List, [], ◌∷◌, Option, none, some, if◌then◌else◌}
use google_cloud_platform_nf.Text.{Bytes, codes, eq_bytes}
use google_cloud_platform_nf.Maps.{Map, lookup}

-- `NodeAnnotation`.
abbrev pub node_annotation : Bytes
node_annotation = codes "nfs.lb.csi.storage.gke.io/assigned-ip"

-- What the driver reads and writes of a `v1.Node`, with the resource version, which a copy keeps and
-- the server compares. The annotations of a node may be a nil map.
pub record Node : Type 0 where
  pub name : Bytes
  pub resource_version : Bytes
  pub annotations : Option (Map Bytes)

-- `node.Annotations[NodeAnnotation]`: a nil map reads as an empty one.
unfoldable pub assigned_ip : Node → Option Bytes
assigned_ip n = elim n.annotations [ none ↦ none | some m ↦ lookup node_annotation m ]

-- An error of the API: `errors.IsNotFound` tells the two kinds apart.
pub data ApiError : Type 0 where
  missing unavailable : ApiError

pub data Reply {ℓ} (A : Type ℓ) : Type ℓ where
  found : A → Reply A
  refused : ApiError → Reply A

-- `nodeLister.Get`, `nodeLister.List` and `clientset.CoreV1().Nodes().Update`. The lister's cache
-- and the server's store are one abstract state.
pub record NodeApi : Type 1 where
  pub State : Type 0
  pub get : State → Bytes → Reply Node
  pub list : State → Reply (List Node)
  pub update : State → Node → State × Option ApiError

unfoldable pub find_node : Bytes → List Node → Option Node
find_node k [] = none
find_node k (n ∷ ns) = if eq_bytes n.name k then some n else find_node k ns

unfoldable pub replace_node : Node → List Node → List Node
replace_node n [] = []
replace_node n (m ∷ ms) = if eq_bytes m.name n.name then n ∷ ms else m ∷ replace_node n ms

-- The server stores what it is sent under a version of its own.
abbrev pub with_version : Bytes → Node → Node
with_version v n = record n { resource_version = v }

-- What is relied on where what the lister returns counts as the cluster: it is up to date, an
-- update that succeeds replaces the node of that name, and one that fails changes nothing.
pub record IsFresh (api : NodeApi) (nodes : api.State → List Node) : Type 0 where
  pub get_found :
      (s : api.State) (k : Bytes) (n : Node)
      → api.get s k ≡ found n
      → find_node k (nodes s) ≡ some n
  pub list_found : (s : api.State) (ns : List Node) → api.list s ≡ found ns → ns ≡ nodes s
  pub update_done :
      (s : api.State) (n : Node)
      → (api.update s n).1 ≡ none
      → (v : Bytes) × (nodes (api.update s n).0 ≡ replace_node (with_version v n) (nodes s))
  pub update_failed :
      (s : api.State) (n : Node) (e : ApiError)
      → (api.update s n).1 ≡ some e
      → nodes (api.update s n).0 ≡ nodes s

-- What is relied on where the lister may lag behind the server: optimistic concurrency. `Issued` says
-- that a node is one that the server has held. It refuses an update under a version that is not its
-- own: an update that succeeds was made from the server's node, and replaces it. One that fails
-- changes nothing.
pub record IsVersioned (api : NodeApi) (nodes : api.State → List Node)
    (Issued : api.State → Node → Type 0) : Type 0 where
  pub get_issued : (s : api.State) (k : Bytes) (n : Node) → api.get s k ≡ found n → Issued s n
  pub update_issued : (s : api.State) (n m : Node) → Issued s m → Issued (api.update s n).0 m
  pub update_current :
      (s : api.State) (n n' : Node)
      → Issued s n
      → n'.name ≡ n.name
      → n'.resource_version ≡ n.resource_version
      → (api.update s n').1 ≡ none
      → find_node n.name (nodes s) ≡ some n
  pub update_done :
      (s : api.State) (n : Node)
      → (api.update s n).1 ≡ none
      → (v : Bytes) × (nodes (api.update s n).0 ≡ replace_node (with_version v n) (nodes s))
  pub update_failed :
      (s : api.State) (n : Node) (e : ApiError)
      → (api.update s n).1 ≡ some e
      → nodes (api.update s n).0 ≡ nodes s
