-- ===== src/Lb.antt =====
-- pkg/lbcontroller/lbcontroller.go: the in-memory count of nodes for each NFS server address.
-- A count is a Go `int`: a 64-bit word in two's complement. The mutex makes each operation one
-- step. The children hold the proofs.
pub mod Selection
pub mod Census
pub mod Branches
pub mod Counted
pub mod Counts
pub mod Issued
pub mod Interleaving
pub mod Resync
pub mod Outcomes
pub mod Balance
pub mod Repeats
pub mod Origin
pub mod Withdrawal
pub mod Removal
pub mod Departures
pub mod Progress
pub mod Restart
pub mod Share
pub mod Growth
use google_cloud_platform_nf.Prelude.{
  ℕ, ◌+◌, ◌-◌, ◌%◌, ◌^◌, ◌≡◌, Bool, true, false, List, [], ◌∷◌, Option, none, some, ltb,
  if◌then◌else◌,
}
use google_cloud_platform_nf.Text.{Bytes}
use google_cloud_platform_nf.Maps.{Map, lookup, insert, remove, keys}
use google_cloud_platform_nf.Cluster.{
  Node, node_annotation, assigned_ip, ApiError, missing, unavailable, Reply, found, refused,
  NodeApi,
}

-- `ipMap[ip]++` and `ipMap[ip]--` on a 64-bit `int`, and its signed order.
unfoldable pub increment : ℕ → ℕ
increment n = (n + 1) % 2 ^ 64

unfoldable pub decrement : ℕ → ℕ
decrement n = (n + (2 ^ 64 - 1)) % 2 ^ 64

-- The word moved by 2 ^ 63, which turns the signed order into the order of ℕ.
unfoldable pub biased : ℕ → ℕ
biased n = (n + 2 ^ 63) % 2 ^ 64

abbrev pub IpMap : Type 0
IpMap = Map ℕ

-- `ipMap[ip]`, 0 on a missing key.
unfoldable pub load : IpMap → Bytes → ℕ
load m ip = elim (lookup ip m) [ none ↦ 0 | some n ↦ n ]

abbrev pub has_ip : IpMap → Bytes → Bool
has_ip m ip = elim (lookup ip m) [ none ↦ false | some n ↦ true ]

-- The field `ipMap` of `LBController`; the client and the lister are a `NodeApi`.
pub record LbController : Type 0 where
  pub ip_map : IpMap

-- `sort.Slice`: insertion sort, which Go runs on at most 12 elements. With more, which of the
-- least loaded addresses comes first may differ; the order of the map is arbitrary as it is.
unfoldable pub insert_sorted : IpMap → Bytes → List Bytes → List Bytes
insert_sorted m ip [] = ip ∷ []
insert_sorted m ip (j ∷ js) =
    if ltb (biased (load m j)) (biased (load m ip)) then j ∷ insert_sorted m ip js else ip ∷ j ∷ js

unfoldable pub sort_ips : IpMap → List Bytes → List Bytes
unfolding insert_sorted
sort_ips m [] = []
sort_ips m (ip ∷ ips) = insert_sorted m ip (sort_ips m ips)

-- `for _, ip := range ipList { ipMap[ip] = 0 }`.
unfoldable pub zero_ips : List Bytes → IpMap → IpMap
zero_ips [] m = m
zero_ips (ip ∷ ips) m = zero_ips ips (insert ip 0 m)

unfoldable pub count_node : Option Bytes → IpMap → IpMap
count_node none m = m
count_node (some ip) m = if has_ip m ip then insert ip (increment (load m ip)) m else m

unfoldable pub count_nodes : List Node → IpMap → IpMap
unfolding count_node
count_nodes [] m = m
count_nodes (n ∷ ns) m = count_nodes ns (count_node (assigned_ip n) m)

-- The annotations of the copy that `AssignIPToNode` writes; a nil map is made first.
unfoldable pub annotate : Node → Bytes → Node
annotate n ip = record n {
  annotations = some (insert node_annotation ip (elim n.annotations [ none ↦ [] | some m ↦ m ]));
}

unfoldable pub unannotate : Node → Node
unannotate n = record n {
  annotations = elim n.annotations [ none ↦ none | some m ↦ some (remove node_annotation m) ];
}

-- How `AssignIPToNode` ends. `crashed` is the panic of `ips[0]` on no address.
pub data Assignment : Type 0 where
  assigned : Bytes → Assignment
  not_assigned : ApiError → Assignment
  crashed : Assignment

-- `ips[0]` of the sorted addresses.
unfoldable pub first_ip : List Bytes → Option Bytes
first_ip [] = none
first_ip (ip ∷ ips) = some ip

-- The parameter `visit` is the order in which `range c.ipMap` gives the keys.
unfoldable pub select_ip : (List Bytes → List Bytes) → IpMap → Option Bytes
unfolding sort_ips first_ip
select_ip visit m = first_ip (sort_ips m (visit (keys m)))

module _ (api : NodeApi) (visit : List Bytes → List Bytes) where
  -- From the copy of the node to the increment.
  unfoldable pub write_ip :
      api.State → LbController → Node → Option Bytes → api.State × LbController × Assignment
  write_ip s c node none = (s, c, crashed)
  write_ip s c node (some ip) =
      let (s', e) = api.update s (annotate node ip) in
      elim e [
        | some err ↦ (s', c, not_assigned err)
        | none ↦ (
          s',
          record c { ip_map = insert ip (increment (load c.ip_map ip)) c.ip_map },
          assigned ip,
        )
      ]

  unfoldable pub assign_to :
      api.State → LbController → Node → Option Bytes → api.State × LbController × Assignment
  unfolding write_ip
  assign_to s c node none = write_ip s c node (select_ip visit c.ip_map)
  assign_to s c node (some ip) =
      if has_ip c.ip_map ip
      then (s, c, assigned ip)
      else write_ip s c node (select_ip visit c.ip_map)

  -- `AssignIPToNode`. The volume id is only logged.
  unfoldable pub assign_ip_to_node :
      api.State → LbController → Bytes → api.State × LbController × Assignment
  unfolding assign_to
  assign_ip_to_node s c node_name = elim (api.get s node_name) [
    | refused e ↦ (s, c, not_assigned e)
    | found node ↦ assign_to s c node (assigned_ip node)
  ]

module _ (api : NodeApi) where
  -- `resyncIPMap`. The list of nodes is read before the mutex is taken.
  unfoldable pub resync_ip_map : api.State → List Bytes → Reply IpMap
  resync_ip_map s ip_list = elim (api.list s) [
    | refused e ↦ refused e
    | found nodes ↦ found (count_nodes nodes (zero_ips ip_list []))
  ]

  -- From the copy of the node to the decrement.
  unfoldable pub write_removal :
      api.State → LbController → Node → Bytes → api.State × LbController × Option ApiError
  write_removal s c node ip =
      let (s', e) = api.update s (unannotate node) in
      elim e [
        | some err ↦ (s', c, some err)
        | none ↦ (s', record c { ip_map = insert ip (decrement (load c.ip_map ip)) c.ip_map }, none)
      ]

  unfoldable pub remove_from :
      api.State → LbController → Node → Option Bytes → api.State × LbController × Option ApiError
  unfolding write_removal
  remove_from s c node none = (s, c, none)
  remove_from s c node (some ip) =
      if has_ip c.ip_map ip then write_removal s c node ip else (s, c, none)

  -- `RemoveIPFromNode`.
  unfoldable pub remove_ip_from_node :
      api.State → LbController → Bytes → api.State × LbController × Option ApiError
  unfolding remove_from
  remove_ip_from_node s c node_name = elim (api.get s node_name) [
    | refused missing ↦ (s, c, none)
    | refused unavailable ↦ (s, c, some unavailable)
    | found node ↦ remove_from s c node (assigned_ip node)
  ]
