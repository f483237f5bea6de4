-- ===== src/Examples/Lagging.antt =====
-- A lister that lags: after each update it returns the nodes without their annotations, and the server
-- refuses what is made from such a node. The theorems on the counts applied to it.
use google_cloud_platform_nf.Prelude.{
  ◌⊎◌, inl, inr, arith, ◌≡◌, refl, List, Bool, true, false, Option, none, some, map,
}
use google_cloud_platform_nf.Text.{Bytes, codes}
use google_cloud_platform_nf.Cluster.{
  Node, NodeApi, found, unavailable, ApiError, find_node, replace_node, with_version, IsVersioned,
}
use google_cloud_platform_nf.Lb.Census.{find_node-name}
use google_cloud_platform_nf.Lb.{assign_ip_to_node, remove_ip_from_node}
use google_cloud_platform_nf.Lb.Counts.{
  Keeps, assign_ip_to_node-IsCounted, remove_ip_from_node-IsCounted,
}
use google_cloud_platform_nf.Examples.{
  reply_of, reply_found, two_nodes, two_loads, two_counts-IsCounted, in_order, in_order-Perm,
}

abbrev without_annotations : Node → Node
without_annotations n = record n { annotations = none }

-- What the lister has: the flag tells whether it lags.
abbrev pub listed_nodes : List Node × Bool → List Node
listed_nodes (ns, true) = map without_annotations ns
listed_nodes (ns, false) = ns

abbrev pub write : List Node × Bool → Node → (List Node × Bool) × Option ApiError
write (ns, true) n = ((ns, true), some unavailable)
write (ns, false) n = ((replace_node n ns, true), none)

abbrev pub lagging_api : NodeApi
lagging_api = record {
  State = List Node × Bool;
  get = λ s k. reply_of (find_node k (listed_nodes s));
  list = λ s. found (listed_nodes s);
  update = λ s n. write s n;
}

abbrev pub server_nodes : List Node × Bool → List Node
server_nodes (ns, lags) = ns

-- A node that the server holds; with a lister that lags, any node may have been read.
abbrev pub Issued : List Node × Bool → Node → Type 0
Issued (ns, lags) n = (lags ≡ true) ⊎ (find_node n.name ns ≡ some n)

pub found_issued :
    (k : Bytes) (ns : List Node) (n : Node) → find_node k ns ≡ some n → find_node n.name ns ≡ some n
found_issued k ns n there = ground (arith, find_node-name k ns n there)

get_issued :
    (s : List Node × Bool) (k : Bytes) (n : Node)
    → reply_of (find_node k (listed_nodes s)) ≡ found n
    → Issued s n
get_issued (ns, true) k n got = inl refl
get_issued (ns, false) k n got = inr (found_issued k ns n (reply_found (find_node k ns) n got))

write_issued : (s : List Node × Bool) (n m : Node) → Issued s m → Issued (write s n).0 m
write_issued (ns, true) n m issued = inl refl
write_issued (ns, false) n m issued = inl refl

write_current :
    (s : List Node × Bool) (n n' : Node)
    → Issued s n
    → (write s n').1 ≡ none
    → find_node n.name (server_nodes s) ≡ some n
write_current (ns, true) n n' issued stored = absurd (cc)
write_current (ns, false) n n' (inl lags) stored = absurd (cc)
write_current (ns, false) n n' (inr there) stored = there

write_done :
    (s : List Node × Bool) (n : Node)
    → (write s n).1 ≡ none
    → (v : Bytes) × (server_nodes (write s n).0 ≡ replace_node (with_version v n) (server_nodes s))
write_done (ns, true) n stored = absurd (cc)
write_done (ns, false) n stored = (n.resource_version, refl)

write_failed :
    (s : List Node × Bool) (n : Node) (e : ApiError)
    → (write s n).1 ≡ some e
    → server_nodes (write s n).0 ≡ server_nodes s
write_failed (ns, true) n e failed = refl
write_failed (ns, false) n e failed = absurd (cc)

pub lagging_api-IsVersioned : IsVersioned lagging_api server_nodes Issued
lagging_api-IsVersioned = record {
  get_issued = λ s k n got. get_issued s k n got;
  update_issued = λ s n m issued. write_issued s n m issued;
  update_current = λ s n n' issued same kept stored. write_current s n n' issued stored;
  update_done = λ s n stored. write_done s n stored;
  update_failed = λ s n e failed. write_failed s n e failed;
}

-- The lister has not seen the annotation of the second node.
abbrev pub behind : List Node × Bool
behind = (two_nodes, true)

assign_ip_to_node-IsCounted_example :
    Keeps lagging_api server_nodes
      (assign_ip_to_node lagging_api in_order behind two_loads (codes "b"))
assign_ip_to_node-IsCounted_example =
    assign_ip_to_node-IsCounted lagging_api server_nodes Issued lagging_api-IsVersioned in_order
      in_order-Perm behind two_loads (codes "b") two_counts-IsCounted

remove_ip_from_node-IsCounted_example :
    Keeps lagging_api server_nodes
      (remove_ip_from_node lagging_api (two_nodes, false) two_loads (codes "b"))
remove_ip_from_node-IsCounted_example =
    remove_ip_from_node-IsCounted lagging_api server_nodes Issued lagging_api-IsVersioned
      (two_nodes, false) two_loads (codes "b") two_counts-IsCounted
