-- ===== src/Lb/Repeats.antt =====
-- What an assignment leaves in the cluster, and calls that follow one another.
use google_cloud_platform_nf.Prelude.{
  ℕ, ◌≡◌, refl, List, [], ◌∷◌, Option, none, some, arith, Bool-cases, Option-cases, true, inl, inr,
}
use google_cloud_platform_nf.Text.{Bytes, eq_bytes_iff, eq_bytes_refl}
use google_cloud_platform_nf.Maps.{insert}
use google_cloud_platform_nf.Cluster.{
  Node, assigned_ip, find_node, replace_node, with_version, NodeApi, IsFresh, Reply, found, refused,
}
use google_cloud_platform_nf.Lb.Census.{
  has_ip-insert, name-annotate, find_node-name, assigned_ip-annotate, assigned_ip-with_version,
}
use google_cloud_platform_nf.Lb.Branches.{
  write_ip_done, write_ip_failed, assign_ip_to_node_found, assign_ip_to_node_refused,
  assign_to_kept, assign_to_stale, assign_to_fresh,
}
use google_cloud_platform_nf.Lb.{
  IpMap, LbController, load, has_ip, increment, annotate, write_ip, assign_to, assign_ip_to_node,
  Assignment, assigned,
}

pub find_node-replace_node :
    (k : Bytes) (ns : List Node) (n n' : Node)
    → find_node k ns ≡ some n
    → n'.name ≡ n.name
    → find_node k (replace_node n' ns) ≡ some n'
unfolding find_node replace_node
find_node-replace_node k [] n n' e h = cc
find_node-replace_node k (m ∷ ms) n n' e h = ground (
  arith,
  eq_bytes_iff m.name k,
  eq_bytes_iff m.name n'.name,
  eq_bytes_iff n'.name k,
  find_node-name k (m ∷ ms) n e,
  find_node-replace_node k ms n n',
)

pub has_ip-insert_self : (m : IpMap) (ip : Bytes) (v : ℕ) → has_ip (insert ip v m) ip ≡ true
has_ip-insert_self m ip v = ground (arith, has_ip-insert m ip ip v, eq_bytes_refl ip)

-- The node of that name carries the address, and the map has it.
pub record Carries (ns : List Node) (c : LbController) (k ip : Bytes) : Type 0 where
  pub on_node : (n : Node) → find_node k ns ≡ some n → assigned_ip n ≡ some ip
  pub in_map : has_ip c.ip_map ip ≡ true

module _ (api : NodeApi) (nodes : api.State → List Node) (fresh : IsFresh api nodes)
    (visit : List Bytes → List Bytes) (s : api.State) (c : LbController) (k ip : Bytes) where
  Settles : api.State × LbController × Assignment → Type 0
  Settles t = t.2 ≡ assigned ip → Carries (nodes t.0) t.1 k ip

  write_ip-Settles :
      (n : Node) (pick : Option Bytes)
      → find_node k (nodes s) ≡ some n
      → Settles (write_ip api visit s c n pick)
  unfolding Settles write_ip
  write_ip-Settles n none there = λ h. absurd (cc)
  write_ip-Settles n (some i) there = elim (Option-cases (api.update s (annotate n i)).1) [
    | inr (err, failed) ↦ rw (write_ip_failed api visit s c n i err failed) (λ h. absurd (cc))
    | inl done ↦
        let (v, stored) = fresh.update_done s (annotate n i) done in
        rw (write_ip_done api visit s c n i done, stored)
          λ h. record {
            on_node = λ m e. ground (
              arith,
              h,
              e,
              find_node-replace_node k (nodes s) n (with_version v (annotate n i)) there
                  (name-annotate n i),
              assigned_ip-with_version v (annotate n i),
              assigned_ip-annotate n i,
            );
            in_map = ground (arith, h, has_ip-insert_self c.ip_map i (increment (load c.ip_map i)));
          }
  ]

  assign_to-Settles :
      (n : Node) (old : Option Bytes)
      → find_node k (nodes s) ≡ some n
      → assigned_ip n ≡ old
      → Settles (assign_to api visit s c n old)
  unfolding Settles
  assign_to-Settles n none there e =
      rw (assign_to_fresh api visit s c n) (write_ip-Settles n _ there)
  assign_to-Settles n (some i) there e = elim (Bool-cases (has_ip c.ip_map i)) [
    | inl known ↦ rw (assign_to_kept api visit s c n i known) λ h. record {
      on_node = λ m f. ground (arith, h, e, f, there);
      in_map = ground (arith, h, known);
    }
    | inr unknown ↦ rw (assign_to_stale api visit s c n i unknown) (write_ip-Settles n _ there)
  ]

  pub assign_ip_to_node-Carries :
      (assign_ip_to_node api visit s c k).2 ≡ assigned ip
      → Carries
          (nodes (assign_ip_to_node api visit s c k).0)
          (assign_ip_to_node api visit s c k).1
          k
          ip
  unfolding Settles
  assign_ip_to_node-Carries = by_reply (api.get s k) refl
    where
      by_reply : (r : Reply Node) → api.get s k ≡ r → Settles (assign_ip_to_node api visit s c k)
      by_reply (found n) e =
          rw (assign_ip_to_node_found api visit s c k n e)
            (assign_to-Settles n (assigned_ip n) (fresh.get_found s k n e) refl)
      by_reply (refused err) e =
          rw (assign_ip_to_node_refused api visit s c k err e) (λ h. absurd (cc))

module _ (api : NodeApi) (nodes : api.State → List Node) (fresh : IsFresh api nodes)
    (visit visit' : List Bytes → List Bytes) where
  assign_ip_to_node-again :
      (s : api.State) (c : LbController) (k ip : Bytes) (n : Node)
      → Carries (nodes s) c k ip
      → api.get s k ≡ found n
      → assign_ip_to_node api visit' s c k ≡ (s, c, assigned ip)
  assign_ip_to_node-again s c k ip n carried got =
      rw
        (
          assign_ip_to_node_found api visit' s c k n got,
          carried.on_node n (fresh.get_found s k n got),
        )
        (assign_to_kept api visit' s c n ip carried.in_map)

  -- After an assignment that succeeds, a second one to the same node returns the same address, writes
  -- nothing and counts nothing, in whatever order the map is visited then, if the lister finds the node
  -- up to date at both calls, and so shows what the first call wrote, and an update that succeeds is
  -- stored.
  pub assign_ip_to_node_twice :
      (s s' : api.State) (c c' : LbController) (k ip : Bytes) (n : Node)
      → assign_ip_to_node api visit s c k ≡ (s', c', assigned ip)
      → api.get s' k ≡ found n
      → assign_ip_to_node api visit' s' c' k ≡ (s', c', assigned ip)
  assign_ip_to_node_twice s s' c c' k ip n first got =
      assign_ip_to_node-again s' c' k ip n
        (rw first at (assign_ip_to_node-Carries api nodes fresh visit s c k ip (rw first))) got
