-- ===== src/Examples/Versioned.antt =====
-- A server that gives each node a longer version at every update, and refuses an update under any
-- other version than its own; the lister is up to date.
use google_cloud_platform_nf.Prelude.{
  ◌≡◌, ◌<◌, ◌⊎◌, inl, inr, refl, List, [], ◌∷◌, true, false, Option, none, some, length, arith, ap,
  if◌then◌else◌, Bool-cases,
}
use google_cloud_platform_nf.Text.{Bytes, eq_bytes, eq_bytes_iff}
use google_cloud_platform_nf.Cluster.{
  Node, NodeApi, found, unavailable, missing, ApiError, find_node, replace_node, with_version,
  IsVersioned,
}
use google_cloud_platform_nf.Lb.Census.{find_node-name}
use google_cloud_platform_nf.Lb.Repeats.{find_node-replace_node}
use google_cloud_platform_nf.Examples.{reply_of, reply_found}
use google_cloud_platform_nf.Examples.Lagging.{found_issued}

abbrev newer : Node → Node
newer n = with_version (0 ∷ n.resource_version) n

abbrev store : List Node → Node → Option Node → List Node × Option ApiError
store s n none = (s, some missing)
store s n (some m) =
    if eq_bytes m.resource_version n.resource_version
    then (replace_node (newer n) s, none)
    else (s, some unavailable)

abbrev pub versioned_api : NodeApi
versioned_api = record {
  State = List Node;
  get = λ s k. reply_of (find_node k s);
  list = λ s. found s;
  update = λ s n. store s n (find_node n.name s);
}

abbrev pub stored_nodes : List Node → List Node
stored_nodes s = s

-- The server's node of that name is that node, or has a longer version.
abbrev HeldBy : Node → Option Node → Type 0
HeldBy n none = ◌≡◌ true false
HeldBy n (some m) = (m ≡ n) ⊎ (length n.resource_version < length m.resource_version)

abbrev pub Held : List Node → Node → Type 0
Held s n = HeldBy n (find_node n.name s)

find_node-replace_other :
    (k : Bytes) (n : Node) (ns : List Node)
    → eq_bytes n.name k ≡ false
    → find_node k (replace_node n ns) ≡ find_node k ns
unfolding find_node replace_node
find_node-replace_other k n [] other = refl
find_node-replace_other k n (m ∷ ms) other = ground (
  arith,
  eq_bytes_iff m.name k,
  eq_bytes_iff m.name n.name,
  eq_bytes_iff n.name k,
  find_node-replace_other k n ms,
)

get-Held : (s : List Node) (k : Bytes) (n : Node) → find_node k s ≡ some n → Held s n
get-Held s k n there = rw (found_issued k s n there) (inl refl)

-- A longer version outdates what was held.
outdates :
    (n m p : Node)
    → p.resource_version ≡ n.resource_version
    → HeldBy m (some p)
    → HeldBy m (some (newer n))
outdates n m p same (inl e) =
    let f : length p.resource_version ≡ length m.resource_version =
      ap (λ x. length x.resource_version) e in
    let g : length p.resource_version ≡ length n.resource_version = ap length same in
    inr (omega (arith, f, g))
outdates n m p same (inr older) =
    let g : length p.resource_version ≡ length n.resource_version = ap length same in
    inr (omega (arith, older, g))

store-Held :
    (s : List Node) (n m : Node) (o : Option Node)
    → find_node n.name s ≡ o
    → Held s m
    → Held (store s n o).0 m
store-Held s n m none e held = held
store-Held s n m (some p) e held =
    elim (Bool-cases (eq_bytes p.resource_version n.resource_version)) [
      | inr stale ↦ rw stale held
      | inl fresh ↦ elim (Bool-cases (eq_bytes n.name m.name)) [
        | inr other ↦ rw (fresh, find_node-replace_other m.name (newer n) s other) held
        | inl own ↦
            let same : n.name ≡ m.name = ground (arith, own, eq_bytes_iff n.name m.name) in
            let there : find_node m.name s ≡ some p = rw same at e in
            let named : n.name ≡ p.name = ground (arith, find_node-name n.name s p e) in
            let version : p.resource_version ≡ n.resource_version =
              ground (arith, fresh, eq_bytes_iff p.resource_version n.resource_version) in
            let old : HeldBy m (some p) = rw there at held in
            rw (fresh, find_node-replace_node m.name s p (newer n) there named)
              (outdates n m p version old)
      ]
    ]

store_current :
    (s : List Node) (n n' : Node)
    → Held s n
    → n'.name ≡ n.name
    → n'.resource_version ≡ n.resource_version
    → (store s n' (find_node n'.name s)).1 ≡ none
    → find_node n.name s ≡ some n
store_current s n n' held same kept done =
    let moved : find_node n'.name s ≡ find_node n.name s = ap (λ k. find_node k s) same in
    by_node (find_node n.name s) refl held (rw moved at done)
  where
    by_node :
        (o : Option Node)
        → find_node n.name s ≡ o
        → HeldBy n o
        → (store s n' o).1 ≡ none
        → find_node n.name s ≡ some n
    by_node none e held done = absurd (cc)
    by_node (some p) e (inl same_node) done = cc
    by_node (some p) e (inr older) done =
        elim (Bool-cases (eq_bytes p.resource_version n'.resource_version)) [
          | inr stale ↦ absurd (let bad = rw stale at done in cc)
          | inl fresh ↦
              let version : p.resource_version ≡ n'.resource_version =
                ground (arith, fresh, eq_bytes_iff p.resource_version n'.resource_version) in
              let f : length p.resource_version ≡ length n'.resource_version = ap length version in
              let g : length n'.resource_version ≡ length n.resource_version = ap length kept in
              absurd (omega (arith, older, f, g))
        ]

store_done :
    (s : List Node) (n : Node) (o : Option Node)
    → (store s n o).1 ≡ none
    → (v : Bytes) × ((store s n o).0 ≡ replace_node (with_version v n) s)
store_done s n none done = absurd (cc)
store_done s n (some p) done = elim (Bool-cases (eq_bytes p.resource_version n.resource_version)) [
  | inl fresh ↦ (0 ∷ n.resource_version, rw fresh refl)
  | inr stale ↦ absurd (let bad = rw stale at done in cc)
]

store_failed :
    (s : List Node) (n : Node) (o : Option Node) (e : ApiError)
    → (store s n o).1 ≡ some e
    → (store s n o).0 ≡ s
store_failed s n none e failed = refl
store_failed s n (some p) e failed =
    elim (Bool-cases (eq_bytes p.resource_version n.resource_version)) [
      | inl fresh ↦ absurd (let bad = rw fresh at failed in cc)
      | inr stale ↦ rw stale refl
    ]

pub versioned_api-IsVersioned : IsVersioned versioned_api stored_nodes Held
versioned_api-IsVersioned = record {
  get_issued = λ s k n got. get-Held s k n (reply_found (find_node k s) n got);
  update_issued = λ s n m held. store-Held s n m (find_node n.name s) refl held;
  update_current = λ s n n' held same kept done. store_current s n n' held same kept done;
  update_done = λ s n done. store_done s n (find_node n.name s) done;
  update_failed = λ s n e failed. store_failed s n (find_node n.name s) e failed;
}
