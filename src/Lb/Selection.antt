-- ===== src/Lb/Selection.antt =====
-- Which address `AssignIPToNode` selects: pkg/lbcontroller/lbcontroller.go, lines 122 to 130.
use mathlib.Core.List.{Mem, Perm, mem-cons, mem-cons_self, not-mem-nil}
use mathlib.Core.List.Perm
use mathlib.Core.Logic.Or
use native.Mathlib.Bridge.{le_prop}
use google_cloud_platform_nf.Prelude.{
  ◌≤◌, subst, ◌≡◌, ◌≢◌, refl, List, [], ◌∷◌, Option, none, some, arith, All, All-mem, ltb,
  Bool-cases, inl, inr,
}
use google_cloud_platform_nf.Text.{Bytes}
use google_cloud_platform_nf.Maps.{lookup, keys, mem-keys, lookup_of_mem}
use google_cloud_platform_nf.Lb.{IpMap, load, biased, insert_sorted, sort_ips, first_ip, select_ip}

-- No address of a list has a smaller count.
abbrev IsLeast : IpMap → Bytes → List Bytes → Type 0
IsLeast m ip = All (λ j. biased (load m ip) ≤ biased (load m j))

IsLeast-trans :
    (m : IpMap) (ip j : Bytes) (js : List Bytes)
    → biased (load m ip) ≤ biased (load m j)
    → IsLeast m j js
    → IsLeast m ip js
IsLeast-trans m ip j [] h l = tt
IsLeast-trans m ip j (k ∷ ks) h l = (omega arith, IsLeast-trans m ip j ks h l.1)

-- The first address of a sorted list, with its place among the others.
abbrev Heads : IpMap → List Bytes → Option Bytes → Type 0
Heads m ips none = ips ≡ []
Heads m ips (some ip) = IsLeast m ip ips × Mem ip ips

insert_sorted-Heads :
    (m : IpMap) (ip : Bytes) (ips sorted : List Bytes)
    → Heads m ips (first_ip sorted)
    → Heads m (ip ∷ ips) (first_ip (insert_sorted m ip sorted))
unfolding insert_sorted first_ip
insert_sorted-Heads m ip ips [] h = rw h ((omega arith, tt), mem-cons_self)
insert_sorted-Heads m ip ips (j ∷ js) (least, held) =
    elim (Bool-cases (ltb (biased (load m j)) (biased (load m ip)))) [
      | inl smaller ↦ rw smaller ((ground arith, least), mem-cons.1 (Or.inr held))
      | inr other ↦
          rw other ((omega arith, IsLeast-trans m ip j ips (ground arith) least), mem-cons_self)
    ]

sort_ips-Heads : (m : IpMap) (ips : List Bytes) → Heads m ips (first_ip (sort_ips m ips))
unfolding sort_ips first_ip
sort_ips-Heads m [] = refl
sort_ips-Heads m (ip ∷ ips) = insert_sorted-Heads m ip ips (sort_ips m ips) (sort_ips-Heads m ips)

module _ (visit : List Bytes → List Bytes) (visits : (ks : List Bytes) → Perm (visit ks) ks) where
  select_ip-Heads : (m : IpMap) → Heads m (visit (keys m)) (select_ip visit m)
  unfolding select_ip
  select_ip-Heads m = sort_ips-Heads m (visit (keys m))

  -- The selected address is one of the map's.
  pub select_ip-mem : (m : IpMap) (ip : Bytes) → select_ip visit m ≡ some ip → lookup ip m ≢ none
  select_ip-mem m ip e =
      let h : Heads m (visit (keys m)) (some ip) = rw e at (select_ip-Heads m) in
      lookup_of_mem ip m (Perm.subset (visits (keys m)) ip h.1)

  -- No address of the map has a smaller count than the selected one.
  pub select_ip-le :
      (m : IpMap) (ip j : Bytes)
      → select_ip visit m ≡ some ip
      → lookup j m ≢ none
      → biased (load m ip) ≤ biased (load m j)
  select_ip-le m ip j e h =
      let heads : Heads m (visit (keys m)) (some ip) = rw e at (select_ip-Heads m) in
      All-mem (λ k. le_prop) j (visit (keys m)) heads.0
        (Perm.subset (Perm.symm (visits (keys m))) j (mem-keys j m h))

  -- Some address is selected where the map has one.
  pub select_ip-ne-none : (m : IpMap) (j : Bytes) → lookup j m ≢ none → select_ip visit m ≢ none
  select_ip-ne-none m j h e =
      let none_visited : visit (keys m) ≡ [] = rw e at (select_ip-Heads m) in
      not-mem-nil
        (subst (Mem j) none_visited (Perm.subset (Perm.symm (visits (keys m))) j (mem-keys j m h)))
