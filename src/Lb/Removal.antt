-- ===== src/Lb/Removal.antt =====
-- `RemoveIPFromNode`: its ways through, and that it undoes an assignment.
use google_cloud_platform_nf.Prelude.{
  ℕ, ◌^◌, ◌<◌, ◌≡◌, refl, List, Option, none, some, arith, Bool-cases, Option-cases, true, false,
  inl, inr, if◌then◌else◌,
}
use google_cloud_platform_nf.Text.{Bytes, eq_bytes, eq_bytes_iff, eq_bytes_refl}
use google_cloud_platform_nf.Maps.{insert}
use google_cloud_platform_nf.Cluster.{
  Node, assigned_ip, ApiError, NodeApi, IsFresh, Reply, found, refused, missing, unavailable,
}
use google_cloud_platform_nf.Lb.Census.{load-insert}
use google_cloud_platform_nf.Lb.Outcomes.{
  keeps, fails, counts, crashes, found_ip, assign_ip_to_node-Effect, has_ip-insert_same,
}
use google_cloud_platform_nf.Lb.Outcomes
use google_cloud_platform_nf.Lb.Branches.{
  write_removal_done, write_removal_failed, remove_ip_from_node_found, remove_ip_from_node_missing,
  remove_ip_from_node_unavailable, remove_from-none, remove_from_unknown, remove_from_known,
}
use google_cloud_platform_nf.Lb.Repeats.{Carries, assign_ip_to_node-Carries}
use google_cloud_platform_nf.Lb.{
  LbController, load, has_ip, increment, decrement, unannotate, assign_ip_to_node, Assignment,
  assigned, write_removal, remove_from, remove_ip_from_node,
}

-- The ways through, for a node that carries the address `old`: an error, nothing to remove, or the
-- address of the node counted down.
pub data Effect (old : Option Bytes) (c c' : LbController) (r : Option ApiError) : Type 0 where
  refuses : (err : ApiError) → c' ≡ c → r ≡ some err → Effect old c c' r
  skips :
      ((ip : Bytes) → old ≡ some ip → has_ip c.ip_map ip ≡ false)
      → c' ≡ c
      → r ≡ none
      → Effect old c c' r
  uncounts :
      (ip : Bytes)
      → old ≡ some ip
      → has_ip c.ip_map ip ≡ true
      → c' ≡ record c { ip_map = insert ip (decrement (load c.ip_map ip)) c.ip_map }
      → r ≡ none
      → Effect old c c' r

module _ (api : NodeApi) (s : api.State) (c : LbController) where
  abbrev pub Has : Option Bytes → api.State × LbController × Option ApiError → Type 0
  Has old t = Effect old c t.1 t.2

  write_removal-Effect :
      (n : Node) (ip : Bytes)
      → has_ip c.ip_map ip ≡ true
      → Has (some ip) (write_removal api s c n ip)
  write_removal-Effect n ip known = elim (Option-cases (api.update s (unannotate n)).1) [
    | inl done ↦ rw (write_removal_done api s c n ip done) (uncounts ip refl known refl refl)
    | inr (err, failed) ↦ rw (write_removal_failed api s c n ip err failed) (refuses err refl refl)
  ]

  pub remove_from-Effect : (n : Node) (old : Option Bytes) → Has old (remove_from api s c n old)
  remove_from-Effect n none = rw (remove_from-none api s c n) (skips (λ ip e. cc) refl refl)
  remove_from-Effect n (some ip) = elim (Bool-cases (has_ip c.ip_map ip)) [
    | inl known ↦ rw (remove_from_known api s c n ip known) (write_removal-Effect n ip known)
    | inr unknown ↦
        rw (remove_from_unknown api s c n ip unknown)
          (skips (λ j e. ground (arith, e, unknown)) refl refl)
  ]

  remove_ip_from_node-Effect :
      (k : Bytes) → Has (found_ip (api.get s k)) (remove_ip_from_node api s c k)
  remove_ip_from_node-Effect k = by_reply (api.get s k) refl
    where
      by_reply :
          (r : Reply Node) → api.get s k ≡ r → Has (found_ip r) (remove_ip_from_node api s c k)
      by_reply (found n) e =
          rw (remove_ip_from_node_found api s c k n e) (remove_from-Effect n (assigned_ip n))
      by_reply (refused missing) e =
          rw (remove_ip_from_node_missing api s c k e) (skips (λ ip h. cc) refl refl)
      by_reply (refused unavailable) e =
          rw (remove_ip_from_node_unavailable api s c k e) (refuses unavailable refl refl)

module _ (old : Option Bytes) (c c' : LbController) (r : Option ApiError) where
  pub Effect-keys : (j : Bytes) → Effect old c c' r → has_ip c'.ip_map j ≡ has_ip c.ip_map j
  Effect-keys j (refuses _ e _) = rw e refl
  Effect-keys j (skips _ e _) = rw e refl
  Effect-keys j (uncounts ip _ known e _) = rw e (has_ip-insert_same c.ip_map ip j _ known)

  Effect-failed : (err : ApiError) → Effect old c c' r → r ≡ some err → c' ≡ c
  Effect-failed err (refuses _ e _) h = e
  Effect-failed err (skips _ e _) h = e
  Effect-failed err (uncounts _ _ _ _ e) h = cc

  Effect-load :
      (ip j : Bytes)
      → Effect old c c' r
      → old ≡ some ip
      → has_ip c.ip_map ip ≡ true
      → r ≡ none
      → load c'.ip_map j ≡ (if eq_bytes ip j then decrement (load c.ip_map ip) else load c.ip_map j)
  Effect-load ip j (refuses _ _ e) h known done = cc
  Effect-load ip j (skips none_known _ _) h known done = absurd (ground (arith, none_known ip h))
  Effect-load ip j (uncounts i held _ e _) h known done =
      let same : i ≡ ip = ground (arith, held, h) in
      rw (e, same) (load-insert c.ip_map ip j (decrement (load c.ip_map ip)))

module _ (api : NodeApi) (s : api.State) (c : LbController) (k : Bytes) where
  -- A removal that fails, whether at the lister or at the update, leaves the counts as they were.
  pub remove_ip_from_node-failed :
      (err : ApiError)
      → (remove_ip_from_node api s c k).2 ≡ some err
      → (remove_ip_from_node api s c k).1 ≡ c
  remove_ip_from_node-failed err = Effect-failed _ c _ _ err (remove_ip_from_node-Effect api s c k)

  -- A removal neither adds an address to the map nor takes one from it.
  remove_ip_from_node-keys :
      (j : Bytes) → has_ip (remove_ip_from_node api s c k).1.ip_map j ≡ has_ip c.ip_map j
  remove_ip_from_node-keys j = Effect-keys _ c _ _ j (remove_ip_from_node-Effect api s c k)

load-counts :
    (visit : List Bytes → List Bytes) (old : Option Bytes) (c c' : LbController) (r : Assignment)
    (ip j : Bytes)
    → Outcomes.Effect visit old c c' r
    → old ≡ none
    → r ≡ assigned ip
    → load c'.ip_map j ≡ (if eq_bytes ip j then increment (load c.ip_map ip) else load c.ip_map j)
load-counts visit old c c' r ip j (keeps _ e _ _ _) bare h = absurd (cc)
load-counts visit old c c' r ip j (fails _ _ e) bare h = absurd (cc)
load-counts visit old c c' r ip j (crashes _ e _) bare h = absurd (cc)
load-counts visit old c c' r ip j (counts i _ e f) bare h =
    let same : i ≡ ip = ground (arith, f, h) in
    rw (e, same) (load-insert c.ip_map ip j (increment (load c.ip_map ip)))

decrement-increment : (n : ℕ) → n < 2 ^ 64 → decrement (increment n) ≡ n
unfolding decrement increment
decrement-increment n h = omega arith

module _ (api : NodeApi) (nodes : api.State → List Node) (fresh : IsFresh api nodes)
    (visit : List Bytes → List Bytes) where
  -- `AssignIPToNode` for a node that carries no address and then `RemoveIPFromNode` for it leave every
  -- count as it was, if both calls succeed, the count of the address is a word, the lister finds the
  -- node each time and is up to date, and an update that succeeds is stored.
  pub remove_ip_from_node-assign_ip_to_node :
      (s s' s'' : api.State) (c c' c'' : LbController) (k ip j : Bytes) (n n' : Node)
      → load c.ip_map ip < 2 ^ 64
      → api.get s k ≡ found n
      → assigned_ip n ≡ none
      → assign_ip_to_node api visit s c k ≡ (s', c', assigned ip)
      → api.get s' k ≡ found n'
      → remove_ip_from_node api s' c' k ≡ (s'', c'', none)
      → load c''.ip_map j ≡ load c.ip_map j
  remove_ip_from_node-assign_ip_to_node s s' s'' c c' c'' k ip j n n' word got bare first got'
        second =
      let carried : Carries (nodes s') c' k ip =
        rw first at (assign_ip_to_node-Carries api nodes fresh visit s c k ip (rw first)) in
      let up = λ (i : Bytes).
        load-counts visit _ c c' (assigned ip) ip i
          (rw first at (assign_ip_to_node-Effect api visit s c k)) (rw got bare) refl in
      let down =
        Effect-load _ c' c'' none ip j (rw second at (remove_ip_from_node-Effect api s' c' k))
          (rw got' (carried.on_node n' (fresh.get_found s' k n' got'))) carried.in_map refl in
      ground (
        arith,
        down,
        up ip,
        up j,
        eq_bytes_iff ip j,
        eq_bytes_refl ip,
        decrement-increment (load c.ip_map ip) word,
      )
