-- ===== src/Lb/Interleaving.antt =====
-- Calls of `AssignIPToNode` and `RemoveIPFromNode` that run at the same time,
-- pkg/lbcontroller/lbcontroller.go. Each reads its node from the lister before it takes the mutex, so
-- other calls and the cluster may move in between; what it does under the mutex is one step.
use mathlib.Core.List.{Perm}
use google_cloud_platform_nf.Prelude.{
  ◌^◌, ◌<◌, ◌≡◌, refl, List, [], ◌∷◌, ◌++◌, none, arith, length, All, All-middle, All-map, true,
  ◌≤◌,
}
use google_cloud_platform_nf.Text.{Bytes}
use google_cloud_platform_nf.Cluster.{Node, assigned_ip, NodeApi, IsVersioned, found}
use google_cloud_platform_nf.Lb.Census.{population-le-length}
use google_cloud_platform_nf.Lb.Counted.{IsCounted, joins-IsCounted, leaves-IsCounted}
use google_cloud_platform_nf.Lb.Issued.{assign_to-issued, remove_from-issued}
use google_cloud_platform_nf.Lb.Counts.{assign_to-Keeps, remove_from-Keeps}
use google_cloud_platform_nf.Lb.{LbController, load, has_ip, assign_to, remove_from}

-- A call that has read its node and waits for the mutex.
pub data Call : Type 0 where
  assigning removing : Node → Call

abbrev pub read_node : Call → Node
read_node (assigning n) = n
read_node (removing n) = n

pub record System (api : NodeApi) : Type 0 where
  pub cluster : api.State
  pub lb_controller : LbController
  pub waiting : List Call

module _ (api : NodeApi) (nodes : api.State → List Node) (Issued : api.State → Node → Type 0) where
  -- One step. What a call returns goes to its client and is left out. `elsewhere` is the lister that
  -- moves on, `joins` is a new node and `leaves` one that goes; neither carries an address.
  pub data Step (y z : System api) : Type 0 where
    reads :
        (call : Call) (k : Bytes)
        → api.get y.cluster k ≡ found (read_node call)
        → z ≡ record y { waiting = call ∷ y.waiting }
        → Step y z
    assigns :
        (visit : List Bytes → List Bytes) (visits : (ks : List Bytes) → Perm (visit ks) ks)
        (before after : List Call) (n : Node)
        → y.waiting ≡ before ++ assigning n ∷ after
        → z ≡ record {
          cluster = (assign_to api visit y.cluster y.lb_controller n (assigned_ip n)).0;
          lb_controller = (assign_to api visit y.cluster y.lb_controller n (assigned_ip n)).1;
          waiting = before ++ after;
        }
        → Step y z
    removes :
        (before after : List Call) (n : Node)
        → y.waiting ≡ before ++ removing n ∷ after
        → z ≡ record {
          cluster = (remove_from api y.cluster y.lb_controller n (assigned_ip n)).0;
          lb_controller = (remove_from api y.cluster y.lb_controller n (assigned_ip n)).1;
          waiting = before ++ after;
        }
        → Step y z
    elsewhere :
        (s : api.State)
        → nodes s ≡ nodes y.cluster
        → ((m : Node) → Issued y.cluster m → Issued s m)
        → z ≡ record y { cluster = s }
        → Step y z
    joins :
        (s : api.State) (n : Node)
        → nodes s ≡ n ∷ nodes y.cluster
        → assigned_ip n ≡ none
        → length (nodes s) < 2 ^ 63
        → ((m : Node) → Issued y.cluster m → Issued s m)
        → z ≡ record y { cluster = s }
        → Step y z
    leaves :
        (s : api.State) (before after : List Node) (n : Node)
        → nodes y.cluster ≡ before ++ n ∷ after
        → nodes s ≡ before ++ after
        → assigned_ip n ≡ none
        → ((m : Node) → Issued y.cluster m → Issued s m)
        → z ≡ record y { cluster = s }
        → Step y z

  pub data Reach (y : System api) : System api → Type 0 where
    here : Reach y y
    next : {z w : System api} → Reach y z → Step z w → Reach y w

  -- The counts are those of the cluster, and each waiting call has read a node that the server has
  -- held.
  pub record IsSound (y : System api) : Type 0 where
    pub counted : IsCounted y.lb_controller.ip_map (nodes y.cluster)
    pub issued : All (λ call. Issued y.cluster (read_node call)) y.waiting

module _ (api : NodeApi) (nodes : api.State → List Node) (Issued : api.State → Node → Type 0)
    (versioned : IsVersioned api nodes Issued) where
  Step-IsSound :
      {y z : System api}
      → Step api nodes Issued y z
      → IsSound api nodes Issued y
      → IsSound api nodes Issued z
  Step-IsSound {y} (reads call k got e) sound = rw e (record {
    counted = sound.counted;
    issued = (versioned.get_issued y.cluster k (read_node call) got, sound.issued);
  })
  Step-IsSound {y} (assigns visit visits before after n split e) sound =
      let (own, rest) = All-middle _ before (assigning n) after (rw split at sound.issued) in
      rw e (record {
        counted =
            assign_to-Keeps api nodes Issued versioned visit visits y.cluster y.lb_controller n
              (assigned_ip n) sound.counted own refl;
        issued =
            All-map
              (λ call issued.
                assign_to-issued api nodes Issued versioned visit y.cluster y.lb_controller n
                  (read_node call) (assigned_ip n) issued)
              (before ++ after) rest;
      })
  Step-IsSound {y} (removes before after n split e) sound =
      let (own, rest) = All-middle _ before (removing n) after (rw split at sound.issued) in
      rw e (record {
        counted =
            remove_from-Keeps api nodes Issued versioned y.cluster y.lb_controller n (assigned_ip n)
              sound.counted own refl;
        issued =
            All-map
              (λ call issued.
                remove_from-issued api nodes Issued versioned y.cluster y.lb_controller n
                  (read_node call) (assigned_ip n) issued)
              (before ++ after) rest;
      })
  Step-IsSound {y} (elsewhere s same kept e) sound = rw e (record {
    counted = rw same sound.counted;
    issued = All-map (λ call issued. kept (read_node call) issued) y.waiting sound.issued;
  })
  Step-IsSound {y} (joins s n grown bare fits kept e) sound = rw e (record {
    counted = rw grown (
        joins-IsCounted y.lb_controller.ip_map (nodes y.cluster) n sound.counted bare
          (rw grown at fits));
    issued = All-map (λ call issued. kept (read_node call) issued) y.waiting sound.issued;
  })
  Step-IsSound {y} (leaves s before after n split rest bare kept e) sound = rw e (record {
    counted =
        rw rest
          (leaves-IsCounted y.lb_controller.ip_map before n after (rw split at sound.counted) bare);
    issued = All-map (λ call issued. kept (read_node call) issued) y.waiting sound.issued;
  })

  Reach-IsSound :
      {y z : System api}
      → IsSound api nodes Issued y
      → Reach api nodes Issued y z
      → IsSound api nodes Issued z
  Reach-IsSound sound here = sound
  Reach-IsSound sound (next r step) = Step-IsSound step (Reach-IsSound sound r)

  -- However calls of `AssignIPToNode` and `RemoveIPFromNode` interleave, each having read its node
  -- before it takes the mutex, while the lister moves and nodes without an address join and leave,
  -- the counts are those of the cluster's nodes, if they were at first, when no call was waiting. An
  -- update is relied on to succeed only where it is made from the server's own node, to replace that
  -- node then, and to change nothing otherwise.
  pub Reach-IsCounted :
      {z : System api} (s : api.State) (c : LbController)
      → IsCounted c.ip_map (nodes s)
      → Reach api nodes Issued (record { cluster = s; lb_controller = c; waiting = [] }) z
      → IsCounted z.lb_controller.ip_map (nodes z.cluster)
  Reach-IsCounted s c counted r =
      (Reach-IsSound (record { counted = counted; issued = tt }) r).counted

  -- However calls of `AssignIPToNode` and `RemoveIPFromNode` interleave while the lister moves and
  -- nodes without an address join and leave, no count leaves the range of an `int`: it is at most the
  -- number of nodes, which is below 2 ^ 63. The counts are those of the cluster's nodes at first, when
  -- no call waits, and an update succeeds only where it is made from the server's own node, which it
  -- replaces, and changes nothing otherwise.
  pub Reach-load :
      {z : System api} (s : api.State) (c : LbController) (ip : Bytes)
      → IsCounted c.ip_map (nodes s)
      → Reach api nodes Issued (record { cluster = s; lb_controller = c; waiting = [] }) z
      → has_ip z.lb_controller.ip_map ip ≡ true
      → (load z.lb_controller.ip_map ip ≤ length (nodes z.cluster))
        × (length (nodes z.cluster) < 2 ^ 63)
  Reach-load {z} s c ip counted r known =
      let all = Reach-IsCounted s c counted r in
      (omega (arith, all.exact ip known, population-le-length ip (nodes z.cluster)), all.bounded)
