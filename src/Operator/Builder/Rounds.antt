-- ===== src/Operator/Builder/Rounds.antt =====
-- The loop of `buildStepsWithoutJointConsensus` in
-- components/prophet/schedule/operator/builder.go: it ends, and what is done when it does.
use mathlib.Core.Path.{subst}
use matrixcube.Prelude.{
  ℕ, zero, suc, ◌+◌, ◌≤◌, ◌≡◌, ◌≢◌, ◌⊎◌, refl, sym, ap, ◌∙◌, Bool, true, false, not, ◌&&◌, Option,
  none, some, List, [], ◌∷◌, ◌==◌, if◌then◌else◌, Bool-cases, inl, inr, arith, length,
}
use matrixcube.Meta.{Peer, ResourceEpoch}
use matrixcube.Operator.Resource.{CachedResource}
use matrixcube.Operator.Builder.Peers.{PeersMap, lookup, has, delete, IsMap, delete-IsMap}
use matrixcube.Operator.Builder.{Builder, BuilderError, no_step, empty_plan, Cluster, new_builder}
use matrixcube.Operator.Builder.Requests.{Request, requests, requests-new_builder-IsMap}
use matrixcube.Operator.Builder.Result.{prepare_build-IsPrepared}
use matrixcube.Operator.Builder.Prepare.{pending_count, prepare_build}
use matrixcube.Operator.Builder.Exec.{
  exec_transfer_leader, exec_promote_learner, exec_demote_follower, exec_add_peer, exec_remove_peer,
  set_target_leader_if_not_exist,
}
use matrixcube.Operator.Builder.StepPlan.{StepPlan, is_empty, peer_plan}
use matrixcube.Operator.Builder.PlainPlan.{
  State, transfer_to, add_planned, promote_planned, demote_planned, remove_planned, exec_plan,
  Rounds, ended, stuck, out_of_fuel, rounds, last_transfer, with_steps, after_rounds, build_plain,
}
use matrixcube.Operator.Builder.Plans.{IsIn, IsReady, IsSound, peer_plan-IsSound}

abbrev pub without : PeersMap → Option Peer → PeersMap
without m none = m
without m (some p) = delete m p.container_id

-- the four maps after a round
abbrev pub AreLeft : Builder → Builder → (add remove promote demote : Option Peer) → Type 0
AreLeft b d a r p q =
    (d.to_add ≡ without b.to_add a)
    × (d.to_remove ≡ without b.to_remove r)
    × (d.to_promote ≡ without b.to_promote p)
    × (d.to_demote ≡ without b.to_demote q)

pub transfer-AreLeft : (id : ℕ) (s : State) → AreLeft s.0 (transfer_to id s).0 none none none none
unfolding transfer_to exec_transfer_leader
transfer-AreLeft id (b, kind) = elim (Bool-cases (not (id == 0) && not (id == b.current_leader))) [
  | inl e ↦ rw (e, transfer_to) (refl, refl, refl, refl)
  | inr e ↦ rw (e, transfer_to) (refl, refl, refl, refl)
]

pub add-AreLeft : (o : Option Peer) (s : State) → AreLeft s.0 (add_planned o s).0 o none none none
unfolding exec_add_peer
add-AreLeft none s = (refl, refl, refl, refl)
add-AreLeft (some p) s = (refl, refl, refl, refl)

pub promote-AreLeft :
    (o : Option Peer) (s : State) → AreLeft s.0 (promote_planned o s).0 none none o none
unfolding exec_promote_learner
promote-AreLeft none s = (refl, refl, refl, refl)
promote-AreLeft (some p) s = (refl, refl, refl, refl)

pub demote-AreLeft :
    (o : Option Peer) (s : State) → AreLeft s.0 (demote_planned o s).0 none none none o
unfolding exec_demote_follower
demote-AreLeft none s = (refl, refl, refl, refl)
demote-AreLeft (some p) s = (refl, refl, refl, refl)

remove-AreLeft : (o : Option Peer) (s : State) → AreLeft s.0 (remove_planned o s).0 none o none none
unfolding exec_remove_peer
remove-AreLeft none s = (refl, refl, refl, refl)
remove-AreLeft (some p) s = (refl, refl, refl, refl)

exec_plan-AreLeft :
    (p : StepPlan) (s : State) → AreLeft s.0 (exec_plan p s).0 p.add p.remove p.promote p.demote
unfolding exec_plan
exec_plan-AreLeft p s =
    let s1 = transfer_to p.leader_before_add s in
    let s2 = add_planned p.add s1 in
    let s3 = promote_planned p.promote s2 in
    let s4 = transfer_to p.leader_before_remove s3 in
    let s5 = demote_planned p.demote s4 in
    let a = transfer-AreLeft p.leader_before_add s in
    let b = add-AreLeft p.add s1 in
    let c = promote-AreLeft p.promote s2 in
    let d = transfer-AreLeft p.leader_before_remove s3 in
    let e = demote-AreLeft p.demote s4 in
    let f = remove-AreLeft p.remove s5 in
    (
      f.0 ∙ (e.0 ∙ (d.0 ∙ (c.0 ∙ (b.0 ∙ ap (λ m. without m p.add) a.0)))),
      f.1 ∙ ap (λ m. without m p.remove) (e.1 ∙ (d.1 ∙ (c.1 ∙ (b.1 ∙ a.1)))),
      f.2 ∙ (e.2 ∙ (d.2 ∙ (c.2 ∙ ap (λ m. without m p.promote) (b.2 ∙ a.2)))),
      f.3 ∙ (e.3 ∙ ap (λ m. without m p.demote) (d.3 ∙ (c.3 ∙ (b.3 ∙ a.3)))),
    )

length-delete : (m : PeersMap) (id : ℕ) → length (delete m id) ≤ length m
unfolding delete
length-delete [] id = omega arith
length-delete (q ∷ qs) id = ground (arith, length-delete qs id)

length-delete-found :
    (m : PeersMap) (id : ℕ) (p : Peer)
    → lookup m id ≡ some p
    → suc (length (delete m id)) ≤ length m
unfolding delete
length-delete-found [] id p e = cc
length-delete-found (q ∷ qs) id p e = elim (Bool-cases (q.container_id == id)) [
  | inl s ↦ rw s (ground (arith, length-delete qs id))
  | inr n ↦ rw n (ground (arith, length-delete-found qs id p (rw n at e)))
]

abbrev count : Option Peer → ℕ
count none = 0
count (some p) = 1

length-without :
    (m : PeersMap) (o : Option Peer) → IsIn m o → length (without m o) + count o ≤ length m
length-without m none i = omega arith
length-without m (some p) i = omega (arith, length-delete-found m p.container_id p i)

without-IsMap : (m : PeersMap) (o : Option Peer) → IsMap m → IsMap (without m o)
without-IsMap m none i = i
without-IsMap m (some p) i = delete-IsMap m p.container_id i

count_planned :
    (a r p q : Option Peer)
    → is_empty (record {
      leader_before_add = 0;
      leader_before_remove = 0;
      add = a;
      remove = r;
      promote = p;
      demote = q;
    })
      ≡ false
    → 1 ≤ count a + count r + count p + count q
count_planned (some x) r p q e = omega arith
count_planned none (some x) p q e = omega arith
count_planned none none (some x) q e = omega arith
count_planned none none none (some x) e = omega arith
count_planned none none none none e = cc

-- a round with a plan takes a peer from the maps
exec_plan-pending_count :
    (p : StepPlan) (s : State)
    → IsSound s.0 p
    → is_empty p ≡ false
    → suc (pending_count (exec_plan p s).0) ≤ pending_count s.0
unfolding pending_count
exec_plan-pending_count p s i e =
    let l = exec_plan-AreLeft p s in
    let a = length-without s.0.to_add p.add i.0 in
    let b = length-without s.0.to_remove p.remove i.1 in
    let c = length-without s.0.to_promote p.promote i.2 in
    let d = length-without s.0.to_demote p.demote i.3 in
    let n = count_planned p.add p.remove p.promote p.demote e in
    rw (l.0, l.1, l.2, l.3, pending_count) (omega (arith, a, b, c, d, n))

pub exec_plan-IsReady : (p : StepPlan) (s : State) → IsReady s.0 → IsReady (exec_plan p s).0
exec_plan-IsReady p s r =
    let l = exec_plan-AreLeft p s in
    (
      subst IsMap (sym l.0) (without-IsMap s.0.to_add p.add r.0),
      subst IsMap (sym l.1) (without-IsMap s.0.to_remove p.remove r.1),
      subst IsMap (sym l.2) (without-IsMap s.0.to_promote p.promote r.2),
      subst IsMap (sym l.3) (without-IsMap s.0.to_demote p.demote r.3),
    )

-- How the rounds end: with all that was to be changed, or with an empty plan, never with the fuel.
abbrev pub HasEnded : Rounds → Type 0
HasEnded (ended s) = pending_count s.0 ≡ 0
HasEnded (stuck s) = is_empty (peer_plan s.0) ≡ true
HasEnded out_of_fuel = ⊥

pub rounds-HasEnded :
    (fuel : ℕ) (s : State) → IsReady s.0 → pending_count s.0 ≤ fuel → HasEnded (rounds fuel s)
unfolding rounds
rounds-HasEnded zero s r h = elim (Bool-cases (pending_count s.0 == 0)) [
  | inl e ↦ rw (e, rounds) (ground arith)
  | inr e ↦ absurd (ground arith)
]
rounds-HasEnded (suc fuel) s r h = elim (Bool-cases (pending_count s.0 == 0)) [
  | inl e ↦ rw (e, rounds) (ground arith)
  | inr n ↦ elim (Bool-cases (is_empty (peer_plan s.0))) [
    | inl e ↦ rw (n, e, rounds) e
    | inr m ↦
        let d = exec_plan-pending_count (peer_plan s.0) s (peer_plan-IsSound s.0 r) m in
        rw (n, m, rounds)
          (rounds-HasEnded fuel (exec_plan (peer_plan s.0) s)
            (exec_plan-IsReady (peer_plan s.0) s r) (omega (arith, d, h)))
  ]
]

choice_kept : (b : Builder) → pending_count (set_target_leader_if_not_exist b) ≡ pending_count b
unfolding set_target_leader_if_not_exist pending_count
choice_kept b = elim (Bool-cases (b.target_leader == 0)) [
  | inl e ↦ rw (e, set_target_leader_if_not_exist) refl
  | inr e ↦ rw (e, set_target_leader_if_not_exist) refl
]

either_count :
    (n : ℕ) (c : Bool) (x y : State)
    → pending_count x.0 ≡ n
    → pending_count y.0 ≡ n
    → pending_count (if c then x else y).0 ≡ n
either_count n true x y h k = h
either_count n false x y h k = k

transfer_count :
    (b : Builder) (id : ℕ) → pending_count (exec_transfer_leader b id) ≡ pending_count b
unfolding exec_transfer_leader pending_count
transfer_count b id = refl

-- the choice of a leader and its transfer change no map
last_transfer_kept : (s : State) → pending_count (last_transfer s).0 ≡ pending_count s.0
unfolding last_transfer
last_transfer_kept (b, kind) =
    let l = set_target_leader_if_not_exist b in
    either_count (pending_count b)
      (has l.current_peers l.target_leader
        && not (l.target_leader == 0)
        && not (l.current_leader == l.target_leader))
      _ (l, kind) (transfer_count l l.target_leader ∙ choice_kept b) (choice_kept b)

-- What the plan without joint consensus ends with.
abbrev pub IsBuilt : Option (State × Option BuilderError) → Type 0
IsBuilt none = ⊥
IsBuilt (some (s, some e)) = (e ≡ no_step) ⊎ (e ≡ empty_plan) × (is_empty (peer_plan s.0) ≡ true)
IsBuilt (some (s, none)) =
    (s.0.to_add ≡ [])
    × (s.0.to_remove ≡ [])
    × (s.0.to_promote ≡ [])
    × (s.0.to_demote ≡ [])
    × (s.0.steps ≢ [])

no_length : {A : Type 0} (xs : List A) → length xs ≡ 0 → xs ≡ []
no_length [] e = refl
no_length (x ∷ xs) e = absurd (omega (arith, e))

some_length : {A : Type 0} (xs : List A) → (length xs == 0) ≡ false → xs ≢ []
some_length xs e h = absurd (ground (arith, ap length h))

pub none_pending :
    (b : Builder)
    → pending_count b ≡ 0
    → (b.to_add ≡ []) × (b.to_remove ≡ []) × (b.to_promote ≡ []) × (b.to_demote ≡ [])
unfolding pending_count
none_pending b h = (
  no_length b.to_add (omega (arith, h)),
  no_length b.to_remove (omega (arith, h)),
  no_length b.to_promote (omega (arith, h)),
  no_length b.to_demote (omega (arith, h)),
)

steps-IsBuilt : (s : State) → pending_count s.0 ≡ 0 → IsBuilt (some (with_steps s))
steps-IsBuilt s h = elim (Bool-cases (length s.0.steps == 0)) [
  | inl e ↦ rw e (inl refl)
  | inr e ↦ let n = none_pending s.0 h in rw e (n.0, n.1, n.2, n.3, some_length s.0.steps e)
]

rounds-IsBuilt : (r : Rounds) → HasEnded r → IsBuilt (after_rounds r)
rounds-IsBuilt (ended s) h = steps-IsBuilt (last_transfer s) (last_transfer_kept s ∙ h)
rounds-IsBuilt (stuck s) h = inr (refl, h)
rounds-IsBuilt out_of_fuel h = h

build_plain-IsBuilt : (b : Builder) (kind : ℕ) → IsReady b → IsBuilt (build_plain b kind)
unfolding build_plain
build_plain-IsBuilt b kind r =
    rounds-IsBuilt (rounds (pending_count b) (b, kind))
      (rounds-HasEnded (pending_count b) (b, kind) r (omega arith))

-- The plan without joint consensus of a new builder, after any requests, prepared without an error,
-- always comes to an end: with every peer added, removed, promoted and demoted that was to be, and a
-- step at least; or with the error that there is no step; or with the error that the plan is empty,
-- in a state that has an empty plan.
pub build_plain-requests :
    (cl : Cluster) (id : ℕ) (epoch : ResourceEpoch) (res : CachedResource) (down : List Peer)
    (skip : Bool) (rs : List Request) (kind : ℕ)
    → (prepare_build (requests (new_builder cl id epoch res down skip) rs)).1 ≡ none
    → IsBuilt
        (build_plain (prepare_build (requests (new_builder cl id epoch res down skip) rs)).0 kind)
build_plain-requests cl id epoch res down skip rs kind e =
    let b = requests (new_builder cl id epoch res down skip) rs in
    let m = requests-new_builder-IsMap cl id epoch res down skip rs in
    let i = prepare_build-IsPrepared b m.0 m.1 e in
    build_plain-IsBuilt (prepare_build b).0 kind
      (i.add_map, i.remove_map, i.promote_map, i.demote_map)
