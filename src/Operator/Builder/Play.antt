-- ===== src/Operator/Builder/Play.antt =====
-- What the steps of components/prophet/schedule/operator/step.go make of the peer of a container and
-- of the leader, and what the `exec` functions of components/prophet/schedule/operator/builder.go
-- keep of them.
use matrixcube.Prelude.{
  ℕ, ◌≡◌, refl, ap, ◌∙◌, Bool, true, false, ◌||◌, Option, none, some, List, [], ◌∷◌, ◌++◌, ◌==◌,
  if◌then◌else◌, Bool-cases, inl, inr, arith,
}
use matrixcube.Meta.{Peer, PeerRole, voter, learner, incoming_voter, demoting_voter, is_learner}
use matrixcube.Operator.Step.{PromoteLearner, DemoteVoter}
use matrixcube.Operator.OpStep.{
  OpStep, transfer_leader, add_peer, add_light_peer, add_learner, add_light_learner,
  promote_learner, remove_peer, merge_resource, split_resource, demote_follower,
  change_peer_v2_enter, change_peer_v2_leave, destory_directly,
}
use matrixcube.Operator.Builder.Peers.{
  PeersMap, lookup, has, set, delete, lookup-set, lookup-delete,
}
use matrixcube.Operator.Builder.Added.{kind_of}
use matrixcube.Operator.Builder.{Builder}
use matrixcube.Operator.Builder.Exec.{
  exec_transfer_leader, exec_promote_learner, exec_demote_follower, exec_add_peer, exec_remove_peer,
  add_steps, promotes_of, demotes_of,
}

abbrev pub role_for : Option Bool → Option PeerRole
role_for none = none
role_for (some true) = some learner
role_for (some false) = some voter

-- the peer of a container: none, a learner, or else a voter
abbrev pub role_at : PeersMap → ℕ → Option PeerRole
role_at m c = role_for (kind_of (lookup m c))

-- a container that has a peer keeps it
abbrev pub added_as : PeerRole → Option PeerRole → Option PeerRole
added_as role none = some role
added_as role (some old) = some old

abbrev pub promoted : Option PeerRole → Option PeerRole
promoted (some learner) = some voter
promoted r = r

abbrev pub demoted : Option PeerRole → Option PeerRole
demoted (some voter) = some learner
demoted r = r

abbrev pub incoming : Option PeerRole → Option PeerRole
incoming (some learner) = some incoming_voter
incoming r = r

abbrev pub demoting : Option PeerRole → Option PeerRole
demoting (some voter) = some demoting_voter
demoting r = r

abbrev pub promotion_left : Option PeerRole → Option PeerRole
promotion_left (some incoming_voter) = some voter
promotion_left r = r

abbrev pub demotion_left : Option PeerRole → Option PeerRole
demotion_left (some demoting_voter) = some learner
demotion_left r = r

unfoldable pub promotes_at : List PromoteLearner → ℕ → Bool
promotes_at [] c = false
promotes_at (p ∷ ps) c = p.to_container == c || promotes_at ps c

unfoldable pub demotes_at : List DemoteVoter → ℕ → Bool
demotes_at [] c = false
demotes_at (d ∷ ds) c = d.to_container == c || demotes_at ds c

-- the peer of a container after a step
unfoldable pub role_after : ℕ → OpStep → Option PeerRole → Option PeerRole
role_after c (transfer_leader m n) r = r
role_after c (add_peer k i) r = if k == c then added_as voter r else r
role_after c (add_light_peer k i) r = if k == c then added_as voter r else r
role_after c (add_learner k i) r = if k == c then added_as learner r else r
role_after c (add_light_learner k i) r = if k == c then added_as learner r else r
role_after c (promote_learner k i) r = if k == c then promoted r else r
role_after c (remove_peer k i) r = if k == c then none else r
role_after c (merge_resource s e p) r = r
role_after c (split_resource s e) r = r
role_after c (demote_follower k i) r = if k == c then demoted r else r
role_after c (change_peer_v2_enter ps ds) r =
    let q = if promotes_at ps c then incoming r else r in if demotes_at ds c then demoting q else q
role_after c (change_peer_v2_leave ps ds) r =
    let q = if promotes_at ps c then promotion_left r else r in
    if demotes_at ds c then demotion_left q else q
role_after c destory_directly r = none

unfoldable pub leader_after : OpStep → ℕ → ℕ
leader_after (transfer_leader m n) l = n
leader_after _ l = l

unfoldable pub play : ℕ → List OpStep → Option PeerRole → Option PeerRole
play c [] r = r
play c (s ∷ ss) r = play c ss (role_after c s r)

unfoldable pub play_leader : List OpStep → ℕ → ℕ
play_leader [] l = l
play_leader (s ∷ ss) l = play_leader ss (leader_after s l)

pub play-append :
    (c : ℕ) (xs ys : List OpStep) (r : Option PeerRole)
    → play c (xs ++ ys) r ≡ play c ys (play c xs r)
unfolding play
play-append c [] ys r = refl
play-append c (x ∷ xs) ys r = play-append c xs ys (role_after c x r)

pub play_leader-append :
    (xs ys : List OpStep) (l : ℕ) → play_leader (xs ++ ys) l ≡ play_leader ys (play_leader xs l)
unfolding play_leader
play_leader-append [] ys l = refl
play_leader-append (x ∷ xs) ys l = play_leader-append xs ys (leader_after x l)

pub promotes_at-promotes_of : (m : PeersMap) (c : ℕ) → promotes_at (promotes_of m) c ≡ has m c
unfolding promotes_at
promotes_at-promotes_of [] c = refl
promotes_at-promotes_of (p ∷ ps) c = ground (arith, promotes_at-promotes_of ps c)

pub demotes_at-demotes_of : (m : PeersMap) (c : ℕ) → demotes_at (demotes_of m) c ≡ has m c
unfolding demotes_at
demotes_at-demotes_of [] c = refl
demotes_at-demotes_of (p ∷ ps) c = ground (arith, demotes_at-demotes_of ps c)

-- The peer of the container and the leader that the builder notes are those after its steps.
module _ (c : ℕ) (r : Option PeerRole) (l : ℕ) where
  abbrev pub Tracks : Builder → Type 0
  Tracks b =
      (play c b.steps r ≡ role_at b.current_peers c) × (play_leader b.steps l ≡ b.current_leader)

  pub steps-Tracks :
      (b : Builder) (xs : List OpStep) (m : PeersMap) (n : ℕ)
      → Tracks b
      → play c xs (role_at b.current_peers c) ≡ role_at m c
      → play_leader xs b.current_leader ≡ n
      → (play c (b.steps ++ xs) r ≡ role_at m c) × (play_leader (b.steps ++ xs) l ≡ n)
  steps-Tracks b xs m n t e f = (
    play-append c b.steps xs r ∙ (ap (play c xs) t.0 ∙ e),
    play_leader-append b.steps xs l ∙ (ap (play_leader xs) t.1 ∙ f),
  )

  pub exec_transfer_leader-Tracks :
      (b : Builder) (id : ℕ) → Tracks b → Tracks (exec_transfer_leader b id)
  unfolding exec_transfer_leader play play_leader role_after leader_after
  exec_transfer_leader-Tracks b id t =
      steps-Tracks b (transfer_leader b.current_leader id ∷ []) b.current_peers id t refl refl

  pub exec_remove_peer-Tracks : (b : Builder) (p : Peer) → Tracks b → Tracks (exec_remove_peer b p)
  unfolding exec_remove_peer play play_leader role_after leader_after
  exec_remove_peer-Tracks b p t =
      steps-Tracks b (remove_peer p.container_id p.id ∷ []) (delete b.current_peers p.container_id)
        b.current_leader t
        (rw (lookup-delete b.current_peers p.container_id c)
          (elim (Bool-cases (p.container_id == c)) [ inl e ↦ rw e refl | inr e ↦ rw e refl ]))
        refl

  add_role :
      (light : Bool) (p : Peer) (o : Option Peer)
      → (p.container_id == c ≡ true → o ≡ none)
      → play c (add_steps light p) (role_for (kind_of o))
        ≡ role_for (kind_of (if p.container_id == c then some p else o))
  unfolding play role_after
  add_role true p o h = elim (Bool-cases (is_learner p)) [
    | inl k ↦ rw k (elim (Bool-cases (p.container_id == c)) [
      | inl e ↦ rw (e, h e) (rw k refl)
      | inr e ↦ rw e refl
    ])
    | inr k ↦ rw k (elim (Bool-cases (p.container_id == c)) [
      | inl e ↦ rw (e, h e) (rw k refl)
      | inr e ↦ rw e refl
    ])
  ]
  add_role false p o h = elim (Bool-cases (is_learner p)) [
    | inl k ↦ rw k (elim (Bool-cases (p.container_id == c)) [
      | inl e ↦ rw (e, h e) (rw k refl)
      | inr e ↦ rw e refl
    ])
    | inr k ↦ rw k (elim (Bool-cases (p.container_id == c)) [
      | inl e ↦ rw (e, h e) (rw k refl)
      | inr e ↦ rw e refl
    ])
  ]

  add_leader : (light : Bool) (p : Peer) (n : ℕ) → play_leader (add_steps light p) n ≡ n
  unfolding play_leader leader_after
  add_leader true p n = elim (Bool-cases (is_learner p)) [ inl k ↦ rw k refl | inr k ↦ rw k refl ]
  add_leader false p n = elim (Bool-cases (is_learner p)) [ inl k ↦ rw k refl | inr k ↦ rw k refl ]

  -- where there is no peer yet
  pub exec_add_peer-Tracks :
      (b : Builder) (p : Peer)
      → (p.container_id == c ≡ true → lookup b.current_peers c ≡ none)
      → Tracks b
      → Tracks (exec_add_peer b p)
  unfolding exec_add_peer play play_leader role_after leader_after
  exec_add_peer-Tracks b p h t =
      steps-Tracks b (add_steps b.light_weight p) (set b.current_peers p) b.current_leader t
        (rw (lookup-set b.current_peers p c)
          (add_role b.light_weight p (lookup b.current_peers c) h))
        (add_leader b.light_weight p b.current_leader)

  pub exec_promote_learner-Tracks :
      (b : Builder) (p : Peer)
      → (p.container_id == c ≡ true
          → (is_learner p ≡ false) × (kind_of (lookup b.current_peers c) ≡ some true))
      → Tracks b
      → Tracks (exec_promote_learner b p)
  unfolding exec_promote_learner play play_leader role_after leader_after
  exec_promote_learner-Tracks b p h t =
      steps-Tracks b (promote_learner p.container_id p.id ∷ []) (set b.current_peers p)
        b.current_leader t
        (rw (lookup-set b.current_peers p c) (elim (Bool-cases (p.container_id == c)) [
          | inl e ↦ rw (e, (h e).0, (h e).1) refl
          | inr e ↦ rw e refl
        ]))
        refl

  pub exec_demote_follower-Tracks :
      (b : Builder) (p : Peer)
      → (p.container_id == c ≡ true
          → (is_learner p ≡ true) × (kind_of (lookup b.current_peers c) ≡ some false))
      → Tracks b
      → Tracks (exec_demote_follower b p)
  unfolding exec_demote_follower play play_leader role_after leader_after
  exec_demote_follower-Tracks b p h t =
      steps-Tracks b (demote_follower p.container_id p.id ∷ []) (set b.current_peers p)
        b.current_leader t
        (rw (lookup-set b.current_peers p c) (elim (Bool-cases (p.container_id == c)) [
          | inl e ↦ rw (e, (h e).0, (h e).1) refl
          | inr e ↦ rw e refl
        ]))
        refl
