-- ===== src/Operator/Builder/JointPlay.antt =====
-- The steps of `buildStepsWithJointConsensus` of components/prophet/schedule/operator/builder.go, one
-- loop after the other, and the peer and the leader that the builder notes.
use matrixcube.Prelude.{
  ℕ, ◌≡◌, refl, ap, ◌∙◌, Bool, true, false, not, ◌||◌, ◌&&◌, Option, none, some, List, [], ◌∷◌,
  ◌++◌, ◌==◌, if◌then◌else◌, Bool-cases, inl, inr, ==→eq,
}
use matrixcube.Meta.{Peer, PeerRole, learner, is_learner}
use matrixcube.Operator.OpStep.{transfer_leader, change_peer_v2_enter, change_peer_v2_leave}
use matrixcube.Operator.Builder.Peers.{
  PeersMap, lookup, is_there, set_all, lookup-set, IsMap, lookup-above,
}
use matrixcube.Operator.Builder.{Builder, with_role}
use matrixcube.Operator.Builder.Exec.{
  exec_transfer_leader, exec_add_peer, exec_remove_peer, exec_change_peer_v2, promotes_of,
  demotes_of, set_target_leader_if_not_exist,
}
use matrixcube.Operator.Builder.JointPlan.{
  add_as_learner, add_all, demote_removed, demote_all, remove_all, change_and_transfer, is_voter_in,
  moves_leader,
}
use matrixcube.Operator.Builder.Pending.{or_lookup}
use matrixcube.Operator.Builder.Added.{kind_of}
use matrixcube.Operator.Builder.Outcome.{lookup-set_all}
use matrixcube.Operator.Builder.Play.{
  role_for, role_at, incoming, demoting, promotion_left, demotion_left, play, play_leader,
  role_after, leader_after, play-append, play_leader-append, promotes_at-promotes_of,
  demotes_at-demotes_of, Tracks, exec_transfer_leader-Tracks, exec_remove_peer-Tracks,
  exec_add_peer-Tracks,
}

-- A learner can be promoted to a voter, or a voter demoted to a learner.
abbrev pub CanChange : (pro dem cur : Option Peer) → Type 0
CanChange none none cur = Unit
CanChange (some p) none cur = (is_learner p ≡ false) × (kind_of cur ≡ some true)
CanChange none (some d) cur = (is_learner d ≡ true) × (kind_of cur ≡ some false)
CanChange (some p) (some d) cur = ⊥

entered : (p d : Bool) → Option PeerRole → Option PeerRole
entered p d r = let q = if p then incoming r else r in if d then demoting q else q

left : (p d : Bool) → Option PeerRole → Option PeerRole
left p d r = let q = if p then promotion_left r else r in if d then demotion_left q else q

change_role :
    (pro dem cur : Option Peer)
    → CanChange pro dem cur
    → left
        (is_there pro)
        (is_there dem)
        (entered (is_there pro) (is_there dem) (role_for (kind_of cur)))
      ≡ role_for (kind_of (or_lookup dem (or_lookup pro cur)))
unfolding left entered
change_role none none cur h = refl
change_role (some p) none cur h = rw (h.0, h.1) refl
change_role none (some d) cur h = rw (h.0, h.1) refl
change_role (some p) (some d) cur h = absurd h

module _ (c : ℕ) (r : Option PeerRole) (l : ℕ) where
  enter_and_leave :
      (cur pro dem : PeersMap)
      → IsMap pro
      → IsMap dem
      → CanChange (lookup pro c) (lookup dem c) (lookup cur c)
      → role_after c
          (change_peer_v2_leave (promotes_of pro) (demotes_of dem))
          (role_after c (change_peer_v2_enter (promotes_of pro) (demotes_of dem)) (role_at cur c))
        ≡ role_at (set_all (set_all cur pro) dem) c
  unfolding role_after left entered
  enter_and_leave cur pro dem i j h =
      rw
        (
          promotes_at-promotes_of pro c,
          demotes_at-demotes_of dem c,
          lookup-set_all (set_all cur pro) dem c j,
          lookup-set_all cur pro c i,
        )
        (change_role (lookup pro c) (lookup dem c) (lookup cur c) h)

  pub exec_change_peer_v2-Tracks :
      (b : Builder) (transfer : Bool)
      → IsMap b.to_promote
      → IsMap b.to_demote
      → CanChange (lookup b.to_promote c) (lookup b.to_demote c) (lookup b.current_peers c)
      → Tracks c r l b
      → Tracks c r l (exec_change_peer_v2 b true transfer)
  unfolding exec_change_peer_v2 exec_transfer_leader play play_leader role_after leader_after
  exec_change_peer_v2-Tracks b transfer i j h t =
      let E = change_peer_v2_enter (promotes_of b.to_promote) (demotes_of b.to_demote) in
      let L = change_peer_v2_leave (promotes_of b.to_promote) (demotes_of b.to_demote) in
      let changed = enter_and_leave b.current_peers b.to_promote b.to_demote i j h in
      elim (Bool-cases (transfer && not (b.origin_leader == b.target_leader))) [
        | inl m ↦
            rw (m, exec_change_peer_v2)
              (
                play-append c
                      ((b.steps ++ E ∷ []) ++ transfer_leader b.current_leader b.target_leader ∷ [])
                      (L ∷ []) r
                    ∙ (ap (role_after c L) (
                          play-append c (b.steps ++ E ∷ [])
                            (transfer_leader b.current_leader b.target_leader ∷ []) r
                          ∙ (play-append c b.steps (E ∷ []) r ∙ ap (role_after c E) t.0))
                        ∙ changed),
                play_leader-append
                      ((b.steps ++ E ∷ []) ++ transfer_leader b.current_leader b.target_leader ∷ [])
                      (L ∷ []) l
                    ∙ play_leader-append (b.steps ++ E ∷ [])
                        (transfer_leader b.current_leader b.target_leader ∷ []) l,
              )
        | inr m ↦
            rw (m, exec_change_peer_v2)
              (
                play-append c (b.steps ++ E ∷ []) (L ∷ []) r
                    ∙ (ap (role_after c L)
                          (play-append c b.steps (E ∷ []) r ∙ ap (role_after c E) t.0)
                        ∙ changed),
                play_leader-append (b.steps ++ E ∷ []) (L ∷ []) l
                    ∙ (play_leader-append b.steps (E ∷ []) l ∙ t.1),
              )
      ]

  add_as_learner-Tracks :
      (b : Builder) (p : Peer)
      → (p.container_id == c ≡ true → lookup b.current_peers c ≡ none)
      → Tracks c r l b
      → Tracks c r l (add_as_learner b p)
  unfolding add_as_learner
  add_as_learner-Tracks b p h t = elim (Bool-cases (is_learner p)) [
    | inl e ↦ rw (e, add_as_learner) (exec_add_peer-Tracks c r l b p h t)
    | inr e ↦ rw (e, add_as_learner) (exec_add_peer-Tracks c r l b (with_role p learner) h t)
  ]

  elsewhere :
      (b : Builder) (p : Peer)
      → p.container_id == c ≡ false
      → lookup (add_as_learner b p).current_peers c ≡ lookup b.current_peers c
  unfolding add_as_learner exec_add_peer
  elsewhere b p n = elim (Bool-cases (is_learner p)) [
    | inl e ↦ rw (e, add_as_learner) (lookup-set b.current_peers p c ∙ rw n refl)
    | inr e ↦
        rw (e, add_as_learner) (lookup-set b.current_peers (with_role p learner) c ∙ rw n refl)
  ]

  pub add_all-Tracks :
      (b : Builder) (ps : PeersMap)
      → IsMap ps
      → ((q : Peer) → lookup ps c ≡ some q → lookup b.current_peers c ≡ none)
      → Tracks c r l b
      → Tracks c r l (add_all b ps)
  unfolding add_all
  add_all-Tracks b [] i h t = t
  add_all-Tracks b (p ∷ ps) i h t = elim (Bool-cases (p.container_id == c)) [
    | inl e ↦
        let same : p.container_id ≡ c = ==→eq p.container_id c e in
        let gone : lookup ps c ≡ none = lookup-above ps c (rw (← same) i.0) in
        add_all-Tracks (add_as_learner b p) ps i.1 (λ q f. absurd (cc (gone, f)))
          (add_as_learner-Tracks b p (λ _. h p (rw e refl)) t)
    | inr n ↦
        add_all-Tracks (add_as_learner b p) ps i.1 (λ q f. elsewhere b p n ∙ h q (rw n f))
          (add_as_learner-Tracks b p (λ e. absurd (cc (n, e))) t)
  ]

  demote_removed-Tracks :
      (b : Builder) (p : Peer) → Tracks c r l b → Tracks c r l (demote_removed b p)
  unfolding demote_removed
  demote_removed-Tracks b p t = elim (Bool-cases (is_learner p)) [
    | inl e ↦ rw (e, demote_removed) t
    | inr e ↦ rw (e, demote_removed) t
  ]

  pub demote_all-Tracks :
      (b : Builder) (ps : List Peer) → Tracks c r l b → Tracks c r l (demote_all b ps)
  unfolding demote_all
  demote_all-Tracks b [] t = t
  demote_all-Tracks b (p ∷ ps) t =
      demote_all-Tracks (demote_removed b p) ps (demote_removed-Tracks b p t)

  pub remove_all-Tracks :
      (b : Builder) (ps : List Peer) → Tracks c r l b → Tracks c r l (remove_all b ps)
  unfolding remove_all
  remove_all-Tracks b [] t = t
  remove_all-Tracks b (p ∷ ps) t =
      remove_all-Tracks (exec_remove_peer b p) ps (exec_remove_peer-Tracks c r l b p t)

  pub set_leader-Tracks :
      (b : Builder) → Tracks c r l b → Tracks c r l (set_target_leader_if_not_exist b)
  unfolding set_target_leader_if_not_exist
  set_leader-Tracks b t = elim (Bool-cases (b.target_leader == 0)) [
    | inl e ↦ rw (e, set_target_leader_if_not_exist) t
    | inr e ↦ rw (e, set_target_leader_if_not_exist) t
  ]

  after_transfer :
      (b : Builder)
      → IsMap b.to_promote
      → IsMap b.to_demote
      → CanChange (lookup b.to_promote c) (lookup b.to_demote c) (lookup b.current_peers c)
      → Tracks c r l b
      → Tracks c r l (exec_change_peer_v2 (exec_transfer_leader b b.target_leader) true false)
  unfolding exec_transfer_leader
  after_transfer b i j h t =
      exec_change_peer_v2-Tracks (exec_transfer_leader b b.target_leader) false i j h
        (exec_transfer_leader-Tracks c r l b b.target_leader t)

  -- each of the three orders
  pub change_and_transfer-Tracks :
      (b : Builder) (kind : ℕ)
      → IsMap b.to_promote
      → IsMap b.to_demote
      → CanChange (lookup b.to_promote c) (lookup b.to_demote c) (lookup b.current_peers c)
      → Tracks c r l b
      → Tracks c r l (change_and_transfer b kind).0
  unfolding change_and_transfer
  change_and_transfer-Tracks b kind i j h t =
      let d = exec_change_peer_v2-Tracks b false i j h t in
      elim (Bool-cases (is_voter_in b.origin_peers b.target_leader)) [
        | inl v ↦ elim (Bool-cases (moves_leader b)) [
          | inl m ↦ rw (v, m, change_and_transfer) (after_transfer b i j h t)
          | inr m ↦ rw (v, m, change_and_transfer) d
        ]
        | inr v ↦
            elim (Bool-cases (b.origin_leader == 0 || is_voter_in b.target_peers b.origin_leader)) [
              | inl o ↦
                  rw (v, o, change_and_transfer)
                    (elim (Bool-cases (moves_leader (exec_change_peer_v2 b true false))) [
                      | inl m ↦ rw m (
                          exec_transfer_leader-Tracks c r l (exec_change_peer_v2 b true false)
                            (exec_change_peer_v2 b true false).target_leader d)
                      | inr m ↦ rw m d
                    ])
              | inr o ↦ rw (v, o, change_and_transfer) (exec_change_peer_v2-Tracks b true i j h t)
            ]
      ]
