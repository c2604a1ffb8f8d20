-- ===== src/Operator/OpStep/Joint.antt =====
-- What `CheckSafety` of the joint-consensus steps guarantees.
pub mod Scans
use matrixcube.Prelude.{
  ℕ, zero, suc, ◌+◌, ◌<◌, ◌≢◌, ◌≡◌, refl, sym, ◌∙◌, Bool, true, false, not, ◌&&◌, ◌||◌, Option,
  none, some, List, [], ◌∷◌, ◌⊎◌, inl, inr, arith, All, length, Bool-cases,
}
use matrixcube.Meta.{
  Peer, PeerRole, voter, learner, incoming_voter, demoting_voter, unknown, role_is_voter,
  role_is_learner, role_is_incoming, role_is_demoting, count_in_joint_state,
}
use matrixcube.Operator.Resource.{CachedResource, leader_container_id, get_container_peer}
use matrixcube.Operator.Step.{PromoteLearner, DemoteVoter, SafetyError, found_and, has_id}
use matrixcube.Operator.Joint.{
  Flags, no_flags, Scan, fail, go, scan, scan_peer, verdict, finish_scan, then_scan, changes,
  enter_promote, enter_demote, leave_promote, leave_demote, enter_check_safety, leave_check_safety,
}
use Scans.{Stands, AllStand, Judged, Scanned, scan-Scanned, scan_next}

-- the peers of the changes, all in one role for the promotions and one for the demotions
abbrev pub AllAt :
    CachedResource
    → (PeerRole → Bool)
    → (PeerRole → Bool)
    → List PromoteLearner
    → List DemoteVoter
    → Type 0
AllAt res promote_role demote_role ps ds =
    AllStand res promote_role (λ (pl : PromoteLearner). pl.to_container) (λ pl. pl.peer_id) ps
    × AllStand res demote_role (λ (dv : DemoteVoter). dv.to_container) (λ dv. dv.peer_id) ds

enter_promote_sound :
    (r : PeerRole) (pl : PromoteLearner) (fl fl' : Flags)
    → enter_promote r pl fl ≡ go fl'
    → Judged (role_is_incoming r) (role_is_learner r) fl fl'
enter_promote_sound r pl fl fl' h = ground arith

enter_demote_sound :
    (r : PeerRole) (dv : DemoteVoter) (fl fl' : Flags)
    → enter_demote r dv fl ≡ go fl'
    → Judged (role_is_demoting r) (role_is_voter r) fl fl'
enter_demote_sound r dv fl fl' h = ground arith

leave_promote_sound :
    (r : PeerRole) (pl : PromoteLearner) (fl fl' : Flags)
    → leave_promote r pl fl ≡ go fl'
    → Judged (role_is_incoming r) (role_is_voter r) fl fl'
leave_promote_sound r pl fl fl' h = ground arith

leave_demote_sound :
    (leader : ℕ) (r : PeerRole) (dv : DemoteVoter) (fl fl' : Flags)
    → leave_demote leader r dv fl ≡ go fl'
    → Judged (role_is_demoting r) (role_is_learner r) fl fl'
leave_demote_sound leader r dv fl fl' h = ground arith

scan_passed :
    (s : Scan) (count total : ℕ)
    → finish_scan count total s ≡ none
    → (fl : Flags) × (s ≡ go fl) × (verdict count total fl ≡ none)
scan_passed (fail e) count total h = cc
scan_passed (go fl) count total h = (fl, refl, h)

-- two scans in a row that end in a verdict of `none`
scans_passed :
    (s : Scan) (next : Flags → Scan) (count total : ℕ)
    → finish_scan count total (then_scan s next) ≡ none
    → (fl fl' : Flags) × (s ≡ go fl) × (next fl ≡ go fl') × (verdict count total fl' ≡ none)
scans_passed (fail e) next count total h = cc
scans_passed (go fl) next count total h =
    let (fl', a, b) = scan_passed (next fl) count total h in (fl, fl', refl, a, b)

verdict-none :
    (count total : ℕ) (fl : Flags)
    → verdict count total fl ≡ none
    → (fl.not_in_joint_state ≡ false)
        × (fl.in_joint_state ≡ true)
        × (count ≡ total)
        × (fl.demote_leader ≡ false)
      ⊎ (fl.not_in_joint_state ≡ true) × (fl.in_joint_state ≡ false) × (count ≡ 0)
      ⊎ (fl.not_in_joint_state ≡ false) × (fl.in_joint_state ≡ false)
verdict-none count total fl h = ground arith

stands_apart :
    (f g : PeerRole → Bool) (i : ℕ) (o : Option Peer)
    → ((r : PeerRole) → f r ≡ true → g r ≡ false)
    → found_and o (λ peer. has_id i peer && f peer.role) ≡ true
    → found_and o (λ peer. has_id i peer && g peer.role) ≡ false
stands_apart f g i none apart h = refl
stands_apart f g i (some peer) apart h = ground (arith, apart peer.role)

-- two roles cannot both be the role of a peer that stands
stands_twice :
    {A : Type 0} (res : CachedResource) (f g : PeerRole → Bool) (c i : A → ℕ) (xs : List A)
    → ((r : PeerRole) → f r ≡ true → g r ≡ false)
    → AllStand res f c i xs
    → AllStand res g c i xs
    → xs ≡ []
stands_twice res f g c i [] apart h k = refl
stands_twice res f g c i (x ∷ xs) apart h k =
    cc (k.0, stands_apart f g (i x) (get_container_peer res (c x)) apart h.0)

incoming_not_learner : (r : PeerRole) → role_is_incoming r ≡ true → role_is_learner r ≡ false
incoming_not_learner r h = ground arith

incoming_not_voter : (r : PeerRole) → role_is_incoming r ≡ true → role_is_voter r ≡ false
incoming_not_voter r h = ground arith

demoting_not_learner : (r : PeerRole) → role_is_demoting r ≡ true → role_is_learner r ≡ false
demoting_not_learner r h = ground arith

demoting_not_voter : (r : PeerRole) → role_is_demoting r ≡ true → role_is_voter r ≡ false
demoting_not_voter r h = ground arith

spared_one :
    (leader : ℕ) (dv : DemoteVoter) (fl fl' : Flags) (o : Option Peer)
    → scan_peer (λ (d : DemoteVoter). d.to_container) (λ d. d.peer_id) (leave_demote leader) dv fl o
      ≡ go fl'
    → found_and o (λ peer. has_id dv.peer_id peer && role_is_demoting peer.role) ≡ true
    → fl'.demote_leader ≡ false
    → (dv.to_container ≢ leader) × (fl.demote_leader ≡ false)
spared_one leader dv fl fl' none h k l = cc
spared_one leader dv fl fl' (some peer) h k l = ground arith

-- what the verdict says of the two scans before it
module _ {P₁ Q₁ P₂ Q₂ : Type 0} (count total : ℕ) (fl fl' : Flags) where
  scanned_twice :
      Scanned no_flags fl P₁ Q₁
      → Scanned fl fl' P₂ Q₂
      → verdict count total fl' ≡ none
      → (P₁ × P₂) × (count ≡ total) × (fl'.demote_leader ≡ false)
        ⊎ (Q₁ × Q₂) × (count ≡ 0)
        ⊎ (P₁ × Q₁) × (P₂ × Q₂)
  scanned_twice p d v = elim (verdict-none count total fl' v) [
    | inl (n, i, c, l) ↦ inl (((p.all_in (d.all_in n).1).0, (d.all_in n).0), c, l)
    | inr (inl (n, i, c)) ↦ inr (inl (((p.all_out (d.all_out i).1).0, (d.all_out i).0), c))
    | inr (inr (n, i)) ↦ inr (
        inr (
          ((p.all_in (d.all_in n).1).0, (p.all_out (d.all_out i).1).0),
          ((d.all_in n).0, (d.all_out i).0),
        ))
  ]

module _ (ps : List PromoteLearner) (ds : List DemoteVoter) (res : CachedResource) where
  -- `ChangePeerV2Enter.CheckSafety` accepts a step only in one of three situations: every peer of
  -- the step has made its change to a joint role, and as many peers of the resource are in joint
  -- state as the step has changes; or every peer of the step still has its old role, and no peer
  -- of the resource is in joint state; or the step has no change.
  pub enter_check_safety-atomic :
      enter_check_safety ps ds res ≡ none
      → AllAt res role_is_incoming role_is_demoting ps ds
          × (count_in_joint_state res.peers ≡ changes ps ds)
        ⊎ AllAt res role_is_learner role_is_voter ps ds × (count_in_joint_state res.peers ≡ 0)
        ⊎ (ps ≡ []) × (ds ≡ [])
  unfolding enter_check_safety
  enter_check_safety-atomic h =
      let (fl, fl', s, t, v) =
        scans_passed (scan (λ pl. pl.to_container) (λ pl. pl.peer_id) enter_promote res ps no_flags)
          (λ fl. scan (λ dv. dv.to_container) (λ dv. dv.peer_id) enter_demote res ds fl) _ _ h in
      let p =
        scan-Scanned (λ (pl : PromoteLearner). pl.to_container) (λ pl. pl.peer_id) enter_promote res
          role_is_incoming role_is_learner enter_promote_sound ps no_flags fl s in
      let d =
        scan-Scanned (λ (dv : DemoteVoter). dv.to_container) (λ dv. dv.peer_id) enter_demote res
          role_is_demoting role_is_voter enter_demote_sound ds fl fl' t in
      elim (scanned_twice _ _ fl fl' p d v) [
        | inl (at, c, l) ↦ inl (at, c)
        | inr (inl q) ↦ inr (inl q)
        | inr (inr (x, y)) ↦ inr (
            inr (
              stands_twice res _ _ _ _ ps incoming_not_learner x.0 x.1,
              stands_twice res _ _ _ _ ds demoting_not_voter y.0 y.1,
            ))
      ]

  -- a scan of demotions that has not met the leader
  leader_spared :
      (xs : List DemoteVoter) (fl fl' : Flags)
      → scan
          (λ dv. dv.to_container)
          (λ dv. dv.peer_id)
          (leave_demote (leader_container_id res))
          res
          xs
          fl
        ≡ go fl'
      → fl'.demote_leader ≡ false
      → AllStand res role_is_demoting (λ (dv : DemoteVoter). dv.to_container) (λ dv. dv.peer_id) xs
      → All (λ (dv : DemoteVoter). dv.to_container ≢ leader_container_id res) xs
        × (fl.demote_leader ≡ false)
  unfolding scan
  leader_spared [] fl fl' h l k = (tt, ground arith)
  leader_spared (dv ∷ rest) fl fl' h l k =
      let (fl'', s, t) =
        scan_next (λ dv. dv.to_container) (λ dv. dv.peer_id)
          (leave_demote (leader_container_id res)) res dv rest fl fl'
          (scan_peer (λ (d : DemoteVoter). d.to_container) (λ d. d.peer_id)
            (leave_demote (leader_container_id res)) dv fl (get_container_peer res dv.to_container))
          h in
      let (spared, l') = leader_spared rest fl'' fl' t l k.1 in
      let (other, l'') =
        spared_one (leader_container_id res) dv fl fl'' (get_container_peer res dv.to_container) s
          k.0 l' in
      ((other, spared), l'')

  -- `ChangePeerV2Leave.CheckSafety` accepts a step only in one of three situations: every peer of
  -- the step is in the joint role that the step ends, as many peers of the resource are in joint
  -- state as the step has changes, and no peer that becomes a learner stands in the container of
  -- the leader; or every peer of the step has its final role, and no peer of the resource is in
  -- joint state; or the step has no change.
  pub leave_check_safety-atomic :
      leave_check_safety ps ds res ≡ none
      → AllAt res role_is_incoming role_is_demoting ps ds
          × (count_in_joint_state res.peers ≡ changes ps ds)
          × All (λ (dv : DemoteVoter). dv.to_container ≢ leader_container_id res) ds
        ⊎ AllAt res role_is_voter role_is_learner ps ds × (count_in_joint_state res.peers ≡ 0)
        ⊎ (ps ≡ []) × (ds ≡ [])
  unfolding leave_check_safety
  leave_check_safety-atomic h =
      let (fl, fl', s, t, v) =
        scans_passed (scan (λ pl. pl.to_container) (λ pl. pl.peer_id) leave_promote res ps no_flags)
          (λ fl.
            scan (λ dv. dv.to_container) (λ dv. dv.peer_id) (leave_demote (leader_container_id res))
              res ds fl)
          _ _ h in
      let p =
        scan-Scanned (λ (pl : PromoteLearner). pl.to_container) (λ pl. pl.peer_id) leave_promote res
          role_is_incoming role_is_voter leave_promote_sound ps no_flags fl s in
      let d =
        scan-Scanned (λ (dv : DemoteVoter). dv.to_container) (λ dv. dv.peer_id)
          (leave_demote (leader_container_id res)) res role_is_demoting role_is_learner
          (leave_demote_sound (leader_container_id res)) ds fl fl' t in
      elim (scanned_twice _ _ fl fl' p d v) [
        | inl (at, c, l) ↦ inl (at, c, (leader_spared ds fl fl' t l at.1).0)
        | inr (inl q) ↦ inr (inl q)
        | inr (inr (x, y)) ↦ inr (
            inr (
              stands_twice res _ _ _ _ ps incoming_not_voter x.0 x.1,
              stands_twice res _ _ _ _ ds demoting_not_learner y.0 y.1,
            ))
      ]
