-- ===== src/Operator/OpStep/Joint/Scans.antt =====
-- The loops of `CheckSafety`: what the flags at the end say of the peers that were seen.
use matrixcube.Prelude.{
  ℕ, ◌≡◌, refl, sym, ◌∙◌, Bool, true, false, ◌&&◌, Option, none, some, List, [], ◌∷◌, ◌⊎◌, inl, inr,
  arith, All,
}
use matrixcube.Meta.{Peer, PeerRole}
use matrixcube.Operator.Resource.{CachedResource, get_container_peer}
use matrixcube.Operator.Step.{found_and, has_id}
use matrixcube.Operator.Joint.{Flags, Scan, fail, go, scan, scan_peer}

-- the container of the change holds the peer of the change, in a role that passes the test
abbrev pub Stands : CachedResource → (PeerRole → Bool) → ℕ → ℕ → Type 0
Stands res test container peer_id =
    found_and (get_container_peer res container) (λ peer. has_id peer_id peer && test peer.role)
    ≡ true

abbrev pub AllStand :
    {A : Type 0} (res : CachedResource) (test : PeerRole → Bool) (container peer_id : A → ℕ)
    → List A
    → Type 0
AllStand res test container peer_id = All (λ a. Stands res test (container a) (peer_id a))

-- A judgement that goes on has set one of the two flags, by the role, and kept the other.
abbrev pub Judged : Bool → Bool → Flags → Flags → Type 0
Judged is_in is_out fl fl' =
    (is_in ≡ true) × (fl'.in_joint_state ≡ true) × (fl'.not_in_joint_state ≡ fl.not_in_joint_state)
    ⊎ (is_out ≡ true) × (fl'.not_in_joint_state ≡ true) × (fl'.in_joint_state ≡ fl.in_joint_state)

-- what a scan has established, by the flags at its end
pub record Scanned (fl fl' : Flags) (AllIn AllOut : Type 0) : Type 0 where
  pub all_in : fl'.not_in_joint_state ≡ false → AllIn × (fl.not_in_joint_state ≡ false)
  pub all_out : fl'.in_joint_state ≡ false → AllOut × (fl.in_joint_state ≡ false)

scanned_cons :
    {P Q AllIn AllOut : Type 0} (b c : Bool) (fl fl'' fl' : Flags)
    → Judged b c fl fl''
    → (b ≡ true → P)
    → (c ≡ true → Q)
    → Scanned fl'' fl' AllIn AllOut
    → Scanned fl fl' (P × AllIn) (Q × AllOut)
scanned_cons b c fl fl'' fl' (inl (i, j, k)) p q s = record {
  all_in = λ h. ((p i, (s.all_in h).0), sym k ∙ (s.all_in h).1);
  all_out = λ h. cc (j, (s.all_out h).1);
}
scanned_cons b c fl fl'' fl' (inr (i, j, k)) p q s = record {
  all_in = λ h. cc (j, (s.all_in h).1);
  all_out = λ h. ((q i, (s.all_out h).0), sym k ∙ (s.all_out h).1);
}

module _ {A : Type 0} (container peer_id : A → ℕ) (judge : PeerRole → A → Flags → Scan)
    (res : CachedResource) where
  pub scan_next :
      (a : A) (rest : List A) (fl fl' : Flags) (s : Scan)
      → (elim s [ fail e ↦ fail e | go fl'' ↦ scan container peer_id judge res rest fl'' ]) ≡ go fl'
      → (fl'' : Flags) × (s ≡ go fl'') × (scan container peer_id judge res rest fl'' ≡ go fl')
  scan_next a rest fl fl' (fail e) h = cc
  scan_next a rest fl fl' (go fl'') h = (fl'', refl, h)

module _ {A : Type 0} (container peer_id : A → ℕ) (judge : PeerRole → A → Flags → Scan)
    (res : CachedResource) (is_in is_out : PeerRole → Bool)
    (sound : (r : PeerRole) (a : A) (fl fl' : Flags)
      → judge r a fl ≡ go fl'
      → Judged (is_in r) (is_out r) fl fl') where
  scan_peer-go :
      (a : A) (fl fl' : Flags) (o : Option Peer)
      → scan_peer container peer_id judge a fl o ≡ go fl'
      → Judged
          (found_and o (λ peer. has_id (peer_id a) peer && is_in peer.role))
          (found_and o (λ peer. has_id (peer_id a) peer && is_out peer.role))
          fl
          fl'
  scan_peer-go a fl fl' none h = cc
  scan_peer-go a fl fl' (some peer) h = ground (arith, sound peer.role a fl fl')

  pub scan-Scanned :
      (xs : List A) (fl fl' : Flags)
      → scan container peer_id judge res xs fl ≡ go fl'
      → Scanned fl fl'
          (AllStand res is_in container peer_id xs)
          (AllStand res is_out container peer_id xs)
  unfolding scan
  scan-Scanned [] fl fl' h = record {
    all_in = λ k. (tt, ground arith);
    all_out = λ k. (tt, ground arith);
  }
  scan-Scanned (a ∷ rest) fl fl' h =
      let (fl'', s, t) =
        scan_next container peer_id judge res a rest fl fl'
          (scan_peer container peer_id judge a fl (get_container_peer res (container a))) h in
      scanned_cons _ _ fl fl'' fl' (scan_peer-go a fl fl'' (get_container_peer res (container a)) s)
        (λ e. e) (λ e. e) (scan-Scanned rest fl'' fl' t)
