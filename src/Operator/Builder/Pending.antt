-- ===== src/Operator/Builder/Pending.antt =====
-- What `prepareBuild` of components/prophet/schedule/operator/builder.go plans, container by
-- container.
use matrixcube.Prelude.{
  ℕ, ◌≡◌, refl, sym, ap, ◌∙◌, Bool, true, false, not, ◌&&◌, Option, none, some, List, [], ◌∷◌, ◌==◌,
  if◌then◌else◌, Bool-cases, Option-cases, inl, inr, arith, ==→eq,
}
use matrixcube.Meta.{Peer, is_learner}
use matrixcube.Operator.Builder.Peers.{
  PeersMap, lookup, set, lookup-set, lookup-above, lookup-container, IsMap, set-IsMap,
}
use matrixcube.Operator.Builder.{Builder}
use matrixcube.Operator.Builder.Prepare.{same_id, diff_kept, diff_origin, diff_origins}

-- a loop that sets what `f` makes of each peer
abbrev pub put_when : PeersMap → Option Peer → PeersMap
put_when m none = m
put_when m (some q) = set m q

unfoldable pub put_each : (Peer → Option Peer) → PeersMap → List Peer → PeersMap
put_each f m [] = m
put_each f m (p ∷ ps) = put_each f (put_when m (f p)) ps

abbrev pub or_lookup : Option Peer → Option Peer → Option Peer
or_lookup none o = o
or_lookup (some p) o = some p

abbrev pub at_most : (Peer → Option Peer) → Option Peer → Option Peer
at_most f none = none
at_most f (some p) = f p

-- `f` keeps the container
abbrev pub KeepsContainer : (Peer → Option Peer) → Type 0
KeepsContainer f = (p q : Peer) → f p ≡ some q → q.container_id ≡ p.container_id

lookup-put_when :
    (f : Peer → Option Peer) (m : PeersMap) (p : Peer) (c : ℕ)
    → KeepsContainer f
    → lookup (put_when m (f p)) c
      ≡ (if p.container_id == c then or_lookup (f p) (lookup m c) else lookup m c)
lookup-put_when f m p c k = elim (Option-cases (f p)) [
  | inl e ↦ rw e (ground arith)
  | inr (q, e) ↦ rw (e, lookup-set m q c, k p q e) refl
]

put_when-IsMap : (m : PeersMap) (o : Option Peer) → IsMap m → IsMap (put_when m o)
put_when-IsMap m none i = i
put_when-IsMap m (some q) i = set-IsMap m q i

-- After the loop a container has what was made of its peer, or what it had before.
pub lookup-put_each :
    (f : Peer → Option Peer) (m : PeersMap) (ps : PeersMap) (c : ℕ)
    → KeepsContainer f
    → IsMap ps
    → lookup (put_each f m ps) c ≡ or_lookup (at_most f (lookup ps c)) (lookup m c)
unfolding put_each
lookup-put_each f m [] c k i = refl
lookup-put_each f m (p ∷ ps) c k i =
    lookup-put_each f (put_when m (f p)) ps c k i.1 ∙ elim (Bool-cases (p.container_id == c)) [
      | inl e ↦
          let same : p.container_id ≡ c = ==→eq p.container_id c e in
          let gone : lookup ps c ≡ none = lookup-above ps c (rw (← same) i.0) in
          rw (e, gone, lookup-put_when f m p c k) (rw e refl)
      | inr n ↦ rw (n, lookup-put_when f m p c k) (rw n refl)
    ]

pub put_each-IsMap :
    (f : Peer → Option Peer) (m : PeersMap) (ps : List Peer) → IsMap m → IsMap (put_each f m ps)
unfolding put_each
put_each-IsMap f m [] i = i
put_each-IsMap f m (p ∷ ps) i = put_each-IsMap f (put_when m (f p)) ps (put_when-IsMap m (f p) i)

-- What is set for an origin peer in each of the maps, by the target peer of its container.
module _ (allow_demote : Bool) (target : PeersMap) where
  abbrev pub removed_for : Peer → Option Peer → Option Peer
  removed_for o none = some o
  removed_for o (some n) =
      if not (is_learner o) && (is_learner n && not allow_demote) then some o else none

  abbrev pub promoted_for : Peer → Option Peer → Option Peer
  promoted_for o none = none
  promoted_for o (some n) = if is_learner o && not (is_learner n) then some (same_id o n) else none

  abbrev pub demoted_for : Peer → Option Peer → Option Peer
  demoted_for o none = none
  demoted_for o (some n) =
      if not (is_learner o) && (is_learner n && allow_demote) then some (same_id o n) else none

  abbrev pub to_remove_of : Peer → Option Peer
  to_remove_of o = removed_for o (lookup target o.container_id)

  abbrev pub to_promote_of : Peer → Option Peer
  to_promote_of o = promoted_for o (lookup target o.container_id)

  abbrev pub to_demote_of : Peer → Option Peer
  to_demote_of o = demoted_for o (lookup target o.container_id)

pub learner-same_id : (o n : Peer) → is_learner (same_id o n) ≡ is_learner n
learner-same_id o n = elim (Bool-cases (not (o.id == n.id))) [
  | inl e ↦ rw e refl
  | inr e ↦ rw e refl
]

-- One round of the loop sets each map for one peer, or leaves it.
abbrev pub IsPut : Builder → Builder → (r p q : Option Peer) → Type 0
IsPut b d r p q =
    (d.to_remove ≡ put_when b.to_remove r)
    × (d.to_promote ≡ put_when b.to_promote p)
    × (d.to_demote ≡ put_when b.to_demote q)
    × (d.target_peers ≡ b.target_peers)
    × (d.allow_demote ≡ b.allow_demote)
    × (d.origin_peers ≡ b.origin_peers)
    × (d.to_add ≡ b.to_add)

kept_by_roles :
    (b : Builder) (o n : Peer) (origin_learner target_learner demotes : Bool)
    → IsPut b
        (if origin_learner
          then (if not target_learner then record b { to_promote = set b.to_promote n } else b)
          else if target_learner
          then (if demotes
              then record b { to_demote = set b.to_demote n }
              else record b { to_remove = set b.to_remove o })
          else b)
        (if not origin_learner && (target_learner && not demotes) then some o else none)
        (if origin_learner && not target_learner then some n else none)
        (if not origin_learner && (target_learner && demotes) then some n else none)
kept_by_roles b o n true true a = (refl, refl, refl, refl, refl, refl, refl)
kept_by_roles b o n true false a = (refl, refl, refl, refl, refl, refl, refl)
kept_by_roles b o n false true true = (refl, refl, refl, refl, refl, refl, refl)
kept_by_roles b o n false true false = (refl, refl, refl, refl, refl, refl, refl)
kept_by_roles b o n false false a = (refl, refl, refl, refl, refl, refl, refl)

abbrev IsDiffed : Builder → Builder → Peer → Type 0
IsDiffed b d o =
    IsPut b d (to_remove_of b.allow_demote b.target_peers o)
      (to_promote_of b.allow_demote b.target_peers o) (to_demote_of b.allow_demote b.target_peers o)

diff_kept-IsPut :
    (b : Builder) (o n : Peer)
    → IsPut b
        (diff_kept b o (same_id o n))
        (removed_for b.allow_demote b.target_peers o (some n))
        (promoted_for b.allow_demote b.target_peers o (some n))
        (demoted_for b.allow_demote b.target_peers o (some n))
diff_kept-IsPut b o n =
    rw (learner-same_id o n)
      (kept_by_roles b o (same_id o n) (is_learner o) (is_learner n) b.allow_demote)

diff_origin-IsDiffed : (b : Builder) (o : Peer) → IsDiffed b (diff_origin b o) o
unfolding diff_origin
diff_origin-IsDiffed b o = elim (Option-cases (lookup b.target_peers o.container_id)) [
  | inl e ↦ rw (e, diff_origin) (refl, refl, refl, refl, refl, refl, refl)
  | inr (n, e) ↦ rw (e, diff_origin) (diff_kept-IsPut b o n)
]

-- The loop over the origin peers.
abbrev pub IsLooped : Builder → Builder → List Peer → Type 0
IsLooped b d os =
    (d.to_remove ≡ put_each (to_remove_of b.allow_demote b.target_peers) b.to_remove os)
    × (d.to_promote ≡ put_each (to_promote_of b.allow_demote b.target_peers) b.to_promote os)
    × (d.to_demote ≡ put_each (to_demote_of b.allow_demote b.target_peers) b.to_demote os)
    × (d.target_peers ≡ b.target_peers)
    × (d.allow_demote ≡ b.allow_demote)
    × (d.origin_peers ≡ b.origin_peers)
    × (d.to_add ≡ b.to_add)

pub diff_origins-put_each : (b : Builder) (os : List Peer) → IsLooped b (diff_origins b os) os
unfolding diff_origins put_each diff_origin
diff_origins-put_each b [] = (refl, refl, refl, refl, refl, refl, refl)
diff_origins-put_each b (o ∷ os) =
    let d = diff_origin-IsDiffed b o in
    rw (d.3, d.4, d.0, d.1, d.2, d.5, d.6) at (diff_origins-put_each (diff_origin b o) os)

same_id-container :
    (o n : Peer) → n.container_id ≡ o.container_id → (same_id o n).container_id ≡ o.container_id
same_id-container o n h = ground arith

-- what is set under a test
pub chosen : (b : Bool) (p q : Peer) → (if b then some p else none) ≡ some q → p ≡ q
chosen true p q e = cc
chosen false p q e = cc

module _ (a : Bool) (target : PeersMap) where
  removed_container :
      (p q : Peer) (o : Option Peer)
      → removed_for a target p o ≡ some q
      → q.container_id ≡ p.container_id
  removed_container p q none e = ground arith
  removed_container p q (some n) e =
      ap (λ (r : Peer). r.container_id)
        (sym (chosen (not (is_learner p) && (is_learner n && not a)) p q e))

  pub remove-KeepsContainer : KeepsContainer (to_remove_of a target)
  remove-KeepsContainer p q e = removed_container p q (lookup target p.container_id) e

  pub promote-KeepsContainer : KeepsContainer (to_promote_of a target)
  promote-KeepsContainer p q e = elim (Option-cases (lookup target p.container_id)) [
    | inl g ↦ cc (rw g at e)
    | inr (n, g) ↦
        ap (λ (r : Peer). r.container_id)
          (sym (chosen (is_learner p && not (is_learner n)) (same_id p n) q (rw g at e)))
        ∙ same_id-container p n (lookup-container target p.container_id n g)
  ]

  pub demote-KeepsContainer : KeepsContainer (to_demote_of a target)
  demote-KeepsContainer p q e = elim (Option-cases (lookup target p.container_id)) [
    | inl g ↦ cc (rw g at e)
    | inr (n, g) ↦
        ap (λ (r : Peer). r.container_id)
          (sym (chosen (not (is_learner p) && (is_learner n && a)) (same_id p n) q (rw g at e)))
        ∙ same_id-container p n (lookup-container target p.container_id n g)
  ]
