-- ===== src/Operator/Builder/Start.antt =====
-- What `prepareBuild` of components/prophet/schedule/operator/builder.go starts with: the steps and
-- the leader of the builder.
use matrixcube.Prelude.{
  ℕ, ◌≡◌, refl, ap, ◌∙◌, sym, Bool, true, false, not, Option, none, some, List, [], ◌∷◌, ◌==◌,
  if◌then◌else◌, Bool-cases, Option-cases, inl, inr, count_if,
}
use matrixcube.Meta.{Peer, is_learner}
use matrixcube.Operator.Builder.Peers.{lookup, set}
use matrixcube.Operator.Builder.{Builder}
use matrixcube.Operator.Builder.Prepare.{
  prepare_build, fresh, diff_origin, same_id, diff_origins, diff_target, diff_targets, add_new,
  next_id, is_new, cancelled, is_voter_peer,
}
use matrixcube.Operator.Builder.Added.{diff_targets-next}
use matrixcube.Operator.Builder.Result.{no_id_lem}

abbrev Starts : Builder → Builder → Type 0
Starts b d = (d.steps ≡ b.steps) × (d.origin_leader ≡ b.origin_leader)

by_roles :
    (b : Builder) (o n : Peer) (x y z : Bool)
    → Starts b (
        if x
        then (if not y then record b { to_promote = set b.to_promote n } else b)
        else if y
        then (if z
            then record b { to_demote = set b.to_demote n }
            else record b { to_remove = set b.to_remove o })
        else b)
by_roles b o n true true z = (refl, refl)
by_roles b o n true false z = (refl, refl)
by_roles b o n false true true = (refl, refl)
by_roles b o n false true false = (refl, refl)
by_roles b o n false false z = (refl, refl)

diff_origin-Starts : (b : Builder) (o : Peer) → Starts b (diff_origin b o)
unfolding diff_origin
diff_origin-Starts b o = elim (Option-cases (lookup b.target_peers o.container_id)) [
  | inl e ↦ rw (e, diff_origin) (refl, refl)
  | inr (n, e) ↦
      rw (e, diff_origin)
        (by_roles b o (same_id o n) (is_learner o) (is_learner (same_id o n)) b.allow_demote)
]

diff_origins-Starts : (b : Builder) (os : List Peer) → Starts b (diff_origins b os)
unfolding diff_origins
diff_origins-Starts b [] = (refl, refl)
diff_origins-Starts b (o ∷ os) =
    let d = diff_origin-Starts b o in
    let e = diff_origins-Starts (diff_origin b o) os in (e.0 ∙ d.0, e.1 ∙ d.1)

new_one : (b t : Builder) (o : Option (Peer × List ℕ)) → add_new b o ≡ some t → Starts b t
new_one b t none e = cc
new_one b t (some (a, ids)) e =
    let v = λ (x : Option Builder). elim x as (λ _. Builder) [ none ↦ b | some d ↦ d ] in
    (
      sym (ap (λ (x : Option Builder). (v x).steps) e),
      sym (ap (λ (x : Option Builder). (v x).origin_leader) e),
    )

same_builder : (b t : Builder) → some b ≡ some t → Starts b t
same_builder b t e =
    let same : b ≡ t = cc in
    (ap (λ (x : Builder). x.steps) (sym same), ap (λ (x : Builder). x.origin_leader) (sym same))

diff_target-Starts : (b t : Builder) (n : Peer) → diff_target b n ≡ some t → Starts b t
unfolding diff_target
diff_target-Starts b t n e = elim (Bool-cases (is_new b n)) [
  | inl y ↦ new_one b t (next_id n b.cluster.ids) (rw (y, diff_target) at e)
  | inr y ↦ same_builder b t (rw (y, diff_target) at e)
]

diff_targets-Starts : (b t : Builder) (ns : List Peer) → diff_targets b ns ≡ some t → Starts b t
unfolding diff_targets
diff_targets-Starts b t [] e = same_builder b t e
diff_targets-Starts b t (n ∷ ns) e = elim (Option-cases (diff_target b n)) [
  | inl f ↦ absurd (cc (sym (diff_targets-next b n ns none f) ∙ e))
  | inr (u, f) ↦
      let x = diff_target-Starts b u n f in
      let y = diff_targets-Starts u t ns (sym (diff_targets-next b n ns (some u) f) ∙ e) in
      (y.0 ∙ x.0, y.1 ∙ x.1)
]

cancelled-Starts : (b : Builder) (o : Option Peer) → Starts b (cancelled b o)
cancelled-Starts b none = (refl, refl)
cancelled-Starts b (some p) = elim (Bool-cases (is_learner p)) [
  | inl l ↦ rw l (refl, refl)
  | inr l ↦ rw l (refl, refl)
]

-- a builder that is prepared without an error has its steps, and starts with the leader of the origin
pub prepare_build-Starts :
    (b : Builder)
    → (prepare_build b).1 ≡ none
    → ((prepare_build b).0.steps ≡ b.steps) × ((prepare_build b).0.current_leader ≡ b.origin_leader)
unfolding prepare_build
prepare_build-Starts b e = elim (Bool-cases (count_if is_voter_peer b.target_peers == 0)) [
  | inl z ↦ absurd (cc (rw (z, prepare_build) at e))
  | inr n ↦
      let d = diff_origins (fresh b) b.origin_peers in
      let x = diff_origins-Starts (fresh b) b.origin_peers in
      let (t, f, g) = no_id_lem d (diff_targets d d.target_peers) (rw (n, prepare_build) at e) in
      let y = diff_targets-Starts d t d.target_peers f in
      let k = cancelled-Starts t (lookup t.target_peers t.target_leader) in
      rw (n, prepare_build)
        (
          ap (λ (p : Builder). p.steps) g ∙ (k.0 ∙ (y.0 ∙ x.0)),
          ap (λ (p : Builder). p.current_leader) g ∙ (k.1 ∙ (y.1 ∙ x.1)),
        )
]
