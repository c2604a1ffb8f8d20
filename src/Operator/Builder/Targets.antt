-- ===== src/Operator/Builder/Targets.antt =====
-- What the plan without joint consensus of components/prophet/schedule/operator/builder.go leads to,
-- container by container, where demotion is allowed.
use matrixcube.Prelude.{
  ℕ, ◌≡◌, refl, sym, ap, ◌∙◌, Bool, true, false, not, ◌&&◌, Option, none, some, [], ◌==◌,
  if◌then◌else◌, Bool-cases, inl, inr, arith,
}
use matrixcube.Meta.{Peer, is_learner}
use matrixcube.Operator.Builder.Peers.{PeersMap, has, lookup}
use matrixcube.Operator.Builder.{Builder, BuilderError}
use matrixcube.Operator.Builder.Result.{IsPrepared}
use matrixcube.Operator.Builder.Exec.{set_target_leader_if_not_exist, exec_transfer_leader}
use matrixcube.Operator.Builder.Pending.{learner-same_id}
use matrixcube.Operator.Builder.Added.{kind_of}
use matrixcube.Operator.Builder.Plans.{IsReady}
use matrixcube.Operator.Builder.Prepare.{pending_count}
use matrixcube.Operator.Builder.Rounds.{none_pending, HasEnded, rounds-HasEnded}
use matrixcube.Operator.Builder.PlainPlan.{
  State, Rounds, ended, stuck, out_of_fuel, rounds, last_transfer, after_rounds, build_plain,
}
use matrixcube.Operator.Builder.Play.{role_for, role_at, play}
use matrixcube.Operator.Builder.Ready.{ArePlanned, prepared-ArePlanned, planned_lem}
use matrixcube.Operator.Builder.PlainPlay.{EndsTracked, rounds-EndsTracked, last_transfer-Tracks}
use matrixcube.Operator.Builder.JointSteps.{StepsLead, no_steps-Tracks}
use matrixcube.Operator.Builder.Finals.{EndsAt, rounds-EndsAt, final, final_of, IsSingle}

-- with nothing left to be done, a container has the kind that it shall have
done_final :
    (b : Builder) (c : ℕ) → pending_count b ≡ 0 → final b c ≡ kind_of (lookup b.current_peers c)
done_final b c h = let n = none_pending b h in rw (n.0, n.1, n.2, n.3) refl

-- what is planned for a container by its origin and its target peer, where demotion is allowed
planned_final :
    (t : PeersMap) (o n rem dem add pro cur : Option Peer)
    → ArePlanned t o n rem dem add pro cur
    → (final_of rem dem pro add cur ≡ kind_of n) × IsSingle rem dem pro add
planned_final t none none rem dem none pro cur (r, d, p, a, u) = rw (r, d, p, u) (refl, omega arith)
planned_final t none none rem dem (some x) pro cur (r, d, p, a, u) = cc
planned_final t none (some n) rem dem none pro cur (r, d, p, a, u) = cc
planned_final t none (some n) rem dem (some x) pro cur (r, d, p, a, u) =
    rw (r, d, p) (a, omega arith)
planned_final t (some o) none rem dem none pro cur (r, d, p, a, u) =
    rw (r, d, p) (refl, omega arith)
planned_final t (some o) none rem dem (some x) pro cur (r, d, p, a, u) = cc
planned_final t (some o) (some n) rem dem (some x) pro cur (r, d, p, a, u) = cc
planned_final t (some o) (some n) rem dem none pro cur (r, d, p, a, u) =
    rw (r, d, p, u)
      (elim (Bool-cases (is_learner o)) [
        | inl e ↦ elim (Bool-cases (is_learner n)) [
          | inl f ↦ rw (e, f) (ap (λ x. some x) e, omega arith)
          | inr f ↦ rw (e, f) (ap (λ x. some x) (learner-same_id o n ∙ f), omega arith)
        ]
        | inr e ↦ elim (Bool-cases (is_learner n)) [
          | inl f ↦ rw (e, f) (ap (λ x. some x) (learner-same_id o n ∙ f), omega arith)
          | inr f ↦ rw (e, f) (ap (λ x. some x) e, omega arith)
        ]
      ])

choice_peers : (b : Builder) → (set_target_leader_if_not_exist b).current_peers ≡ b.current_peers
unfolding set_target_leader_if_not_exist
choice_peers b = elim (Bool-cases (b.target_leader == 0)) [
  | inl e ↦ rw (e, set_target_leader_if_not_exist) refl
  | inr e ↦ rw (e, set_target_leader_if_not_exist) refl
]

either_peers :
    (m : PeersMap) (c : Bool) (x y : State)
    → x.0.current_peers ≡ m
    → y.0.current_peers ≡ m
    → (if c then x else y).0.current_peers ≡ m
either_peers m true x y h k = h
either_peers m false x y h k = k

last_transfer_peers : (s : State) → (last_transfer s).0.current_peers ≡ s.0.current_peers
unfolding last_transfer exec_transfer_leader
last_transfer_peers (b, kind) =
    let l = set_target_leader_if_not_exist b in
    either_peers b.current_peers
      (has l.current_peers l.target_leader
        && not (l.target_leader == 0)
        && not (l.current_leader == l.target_leader))
      _ (l, kind) (choice_peers b) (choice_peers b)

abbrev pub state_or : State → Option (State × Option BuilderError) → State
state_or s none = s
state_or s (some (t, e)) = t

-- the rounds without an error end with the peers of the target
built_kind :
    (f : ℕ → Option Bool) (c : ℕ) (r : Rounds) (s : State)
    → HasEnded r
    → EndsAt f c r
    → after_rounds r ≡ some (s, none)
    → kind_of (lookup s.0.current_peers c) ≡ f c
built_kind f c (ended t) s h e g =
    let same : last_transfer t ≡ s =
      ap (λ (o : Option (State × Option BuilderError)). state_or t o) g in
    ap (λ (x : State). kind_of (lookup x.0.current_peers c)) (sym same)
    ∙ (ap (λ m. kind_of (lookup m c)) (last_transfer_peers t) ∙ (sym (done_final t.0 c h) ∙ e.0))
built_kind f c (stuck t) s h e g = cc
built_kind f c out_of_fuel s h e g = absurd h

ended_steps :
    (b : Builder) (c : ℕ) (x : Rounds) (s : State)
    → EndsTracked c (role_at b.origin_peers c) b.origin_leader x
    → after_rounds x ≡ some (s, none)
    → play c s.0.steps (role_at b.origin_peers c) ≡ role_at s.0.current_peers c
ended_steps b c (ended t) s h g =
    let same : last_transfer t ≡ s =
      ap (λ (o : Option (State × Option BuilderError)). (state_or t o)) g in
    rw (← same) (last_transfer-Tracks c (role_at b.origin_peers c) b.origin_leader t h).0
ended_steps b c (stuck t) s h g = cc
ended_steps b c out_of_fuel s h g = cc

pub build_plain_steps :
    (b p : Builder) (kind c : ℕ) (s : State)
    → IsPrepared b p
    → b.allow_demote ≡ true
    → p.steps ≡ []
    → p.current_leader ≡ b.origin_leader
    → build_plain p kind ≡ some (s, none)
    → StepsLead b c s.0.steps
unfolding build_plain
build_plain_steps b p kind c s i a z y g =
    let o = lookup b.origin_peers c in
    let n = lookup b.target_peers c in
    let t = b.target_peers in
    let ready : IsReady p = (i.add_map, i.remove_map, i.promote_map, i.demote_map) in
    let planned = prepared-ArePlanned b p c i a in
    let f =
      planned_final t o n (lookup p.to_remove c) (lookup p.to_demote c) (lookup p.to_add c)
        (lookup p.to_promote c) (lookup p.current_peers c) planned in
    let h =
      planned_lem t o n (lookup p.to_remove c) (lookup p.to_demote c) (lookup p.to_add c)
        (lookup p.to_promote c) (lookup p.current_peers c) planned in
    let fuel = pending_count p in
    let kinds =
      built_kind (λ k. kind_of (lookup t k)) c (rounds fuel (p, kind)) s
        (rounds-HasEnded fuel (p, kind) ready (omega arith))
        (rounds-EndsAt (λ k. kind_of (lookup t k)) fuel (p, kind) c ready f.0 f.1) g in
    ended_steps b c (rounds fuel (p, kind)) s
      (rounds-EndsTracked c (role_at b.origin_peers c) b.origin_leader fuel (p, kind) ready
        (f.1, (h.0, h.1), no_steps-Tracks b p c i z y))
      g
    ∙ ap role_for kinds
