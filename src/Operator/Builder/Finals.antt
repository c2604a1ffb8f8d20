-- ===== src/Operator/Builder/Finals.antt =====
-- What a round without joint consensus of components/prophet/schedule/operator/builder.go leaves,
-- container by container.
use mathlib.Core.Path.{subst}
use matrixcube.Prelude.{
  ℕ, zero, suc, ◌+◌, ◌≤◌, ◌≡◌, refl, sym, ◌∙◌, Bool, not, ◌&&◌, Option, none, some, ◌==◌,
  if◌then◌else◌, Bool-cases, inl, inr, arith, ==→eq,
}
use matrixcube.Meta.{Peer}
use matrixcube.Operator.Builder.Peers.{PeersMap, lookup, is_there, lookup-set, lookup-delete}
use matrixcube.Operator.Builder.{Builder}
use matrixcube.Operator.Builder.Exec.{
  exec_transfer_leader, exec_promote_learner, exec_demote_follower, exec_add_peer, exec_remove_peer,
}
use matrixcube.Operator.Builder.Pending.{or_lookup}
use matrixcube.Operator.Builder.Added.{kind_of}
use matrixcube.Operator.Builder.Plans.{IsIn, IsReady, IsSound, peer_plan-IsSound}
use matrixcube.Operator.Builder.Prepare.{pending_count}
use matrixcube.Operator.Builder.StepPlan.{StepPlan, is_empty, peer_plan}
use matrixcube.Operator.Builder.Rounds.{
  transfer-AreLeft, add-AreLeft, promote-AreLeft, demote-AreLeft, exec_plan-IsReady,
}
use matrixcube.Operator.Builder.PlainPlan.{
  State, transfer_to, add_planned, promote_planned, demote_planned, remove_planned, exec_plan,
  Rounds, ended, stuck, out_of_fuel, rounds,
}

-- the kind that a container shall have in the end, by what is still to be done
abbrev pub final_of : (rem dem pro add cur : Option Peer) → Option Bool
final_of rem dem pro add cur =
    if is_there rem then none else kind_of (or_lookup dem (or_lookup pro (or_lookup add cur)))

abbrev pub there : Option Peer → ℕ
there none = 0
there (some p) = 1

-- a container has one thing to be done at most
abbrev pub IsSingle : (rem dem pro add : Option Peer) → Type 0
IsSingle rem dem pro add = there rem + there dem + there pro + there add ≤ 1

abbrev pub final : Builder → ℕ → Option Bool
final b c =
    final_of (lookup b.to_remove c) (lookup b.to_demote c) (lookup b.to_promote c)
      (lookup b.to_add c) (lookup b.current_peers c)

abbrev pub Single : Builder → ℕ → Type 0
Single b c =
    IsSingle (lookup b.to_remove c) (lookup b.to_demote c) (lookup b.to_promote c)
      (lookup b.to_add c)

-- a step that changes neither
abbrev Keeps : Builder → Builder → ℕ → Type 0
Keeps b d c = Single b c → (final d c ≡ final b c) × Single d c

add_one :
    (rem dem pro cur : Option Peer) (p : Peer)
    → IsSingle rem dem pro (some p)
    → (final_of rem dem pro none (some p) ≡ final_of rem dem pro (some p) cur)
      × IsSingle rem dem pro none
add_one rem dem pro cur p h = (refl, omega (arith, h))

promote_one :
    (rem dem add cur : Option Peer) (p : Peer)
    → IsSingle rem dem (some p) add
    → (final_of rem dem none add (some p) ≡ final_of rem dem (some p) add cur)
      × IsSingle rem dem none add
promote_one rem dem none cur p h = (refl, omega (arith, h))
promote_one rem dem (some a) cur p h = absurd (omega (arith, h))

demote_one :
    (rem pro add cur : Option Peer) (p : Peer)
    → IsSingle rem (some p) pro add
    → (final_of rem none pro add (some p) ≡ final_of rem (some p) pro add cur)
      × IsSingle rem none pro add
demote_one rem none none cur p h = (refl, omega (arith, h))
demote_one rem (some q) add cur p h = absurd (omega (arith, h))
demote_one rem none (some q) cur p h = absurd (omega (arith, h))

remove_one :
    (dem pro add cur : Option Peer) (p : Peer)
    → IsSingle (some p) dem pro add
    → (final_of none dem pro add none ≡ final_of (some p) dem pro add cur)
      × IsSingle none dem pro add
remove_one none none none cur p h = (refl, omega (arith, h))
remove_one (some q) pro add cur p h = absurd (omega (arith, h))
remove_one none (some q) add cur p h = absurd (omega (arith, h))
remove_one none none (some q) cur p h = absurd (omega (arith, h))

pub transfer-Keeps : (id : ℕ) (s : State) (c : ℕ) → Keeps s.0 (transfer_to id s).0 c
unfolding transfer_to exec_transfer_leader
transfer-Keeps id (b, kind) c h =
    elim (Bool-cases (not (id == 0) && not (id == b.current_leader))) [
      | inl e ↦ rw (e, transfer_to) (refl, h)
      | inr e ↦ rw (e, transfer_to) (refl, h)
    ]

pub add-Keeps :
    (o : Option Peer) (s : State) (c : ℕ) → IsIn s.0.to_add o → Keeps s.0 (add_planned o s).0 c
unfolding exec_add_peer
add-Keeps none s c i h = (refl, h)
add-Keeps (some p) s c i h =
    rw (lookup-delete s.0.to_add p.container_id c, lookup-set s.0.current_peers p c)
      (elim (Bool-cases (p.container_id == c)) [
        | inl e ↦
            let w : lookup s.0.to_add c ≡ some p =
              subst (λ k. lookup s.0.to_add k ≡ some p) (==→eq p.container_id c e) i in
            rw (e, w)
              (add_one (lookup s.0.to_remove c) (lookup s.0.to_demote c) (lookup s.0.to_promote c)
                (lookup s.0.current_peers c) p (rw w at h))
        | inr n ↦ rw n (refl, h)
      ])

pub promote-Keeps :
    (o : Option Peer) (s : State) (c : ℕ)
    → IsIn s.0.to_promote o
    → Keeps s.0 (promote_planned o s).0 c
unfolding exec_promote_learner
promote-Keeps none s c i h = (refl, h)
promote-Keeps (some p) s c i h =
    rw (lookup-delete s.0.to_promote p.container_id c, lookup-set s.0.current_peers p c)
      (elim (Bool-cases (p.container_id == c)) [
        | inl e ↦
            let w : lookup s.0.to_promote c ≡ some p =
              subst (λ k. lookup s.0.to_promote k ≡ some p) (==→eq p.container_id c e) i in
            rw (e, w)
              (promote_one (lookup s.0.to_remove c) (lookup s.0.to_demote c) (lookup s.0.to_add c)
                (lookup s.0.current_peers c) p (rw w at h))
        | inr n ↦ rw n (refl, h)
      ])

pub demote-Keeps :
    (o : Option Peer) (s : State) (c : ℕ)
    → IsIn s.0.to_demote o
    → Keeps s.0 (demote_planned o s).0 c
unfolding exec_demote_follower
demote-Keeps none s c i h = (refl, h)
demote-Keeps (some p) s c i h =
    rw (lookup-delete s.0.to_demote p.container_id c, lookup-set s.0.current_peers p c)
      (elim (Bool-cases (p.container_id == c)) [
        | inl e ↦
            let w : lookup s.0.to_demote c ≡ some p =
              subst (λ k. lookup s.0.to_demote k ≡ some p) (==→eq p.container_id c e) i in
            rw (e, w)
              (demote_one (lookup s.0.to_remove c) (lookup s.0.to_promote c) (lookup s.0.to_add c)
                (lookup s.0.current_peers c) p (rw w at h))
        | inr n ↦ rw n (refl, h)
      ])

pub remove-Keeps :
    (o : Option Peer) (s : State) (c : ℕ)
    → IsIn s.0.to_remove o
    → Keeps s.0 (remove_planned o s).0 c
unfolding exec_remove_peer
remove-Keeps none s c i h = (refl, h)
remove-Keeps (some p) s c i h =
    rw
      (
        lookup-delete s.0.to_remove p.container_id c,
        lookup-delete s.0.current_peers p.container_id c,
      )
      (elim (Bool-cases (p.container_id == c)) [
        | inl e ↦
            let w : lookup s.0.to_remove c ≡ some p =
              subst (λ k. lookup s.0.to_remove k ≡ some p) (==→eq p.container_id c e) i in
            rw (e, w)
              (remove_one (lookup s.0.to_demote c) (lookup s.0.to_promote c) (lookup s.0.to_add c)
                (lookup s.0.current_peers c) p (rw w at h))
        | inr n ↦ rw n (refl, h)
      ])

Keeps-trans : (a b d : Builder) (c : ℕ) → Keeps a b c → Keeps b d c → Keeps a d c
Keeps-trans a b d c f g h = let x = f h in let y = g x.1 in (y.0 ∙ x.0, y.1)

pub same-IsIn : (m n : PeersMap) (o : Option Peer) → n ≡ m → IsIn m o → IsIn n o
same-IsIn m n o e i = subst (λ x. IsIn x o) (sym e) i

-- a round keeps what a container shall have in the end
exec_plan-Keeps : (p : StepPlan) (s : State) (c : ℕ) → IsSound s.0 p → Keeps s.0 (exec_plan p s).0 c
unfolding exec_plan
exec_plan-Keeps p s c i =
    let s1 = transfer_to p.leader_before_add s in
    let s2 = add_planned p.add s1 in
    let s3 = promote_planned p.promote s2 in
    let s4 = transfer_to p.leader_before_remove s3 in
    let s5 = demote_planned p.demote s4 in
    let s6 = remove_planned p.remove s5 in
    let a = transfer-AreLeft p.leader_before_add s in
    let b = add-AreLeft p.add s1 in
    let d = promote-AreLeft p.promote s2 in
    let e = transfer-AreLeft p.leader_before_remove s3 in
    let f = demote-AreLeft p.demote s4 in
    Keeps-trans s.0 s1.0 s6.0 c (transfer-Keeps p.leader_before_add s c) (
      Keeps-trans s1.0 s2.0 s6.0 c (add-Keeps p.add s1 c (same-IsIn _ _ p.add a.0 i.0)) (
        Keeps-trans s2.0 s3.0 s6.0 c
          (promote-Keeps p.promote s2 c (same-IsIn _ _ p.promote (b.2 ∙ a.2) i.2))
          (Keeps-trans s3.0 s4.0 s6.0 c (transfer-Keeps p.leader_before_remove s3 c) (
            Keeps-trans s4.0 s5.0 s6.0 c
              (demote-Keeps p.demote s4 c (same-IsIn _ _ p.demote (e.3 ∙ (d.3 ∙ (b.3 ∙ a.3))) i.3))
              (remove-Keeps p.remove s5 c
                (same-IsIn _ _ p.remove (f.1 ∙ (e.1 ∙ (d.1 ∙ (b.1 ∙ a.1)))) i.1))))))

-- the end of the rounds, where they have one
abbrev pub EndsAt : (ℕ → Option Bool) → ℕ → Rounds → Type 0
EndsAt f c (ended s) = (final s.0 c ≡ f c) × Single s.0 c
EndsAt f c (stuck s) = Unit
EndsAt f c out_of_fuel = Unit

pub rounds-EndsAt :
    (f : ℕ → Option Bool) (fuel : ℕ) (s : State) (c : ℕ)
    → IsReady s.0
    → final s.0 c ≡ f c
    → Single s.0 c
    → EndsAt f c (rounds fuel s)
unfolding rounds
rounds-EndsAt f zero s c r e h = elim (Bool-cases (pending_count s.0 == 0)) [
  | inl z ↦ rw (z, rounds) (e, h)
  | inr z ↦ rw (z, rounds) tt
]
rounds-EndsAt f (suc fuel) s c r e h = elim (Bool-cases (pending_count s.0 == 0)) [
  | inl z ↦ rw (z, rounds) (e, h)
  | inr n ↦ elim (Bool-cases (is_empty (peer_plan s.0))) [
    | inl z ↦ rw (n, z, rounds) tt
    | inr m ↦
        let k = exec_plan-Keeps (peer_plan s.0) s c (peer_plan-IsSound s.0 r) h in
        rw (n, m, rounds)
          (rounds-EndsAt f fuel (exec_plan (peer_plan s.0) s) c
            (exec_plan-IsReady (peer_plan s.0) s r) (k.0 ∙ e) k.1)
  ]
]
