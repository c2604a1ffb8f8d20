-- ===== src/Operator/Builder/Added.antt =====
-- The loop of `prepareBuild` over the target peers, in
-- components/prophet/schedule/operator/builder.go.
use mathlib.Core.Path.{subst}
use matrixcube.Prelude.{
  ℕ, ◌≡◌, refl, sym, ap, ◌∙◌, Bool, true, false, Option, none, some, List, [], ◌∷◌, ◌==◌, ◌⊎◌,
  if◌then◌else◌, Bool-cases, Option-cases, inl, inr, arith, ==→eq,
}
use matrixcube.Meta.{Peer, is_learner}
use matrixcube.Operator.Builder.Peers.{
  PeersMap, lookup, set, lookup-set, lookup-above, IsMap, set-IsMap,
}
use matrixcube.Operator.Builder.{Builder}
use matrixcube.Operator.Builder.Prepare.{
  is_new, alloc, next_id, add_new, diff_target, diff_targets, then_build,
}

-- whether a peer is a learner, without a peer nothing
abbrev pub kind_of : Option Peer → Option Bool
kind_of none = none
kind_of (some p) = some (is_learner p)

abbrev pub added_kind : Bool → Option Peer → Option Bool
added_kind new none = none
added_kind new (some n) = if new then some (is_learner n) else none

abbrev pub or_kind_of : Option Bool → Option Bool → Option Bool
or_kind_of none o = o
or_kind_of (some k) o = some k

-- what the loop leaves as it was
abbrev pub IsKept : Builder → Builder → Type 0
IsKept b t =
    (t.to_remove ≡ b.to_remove)
    × (t.to_promote ≡ b.to_promote)
    × (t.to_demote ≡ b.to_demote)
    × (t.target_peers ≡ b.target_peers)
    × (t.origin_peers ≡ b.origin_peers)
    × (t.allow_demote ≡ b.allow_demote)
    × (t.origin_leader ≡ b.origin_leader)
    × (t.target_leader ≡ b.target_leader)

-- One round: a new peer is set with the role of the target peer, and an id.
abbrev pub IsAdded : Builder → Builder → Peer → Type 0
IsAdded b t n =
    IsKept b t
    × ((t.to_add ≡ b.to_add) × (is_new b n ≡ false)
        ⊎ ((a : Peer) × (t.to_add ≡ set b.to_add a)
            × (is_new b n ≡ true)
            × (a.container_id ≡ n.container_id)
            × (is_learner a ≡ is_learner n)))

some_value {ℓ} : {A : Type ℓ} (x y : A) → some x ≡ some y → x ≡ y
some_value x y e = cc

id_given :
    (n a : Peer) (zero_id : Bool) (ids rest : List ℕ)
    → (if zero_id then alloc n ids else some (n, ids)) ≡ some (a, rest)
    → (a.container_id ≡ n.container_id) × (is_learner a ≡ is_learner n)
id_given n a true [] rest e = cc
id_given n a true (id ∷ more) rest e =
    let v =
      some_value (record { id = id; container_id = n.container_id; role = n.role }, more) (a, rest)
        e in
    (
      ap (λ (p : Peer × List ℕ). p.0.container_id) (sym v),
      ap (λ (p : Peer × List ℕ). is_learner p.0) (sym v),
    )
id_given n a false ids rest e =
    let v = some_value (n, ids) (a, rest) e in
    (
      ap (λ (p : Peer × List ℕ). p.0.container_id) (sym v),
      ap (λ (p : Peer × List ℕ). is_learner p.0) (sym v),
    )

new_one :
    (b t : Builder) (n : Peer) (o : Option (Peer × List ℕ))
    → next_id n b.cluster.ids ≡ o
    → add_new b o ≡ some t
    → is_new b n ≡ true
    → IsAdded b t n
new_one b t n none e f g = cc
new_one b t n (some (a, ids)) e f g =
    let g' = id_given n a (n.id == 0) b.cluster.ids ids e in
    subst (λ u. IsAdded b u n) (some_value _ t f)
      ((refl, refl, refl, refl, refl, refl, refl, refl), inr (a, refl, g, g'.0, g'.1))

diff_target-IsAdded : (b t : Builder) (n : Peer) → diff_target b n ≡ some t → IsAdded b t n
unfolding diff_target
diff_target-IsAdded b t n e = elim (Bool-cases (is_new b n)) [
  | inl y ↦ new_one b t n (next_id n b.cluster.ids) refl (rw (y, diff_target) at e) y
  | inr y ↦
      subst (λ u. IsAdded b u n) (some_value b t (rw (y, diff_target) at e))
        ((refl, refl, refl, refl, refl, refl, refl, refl), inl (refl, y))
]

-- `is_new` does not depend on what the loop changes
is_new_kept : (b t : Builder) (n : Peer) → IsKept b t → is_new t n ≡ is_new b n
is_new_kept b t n k = rw (k.4, k.5) refl

IsKept-trans : (a b c : Builder) → IsKept a b → IsKept b c → IsKept a c
IsKept-trans a b c x y =
    (y.0 ∙ x.0, y.1 ∙ x.1, y.2 ∙ x.2, y.3 ∙ x.3, y.4 ∙ x.4, y.5 ∙ x.5, y.6 ∙ x.6, y.7 ∙ x.7)

-- whether the peer of a container is new
abbrev pub new_in : Builder → Option Peer → Bool
new_in b none = false
new_in b (some n) = is_new b n

kind-set :
    (b t : Builder) (n : Peer) (c : ℕ)
    → IsAdded b t n
    → kind_of (lookup t.to_add c) ≡ (
        if n.container_id == c
        then or_kind_of (added_kind (is_new b n) (some n)) (kind_of (lookup b.to_add c))
        else kind_of (lookup b.to_add c))
kind-set b t n c (k, inl (e, f)) = rw (e, f) (ground arith)
kind-set b t n c (k, inr (a, e, f, g, h)) =
    rw (e, f, lookup-set b.to_add a c)
      (rw g (elim (Bool-cases (n.container_id == c)) [
        | inl s ↦ rw s (ap (λ x. some x) h)
        | inr s ↦ rw s refl
      ]))

to_add-IsMap : (b t : Builder) (n : Peer) → IsAdded b t n → IsMap b.to_add → IsMap t.to_add
to_add-IsMap b t n (k, inl (e, f)) i = rw e i
to_add-IsMap b t n (k, inr (a, e, f, g, h)) i = rw e (set-IsMap b.to_add a i)

new_in_kept : (b t : Builder) (o : Option Peer) → IsKept b t → new_in t o ≡ new_in b o
new_in_kept b t none k = refl
new_in_kept b t (some n) k = is_new_kept b t n k

-- What the loop adds: for a container with a new target peer, a peer with its role.
pub record AreAdded (b t : Builder) (ns : PeersMap) : Type 0 where
  pub kept : IsKept b t
  pub is_map : IsMap t.to_add
  pub kinds :
      (c : ℕ)
      → kind_of (lookup t.to_add c)
        ≡ or_kind_of
            (added_kind (new_in b (lookup ns c)) (lookup ns c))
            (kind_of (lookup b.to_add c))

added_next :
    (b u t : Builder) (n : Peer) (ns : PeersMap)
    → IsAdded b u n
    → IsMap (n ∷ ns)
    → AreAdded u t ns
    → AreAdded b t (n ∷ ns)
added_next b u t n ns a i r = record {
  kept = IsKept-trans b u t a.0 r.kept;
  is_map = r.is_map;
  kinds = λ c.
      r.kinds c
      ∙ (rw (new_in_kept b u (lookup ns c) a.0, kind-set b u n c a)
          (elim (Bool-cases (n.container_id == c)) [
            | inl s ↦
                let same : n.container_id ≡ c = ==→eq n.container_id c s in
                let gone : lookup ns c ≡ none = lookup-above ns c (rw (← same) i.0) in
                rw (s, gone) refl
            | inr s ↦ rw s refl
          ]));
}

pub diff_targets-next :
    (b : Builder) (n : Peer) (ns : PeersMap) (o : Option Builder)
    → diff_target b n ≡ o
    → diff_targets b (n ∷ ns) ≡ then_build o (λ c. diff_targets c ns)
unfolding diff_targets
diff_targets-next b n ns o f = ap (λ x. then_build x (λ c. diff_targets c ns)) f

pub diff_targets-AreAdded :
    (b t : Builder) (ns : PeersMap)
    → diff_targets b ns ≡ some t
    → IsMap ns
    → IsMap b.to_add
    → AreAdded b t ns
unfolding diff_targets
diff_targets-AreAdded b t [] e i j =
    subst (λ u. AreAdded b u []) (some_value b t e)
      (record {
        kept = (refl, refl, refl, refl, refl, refl, refl, refl);
        is_map = j;
        kinds = λ c. refl;
      })
diff_targets-AreAdded b t (n ∷ ns) e i j = elim (Option-cases (diff_target b n)) [
  | inl f ↦ absurd (cc (sym (diff_targets-next b n ns none f) ∙ e))
  | inr (u, f) ↦
      let a = diff_target-IsAdded b u n f in
      added_next b u t n ns a i (
        diff_targets-AreAdded u t ns (sym (diff_targets-next b n ns (some u) f) ∙ e) i.1
          (to_add-IsMap b u n a j))
]
