-- ===== src/Operator/Builder/Peers.antt =====
-- `peersMap` of components/prophet/schedule/operator/builder.go: peers by their containers. The map
-- is the list of its peers in the order of `IDs()`, the ascending order of the containers. Where the
-- code ranges over the map itself, in any order, the model ranges in this one.
use matrixcube.Prelude.{
  ℕ, ◌<◌, ◌≡◌, refl, sym, ap, ◌∙◌, Bool, true, false, not, Option, none, some, List, [], ◌∷◌, ltb,
  ◌==◌, if◌then◌else◌, find_first, keep, All, Bool-cases, inl, inr, arith, ==→eq,
}
use matrixcube.Meta.{Peer}
use matrixcube.Operator.Resource.{at_container}

abbrev pub PeersMap : Type 0
PeersMap = List Peer

-- `pm[id]` with its second result
abbrev pub lookup : PeersMap → ℕ → Option Peer
lookup m id = find_first (at_container id) m

abbrev pub is_there : Option Peer → Bool
is_there none = false
is_there (some p) = true

-- the `ok` of a lookup
abbrev pub has : PeersMap → ℕ → Bool
has m id = is_there (lookup m id)

unfoldable pub set : PeersMap → Peer → PeersMap
set [] p = p ∷ []
set (q ∷ qs) p =
    let rest = set qs p in
    if ltb p.container_id q.container_id
    then p ∷ q ∷ qs
    else if q.container_id == p.container_id
    then p ∷ qs
    else q ∷ rest

-- `delete(pm, id)`
unfoldable pub delete : PeersMap → ℕ → PeersMap
delete m id = keep (λ p. not (p.container_id == id)) m

-- the map that `Set` makes of a list of peers
unfoldable pub set_all : PeersMap → List Peer → PeersMap
set_all m [] = m
set_all m (p ∷ ps) = set_all (set m p) ps

unfoldable pub copy : PeersMap → PeersMap
copy m = set_all [] m

pub lookup-set :
    (m : PeersMap) (p : Peer) (id : ℕ)
    → lookup (set m p) id ≡ (if p.container_id == id then some p else lookup m id)
unfolding set
lookup-set [] p id = refl
lookup-set (q ∷ qs) p id = ground (arith, lookup-set qs p id)

pub lookup-delete :
    (m : PeersMap) (d id : ℕ) → lookup (delete m d) id ≡ (if d == id then none else lookup m id)
unfolding delete
lookup-delete [] d id = ground arith
lookup-delete (q ∷ qs) d id = ground (arith, lookup-delete qs d id)

-- each container has one peer
abbrev pub IsMap : PeersMap → Type 0
IsMap [] = Unit
IsMap (p ∷ ps) = All (λ (q : Peer). p.container_id < q.container_id) ps × IsMap ps

pub lookup-above :
    (ps : PeersMap) (k : ℕ) → All (λ (q : Peer). k < q.container_id) ps → lookup ps k ≡ none
lookup-above [] k a = refl
lookup-above (p ∷ ps) k a = ground (arith, lookup-above ps k a.1)

set_above :
    (k : ℕ) (m : PeersMap) (p : Peer)
    → k < p.container_id
    → All (λ (q : Peer). k < q.container_id) m
    → All (λ (q : Peer). k < q.container_id) (set m p)
unfolding set
set_above k [] p h a = (h, tt)
set_above k (q ∷ qs) p h a = elim (Bool-cases (ltb p.container_id q.container_id)) [
  | inl e ↦ rw (e, set) (h, a)
  | inr n ↦ elim (Bool-cases (q.container_id == p.container_id)) [
    | inl e ↦ rw (n, e, set) (h, a.1)
    | inr m ↦ rw (n, m, set) (a.0, set_above k qs p h a.1)
  ]
]

weaken_All :
    (j k : ℕ) (ps : PeersMap)
    → j < k
    → All (λ (q : Peer). k < q.container_id) ps
    → All (λ (q : Peer). j < q.container_id) ps
weaken_All j k [] h a = tt
weaken_All j k (p ∷ ps) h a = (omega (arith, a.0), weaken_All j k ps h a.1)

pub set-IsMap : (m : PeersMap) (p : Peer) → IsMap m → IsMap (set m p)
unfolding set
set-IsMap [] p i = (tt, tt)
set-IsMap (q ∷ qs) p i = elim (Bool-cases (ltb p.container_id q.container_id)) [
  | inl e ↦
      let l : p.container_id < q.container_id = ground arith in
      rw (e, set) ((l, weaken_All p.container_id q.container_id qs l i.0), i)
  | inr n ↦ elim (Bool-cases (q.container_id == p.container_id)) [
    | inl e ↦ rw (n, e, set) (rw (← ==→eq q.container_id p.container_id e) i.0, i.1)
    | inr m ↦ rw (n, m, set) (set_above q.container_id qs p (ground arith) i.0, set-IsMap qs p i.1)
  ]
]

keep_above :
    (k d : ℕ) (m : PeersMap)
    → All (λ (q : Peer). k < q.container_id) m
    → All (λ (q : Peer). k < q.container_id) (delete m d)
unfolding delete
keep_above k d [] a = tt
keep_above k d (q ∷ qs) a = elim (Bool-cases (q.container_id == d)) [
  | inl e ↦ rw (e, delete) (keep_above k d qs a.1)
  | inr n ↦ rw (n, delete) (a.0, keep_above k d qs a.1)
]

pub delete-IsMap : (m : PeersMap) (d : ℕ) → IsMap m → IsMap (delete m d)
unfolding delete
delete-IsMap [] d i = tt
delete-IsMap (q ∷ qs) d i = elim (Bool-cases (q.container_id == d)) [
  | inl e ↦ rw (e, delete) (delete-IsMap qs d i.1)
  | inr n ↦ rw (n, delete) (keep_above q.container_id d qs i.0, delete-IsMap qs d i.1)
]

pub set_all-IsMap : (m : PeersMap) (ps : List Peer) → IsMap m → IsMap (set_all m ps)
unfolding set_all
set_all-IsMap m [] i = i
set_all-IsMap m (p ∷ ps) i = set_all-IsMap (set m p) ps (set-IsMap m p i)

pub lookup-container :
    (m : PeersMap) (id : ℕ) (p : Peer) → lookup m id ≡ some p → p.container_id ≡ id
lookup-container [] id p e = cc
lookup-container (q ∷ qs) id p e = elim (Bool-cases (q.container_id == id)) [
  | inl s ↦
      let same : q ≡ p = cc (rw s at e) in
      ap (λ (r : Peer). r.container_id) (sym same) ∙ ==→eq q.container_id id s
  | inr n ↦ lookup-container qs id p (rw n at e)
]
