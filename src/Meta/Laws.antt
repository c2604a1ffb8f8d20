-- ===== src/Meta/Laws.antt =====
-- Peers in joint state, counted and found.
use matrixcube.Prelude.{◌≤◌, ◌≡◌, ◌≢◌, ◌↔◌, refl, false, List, [], ◌∷◌, arith, All, length}
use matrixcube.Meta.{Peer, is_in_joint_state, count_in_joint_state}

-- no container holds two of the peers
abbrev pub HasDistinctContainers : List Peer → Type 0
HasDistinctContainers [] = Unit
HasDistinctContainers (p ∷ ps) =
    All (λ (q : Peer). q.container_id ≢ p.container_id) ps × HasDistinctContainers ps

-- `IsInJointState` is the test whether `CountInJointState` is 0.
pub count_in_joint_state_zero :
    (ps : List Peer) → (is_in_joint_state ps ≡ false) ↔ (count_in_joint_state ps ≡ 0)
unfolding is_in_joint_state count_in_joint_state
count_in_joint_state_zero [] = (λ h. refl, λ h. refl)
count_in_joint_state_zero (p ∷ ps) =
    let ih = count_in_joint_state_zero ps in (λ h. ground arith, λ h. ground arith)

pub count_in_joint_state-le-length : (ps : List Peer) → count_in_joint_state ps ≤ length ps
unfolding count_in_joint_state
count_in_joint_state-le-length [] = omega arith
count_in_joint_state-le-length (p ∷ ps) = ground (arith, count_in_joint_state-le-length ps)
