-- ===== src/Raft/ConfChange/Steps.antt =====
-- `doExecChangePeerV2` taken apart: one round of its loop, and its end.
use matrixcube.Prelude.{ℕ, suc, ◌≡◌, refl, Option, List, [], ◌∷◌, arith, length}
use matrixcube.Meta.{ChangePeerRequest}
use matrixcube.Raft.Shards.{ConfChangeKind, enter_joint_kind, get_conf_change_kind}
use matrixcube.Raft.Delegate.{Delegate, Context, AdminResult, done}
use matrixcube.Raft.ConfChange.{
  bump_conf_ver, Conf, Applied, applied, rejected, still_joint, apply_changes, commit_applied,
  start_conf, exec_change_peer_v2,
}

pub apply_step :
    (kind : ConfChangeKind) (self : ℕ) (rest : List ChangePeerRequest) (c' : Conf) (a : Applied)
    → (elim a [
      | applied c₁ ↦ apply_changes kind self rest c₁
      | rejected e c₁ ↦ rejected e c₁
      | still_joint ↦ still_joint
    ])
      ≡ applied c'
    → (c₁ : Conf) × (a ≡ applied c₁) × (apply_changes kind self rest c₁ ≡ applied c')
apply_step kind self rest c' (applied c₁) h = (c₁, refl, h)
apply_step kind self rest c' (rejected e c₁) h = cc
apply_step kind self rest c' still_joint h = cc

-- the kinds that a number of changes other than 0 has
abbrev pub kind_of : List ChangePeerRequest → ConfChangeKind
kind_of changes = get_conf_change_kind (length changes)

pub committed :
    (d d' : Delegate) (ctx ctx' : Context) (changes : List ChangePeerRequest) (a : Applied)
    (r : Option AdminResult)
    → commit_applied d ctx changes a ≡ done d' ctx' r
    → (c : Conf) × (a ≡ applied c)
      × (d'.shard ≡ bump_conf_ver c.res (length changes))
      × (d'.pending_remove ≡ c.pending_remove)
committed d d' ctx ctx' changes (applied c) r h = (c, refl, ground arith, ground arith)
committed d d' ctx ctx' changes (rejected e c) r h = cc
committed d d' ctx ctx' changes still_joint r h = cc

kind_many : (n : ℕ) → get_conf_change_kind (suc (suc n)) ≡ enter_joint_kind
unfolding get_conf_change_kind
kind_many n = ground arith

pub exec_as_applied :
    (d : Delegate) (ctx : Context) (cp : ChangePeerRequest) (changes : List ChangePeerRequest)
    → exec_change_peer_v2 d ctx (cp ∷ changes)
      ≡ commit_applied d ctx
          (cp ∷ changes)
          (apply_changes (kind_of (cp ∷ changes)) d.peer_id (cp ∷ changes) (start_conf d))
unfolding exec_change_peer_v2
exec_as_applied d ctx cp [] = unfold get_conf_change_kind in refl
exec_as_applied d ctx cp (cp' ∷ changes) = rw (kind_many (length changes))
