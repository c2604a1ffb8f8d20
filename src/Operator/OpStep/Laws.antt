-- ===== src/Operator/OpStep/Laws.antt =====
-- How the methods of a step agree with one another.
use matrixcube.Prelude.{
  All, length, ℕ, ◌≤◌, ◌≡◌, refl, Bool, true, false, none, List, [], ◌∷◌, arith,
}
use matrixcube.Operator.Resource.{CachedResource, get_container_peer}
use matrixcube.Operator.Resource.Laws.{IsClassified, get_container_learner_lem}
use matrixcube.Operator.Step.{
  PromoteLearner, DemoteVoter, bool_to_uint64, add_peer_conf_ver_changed, add_peer_is_finish,
  add_learner_conf_ver_changed, add_learner_is_finish, promote_learner_is_finish,
  demote_conf_ver_changed, demote_is_finish, remove_peer_conf_ver_changed, remove_peer_is_finish,
}
use matrixcube.Operator.Joint.{
  all_of, changes, promote_counted, demote_counted, promote_entered, demote_entered, demote_left,
  demote_left_counted, enter_conf_ver_changed, enter_is_finish, leave_conf_ver_changed,
  leave_is_finish,
}
use matrixcube.Operator.OpStep.{
  OpStep, transfer_leader, add_peer, add_light_peer, add_learner, add_light_learner,
  promote_learner, remove_peer, merge_resource, split_resource, demote_follower,
  change_peer_v2_enter, change_peer_v2_leave, destory_directly, conf_ver_changed, is_finish,
}

-- How many configuration versions a step consumes in all.
abbrev pub conf_ver_cost : OpStep → ℕ
conf_ver_cost (transfer_leader a b) = 0
conf_ver_cost (merge_resource s e p) = 0
conf_ver_cost (split_resource s e) = 0
conf_ver_cost destory_directly = 0
conf_ver_cost (change_peer_v2_enter ps ds) = changes ps ds
conf_ver_cost (change_peer_v2_leave ps ds) = changes ps ds
conf_ver_cost _ = 1

pub all_of_mono {ℓ} :
    {A : Type ℓ} (f g : A → Bool) (xs : List A)
    → ((x : A) → f x ≡ true → g x ≡ true)
    → all_of f xs ≡ true
    → all_of g xs ≡ true
all_of_mono f g [] imp h = refl
all_of_mono f g (x ∷ xs) imp h = ground (arith, imp x, all_of_mono f g xs imp)

add_peer_finished :
    (c i : ℕ) (res : CachedResource)
    → add_peer_is_finish c i res ≡ true
    → add_peer_conf_ver_changed c i res ≡ 1
unfolding add_peer_is_finish add_peer_conf_ver_changed
add_peer_finished c i res h = ground arith

add_learner_finished :
    (c i : ℕ) (res : CachedResource)
    → IsClassified res
    → add_learner_is_finish c i res ≡ true
    → add_learner_conf_ver_changed c i res ≡ 1
unfolding add_learner_is_finish add_learner_conf_ver_changed
add_learner_finished c i res k h = let e = get_container_learner_lem res c k in ground (arith, e)

promote_learner_finished :
    (c i : ℕ) (res : CachedResource)
    → promote_learner_is_finish c i res ≡ true
    → add_peer_conf_ver_changed c i res ≡ 1
unfolding promote_learner_is_finish add_peer_conf_ver_changed
promote_learner_finished c i res h = ground arith

demote_finished :
    (c i : ℕ) (res : CachedResource)
    → demote_is_finish c i res ≡ true
    → demote_conf_ver_changed c i res ≡ true
unfolding demote_is_finish demote_conf_ver_changed
demote_finished c i res h = ground arith

remove_peer_finished :
    (c i : ℕ) (res : CachedResource)
    → remove_peer_is_finish c i res ≡ true
    → remove_peer_conf_ver_changed c i res ≡ 1
unfolding remove_peer_is_finish remove_peer_conf_ver_changed
remove_peer_finished c i res h = ground arith

promote_entered_counts :
    (res : CachedResource) (pl : PromoteLearner)
    → promote_entered res pl ≡ true
    → promote_counted res pl ≡ true
promote_entered_counts res pl h = ground arith

demote_entered_counts :
    (res : CachedResource) (dv : DemoteVoter)
    → demote_entered res dv ≡ true
    → demote_counted res dv ≡ true
demote_entered_counts res dv h = ground arith

demote_left_counts :
    (res : CachedResource) (dv : DemoteVoter)
    → demote_left res dv ≡ true
    → demote_left_counted res dv ≡ true
demote_left_counts res dv h = ground (arith, demote_finished dv.to_container dv.peer_id res)

enter_finished :
    (ps : List PromoteLearner) (ds : List DemoteVoter) (res : CachedResource)
    → enter_is_finish ps ds res ≡ true
    → enter_conf_ver_changed ps ds res ≡ changes ps ds
unfolding enter_is_finish enter_conf_ver_changed
enter_finished ps ds res h = ground (
  arith,
  all_of_mono (promote_entered res) (promote_counted res) ps (promote_entered_counts res),
  all_of_mono (demote_entered res) (demote_counted res) ds (demote_entered_counts res),
)

leave_finished :
    (ps : List PromoteLearner) (ds : List DemoteVoter) (res : CachedResource)
    → leave_is_finish ps ds res ≡ true
    → leave_conf_ver_changed ps ds res ≡ changes ps ds
unfolding leave_is_finish leave_conf_ver_changed
leave_finished ps ds res h =
    ground
      (arith, all_of_mono (demote_left res) (demote_left_counted res) ds (demote_left_counts res))

-- In a classified resource, a step that is finished reports all the configuration versions that it
-- consumes: the number of its changes for the joint steps, one for a step that adds, promotes,
-- demotes or removes a peer, and none for the others.
pub is_finish-conf_ver_changed :
    (step : OpStep) (res : CachedResource)
    → IsClassified res
    → is_finish step res ≡ true
    → conf_ver_changed step res ≡ conf_ver_cost step
unfolding is_finish conf_ver_changed
is_finish-conf_ver_changed (transfer_leader a b) res k h = refl
is_finish-conf_ver_changed (add_peer c i) res k h = add_peer_finished c i res h
is_finish-conf_ver_changed (add_light_peer c i) res k h = add_peer_finished c i res h
is_finish-conf_ver_changed (add_learner c i) res k h = add_learner_finished c i res k h
is_finish-conf_ver_changed (add_light_learner c i) res k h = add_learner_finished c i res k h
is_finish-conf_ver_changed (promote_learner c i) res k h = promote_learner_finished c i res h
is_finish-conf_ver_changed (remove_peer c i) res k h = remove_peer_finished c i res h
is_finish-conf_ver_changed (merge_resource s e p) res k h = refl
is_finish-conf_ver_changed (split_resource s e) res k h = refl
is_finish-conf_ver_changed (demote_follower c i) res k h = rw (demote_finished c i res h)
is_finish-conf_ver_changed (change_peer_v2_enter ps ds) res k h = enter_finished ps ds res h
is_finish-conf_ver_changed (change_peer_v2_leave ps ds) res k h = leave_finished ps ds res h
is_finish-conf_ver_changed destory_directly res k h = refl

bool_to_uint64-le : (b : Bool) → bool_to_uint64 b ≤ 1
bool_to_uint64-le true = omega arith
bool_to_uint64-le false = omega arith

-- Whatever the resource, a step never reports more configuration versions than it consumes.
pub conf_ver_changed-le :
    (step : OpStep) (res : CachedResource) → conf_ver_changed step res ≤ conf_ver_cost step
unfolding conf_ver_changed add_peer_conf_ver_changed add_learner_conf_ver_changed
    remove_peer_conf_ver_changed enter_conf_ver_changed leave_conf_ver_changed
conf_ver_changed-le (add_peer c i) res = bool_to_uint64-le _
conf_ver_changed-le (add_light_peer c i) res = bool_to_uint64-le _
conf_ver_changed-le (add_learner c i) res = bool_to_uint64-le _
conf_ver_changed-le (add_light_learner c i) res = bool_to_uint64-le _
conf_ver_changed-le (promote_learner c i) res = bool_to_uint64-le _
conf_ver_changed-le (remove_peer c i) res = bool_to_uint64-le _
conf_ver_changed-le (demote_follower c i) res = bool_to_uint64-le _
conf_ver_changed-le (change_peer_v2_enter ps ds) res = ground arith
conf_ver_changed-le (change_peer_v2_leave ps ds) res = ground arith
conf_ver_changed-le _ res = omega arith

module _ (res : CachedResource) where
  abbrev NoSuchContainer : List DemoteVoter → Type 0
  NoSuchContainer = All (λ (dv : DemoteVoter). get_container_peer res dv.peer_id ≡ none)

  all_counted :
      (ds : List DemoteVoter) → NoSuchContainer ds → all_of (demote_left_counted res) ds ≡ true
  all_counted [] h = refl
  all_counted (dv ∷ ds) h = rw h.0 (all_counted ds h.1)

  -- `ChangePeerV2Leave.ConfVerChanged` looks a demoted peer up by its own id as if it was the id of
  -- a container. Where no container has such an id, the demotions are all counted as done, be the
  -- peers in whatever roles they are: a step without promotions reports its full number.
  pub leave_conf_ver_changed-early :
      (ds : List DemoteVoter) → NoSuchContainer ds → leave_conf_ver_changed [] ds res ≡ length ds
  unfolding leave_conf_ver_changed
  leave_conf_ver_changed-early ds h = rw (all_counted ds h) (omega arith)
