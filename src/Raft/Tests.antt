-- ===== src/Raft/Tests.antt =====
-- Concrete runs of the application of raft commands: a shard with two voters and a learner.
mod Changes
mod Splits
mod Applies
mod Returns
use matrixcube.Prelude.{
  ◌+◌, ℕ, ◌≡◌, refl, Bool, true, false, not, ◌&&◌, ◌||◌, Option, none, some, List, [], ◌∷◌, ◌++◌,
  arith, leb, ◌==◌, if◌then◌else◌,
}
use matrixcube.Prelude.Bytes.{Bytes}
use matrixcube.Meta.{Peer, PeerRole, voter, learner, Shard, ChangePeerType, ChangePeerRequest}
use matrixcube.Meta.Laws.{HasDistinctContainers}
use matrixcube.Raft.Shards.{
  is_epoch_stale, find_peer, remove_peer, removed_peers, has_peer, AdminCmdType, change_peer,
  transfer_leader, batch_split, change_peer_v2, compact_log, other_admin, Header, check_epoch,
}
use matrixcube.Raft.Shards.Laws.{
  contains, check_epoch_lem, check_epoch-is_epoch_stale, contains-removed_peers,
  find_peer-remove_peer,
}
use matrixcube.Raft.Delegate.{Delegate, Context}

abbrev pub peer_in : ℕ → PeerRole → Peer
peer_in c r = record { id = 10 + c; container_id = c; role = r }

abbrev pub peers : List Peer
peers = peer_in 1 voter ∷ peer_in 2 voter ∷ peer_in 3 learner ∷ []

abbrev pub shard : Shard
shard = record {
  id = 7;
  start = 10 ∷ [];
  end = [];
  epoch = record { conf_ver = 4; version = 2 };
  state = 0;
  peers = peers;
  disable_split = false;
  group = 0;
  unique = "";
  rule_groups = [];
  payload = [];
}

abbrev pub delegate : Delegate
delegate = record {
  peer_id = 11;
  shard = shard;
  pending_remove = false;
  apply_state = record { applied_index = 20; truncated_index = 5; truncated_term = 1 };
  applied_index_term = 3;
  term = 3;
  pending_cmds = [];
  pending_change_peer_cmd = none;
}

abbrev pub context : Context
context = record { raft_wb = []; apply_state = delegate.apply_state; index = 21; term = 3 }

abbrev pub request : ChangePeerType → Peer → ChangePeerRequest
request t p = record { change_type = t; peer = p }

pub peers_distinct : HasDistinctContainers peers
peers_distinct = ((omega arith, (omega arith, tt)), ((omega arith, tt), (tt, tt)))

abbrev header : Header
header = record {
  id = 1 ∷ [];
  epoch = record { conf_ver = 4; version = 1 };
  ignore_epoch_check = false;
}

check_epoch_lem_example :
    (check_epoch shard none (some header) ≡ false || leb 2 1)
    × (check_epoch shard (some batch_split) (some header) ≡ false || leb 2 1)
    × (check_epoch shard (some change_peer) (some header) ≡ leb 4 4)
    × (check_epoch shard (some transfer_leader) (some header) ≡ leb 4 4 && (false || leb 2 1))
    × (check_epoch shard (some change_peer_v2) (some header) ≡ true)
    × (check_epoch shard (some compact_log) (some header) ≡ true)
    × (check_epoch shard (some (other_admin 9)) (some header) ≡ true)
    × (check_epoch shard none none ≡ false)
    × (check_epoch shard (some batch_split) none ≡ false)
    × (check_epoch shard (some change_peer) none ≡ false)
    × (check_epoch shard (some transfer_leader) none ≡ false)
    × (check_epoch shard (some change_peer_v2) none ≡ true)
    × (check_epoch shard (some compact_log) none ≡ true)
    × (check_epoch shard (some (other_admin 9)) none ≡ true)
check_epoch_lem_example = check_epoch_lem shard header 9
