-- ===== src/Raft/Shards.antt =====
-- raftstore/util.go, and the checks of raftstore/errors.go, store.go and peer_event_proposal.go
-- that the application of a command makes.
pub mod Laws
use matrixcube.Prelude.{
  ℕ, zero, suc, Bool, true, false, not, ◌&&◌, ◌||◌, Option, none, some, List, [], ◌∷◌, ltb, ◌==◌,
  find_first, keep, count_if, length, if◌then◌else◌,
}
use matrixcube.Prelude.Bytes.{Bytes, bytes_lt, bytes_le}
use matrixcube.Meta.{Peer, PeerRole, ResourceEpoch, Shard}

unfoldable pub is_epoch_stale : ResourceEpoch → ResourceEpoch → Bool
is_epoch_stale epoch check_epoch =
    ltb epoch.version check_epoch.version || ltb epoch.conf_ver check_epoch.conf_ver

abbrev pub in_store : ℕ → Peer → Bool
in_store store_id peer = peer.container_id == store_id

-- The peer that `findPeer` points at; a write through the pointer is `set_role`.
unfoldable pub find_peer : List Peer → ℕ → Option Peer
find_peer peers store_id = find_first (in_store store_id) peers

unfoldable pub set_role : List Peer → ℕ → PeerRole → List Peer
set_role [] store_id role = []
set_role (peer ∷ rest) store_id role =
    let others = set_role rest store_id role in
    if in_store store_id peer then record peer { role = role } ∷ rest else peer ∷ others

-- the loop of `removePeer`: the last peer that was taken out, and the peers that are left
unfoldable pub last_removed : List Peer → ℕ → Option Peer → Option Peer
last_removed [] store_id removed = removed
last_removed (peer ∷ rest) store_id removed =
    last_removed rest store_id (if in_store store_id peer then some peer else removed)

unfoldable pub remove_peer : List Peer → ℕ → Option Peer × List Peer
remove_peer peers store_id =
    (last_removed peers store_id none, keep (λ p. not (in_store store_id p)) peers)

unfoldable pub has_peer : List Peer → ℕ → Bool
has_peer [] id = false
has_peer (p ∷ rest) id = if p.id == id then true else has_peer rest id

-- `removedPeers(new, old)`: the ids of the old peers that no new peer has
unfoldable pub removed_peers : List Peer → List Peer → List ℕ
removed_peers new [] = []
removed_peers new (o ∷ rest) =
    let ids = removed_peers new rest in if has_peer new o.id then ids else o.id ∷ ids

-- `checkKeyInShard` returns no error
unfoldable pub key_in_shard : Bytes → Shard → Bool
key_in_shard key shard =
    not (bytes_lt key shard.start) && (length shard.end == 0 || bytes_lt key shard.end)

pub data ConfChangeKind : Type 0 where
  simple_kind enter_joint_kind leave_joint_kind : ConfChangeKind

unfoldable pub get_conf_change_kind : ℕ → ConfChangeKind
get_conf_change_kind change_num =
    if change_num == 0
    then leave_joint_kind
    else if change_num == 1
    then simple_kind
    else enter_joint_kind

pub data AdminCmdType : Type 0 where
  change_peer change_peer_v2 batch_split compact_log transfer_leader : AdminCmdType
  other_admin : ℕ → AdminCmdType

-- the fields of the header that `checkEpoch` reads
pub record Header : Type 0 where
  pub id : Bytes
  pub epoch : ResourceEpoch
  pub ignore_epoch_check : Bool

abbrev pub checks_version : Option AdminCmdType → Bool
checks_version none = true
checks_version (some batch_split) = true
checks_version (some transfer_leader) = true
checks_version (some _) = false

abbrev pub checks_conf_ver : Option AdminCmdType → Bool
checks_conf_ver (some change_peer) = true
checks_conf_ver (some transfer_leader) = true
checks_conf_ver _ = false

-- the part of `checkEpoch` behind the test on the header
abbrev pub header_fresh : Bool → Bool → ResourceEpoch → Header → Bool
header_fresh check_conf_ver check_ver lastest header = not (
    check_conf_ver && ltb header.epoch.conf_ver lastest.conf_ver
    || (if header.ignore_epoch_check then false else check_ver)
      && ltb header.epoch.version lastest.version)

unfoldable pub check_epoch : Shard → Option AdminCmdType → Option Header → Bool
check_epoch shard admin header =
    if not (checks_conf_ver admin) && not (checks_version admin) then true else elim header [
      | none ↦ false
      | some h ↦ header_fresh (checks_conf_ver admin) (checks_version admin) shard.epoch h
    ]
