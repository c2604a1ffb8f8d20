-- ===== src/Meta.antt =====
-- The data that all parts share: components/prophet/pb/metapb and pb/bhmetapb (protobuf messages
-- as records, their enums as data types), and the helpers of
-- components/prophet/metadata/metadata.go. An enum value that the protocol does not name is
-- `unknown`.
pub mod Laws
use matrixcube.Prelude.{
  ℕ, Bool, true, false, ◌||◌, Option, none, some, List, [], ◌∷◌, String, ◌==◌, suc, if◌then◌else◌,
  count_if,
}
use matrixcube.Prelude.Bytes.{Bytes}

pub data PeerRole : Type 0 where
  voter learner incoming_voter demoting_voter : PeerRole
  unknown : ℕ → PeerRole

pub record Peer : Type 0 where
  pub id : ℕ
  pub container_id : ℕ
  pub role : PeerRole

-- `metapb.Peer{}`
abbrev pub zero_peer : Peer
zero_peer = record { id = 0; container_id = 0; role = voter }

pub record ResourceEpoch : Type 0 where
  pub conf_ver : ℕ
  pub version : ℕ

pub data ChangePeerType : Type 0 where
  add_node remove_node update_node add_learner_node scale_peer : ChangePeerType

-- rpcpb.ChangePeer and raftcmdpb.ChangePeerRequest
pub record ChangePeerRequest : Type 0 where
  pub change_type : ChangePeerType
  pub peer : Peer

pub record Shard : Type 0 where
  pub id : ℕ
  pub start : Bytes
  pub end : Bytes
  pub epoch : ResourceEpoch
  pub state : ℕ
  pub peers : List Peer
  pub disable_split : Bool
  pub group : ℕ
  pub unique : String
  pub rule_groups : List String
  pub payload : Bytes

abbrev pub role_is_voter : PeerRole → Bool
role_is_voter voter = true
role_is_voter _ = false

abbrev pub role_is_learner : PeerRole → Bool
role_is_learner learner = true
role_is_learner _ = false

abbrev pub role_is_incoming : PeerRole → Bool
role_is_incoming incoming_voter = true
role_is_incoming _ = false

abbrev pub role_is_demoting : PeerRole → Bool
role_is_demoting demoting_voter = true
role_is_demoting _ = false

abbrev pub is_learner : Peer → Bool
is_learner peer = role_is_learner peer.role

abbrev pub is_voter_or_incoming_voter : Peer → Bool
is_voter_or_incoming_voter peer = role_is_incoming peer.role || role_is_voter peer.role

abbrev pub is_learner_or_demoting_voter : Peer → Bool
is_learner_or_demoting_voter peer = role_is_demoting peer.role || role_is_learner peer.role

-- the case of the `switch` that both loops below share
abbrev pub in_joint : Peer → Bool
in_joint peer = role_is_incoming peer.role || role_is_demoting peer.role

unfoldable pub is_in_joint_state : List Peer → Bool
is_in_joint_state [] = false
is_in_joint_state (peer ∷ rest) = if in_joint peer then true else is_in_joint_state rest

unfoldable pub count_in_joint_state : List Peer → ℕ
count_in_joint_state [] = 0
count_in_joint_state (peer ∷ rest) =
    let more = count_in_joint_state rest in if in_joint peer then suc more else more
