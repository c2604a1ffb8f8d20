-- ===== src/Raft/Pending.antt =====
-- raftstore/peer_apply.go: the commands of clients that wait for their entry, from
-- `clearAllCommandsAsStale` to `notifyShardRemoved`, and `destroy`. A call of a client's callback
-- is a `Notice`; the functions return what they call, in order.
pub mod Laws
use matrixcube.Prelude.{
  ℕ, Bool, true, false, ◌||◌, Option, none, some, List, [], ◌∷◌, ◌++◌, map, ltb, if◌then◌else◌,
}
use matrixcube.Prelude.Bytes.{Bytes, bytes_eq}
use matrixcube.Meta.{Shard}
use matrixcube.Raft.Shards.{AdminCmdType, change_peer, change_peer_v2}
use matrixcube.Raft.Delegate.{Delegate, AdminResult, Cmd}

-- What a write handler answers to one request. `stale_error` is that the error is the one of a stale
-- command, and `origin_key` the key of the origin request.
pub record Response : Type 0 where
  pub value : Bytes
  pub stale : Bool
  pub stale_error : Bool
  pub origin_key : Option Bytes

pub data Reply : Type 0 where
  stale_epoch : (term : ℕ) (shard : Shard) → Reply
  admin_reply : AdminResult → Reply
  write_reply : List Response → Reply

pub data Notice : Type 0 where
  stale_cmd : Cmd → (term : ℕ) → Notice
  shard_removed : Cmd → (shard_id : ℕ) → Notice
  answered : Cmd → Reply → Notice

abbrev pub cmd_of : Notice → Cmd
cmd_of (stale_cmd c t) = c
cmd_of (shard_removed c i) = c
cmd_of (answered c r) = c

abbrev pub to_list {ℓ} : {A : Type ℓ} → Option A → List A
to_list none = []
to_list (some x) = x ∷ []

abbrev pub all_cmds : Delegate → List Cmd
all_cmds d = d.pending_cmds ++ to_list d.pending_change_peer_cmd

abbrev pub without_cmds : Delegate → Delegate
without_cmds d = record d { pending_cmds = []; pending_change_peer_cmd = none }

unfoldable pub clear_all_commands_as_stale : Delegate → Delegate × List Notice
clear_all_commands_as_stale d = (without_cmds d, map (λ c. stale_cmd c d.term) (all_cmds d))

unfoldable pub destroy : Delegate → Delegate × List Notice
destroy d = (without_cmds d, map (λ c. shard_removed c d.shard.id) (all_cmds d))

unfoldable pub append_pending_cmd : Delegate → Cmd → Delegate
append_pending_cmd d c = record d { pending_cmds = d.pending_cmds ++ c ∷ [] }

-- `popPendingCMD`, on the queue
unfoldable pub pop_pending_cmd : ℕ → List Cmd → Option Cmd × List Cmd
pop_pending_cmd term [] = (none, [])
pop_pending_cmd term (c ∷ rest) = if ltb term c.term then (none, c ∷ rest) else (some c, rest)

-- How a loop over `popPendingCMD` ends: the command it was looking for, the commands that it has
-- popped before, and the queue that it leaves.
pub record Popped : Type 0 where
  pub found : Option Cmd
  pub stale : List Cmd
  pub left : List Cmd

abbrev pub also_stale : Cmd → Popped → Popped
also_stale c p = record p { stale = c ∷ p.stale }

abbrev pub stop_at : List Cmd → Popped
stop_at left = record { found = none; stale = []; left = left }

-- the loop of `findCB`; `rest` is the queue behind a command that was popped
unfoldable pub find_pending : ℕ → Bytes → List Cmd → Popped
find_pending term id [] = stop_at []
find_pending term id (c ∷ rest) =
    let next = find_pending term id rest in
    elim (pop_pending_cmd term (c ∷ rest)).0 [
      | none ↦ stop_at (c ∷ rest)
      | some head ↦
          if bytes_eq head.uuid id
          then record { found = some head; stale = []; left = rest }
          else also_stale head next
    ]

-- the loop with which `applyEntry` ends
unfoldable pub pop_stale : ℕ → List Cmd → Popped
pop_stale term [] = stop_at []
pop_stale term (c ∷ rest) =
    let next = pop_stale term rest in
    elim (pop_pending_cmd term (c ∷ rest)).0 [
      | none ↦ stop_at (c ∷ rest)
      | some head ↦ also_stale head next
    ]

abbrev pub is_change_peer_cmd : Option AdminCmdType → Bool
is_change_peer_cmd (some change_peer) = true
is_change_peer_cmd (some change_peer_v2) = true
is_change_peer_cmd _ = false

-- the branch of `findCB` for a change of peers: the pending command stays where it is
abbrev pub find_change_peer : ℕ → Bytes → Option Cmd → Option Cmd × List Notice
find_change_peer term id none = (none, [])
find_change_peer term id (some c) =
    if bytes_eq id c.uuid then (some c, []) else (none, stale_cmd c term ∷ [])

abbrev pub take_popped : Delegate → Popped → Option Cmd × Delegate × List Notice
take_popped d p =
    (p.found, record d { pending_cmds = p.left }, map (λ c. stale_cmd c d.term) p.stale)

unfoldable pub find_cb :
    Delegate → ℕ → Option AdminCmdType → Bytes → Option Cmd × Delegate × List Notice
find_cb d entry_term admin id =
    if is_change_peer_cmd admin
    then (let (c, notices) = find_change_peer d.term id d.pending_change_peer_cmd in
        (c, d, notices))
    else take_popped d (find_pending entry_term id d.pending_cmds)
