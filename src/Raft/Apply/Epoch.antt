-- ===== src/Raft/Apply/Epoch.antt =====
-- Commands that are refused for their epoch, writes that are answered, and delegates that go.
use matrixcube.Prelude.{
  suc, ℕ, ◌≡◌, ◌≢◌, refl, ap, ◌∙◌, Bool, true, false, not, Option, none, some, Option-cases, List,
  [], ◌∷◌, ◌++◌, arith, All, length, ◌==◌, Bool-cases, inl, inr, ◌⊎◌,
}
use matrixcube.Prelude.Bytes.{Bytes}
use matrixcube.Meta.{Shard}
use matrixcube.Raft.Shards.{AdminCmdType, check_epoch}
use matrixcube.Storage.Keys.{decode_data_key}
use matrixcube.Raft.Delegate.{Delegate, Context}
use matrixcube.Raft.Pending.{
  Response, Reply, stale_epoch, write_reply, all_cmds, find_cb, is_change_peer_cmd, destroy,
}
use matrixcube.Raft.Requests.{Env, Entry, RaftCmdRequest, WriteRequest, AdminRequest, admin_type}
use matrixcube.Raft.Apply.{
  finish_response, Replica, executed, execute, execute_fresh, respond, exec_write_request,
  do_apply_raft_cmd, apply_committed_entries, destroy_removed, do_apply_committed_entries,
}

find_cb_same :
    (d : Delegate) (term : ℕ) (admin : Option AdminCmdType) (id : Bytes)
    → ((find_cb d term admin id).1.shard ≡ d.shard)
      × ((find_cb d term admin id).1.pending_remove ≡ d.pending_remove)
unfolding find_cb
find_cb_same d term admin id = elim (Bool-cases (is_change_peer_cmd admin)) [
  | inl change ↦ rw change (refl, refl)
  | inr other ↦ rw other (refl, refl)
]

-- What is left of a replica by a command that changes nothing but the queue: the shard stays, the
-- index of the entry is applied, and the command that `findCB` has found is answered by `reply`.
pub record IsAnswered (r : Replica) (ctx : Context) (req : RaftCmdRequest) (reply : Reply)
    (r' : Replica) : Type 0 where
  pub same_shard : r'.delegate.shard ≡ r.delegate.shard
  pub not_removed : r'.delegate.pending_remove ≡ false
  pub at_index : r'.delegate.apply_state.applied_index ≡ ctx.index
  pub told :
      let f = find_cb r.delegate ctx.term (admin_type req.admin) req.header.id in
      r'.notices ≡ r.notices ++ f.2 ++ respond ctx.term f.0 (some reply)

IsAnswered-by :
    (env : Env) (r : Replica) (ctx : Context) (req : RaftCmdRequest) (reply : Reply)
    → ctx.index ≢ 0
    → r.delegate.pending_remove ≡ false
    → (let d = (find_cb r.delegate ctx.term (admin_type req.admin) req.header.id).1 in
        execute env d ctx req ≡ executed d ctx (some reply) none)
    → (r' : Replica) × (do_apply_raft_cmd env r ctx req ≡ some (r', none))
      × IsAnswered r ctx req reply r'
unfolding do_apply_raft_cmd
IsAnswered-by env r ctx req reply i p e =
    let f = find_cb r.delegate ctx.term (admin_type req.admin) req.header.id in
    let s = find_cb_same r.delegate ctx.term (admin_type req.admin) req.header.id in
    let z : (ctx.index == 0) ≡ false = ground arith in
    let q : f.1.pending_remove ≡ false = s.1 ∙ p in
    rw (z, q, e)
      (_, refl, record { same_shard = s.0; not_removed = q; at_index = refl; told = refl })

pub do_apply_raft_cmd-stale :
    (env : Env) (r : Replica) (ctx : Context) (req : RaftCmdRequest)
    → ctx.index ≢ 0
    → r.delegate.pending_remove ≡ false
    → check_epoch (r.delegate.shard) (admin_type req.admin) (some req.header) ≡ false
    → (r' : Replica) × (term : ℕ) × (do_apply_raft_cmd env r ctx req ≡ some (r', none))
      × IsAnswered r ctx req (stale_epoch term (r.delegate.shard)) r'
do_apply_raft_cmd-stale env r ctx req i p c =
    let f = find_cb r.delegate ctx.term (admin_type req.admin) req.header.id in
    let s = find_cb_same r.delegate ctx.term (admin_type req.admin) req.header.id in
    let (r', e, a) =
      IsAnswered-by env r ctx req (stale_epoch f.1.term (r.delegate.shard)) i p
        (rw (s.0, c) refl) in
    (r', f.1.term, e, a)

-- every request has a handler for its type, and a key with the prefix of data keys
abbrev pub AllHandled : Env → List WriteRequest → Type 0
AllHandled env =
    All (λ (q : WriteRequest). (env.handlers q.custom_type ≢ none) × (decode_data_key q.key ≢ none))

finished :
    (q : WriteRequest) (rsp : Response)
    → decode_data_key q.key ≢ none
    → (r : Response) × (finish_response q rsp ≡ some r)
finished q rsp h = elim (Option-cases (decode_data_key q.key)) [
  | inl short ↦ absurd (h short)
  | inr (key, e) ↦ elim (Bool-cases rsp.stale) [
    | inl stale ↦ (record rsp { stale_error = true; origin_key = some key }, rw (stale, e) refl)
    | inr fresh ↦ (rsp, rw fresh refl)
  ]
]

-- Where every request has a handler and a data key, `execWriteRequest` returns, with one response for each
-- request, as the callback demands.
pub exec_write_request_lem :
    (env : Env) (shard : Shard) (ctx : Context) (reqs : List WriteRequest)
    → AllHandled env reqs
    → (rs : List Response) × (exec_write_request env shard ctx reqs ≡ some rs)
      × (length rs ≡ length reqs)
unfolding exec_write_request
exec_write_request_lem env shard ctx [] h = ([], refl, refl)
exec_write_request_lem env shard ctx (q ∷ rest) h =
    let (rs, e, l) = exec_write_request_lem env shard ctx rest h.1 in
    elim (Option-cases (env.handlers q.custom_type)) [
      | inl missing ↦ absurd (h.0.0 missing)
      | inr (f, found) ↦
          let (r, g) = finished q (f shard q ctx) h.0.1 in
          (r ∷ rs, rw (found, e, exec_write_request) (rw g refl), ap suc l)
    ]

pub do_apply_raft_cmd-write :
    (env : Env) (r : Replica) (ctx : Context) (req : RaftCmdRequest)
    → ctx.index ≢ 0
    → r.delegate.pending_remove ≡ false
    → req.admin ≡ none
    → check_epoch (r.delegate.shard) none (some req.header) ≡ true
    → AllHandled env req.requests
    → (r' : Replica) × (rs : List Response) × (length rs ≡ length req.requests)
      × (do_apply_raft_cmd env r ctx req ≡ some (r', none))
      × IsAnswered r ctx req (write_reply rs) r'
do_apply_raft_cmd-write env r ctx req i p w c h =
    let f = find_cb r.delegate ctx.term (admin_type req.admin) req.header.id in
    let s = find_cb_same r.delegate ctx.term (admin_type req.admin) req.header.id in
    let (rs, e, l) = exec_write_request_lem env (f.1.shard) ctx req.requests h in
    let c' : check_epoch (f.1.shard) (admin_type req.admin) (some req.header) ≡ true =
      rw (s.0, w) c in
    let (r', k, a) = IsAnswered-by env r ctx req (write_reply rs) i p (
      rw c' (
        ap (λ (o : Option AdminRequest). execute_fresh env f.1 ctx req.requests o) w
        ∙ rw e refl)) in
    (r', rs, l, k, a)

removed_or_kept :
    (o : Option Replica) (r' : Replica) (registered : Bool)
    → destroy_removed o ≡ some (r', registered)
    → (registered ≡ not r'.delegate.pending_remove)
      × ((registered ≡ true) ⊎ (all_cmds r'.delegate ≡ []))
unfolding destroy
removed_or_kept none r' registered h = cc
removed_or_kept (some r) r' registered h = elim (Bool-cases r.delegate.pending_remove) [
  | inl removed ↦ (ground arith, inr (ap (λ (d : Delegate). all_cmds d) (gone removed h)))
  | inr kept ↦ (ground arith, inl (ground arith))
]
  where
    gone :
        r.delegate.pending_remove ≡ true
        → destroy_removed (some r) ≡ some (r', registered)
        → r'.delegate ≡ (destroy r.delegate).0
    gone removed h = ground arith

-- After `doApplyCommittedEntries` a delegate is registered exactly if it is not to be removed, and
-- a delegate that is no longer registered has no command that waits.
pub do_apply_committed_entries_lem :
    (env : Env) (r r' : Replica) (term : ℕ) (entries : List Entry) (registered : Bool)
    → do_apply_committed_entries env r term entries ≡ some (r', registered)
    → (registered ≡ not r'.delegate.pending_remove)
      × ((registered ≡ true) ⊎ (all_cmds r'.delegate ≡ []))
unfolding do_apply_committed_entries
do_apply_committed_entries_lem env r r' term entries registered h =
    removed_or_kept
      (apply_committed_entries env (record r { delegate = record (r.delegate) { term = term } })
        entries)
      r' registered h
