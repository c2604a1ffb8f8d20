-- ===== src/Raft/Apply/Order.antt =====
-- The order in which entries are applied, and what is on the disk behind each.
use matrixcube.Prelude.{
  Option-cases, ℕ, zero, suc, ◌+◌, ◌≤◌, ◌<◌, ◌≡◌, refl, sym, ap, ◌∙◌, true, Option, none, some,
  List, [], ◌∷◌, ◌++◌, map, arith, length, take, Bool-cases, inl, inr, ◌⊎◌,
}
use matrixcube.Prelude.Words.{word, add64}
use matrixcube.Raft.Delegate.{
  ApplyState, Cmd, Delegate, Write, peer_state, initial_state, apply_state_of, Context, AdminResult,
}
use matrixcube.Raft.Pending.{Notice, find_cb}
use matrixcube.Raft.Requests.{
  Env, Entry, EntryData, no_data, command, conf_change, RaftCmdRequest, admin_type,
}
use matrixcube.Raft.Apply.{
  Replica, Executed, executed, crashed, execute, commit, do_apply_raft_cmd, context_of, apply_empty,
  finish_empty, finish_command, finish_conf_change, conf_change_result, apply_one,
  apply_committed_entries,
}
use matrixcube.Raft.Apply.Frame.{ExecutedFrame, execute_frame}

-- the apply state that was written last
abbrev pub last_saved : List Write → Option ApplyState → Option ApplyState
last_saved [] s = s
last_saved (apply_state_of i s' ∷ ws) s = last_saved ws (some s')
last_saved (peer_state x y ∷ ws) s = last_saved ws s
last_saved (initial_state i ∷ ws) s = last_saved ws s

last_saved-append :
    (ws : List Write) (i : ℕ) (x : ApplyState) (s : Option ApplyState)
    → last_saved (ws ++ apply_state_of i x ∷ []) s ≡ some x
last_saved-append [] i x s = refl
last_saved-append (apply_state_of j y ∷ ws) i x s = last_saved-append ws i x (some y)
last_saved-append (peer_state y z ∷ ws) i x s = last_saved-append ws i x s
last_saved-append (initial_state j ∷ ws) i x s = last_saved-append ws i x s

append_assoc : (a b c : List Write) → a ++ (b ++ c) ≡ (a ++ b) ++ c
append_assoc [] b c = refl
append_assoc (x ∷ a) b c = ap (λ (l : List Write). x ∷ l) (append_assoc a b c)

-- What an entry leaves: the index of the entry is applied, and, unless the delegate is to be
-- removed, its apply state is the one that was written last.
pub record IsApplied (index : ℕ) (r : Replica) : Type 0 where
  pub at_index : r.delegate.apply_state.applied_index ≡ index
  pub is_saved :
      (r.delegate.pending_remove ≡ true)
      ⊎ (last_saved r.metadata none ≡ some r.delegate.apply_state)

commit-IsApplied :
    (r r' : Replica) (cb : Option Cmd) (notices : List Notice) (e : Executed)
    (x : Option AdminResult) (d : Delegate) (ctx : Context)
    → ExecutedFrame d ctx e
    → commit r cb notices e ≡ some (r', x)
    → IsApplied ctx.index r'
commit-IsApplied r r' cb notices crashed x d ctx f h = cc
commit-IsApplied r r' cb notices (executed d' ctx' reply result) x d ctx f h =
    elim (Bool-cases d'.pending_remove) [
      | inl removed ↦ record {
        at_index = ground (arith, f.same_index);
        is_saved = inl (ground arith);
      }
      | inr kept ↦
          let state = record (ctx'.apply_state) { applied_index = ctx'.index } in
          let e : r'.metadata
              ≡ r.metadata ++ (ctx'.raft_wb ++ apply_state_of d'.shard.id state ∷ []) =
            ground arith in
          let s : r'.delegate.apply_state ≡ state = ground arith in
          record {
            at_index = ground (arith, f.same_index);
            is_saved = inr (
                ap (λ (l : List Write). last_saved l none)
                  (e ∙ append_assoc r.metadata ctx'.raft_wb (apply_state_of d'.shard.id state ∷ []))
                ∙ last_saved-append (r.metadata ++ ctx'.raft_wb) d'.shard.id state none
                ∙ ap (λ (x : ApplyState). some x) (sym s));
          }
    ]

do_apply_raft_cmd-IsApplied :
    (env : Env) (r r' : Replica) (ctx : Context) (req : RaftCmdRequest) (x : Option AdminResult)
    → do_apply_raft_cmd env r ctx req ≡ some (r', x)
    → IsApplied ctx.index r'
unfolding do_apply_raft_cmd
do_apply_raft_cmd-IsApplied env r r' ctx req x h =
    let (cb, d, notices) = find_cb r.delegate ctx.term (admin_type req.admin) req.header.id in
    let c : commit r cb notices (execute env d ctx req) ≡ some (r', x) = ground arith in
    commit-IsApplied r r' cb notices (execute env d ctx req) x d ctx (execute_frame env d ctx req) c

apply_empty-IsApplied :
    (r r' : Replica) (entry : Entry) → apply_empty r entry ≡ some r' → IsApplied entry.index r'
unfolding apply_empty
apply_empty-IsApplied r r' entry h =
    let d = r.delegate in
    let state = record (d.apply_state) { applied_index = entry.index } in
    let e : r'.metadata ≡ r.metadata ++ apply_state_of d.shard.id state ∷ [] = ground arith in
    let s : r'.delegate.apply_state ≡ state = ground arith in
    record {
      at_index = ground arith;
      is_saved = inr (
          ap (λ (l : List Write). last_saved l none) e
          ∙ last_saved-append r.metadata d.shard.id state none
          ∙ ap (λ (x : ApplyState). some x) (sym s));
    }

-- Adding the asynchronous result touches neither the delegate nor the metadata.
same-IsApplied :
    (i : ℕ) (r r' : Replica)
    → r'.delegate ≡ r.delegate
    → r'.metadata ≡ r.metadata
    → IsApplied i r
    → IsApplied i r'
same-IsApplied i r r' d m a = record {
  at_index = ap (λ (x : Delegate). x.apply_state.applied_index) d ∙ a.at_index;
  is_saved = rw (d, m) a.is_saved;
}

empty-IsApplied :
    (r r' : Replica) (entry : Entry)
    → finish_empty (apply_empty r entry) ≡ some r'
    → IsApplied entry.index r'
empty-IsApplied r r' entry h = elim (Option-cases (apply_empty r entry)) [
  | inl gone ↦ absurd (ground arith)
  | inr (r₁, e) ↦
      same-IsApplied entry.index r₁ r' (ground arith) (ground arith)
        (apply_empty-IsApplied r r₁ entry e)
]

command-IsApplied :
    (i : ℕ) (o : Option (Replica × Option AdminResult)) (r' : Replica)
    → ((r : Replica) (x : Option AdminResult) → o ≡ some (r, x) → IsApplied i r)
    → finish_command o ≡ some r'
    → IsApplied i r'
command-IsApplied i none r' f h = cc
command-IsApplied i (some (r, x)) r' f h =
    same-IsApplied i r r' (ground arith) (ground arith) (f r x refl)

conf_change-IsApplied :
    (i : ℕ) (o : Option (Replica × Option AdminResult)) (r' : Replica)
    → ((r : Replica) (x : Option AdminResult) → o ≡ some (r, x) → IsApplied i r)
    → finish_conf_change o ≡ some r'
    → IsApplied i r'
conf_change-IsApplied i none r' f h = cc
conf_change-IsApplied i (some (r, x)) r' f h = elim (Option-cases (conf_change_result x)) [
  | inl gone ↦ absurd (ground arith)
  | inr (y, e) ↦ same-IsApplied i r r' (ground arith) (ground arith) (f r x refl)
]

apply_data-IsApplied :
    (env : Env) (r r' : Replica) (entry : Entry) (data_of : EntryData)
    → apply_one env r (record entry { data_of = data_of }) ≡ some r'
    → IsApplied entry.index r'
unfolding apply_one
apply_data-IsApplied env r r' entry no_data h =
    empty-IsApplied r r' (record entry { data_of = no_data }) h
apply_data-IsApplied env r r' entry (command req) h =
    command-IsApplied entry.index _ r'
      (λ r₁ x e. do_apply_raft_cmd-IsApplied env r r₁ (context_of r.delegate entry) req x e) h
apply_data-IsApplied env r r' entry (conf_change req) h =
    conf_change-IsApplied entry.index _ r'
      (λ r₁ x e. do_apply_raft_cmd-IsApplied env r r₁ (context_of r.delegate entry) req x e) h

-- An entry that is applied, of whatever kind, moves the applied index to its own. Unless the
-- delegate is to be removed then, its apply state is the one that was written to the disk last.
pub apply_one-IsApplied :
    (env : Env) (r r' : Replica) (entry : Entry)
    → apply_one env r entry ≡ some r'
    → IsApplied entry.index r'
apply_one-IsApplied env r r' entry h = apply_data-IsApplied env r r' entry entry.data_of h

-- the numbers from `n` on, `k` of them
abbrev pub count_up : ℕ → ℕ → List ℕ
count_up n zero = []
count_up n (suc k) = n ∷ count_up (suc n) k

-- What a run over entries has done: it has applied the first `n` of them, whose indices follow on
-- the applied index without a gap, and it has left entries only to a delegate to be removed.
pub record IsRun (a : ℕ) (entries : List Entry) (r : Replica) : Type 0 where
  pub n : ℕ
  pub within : n ≤ length entries
  pub consecutive : map (λ (e : Entry). e.index) (take n entries) ≡ count_up (suc a) n
  pub reached : r.delegate.apply_state.applied_index ≡ a + n
  pub complete : (n ≡ length entries) ⊎ (r.delegate.pending_remove ≡ true)

abbrev one_more :
    {a : ℕ} {e : Entry} {entries : List Entry} {r : Replica}
    → e.index ≡ suc a
    → IsRun (suc a) entries r
    → IsRun a (e ∷ entries) r
one_more {a} {e} {entries} {r} i run = record {
  n = suc run.n;
  within = omega (arith, run.within);
  consecutive = rw i (ap (λ (l : List ℕ). suc a ∷ l) run.consecutive);
  reached = omega (arith, run.reached);
  complete = elim run.complete [ inl whole ↦ inl (omega arith) | inr removed ↦ inr removed ];
}

-- Committed entries, where the index stays below 2 ^ 64: if the process does not end, the entries
-- that were applied are the first ones of the list, their indices continue the applied index one
-- by one, and the applied index has grown by their number. All entries are applied, unless the
-- delegate is to be removed at the end.
pub apply_committed_entries-IsRun :
    (env : Env) (r r' : Replica) (entries : List Entry)
    → r.delegate.apply_state.applied_index + length entries < word
    → apply_committed_entries env r entries ≡ some r'
    → IsRun r.delegate.apply_state.applied_index entries r'
unfolding apply_committed_entries
apply_committed_entries-IsRun env r r' [] b h =
    let e : r'.delegate.apply_state.applied_index ≡ r.delegate.apply_state.applied_index =
      ground arith in
    record {
      n = 0;
      within = omega arith;
      consecutive = refl;
      reached = omega arith;
      complete = inl refl;
    }
apply_committed_entries-IsRun env r r' (e ∷ rest) b h =
    elim (Bool-cases r.delegate.pending_remove) [
      | inl removed ↦
          let s : r ≡ r' = ground arith in
          let k : r'.delegate.apply_state.applied_index ≡ r.delegate.apply_state.applied_index =
            ground arith in
          record {
            n = 0;
            within = omega arith;
            consecutive = refl;
            reached = omega arith;
            complete = inr (ground arith);
          }
      | inr kept ↦
          let i : e.index ≡ add64 r.delegate.apply_state.applied_index 1 = ground arith in
          elim (Option-cases (apply_one env r e)) [
            | inl gone ↦ absurd (ground arith)
            | inr (r₁, s) ↦
                let t : apply_committed_entries env r₁ rest ≡ some r' = ground arith in
                let a = apply_one-IsApplied env r r₁ e s in
                let j : e.index ≡ suc r.delegate.apply_state.applied_index =
                  i ∙ unfold add64 in omega arith in
                one_more j (
                  rw (← j, ← a.at_index)
                    (apply_committed_entries-IsRun env r₁ r' rest (omega (arith, a.at_index)) t))
          ]
    ]
