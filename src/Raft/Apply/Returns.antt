-- ===== src/Raft/Apply/Returns.antt =====
-- Entries whose application always ends well.
use matrixcube.Prelude.{
  ◌%◌, ℕ, suc, ◌+◌, ◌<◌, ◌≡◌, ◌≢◌, refl, ◌∙◌, true, false, Option, none, some, List, [], ◌∷◌, map,
  arith, All, length, ◌==◌, Bool-cases, inl, inr,
}
use matrixcube.Prelude.Words.{word, add64}
use matrixcube.Raft.Shards.{check_epoch}
use matrixcube.Raft.Requests.{
  Env, Entry, EntryData, no_result, no_data, command, conf_change, RaftCmdRequest, admin_type,
}
use matrixcube.Raft.Apply.{
  Replica, context_of, apply_empty, apply_one, apply_committed_entries, add_apply_result,
}
use matrixcube.Raft.Apply.Order.{count_up}
use matrixcube.Raft.Apply.Epoch.{AllHandled, do_apply_raft_cmd-stale, do_apply_raft_cmd-write}

-- An empty entry has a term, and a command is a write, with a handler and a data key for each request.
abbrev pub PlainData : Env → ℕ → EntryData → Type 0
PlainData env term no_data = term ≢ 0
PlainData env term (command req) = (req.admin ≡ none) × AllHandled env req.requests
PlainData env term (conf_change req) = ⊥

-- the replica goes on behind the entry with the index
record GoesOn (o : Option Replica) (index : ℕ) : Type 0 where
  next : Replica
  returned : o ≡ some next
  not_removed : next.delegate.pending_remove ≡ false
  at_index : next.delegate.apply_state.applied_index ≡ index

command-GoesOn :
    (env : Env) (r : Replica) (e : Entry) (req : RaftCmdRequest)
    → r.delegate.pending_remove ≡ false
    → e.index ≢ 0
    → PlainData env e.term (command req)
    → GoesOn (apply_one env r (record e { data_of = command req })) e.index
unfolding apply_one
command-GoesOn env r e req p i (w, h) =
    elim (Bool-cases (check_epoch (r.delegate.shard) none (some req.header))) [
      | inl fresh ↦
          let (r', rs, l, k, a) =
            do_apply_raft_cmd-write env r (context_of r.delegate e) req i p w fresh h in
          record {
            next = add_apply_result r' no_result;
            returned = rw k refl;
            not_removed = a.not_removed;
            at_index = a.at_index;
          }
      | inr stale ↦
          let s : check_epoch (r.delegate.shard) (admin_type req.admin) (some req.header) ≡ false =
            rw w stale in
          let (r', term, k, a) =
            do_apply_raft_cmd-stale env r (context_of r.delegate e) req i p s in
          record {
            next = add_apply_result r' no_result;
            returned = rw k refl;
            not_removed = a.not_removed;
            at_index = a.at_index;
          }
    ]

data-GoesOn :
    (env : Env) (r : Replica) (e : Entry) (data_of : EntryData)
    → r.delegate.pending_remove ≡ false
    → e.index ≢ 0
    → PlainData env e.term data_of
    → GoesOn (apply_one env r (record e { data_of = data_of })) e.index
unfolding apply_one apply_empty
data-GoesOn env r e no_data p i h =
    let z : (e.term == 0) ≡ false = ground arith in
    rw z (record { next = _; returned = refl; not_removed = p; at_index = refl })
data-GoesOn env r e (command req) p i h = command-GoesOn env r e req p i h
data-GoesOn env r e (conf_change req) p i h = absurd h

next_index : (a i : ℕ) → i ≡ suc a → suc a < word → (add64 a 1 == i) ≡ true
unfolding add64
next_index a i e h = let m : (a + 1) % word ≡ i = omega arith in ground (arith, m)

apply_committed_entries-step :
    (env : Env) (r r₁ : Replica) (e : Entry) (rest : List Entry)
    → r.delegate.pending_remove ≡ false
    → (add64 r.delegate.apply_state.applied_index 1 == e.index) ≡ true
    → apply_one env r e ≡ some r₁
    → apply_committed_entries env r (e ∷ rest) ≡ apply_committed_entries env r₁ rest
unfolding apply_committed_entries
apply_committed_entries-step env r r₁ e rest p t s = rw (s, t, p) refl

-- Empty entries with a term, and write commands whose requests all have a handler and a key with the
-- prefix of data keys, in any order, whose indices continue the applied index below 2 ^ 64: a delegate that is
-- not to be removed applies all of them, stale or not, and the process goes on.
pub apply_committed_entries-returns :
    (env : Env) (r : Replica) (entries : List Entry)
    → r.delegate.pending_remove ≡ false
    → r.delegate.apply_state.applied_index + length entries < word
    → map (λ (e : Entry). e.index) entries
      ≡ count_up (suc r.delegate.apply_state.applied_index) (length entries)
    → All (λ (e : Entry). PlainData env e.term e.data_of) entries
    → (r' : Replica) × (apply_committed_entries env r entries ≡ some r')
      × (r'.delegate.apply_state.applied_index
          ≡ r.delegate.apply_state.applied_index + length entries)
unfolding apply_committed_entries
apply_committed_entries-returns env r [] p b c h = (r, refl, omega arith)
apply_committed_entries-returns env r (e ∷ rest) p b c h =
    let a = r.delegate.apply_state.applied_index in
    let i : e.index ≡ suc a = ground (arith, c) in
    let cs : map (λ (e : Entry). e.index) rest ≡ count_up (suc (suc a)) (length rest) =
      ground (arith, c) in
    let g = data-GoesOn env r e e.data_of p (omega (arith, i)) h.0 in
    let t = next_index a e.index i (omega arith) in
    let s : apply_one env r e ≡ some g.next = g.returned in
    let (r', k, n) =
      apply_committed_entries-returns env g.next rest g.not_removed (omega (arith, g.at_index, i))
        (rw (g.at_index, i) cs) h.1 in
    (
      r',
      apply_committed_entries-step env r g.next e rest p t s ∙ k,
      omega (arith, n, g.at_index, i),
    )
