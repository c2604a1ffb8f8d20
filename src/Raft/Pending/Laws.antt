-- ===== src/Raft/Pending/Laws.antt =====
-- What becomes of the commands that wait.
use matrixcube.Prelude.{
  ℕ, ◌≤◌, ◌<◌, ◌≡◌, refl, ap, ◌∙◌, true, false, Option, none, some, List, [], ◌∷◌, ◌++◌, map, arith,
  All, ltb, Bool-cases, inl, inr,
}
use matrixcube.Prelude.Bytes.{Bytes, bytes_eq}
use matrixcube.Raft.Shards.{AdminCmdType}
use matrixcube.Raft.Delegate.{Delegate, Cmd}
use matrixcube.Raft.Pending.{
  Notice, cmd_of, to_list, all_cmds, pop_pending_cmd, Popped, find_pending, pop_stale,
  is_change_peer_cmd, clear_all_commands_as_stale, destroy, find_cb, find_change_peer,
}

-- the terms of a queue do not go down, and start at `low` or above
abbrev pub IsOrdered : ℕ → List Cmd → Type 0
IsOrdered low [] = Unit
IsOrdered low (c ∷ rest) = (low ≤ c.term) × IsOrdered c.term rest

-- a queue taken apart by a search
pub record IsSearched (term : ℕ) (id : Bytes) (queue : List Cmd) (p : Popped) : Type 0 where
  pub conserved : p.stale ++ to_list p.found ++ p.left ≡ queue
  pub skipped : All (λ (c : Cmd). (c.term ≤ term) × (bytes_eq c.uuid id ≡ false)) p.stale
  pub matched : All (λ (c : Cmd). (c.term ≤ term) × (bytes_eq c.uuid id ≡ true)) (to_list p.found)

-- The search of `findCB` takes the queue apart: the commands that were skipped, the one that was
-- found and the ones that are left make up the queue, in order; what was skipped is not newer than
-- the entry and has another id; and what is found is not newer and has the id.
pub find_pending-IsSearched :
    (term : ℕ) (id : Bytes) (queue : List Cmd)
    → IsSearched term id queue (find_pending term id queue)
unfolding find_pending pop_pending_cmd
find_pending-IsSearched term id [] = record { conserved = refl; skipped = tt; matched = tt }
find_pending-IsSearched term id (c ∷ rest) = elim (Bool-cases (ltb term c.term)) [
  | inl newer ↦ rw (newer, find_pending) (record { conserved = refl; skipped = tt; matched = tt })
  | inr old ↦
      rw (old, find_pending)
        (elim (Bool-cases (bytes_eq c.uuid id)) [
          | inl same ↦
              rw (same, find_pending)
                (record { conserved = refl; skipped = tt; matched = ((ground arith, same), tt) })
          | inr other ↦
              let ih = find_pending-IsSearched term id rest in
              rw (other, find_pending)
                (record {
                  conserved = ap (λ (l : List Cmd). c ∷ l) ih.conserved;
                  skipped = ((ground arith, other), ih.skipped);
                  matched = ih.matched;
                })
        ])
]

IsOrdered-All :
    (term low : ℕ) (q : List Cmd)
    → term < low
    → IsOrdered low q
    → All (λ (c : Cmd). term < c.term) q
IsOrdered-All term low [] h o = tt
IsOrdered-All term low (c ∷ rest) h o =
    (omega (arith, o.0), IsOrdered-All term c.term rest (omega (arith, o.0)) o.1)

-- a queue parted at a term
pub record IsParted (term : ℕ) (queue : List Cmd) (p : Popped) : Type 0 where
  pub whole : p.stale ++ p.left ≡ queue
  pub below : All (λ (c : Cmd). c.term ≤ term) p.stale
  pub above : All (λ (c : Cmd). term < c.term) p.left

-- The loop behind an empty entry, on a queue whose terms do not go down, parts the queue: exactly
-- the commands that are not newer than `term` are popped, and the queue keeps its order.
pub pop_stale-IsParted :
    (low term : ℕ) (queue : List Cmd)
    → IsOrdered low queue
    → IsParted term queue (pop_stale term queue)
unfolding pop_stale pop_pending_cmd
pop_stale-IsParted low term [] o = record { whole = refl; below = tt; above = tt }
pop_stale-IsParted low term (c ∷ rest) o = elim (Bool-cases (ltb term c.term)) [
  | inl newer ↦
      rw (newer, pop_stale)
        (record {
          whole = refl;
          below = tt;
          above = (ground arith, IsOrdered-All term c.term rest (ground arith) o.1);
        })
  | inr old ↦
      let ih = pop_stale-IsParted c.term term rest o.1 in
      rw (old, pop_stale)
        (record {
          whole = ap (λ (l : List Cmd). c ∷ l) ih.whole;
          below = (ground arith, ih.below);
          above = ih.above;
        })
]

map-cmd_of :
    (f : Cmd → Notice)
    → ((c : Cmd) → cmd_of (f c) ≡ c)
    → (cs : List Cmd) → map cmd_of (map f cs) ≡ cs
map-cmd_of f h [] = refl
map-cmd_of f h (c ∷ cs) = rw (h c, map-cmd_of f h cs) refl

-- For a command that is no change of peers, `findCB` searches the queue: each command that it
-- takes out of the queue is either the one that it returns, or is told that it is stale.
pub find_cb-conserved :
    (d : Delegate) (term : ℕ) (admin : Option AdminCmdType) (id : Bytes)
    → is_change_peer_cmd admin ≡ false
    → let r = find_cb d term admin id in
      map cmd_of r.2 ++ to_list r.0 ++ r.1.pending_cmds ≡ d.pending_cmds
unfolding find_cb
find_cb-conserved d term admin id h =
    let p = find_pending term id d.pending_cmds in
    let s = find_pending-IsSearched term id d.pending_cmds in
    rw h (rw (map-cmd_of _ (λ c. refl) p.stale) s.conserved)

-- When the delegate is cleared or destroyed, each waiting command is told of it once, in order,
-- and none waits any longer.
pub destroy_lem :
    (d : Delegate)
    → (map cmd_of (clear_all_commands_as_stale d).1 ≡ all_cmds d)
      × (map cmd_of (destroy d).1 ≡ all_cmds d)
      × (all_cmds (clear_all_commands_as_stale d).0 ≡ [])
      × (all_cmds (destroy d).0 ≡ [])
unfolding clear_all_commands_as_stale destroy
destroy_lem d =
    (map-cmd_of _ (λ c. refl) (all_cmds d), map-cmd_of _ (λ c. refl) (all_cmds d), refl, refl)

change_peer_found :
    (term : ℕ) (id : Bytes) (o : Option Cmd) (c : Cmd)
    → (find_change_peer term id o).0 ≡ some c
    → (o ≡ some c) × (bytes_eq id c.uuid ≡ true)
change_peer_found term id none c h = cc
change_peer_found term id (some c') c h = (ground arith, ground arith)

-- A change of peers whose waiting command `findCB` returns, and which is thus answered, leaves the
-- delegate as it was, with the command still waiting: if the delegate is destroyed next, the same
-- command is told once more, behind those of the queue.
pub find_cb-change_peer :
    (d : Delegate) (term : ℕ) (admin : Option AdminCmdType) (id : Bytes) (c : Cmd)
    → is_change_peer_cmd admin ≡ true
    → (find_cb d term admin id).0 ≡ some c
    → ((find_cb d term admin id).1 ≡ d)
      × (bytes_eq id c.uuid ≡ true)
      × (map cmd_of (destroy (find_cb d term admin id).1).1 ≡ d.pending_cmds ++ c ∷ [])
unfolding find_cb
find_cb-change_peer d term admin id c h f =
    let f' : (find_change_peer d.term id d.pending_change_peer_cmd).0 ≡ some c = rw h at f in
    let (e, same) = change_peer_found d.term id d.pending_change_peer_cmd c f' in
    let k : map cmd_of (destroy d).1 ≡ d.pending_cmds ++ c ∷ [] =
      (destroy_lem d).1 ∙ ap (λ (o : Option Cmd). d.pending_cmds ++ to_list o) e in
    rw h (refl, same, k)
