-- ===== src/Raft/Tests/Returns.antt =====
-- A run over an empty entry, a write and a stale write.
use matrixcube.Prelude.{◌+◌, ◌≡◌, refl, some, List, [], ◌∷◌, arith}
use matrixcube.Storage.Keys.{decode_data_key}
use matrixcube.Raft.Requests.{Entry, command}
use matrixcube.Raft.Apply.{Replica, apply_committed_entries}
use matrixcube.Raft.Apply.Returns.{apply_committed_entries-returns}
use matrixcube.Raft.Tests.Applies.{env, replica, empty_entry, write_command}

abbrev entries : List Entry
entries =
    empty_entry
    ∷ record { index = 22; term = 4; data_of = command (write_command 2) }
    ∷ record { index = 23; term = 4; data_of = command (write_command 1) }
    ∷ []

apply_committed_entries-returns_example :
    (r' : Replica) × (apply_committed_entries env replica entries ≡ some r')
    × (r'.delegate.apply_state.applied_index ≡ replica.delegate.apply_state.applied_index + 3)
unfolding decode_data_key
apply_committed_entries-returns_example =
    apply_committed_entries-returns env replica entries refl (omega arith) refl
      (omega arith, ((refl, ((λ e. cc, λ e. cc), tt)), ((refl, ((λ e. cc, λ e. cc), tt)), tt)))
