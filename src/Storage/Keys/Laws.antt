-- ===== src/Storage/Keys/Laws.antt =====
-- Round trips and the order of the keys of raftstore/keys.go.
use matrixcube.Prelude.{
  ℕ, ◌+◌, ◌<◌, ◌≡◌, refl, ap, ◌∙◌, ◌&&◌, ◌||◌, [], ◌∷◌, ◌++◌, ltb, ◌==◌, arith, length, leb, some,
  ◌%◌, Bool-cases, inl, inr,
}
use matrixcube.Prelude.Bytes.{has_prefix, Bytes, bytes_lt, bytes_le, bytes_lt_nil}
use matrixcube.Prelude.Words.{word, add64}
use matrixcube.Prelude.BigEndian.{
  put_bytes, put_uint64, uint64, value_from, value_from-put_bytes, bytes_lt-put_bytes,
}
use matrixcube.Meta.{Shard}
use matrixcube.Storage.Wire.{Wire}
use matrixcube.Storage.Keys.{
  ok, decode_meta_key, get_meta_key, get_raft_log_key, get_id_key, get_raft_log_index,
  encode_data_key, decode_data_key, raft_log_suffix, get_data_max_key, enc_start_key, enc_end_key,
  get_data_end_key,
}

-- eight bytes with something behind them
pub uint64-put_bytes : (n : ℕ) (rest : Bytes) → n < word → uint64 (put_bytes 8 n [] ++ rest) ≡ n
unfolding uint64 put_bytes value_from
uint64-put_bytes n rest h = value_from-put_bytes 8 n [] h

pub append-put_bytes : (n : ℕ) (rest : Bytes) → put_bytes 8 n [] ++ rest ≡ put_bytes 8 n rest
unfolding put_bytes
append-put_bytes n rest = refl

module _ (w : Wire) where
  -- The key of the metadata of a shard decodes to the id, a 64-bit word, and the suffix that made it.
  pub decode_meta_key-get_meta_key :
      (shard_id suffix : ℕ)
      → shard_id < word
      → decode_meta_key (get_meta_key w shard_id suffix) ≡ ok (shard_id, suffix)
  unfolding decode_meta_key get_meta_key put_bytes has_prefix
  decode_meta_key-get_meta_key shard_id suffix h =
      rw (w.write_int64_lem shard_id)
        (ap (λ n. ok (n, suffix)) (uint64-put_bytes shard_id (suffix ∷ []) h))

  pub get_raft_log_index-get_raft_log_key :
      (shard_id log_index : ℕ)
      → log_index < word
      → get_raft_log_index (get_raft_log_key w shard_id log_index) ≡ ok log_index
  unfolding get_raft_log_index get_raft_log_key get_id_key put_bytes
  get_raft_log_index-get_raft_log_key shard_id log_index h =
      rw (w.write_int64_lem shard_id, w.write_int64_lem log_index)
        (ap (λ n. ok n) (uint64-put_bytes log_index [] h))

  -- The keys of raft logs are ordered by the shard first, then by the index of the entry.
  pub get_raft_log_key-lt :
      (s t i j : ℕ)
      → s < word
      → t < word
      → i < word
      → j < word
      → bytes_lt (get_raft_log_key w s i) (get_raft_log_key w t j)
        ≡ (ltb s t || (s == t && ltb i j))
  unfolding get_raft_log_key get_id_key bytes_lt
  get_raft_log_key-lt s t i j hs ht hi hj =
      let same : bytes_lt (put_uint64 i) (put_uint64 j) ≡ ltb i j =
        bytes_lt-put_bytes 8 i j [] [] hi hj ∙ ground arith in
      rw (w.write_int64_lem s, w.write_int64_lem t, w.write_int64_lem i, w.write_int64_lem j)
        (rw
          (
            append-put_bytes s (raft_log_suffix ∷ put_uint64 i),
            append-put_bytes t (raft_log_suffix ∷ put_uint64 j),
          )
          (bytes_lt-put_bytes 8 s t (raft_log_suffix ∷ put_uint64 i)
              (raft_log_suffix ∷ put_uint64 j) hs ht
            ∙ ap (λ b. ltb s t || (s == t && b)) same))

  pub encode_data_key-lt :
      (g h : ℕ) (a b : Bytes)
      → g < word
      → h < word
      → bytes_lt (encode_data_key w g a) (encode_data_key w h b)
        ≡ (ltb g h || (g == h && bytes_lt a b))
  unfolding encode_data_key bytes_lt
  encode_data_key-lt g h a b i j =
      rw (w.write_uint64_lem g, w.write_uint64_lem h)
        (rw (append-put_bytes g a, append-put_bytes h b) (bytes_lt-put_bytes 8 g h a b i j))

  pub decode_data_key-encode_data_key :
      (group : ℕ) (key : Bytes) → decode_data_key (encode_data_key w group key) ≡ some key
  unfolding decode_data_key encode_data_key put_bytes
  decode_data_key-encode_data_key group key = rw (w.write_uint64_lem group) (ground arith)

  encode_data_key-max :
      (g h : ℕ) (a : Bytes)
      → g < word
      → h + 1 < word
      → bytes_lt (encode_data_key w g a) (get_data_max_key w h) ≡ leb g h
  unfolding encode_data_key get_data_max_key bytes_lt add64
  encode_data_key-max g h a i j =
      let next : (h + 1) % word ≡ h + 1 = omega arith in
      rw (next, w.write_uint64_lem g, w.write_uint64_lem (h + 1))
        (rw (append-put_bytes g a)
          (bytes_lt-put_bytes 8 g (h + 1) a [] i j ∙ ground (arith, bytes_lt_nil a)))

  -- the keys from the start to the end of a range of a group
  between :
      (group g : ℕ) (start end key : Bytes)
      → g < word
      → group + 1 < word
      → (bytes_le (encode_data_key w group start) (encode_data_key w g key)
          && bytes_lt (encode_data_key w g key) (get_data_end_key w group end))
        ≡ (g == group && (bytes_le start key && (length end == 0 || bytes_lt key end)))
  unfolding get_data_end_key
  between group g start end key i j =
      let k : group < word = omega (arith, j) in
      rw (encode_data_key-lt g group key start i k) (elim (Bool-cases (length end == 0)) [
        | inl e ↦ rw (e, get_data_end_key) (rw (encode_data_key-max g group key i j) (ground arith))
        | inr e ↦
            rw (e, get_data_end_key) (rw (encode_data_key-lt g group key end i k) (ground arith))
      ])

  -- A data key is between the start and the end of a shard with peers exactly when it is of the
  -- shard's group and its key is in the shard's range, where an empty end is no limit. The group of
  -- the shard is not the highest 64-bit number.
  pub enc_start_key-enc_end_key :
      (shard : Shard) (g : ℕ) (key start end : Bytes)
      → g < word
      → shard.group + 1 < word
      → enc_start_key w shard ≡ some start
      → enc_end_key w shard ≡ some end
      → (bytes_le start (encode_data_key w g key) && bytes_lt (encode_data_key w g key) end) ≡ (
          g == shard.group
          && (bytes_le shard.start key && (length shard.end == 0 || bytes_lt key shard.end)))
  unfolding enc_start_key enc_end_key
  enc_start_key-enc_end_key shard g key start end i j p q =
      let s : encode_data_key w shard.group shard.start ≡ start = ground (arith, p) in
      let e : get_data_end_key w shard.group shard.end ≡ end = ground (arith, q) in
      rw (← s, ← e) (between shard.group g shard.start shard.end key i j)
