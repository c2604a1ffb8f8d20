-- ===== src/Storage/Mem/Laws.antt =====
-- The storage as a map from keys to values with a deadline, where 0 is no deadline.
use matrixcube.Prelude.{
  ℕ, ◌+◌, ◌<◌, ◌≡◌, refl, sym, ◌∙◌, Bool, true, false, not, ◌&&◌, Option, none, some, List, [], ◌∷◌,
  ◌++◌, ◌==◌, if◌then◌else◌, length, arith, Bool-cases, inl, inr,
}
use matrixcube.Prelude.Bytes.{Bytes, bytes_eq}
use matrixcube.Prelude.Words.{word, add64, add64-lt, lt64}
use matrixcube.Prelude.BigEndian.{put_uint64, put_bytes}
use matrixcube.Storage.Wire.{Wire}
use matrixcube.Storage.BTree.{BTree}
use matrixcube.Storage.Keys.Laws.{uint64-put_bytes}
use matrixcube.Storage.Kv
use matrixcube.Storage.Kv.Laws.{in_range, get-find, find-range_delete}
use matrixcube.Storage.Mem.{
  Storage, is_positive, encode_value, decode_value, count_written, set_with_ttl, set, get, delete,
  range_delete,
}

abbrev pub Entry : Type 0
Entry = Bytes × ℕ

abbrev pub Entries : Type 0
Entries = Bytes → Option Entry

abbrev pub update : Entries → Bytes → Option Entry → Entries
update f key e k = if bytes_eq key k then e else f k

-- the second from which an entry is gone
abbrev pub deadline : ℕ → ℕ → ℕ
deadline now ttl = if is_positive ttl then add64 now ttl else 0

-- what can be read of an entry
abbrev pub readable : ℕ → Option Entry → Option Bytes
readable now none = none
readable now (some (value, at)) = if not (at == 0) && lt64 at now then none else some value

abbrev pub IsBounded : Option Entry → Type 0
IsBounded none = Unit
IsBounded (some (value, at)) = at < word

abbrev pub member : Bytes → List Bytes → Bool
member k [] = false
member k (key ∷ keys) = if bytes_eq key k then true else member k keys

pub deadline-lt : (now ttl : ℕ) → deadline now ttl < word
deadline-lt now ttl = elim (Bool-cases (is_positive ttl)) [
  | inl p ↦ rw p (add64-lt now ttl)
  | inr n ↦ rw n (omega arith)
]

module _ (w : Wire) where
  abbrev pub encoded : Option Entry → Option Bytes
  encoded none = none
  encoded (some (value, at)) = some (encode_value w value at)

  encoded-if :
      (b : Bool) (e f : Option Entry)
      → encoded (if b then e else f) ≡ (if b then encoded e else encoded f)
  encoded-if true e f = refl
  encoded-if false e f = refl

  -- What was encoded is decoded, until its deadline is over.
  pub decode_value-encode_value :
      (now : ℕ) (value : Bytes) (at : ℕ)
      → at < word
      → decode_value w now (some (encode_value w value at)) ≡ readable now (some (value, at))
  unfolding decode_value encode_value put_bytes
  decode_value-encode_value now value at h = rw (w.int64_to_bytes_lem at) (
      rw (w.byte2int64_lem (put_uint64 at ++ value)) (
        rw (uint64-put_bytes at value h) (
          let full : (length (put_uint64 at ++ value) == 0) ≡ false = ground arith in
          rw full refl)))

  pub decode_value-encoded :
      (now : ℕ) (e : Option Entry) → IsBounded e → decode_value w now (encoded e) ≡ readable now e
  unfolding decode_value
  decode_value-encoded now none b = refl
  decode_value-encoded now (some (value, at)) b = decode_value-encode_value now value at b

  module _ {T : Type 0} (tree : BTree T) where
    -- The tree holds the entries, encoded.
    pub record Holds (kv : T) (f : Entries) : Type 0 where
      pub stored : (k : Bytes) → tree.find kv k ≡ encoded (f k)
      pub bounded : (k : Bytes) → IsBounded (f k)

    pub new-Holds : Holds tree.new (λ k. none)
    new-Holds = record { stored = λ k. tree.find-new k; bounded = λ k. tt }

    -- A key that is read gives what can be read of its entry.
    pub get_lem :
        (now : ℕ) (s : Storage T) (f : Entries) (k : Bytes)
        → Holds s.kv f
        → get w tree now s k ≡ readable now (f k)
    unfolding get decode_value
    get_lem now s f k h =
        rw (get-find tree s.kv k) (rw (h.stored k) (decode_value-encoded now (f k) (h.bounded k)))

    IsBounded-update :
        (f : Entries) (key k : Bytes) (e : Option Entry)
        → IsBounded e
        → IsBounded (f k)
        → IsBounded (update f key e k)
    IsBounded-update f key k e b c = elim (Bool-cases (bytes_eq key k)) [
      | inl t ↦ rw t b
      | inr n ↦ rw n c
    ]

    put-Holds :
        (kv : T) (f : Entries) (key value : Bytes) (at : ℕ)
        → at < word
        → Holds kv f
        → Holds (Kv.put tree kv key (encode_value w value at)) (update f key (some (value, at)))
    unfolding Kv.put
    put-Holds kv f key value at b h = record {
      stored = λ k.
          tree.find-insert kv (record { key = key; value = encode_value w value at }) k
          ∙ rw (h.stored k) (sym (encoded-if (bytes_eq key k) (some (value, at)) (f k)));
      bounded = λ k. IsBounded-update f key k (some (value, at)) b (h.bounded k);
    }

    pub delete-Holds :
        (kv : T) (f : Entries) (key : Bytes)
        → Holds kv f
        → Holds ((Kv.delete tree kv key).0) (update f key none)
    unfolding Kv.delete
    delete-Holds kv f key h = record {
      stored = λ k.
          tree.find-delete kv key k
          ∙ rw (h.stored k) (sym (encoded-if (bytes_eq key k) none (f k)));
      bounded = λ k. IsBounded-update f key k none tt (h.bounded k);
    }

    -- a write with a time to live stores the deadline
    pub set_with_ttl-Holds :
        (now : ℕ) (s : Storage T) (f : Entries) (key value : Bytes) (ttl : ℕ)
        → Holds s.kv f
        → Holds
            (set_with_ttl w tree now s key value ttl).kv
            (update f key (some (value, deadline now ttl)))
    unfolding set_with_ttl
    set_with_ttl-Holds now s f key value ttl h =
        put-Holds s.kv f key value (deadline now ttl) (deadline-lt now ttl) h

    pub set-Holds :
        (now : ℕ) (s : Storage T) (f : Entries) (key value : Bytes)
        → Holds s.kv f
        → Holds (set w tree now s key value).kv (update f key (some (value, 0)))
    unfolding set
    set-Holds now s f key value h =
        set_with_ttl-Holds now (count_written w tree s 1 (length value + length key)) f key value 0
          h

    pub storage_delete-Holds :
        (s : Storage T) (f : Entries) (key : Bytes)
        → Holds s.kv f
        → Holds (delete w tree s key).kv (update f key none)
    unfolding delete
    storage_delete-Holds s f key h = delete-Holds s.kv f key h

    IsBounded-range :
        (b : Bool) (e : Option Entry) → IsBounded e → IsBounded (if b then none else e)
    IsBounded-range true e h = tt
    IsBounded-range false e h = h

    -- a range is removed, and nothing else
    pub range_delete-Holds :
        (s : Storage T) (f : Entries) (start end : Bytes)
        → Holds s.kv f
        → Holds
            (range_delete w tree s start end).kv
            (λ k. if in_range start end k then none else f k)
    unfolding range_delete
    range_delete-Holds s f start end h = record {
      stored = λ k.
          find-range_delete tree s.kv start end k
          ∙ rw (h.stored k) (sym (encoded-if (in_range start end k) none (f k)));
      bounded = λ k. IsBounded-range (in_range start end k) (f k) (h.bounded k);
    }
