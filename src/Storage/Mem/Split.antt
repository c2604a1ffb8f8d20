-- ===== src/Storage/Mem/Split.antt =====
-- `SplitCheck` of storage/mem/storage.go.
use matrixcube.Prelude.{
  ℕ, ◌+◌, ◌*◌, ◌%◌, ◌≤◌, ◌<◌, ◌≡◌, refl, sym, ap, ◌∙◌, Bool, true, false, Option, none, some, List,
  [], ◌∷◌, ◌++◌, ◌==◌, if◌then◌else◌, leb, length, length-append, Bool-cases, inl, inr, arith, ◌⊎◌,
}
use matrixcube.Prelude.Bytes.{Bytes}
use matrixcube.Prelude.Words.{word, add64}
use matrixcube.Storage.Wire.{Wire}
use matrixcube.Storage.BTree.{TreeItem, BTree}
use matrixcube.Storage.Kv.{Answer, go_on, handle_all, range_items, scan}
use matrixcube.Storage.Mem.{
  Storage, decode_value, handle_live, live, SplitState, split_start, append_key, split_step,
  split_check, BatchError,
}
use matrixcube.Storage.Mem.Pieces.{sizes, steps, IsCut, steps-IsCut}
use matrixcube.Storage.Mem.Scans.{handed, shown, value_of, non_empty, handle_all-next}

more_lem : (n s : ℕ) → (n + 1) * s ≡ n * s + s
more_lem n s = omega arith

ended_lem : (s m : ℕ) → ((if leb s m then true else false) ≡ false) ⊎ (s ≤ m)
ended_lem s m = ground arith

ended_before : (b : Bool) (s m : ℕ) → b ≡ true → (b ≡ false) ⊎ (s ≤ m) → s ≤ m
ended_before b s m e (inl f) = absurd (cc (e, f))
ended_before b s m e (inr k) = k

one_more :
    (l k s sum t n : ℕ)
    → k ≡ l + 1
    → l * s + sum ≤ t
    → s ≤ sum
    → t + n < word
    → k * s + (0 + n) % word ≤ (t + n) % word
one_more l k s sum t n e h j b = omega (arith, ap (λ m. m * s) e ∙ more_lem l s)

module _ (size : ℕ) where
  step-total :
      (key value : Bytes) (st : SplitState)
      → (split_step size key value st).total ≡ (st.total + (length key + length value)) % word
  unfolding split_step add64
  step-total key value st = elim (Bool-cases st.append_split_key) [
    | inl e ↦ rw e refl
    | inr n ↦ rw n refl
  ]

  step-keys :
      (key value : Bytes) (st : SplitState)
      → (split_step size key value st).keys ≡ (st.keys + 1) % word
  unfolding split_step add64
  step-keys key value st = elim (Bool-cases st.append_split_key) [
    | inl e ↦ rw e refl
    | inr n ↦ rw n refl
  ]

  total-steps :
      (xs : List TreeItem) (st : SplitState)
      → st.total < word
      → (steps size xs st).total ≡ (st.total + sizes xs) % word
  total-steps [] st h = omega arith
  total-steps (x ∷ xs) st h =
      let e = step-total x.key x.value st in
      omega (arith, e, total-steps xs (split_step size x.key x.value st) (omega (arith, e)))

  keys-steps :
      (xs : List TreeItem) (st : SplitState)
      → st.keys < word
      → (steps size xs st).keys ≡ (st.keys + length xs) % word
  keys-steps [] st h = omega arith
  keys-steps (x ∷ xs) st h =
      let e = step-keys x.key x.value st in
      omega (arith, e, keys-steps xs (split_step size x.key x.value st) (omega (arith, e)))

  -- every piece that has ended has the size at least
  record IsSplit (st : SplitState) : Type 0 where
    pieces : length st.split_keys * size + st.sum ≤ st.total
    ended : (st.append_split_key ≡ false) ⊎ (size ≤ st.sum)

  split_step-IsSplit :
      (key value : Bytes) (st : SplitState)
      → st.total + (length key + length value) < word
      → IsSplit st
      → IsSplit (split_step size key value st)
  unfolding split_step add64
  split_step-IsSplit key value st h i = elim (Bool-cases st.append_split_key) [
    | inl e ↦
        rw (e, split_step, append_key)
          (record {
            pieces =
                one_more (length st.split_keys) (length (st.split_keys ++ (key ∷ []))) size st.sum
                  st.total (length key + length value) (length-append st.split_keys (key ∷ []))
                  i.pieces (ended_before st.append_split_key size st.sum e i.ended) h;
            ended = ended_lem size ((0 + (length key + length value)) % word);
          })
    | inr e ↦
        rw (e, split_step, append_key)
          (record {
            pieces = omega (arith, i.pieces, h);
            ended = ended_lem size ((st.sum + (length key + length value)) % word);
          })
  ]

  steps-IsSplit :
      (xs : List TreeItem) (st : SplitState)
      → st.total + sizes xs < word
      → IsSplit st
      → IsSplit (steps size xs st)
  steps-IsSplit [] st h i = i
  steps-IsSplit (x ∷ xs) st h i =
      steps-IsSplit xs (split_step size x.key x.value st)
        (omega (arith, step-total x.key x.value st))
        (split_step-IsSplit x.key x.value st (omega (arith, h)) i)

  module _ (w : Wire) (now : ℕ) where
    abbrev handler : Bytes → Bytes → SplitState → SplitState × Answer BatchError
    handler key value st = (split_step size key value st, go_on)

    steps_shown :
        (key : Bytes) (o : Option Bytes) (st : SplitState)
        → handle_live w now handler key o st
          ≡ (steps size (shown w now key (non_empty o)) st, go_on)
    steps_shown key none st = refl
    steps_shown key (some value) st = elim (Bool-cases (length value == 0)) [
      | inl e ↦ rw e refl
      | inr n ↦ rw n refl
    ]

    steps-append :
        (xs ys : List TreeItem) (st : SplitState)
        → steps size (xs ++ ys) st ≡ steps size ys (steps size xs st)
    steps-append [] ys st = refl
    steps-append (x ∷ xs) ys st = steps-append xs ys (split_step size x.key x.value st)

    handle_all-steps :
        (xs : List TreeItem) (st : SplitState)
        → handle_all (live w now handler) xs st ≡ (steps size (handed w now xs) st, none)
    unfolding handle_all live
    handle_all-steps [] st = refl
    handle_all-steps (x ∷ xs) st =
        let one = steps size (shown w now x.key (value_of w now x)) st in
        handle_all-next (live w now handler) x xs st one
          (steps_shown x.key (decode_value w now (some x.value)) st)
        ∙ (handle_all-steps xs one
            ∙ ap (λ t. (t, none))
                (sym (steps-append (shown w now x.key (value_of w now x)) (handed w now xs) st)))

-- A split check counts the keys with a value and sums up their bytes, as 64-bit numbers. When the
-- sum is a 64-bit number, the keys with a value, in their order, are cut into pieces: the bytes of
-- each but the last reach the asked size with its last key, and not before; the last does so too, or
-- is smaller. The split keys are the first keys of the pieces behind the first one, and their number
-- times the size is at most the total.
pub split_check-total :
    (w : Wire) {T : Type 0} (tree : BTree T) (now : ℕ) (s : Storage T) (start end : Bytes)
    (size : ℕ)
    → sizes (handed w now (range_items tree s.kv start end)) < word
    → ((split_check w tree now s start end size).total
        ≡ sizes (handed w now (range_items tree s.kv start end)))
      × ((split_check w tree now s start end size).keys
          ≡ length (handed w now (range_items tree s.kv start end)) % word)
      × IsCut size
          (handed w now (range_items tree s.kv start end))
          (split_check w tree now s start end size)
      × (length (split_check w tree now s start end size).split_keys * size
          ≤ (split_check w tree now s start end size).total)
unfolding split_check scan
split_check-total w tree now s start end size h =
    let xs = handed w now (range_items tree s.kv start end) in
    let e : split_check w tree now s start end size ≡ steps size xs split_start =
      ap (λ (p : SplitState × Option BatchError). p.0)
        (handle_all-steps size w now (range_items tree s.kv start end) split_start) in
    let i =
      steps-IsSplit size xs split_start (omega (arith, h))
        (record { pieces = omega arith; ended = inl refl }) in
    rw e (
      omega (arith, total-steps size xs split_start (omega arith)),
      omega (arith, keys-steps size xs split_start (omega arith)),
      steps-IsCut size xs h,
      omega (arith, i.pieces),
    )
