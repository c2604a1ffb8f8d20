-- ===== src/Storage/Mem/Pieces.antt =====
-- The pieces that `SplitCheck` of storage/mem/storage.go cuts a range into.
use mathlib.Core.List.{append_assoc, append-nil}
use matrixcube.Prelude.{
  ℕ, ◌+◌, ◌%◌, ◌≤◌, ◌<◌, ◌≡◌, refl, sym, ap, ◌∙◌, true, false, List, [], ◌∷◌, ◌++◌, leb, length,
  map, Bool-cases, inl, inr, arith, ◌⊎◌,
}
use matrixcube.Prelude.Bytes.{Bytes}
use matrixcube.Prelude.Words.{word, add64}
use matrixcube.Storage.BTree.{TreeItem}
use matrixcube.Storage.Mem.{SplitState, split_start, append_key, split_step}

abbrev pub sizes : List TreeItem → ℕ
sizes [] = 0
sizes (x ∷ xs) = length x.key + length x.value + sizes xs

sizes-append :
    (xs : List TreeItem) (x : TreeItem)
    → sizes (xs ++ x ∷ []) ≡ sizes xs + (length x.key + length x.value)
sizes-append [] x = omega arith
sizes-append (y ∷ ys) x = omega (arith, sizes-append ys x)

-- a piece: its first item and the others
abbrev pub Piece : Type 0
Piece = TreeItem × List TreeItem

abbrev pub items_of : Piece → List TreeItem
items_of p = p.0 ∷ p.1

abbrev pub joined : List Piece → List TreeItem
joined [] = []
joined (p ∷ ps) = items_of p ++ joined ps

abbrev pub start_keys : List Piece → List Bytes
start_keys ps = map (λ (p : Piece). p.0.key) ps

abbrev pub later : List Piece → List Piece
later [] = []
later (p ∷ ps) = ps

-- the handler over some items
abbrev pub steps : ℕ → List TreeItem → SplitState → SplitState
steps size [] st = st
steps size (x ∷ xs) st = steps size xs (split_step size x.key x.value st)

module _ (size : ℕ) where
  -- The piece reaches the size, and not before its last item.
  abbrev pub IsFull : Piece → Type 0
  IsFull p =
      (front : List TreeItem) × (last : TreeItem) × (items_of p ≡ front ++ last ∷ [])
      × ((front ≡ []) ⊎ (sizes front < size))
      × (size ≤ sizes (items_of p))

  -- All pieces are full, but the last one may be smaller.
  abbrev pub ArePieces : List Piece → Type 0
  ArePieces [] = Unit
  ArePieces (p ∷ []) = IsFull p ⊎ (sizes (items_of p) < size)
  ArePieces (p ∷ q ∷ ps) = IsFull p × ArePieces (q ∷ ps)

  -- the state behind the items of a piece that is not yet, or just, full
  abbrev IsAt : Piece → SplitState → Type 0
  IsAt p st =
      (IsFull p × (st.append_split_key ≡ true))
      ⊎ ((sizes (items_of p) < size)
          × (st.append_split_key ≡ false)
          × (st.sum ≡ sizes (items_of p)))

  abbrev Result : Piece → List TreeItem → SplitState → Type 0
  Result p xs st =
      (q : Piece) × (ps : List Piece) × (items_of p ++ xs ≡ joined (q ∷ ps))
      × ArePieces (q ∷ ps)
      × ((steps size xs st).split_keys ≡ st.split_keys ++ start_keys ps)
      × (q.0 ≡ p.0)

  all_pieces : (p : Piece) (st : SplitState) → IsAt p st → ArePieces (p ∷ [])
  all_pieces p st (inl (f, a)) = inl f
  all_pieces p st (inr (l, a, s)) = inr l

  -- the first item of a piece, behind a state that starts one
  starts-IsAt :
      (x : TreeItem) (st : SplitState)
      → length x.key + length x.value < word
      → st.append_split_key ≡ true
      → IsAt (x, []) (split_step size x.key x.value st)
        × ((split_step size x.key x.value st).split_keys ≡ st.split_keys ++ x.key ∷ [])
  unfolding split_step add64
  starts-IsAt x st h a =
      let m : (0 + (length x.key + length x.value)) % word ≡ length x.key + length x.value =
        omega arith in
      elim (Bool-cases (leb size (length x.key + length x.value))) [
        | inl e ↦
            rw (a, append_key, split_step)
              (rw (m, e) (inl (([], x, refl, inl refl, ground arith), refl)), refl)
        | inr n ↦
            rw (a, append_key, split_step)
              (rw (m, n) (inr (ground arith, refl, ground arith)), refl)
      ]

  -- one more item in a piece
  goes_on-IsAt :
      (p : Piece) (x : TreeItem) (st : SplitState)
      → sizes (items_of p) + (length x.key + length x.value) < word
      → sizes (items_of p) < size
      → st.append_split_key ≡ false
      → st.sum ≡ sizes (items_of p)
      → IsAt (p.0, p.1 ++ x ∷ []) (split_step size x.key x.value st)
        × ((split_step size x.key x.value st).split_keys ≡ st.split_keys)
  unfolding split_step add64
  goes_on-IsAt p x st h l a s =
      let t = sizes-append (items_of p) x in
      let m : (st.sum + (length x.key + length x.value)) % word ≡ sizes (items_of p ++ x ∷ []) =
        omega (arith, t, s) in
      elim (Bool-cases (leb size (sizes (items_of p ++ x ∷ [])))) [
        | inl e ↦
            rw (a, append_key, split_step)
              (rw (m, e) (inl ((items_of p, x, refl, inr l, ground arith), refl)), refl)
        | inr n ↦ rw (a, append_key, split_step) (rw (m, n) (inr (ground arith, refl, refl)), refl)
      ]

  cut_full :
      (p : Piece) (x : TreeItem) (xs : List TreeItem) (st : SplitState)
      → IsFull p
      → (split_step size x.key x.value st).split_keys ≡ st.split_keys ++ x.key ∷ []
      → Result (x, []) xs (split_step size x.key x.value st)
      → Result p (x ∷ xs) st
  cut_full p x xs st f k (q, ps, j, a, s, e) = (
    p,
    q ∷ ps,
    ap (λ ys. items_of p ++ ys) j,
    (f, a),
    s
        ∙ (ap (λ ys. ys ++ start_keys ps) k
            ∙ (append_assoc st.split_keys (x.key ∷ []) (start_keys ps)
                ∙ ap (λ (y : TreeItem). st.split_keys ++ y.key ∷ start_keys ps) (sym e))),
    refl,
  )

  cut_at :
      (xs : List TreeItem) (p : Piece) (st : SplitState)
      → IsAt p st
      → sizes (items_of p) + sizes xs < word
      → Result p xs st
  cut_at [] p st i h = (p, [], refl, all_pieces p st i, sym (append-nil st.split_keys), refl)
  cut_at (x ∷ xs) p st (inl (f, a)) h =
      let (i, k) = starts-IsAt x st (omega (arith, h)) a in
      cut_full p x xs st f k
        (cut_at xs (x, []) (split_step size x.key x.value st) i (omega (arith, h)))
  cut_at (x ∷ xs) p st (inr (l, a, s)) h =
      let (i, k) = goes_on-IsAt p x st (omega (arith, h)) l a s in
      let t = sizes-append (items_of p) x in
      let (q, ps, j, b, r, e) =
        cut_at xs (p.0, p.1 ++ x ∷ []) (split_step size x.key x.value st) i (omega (arith, h, t)) in
      (
        q,
        ps,
        sym (append_assoc (items_of p) (x ∷ []) xs) ∙ j,
        b,
        r ∙ ap (λ ks. ks ++ start_keys ps) k,
        e,
      )

  first-IsAt :
      (x : TreeItem)
      → length x.key + length x.value < word
      → IsAt (x, []) (split_step size x.key x.value split_start)
        × ((split_step size x.key x.value split_start).split_keys ≡ [])
  unfolding split_step add64
  first-IsAt x h =
      let m : (0 + (length x.key + length x.value)) % word ≡ length x.key + length x.value + 0 =
        omega arith in
      elim (Bool-cases (leb size (length x.key + length x.value + 0))) [
        | inl e ↦ (rw (m, e) (inl (([], x, refl, inl refl, ground arith), refl)), refl)
        | inr n ↦ (rw (m, n) (inr (ground arith, refl, refl)), refl)
      ]

  -- The items are cut into pieces, each full but the last, and the split keys start the later ones.
  abbrev pub IsCut : List TreeItem → SplitState → Type 0
  IsCut xs st =
      (ps : List Piece) × (joined ps ≡ xs) × ArePieces ps × (st.split_keys ≡ start_keys (later ps))

  pub steps-IsCut : (xs : List TreeItem) → sizes xs < word → IsCut xs (steps size xs split_start)
  steps-IsCut [] h = ([], refl, tt, refl)
  steps-IsCut (x ∷ xs) h =
      let (i, k) = first-IsAt x (omega (arith, h)) in
      let (q, ps, j, a, r, e) =
        cut_at xs (x, []) (split_step size x.key x.value split_start) i (omega (arith, h)) in
      (q ∷ ps, sym j, a, r ∙ ap (λ ks. ks ++ start_keys ps) k)
