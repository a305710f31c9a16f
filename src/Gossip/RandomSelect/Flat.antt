-- ===== src/Gossip/RandomSelect/Flat.antt =====
-- The items of a tree as one list with a place for every index, and lists of lists of one length.
use go_mini_opera.Prelude.{
  ℕ, zero, suc, ◌+◌, ◌*◌, ◌<◌, ◌≡◌, refl, sym, ap, ◌∙◌, Option, none, some, List, [], ◌∷◌, ◌++◌,
  length, get_elem?, get_or, set, replicate, All, length-append, arith,
}
use go_mini_opera.Gossip.RandomSelect.{WrsSlot, WrsNode, WrsChild, no_slot}

-- The item at an index and its weight.
abbrev pub Entry : Type 0
Entry = Option (ℕ × ℕ)

abbrev pub no_entry : Entry
no_entry = none

-- The places in a child of a node of the level.
abbrev pub width : ℕ → ℕ
width zero = 1
width (suc l) = 8 * width l

module _ {S : Type 0} (f : S → List Entry) where
  abbrev pub flatten : List S → List Entry
  flatten [] = []
  flatten (s ∷ rest) = f s ++ flatten rest

abbrev pub leaf_entry : Option ℕ → ℕ → Entry
leaf_entry none w = none
leaf_entry (some a) w = some (a, w)

abbrev pub node_entries :
    {C : Type 0} → (WrsSlot C → List Entry) → ℕ → Option (WrsNode C) → List Entry
node_entries f k none = replicate k none
node_entries f k (some c) = flatten f c.slots

-- The places of a slot, and those of a node.
unfoldable pub block : (l : ℕ) → WrsSlot (WrsChild l) → List Entry
block zero s = leaf_entry s.item s.weight ∷ []
block (suc l) s = node_entries (block l) (width (suc l)) s.item

abbrev pub entries : (l : ℕ) → WrsNode (WrsChild l) → List Entry
entries l n = flatten (block l) n.slots

abbrev pub entry_weight : Entry → ℕ
entry_weight none = 0
entry_weight (some (a, w)) = w

abbrev pub entry_count : Entry → ℕ
entry_count none = 0
entry_count (some p) = 1

abbrev pub total : (Entry → ℕ) → List Entry → ℕ
total v [] = 0
total v (e ∷ es) = v e + total v es

pub total-append :
    (v : Entry → ℕ) (xs ys : List Entry) → total v (xs ++ ys) ≡ total v xs + total v ys
total-append v [] ys = omega arith
total-append v (x ∷ xs) ys = omega (arith, total-append v xs ys)

pub total-set :
    (v : Entry → ℕ) (xs : List Entry) (i : ℕ) (new : Entry) {old : Entry}
    → get_elem? xs i ≡ some old
    → total v (set xs i new) + v old ≡ total v xs + v new
total-set v [] i new h = absurd cc
total-set v (x ∷ xs) zero new {old} h =
    let same : v x ≡ v old = ap v (some_eq h) in omega (arith, same)
  where
    some_eq : {a b : Entry} → some a ≡ some b → a ≡ b
    some_eq e = cc
total-set v (x ∷ xs) (suc i) new h = omega (arith, total-set v xs i new h)

pub total-replicate : (v : Entry → ℕ) (n : ℕ) → v none ≡ 0 → total v (replicate n none) ≡ 0
total-replicate v zero h = refl
total-replicate v (suc n) h = omega (arith, h, total-replicate v n h)

get_elem?-append_left :
    (xs ys : List Entry) (i : ℕ) → i < length xs → get_elem? (xs ++ ys) i ≡ get_elem? xs i
get_elem?-append_left [] ys i h = absurd (omega arith)
get_elem?-append_left (x ∷ xs) ys zero h = refl
get_elem?-append_left (x ∷ xs) ys (suc i) h = get_elem?-append_left xs ys i (omega arith)

get_elem?-append_right :
    (xs ys : List Entry) (i : ℕ) → get_elem? (xs ++ ys) (length xs + i) ≡ get_elem? ys i
get_elem?-append_right [] ys i = ap (get_elem? ys) (omega arith)
get_elem?-append_right (x ∷ xs) ys i =
    let e : suc (length xs) + i ≡ suc (length xs + i) = omega arith in
    ap (get_elem? ((x ∷ xs) ++ ys)) e ∙ get_elem?-append_right xs ys i

set-append_left :
    (xs ys : List Entry) (i : ℕ) (v : Entry) → i < length xs → set (xs ++ ys) i v ≡ set xs i v ++ ys
set-append_left [] ys i v h = absurd (omega arith)
set-append_left (x ∷ xs) ys zero v h = refl
set-append_left (x ∷ xs) ys (suc i) v h = ap (◌∷◌ x) (set-append_left xs ys i v (omega arith))

set-append_right :
    (xs ys : List Entry) (i : ℕ) (v : Entry) → set (xs ++ ys) (length xs + i) v ≡ xs ++ set ys i v
set-append_right [] ys i v = ap (λ j. set ys j v) (omega arith)
set-append_right (x ∷ xs) ys i v =
    let e : suc (length xs) + i ≡ suc (length xs + i) = omega arith in
    ap (λ j. set ((x ∷ xs) ++ ys) j v) e ∙ ap (◌∷◌ x) (set-append_right xs ys i v)

pub get_elem?-replicate : (n i : ℕ) → i < n → get_elem? (replicate n no_entry) i ≡ some none
get_elem?-replicate zero i h = absurd (omega arith)
get_elem?-replicate (suc n) zero h = refl
get_elem?-replicate (suc n) (suc i) h = get_elem?-replicate n i (omega arith)

pub replicate-append : (m n : ℕ) → replicate m no_entry ++ replicate n none ≡ replicate (m + n) none
replicate-append zero n = ap (λ (j : ℕ). replicate j no_entry) (omega arith)
replicate-append (suc m) n =
    let e : suc (m + n) ≡ suc m + n = omega arith in
    ap (◌∷◌ none) (replicate-append m n) ∙ ap (λ (j : ℕ). replicate j no_entry) e

module _ {C : Type 0} (f : WrsSlot C → List Entry) (k : ℕ) where
  pub length-flatten :
      (ss : List (WrsSlot C))
      → All (λ s. length (f s) ≡ k) ss
      → length (flatten f ss) ≡ length ss * k
  length-flatten [] h = omega arith
  length-flatten (s ∷ ss) (h, hs) =
      omega (arith, h, length-append (f s) (flatten f ss), length-flatten ss hs)

  -- The place `j` of the slot `b` is the place `b * k + j`.
  pub get_elem?-flatten :
      (ss : List (WrsSlot C)) (b j : ℕ)
      → All (λ s. length (f s) ≡ k) ss
      → b < length ss
      → j < k
      → get_elem? (flatten f ss) (b * k + j) ≡ get_elem? (f (get_or ss b no_slot)) j
  get_elem?-flatten [] b j h hb hj = absurd (omega arith)
  get_elem?-flatten (s ∷ ss) zero j (h, hs) hb hj =
      let e : 0 * k + j ≡ j = omega arith in
      ap (get_elem? (flatten f (s ∷ ss))) e
      ∙ get_elem?-append_left (f s) (flatten f ss) j (omega arith)
  get_elem?-flatten (s ∷ ss) (suc b) j (h, hs) hb hj =
      let e : suc b * k + j ≡ length (f s) + (b * k + j) = omega arith in
      ap (get_elem? (flatten f (s ∷ ss))) e
      ∙ (get_elem?-append_right (f s) (flatten f ss) (b * k + j)
          ∙ get_elem?-flatten ss b j hs (omega arith) hj)

  pub flatten-set :
      (ss : List (WrsSlot C)) (b j : ℕ) (new : WrsSlot C) (e : Entry)
      → All (λ s. length (f s) ≡ k) ss
      → b < length ss
      → j < k
      → f new ≡ set (f (get_or ss b no_slot)) j e
      → flatten f (set ss b new) ≡ set (flatten f ss) (b * k + j) e
  flatten-set [] b j new e h hb hj changed = absurd (omega arith)
  flatten-set (s ∷ ss) zero j new e (h, hs) hb hj changed =
      let at : j ≡ 0 * k + j = omega arith in
      ap (λ xs. xs ++ flatten f ss) changed
      ∙ (sym (set-append_left (f s) (flatten f ss) j e (omega arith))
          ∙ ap (λ i. set (flatten f (s ∷ ss)) i e) at)
  flatten-set (s ∷ ss) (suc b) j new e (h, hs) hb hj changed =
      let at : length (f s) + (b * k + j) ≡ suc b * k + j = omega arith in
      ap (λ xs. f s ++ xs) (flatten-set ss b j new e hs (omega arith) hj changed)
      ∙ (sym (set-append_right (f s) (flatten f ss) (b * k + j) e)
          ∙ ap (λ i. set (flatten f (s ∷ ss)) i e) at)
