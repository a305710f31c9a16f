-- ===== src/Gossip/Handler/Serving.antt =====
-- The loops of handleMsg that collect an answer.
use go_mini_opera.Prelude.{
  ℕ, zero, suc, ◌+◌, ◌<◌, ◌≤◌, ◌≡◌, refl, ap, ◌∙◌, ◌⊎◌, inl, inr, false, Option, none, some, List,
  [], ◌∷◌, Bool-cases, Option-cases, leb, if◌then◌else◌, length, arith, take, ◌-◌,
}
use go_mini_opera.Gossip.Heads.{EventId, is_some}
use go_mini_opera.Gossip.Peers.{Raw}
use go_mini_opera.Gossip.Handler.{
  soft_response_limit_size, check_len_limits, collect_events, collect_pack_infos, collect_pack,
}

pub check_len_limits-eq-none : (n : ℕ) → check_len_limits n ≡ none → n ≤ 1000
unfolding check_len_limits
check_len_limits-eq-none n h = ground arith

collect_events-nil :
    (event_rlp : EventId → Option Raw) (size : ℕ) → length (collect_events event_rlp size []).0 ≤ 0
unfolding collect_events
collect_events-nil event_rlp size = omega arith

collect_events-missing :
    (event_rlp : EventId → Option Raw) (size : ℕ) (id : EventId) (ids : List EventId)
    → event_rlp id ≡ none
    → collect_events event_rlp size (id ∷ ids)
      ≡ (if leb soft_response_limit_size size then ([], []) else collect_events event_rlp size ids)
unfolding collect_events
collect_events-missing event_rlp size id ids missing = ground arith

collect_events-found :
    (event_rlp : EventId → Option Raw) (size : ℕ) (id : EventId) (ids : List EventId) {raw : Raw}
    → event_rlp id ≡ some raw
    → collect_events event_rlp size (id ∷ ids) ≡ (
        if leb soft_response_limit_size (size + length raw) then (raw ∷ [], id ∷ []) else (
          raw ∷ (collect_events event_rlp (size + length raw) ids).0,
          id ∷ (collect_events event_rlp (size + length raw) ids).1,
        ))
unfolding collect_events
collect_events-found event_rlp size id ids found = ground arith

pub length-collect_events :
    (ids : List EventId) (event_rlp : EventId → Option Raw) (size : ℕ)
    → length (collect_events event_rlp size ids).0 ≤ length ids
length-collect_events [] event_rlp size = collect_events-nil event_rlp size
length-collect_events (id ∷ ids) event_rlp size = elim (Option-cases (event_rlp id)) [
  | inl missing ↦
      let rest = length-collect_events ids event_rlp size in
      elim (Bool-cases (leb soft_response_limit_size size)) [
        | inl full ↦ rw (collect_events-missing event_rlp size id ids missing, full) (omega arith)
        | inr room ↦
            rw (collect_events-missing event_rlp size id ids missing, room) (omega (arith, rest))
      ]
  | inr (raw, found) ↦
      let rest = length-collect_events ids event_rlp (size + length raw) in
      elim (Bool-cases (leb soft_response_limit_size (size + length raw))) [
        | inl full ↦ rw (collect_events-found event_rlp size id ids found, full) (omega arith)
        | inr room ↦
            rw (collect_events-found event_rlp size id ids found, room) (omega (arith, rest))
      ]
]

pub length-collect_pack_infos :
    (indexes : List ℕ) (info_rlp : ℕ → Option Raw) (packs size : ℕ)
    → length (collect_pack_infos info_rlp packs size indexes) ≤ length indexes
unfolding collect_pack_infos
length-collect_pack_infos [] info_rlp packs size = omega arith
length-collect_pack_infos (index ∷ indexes) info_rlp packs size =
    let skipped = length-collect_pack_infos indexes info_rlp packs size in
    elim (Option-cases (info_rlp index)) [
      | inl missing ↦ ground arith
      | inr (raw, found) ↦
          let rest = length-collect_pack_infos indexes info_rlp packs (size + length raw) in
          ground arith
    ]

pub length-collect_pack :
    (ids : List EventId) (i : ℕ) → i ≤ 250 → length (collect_pack i ids) + i ≤ 251
unfolding collect_pack
length-collect_pack [] i h = omega arith
length-collect_pack (id ∷ ids) i h = elim (Bool-cases (leb 250 i)) [
  | inl full ↦ ground arith
  | inr room ↦ let rest = length-collect_pack ids (suc i) (ground arith) in ground arith
]

-- The raw events that are stored, of the requested ones, and their ids.
abbrev pub stored_raws : (EventId → Option Raw) → List EventId → List Raw
stored_raws event_rlp [] = []
stored_raws event_rlp (id ∷ ids) = elim (event_rlp id) [
  | some raw ↦ raw ∷ stored_raws event_rlp ids
  | none ↦ stored_raws event_rlp ids
]

abbrev pub stored_ids : (EventId → Option Raw) → List EventId → List EventId
stored_ids event_rlp [] = []
stored_ids event_rlp (id ∷ ids) =
    if is_some (event_rlp id) then id ∷ stored_ids event_rlp ids else stored_ids event_rlp ids

abbrev pub total_size : List Raw → ℕ
total_size [] = 0
total_size (raw ∷ raws) = length raw + total_size raws

or_more : (n l : ℕ) {P : Type 0} → (n ≡ l) ⊎ P → (suc n ≡ suc l) ⊎ P
or_more n l (inl e) = inl (ap suc e)
or_more n l (inr p) = inr p

or_sum : (a b c : ℕ) {P : Type 0} → P ⊎ (2097152 ≤ a + b + c) → P ⊎ (2097152 ≤ a + (b + c))
or_sum a b c (inl p) = inl p
or_sum a b c (inr le) = inr (omega arith)

module _ (event_rlp : EventId → Option Raw) where
  -- The answer is what is stored of the first `n` ids, the first number that reaches the limit, or all.
  abbrev pub Serves : ℕ → List EventId → List Raw × List EventId → Type 0
  Serves size ids answer =
      (n : ℕ) × (n ≤ length ids)
      × (answer ≡ (stored_raws event_rlp (take n ids), stored_ids event_rlp (take n ids)))
      × ((n ≡ length ids) ⊎ (2097152 ≤ size + total_size (stored_raws event_rlp (take n ids))))
      × (size + total_size (stored_raws event_rlp (take (n - 1) ids)) < 2097152)

  Serves_next :
      (ids : List EventId) (id : EventId) (n : ℕ) (size : ℕ) {raw : Raw}
      → event_rlp id ≡ some raw
      → size < 2097152
      → n ≤ length ids
      → size + length raw + total_size (stored_raws event_rlp (take (n - 1) ids)) < 2097152
      → size + total_size (stored_raws event_rlp (take (suc n - 1) (id ∷ ids))) < 2097152
  Serves_next ids id zero size found small within less = omega arith
  Serves_next ids id (suc n) size found small within less =
      let e : suc (suc n) - 1 ≡ suc n = omega arith in
      let e' : suc n - 1 ≡ n = omega arith in
      let less' = rw e' at less in rw (e, found) (omega arith)

  Serves_skip :
      (ids : List EventId) (id : EventId) (n : ℕ) (size : ℕ)
      → event_rlp id ≡ none
      → size < 2097152
      → size + total_size (stored_raws event_rlp (take (n - 1) ids)) < 2097152
      → size + total_size (stored_raws event_rlp (take (suc n - 1) (id ∷ ids))) < 2097152
  Serves_skip ids id zero size missing small less = omega arith
  Serves_skip ids id (suc n) size missing small less =
      let e : suc (suc n) - 1 ≡ suc n = omega arith in
      let e' : suc n - 1 ≡ n = omega arith in rw (e, missing) (rw e' at less)

  Serves-none : (size : ℕ) → size < 2097152 → Serves size [] (collect_events event_rlp size [])
  unfolding collect_events
  Serves-none size small = (0, omega arith, refl, inl refl, omega arith)

  -- From a size below 2 MiB, the loop over the requested ids collects what is stored of the first n
  -- of them and the ids of these, in their order, where n is the number of all of the ids or the
  -- size has reached 2 MiB after n of them, and before the last one of the n it has not.
  pub collect_events-Serves :
      (ids : List EventId) (size : ℕ)
      → size < 2097152
      → Serves size ids (collect_events event_rlp size ids)
  collect_events-Serves [] size small = Serves-none size small
  collect_events-Serves (id ∷ ids) size small = elim (Option-cases (event_rlp id)) [
    | inl missing ↦
        let (n, within, answer, all, less) = collect_events-Serves ids size small in
        let room : leb soft_response_limit_size size ≡ false = ground arith in
        (
          suc n,
          omega arith,
          collect_events-missing event_rlp size id ids missing ∙ rw (room, missing) answer,
          rw missing (or_more n (length ids) all),
          Serves_skip ids id n size missing small less,
        )
    | inr (raw, found) ↦ elim (Bool-cases (leb soft_response_limit_size (size + length raw))) [
      | inl full ↦ (
        1,
        omega arith,
        collect_events-found event_rlp size id ids found ∙ rw (full, found) refl,
        inr (rw found (ground arith)),
        omega arith,
      )
      | inr room ↦
          let (n, within, answer, all, less) =
            collect_events-Serves ids (size + length raw) (ground arith) in
          (
            suc n,
            omega arith,
            collect_events-found event_rlp size id ids found ∙ rw (room, found, answer) refl,
            rw found (or_more n (length ids) (or_sum size (length raw) _ all)),
            Serves_next ids id n size found small within less,
          )
    ]
  ]
