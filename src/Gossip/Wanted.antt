-- ===== src/Gossip/Wanted.antt =====
-- onlyNotConnectedEvents and onlyInterestedEvents of gossip/handler.go: the ids that are asked for.
use go_mini_opera.Prelude.{
  ℕ, ◌≡◌, refl, sym, ap, ◌∙◌, inl, inr, Bool, true, false, not, ◌&&◌, ◌||◌, List, [], ◌∷◌, ◌==◌,
  if◌then◌else◌, length, Bool-cases, arith,
}
use go_mini_opera.Utils.Migration.{str_eq}
use go_mini_opera.Utils.Migration.Resume.{str_eq_sound}
use go_mini_opera.Gossip.Heads.{EventId}

-- The ids that the loop does not skip.
unfoldable pub keep_ids : (skip : EventId → Bool) → List EventId → List EventId
keep_ids skip [] = []
keep_ids skip (id ∷ ids) = let rest = keep_ids skip ids in if skip id then rest else id ∷ rest

unfoldable pub only_not_connected_events :
    (has_event : EventId → Bool) → List EventId → List EventId
only_not_connected_events has_event ids = if length ids == 0 then ids else keep_ids has_event ids

unfoldable pub only_interested_events :
    (event_epoch : EventId → ℕ) (epoch : ℕ) (is_buffered has_event : EventId → Bool)
    → List EventId
    → List EventId
only_interested_events event_epoch epoch is_buffered has_event ids =
    if length ids == 0
    then ids
    else keep_ids (λ id. not (event_epoch id == epoch) || (is_buffered id || has_event id)) ids

-- Whether the id is one of the ids.
abbrev pub is_in : EventId → List EventId → Bool
is_in id [] = false
is_in id (x ∷ ids) = if str_eq x id then true else is_in id ids

keep_ids_lem :
    (skip : EventId → Bool) (ids : List EventId) (id : EventId)
    → is_in id (keep_ids skip ids) ≡ (is_in id ids && not (skip id))
unfolding keep_ids
keep_ids_lem skip [] id = refl
keep_ids_lem skip (x ∷ ids) id =
    let rest = keep_ids_lem skip ids id in
    elim (Bool-cases (str_eq x id)) [
      | inl same ↦
          let same_skip : skip x ≡ skip id = ap skip (str_eq_sound x id same) in
          elim (Bool-cases (skip x)) [
            | inl skipped ↦
                let skipped' : skip id ≡ true = sym same_skip ∙ skipped in
                rw (skipped, same) (rest ∙ ground arith)
            | inr kept ↦
                let kept' : skip id ≡ false = sym same_skip ∙ kept in rw (kept, same) (ground arith)
          ]
      | inr differ ↦ elim (Bool-cases (skip x)) [
        | inl skipped ↦ rw (skipped, differ) rest
        | inr kept ↦ rw (kept, differ) rest
      ]
    ]

keep_ids_nil :
    (skip : EventId → Bool) (ids : List EventId) → length ids ≡ 0 → keep_ids skip ids ≡ ids
unfolding keep_ids
keep_ids_nil skip [] h = refl
keep_ids_nil skip (x ∷ ids) h = absurd (omega arith)

pub only_interested_events_lem :
    (event_epoch : EventId → ℕ) (epoch : ℕ) (is_buffered has_event : EventId → Bool)
    (ids : List EventId) (id : EventId)
    → (is_in id (only_not_connected_events has_event ids) ≡ (is_in id ids && not (has_event id)))
      × (is_in id (only_interested_events event_epoch epoch is_buffered has_event ids) ≡ (
          is_in id ids && not (not (event_epoch id == epoch) || (is_buffered id || has_event id))))
unfolding only_not_connected_events only_interested_events
only_interested_events_lem event_epoch epoch is_buffered has_event ids id =
    let skip : EventId → Bool =
      λ x. not (event_epoch x == epoch) || (is_buffered x || has_event x) in
    let old = keep_ids_lem has_event ids id in
    let other = keep_ids_lem skip ids id in
    elim (Bool-cases (length ids == 0)) [
      | inl bare ↦
          let e = keep_ids_nil has_event ids (ground arith) in
          let e' = keep_ids_nil skip ids (ground arith) in rw bare (rw e at old, rw e' at other)
      | inr some_ids ↦ rw some_ids (old, other)
    ]
