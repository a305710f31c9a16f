-- ===== src/EventCheck/Checkers.antt =====
-- The Validate methods: eventcheck/all.go, basiccheck, parentscheck and heavycheck.
use go_mini_opera.Prelude.{
  ℕ, Bool, not, Option, none, some, List, [], ◌∷◌, leb, ltb, ◌==◌, if◌then◌else◌, length, ◌>>=◌,
}
use go_mini_opera.Inter.Event.{Event}
use go_mini_opera.EventCheck.Errors.{
  wrong_version, zero_time, too_many_parents, past_time, wrong_event_sig, not_relevant, auth,
  wrong_self_parent, Failure, ◌>>◌,
}

-- What the checkers take from lachesis-base and go-ethereum.
pub record Base : Type 0 where
  -- The embedded checkers' Validate.
  pub basic : Event → Failure
  pub epoch : Event → Failure
  pub parents : Event → List Event → Failure
  -- `SelfParent()` and `IsSelfParent` of dag.BaseEvent.
  pub self_parent : Event → Option (List ℕ)
  pub is_self_parent : Event → List ℕ → Bool
  -- `crypto.VerifySignature`.
  pub verify_signature : List ℕ → List ℕ → List ℕ → Bool

-- heavycheck.Reader: the validators' keys and the epoch that they are of.
pub record EpochKeys : Type 0 where
  pub pub_keys : ℕ → Option (List ℕ)
  pub epoch : ℕ

-- `CreationTime`.
abbrev pub creation_time : Event → ℕ
creation_time e = e.raw_time

-- `basiccheck.Checker.Validate`; `max_parents` is `config.MaxParents`.
unfoldable pub basic_validate : Base → ℕ → Event → Failure
basic_validate base max_parents e =
    base.basic e
    >> (if not (e.version == 0)
        then some wrong_version
        else (if leb (creation_time e) 0
            then some zero_time
            else (if ltb max_parents (length e.parents) then some too_many_parents else none)))

-- The part of `parentscheck.Checker.Validate` for an event with a self-parent; without parents,
-- `parents[0]` panics.
unfoldable pub self_parent_validate : Base → Event → List Event → Option Failure
self_parent_validate base e [] = none
self_parent_validate base e (self_parent ∷ parents) = some (
    if not (base.is_self_parent e self_parent.id)
    then some wrong_self_parent
    else (if leb e.raw_time self_parent.raw_time then some past_time else none))

-- `parentscheck.Checker.Validate`; a panic is `none`.
unfoldable pub parents_validate : Base → Event → List Event → Option Failure
parents_validate base e parents = elim (base.parents e parents) [
  | some err ↦ some (some err)
  | none ↦ elim (base.self_parent e) [
    | none ↦ some none
    | some id ↦ self_parent_validate base e parents
  ]
]

-- `heavycheck.Checker.Validate`; `hash_to_sign` is the cached hash, and none is a nil pointer.
unfoldable pub heavy_validate : Base → EpochKeys → Event → Option Failure
heavy_validate base keys e =
    if not (e.epoch == keys.epoch)
    then some (some not_relevant)
    else elim (keys.pub_keys e.creator) [
      | none ↦ some (some auth)
      | some pub_key ↦ (do
        signed_hash ← e.hash_to_sign
        some (
            if not (base.verify_signature pub_key signed_hash e.sig)
            then some wrong_event_sig
            else none))
    ]

-- `Checkers.Validate`.
unfoldable pub validate : Base → ℕ → EpochKeys → Event → List Event → Option Failure
validate base max_parents keys e parents = elim (basic_validate base max_parents e) [
  | some err ↦ some (some err)
  | none ↦ elim (base.epoch e) [
    | some err ↦ some (some err)
    | none ↦ elim (parents_validate base e parents) [
      | none ↦ none
      | some (some err) ↦ some (some err)
      | some none ↦ heavy_validate base keys e
    ]
  ]
]
