-- ===== src/EventCheck/Admission.antt =====
-- What it takes for an event to pass the checks of eventcheck/.
use go_mini_opera.Prelude.{
  Option-cases, inl, inr, ℕ, ◌<◌, ◌≤◌, ◌≡◌, arith, ◌↔◌, true, none, some, List, [], ◌∷◌, length,
}
use go_mini_opera.Inter.Event.{Event}
use go_mini_opera.EventCheck.Errors.{>>-eq-none}
use go_mini_opera.EventCheck.Checkers.{
  Base, EpochKeys, basic_validate, self_parent_validate, parents_validate, heavy_validate, validate,
}

-- The first of the parents is the event's self-parent, and is older.
pub data FollowsSelfParent (base : Base) (e : Event) : List Event → Type 0 where
  follows :
      (self_parent : Event) (parents : List Event)
      → base.is_self_parent e self_parent.id ≡ true
      → self_parent.raw_time < e.raw_time
      → FollowsSelfParent base e (self_parent ∷ parents)

-- What makes an event admissible.
pub record IsAdmissible (base : Base) (max_parents : ℕ) (keys : EpochKeys) (e : Event)
    (parents : List Event) : Type 0 where
  pub basic : base.basic e ≡ none
  pub version : e.version ≡ 0
  pub time : 0 < e.raw_time
  pub parents_le : length e.parents ≤ max_parents
  pub epoch : base.epoch e ≡ none
  pub parents_ok : base.parents e parents ≡ none
  pub self_parent : (id : List ℕ) → base.self_parent e ≡ some id → FollowsSelfParent base e parents
  pub this_epoch : e.epoch ≡ keys.epoch
  pub signed :
      (key : List ℕ) × (hash : List ℕ) × (keys.pub_keys e.creator ≡ some key)
      × (e.hash_to_sign ≡ some hash)
      × (base.verify_signature key hash e.sig ≡ true)

basic_passes :
    (base : Base) (max_parents : ℕ) (e : Event)
    → basic_validate base max_parents e ≡ none
    → (base.basic e ≡ none) × (e.version ≡ 0) × (0 < e.raw_time) × (length e.parents ≤ max_parents)
unfolding basic_validate
basic_passes base max_parents e h =
    let (basic, rest) = >>-eq-none (base.basic e) _ h in
    (basic, ground arith, ground arith, ground arith)

basic_accepts :
    (base : Base) (max_parents : ℕ) (e : Event)
    → base.basic e ≡ none
    → e.version ≡ 0
    → 0 < e.raw_time
    → length e.parents ≤ max_parents
    → basic_validate base max_parents e ≡ none
unfolding basic_validate
basic_accepts base max_parents e basic version time few = rw basic (ground arith)

self_parent_passes :
    (base : Base) (e : Event) (parents : List Event)
    → self_parent_validate base e parents ≡ some none
    → FollowsSelfParent base e parents
unfolding self_parent_validate
self_parent_passes base e [] h = cc
self_parent_passes base e (s ∷ parents) h = follows s parents (ground arith) (ground arith)

heavy_passes :
    (base : Base) (keys : EpochKeys) (e : Event)
    → heavy_validate base keys e ≡ some none
    → (e.epoch ≡ keys.epoch)
      × ((key : List ℕ) × (hash : List ℕ) × (keys.pub_keys e.creator ≡ some key)
          × (e.hash_to_sign ≡ some hash)
          × (base.verify_signature key hash e.sig ≡ true))
unfolding heavy_validate
heavy_passes base keys e h = elim (Option-cases (keys.pub_keys e.creator)) [
  | inl unknown ↦ absurd (ground arith)
  | inr (key, known) ↦ elim (Option-cases e.hash_to_sign) [
    | inl missing ↦ absurd (ground arith)
    | inr (hash, hashed) ↦ (ground arith, (key, hash, known, hashed, ground arith))
  ]
]

heavy_accepts :
    (base : Base) (keys : EpochKeys) (e : Event) (key hash : List ℕ)
    → e.epoch ≡ keys.epoch
    → keys.pub_keys e.creator ≡ some key
    → e.hash_to_sign ≡ some hash
    → base.verify_signature key hash e.sig ≡ true
    → heavy_validate base keys e ≡ some none
unfolding heavy_validate
heavy_accepts base keys e key hash epoch known hashed verified = ground arith

parents_pass :
    (base : Base) (e : Event) (parents : List Event)
    → parents_validate base e parents ≡ some none
    → (base.parents e parents ≡ none)
      × ((id : List ℕ) → base.self_parent e ≡ some id → FollowsSelfParent base e parents)
unfolding parents_validate
parents_pass base e parents h = elim (Option-cases (base.parents e parents)) [
  | inr (err, fails) ↦ absurd (ground arith)
  | inl passes ↦ (passes, λ id has. self_parent_passes base e parents (ground arith))
]

self_parent_accepts :
    (base : Base) (e : Event) (parents : List Event)
    → FollowsSelfParent base e parents
    → self_parent_validate base e parents ≡ some none
unfolding self_parent_validate
self_parent_accepts base e [] h = elim h [ ]
self_parent_accepts base e (s ∷ parents) (follows t rest is older) = ground arith

parents_accept :
    (base : Base) (e : Event) (parents : List Event)
    → base.parents e parents ≡ none
    → ((id : List ℕ) → base.self_parent e ≡ some id → FollowsSelfParent base e parents)
    → parents_validate base e parents ≡ some none
unfolding parents_validate
parents_accept base e parents ok follow = elim (Option-cases (base.self_parent e)) [
  | inl root ↦ ground arith
  | inr (id, has) ↦ ground (arith, self_parent_accepts base e parents (follow id has))
]

admitted :
    (base : Base) (max_parents : ℕ) (keys : EpochKeys) (e : Event) (parents : List Event)
    → validate base max_parents keys e parents ≡ some none
    → IsAdmissible base max_parents keys e parents
unfolding validate
admitted base max_parents keys e parents h =
    elim (Option-cases (basic_validate base max_parents e)) [
      | inr (err, fails) ↦ absurd (ground arith)
      | inl basic ↦ elim (Option-cases (base.epoch e)) [
        | inr (err, fails) ↦ absurd (ground arith)
        | inl epoch ↦ elim (Option-cases (parents_validate base e parents)) [
          | inl panics ↦ absurd (ground arith)
          | inr (some err, fails) ↦ absurd (ground arith)
          | inr (none, passes) ↦
              let (b, version, time, few) = basic_passes base max_parents e basic in
              let (parents_ok, self_parent) = parents_pass base e parents passes in
              let (this_epoch, signed) = heavy_passes base keys e (ground arith) in
              record {
                basic = b;
                version = version;
                time = time;
                parents_le = few;
                epoch = epoch;
                parents_ok = parents_ok;
                self_parent = self_parent;
                this_epoch = this_epoch;
                signed = signed;
              }
        ]
      ]
    ]

admit :
    (base : Base) (max_parents : ℕ) (keys : EpochKeys) (e : Event) (parents : List Event)
    → IsAdmissible base max_parents keys e parents
    → validate base max_parents keys e parents ≡ some none
unfolding validate
admit base max_parents keys e parents ok =
    let (key, hash, known, hashed, verified) = ok.signed in
    ground (
      arith,
      basic_accepts base max_parents e ok.basic ok.version ok.time ok.parents_le,
      ok.epoch,
      parents_accept base e parents ok.parents_ok ok.self_parent,
      heavy_accepts base keys e key hash ok.this_epoch known hashed verified,
    )

-- Validate returns nil, with no panic, exactly for the admissible events: the checkers of
-- lachesis-base pass it, it has version 0, a creation time other than 0 and at most `max_parents`
-- parents; if it has a self-parent, this is the first of the parents and strictly older; it is of
-- the epoch of the keys, and its cached hash is signed by its creator's key.
pub validate_iff :
    (base : Base) (max_parents : ℕ) (keys : EpochKeys) (e : Event) (parents : List Event)
    → (validate base max_parents keys e parents ≡ some none)
      ↔ IsAdmissible base max_parents keys e parents
validate_iff base max_parents keys e parents =
    (admitted base max_parents keys e parents, admit base max_parents keys e parents)
