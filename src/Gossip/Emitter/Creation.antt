-- ===== src/Gossip/Emitter/Creation.antt =====
-- What createEvent makes of the node's state.
use go_mini_opera.Prelude.{
  ℕ, ◌+◌, ◌%◌, ◌<◌, ◌≤◌, ◌≡◌, refl, sym, ap, subst, ◌∙◌, inl, inr, Bool, true, false, not, ◌||◌,
  ◌==◌, Option, none, some, List, [], ◌∷◌, All, ltb, if◌then◌else◌, ◌>>=◌, >>=-eq-some, Bool-cases,
  arith, take,
}
use go_mini_opera.Inter.Event.{
  Event, Platform, bytes_to_signature, fill_caches, event_hash_to_sign, calc_event_id, sig_size,
}
use go_mini_opera.Inter.Build.{calc_hash_to_sign, build, cached_or_calc, is_cached}
use go_mini_opera.Inter.Serializer.Marshal.{marshal_binary}
use go_mini_opera.Gossip.Heads.{EventId}
use go_mini_opera.Gossip.Emitter.{
  EmitterConfig, World, EmitterState, parent_events, max_lamport, self_parent_fields, max_timestamp,
  new_event, is_synced_to_emit, is_allowed_to_emit, build_signed, sign_and_build, finish_event,
  create_event, emitted, emit_event,
}

-- The fields that createEvent sets before the consensus fields.
abbrev pub SameFields : Event → Event → Type 0
SameFields x y =
    (y.epoch ≡ x.epoch)
    × (y.seq ≡ x.seq)
    × (y.creator ≡ x.creator)
    × (y.parents ≡ x.parents)
    × (y.lamport ≡ x.lamport)
    × (y.raw_time ≡ x.raw_time)
    × (y.payload ≡ x.payload)

SameFields-trans : (x y z : Event) → SameFields x y → SameFields y z → SameFields x z
SameFields-trans x y z (a, b, c, d, e, f, g) (a', b', c', d', e', f', g') =
    (a' ∙ a, b' ∙ b, c' ∙ c, d' ∙ d, e' ∙ e, f' ∙ f, g' ∙ g)

pub some_injective {ℓ} : {A : Type ℓ} {x y : A} → some x ≡ some y → x ≡ y
some_injective e = cc

fill_caches-SameFields :
    (p : Platform) (c : Event) (b : List ℕ) {y : Event}
    → fill_caches p c b ≡ some y
    → SameFields c y
unfolding fill_caches
fill_caches-SameFields p c b run =
    let (h, hashed, rest) = >>=-eq-some (event_hash_to_sign p b) _ run in
    subst (λ z. SameFields c z) (some_injective rest) (refl, refl, refl, refl, refl, refl, refl)

built_or_filled :
    (p : Platform) (c : Event) (cached : Bool) {y : Event}
    → (if cached then some c else (do b ← marshal_binary c; fill_caches p c b)) ≡ some y
    → SameFields c y
built_or_filled p c true run =
    subst (λ z. SameFields c z) (some_injective run) (refl, refl, refl, refl, refl, refl, refl)
built_or_filled p c false run =
    let (b, marshalled, rest) = >>=-eq-some (marshal_binary c) _ run in
    fill_caches-SameFields p c b rest

build-SameFields : (p : Platform) (x : Event) {y : Event} → build p x ≡ some y → SameFields x y
unfolding build marshal_binary
build-SameFields p x run =
    let (h, hashed, rest) = >>=-eq-some (cached_or_calc p x x.hash_to_sign) _ run in
    let c = record x { base = record x.base { id = p.set_id x.base (calc_event_id h) } } in
    built_or_filled p c (is_cached c.size c.hash_to_sign) rest

-- The last step: the checks.
checked_event :
    (x : Event) (passes : Bool) {y : Event}
    → some (if passes then some x else none) ≡ some (some y)
    → (x ≡ y) × (passes ≡ true)
checked_event x true run = (cc, refl)
checked_event x false run = absurd cc

module _ (platform : Platform) (world : World) where
  build_signed_lem :
      (x : Event) (parents : List Event) (sig_rsv : Option (List ℕ)) {y : Event}
      → build_signed platform world x parents sig_rsv ≡ some (some y)
      → SameFields x y × (world.passes_checks y parents ≡ true)
  unfolding build_signed
  build_signed_lem x parents none run = absurd cc
  build_signed_lem x parents (some sig_rsv) run =
      let (sig, cut, building) = >>=-eq-some (bytes_to_signature (take sig_size sig_rsv)) _ run in
      let (event, built, checking) =
        >>=-eq-some (build platform (record x { sig = sig })) _ building in
      let (same, passes) = checked_event event (world.passes_checks event parents) checking in
      (
        subst (λ z. SameFields x z) same (build-SameFields platform (record x { sig = sig }) built),
        ap (λ z. world.passes_checks z parents) (sym same) ∙ passes,
      )

  sign_and_build_lem :
      (x : Event) (parents : List Event) {y : Event}
      → sign_and_build platform world x parents ≡ some (some y)
      → SameFields x y × (world.passes_checks y parents ≡ true)
  unfolding sign_and_build
  sign_and_build_lem x parents run =
      let (h, hashed, signing) = >>=-eq-some (calc_hash_to_sign platform x) _ run in
      build_signed_lem x parents (world.signature_of h) signing

  module _ (config : EmitterConfig) (s : EmitterState) where
    finish_event_lem :
        (parents : List Event) (built : Option Event) {y : Event}
        → finish_event platform config world s parents built ≡ some (some y)
        → (b : Event) × (built ≡ some b)
          × (is_allowed_to_emit config s b ≡ true)
          × SameFields b y
          × (world.passes_checks y parents ≡ true)
    unfolding finish_event
    finish_event_lem parents none run = absurd cc
    finish_event_lem parents (some b) run = elim (Bool-cases (is_allowed_to_emit config s b)) [
      | inl allowed ↦
          let (same, passes) = sign_and_build_lem b parents (rw allowed at run) in
          (b, refl, allowed, same, passes)
      | inr held ↦ let nothing = rw held at run in absurd cc
    ]

-- The numbers of an event that another one can follow.
abbrev pub IsInRange : Event → Type 0
IsInRange e =
    (e.seq + 1 < 4294967296)
    × (e.lamport + 1 < 4294967296)
    × (e.raw_time + 1 < 18446744073709551616)

parent_events_lem :
    (stored : EventId → Option Event)
    → ((id : EventId) (q : Event) → stored id ≡ some q → IsInRange q)
    → (ids : List EventId) {parents : List Event} → parent_events stored ids ≡ some parents
    → All IsInRange parents
unfolding parent_events
parent_events_lem stored ranges [] run = subst (λ l. All IsInRange l) (some_injective run) tt
parent_events_lem stored ranges (id ∷ ids) run =
    let (e, found, rest) = >>=-eq-some (stored id) _ run in
    let (es, others, whole) = >>=-eq-some (parent_events stored ids) _ rest in
    subst (λ l. All IsInRange l) (some_injective whole)
      (ranges id e found, parent_events_lem stored ranges ids others)

-- The greatest Lamport time is no less than any, and in range.
max_lamport_lem :
    (es : List Event) (m : ℕ)
    → m + 1 < 4294967296
    → All IsInRange es
    → (m ≤ max_lamport m es)
      × (max_lamport m es + 1 < 4294967296)
      × All (λ (q : Event). q.lamport ≤ max_lamport m es) es
unfolding max_lamport
max_lamport_lem [] m small h = (omega arith, small, tt)
max_lamport_lem (e ∷ es) m small ((seq, lamport, time), h) =
    let next = if ltb m e.lamport then e.lamport else m in
    let bounded : next + 1 < 4294967296 = ground arith in
    let above : m ≤ next = ground arith in
    let above' : e.lamport ≤ next = ground arith in
    let (le, lt, rest) = max_lamport_lem es next bounded h in (omega arith, lt, (omega arith, rest))

-- The event comes after its self-parent, the first parent, if the creator has a last event.
abbrev pub FollowsSelf : Option EventId → List Event → Event → Type 0
FollowsSelf none parents e = e.seq ≡ 1
FollowsSelf (some id) [] e = ⊥
FollowsSelf (some id) (q ∷ parents) e = (e.seq ≡ q.seq + 1) × (q.raw_time < e.raw_time)

self_parent_fields_lem :
    (self_parent : Option EventId) (parents : List Event) (fields : ℕ × ℕ) (now : ℕ) (e : Event)
    → All IsInRange parents
    → self_parent_fields self_parent parents ≡ some fields
    → e.seq ≡ (fields.0 + 1) % 4294967296
    → e.raw_time ≡ max_timestamp now ((fields.1 + 1) % 18446744073709551616)
    → FollowsSelf self_parent parents e × (now ≤ e.raw_time)
unfolding self_parent_fields
self_parent_fields_lem none parents fields now e ranges run seq time =
    let first : 0 ≡ fields.0 = ap (λ (f : ℕ × ℕ). f.0) (some_injective run) in
    (seq ∙ ap (λ n. (n + 1) % 4294967296) (sym first), ground arith)
self_parent_fields_lem (some id) [] fields now e ranges run seq time = absurd cc
self_parent_fields_lem (some id) (q ∷ parents) fields now e ((small, lamport, early), ranges) run
      seq time =
    let first : q.seq ≡ fields.0 = ap (λ (f : ℕ × ℕ). f.0) (some_injective run) in
    let second : q.raw_time ≡ fields.1 = ap (λ (f : ℕ × ℕ). f.1) (some_injective run) in
    let fits : (fields.0 + 1) % 4294967296 ≡ fields.0 + 1 = omega arith in
    let fits' : (fields.1 + 1) % 18446744073709551616 ≡ fields.1 + 1 = omega arith in
    let time' : e.raw_time ≡ max_timestamp now (fields.1 + 1) =
      time ∙ ap (max_timestamp now) fits' in
    ((omega arith, ground arith), ground arith)

-- What the created event is, by the node's state.
abbrev pub Follows : EmitterConfig → World → List ℕ → Event → Type 0
Follows config world payload e =
    (parents : List Event) × (parent_events world.stored_event e.parents ≡ some parents)
    × (e.parents ≡ world.best_parents (world.last_event config.validator))
    × (e.creator ≡ config.validator)
    × (e.epoch ≡ world.world_epoch)
    × (e.payload ≡ payload)
    × All (λ (q : Event). q.lamport < e.lamport) parents
    × FollowsSelf (world.last_event config.validator) parents e
    × (world.now ≤ e.raw_time)
    × (world.passes_checks e parents ≡ true)

below :
    (es : List Event) (m n : ℕ)
    → m < n
    → All (λ (q : Event). q.lamport ≤ m) es
    → All (λ (q : Event). q.lamport < n) es
below [] m n lt h = tt
below (e ∷ es) m n lt (le, h) = (omega arith, below es m n lt h)

module _ (platform : Platform) (config : EmitterConfig) (world : World) (s : EmitterState)
    (payload : List ℕ) where
  pub create_event-Follows :
      {e : Event}
      → ((a b : Event) → world.consensus_build a ≡ some b → SameFields a b)
      → ((id : EventId) (q : Event) → world.stored_event id ≡ some q → IsInRange q)
      → create_event platform config world s payload ≡ some (some e)
      → Follows config world payload e
  unfolding create_event new_event
  create_event-Follows {e} fills ranges run =
      let self_parent = world.last_event config.validator in
      let ids = world.best_parents self_parent in
      elim (Bool-cases (config.validator == 0 || not (is_synced_to_emit config world))) [
        | inl held ↦ let nothing = rw held at run in absurd cc
        | inr emits ↦
            let creating = rw emits at run in
            let (parents, found, rest) =
              >>=-eq-some (parent_events world.stored_event ids) _ creating in
            let (fields, own, finishing) =
              >>=-eq-some (self_parent_fields self_parent parents) _ rest in
            let x = new_event config world fields.0 fields.1 (max_lamport 0 parents) ids payload in
            let (b, filled, allowed, same, passes) =
              finish_event_lem platform world config s parents (world.consensus_build x)
                finishing in
            let (epoch, seq, creator, parent_ids, lamport, time, same_payload) =
              SameFields-trans x b e (fills x b filled) same in
            let in_range = parent_events_lem world.stored_event ranges ids found in
            let (low, small, each) = max_lamport_lem parents 0 (omega arith) in_range in
            let more : max_lamport 0 parents < e.lamport = omega arith in
            let (follows, late) =
              self_parent_fields_lem self_parent parents fields world.now e in_range own seq time in
            (
              parents,
              ap (parent_events world.stored_event) parent_ids ∙ found,
              parent_ids,
              creator,
              epoch,
              same_payload,
              below parents (max_lamport 0 parents) e.lamport more each,
              follows,
              late,
              passes,
            )
      ]

emitted_lem :
    (process : Event → Bool) (s : EmitterState) (created : Option Event) {e : Event}
    {s' : EmitterState}
    → emitted process s created ≡ (some e, s')
    → (created ≡ some e)
      × (process e ≡ true)
      × (s' ≡ record s { prev_local_emitted_id = e.id; prev_emitted_time = e.raw_time })
emitted_lem process s none run = absurd cc
emitted_lem process s (some x) {e} {s'} run = elim (Bool-cases (process x)) [
  | inr failed ↦ let nothing = rw failed at run in absurd cc
  | inl processed ↦
      let done = rw processed at run in
      let same : x ≡ e = cc in
      let state : record s { prev_local_emitted_id = x.id; prev_emitted_time = x.raw_time } ≡ s' =
        ap (λ r. r.1) done in
      (
        ap (λ (z : Event). some z) same,
        ap process (sym same) ∙ processed,
        sym state
            ∙ ap
                (λ (z : Event). record s {
                  prev_local_emitted_id = z.id;
                  prev_emitted_time = z.raw_time;
                })
                same,
      )
]

module _ (platform : Platform) (config : EmitterConfig) (world : World) (process : Event → Bool)
    (s : EmitterState) (payload : List ℕ) where
  -- When world.Build leaves the fields that createEvent set, the stored events' numbers have room
  -- for one more, and EmitEvent returns an event, then the event has the node's epoch, the
  -- validator as its creator, the payload and the chosen parents, all of which are stored; its
  -- Lamport time is above each parent's; it is the creator's first with number 1, or its number is
  -- one more than the self-parent's and its time later; its time is not before the clock; it passed
  -- the checks and was processed; and it becomes the last emitted one.
  pub emit_event-Follows :
      {e : Event} {s' : EmitterState}
      → ((a b : Event) → world.consensus_build a ≡ some b → SameFields a b)
      → ((id : EventId) (q : Event) → world.stored_event id ≡ some q → IsInRange q)
      → emit_event platform config world process s payload ≡ some (some e, s')
      → Follows config world payload e
        × (process e ≡ true)
        × (s' ≡ record s { prev_local_emitted_id = e.id; prev_emitted_time = e.raw_time })
  unfolding emit_event
  emit_event-Follows fills ranges run = elim (Bool-cases (config.validator == 0)) [
    | inl none_here ↦ let nothing = rw none_here at run in absurd cc
    | inr validates ↦
        let emitting = rw validates at run in
        let (created, creation, rest) =
          >>=-eq-some (create_event platform config world s payload) _ emitting in
        let (same, processed, state) = emitted_lem process s created (some_injective rest) in
        (
          create_event-Follows platform config world s payload fills ranges
              (creation ∙ ap (λ (o : Option Event). some o) same),
          processed,
          state,
        )
  ]
