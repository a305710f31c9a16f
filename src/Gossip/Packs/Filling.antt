-- ===== src/Gossip/Packs/Filling.antt =====
-- The open pack of an epoch never reaches the limits, and a full one is sealed with one event more.
use go_mini_opera.Prelude.{
  ℕ, ◌+◌, ◌^◌, ◌≤◌, ◌<◌, ◌≡◌, ◌≢◌, refl, sym, ap, ◌∙◌, arith, true, false, Option, none, some, List,
  [], ◌∷◌, leb, Bool-cases, inl, inr, ◌⊎◌, subst,
}
use go_mini_opera.Inter.Event.{Event}
use go_mini_opera.Gossip.Kv.{KvLaws}
use go_mini_opera.Gossip.Heads.{EventId}
use go_mini_opera.Gossip.Packs.{
  PackInfo, max_pack_size, max_pack_events_num, PackKv, PackTables, pack_suc, or_default,
  get_pack_info, get_pack_info_or_default, set_pack_info, add_to_pack, get_packs_num,
  get_packs_num_or_default, set_packs_num, send_new_pack, grow, is_full, packs_on_new_event,
}

abbrev pub IsBelowLimits : PackInfo → Type 0
IsBelowLimits info = (info.num_of_events < max_pack_events_num) × (info.size < max_pack_size)

module _ (kv : PackKv) (info_laws : KvLaws kv.infos) (num_laws : KvLaws kv.nums) where
  -- The open pack is below both limits, and there is none after it.
  pub record IsOpen (s : PackTables kv) (epoch : ℕ) : Type 0 where
    pub below :
        IsBelowLimits (get_pack_info_or_default kv s epoch (get_packs_num_or_default kv s epoch))
    pub last : (i : ℕ) → get_packs_num_or_default kv s epoch < i → get_pack_info kv s epoch i ≡ none

  get_pack_info_self :
      (s : PackTables kv) (epoch i : ℕ) (info : PackInfo)
      → get_pack_info kv (set_pack_info kv s epoch i info) epoch i ≡ some info
  unfolding get_pack_info set_pack_info
  get_pack_info_self s epoch i info = info_laws.get-put_self s.infos (epoch, i) info

  get_pack_info_ne :
      (s : PackTables kv) (epoch i j : ℕ) (info : PackInfo)
      → j ≢ i
      → get_pack_info kv (set_pack_info kv s epoch i info) epoch j ≡ get_pack_info kv s epoch j
  unfolding get_pack_info set_pack_info
  get_pack_info_ne s epoch i j info differ =
      info_laws.get-put_ne s.infos (epoch, i) (epoch, j) info (λ same. differ (ap (λ p. p.1) same))

  get_packs_num_self :
      (s : PackTables kv) (epoch n : ℕ)
      → get_packs_num_or_default kv (set_packs_num kv s epoch n) epoch ≡ n
  unfolding get_packs_num_or_default get_packs_num set_packs_num
  get_packs_num_self s epoch n = ap (λ o. or_default o 1) (num_laws.get-put_self s.nums epoch n)

  -- What an event does to the open pack `i` with `old` in it: it grows by the event.
  pub record Grows (old info : PackInfo) (i : ℕ) (e : Event) : Type 0 where
    pub index : info.index ≡ i
    pub num_of_events : info.num_of_events ≡ old.num_of_events + 1
    pub size : info.size ≡ old.size + e.size

  -- It stays open, below the limits.
  pub record Stays (s r : PackTables kv) (epoch i : ℕ) (e : Event) : Type 0 where
    pub num : get_packs_num_or_default kv r epoch ≡ i
    pub info : PackInfo
    pub stored : get_pack_info kv r epoch i ≡ some info
    pub grows : Grows (get_pack_info_or_default kv s epoch i) info i e
    pub below : IsBelowLimits info
    pub quiet : r.sent ≡ s.sent

  -- It is sealed with the heads, at a limit but at most one event over it, and the next one is open.
  pub record Seals (s r : PackTables kv) (heads : List EventId) (epoch i : ℕ) (e : Event)
      : Type 0 where
    pub num : get_packs_num_or_default kv r epoch ≡ i + 1
    pub info : PackInfo
    pub stored : get_pack_info kv r epoch i ≡ some info
    pub grows : Grows (get_pack_info_or_default kv s epoch i) info i e
    pub full : (info.num_of_events ≡ max_pack_events_num) ⊎ (max_pack_size ≤ info.size)
    pub pinned : info.heads ≡ heads
    pub notified : r.sent ≡ (i + 1) ∷ s.sent

  grow_lem :
      (old : PackInfo) (i : ℕ) (e : Event)
      → IsBelowLimits old
      → e.size < 2 ^ 31
      → Grows old (grow old i e) i e
  unfolding grow
  grow_lem old i e below small = record {
    index = refl;
    num_of_events = omega (arith, below.0);
    size = omega (arith, below.1);
  }

  is_full-false : (info : PackInfo) → is_full info ≡ false → IsBelowLimits info
  unfolding is_full
  is_full-false info h = (ground arith, ground arith)

  is_full-true :
      (info : PackInfo)
      → is_full info ≡ true
      → (max_pack_events_num ≤ info.num_of_events) ⊎ (max_pack_size ≤ info.size)
  unfolding is_full
  is_full-true info h = elim (Bool-cases (leb max_pack_size info.size)) [
    | inl large ↦ inr (ground arith)
    | inr small ↦ inl (ground arith)
  ]

  IsOpen-at :
      (r : PackTables kv) (epoch n : ℕ)
      → get_packs_num_or_default kv r epoch ≡ n
      → IsBelowLimits (get_pack_info_or_default kv r epoch n)
      → ((i : ℕ) → n < i → get_pack_info kv r epoch i ≡ none)
      → IsOpen r epoch
  IsOpen-at r epoch n same below last = record {
    below = subst (λ m. IsBelowLimits (get_pack_info_or_default kv r epoch m)) (sym same) below;
    last = λ i later. last i (omega (arith, same));
  }

  below_found :
      (r : PackTables kv) (epoch n : ℕ) (found : Option PackInfo)
      → get_pack_info kv r epoch n ≡ found
      → IsBelowLimits
          (or_default found (record { index = n; size = 0; num_of_events = 0; heads = [] }))
      → IsBelowLimits (get_pack_info_or_default kv r epoch n)
  unfolding get_pack_info_or_default
  below_found r epoch n found same below = rw same below

  module _ (s : PackTables kv) (heads : List EventId) (e : Event) (epoch : ℕ)
      (open' : IsOpen s epoch) (room : get_packs_num_or_default kv s epoch + 1 < 2 ^ 32)
      (small : e.size < 2 ^ 31) where
    -- When the open pack of an epoch is below the limits, its number below 2 ^ 32 - 1 and the event
    -- smaller than 2 ^ 31 bytes, packsOnNewEvent grows the pack by the event without wrapping
    -- around, and either the pack stays open below both limits with no notification, or it reached
    -- the number of events exactly or the size, is sealed with the heads, the next number is open
    -- and is announced.
    pub packs_on_new_event-cases :
        let i = get_packs_num_or_default kv s epoch in
        let r = packs_on_new_event kv s heads e epoch in
        Stays s r epoch i e ⊎ Seals s r heads epoch i e
    unfolding packs_on_new_event get_packs_num_or_default get_packs_num set_packs_num set_pack_info
        add_to_pack send_new_pack
    packs_on_new_event-cases = elim (Bool-cases (is_full (grow before i e))) [
      | inl full ↦ inr (
          rw full (record {
            num = get_packs_num_self s epoch (pack_suc i) ∙ omega (arith, room);
            info = record (grow before i e) { heads = heads };
            stored = get_pack_info_self _ epoch i _;
            grows = record {
              index = grown.index;
              num_of_events = grown.num_of_events;
              size = grown.size;
            };
            full = at_limit full;
            pinned = refl;
            notified = ap (λ n. n ∷ s.sent) (omega (arith, room));
          }))
      | inr fits ↦ inl (
          rw fits (record {
            num = refl;
            info = grow before i e;
            stored = get_pack_info_self _ epoch i _;
            grows = grown;
            below = is_full-false _ fits;
            quiet = refl;
          }))
    ]
      where
        i : ℕ
        i = get_packs_num_or_default kv s epoch

        before : PackInfo
        before = get_pack_info_or_default kv s epoch i

        grown : Grows before (grow before i e) i e
        grown = grow_lem before i e open'.below small

        at_limit :
            is_full (grow before i e) ≡ true
            → ((grow before i e).num_of_events ≡ max_pack_events_num)
              ⊎ (max_pack_size ≤ (grow before i e).size)
        at_limit full = elim (is_full-true (grow before i e) full) [
          | inl many ↦ inl (omega (arith, many, grown.num_of_events, open'.below.0))
          | inr large ↦ inr large
        ]

    info_after :
        (j : ℕ)
        → j ≢ get_packs_num_or_default kv s epoch
        → get_pack_info kv (packs_on_new_event kv s heads e epoch) epoch j
          ≡ get_pack_info kv s epoch j
    unfolding packs_on_new_event send_new_pack get_pack_info set_packs_num add_to_pack
    info_after j differ =
        let i = get_packs_num_or_default kv s epoch in
        elim (Bool-cases (is_full (grow (get_pack_info_or_default kv s epoch i) i e))) [
          | inl full ↦ rw full (get_pack_info_ne _ epoch i j _ differ)
          | inr fits ↦ rw fits (get_pack_info_ne _ epoch i j _ differ)
        ]

    -- When the open pack of an epoch is below the limits with no pack behind it, its number below 2
    -- ^ 32 - 1 and the event smaller than 2 ^ 31 bytes, the open pack after packsOnNewEvent is
    -- again below the limits with no pack behind it.
    pub packs_on_new_event-IsOpen : IsOpen (packs_on_new_event kv s heads e epoch) epoch
    packs_on_new_event-IsOpen = elim packs_on_new_event-cases [
      | inl stays ↦
          IsOpen-at _ epoch _ stays.num
            (below_found _ epoch _ (some stays.info) stays.stored stays.below)
            (λ j later. info_after j (λ same. absurd (omega (arith, same))) ∙ open'.last j later)
      | inr seals ↦
          IsOpen-at _ epoch _ seals.num
            (below_found _ epoch _ none
              (info_after _ (λ same. absurd (omega (arith, same))) ∙ open'.last _ (omega arith))
              (omega arith, omega arith))
            (λ j later.
              info_after j (λ same. absurd (omega (arith, same))) ∙ open'.last j (omega arith))
    ]
