-- ===== src/Gossip/Heads/Tracking.antt =====
-- The Heads table against the events of the epoch that are connected.
use go_mini_opera.Prelude.{
  ◌≡◌, ◌≢◌, sym, ap, ◌∙◌, subst, ◌↔◌, ◌⊎◌, inl, inr, true, false, none, some, List, [], ◌∷◌,
  Bool-cases,
}
use go_mini_opera.Inter.Event.{Event}
use go_mini_opera.Utils.Migration.{str_eq}
use go_mini_opera.Utils.Migration.Resume.{str_eq_sound, str_eq_refl}
use go_mini_opera.Gossip.Kv.{KvLaws}
use go_mini_opera.Gossip.Heads.{
  EventId, EpochKv, EpochTables, is_some, del_head, add_head, is_head, set_last_event, del_heads,
  track_event, IsIn, IsEventOf, IsParentOf, IsHeadOf,
}

pub true_ne_false : true ≢ false
true_ne_false h = absurd cc

-- Two ids are the same or not.
pub id-cases : (a b : EventId) → (a ≡ b) ⊎ (a ≢ b)
id-cases a b = elim (Bool-cases (str_eq a b)) [
  | inl same ↦ inl (str_eq_sound a b same)
  | inr differ ↦
      inr
        (λ e. absurd (true_ne_false (sym (str_eq_refl b) ∙ ap (λ x. str_eq x b) (sym e) ∙ differ)))
]

module _ (kv : EpochKv) (laws : KvLaws kv.heads) where
  is_head-del_head :
      (es : EpochTables kv) (p id : EventId)
      → (is_head kv (del_head kv es p) id ≡ true) ↔ ((id ≢ p) × (is_head kv es id ≡ true))
  unfolding is_head del_head
  is_head-del_head es p id = elim (id-cases id p) [
    | inl same ↦
        let gone : kv.heads.get (kv.heads.delete es.heads p) id ≡ none =
          ap (λ x. kv.heads.get (kv.heads.delete es.heads p) x) same
          ∙ laws.get-delete_self es.heads p in
        (λ h. absurd (true_ne_false (sym h ∙ ap is_some gone)), λ h. absurd (h.0 same))
    | inr differ ↦ rw (laws.get-delete_ne es.heads p id differ) ((λ h. (differ, h)), λ h. h.1)
  ]

  is_head-add_head :
      (es : EpochTables kv) (p id : EventId)
      → (is_head kv (add_head kv es p) id ≡ true) ↔ ((id ≡ p) ⊎ (is_head kv es id ≡ true))
  unfolding is_head add_head
  is_head-add_head es p id = elim (id-cases id p) [
    | inl same ↦
        let there : kv.heads.get (kv.heads.put es.heads p []) id ≡ some [] =
          ap (λ x. kv.heads.get (kv.heads.put es.heads p []) x) same
          ∙ laws.get-put_self es.heads p [] in
        (λ h. inl same, λ h. ap is_some there)
    | inr differ ↦
        rw (laws.get-put_ne es.heads p id [] differ)
          ((λ h. inr h), λ h. elim h [ inl same ↦ absurd (differ same) | inr old ↦ old ])
  ]

  is_head-del_heads :
      (ps : List EventId) (es : EpochTables kv) (id : EventId)
      → (is_head kv (del_heads kv es ps) id ≡ true) ↔ ((is_head kv es id ≡ true) × (¬ IsIn id ps))
  unfolding del_heads
  is_head-del_heads [] es id = ((λ h. (h, λ x. x)), λ h. h.0)
  is_head-del_heads (p ∷ ps) es id =
      let (out, back) = is_head-del_heads ps (del_head kv es p) id in
      let (step, unstep) = is_head-del_head es p id in
      (
        (λ h. (
          (step (out h).0).1,
          λ x. elim x [ inl same ↦ (step (out h).0).0 same | inr later ↦ (out h).1 later ],
        )),
        λ h. back (unstep ((λ same. h.1 (inl same)), h.0), λ later. h.1 (inr later)),
      )

  -- The heads of the table are the connected events without descendants, and the parents of the
  -- connected events are connected.
  pub record Tracks (es : EpochTables kv) (events : List Event) : Type 0 where
    pub heads : (id : EventId) → (is_head kv es id ≡ true) ↔ IsHeadOf events id
    pub closed : (id : EventId) → IsParentOf events id → IsEventOf events id

  track_event-is_head :
      (es : EpochTables kv) (e : Event) (id : EventId)
      → (is_head kv (track_event kv es e) id ≡ true)
        ↔ ((id ≡ e.id) ⊎ ((is_head kv es id ≡ true) × (¬ IsIn id e.parents)))
  unfolding track_event set_last_event is_head
  track_event-is_head es e id =
      let cleared = del_heads kv (set_last_event kv es e.creator e.id) e.parents in
      let (out, back) = is_head-add_head cleared e.id id in
      let (old, keep) = is_head-del_heads e.parents (set_last_event kv es e.creator e.id) id in
      (
        (λ h. elim (out h) [ inl same ↦ inl same | inr kept ↦ inr (old kept) ]),
        λ h. elim h [ inl same ↦ back (inl same) | inr kept ↦ back (inr (keep kept)) ],
      )

  -- If the Heads table holds exactly the connected events without descendants, and the parents of
  -- connected events are connected, this is so again after a new event is tracked whose parents are
  -- connected, given that the table reads what was last put or deleted.
  pub track_event-Tracks :
      (es : EpochTables kv) (events : List Event) (e : Event)
      → Tracks es events
      → (¬ IsEventOf events e.id)
      → ((id : EventId) → IsIn id e.parents → IsEventOf events id)
      → Tracks (track_event kv es e) (e ∷ events)
  track_event-Tracks es events e tracks fresh connected = record {
    heads = λ id.
        let (out, back) = track_event-is_head es e id in
        (
          (λ h. elim (out h) [
            | inl same ↦ record {
              event = inl same;
              childless = λ child. elim child [
                | inl own ↦ unknown id same (connected id own)
                | inr older ↦ unknown id same (tracks.closed id older)
              ];
            }
            | inr (head, not_parent) ↦
                let was = (tracks.heads id).0 head in
                record {
                  event = inr was.event;
                  childless = λ child. elim child [
                    | inl own ↦ not_parent own
                    | inr older ↦ was.childless older
                  ];
                }
          ]),
          λ h. elim (h.event) [
            | inl same ↦ back (inl same)
            | inr older ↦ back (
                inr (
                  (tracks.heads id).1
                      (record { event = older; childless = λ c. h.childless (inr c) }),
                  λ own. h.childless (inl own),
                ))
          ],
        );
    closed = λ id child. elim child [
      | inl own ↦ inr (connected id own)
      | inr older ↦ inr (tracks.closed id older)
    ];
  }
    where
      unknown : (id : EventId) → id ≡ e.id → ¬ IsEventOf events id
      unknown id same known = fresh (subst (λ x. IsEventOf events x) same known)
