-- ===== src/Gossip/Peers/Requests.antt =====
-- What RequestEvents of gossip/peer.go sends.
use go_mini_opera.Prelude.{
  ℕ, zero, suc, ◌+◌, ◌-◌, ◌<◌, ◌≤◌, ◌≡◌, ◌≢◌, refl, sym, ap, ◌∙◌, ◌⊎◌, inl, inr, false, Option,
  none, some, List, [], ◌∷◌, ◌++◌, map, ltb, leb, length, take, drop, All, Bool-cases, Option-cases,
  drop-drop, drop_beyond, take_beyond, length-take, length-drop, take-append-drop, append-nil,
  append_assoc, arith,
}
use go_mini_opera.Gossip.Heads.{EventId}
use go_mini_opera.Gossip.EventSets.{EventSet}
use go_mini_opera.Gossip.Peers.{
  Peer, PeerError, Link, Result, Message, get_events_msg, send, request_end, request_from,
  request_events,
}

request_size :
    (start n : ℕ)
    → start < n
    → ((request_end start n - start ≡ 250) × (start + 250 < n))
      ⊎ ((request_end start n - start ≡ n - start) × (n ≤ start + 250))
request_size start n h = elim (Bool-cases (leb n (start + 250))) [
  | inl near ↦ inr (ground arith, ground arith)
  | inr far ↦ inl (ground arith, ground arith)
]

abbrev request_at : List EventId → ℕ → List EventId
request_at ids start = take (request_end start (length ids) - start) (drop start ids)

abbrev pub IsRequest : List EventId → Type 0
IsRequest batch = (0 < length batch) × (length batch ≤ 250)

request_at_lem :
    (ids : List EventId) (start : ℕ) → start < length ids → IsRequest (request_at ids start)
request_at_lem ids start h = elim (request_size start (length ids) h) [
  | inl (full, far) ↦ (omega (arith, sized), omega (arith, sized))
  | inr (all, near) ↦ (omega (arith, sized), omega (arith, sized))
]
  where
    sized : length (request_at ids start) ≡ request_end start (length ids) - start
    sized = length-take _ _ (ground (arith, length-drop start ids))

request_at-rest :
    (ids : List EventId) (start : ℕ)
    → start < length ids
    → request_at ids start ++ drop (start + 250) ids ≡ drop start ids
request_at-rest ids start h = elim (request_size start (length ids) h) [
  | inl (full, far) ↦
      rw (full, sym (drop-drop 250 start ids)) (take-append-drop 250 (drop start ids))
  | inr (all, near) ↦
      rw
        (
          all,
          drop_beyond (start + 250) ids near,
          take_beyond (length ids - start) (drop start ids) (omega (arith, length-drop start ids)),
        )
        (append-nil _)
]

-- The ids of the requests, in their order.
abbrev pub all_ids : List (List EventId) → List EventId
all_ids [] = []
all_ids (batch ∷ batches) = batch ++ all_ids batches

module _ (set : EventSet) (link : Link) where
  pub send-cases :
      (p : Peer set) (m : Message)
      → (send set link p m ≡ (none, record p { sent = p.sent ++ (m ∷ []) }))
        ⊎ ((err : PeerError) × (send set link p m ≡ (some err, p)))
  unfolding send
  send-cases p m = elim (Option-cases (link p.sent m)) [
    | inl sent ↦ inl (ground arith)
    | inr (err, failed) ↦ inr (err, ground arith)
  ]

module _ (set : EventSet) (link : Link) (ids : List EventId) where
  -- What the loop from `start` ends with.
  abbrev pub Requests : ℕ → Peer set → Option (Result × Peer set) → Type 0
  Requests start p run =
      (err : Result) × (batches : List (List EventId)) × (rest : List EventId) × (run
        ≡ some (err, record p { sent = p.sent ++ map get_events_msg batches }))
      × All IsRequest batches
      × (all_ids batches ++ rest ≡ drop start ids)
      × ((err ≢ none) ⊎ (rest ≡ []))

  no_request :
      (start : ℕ) (p : Peer set) (k : ℕ)
      → length ids ≤ start
      → Requests start p (request_from set (suc k) link p ids start)
  unfolding request_from
  no_request start p k h =
      let past : ltb start (length ids) ≡ false = ground arith in
      (none, [], [], rw (past, append-nil p.sent) refl, tt, sym (drop_beyond start ids h), inr refl)

  request_from_lem :
      (k start : ℕ) (p : Peer set)
      → length ids ≤ start + k
      → Requests start p (request_from set (suc k) link p ids start)
  unfolding request_from
  request_from_lem zero start p h = no_request start p zero (omega arith)
  request_from_lem (suc k) start p h = elim (Bool-cases (ltb start (length ids))) [
    | inr past ↦ no_request start p (suc k) (ground arith)
    | inl within ↦
        let inside : start < length ids = ground arith in
        elim (send-cases set link p (get_events_msg (request_at ids start))) [
          | inr (err, failed) ↦ (
            some err,
            [],
            drop start ids,
            rw (within, failed, append-nil p.sent) refl,
            tt,
            refl,
            inl (λ e. cc),
          )
          | inl sent ↦
              let (err, batches, rest, run, sizes, split, all) =
                request_from_lem k (start + 250)
                  (record p { sent = p.sent ++ (get_events_msg (request_at ids start) ∷ []) })
                  (omega arith) in
              (
                err,
                request_at ids start ∷ batches,
                rest,
                rw (within, sent)
                    (run
                      ∙ ap (λ m. some (err, record p { sent = m }))
                          (append_assoc p.sent (get_events_msg (request_at ids start) ∷ [])
                            (map get_events_msg batches))),
                (request_at_lem ids start inside, sizes),
                append_assoc (request_at ids start) (all_ids batches) rest
                    ∙ ap (λ r. request_at ids start ++ r) split
                    ∙ request_at-rest ids start inside,
                all,
              )
        ]
  ]

  -- RequestEvents ends within its fuel and requests a beginning of the ids in their order, in
  -- messages of one to 250 ids; the beginning is all of the ids unless an error is returned.
  pub request_events_lem : (p : Peer set) → Requests 0 p (request_events set link p ids)
  unfolding request_events
  request_events_lem p = request_from_lem (length ids) 0 p (omega arith)
