-- ===== src/Gossip/Lifecycle/Sessions.antt =====
-- What the loop of a peer's handler keeps, and the highest progress.
use go_mini_opera.Prelude.{
  ℕ, zero, suc, ◌≡◌, ◌≤◌, refl, sym, ap, ◌∙◌, ◌⊎◌, inl, inr, none, some, List, [], ◌∷◌, ◌++◌,
  append-nil, append_assoc, All, Bool-cases, ltb, if◌then◌else◌, get_elem?, arith,
}
use go_mini_opera.Gossip.EventSets.{EventSet, EventSetLaws}
use go_mini_opera.Gossip.Peers.{Peer, PeerProgress, Result, Link, Message}
use go_mini_opera.Gossip.Peers.Known.{IsBounded}
use go_mini_opera.Gossip.PeerSets.{PeerSet}
use go_mini_opera.Gossip.Handler.{Session, handle_msg}
use go_mini_opera.Gossip.Handler.Effects.{IsWithinLimits}
use go_mini_opera.Gossip.Handler.Invariants.{handle_msg-Answers, handle_msg-IsBounded}
use go_mini_opera.Gossip.Lifecycle.{
  ProgressView, my_progress, highest_from, highest_peer_progress, Turn, next_turn, handle_loop,
}

All-append :
    (xs ys : List Message)
    → All IsWithinLimits xs
    → All IsWithinLimits ys
    → All IsWithinLimits (xs ++ ys)
All-append [] ys h k = k
All-append (x ∷ xs) ys (hx, h) k = (hx, All-append xs ys h k)

module _ (set : EventSet) (laws : EventSetLaws set) (link : Link) where
  -- The messages sent are within their limits, and the known events within their bound.
  abbrev pub IsSafe : Session set → Result × Session set → Type 0
  IsSafe s r =
      (ms : List Message) × (r.1.peer.sent ≡ s.peer.sent ++ ms)
      × All IsWithinLimits ms
      × IsBounded set r.1.peer

  next_turn-IsSafe :
      (s : Session set) (r : Result × Session set) (run : Session set → Result × Session set)
      → IsSafe s r
      → ((s' : Session set) → IsBounded set s'.peer → IsSafe s' (run s'))
      → IsSafe s (next_turn set r run)
  next_turn-IsSafe s (some e, s') run h k = h
  next_turn-IsSafe s (none, s') run (ms, sent, within, bounded) k =
      let (ms', sent', within', bounded') = k s' bounded in
      (
        ms ++ ms',
        sent' ∙ ap (λ l. l ++ ms') sent ∙ append_assoc s.peer.sent ms ms',
        All-append ms ms' within within',
        bounded',
      )

  -- When a peer's known events are within their bound of 16384, then after any sequence of incoming
  -- messages that the loop of handle takes, whatever the store and the downloader are at each of
  -- them, they still are, and everything that was sent in between is within its limit.
  pub handle_loop-IsSafe :
      (turns : List (Turn set)) (s : Session set)
      → IsBounded set s.peer
      → IsSafe s (handle_loop set link s turns)
  unfolding handle_loop
  handle_loop-IsSafe [] s bounded = ([], sym (append-nil s.peer.sent), tt, bounded)
  handle_loop-IsSafe (t ∷ turns) s bounded =
      let (ms, sent, one, within, quiet) =
        handle_msg-Answers set t.view link t.downloading s t.reading in
      next_turn-IsSafe s (handle_msg set t.view t.downloading link s t.reading)
        (λ s'. handle_loop set link s' turns)
        (
          ms,
          sent,
          within,
          handle_msg-IsBounded set t.view link t.downloading s t.reading laws bounded,
        )
        (handle_loop-IsSafe turns)

module _ (set : EventSet) where
  abbrev pub IsFrom : PeerProgress → List (Peer set) → PeerProgress → Type 0
  IsFrom own ps max =
      (max ≡ own) ⊎ ((i : ℕ) × (p : Peer set) × (get_elem? ps i ≡ some p) × (max ≡ p.progress))

  abbrev pub IsHighest : PeerProgress → List (Peer set) → PeerProgress → Type 0
  IsHighest own ps max =
      IsFrom own ps max
      × (own.num_of_blocks ≤ max.num_of_blocks)
      × All (λ (p : Peer set). p.progress.num_of_blocks ≤ max.num_of_blocks) ps

  or_peer :
      (p : Peer set) (ps : List (Peer set)) {own start max : PeerProgress}
      → IsFrom own (p ∷ ps) start
      → IsFrom start ps max
      → IsFrom own (p ∷ ps) max
  or_peer p ps (inl e) (inl kept) = inl (kept ∙ e)
  or_peer p ps (inr (i, q, at, e)) (inl kept) = inr (i, q, at, kept ∙ e)
  or_peer p ps first (inr (i, q, at, same)) = inr (suc i, q, at, same)

  highest_from_lem :
      (ps : List (Peer set)) (max : PeerProgress) → IsHighest max ps (highest_from set max ps)
  unfolding highest_from
  highest_from_lem [] max = (inl refl, omega arith, tt)
  highest_from_lem (p ∷ ps) max =
      let start = if ltb max.num_of_blocks p.progress.num_of_blocks then p.progress else max in
      let (source, above, rest) = highest_from_lem ps start in
      elim (Bool-cases (ltb max.num_of_blocks p.progress.num_of_blocks)) [
        | inl more ↦
            let e : start ≡ p.progress = rw more refl in
            let same_num = ap (λ (x : PeerProgress). x.num_of_blocks) e in
            let less : max.num_of_blocks ≤ p.progress.num_of_blocks = ground arith in
            (or_peer p ps (inr (zero, p, refl, e)) source, omega arith, (omega arith, rest))
        | inr less ↦
            let e : start ≡ max = rw less refl in
            let same_num = ap (λ (x : PeerProgress). x.num_of_blocks) e in
            let fewer : p.progress.num_of_blocks ≤ max.num_of_blocks = ground arith in
            (or_peer p ps (inl e) source, omega arith, (omega arith, rest))
      ]

  pub highest_peer_progress_lem :
      (view : ProgressView) (ps : PeerSet set)
      → IsHighest (my_progress view) ps.peers (highest_peer_progress set view ps)
  unfolding highest_peer_progress
  highest_peer_progress_lem view ps = highest_from_lem ps.peers (my_progress view)
