-- ===== src/Gossip/PeerSets/Best.antt =====
-- The order of PeerProgress, and the peer that BestPeer picks.
use go_mini_opera.Prelude.{
  ℕ, zero, suc, ◌≡◌, refl, sym, ◌∙◌, ◌⊎◌, inl, inr, true, false, Option, none, some, List, [], ◌∷◌,
  All, Bool-cases, get_elem?, arith,
}
use go_mini_opera.Gossip.EventSets.{EventSet}
use go_mini_opera.Gossip.Heads.Tracking.{true_ne_false}
use go_mini_opera.Gossip.Peers.{Peer, PeerProgress, progress_less, no_progress}
use go_mini_opera.Gossip.PeerSets.{PeerSet, best_from, best_peer}

progress_less_irrefl : (a : PeerProgress) → progress_less a a ≡ false
unfolding progress_less
progress_less_irrefl a = ground arith

progress_less_trans :
    (a b c : PeerProgress)
    → progress_less a b ≡ true
    → progress_less b c ≡ true
    → progress_less a c ≡ true
unfolding progress_less
progress_less_trans a b c h k = ground arith

not_back : (a b : PeerProgress) → progress_less a b ≡ true → progress_less b a ≡ false
not_back a b h = elim (Bool-cases (progress_less b a)) [
  | inr done ↦ done
  | inl back ↦
      absurd (true_ne_false (sym (progress_less_trans a b a h back) ∙ progress_less_irrefl a))
]

progress_less_not :
    (a b c : PeerProgress)
    → progress_less a b ≡ false
    → progress_less a c ≡ true
    → progress_less c b ≡ false
progress_less_not a b c h further = elim (Bool-cases (progress_less c b)) [
  | inr done ↦ done
  | inl above ↦ absurd (true_ne_false (sym (progress_less_trans a c b further above) ∙ h))
]

module _ (set : EventSet) where
  abbrev pub IsNotPassed : PeerProgress → List (Peer set) → Type 0
  IsNotPassed progress ps = All (λ (q : Peer set). progress_less progress q.progress ≡ false) ps

  -- The loop from `progress` keeps `best`, or ends with a peer that is further and that none passes.
  abbrev pub Picks : List (Peer set) → Option (Peer set) → PeerProgress → Option (Peer set) → Type 0
  Picks ps best progress result =
      ((result ≡ best) × IsNotPassed progress ps)
      ⊎ ((p : Peer set) × (i : ℕ) × (result ≡ some p)
          × (get_elem? ps i ≡ some p)
          × (progress_less progress p.progress ≡ true)
          × IsNotPassed p.progress ps)

  best_from_lem :
      (ps : List (Peer set)) (best : Option (Peer set)) (progress : PeerProgress)
      → Picks ps best progress (best_from set ps best progress)
  unfolding best_from
  best_from_lem [] best progress = inl (refl, tt)
  best_from_lem (p ∷ ps) best progress = elim (Bool-cases (progress_less progress p.progress)) [
    | inl better ↦ elim (best_from_lem ps (some p) p.progress) [
      | inl (kept, rest) ↦
          inr (p, zero, rw better kept, refl, better, (progress_less_irrefl p.progress, rest))
      | inr (q, i, picked, at, further, rest) ↦ inr (
        q,
        suc i,
        rw better picked,
        at,
        progress_less_trans progress p.progress q.progress better further,
        (not_back p.progress q.progress further, rest),
      )
    ]
    | inr worse ↦ elim (best_from_lem ps best progress) [
      | inl (kept, rest) ↦ inl (rw worse kept, (worse, rest))
      | inr (q, i, picked, at, further, rest) ↦ inr (
        q,
        suc i,
        rw worse picked,
        at,
        further,
        (progress_less_not progress p.progress q.progress worse further, rest),
      )
    ]
  ]

  -- BestPeer returns a registered peer whose progress is past the zero progress and which no
  -- registered peer's progress passes, or nil when no registered peer's progress is past the zero
  -- progress.
  pub best_peer_lem : (ps : PeerSet set) → Picks ps.peers none no_progress (best_peer set ps)
  unfolding best_peer
  best_peer_lem ps = best_from_lem ps.peers none no_progress
