-- ===== src/Gossip/Incoming.antt =====
-- The messages that a peer sends, and the handshake of gossip/peer.go. A message is given with what
-- Decode makes of it as each of the types; `none` is an error of Decode.
use go_mini_opera.Prelude.{
  ℕ, zero, suc, ◌*◌, ◌≤◌, ◌≡◌, refl, ap, ◌⊎◌, inl, inr, not, Option, none, some, List, [], ◌∷◌,
  ◌++◌, ltb, ◌==◌, if◌then◌else◌, arith, Option-cases, append_assoc,
}
use go_mini_opera.Inter.Event.{Event}
use go_mini_opera.Utils.Migration.{str_eq}
use go_mini_opera.Utils.Migration.Resume.{str_eq_sound}
use go_mini_opera.Gossip.Heads.{EventId}
use go_mini_opera.Gossip.Packs.{PackInfo}
use go_mini_opera.Gossip.EventSets.{EventSet}
use go_mini_opera.Gossip.Peers.{
  Peer, PeerProgress, StatusData, PeerError, err_resp, err_no_status_msg, err_msg_too_large,
  err_decode, err_genesis_mismatch, err_network_id_mismatch, err_protocol_version_mismatch,
  disc_read_timeout, Result, Link, status_msg, progress_msg, send, send_progress,
}
use go_mini_opera.Gossip.Peers.Requests.{send-cases}

pub record PackInfosData : Type 0 where
  pub epoch : ℕ
  pub total_num_of_packs : ℕ
  pub infos : List PackInfo

pub record PackData : Type 0 where
  pub epoch : ℕ
  pub index : ℕ
  pub ids : List EventId

pub record GetPackInfosData : Type 0 where
  pub epoch : ℕ
  pub indexes : List ℕ

pub record GetPackData : Type 0 where
  pub epoch : ℕ
  pub index : ℕ

pub record Incoming : Type 0 where
  pub code : ℕ
  pub size : ℕ
  pub as_status : Option StatusData
  pub as_progress : Option PeerProgress
  pub as_event_ids : Option (List EventId)
  pub as_events : Option (List Event)
  pub as_get_pack_infos : Option GetPackInfosData
  pub as_pack_infos : Option PackInfosData
  pub as_get_pack : Option GetPackData
  pub as_pack : Option PackData

-- What ReadMsg returns.
abbrev pub Reading : Type 0
Reading = PeerError ⊎ Incoming

abbrev pub protocol_max_msg_size : ℕ
protocol_max_msg_size = 10 * 1024 * 1024

abbrev pub code_of_status : ℕ
code_of_status = 0

-- The checks of `readStatus` on a status.
unfoldable pub check_status : (version network : ℕ) → (genesis : List ℕ) → StatusData → Result
check_status version network genesis status =
    if not (str_eq status.genesis genesis)
    then some (err_resp err_genesis_mismatch)
    else (if not (status.network_id == network)
        then some (err_resp err_network_id_mismatch)
        else (if not (status.protocol_version == version)
            then some (err_resp err_protocol_version_mismatch)
            else none))

-- `readStatus`.
unfoldable pub read_status : (version network : ℕ) → (genesis : List ℕ) → Reading → Result
read_status version network genesis (inl err) = some err
read_status version network genesis (inr msg) =
    if not (msg.code == code_of_status)
    then some (err_resp err_no_status_msg)
    else (if ltb protocol_max_msg_size msg.size
        then some (err_resp err_msg_too_large)
        else elim msg.as_status [
          | none ↦ some (err_resp err_decode)
          | some status ↦ check_status version network genesis status
        ])

-- What the loop of Handshake receives next: a value of the one goroutine, of the other, or the time
-- is over.
pub data Pick : Type 0 where
  from_sender from_reader time_over : Pick

-- One value received.
abbrev pub receive : List Result → (List Result → Option Result) → Option Result
receive [] rest = none
receive (some err ∷ sends) rest = some (some err)
receive (none ∷ sends) rest = rest sends

-- The loop of Handshake: `none` while it waits.
unfoldable pub await : ℕ → List Pick → List Result → List Result → Option Result
await zero picks sends reads = some none
await (suc n) [] sends reads = none
await (suc n) (time_over ∷ picks) sends reads = some (some disc_read_timeout)
await (suc n) (from_sender ∷ picks) sends reads =
    receive sends (λ sends'. await n picks sends' reads)
await (suc n) (from_reader ∷ picks) sends reads =
    receive reads (λ reads'. await n picks sends reads')

-- The values that the sending goroutine passes on.
abbrev pub sender_values : Result → Result → List Result
sender_values none progress_err = progress_err ∷ []
sender_values (some err) progress_err = some err ∷ progress_err ∷ []

module _ (set : EventSet) (link : Link) where
  unfoldable pub send_status :
      Peer set → (network : ℕ) → (genesis : List ℕ) → PeerProgress → List Result × Peer set
  send_status p network genesis progress =
      let (err, p') = send set link p (
        status_msg
          (record { protocol_version = p.version; network_id = network; genesis = genesis })) in
      let (progress_err, p'') = send_progress set link p' progress in
      (sender_values err progress_err, p'')

  -- `Handshake`.
  unfoldable pub handshake :
      Peer set
      → (network : ℕ) → PeerProgress
      → (genesis : List ℕ) → Reading
      → List Pick
      → Option Result × Peer set
  handshake p network progress genesis reading picks =
      let (sends, p') = send_status p network genesis progress in
      (await 2 picks sends (read_status p.version network genesis reading ∷ []), p')

-- Both goroutines passed on nil when the loop ends with nil.
await_both :
    (picks : List Pick) (first second read : Result)
    → await 2 picks (sender_values first second) (read ∷ []) ≡ some none
    → (first ≡ none) × (second ≡ none) × (read ≡ none)
unfolding await
await_both [] first second read h = cc
await_both (time_over ∷ picks) first second read h = cc
await_both (from_sender ∷ picks) (some e) second read h = cc
await_both (from_sender ∷ picks) none (some e) read h = cc
await_both (from_sender ∷ []) none none read h = cc
await_both (from_sender ∷ time_over ∷ picks) none none read h = cc
await_both (from_sender ∷ from_sender ∷ picks) none none read h = cc
await_both (from_sender ∷ from_reader ∷ picks) none none (some e) h = cc
await_both (from_sender ∷ from_reader ∷ picks) none none none h = (refl, refl, refl)
await_both (from_reader ∷ picks) first second (some e) h = cc
await_both (from_reader ∷ []) first second none h = cc
await_both (from_reader ∷ time_over ∷ picks) first second none h = cc
await_both (from_reader ∷ from_reader ∷ picks) first second none h = cc
await_both (from_reader ∷ from_sender ∷ picks) (some e) second none h = cc
await_both (from_reader ∷ from_sender ∷ picks) none (some e) none h = cc
await_both (from_reader ∷ from_sender ∷ picks) none none none h = (refl, refl, refl)

-- What is read is a status message of the same genesis, network and version.
abbrev pub IsSameStatus : (version network : ℕ) → (genesis : List ℕ) → Reading → Type 0
IsSameStatus version network genesis reading =
    (msg : Incoming) × (status : StatusData) × (reading ≡ inr msg)
    × (msg.code ≡ 0)
    × (msg.size ≤ 10485760)
    × (msg.as_status ≡ some status)
    × (status.genesis ≡ genesis)
    × (status.network_id ≡ network)
    × (status.protocol_version ≡ version)

read_status-eq-none :
    (version network : ℕ) (genesis : List ℕ) (reading : Reading)
    → read_status version network genesis reading ≡ none
    → IsSameStatus version network genesis reading
unfolding read_status check_status
read_status-eq-none version network genesis (inl err) h = cc
read_status-eq-none version network genesis (inr msg) h = elim (Option-cases msg.as_status) [
  | inl undecoded ↦ absurd (ground arith)
  | inr (status, decoded) ↦ (
    msg,
    status,
    refl,
    ground arith,
    ground arith,
    decoded,
    str_eq_sound status.genesis genesis (ground arith),
    ground arith,
    ground arith,
  )
]

module _ (set : EventSet) (link : Link) where
  abbrev pub own_status : Peer set → (network : ℕ) → (genesis : List ℕ) → StatusData
  own_status p network genesis = record {
    protocol_version = p.version;
    network_id = network;
    genesis = genesis;
  }

  -- When Handshake returns nil, in whatever order its goroutines pass on their values, the first
  -- message read was a status message of at most 10 MiB with the same genesis, network and protocol
  -- version, and the peer was sent the own status and then the own progress.
  pub handshake_lem :
      (p : Peer set) (network : ℕ) (progress : PeerProgress) (genesis : List ℕ) (reading : Reading)
      (picks : List Pick)
      → (handshake set link p network progress genesis reading picks).0 ≡ some none
      → IsSameStatus p.version network genesis reading
        × ((handshake set link p network progress genesis reading picks).1 ≡ record p {
          sent = p.sent ++ (status_msg (own_status p network genesis) ∷ progress_msg progress ∷ []);
        })
  unfolding handshake send_status send_progress
  handshake_lem p network progress genesis reading picks h =
      let p' = record p { sent = p.sent ++ (status_msg (own_status p network genesis) ∷ []) } in
      let read = read_status p.version network genesis reading in
      elim (send-cases set link p (status_msg (own_status p network genesis))) [
        | inr (err, failed) ↦
            let h1 = rw failed at h in
            let (first, second, same) =
              await_both picks (some err) (send set link p (progress_msg progress)).0 read h1 in
            absurd cc
        | inl sent ↦ elim (send-cases set link p' (progress_msg progress)) [
          | inr (err, failed) ↦
              let h1 = rw (sent, failed) at h in
              let (first, second, same) = await_both picks none (some err) read h1 in absurd cc
          | inl sent' ↦
              let h1 = rw (sent, sent') at h in
              let (first, second, same) = await_both picks none none read h1 in
              (
                read_status-eq-none p.version network genesis reading same,
                rw (sent, sent') (ap (λ m. record p { sent = m }) (append_assoc p.sent _ _)),
              )
        ]
      ]
