-- ===== src/Gossip/Genesis/Digest.antt =====
-- The digest of the validators, and where one validator ends in it.
use go_mini_opera.Prelude.{◌%◌, ◌^◌, ◌≡◌, ap, List, ◌∷◌, ◌++◌, length, append_assoc}
use go_mini_opera.Gossip.Genesis.{GenesisValidator, GenesisBase, hashed_bytes, validators_hash}

module _ {V : Type 0} (g : GenesisBase V) where
  -- One validator in place of two: what stands before the second stake is taken into the key.
  abbrev pub merged : GenesisValidator → GenesisValidator → GenesisValidator
  merged v w = record {
    validator_id = v.validator_id;
    pub_key =
        v.pub_key
        ++ ((length (g.stake_bytes v.stake) % 2 ^ 8 ∷ g.stake_bytes v.stake)
            ++ (g.id_bytes w.validator_id ++ w.pub_key));
    stake = w.stake;
  }

  -- The hash of the genesis validators is the same when the first two of them are replaced by one,
  -- with the first one's id, the second one's stake, and a public key that holds the bytes in
  -- between.
  pub validators_hash-merged :
      (v w : GenesisValidator) (vv : List GenesisValidator)
      → validators_hash g (v ∷ w ∷ vv) ≡ validators_hash g (merged v w ∷ vv)
  unfolding validators_hash hashed_bytes
  validators_hash-merged v w vv = ap g.digest (simp append_assoc)
