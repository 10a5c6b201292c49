-- ===== src/Config/Metadata.antt =====
-- The network that a data directory was made for: NetworkMetadata, MetadataForNetwork and
-- EnsureNetworkMatches of deskachain/node/internal/config/config.go. The file is an argument: what
-- reading and decoding it gave, with nothing for a missing file.
use des_ka_project.Prelude.{
  ℕ, not, ◌||◌, Str, codes, ◌=s◌, is_empty, ◌==◌, if◌then◌else◌, Option, none, some, msg, Result,
  ok, err, ⊤, check,
}
use des_ka_project.Prelude.Results.{◌>>◌}
use des_ka_project.Config.{NetworkConfig}

pub record NetworkMetadata : Type 0 where
  pub network : Str
  pub network_id : Str
  pub chain_id : ℕ
  pub genesis_hash : Str

unfoldable pub metadata_for_network : NetworkConfig → Str → NetworkMetadata
metadata_for_network p genesis_hash = record {
  network = p.name;
  network_id = p.network_id;
  chain_id = p.chain_id;
  genesis_hash = genesis_hash;
}

unfoldable pub metadata_matches : NetworkMetadata → NetworkConfig → Result ⊤
metadata_matches m p = do
  check
      (not (m.network =s p.name)
        || (not (m.network_id =s p.network_id) || not (m.chain_id == p.chain_id)))
      (msg "datadir initialized for another network")
  (if is_empty p.genesis_hash then ok tt else (do
    check (is_empty m.genesis_hash) (msg "datadir genesis metadata missing")
    check (not (m.genesis_hash =s p.genesis_hash)) (msg "datadir genesis mismatch")))

unfoldable pub ensure_network_matches : Result (Option NetworkMetadata) → NetworkConfig → Result ⊤
ensure_network_matches (err e) p = err e
ensure_network_matches (ok none) p =
    check (not (p.name =s codes "localnet")) (msg "datadir network metadata missing")
ensure_network_matches (ok (some m)) p = metadata_matches m p
