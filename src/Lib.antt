-- ===== src/Lib.antt =====
-- The node of DesKaChain (deskachain/node): the consensus core of its ledger.
--
-- A block holds transactions. The ledger checks each one (its form, id, signature, nonce, fee and
-- funds), then applies it to the accounts, to the stakes and to the asset book. The native currency
-- dIDR is kept twice: in the accounts (confirmed and mature) and as a balance of the asset book. A
-- coinbase is confirmed at once and matures some blocks later. Fees of version 3 transactions gather
-- in a pool in the asset book, and the end of a block pays the pool to the miner. A block that fails
-- is rolled back where the network has assets. A block is accepted on the ledger that replaying the
-- blocks before it gives; a canonical block names the hash of the state that it leads to. A chain is
-- accepted from a fixed genesis block on, block by block.
--
-- Files and code, under deskachain/node/internal:
--   Arith                  arith/uint64.go (Add, Sub, AddCap)
--   Config                 config/config.go (constants, parameter records, Localnet)
--   Config/Profiles        Testnet, Mainnet, ValidateNetworkProfile, NetworkByName
--   Config/Metadata        MetadataForNetwork, EnsureNetworkMatches
--   Amount                 amount/amount.go (ParseUnits, FormatUnits); Amount/Text, RoundTrip: proofs
--   Asset                  asset/model.go (Definition, ValidateDefinition, DerivedID, IsNative)
--   Asset/State            asset/state.go (State: Create, Mint, Burn, Transfer, ChargeFee,
--                          ExecuteTokenTransfer, Credit, Debit, Restore)
--   Asset/Listing          asset/state.go (Definitions, Balances)
--   Asset/Balances, Supply, Moves, Atomic: proofs about the asset state
--   Types                  types/transaction.go (Transaction, versions and types)
--   Types/Envelope         types/transaction.go (ValidateAssetEnvelope, ids, signing bytes,
--                          ValidateFeePayerAuthorization, the other constructors)
--   Types/Constructors     the constructors of asset transactions, RefreshID, RefreshIDForChainID
--   Types/Codec            types/transaction_codec.go, the writers
--   Types/Codec/Decode     types/transaction_codec.go, the readers
--   Types/Codec/Fields, Layout, RoundTrip: proofs about the wire format
--   Types/Block            types/block.go (Block, ValidateBlockVersion, CalculateMerkleRoot)
--   Types/Block/Header     types/block.go and block_codec.go (HeaderBytesWithNonce, CalculateHash,
--                          CanonicalHeaderBytesWithNonce, NewBlockWithVersion)
--   Types/Block/Merkle, Committed: proofs about blocks and headers
--   Types/Crypto           the interface to hashes, signatures, addresses and JSON
--   Fees                   fees/policy.go (GasUsed, MinimumFee, Estimate, Validate)
--   Staking                staking/staking.go (ApplyLock, ApplyUnlock, RefreshReleased, ApplyBlock,
--                          the summaries)
--   Staking/Replay         Replay and PendingUnlockIDs
--   Ledger                 ledger/maturity.go (MatureLedger, Clone, construction from a snapshot)
--   Ledger/Native          ledger/asset_execution.go (spendNative, receiveNative, chargeNativeFee,
--                          settleFees)
--   Ledger/Validate        ValidateTransaction and validateAssetTransactionV3
--   Ledger/Apply           ApplyTransactionAtHeight, ApplyCoinbaseAtHeight, applyAssetTransactionV3,
--                          ApplyBlock, matureCoinbases, ReplayMatureWithProfile
--   Ledger/Money, Settle, Consistent, Unchanged, Maturing, Transactions, Blocks: proofs about the
--                          ledger
--   Ledger/Supply          ledger/ledger.go (TotalSupplyWithProfile)
--   Ledger/Legacy          ledger/ledger.go (ValidateTransaction, ApplyTransaction, ApplyCoinbase,
--                          ApplyBlock, Replay); Ledger/Legacy/Balance: proofs
--   Chain/Difficulty       chain/pow.go (CalculateNextDifficultyWithParams, BlocksUntilRetarget)
--   Chain/Work             chain/locator.go (CalculateBlockWork, CalculateCumulativeWork), with proofs
--   Chain/Locator          chain/locator.go (BuildBlockLocator, FindCommonAncestor)
--   Chain/Retarget, Ancestor: proofs about them
--   Chain/Pow              chain/pow.go (MineWithContext, ValidateProofOfWork); Chain/Pow/Search: proofs
--   Chain/Genesis          chain/genesis.go (GenesisBlockForNetwork, GenesisHashForNetwork)
--   Chain/Resources        chain/resources.go (ValidateTransactionSize, validateBlockResources)
--   Chain/Validation       chain/validation.go (validateBlock in its steps, ValidateBlockTimestamp,
--                          ValidateNextBlockWithNetwork)
--   Chain/Validation/Payments, Parts, Sound: what the steps establish
--   Chain/Whole            chain/validation.go (validateChain)
--   Chain/Whole/Accepted   the chains that grow from genesis by valid blocks; proofs about acceptance
--   Chain/Whole/Coins, Premine: proofs about the supply and the genesis block
--   StateRoot              state/root.go, root_blocks.go (RootForLedger, RootForBlocks); the
--                          collections of the ledger that it covers. StateRoot/Order: proofs
--   Snapshot               state/snapshot.go (SnapshotForLedger, SnapshotForBlocks,
--                          SnapshotAfterBlock, Validate); Snapshot/Equivalent (Equivalent)
--   Blockchain             chain/blockchain.go (InitWithProfile, AddBlockWithNetwork,
--                          ReplaceFromHeightWithNetwork, StateStatusWithNetwork) over the interface
--                          Store of storage/storage.go
--   Blockchain/Candidate   chain/blockchain.go (MineBlockWithContextAndNetwork)
--   Blockchain/Audit       ValidateStateWithNetwork
--   Blockchain/Queries     AccountNonceWithProfile, chain/asset_query.go and chain/fee_query.go
--   Chain/Stats            chain/stats.go (CalculateChainStatsWithProfile), with proofs
--   Blockchain/Atomic, Grows, Candidate/Full, Queries/Answers, Audit/Sound, Snapshot/Root,
--   Snapshot/Equivalent/Reordered: proofs about the chain in its store and about snapshots
--   Address                address/base58.go (Base58Encode, Base58Decode)
--   Address/Network        the checksum of base58.go, address/address.go (EncodeAddress,
--                          DecodeAddress), crypto/address.go
--   Address/Radix, Base58, Encoded, Accepted: proofs about addresses
--   Mempool                mempool/mempool.go (Add, RemoveIDs, uniqueTransactions, PendingOutgoing) and
--                          the loop of Select that fills the gas limit
--   Mempool/Admission      mempool/admission.go (ValidateForRevalidation, Admit, Select)
--   Mempool/Nonces         mempool/selection.go (SelectWithNonces)
--   Mempool/Admission/Accepted, Nonces/Senders, Consecutive, Gas, Rounds, Unique, Selection: proofs
--                          about the pool and the choice for a block
--   Faucet                 faucet/state.go (Record, Load), over the file; Faucet/Stored: proofs
--   Prelude                strings as bytes, errors, methods on a state, maps, integers
--   Tests                  runs on concrete data
--
-- How state and errors are written. A method that changes an object and may fail is a function from
-- the state to a result and the state: what was written before the error stays written, as in Go. A
-- map is an association list with a default for a missing key. A uint64 is a natural number, with the
-- code's own overflow checks against 2^64 - 1; the codec states the 64-bit and 32-bit limits where
-- the round trip needs them. A Go string is its list of bytes.
--
-- Fuel. The loop over the levels of the Merkle tree runs on fuel, the number of leaves: a level is at
-- most half as long as the one before, rounded up. The loop that builds a locator runs on the height
-- of the tip plus one: the height falls in every round. The mining loop runs on any fuel and may run
-- out of it; the nonces up to the largest one, and one more, are enough. The loop
-- of SelectWithNonces runs on the number of candidates, of which every round takes one. Numbers are printed with fuel
-- for 20 digits, which a 64-bit number does not exceed. The digits of a base-58 number run on the number
-- itself as fuel, since a division makes it smaller. All other loops are structural.
--
-- Parameters. Types/Crypto is a record of functions for SHA-256, the signature check, the address
-- functions of crypto/address.go, which Address/Network gives on hashes that are parameters, and Go's
-- JSON encoder. Nothing is assumed of them, except where a
-- theorem says that the fee pool's key is no valid address. The clock is an argument, read once where
-- a chain is checked; so are the JSON text of a block and the cancellation of mining. Sorting is
-- insertion sort: with keys that differ every method gives the same. SelectWithNonces ranges over a map
-- of senders in the order in which they appear. A division by zero, a panic in Go, is an error.
--
-- The store. Its operations are a record over a type of states, with the questions which interfaces it
-- implements; the database behind it is not modelled. The clock is an argument.
--
-- Not modelled: the balance of an account in detail, the database, the peer network, RPC, the command
-- line, the wallet and the service nodes; text outside ASCII in TrimSpace, ToLower and EqualFold; the
-- formatted arguments of error messages.
pub mod Prelude
pub mod Arith
pub mod Config
pub mod Asset
pub mod Types
pub mod Fees
pub mod Staking
pub mod Ledger
pub mod StateRoot
pub mod Address
pub mod Amount
pub mod Snapshot
pub mod Chain
pub mod Mempool
pub mod Blockchain
pub mod Faucet
pub mod Tests
