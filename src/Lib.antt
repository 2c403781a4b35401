-- ===== src/Lib.antt =====
-- Junction Generator Coin: a verification library for the node in packages/jgc-node (TypeScript). The
-- node is a proof-of-useful-compute chain: blocks carry compute contributions, an accumulator adds them
-- up over an epoch of 144 blocks, and at the end of the epoch the accumulated block rewards and fees
-- are paid to the miners in proportion.
--
-- The parts, with paths from packages/jgc-node/src:
--   Base and the files under it: shared names, tests, results, integers, strings, maps and sorting.
--   Types: the records of types/index.ts.
--   Canonical: protocol/canonical.ts, the byte order and the writer of the consensus encodings
--     (`CanonicalWriter`). Canonical/Order has the order, Canonical/Encoding what is written.
--   Emission: consensus/emission.ts, the emission schedule (`getBlockReward`, `getCumulativeSupply`,
--     `isValidEpochCoinbase`, `getEmissionEra`). Emission/Reward has the reward by eras,
--   Emission/Supply the supply, Emission/Coinbase and Emission/Eras what rests on it.
--   Difficulty: consensus/emission.ts, the compact difficulty bits and the retargeting
--     (`encodeDifficultyBitsExact`, `decodeDifficultyBitsExact`, `isCanonicalDifficultyBits`,
--     `calculateNextDifficultyTargetExact`).
--   Epoch: consensus/epoch.ts, the accumulator (`initEpochState`, `applyBlockToEpoch`), which adds
--     the rewards of Emission to its pool; Epoch/Settlement the payment (`computeEpochSettlement`,
--     `computeEpochRoot`).
--   Proposer: consensus/proposer.ts, the stake-weighted draw of a block's proposer
--     (`selectBlockProposer`). Proposer/Roster has the snapshots it accepts, Proposer/Intervals and
--     Proposer/Draw the draw, Proposer/Order the order of the bonds.
--   Transactions: consensus/block.ts, the binary form of a transaction (`serializeTransaction`).
--     Transactions/Reading has the parser (`deserializeTransaction`), Transactions/Fields and
--     Transactions/RoundTrip what it reads.
--   Spending: consensus/utxo.ts, the unspent outputs (`UTXOSet`) and the check of a spend
--     (`validateSpend`), on the transactions of Transactions. Spending/Bonds has the bond scripts of
--     consensus/validator-bonds.ts, Spending/Signatures the spend signatures of
--     crypto/pq-signatures.ts (`pqVerifySpend`). Spending/Conservation, Spending/Rules and
--     Spending/Spent have what is proved of the value, of the accepted spends and of spent outputs.
--   Headers: consensus/block.ts, the binary form of a block header (`serializeBlockHeader`,
--     `deserializeBlockHeader`) and the block id.
--   PeerGuard: network/peer-guard.ts, the admission of peers (`PeerGuard`) as a state machine.
--     PeerGuard/Bans and PeerGuard/Refusal have the bans, PeerGuard/Bounds and PeerGuard/Limits
--     the numbers of hosts and of inbound connections. The clock is read once per call; `peerHost` is a parameter.
--   Merkle: crypto/merkle.ts, Merkle trees and inclusion proofs (`buildMerkleTree`,
--     `getMerkleProof`, `verifyMerkleProof`). Merkle/Rows has the rows, Merkle/Completeness and
--     Merkle/Soundness what is proved of the proofs.
--   Coinbase: consensus/settlement-transaction.ts (`createEpochSettlementTransaction`) and
--     `validateCoinbaseTx` of consensus/validation.ts, on the settlement of Epoch. Coinbase/Rules has
--     which transactions are accepted.
--   Stake: consensus/validator-bonds.ts, the bonded roster of the unspent outputs of Spending
--     (`validatorStakeSnapshot`), which Proposer draws from;
--     Stake/Accepted has its snapshots under the checks of the draw.
--   Work: broker/assigned-work.ts, assigned jobs and their funding. Work/Json has the texts that are
--     hashed, Work/Steps the transitions (`transition`), Work/Journal the chained journal
--     (`AssignedWorkJournal`). Under Work/Steps, Accepted says what an accepted event shows, Sound and
--     Credits are about the state, Lifecycle and Completion about the jobs; under Work/Journal, Replay
--     and Refunds are about whole journals.
--   Audits: broker/audit-schedule.ts, the selection of claims and committees, whose roster Stake gives
--     (`auditValidatorsFromSnapshot`). Audits/Schedule has `buildAuditSchedule`; under it, Built, Coverage,
--     Selection and Fair are about who is covered, Committees about who audits, Order about the roster's order.
--   Quorum: broker/challenge.ts and broker/quorum.ts, the bonded stakes (`StakeLedger`) and the tally of
--     votes (`tallyQuorum`). Quorum/Replay has the claims and replays of broker/verification.ts,
--     Quorum/Resolution both coordinators (`ChallengeCoordinator`, `QuorumChallengeCoordinator`).
--     Quorum/Tally and Quorum/Verdicts are about the tally, Quorum/Slashes, Quorum/Stakes and
--     Quorum/Honest about what a resolution takes and whom it spares.
--   Blocks: consensus/validation.ts, the headers (`validateBlockHeader`), the transactions
--     (`validateTransaction`) and the steps of `validateBlockSync` on the transactions of a block, which use
--     Difficulty, Headers, Merkle and Spending. Blocks/Connect has the fees and the unspent outputs of a
--     connected block (`calculateBlockFees`, `applyBlockState` of network/node.ts). Blocks/Spent and
--     Blocks/Conserves are about the value, Blocks/Accepted about headers, Blocks/Total about throws;
--     Blocks/Boundary has the settlement of an epoch (Epoch, Coinbase) in its last block.
--     The audit verdicts and the composition of all steps are not there yet.
--     Blocks/Proofs has the compute proofs (`validateComputeProofsSync`) with crypto/compute-proof.ts
--     and the contribution signatures of crypto/pq-signatures.ts; under it, Contributions, Exact and Work
--     are about what they show.
--
-- Conventions. JavaScript numbers that the code checks or keeps as counts are naturals, with the bound
-- 2 ^ 53 - 1 written out where the code tests for it; a number that comes from a peer is `Number`, an
-- integer or none. A bigint that can be negative is `ℤ`. A string is its UTF-8 bytes. A `Map` is a list
-- of entries in insertion order. Code that throws returns `Result`, and a method that changes its
-- object returns the object it leaves behind, on every path.
--
-- Loops are structural recursions. Those that are not take fuel: `supply_loop` has one round for each
-- era up to the height and two more, `size_loop` as many as the target, `build_rows` one for each leaf
-- but the first. The theorems of Emission/Supply (at every height), Difficulty/Compact (at a positive
-- target below 256 ^ 255) and Merkle/Completeness (at every leaf) are about what these return, so the
-- fuel is enough there; for a larger target `size_loop` is enough by Difficulty/Compact/Bytes.
-- `decimal_loop` has one round more
-- than the number it prints, which has no more digits.
--
-- Not modelled: the cryptographic primitives (SHA-256, SHA3-256, ML-DSA, Groth16), which are
-- parameters; floating-point display values and deterrence formulas (a threshold of a quorum is a
-- ratio, and of a probability there are the tests that are made of it); the transport, the persistence
-- and the wallets, which are input and output; the contracts, the
-- worker and the web site, which are other programs.
pub mod Audits
pub mod Base
pub mod Blocks
pub mod Canonical
pub mod Coinbase
pub mod Difficulty
pub mod Emission
pub mod Epoch
pub mod Headers
pub mod Merkle
pub mod PeerGuard
pub mod Proposer
pub mod Quorum
pub mod Spending
pub mod Stake
pub mod Transactions
pub mod Types
pub mod Work
