-- ===== src/Lib.antt =====
-- A model of the stability pool, a module of fedimint in which seekers lock bitcoin at a fixed value in
-- another asset for an epoch and providers take the other side for a fee.
--
-- The parts of the program and the files that model them:
-- - StabilityCore: stabilitypool-common/src/stability_core.rs, the pure algorithms. Ratio, Feerate and
--   Pnl hold the arithmetic (`CollateralRatio`, `EpochFeerate`, `seeker_fee`, `pnl_for_price`, the
--   payouts of a single account), Desired `compute_desired_positions`, Matching `match_locks_and_bids`,
--   Payouts `calculate_payouts`, Protection the functions on `f64`. The functions keep the names of the source; a loop is a recursion on
--   what it consumes, with a name of its own.
-- - Account: stabilitypool-common/src/account.rs, balances and their overflow checks.
-- - Action: stabilitypool-common/src/action.rs, the actions of seekers and providers, the proposals of
--   a peer, and `process_consensus_item`, which stages an action for the next epoch. Encoding holds the
--   encodings of signed actions and the check of their signatures.
-- - Epoch: stabilitypool-common/src/epoch.rs, `EpochState`, and `process_consensus_item`, which takes
--   the peers' ends of an epoch, settles the locked balances at the price they agree on, and starts the
--   next epoch with the staged actions; and `EpochConfig` of stabilitypool-common/src/config.rs.
-- - Db: stabilitypool-common/src/db.rs, the tables of the module.
-- - Pool: stabilitypool-server/src/lib.rs, deposits, withdrawals and the items of a consensus epoch.
--   Items is about single consensus items, Epochs about the items of a consensus epoch, Runs about
--   sequences of items, deposits and withdrawals, Audit about what the accounts add up to. Service is
--   the module of one peer: what it waits for and what it proposes.
-- - Config: stabilitypool-common/src/config.rs, `epoch_id_for_time` and the configuration of the pool;
--   `price_at_epoch_start` of stabilitypool-common/src/price.rs; and in Generation the generator of
--   configurations in stabilitypool-server/src/lib.rs.
-- - Oracle: `OracleConfig` of stabilitypool-common/src/config.rs, and the three oracles of
--   stabilitypool-common/src/price.rs. BackOff: `BackOff` of the same file.
-- - Api: stabilitypool-server/src/api.rs, the endpoints: balances, proposals of actions, the state.
-- - Base and BTreeMap: numbers, machine words, results that may panic, lists, and maps as lists of
--   entries in ascending order of their keys.
-- - Examples, ClockExamples, PoolExamples, ServiceExamples, StabilityCore.Examples and
--   StabilityCore.DesiredExamples: the theorems at concrete inputs; StabilityCore.Tests: the tests of the
--   source, with Passing for runs of them.
--
-- How the parts interact: Pool hands an item to Action or Epoch; Epoch reads and writes the database
-- and calls the three algorithms of StabilityCore: the payouts of the epoch that ends, then the desired
-- positions from the unlocked balances, the payouts and the staged actions, then the matching.
--
-- Conventions. A `u64` is a number, and arithmetic on it wraps at 2 ^ 64 as in a release build (`u128`
-- at 2 ^ 128, `i64` and `i128` as integers); `debug_assert!` is absent. `expect`, `assert!`, `panic!` and
-- a division by 0 are values of `Exec`. An amount is its number of millisatoshis. Account ids, peer ids
-- and outpoints are numbers, since they are only compared. The loop of the matching takes a bid in every
-- round but the last, so it needs no fuel; the waiting of Pool.Service recurs on a number of rounds, and
-- its theorem gives the round in which it ends.
--
-- Parameters. The database transaction of fedimint is `Store`, one table for each key prefix, and what
-- the theorems use of it is `IsStore`: a read gives what was written last, and the iteration goes by key.
-- The signatures of secp256k1 are `Schnorr`, of which nothing is assumed. The time crate is `Clock`, with
-- `IsClock`: time counts nanoseconds from a second that no time is before, and a timestamp is an
-- `i64`. What the oracle answers is a function of the time it is asked for.
-- `f64` and `f32` are `Floats`; `IsFloats` says that sums which are integers of the precision are
-- exact and that division keeps the order. Files and requests are `Sources`. The encodings of fedimint
-- are encoders and decoders; `Codec` says that a decoder takes off what its encoder appends.
--
-- A healthy database (Epoch.Process.Health) is what the theorems on whole items start from: the ended
-- epochs are settled but for the last one at most, the funds times the seeker side of the ratio are
-- less than 2 ^ 63, no seeker is locked in without a provider, the staged actions stand at their
-- accounts and have sequences with a successor, the stored prices are `u64` and not 0, and the outcomes of the last settled epoch and of the
-- one after it are there.
--
-- Not modelled: the client, which holds no logic of its own; the serialised forms of configurations,
-- answers and errors, with logging and versions; the keys of the database, which fedimint encodes. A
-- healthy database has no price of 0, on which the payouts of an epoch without seekers panic.
pub mod Base
pub mod BTreeMap
pub mod Account
pub mod Action
pub mod StabilityCore
pub mod Epoch
pub mod Db
pub mod Clock
pub mod Floats
pub mod Oracle
pub mod Config
pub mod BackOff
pub mod Pool
pub mod Api
pub mod Examples
pub mod ClockExamples
pub mod PoolExamples
pub mod ServiceExamples
