-- ===== src/Lib.antt =====
-- The deployment scripts of the lending protocol: the configuration of a market, the file of deployed
-- contracts, the initialisation and configuration of reserves and NFTs, the administrators' tasks,
-- and the part of the contracts that these configure.
--
-- The scripts are TypeScript run by hardhat. A market (markets/bend) is data: parameters of reserves
-- and NFTs, and addresses network by network. The helpers (helpers/) select the values for the
-- current network, find contracts in the configuration or in a JSON file, and send transactions in
-- chunks to the configurator, which checks them and writes to the pool.
--
-- Which file models which part:
--   Common, Failure     shared types, lists and dictionaries; results, and actions on a state that
--                       keep what was done before a failure
--   Types               helpers/types.ts: networks, contract names, error codes, parameters
--   Constants           helpers/constants.ts
--   Markets             markets/bend: Commons and Addresses (commons.ts), Bend and Assets (index.ts),
--                       Nfts (nftsConfigs.ts), Reserves (reservesConfigs.ts), Rates (rateStrategies.ts)
--   Utils               helpers/misc-utils.ts: chunk, filterMapBy, omit, notFalsyOrZeroAddress; and
--                       the reading of an entry at the index of its key (Entries)
--   Networks            helpers/contracts-helpers.ts: getParamPerNetwork and its like
--   Db                  helpers/contracts-helpers.ts: the file of deployed contracts
--   Configuration       helpers/configuration.ts: loadPoolConfig, the administrators, the tokens
--   Deploy              helpers/contracts-deployments.ts, contracts-getters.ts and withSaveAndVerify:
--                       the calls of ethers, as the fields of `Node`, and the code around them
--   Getters             helpers/contracts-getters.ts: the contracts that are read from the file, and
--                       getPairsTokenAggregator (Aggregators)
--   Deployments         helpers/contracts-deployments.ts: every deployment, with the generated
--                       factories as a parameter; what it leaves on file (OnFile, Stage, Found) and
--                       that the libraries can then be linked (Linkable)
--   Init                helpers/init-helpers.ts: initReservesByHelper, initNftsByHelper,
--                       configureReservesByHelper, configureNftsByHelper
--   Oracles             helpers/oracles-helpers.ts: assets, prices and aggregators for the oracles
--   Tasks.PoolAdmin     tasks/misc/pool-admin.ts: set-pause, update-nfts-config,
--                       update-reserves-config, and the active and frozen flags (Flags)
--   Tasks.OracleAdmin   tasks/misc/oracle-admin.ts
--   Tasks.Full          tasks/full, tasks/deployments and tasks/migrations/bend.mainnet.ts: the tasks
--                       that deploy and initialise the protocol (Providers, LendPool, Oracles,
--                       Gateways, Initialize), and where the proxies stay (Proxies)
--   Contracts           contracts/protocol/LendPool.sol and LendPoolConfigurator.sol,
--                       contracts/libraries: configuration words, records, batches, the pause,
--                       settings for lists of assets (Configurator.Settings), and in
--                       Configurator.Reachable every sequence of these transactions
--   Contracts.Math, Interest, ReserveLogic, InterestRate, Tokens
--                       WadRayMath.sol, PercentageMath.sol, MathUtils.sol, ReserveLogic.sol,
--                       InterestRate.sol, BToken.sol and DebtToken.sol: what interest is computed
--                       from, in checked arithmetic (Contracts.Checked)
--   Reference           test/helpers/utils: math.ts and calculations.ts, the arithmetic with which
--                       the tests compute what those contracts should return
--   Tests               a small world, and each theorem applied in it
--
-- A JavaScript object is an association list in the order of insertion, undefined is `none`, a thrown
-- error or a reverted transaction is a `Failure`, and an asynchronous function is an action on the
-- world: the scripts await each call before the next. The packages lowdb, ethers and ethereumjs-util
-- are parameters with the laws that the code relies on; lowdb reads a key as a path, so its law on
-- distinct keys is for names without dots and brackets. A configuration word is a natural number; the
-- writes to it stay within its lowest 128 bits, so that it does not overflow. A numeric text is the
-- number that it denotes. Every loop is a recursion on a list: there is no fuel.
-- The arithmetic of solidity is on natural numbers with a panic beyond 2 ^ 256 - 1. bignumber.js is
-- used by the tests with no decimal places, rounded down, so its quotients are whole, and a value that
-- leaves the natural numbers is `none`.
--
-- Not modelled: log lines and events, the lending operations of the contracts, upgrades of proxies,
-- those transactions of the configurator that initialise reserves and NFTs, upgrade their tokens, or
-- set the limits on their numbers, the interceptors and the lockers, the getPairsTokenAggregator of
-- helpers/init-helpers.ts, which nothing calls,
-- the tasks that print and verify, the arguments that a verification passes on, the tasks of
-- tasks/dev, which do with mocks what those of tasks/full do, the tasks of tasks/helpers, the scripts
-- of single transactions in tasks/misc, and the pages of docs/ and frontend/.
pub mod Common
pub mod Types
pub mod Constants
pub mod Markets
pub mod Utils
pub mod Networks
pub mod Failure
pub mod Db
pub mod Configuration
pub mod Contracts
pub mod Deploy
pub mod Getters
pub mod Deployments
pub mod Init
pub mod Oracles
pub mod Reference
pub mod Tasks
pub mod Tests
