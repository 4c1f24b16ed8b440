-- ===== src/Lib.antt =====
-- btcpool, a mining pool for Bitcoin: the bookkeeping of the pool, from the share a miner submits to
-- the balance that is paid out.
--
-- A share comes over Stratum and is stored in Redis (storage/redis.go), once for each nonce. A share
-- that solves a block makes a candidate, with the shares of its round. The unlocker
-- (payouts/unlocker.go) asks the node which candidates are on the chain, credits their rewards as
-- immature and later, at a greater depth, as balance, or drops them as orphans. The policy server
-- (policy/policy.go) watches what each address sends, and bans it.
--
-- Storage/Keys, Storage/Rows: the record BlockData, the keys, and the rows of the sorted sets, from
--   storage/redis.go. Rows/RoundTrip: rows are read as they were written.
-- Storage/Commands: the commands of Redis that are sent, and the server as a parameter.
-- Storage/Finance: the transactions UpdateBalance, RollbackBalance, WritePayment, WriteImmatureBlock,
--   WriteMaturedBlock, WriteOrphan and WritePendingOrphans, as the queues of commands that they
--   send. Finance/Payments, Balance, Credits: what the queues do to the balances.
-- Storage/Shares: checkPoWExist, WriteShare, WriteBlock. Shares/Replay: duplicates.
-- Storage/Stats: convertWorkersStats, convertMinersStats and the computation of CollectWorkersStats.
--   Stats/Names, Stats/Own, Stats/Totals: the workers, and what is counted. Storage/Collect:
--   CollectStats, CollectWorkersStats, GetMinerStats.
-- Storage/Luck: CollectLuckStats. Luck/Windows, Luck/Rows: its windows, and its rows by their keys.
-- Storage/Reads: the reads of the other parts, the state of the nodes, the lock of the payouts.
--   Reads/Lock: what the lock promises. Storage/Scan: GetPayees and FlushStaleStats, which follow the
--   cursor of SCAN. Scan/Ends: how they end.
-- Payouts/Rational, Payouts/Rewards: chargeFee, calculateRewardsForShares, calculateRewards and
--   handleBlock of payouts/unlocker.go, with exact fractions for big.Rat.
-- Payouts/Unlocker: unlockCandidates, unlockPendingBlocks, unlockAndCreditMiners and the timer of
--   Start. The node and the backend are parameters.
-- Policy: the methods of PolicyServer in policy/policy.go, and the calls of the other parts as
--   events. Policy/Ban, Ban/Run, Ban/Lapse: who is spared, and for how long not. Policy/Workers:
--   Start, and the workers that run doBan.
-- Proxy/Work: DoubleSha256HashVerify of proxy/miner.go and ConstructRawBlockHex of proxy/blocks.go;
--   the packages that they call are parameters. Work/Submitted: one header for both.
-- Bitcoin/Number: PackNumber of bitcoin/btc_coinbase.go. Bitcoin/Coinbase: the scripts and the halves
--   of the coinbase. Coinbase/Serialize: the transaction as a whole, and its bytes.
--   Coinbase/Initialize: what the halves have to do with them. Coinbase/Total: panics.
-- Proxy/Template: fetchBlockTemplate of proxy/blocks.go, for any coinbase. Template/Coinbase: with
--   that of bitcoin/btc_coinbase.go. Template/Jobs: what a template holds.
-- Proxy/Miner: processShare, over Redis and the node. Miner/Accepted: which shares are accepted.
--   Miner/Sends: which blocks the node is sent.
-- Proxy/Session: the handlers of proxy/handlers.go, over the policy server and processShare.
--   Session/Submit, Session/Effect, Session/Nonce: what is answered, what is done, and the extra
--   nonces.
-- Proxy/Stratum: handleTCPMessage, handleTCPClient and ListenTCP of proxy/stratum.go, as steps of a
--   listener with its open connections. Stratum/Tags, Nonces, Owners: the invariants of its tags.
--   Stratum/Distinct: the extra nonces of different connections.
-- Rpc: the client of rpc/rpc.go. Rpc/Health: its recovery. Proxy/Upstream: checkUpstreams, rpc and
--   the sick counter of proxy/proxy.go. Upstream/Choice: which client is chosen.
-- Common: strings, numbers and their decimal and hexadecimal forms, maps as lists of entries.
--   Common/Result: calls that fail or panic.
-- Proxy/Broadcast: broadcastNewJobs of proxy/stratum.go. Broadcast/Header: the header that a miner
--   hashes for a job, next to the pool's.
-- Api: the caches and the handlers of api/server.go. Api/Server: AccountIndex, and the timers of
--   Start. Api/Fresh: how old an answer is. Fresh/Miners: what leaves the cache as it is.
-- Bitcoin/Difficulty: bitcoin/btc_difficulty.go. Proxy/Difficulty: GetTargetHex of util/util.go and
--   UpdateAllSessionDiff of proxy/proxy.go. Difficulty/Target, Decay, Reached: what a target says,
--   and what becomes of it. Difficulty/Told: setDifficulty of proxy/stratum.go.
-- Main: initPeerName, decryptPoolConfigure and main of main.go. Main/Ready: what they leave.
-- Proxy/Http: ServeHTTP, handleClient and handleMessage of proxy/proxy.go. Http/Idle: what they do to
--   Redis and the node.
-- Util/Hashes: the texts of hashes for Stratum, of util/util.go. Hashes/Words: the order of words.
-- Util/Cipher: util/ae64.go; AES, CBC and base64 are parameters. Cipher/RoundTrip: both
--   together.
-- Tests: runs at concrete inputs.
--
-- An int64 or int32 that the source adds up wraps around (Common/Int). A string is its list of
-- bytes. A map is the list of its entries, in the order in which a range loop meets them. The loops
-- run over lists, or over the number of their rounds, but for three: PackNumber's recurses on the
-- accessibility of its number, and the two that follow the cursor of SCAN have fuel, of which more
-- than the pages of an iteration is enough. The bytes of a target have 33 places, as 2^256 has. A
-- panic is a result of its own. Time is an argument. float64 and float32 values are not computed:
-- Common/Float has their operations as an interface, the fee is the exact fraction that SetFloat64
-- takes, and the policy's test of a ratio is a parameter. Scores of sorted sets are whole.
--
-- Not modelled: the deadlines of the sockets in proxy/stratum.go; the set-up of the servers and of
-- their timers in proxy/proxy.go; the flags, the files and the terminal of main.go; the routes and
-- the headers of api/server.go; logging. payouts/payer.go is commented out in the source.
pub mod Common
pub mod Util
pub mod Bitcoin
pub mod Storage
pub mod Payouts
pub mod Policy
pub mod Proxy
pub mod Rpc
pub mod Api
pub mod Tests
pub mod Main
