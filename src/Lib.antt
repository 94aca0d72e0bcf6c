-- ===== src/Lib.antt =====
-- Verification of the hedge on Arkade: a contract between a short and a long whose price risk a
-- covenant settles, and the service that carries it.
--
-- A contract is funded into one output of the Ark operator. It has three ways to end. The covenant
-- pays it out from two signed, adjacent oracle messages, one party or the service driving it. Both
-- parties close it early. Or both leave through a pre-signed exit into a 2-of-3, and the service
-- shares out what is left by the oracle's price. The service keeps a row for each contract and
-- moves it through its states one compare-and-swap at a time.
--
-- The files and the code that they follow:
--
-- - Contract/Terms, Split, Payout: `Terms`, `validate` (contract/settlement.go) and `SettlementSplit`
--   (contract/arbitration.go).
-- - Contract/Opcodes, Script: `SettlementScript` with `addFieldExtract` and `addLockScriptCheck`
--   (contract/settlement.go), instruction by instruction. Contract/Vm is the machine that runs it,
--   `Run` of contract/vm.go; Contract/Fields, Segments, Covenant and Settlement work out what it accepts.
-- - Contract/Oracle, Feed: `OracleMessage` (contract/oracle.go), `PriceFrom` (contract/arbitration.go).
-- - Contract/Vtxo, Leaves: `Keys`, `Closures`, `leafIndex`, `Tapscript` (contract/vtxo.go).
-- - Contract/Exit, Threshold: `NewSweep`, `Witness`, `ExitTx`, `signerMatches` (contract/exit.go).
-- - Contract/Arbitration, Scale, Verdict: `Arbitrate`, `scaleToAvailable`, `VerifyArbitration`
--   (contract/arbitration.go).
-- - Contract/Signing, Presigned: `ExitSighash`, `SignExit`, `VerifyExitSignature`, `PreSignExit`,
--   `Finalize` (contract/exit.go), `SignArbitration`, `FinalizeArbitration` (contract/arbitration.go).
-- - Contract/Redemption, Early: `checkSplit`, `ProposeRedemption`, `ProposeRedemptionAt`,
--   `VerifyRedemption` (contract/redemption.go).
-- - Contract/Tapscript, OwnLeaves, LeafSigs: `SignRedemption`, `SignTapscript`, `leafNamesKey`
--   (contract/redemption.go).
-- - Domain/State, Lifecycle: `State` and its transition table (service/internal/domain/state.go).
-- - Domain/Records, Laws: the records of service/internal/domain and their methods.
-- - Store/Rows, Advance, History: the tables and `Create`, `Advance`, `Save`
--   (service/internal/postgres/contracts.go), `Put`, `ForContract`, `Drop` (redemptions.go, exits.go and
--   arbitrations.go beside it, each with the columns that its ON CONFLICT updates).
-- - Store/Users: `ValidateName` (service/internal/domain/user.go), the users and their wallets
--   (service/internal/postgres/users.go) and `CreateUser` (service/internal/app/users.go).
-- - Publisher/Sequence, Adjacent: `Publisher`, `PairAt`, `LatestPair` (service/internal/oracle/oracle.go)
--   over `Append`, `At`, `Latest` (service/internal/postgres/oracle.go).
-- - UseCases/Ports, Action: what the use cases ask of the adapters (service/internal/app/ports.go), and
--   a use case as a function of the store that returns its reply with the store that it leaves, also
--   where it fails half-way. UseCases/Packages: what they compute without the store.
-- - UseCases/Opening, Stakes: `Propose`, `Accept` (service/internal/app/contracts.go).
-- - UseCases/Funding: `Fund`, `affordable`, `finishFunding`, `presignExit` (funding.go beside it).
-- - UseCases/Settling, Trigger: `Settle`, `finishSettling`, `Project`, `SetPrice` (settlement.go).
-- - UseCases/Offering, Closing, Rules, Proposal, Agreement: `ProposeRedemption`, `SignRedemption`,
--   `verifyRedemption`, `RejectRedemption`, `finishRedeeming` (redemption.go), `Cancel` (contracts.go)
--   and `giveUp` (worker.go).
-- - UseCases/Leaving, Evidence, Arbitrating: `Exit`, `finishExiting`, `Arbitrate`, `SignArbitration`,
--   `verifyArbitration`, `finishArbitrating` (exit.go).
-- - UseCases/Worker, Service: the worker's pass (worker.go), and every use case that writes to the
--   store as a request. UseCases/Keeps, Backed, Sound, Kept, Exits, WayOut and Invariant carry the
--   invariant of the store through them; UseCases/Answers and Steps read off what a success has done.
-- - Events/Broker, Delivery: the broker (service/internal/events/events.go). Events/Status: `statusOf`
--   (service/internal/server/errors.go).
-- - Arkade/Client, Outputs, Rounds: `BuildBilateralFunding`, `FundBilaterally` (arkade/funding.go),
--   `BuildSettlement`, `AddEmulatorPacket` (settle.go), `SignEveryone`, `signEach`, `SubmitToArkd`
--   (submit.go), `Locktime` (stack.go).
-- - Arkade/Wallet, Coins: `Balance`, `SpendableVtxo`, `SignAll`, `Encode` (arkade/wallet.go) and the
--   registry's `Wallet` (service/internal/wallets/wallets.go).
-- - Remote/Hex, OracleServer: the handlers of service/internal/oracleserver/handlers.go over `History`
--   (service/internal/postgres/oracle.go) and the publisher. Remote/OracleClient, Delivered, Priced:
--   service/internal/oracleclient/oracleclient.go, and the client against that server.
-- - Adapters/Net: the network, whose answers depend on what was done with it before, and `Poll`
--   (arkade/poll.go). Adapters/Chain, Unrolling: `RawHex`, `TaprootAddress`, `Broadcast`,
--   `WaitForOutput` (arkade/chainops.go), `Unroll`, `mineTx` (arkade/unroll.go).
-- - Adapters/Leaving, Broadcasts, Payouts: `parties`, `LeaveArkade`, `PayOut`
--   (service/internal/arkadeadapter/arkadeadapter.go).
-- - Adapters/Funding, Fragments: `Balance`, `VtxoPkScript`, `Fund` of the same file, and these behind
--   `affordable` and `finishFunding` (service/internal/app/funding.go).
-- - Adapters/Submitting, Closes, Paying: `Settle`, `BuildRedemption`, `SubmitRedemption` of that adapter over
--   `ContractInput`, `BuildSettlement` (arkade/settle.go), `SubmitToEmulator` (arkade/submit.go) and
--   `SubmitSigned` (arkade/redeem.go).
-- - Adapters/Signer, Signatures: service/internal/signer/signer.go with the keys of
--   service/internal/wallets/wallets.go, and that signer behind `presignExit`.
-- - Examples: concrete inputs, among them a machine that obeys the laws asked of the VM.
--
-- Numbers. An `int64` is an integer whose additions, subtractions and products are wrapped to 64
-- bits where the code computes in `int64`; the VM's numbers have no bound. A division truncates
-- towards zero. Bytes are natural numbers; `binary.LittleEndian`, hex and the decimal numbers of a
-- request are written out. Nearly every loop of the code goes over a list. `Unroll` counts down
-- from its own limit of 40 rounds, and `Poll` from a number of ticks that the network is given,
-- which stands for the deadline of its context.
--
-- Parameters. The emulator's VM, schnorr and sha256, btcd's script classes, ark-lib's scripts,
-- locktimes and transactions are not in the repository. They are records that the definitions
-- take. Only the VM and schnorr have laws: one for each opcode, on the stacks that the covenant
-- makes, and that a signature which is made verifies under its key; where a property is about the
-- signer, also that a hash that is signed has 32 bytes and that the parties' private keys sign
-- every such hash. What more a property takes of a library, its statement names: that `BuildTxs`
-- of ark-lib keeps the outputs that it is given, or that the web framework answers an unknown
-- error with a code of 400 or more. The chain, the explorer and the operator's branch of a
-- contract are functions of the log of what was asked of them, and nothing is assumed about them.
-- A call of the service gets its adapters' answers, the clock and the fresh id among them, as the
-- record `Ports`; `none` is an adapter's error. A library call that fails returns an error, and an
-- index out of range returns the error `panics`.
--
-- Requests run one behind the other. The worker reads the outstanding contracts once and then
-- works on those copies, so a step of one is taken against a row that may have moved.
--
-- Not modelled: request decoding and routing of the service's own HTTP server, JSON itself (a body
-- is the Go value that is encoded), the connections to the operator, the configuration, top-ups,
-- and the queries of service/internal/app that only read. A statement of the database runs at
-- once, and its own failures (a lost connection) are left out. A dereference of a nil user or
-- outpoint, where the code would panic, is an error.
pub mod Common
pub mod Contract
pub mod Domain
pub mod Store
pub mod Publisher
pub mod UseCases
pub mod Events
pub mod Arkade
pub mod Remote
pub mod Adapters
pub mod Examples
