-- ===== src/Lib.antt =====
-- OptimusDB is a peer-to-peer document store. Each peer runs a leader election over a publish and
-- subscribe topic and writes documents to OrbitDB stores that replicate among the peers.
--
-- The parts and their files:
--   Base                  naturals with Boolean tests, lists, byte strings, association lists, the
--                         integers with Go's wrap-around at 64 bits, and an abstract float64.
--   Election              election/reputationBasedElection.go:
--     Election.Names        extractBaseName, looksLikeHash, isDefaultCoordinatorNode, getContainerName
--     Election.RateLimit    MessageRateLimiter with AllowMessage
--     Election.Reputation   calculateReputation, validateReputationData, selectCandidate
--     Election.Tally        determineWinner
--     Election.Node         the Node, its messages, and the effects and surroundings of a handler
--     Election.Voting       handleVote
--     Election.Roles        handleHeartbeat, stepDownLocked, handleAnnouncement, announceLeader,
--                           publishMessage, promoteAsDefaultCoordinator, fallbackElection
--     Election.Messages     handleMessage and the loop of ListenForElectionEvents
--     Election.Start        StartElection with its rounds, finalizeElectionInline
--     Election.Failure      the ticks of CheckLeaderFailure
--     Election.Heartbeats   the ticks of sendHeartbeats
--     Election.Divergence   checkMeshHealth, checkTermDivergence, validateStartupTerm
--   Store                 app/batch_put.go and app/group_commit.go:
--     Store.Batch           splitBatches, putDocumentsOneByOne, PutDocumentsBatched
--     Store.Commit          storeWriter.write and PutManyCoalesced on an idle store
--   Document              JSON values, maps and paths, with getNestedValue of app/service.go
--   Query                 queryengine/, app/query_handler.go, app/query_fastpath.go, app/service.go:
--     Query.Cache           SimpleCache
--     Query.Match           matchesCondition, matchesCriteriaEnhanced, criteriaFilter
--     Query.Local           queryLocalDB with the lookup by id and the field indexes
--     Query.Raw             queryLocalRaw with exactEqualities
--     Query.Persist         persistRemoteRows
--     Query.Rows            dedupeByID, collectResults, dedupResults, DedupSQLResults
--     Query.Options         parseOptions, tagRows
--     Query.Peers           queryPeersLimited, queryPeersUntilQuorum
--     Query.Handler         handleQueryStream
--     Query.Engine          OptimizedEngine.Query, annotate, queryRemote
--     Query.Merge           localThenRemoteMerge, parallelMerge, quorumMerge
--     Query.Command         the query command of handleRequest
--   Crud                  app/service.go: crudUpdateDocStoreRev, crudDeleteDocStoreRev
--   Capacity              app/service.go: the capacity registry:
--     Capacity.CapId        AgentPeerID, isPrintableID, GenerateCapID
--     Capacity.Records      the requests, the reservations and the errors
--     Capacity.Registry     ReserveCapacity, GetCapacity, AttachCDT, ReleaseCapacity, ListCapacities
--   Credentials           credentials/: ValidateCredential, VerifyProof, extractMetadata, VerifyCredential
--   Lineage.Queue         app/lineage_queue.go: enqueueLineage, lineageWorker
--   Tests                 runs on concrete inputs.
--
-- How the parts interact: the listener (Messages) passes what the rate limiter admits to Voting,
-- Roles and Reputation; an election (Start) opens a round, lets messages come, and closes it with
-- the tally; the winner is announced by Roles. A failed leader (Failure) starts an election. The
-- application writes documents by Store.Batch, which hands few documents to Store.Commit. A query is
-- answered by Query.Local, Query.Engine or both (Query.Merge); a peer that is asked answers by
-- Query.Handler. An update writes by Store.Commit and queues a job in Lineage.Queue.
--
-- A handler is a function from the node and its surroundings (clock, rows of the reputation table,
-- random numbers, success of publishing) to the next node and a list of effects. Where the code
-- releases a lock in the middle, the halves are functions of their own. A crash of the process is
-- `none`. Instants and durations are natural numbers of nanoseconds; terms are integers that wrap.
-- Go maps are association lists in the order in which a loop would meet them; the theorems that
-- depend on that order say so. The loop of the group commit runs on as many rounds as the queue has
-- requests, and a round takes one request at least. The worker of the lineage queue runs on as many
-- rounds as keys are queued, and a round takes one key. The loop of publishMessage has three
-- attempts and that of StartElection three rounds.
--
-- The loop of a fan-out has as many rounds as peers are asked. Of concurrent goroutines the order in
-- which they ask and answer is an argument (Schedule, Network). A filter that panics gives `none`.
--
-- Parameters: float64 with its operations, peer.Decode, the hashes in an election's id and in the
-- key of a query, json sizes, and the calls Put and PutAll of a document store, which
-- third_party/go-orbit-db implements; so are its reads and deletions. What is relied on of it stands in the
-- records Keeps, Indexed and Deletes, and in Registers for the store of the capacities; what is relied on of
-- encoding/json between two nodes in JsonWire. regexp, strconv, strings and time are arguments too.
--
-- Not modelled: logging, network and mesh repair, the SQL copy under sql/, the HTTP API, chat,
-- semantic search, TOSCA and the rest of app/. Of a query, the time budget is the list of the answers
-- that come in time. The resolution of a store's name is left out: the commands start from the store.
pub mod Base
pub mod Election
pub mod Store
pub mod Document
pub mod Query
pub mod Crud
pub mod Capacity
pub mod Credentials
pub mod Lineage
pub mod Tests
