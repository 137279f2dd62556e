-- ===== src/Lib.antt =====
-- A model of the Aruna data proxy (src/, a Rust program): an S3 front end and gRPC services over a
-- cache of the resources of an Aruna instance, a database that keeps the cache, and a storage
-- backend. A request's path is resolved in the cache (auth/auth.rs) into states of the four levels
-- project, collection, dataset and object (structs.rs); the permissions of its access key and the
-- configured rules decide whether it may proceed; what is missing is created below what is there;
-- data is read by ranges that depend on the stored format (s3_frontend/utils/ranges.rs).
--
-- Files and the code that they model:
--   Base: tests, lists, texts, maps, results, machine integers.
--   Structs/Permission, Structs/Format, Structs/Object, Structs/Users: the data of
--     src/structs.rs.
--   Structs/States: `ResourceStates` of src/structs.rs and its operations.
--   Structs/Creation: `ResourceStates::into_new_or_existing`.
--   Structs/Messages: the conversions of gRPC resources in src/structs.rs, with the relations in
--     Relations and Converted.
--   Structs/Requests: the create requests of src/structs.rs, with their parents in Created.
--   Auth/Path, Auth/Helpers: src/auth/auth_helpers.rs.
--   Auth/Resolve, Auth/Requests, Auth/Packages, Auth/Tokens: the path resolution, the handlers
--     and the tokens of src/auth/auth.rs, with what a grant rests on in Granted, Readable and
--     Accepted.
--   Ranges: src/s3_frontend/utils/ranges.rs.
--   Cache: resources, paths and bundles of src/caching/cache.rs.
--   Cache/Parts, Cache/Secrets, Cache/Locations: the parts of uploads with how
--     src/s3_frontend/s3service.rs counts them (Parts/Summed the sums), secrets and public keys,
--     and locations, of src/caching/cache.rs.
--   Structs/Cors: the rules for requests from other origins in src/structs.rs.
--   Client: src/caching/grpc_query_handler.rs, methods on the state of Client/Base;
--     Client/Events the notifications, Client/FullSync the full sync, Client/Calls which
--     requests the methods make, Client/Refreshed, Synced and Pulls what events, a full sync and
--     a replication leave.
--   S3: src/s3_frontend/s3service.rs; S3/Uploads what puts data, S3/Multipart the uploads in
--     parts, S3/Buckets what is about buckets, S3/Reads what reads; S3/Steps, Written,
--     Overwritten, Completed and Answers what a put goes through and leaves, what the end of an
--     upload leaves, and answers to listings and ranges.
--   Cache/Accounts: the conversions of users in src/structs.rs and src/caching/transforms.rs;
--     Cache/Accounts/Personal tokens without permissions.
--   Sync: sort_objects of src/caching/grpc_query_handler.rs, and in Sync/Load and Sync/Loaded
--     how `sync_with_persistence` of src/caching/cache.rs enters the sorted resources and their
--     paths.
--   Cache/Graph, Cache/Objects: the walks through the hierarchy, and the upsert and deletion of
--     objects in src/caching/cache.rs; what a walk gives is in Graph/Hierarchy, Graph/Walks,
--     Graph/Prefixes and Graph/Parents, what becomes of the paths in Objects/Ordered, Reachable
--     and Stale.
--   Cache/Users: users and access keys of src/caching/cache.rs and `User` of src/structs.rs;
--     Cache/Users/Revoked which keys are withdrawn.
--   Listing: src/s3_frontend/utils/list_objects.rs; Cache/Paths the ranges of paths,
--     Listing/Pages how the pages follow one another, Listing/Keys what a page holds, by the
--     descriptions of Listing/Places.
--   Location: src/data_backends/location_handler.rs, from the parsed arguments on;
--     Location/Names how a scheme is divided and which keys it gives.
--   Sink: src/s3_frontend/utils/buffered_s3_sink.rs, with the totals and the completion of
--     uploads in its children.
--   Replication: src/replication/replication_handler.rs; Replication/Queue and Pending its
--     queue, Replication/Responses the response handler, Intakes, Runs, Accounting, Announced
--     and Lost the taking in and the comparison of chunks.
--   Tests: each theorem at a concrete input.
--
-- Not modelled: what transformers do to a stream, the server's part of remote calls, the database
-- and the storage backends, which are reading, writing and calls of libraries; the rule engine,
-- whose expressions a library evaluates; the parsing of a scheme's text, which is built from a
-- library's combinators; the loop of a replication over its objects, between calls of the backend
-- and remote calls; configuration and start.
--
-- Conventions. Identifiers (`DieselUlid`) are numbers, texts are lists of code points, maps are
-- association lists read at their first entry for a key, sets are lists; the ordered map of paths
-- is a list in the order of its keys, which is that of code points. Errors keep the S3 code and
-- the message; logging is left out. The client and the S3 service are methods on one state, with
-- the requests so far, whose answers are functions of them; `none` stands for a method that does
-- not end, by a panic or a walk out of rounds. Tasks of their own are what they are started with;
-- streams of messages and channels of one task do not fail. Arithmetic on u64 wraps, as in a
-- release build. The cache, the rule engine, the footer of a Pithos file, generated identifiers
-- and the time are parameters of the functions that use them. The sink records its calls of the
-- backend, which a function of all earlier calls answers; the tag of a part is built from the
-- number it was uploaded under and the answer; part numbers do not overflow. Recursion on fuel:
-- the split of a token header at blanks and of a list of headers at commas, with the text's length
-- as fuel, which is enough as every part but the last takes at least the separator from the text;
-- and the walks of the cache's get_prefixes, get_suffixes and get_single_parent through the
-- hierarchy, in rounds. The rounds of the walks upwards are the subject of Graph/Prefixes and
-- Graph/Parents.
pub mod Base
pub mod Structs
pub mod Ranges
pub mod Auth
pub mod Cache
pub mod Sink
pub mod Listing
pub mod Location
pub mod Replication
pub mod Sync
pub mod Client
pub mod S3
mod Tests
