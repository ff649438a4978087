-- ===== src/Lib.antt =====
-- A verification library of pigcloud-cli, the command line client of an end-to-end encrypted
-- file store. It covers the parts of the client that decide: which keys it trusts, what it does
-- with an error of the server, and what its mount writes to, claims from and evicts from its
-- cache.
--
-- The parts, and the files of the program that they model:
--   Common       texts, numbers, lists and maps, shared by all modules.
--   Retry        internal/api/errors.go, internal/mount/cache/failures.go and
--                internal/mount/syncer/failures.go: the kinds of errors and how long to wait.
--                Retry/Bounds has the theorems.
--   Pins         what the client remembers of keys, one module for each file it keeps in its
--                configuration directory. Pins/Codec is what all use: base64, SHA-256, and the
--                display of a fingerprint.
--   Pins/Tee     internal/e2ee/tee_signing_pin.go: the scanner's signing key and posture. Tee has
--                the store and the record (loadTeeSigningPkFile, teeSigningRecord, accepts),
--                Tee/Attestation the probe (teeAttestationAnswerable, postureFor,
--                checkTeeAttestationPosture), Tee/Moves the operations (checkTeeSigningPks,
--                recordTeeSigningPk, RepinTeeSigningPk, ForgetRetiredTeeSigningPk). Tee/Repinned,
--                Tee/Signing, Tee/Checked, Tee/Moved and Tee/Accounts have the theorems.
--   Pins/Peer    internal/e2ee/peer_seal_pin.go with validPeerName of peer_signing_pin.go: the keys
--                data is sealed to (PinPeerSealKey, RepinPeerSealKey). Peer/Bundle is the served
--                bundle and the signature over it, with keyBundleInput and VerifyKeyBundle of
--                internal/crypto/sign.go. Peer/Trust and Peer/Binding have the theorems.
--   Pins/Own     internal/e2ee/signing_pin.go: the account's own signing keys and their signed
--                history. Own/History has the theorems.
--   Pins/Signers internal/e2ee/peer_signing_pin.go: the keys that others sign with
--                (checkForeignSignerOnOwnNode). Signers/FirstUse has the theorems.
--   Cache        internal/mount/cache: Cache the tables, Cache/Inodes, Cache/Queue and
--                Cache/Failures (with Failures/Listed) the statements of db.go, local_content.go
--                and retry.go, Cache/Blobs the content store's files, Cache/Chunks its chunk cache
--                and ReadAt (store.go), Cache/Evict the evictor and the sweep (eviction.go).
--                Inodes/Merge, Inodes/Candidates, Queue/Claims, Queue/Once, Evict/Ends, Evict/Passes,
--                Evict/Spared, Evict/Backed, Evict/Swept, Evict/Reached, Evict/Left, Chunks/Slices,
--                Chunks/Held and Chunks/Reads have the theorems.
--   Cache/Records
--                internal/mount/cache/store.go: the sealed records of a blob (sealStream,
--                readChunkAt and the loops of Get and WriteTo); Records/Vault what is put and read
--                of them (putSealed, Put, PutFile, Get, WriteTo, ReadAt). Records/Sealed says what
--                sealStream writes, Records/Restored what Get and readChunkAt read of that,
--                Records/Ingest what a put leaves, and Records/Stored and Records/Sent have the
--                theorems.
--   Sync         internal/mount/syncer: what stands between the mount and the server.
--   Sync/Writeback
--                writeback.go: what the processor does to the database with an entry's outcome
--                (processEntry, requeue, heldByConflict), with theorems in Writeback/Settled and
--                Writeback/Attempts. Writeback/Batches has the loops over what was claimed
--                (processBatch, FlushAll, withDeferred); Batches/Claimed, Batches/Rounds,
--                Batches/Returned, Batches/Starved and Batches/Held have their theorems.
--   Sync/Names   internal/mount/vfs/validate.go, TypeOf of internal/filetypes/filetypes.go, and
--                shouldIgnore, toRemotePath, toRemote and joinPath of watcher.go, reconciler.go
--                and poller.go: names and paths.
--   Sync/Kept    which edits, and in Kept/Uploads which uploads, the operations on the tables keep.
--   Sync/Reconcile
--                reconciler.go: healEntry, and in Reconcile/Walk the walk (Reconcile).
--                Reconcile/Edits, Reconcile/Queued, Reconcile/Healed and Reconcile/Edited have the
--                theorems.
--   Sync/Watch   watcher.go: the handlers of events (handleEvent, handleCreate, handleWrite,
--                handleRemove, enqueueExistingChildren) and syncFile. Watch/Events, Watch/Removed
--                and Watch/Synced have the theorems.
--   Sync/Download
--                downloader.go and downloader_local.go: the download of one file (downloadFile,
--                validateDownloadPublication, commitDownload), and in Download/Visiting the visit
--                that leads to it (walkForDownloads at a file, protectLocalCollision). The
--                theorems are in Download/Guarded, Download/Edits and Download/Due.
--   Sync/First   downloader.go: InitialSync (cleanupStaleEntries, walkAndSync at the files,
--                scanLocalNewFiles). First/Populate has the listing of the remote tree
--                (populateRemoteTree; Readdir, populateDir and nodeToInode of
--                internal/mount/vfs/vfs.go). First/Populated, First/Scanned and First/Spared have the
--                theorems.
--   Sync/Poll    poller.go: what one directory's listing does (pollRecursive). Poll/Twice,
--                Poll/Marked and Poll/Pruned have the theorems.
--   Files        internal/fsutil/atomic.go: the atomic replacement of a file
--                (WriteFileAtomicGuarded). Files/Replaced has the theorem.
--   Formats      internal/crypto: Formats/Names the padding of display names (names.go),
--                Formats/Frames the frame of an index body (frame.go).
--   Shell        cmd/sh.go: the splitting of a line (parseCommandLine). Shell/Quoting has the
--                theorem.
--   Tests        concrete inputs.
--
-- How the parts meet: the pins take their owner from one Account; an attestation answer goes
-- through Tee/Attestation into Tee/Moves, whose operations give the next store file; the
-- evictor reads its candidates from Cache/Inodes, releases their blobs in Cache/Blobs and
-- writes the rows back; the writeback processor settles what it claimed from Cache/Queue, with
-- waits from Retry. The reconciler and the poller write to the same tables: the one queues what
-- changed in the local folder for the processor, the other takes over what changed on the
-- server; both release the blobs that they supersede as the evictor does. The watcher puts a
-- changed file into the store, runs the evictor, and writes the row and its upload. The
-- downloader settles the failures that the tables hold with waits from Retry; what the other
-- parts do to the database while it fetches is a function that a download is given.
--
-- State is passed explicitly: an operation takes the store file or the database and gives the
-- next one, with an error as a value. A write that the code lets fail silently is a flag
-- `written`. Times are given, in seconds in the tables, in nanoseconds in Retry, where a
-- duration is its 64-bit pattern and products wrap. A Go error is the record of what errors.Is
-- and errors.As find in it. A file or column of JSON is what the code decodes from it.
--
-- Bounds: the loops of eviction run on fuel, one round more than there are rows with content
-- in the cache (enough_fuel); each round that goes on takes a row out. A read has one turn for
-- each byte asked for and of a chunk, and one more; sealStream, Get and WriteTo have one for
-- each byte of their input, and one more, of which each chunk and record takes at least one.
-- FlushAll has as many rounds as it is given: one more than the visits before its context ends
-- is enough, since each round that is followed by another visits an entry, and one is enough
-- where all that is due is held back by a conflict. An offset with a size, and every size and
-- count, is below 2 ^ 63: ReadAt's end of the range, the sum of the two, does not wrap. The
-- walks over the local folder are recursions on its tree. All other recursions are structural.
--
-- What is assumed: the database statements whose errors the code drops succeed; rows of one
-- last_access stand in id order, and RETURNING gives rows in table order; base64, SHA-256,
-- Ed25519, ML-DSA, gzip and JSON are parameters (Codec, Verifier), and so is the eviction
-- target, which the code computes in floating point. A claim that fails, be it in the UPDATE,
-- in a Scan or in rows.Err, leaves the table as it was: rows that a failing Scan has left
-- claimed are not modelled. The answers of the hook for inodes in use do not change during one
-- eviction. Sizes on disk change only through the store's own operations. The AEAD is a
-- parameter (Aead) that opens what it sealed under the same nonce and additional data and adds
-- a tag of fixed size; the nonces are given, and the theorems on stored contents are for
-- contents whose hashes do not collide. The size of a chunk is a parameter below 2 ^ 32 less
-- the tag, as in the code. A walk of the reconciler is not cancelled, and a clock that a loop
-- reads is given for each visit. The poller meets the entries of a listing in their order. A
-- write of a pin file succeeds or fails as a whole, as Files has it, and leaves nothing else:
-- the directory, the lock file and the temporary file that it makes are not part of the state.
-- The first synchronization visits directories in an order that is given, and meets in each
-- the nodes and the answer that are given. In Files, what is written is on the disk at once,
-- no one else writes meanwhile, and a rename that fails changes nothing.
--
-- What is not modelled: the commands, the FUSE and WinFsp drivers, the rest of the virtual
-- file system, the watches of the system and the timers, the trash of the downloader and the
-- directories that it makes, the transfers of the syncer, the requests of the poller and its
-- descent, the clean-up of the content store, HTTP, the encryption itself, configuration,
-- completion and output: they are input and output, or third-party code behind the parameters
-- above.
pub mod Common
pub mod Retry
pub mod Pins
pub mod Cache
pub mod Tests
pub mod Files
pub mod Formats
pub mod Shell
pub mod Sync
