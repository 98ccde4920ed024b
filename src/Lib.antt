-- ===== src/Lib.antt =====
-- Varis: an archive on optical discs, with parity within each disc and across groups of discs.
--
-- Files wait in a staging directory until a job burns them. A job is planned first: the staged
-- files are packed into buckets of a disc's size, each bucket becomes a data disc, and the data
-- discs are put into groups with a parity disc each. Then the discs are burned one by one: a tar
-- archive with par2 parity and a table of contents becomes an ISO image, which is written and
-- verified; the disc and its files are entered into the catalog, and the files leave staging. A
-- parity disc holds the exclusive or of the images of its group, from which one lost disc can be
-- rebuilt.
--
-- The parts, the files that model them, and the code:
--   Base       native numbers, byte texts, errors as values, steps that may fail, dictionaries;
--              Base/Int64 has the arithmetic of an int64 on its 64-bit pattern
--   Xordisk    XOR of internal/xordisk/xor.go (xor_disks); Pointwise and Recovery hold its laws
--   Binpack    TargetDataSize, Pack and ScanStaging of internal/binpack/binpack.go (target_data_size,
--              pack, and scan_staging in Binpack/Scan)
--   Db         the rows and tables of internal/db; Db/Disks, Db/Files and Db/MediaTypes have one
--              definition for each function of disks.go, files.go with staged_metadata.go, and
--              media_types.go; Db/Ids the ids of discs; Db/Search has SearchFiles, Db/Schema
--              Connect with schema.sql. A table is a list of rows, and the server
--              (Postgres) may refuse each statement and supplies the time and random ids
--   Toc, Os    the table of contents of internal/toc/toc.go; what the code uses of Go's library and
--              of the machine, as a record with arbitrary fields
--   Burn       internal/burn: Cataloger (the interface and pgxCataloger), Plan (planJob), Tools
--              (parity.go, iso.go, write.go, verify.go, WriteTar of pack.go, and the helpers at the
--              end of pipeline.go), Job (states and the sections under the manager's lock), Step (steps of
--              a manager), Disc and Run (runDisc, buildParityPayload, commitDisc), Manager (Start,
--              ContinueNextDisc, Retry), Reconstruct (reconstruct.go);
--              Manager/Completes: a user who continues disc by disc
--   Retrieve   internal/retrieve: Catalog (catalog.go), Job (states, and the sections that claim and
--              end a step), Step (steps of a manager and what a deferred or ignored one does), Read
--              (readFrom), Fetch (what StartReconstruction and ReadReconstructionDisc get, and
--              foldReconstructionImage), Manager (Start, ReadDisk, StartReconstruction,
--              ReadReconstructionDisc, Abort, Remaining); Manager/Sections has the sections under its lock
--   Webdav     internal/webdav: Clean (split), Combined (CombinedFileSystem), Listing (Readdir of the
--              root), Size (DirSize)
--   Web        internal/web: Staging, Scanned and Pages (staging.go, dryruns.go, config.go), Server and
--              Handlers (jobs.go, library.go), Answer (handlers that end with a status),
--              Front (dashboard.go, cover.go, and the search of library.go), Reading (handlers that change
--              no table), Adding (what the dashboard shows)
--   Config     internal/config/config.go
--   Main       cmd/archive-core/main.go: what is handed to the parts and the start; Main/Routes has the
--              routes of internal/web/server.go, Main/Serve a request's way through them,
--              Main/Commit a commit over the tables of internal/db
--   Tests      the definitions and theorems at concrete inputs
--
-- A call of the code that may fail and changes state is a function from the state to its result and
-- the next state, also after an error. The manager's operations run over a catalog and a machine of
-- any kind; Burn/Manager/Sections has the sections under the lock as a step relation, on jobs as
-- objects that calls point to. An int or int64 is its 64-bit pattern where the code's arithmetic on
-- it can leave the range of naturals; a text is its list of bytes.
--
-- Fuel and bounds: the loop over groups (chunks) has the number of discs as its bound, and the
-- digits of a number (decimal) have one more than the number; both are more than the loop can need,
-- and flatten-chunks and value-decimal_digits show that nothing is left over. All other loops are
-- structural.
--
-- The pages meet the two managers at internal/web: a server holds the jobs of both over one world,
-- and each handler is a function of it. Handlers of the catalog and the directories run over a pair
-- of the machine and the catalog. A client that lists the root (read_all) has as fuel one call more
-- than entries are left, which is enough by read_all-eq-some.
--
-- Not modelled: which reconstructor a manager of retrievals holds while two of its calls run at
-- once (Retrieve/Manager/Sections has their jobs); templates that cannot be rendered; the HTTP
-- server's own work, and what it does with requests that reach it at once; the widths of the
-- catalog's columns, and logging. Go's library, PostgreSQL's own code, par2, xorriso and wodim are
-- outside the repository and enter as parameters. Written out are its path.Clean on rooted paths,
-- strings.Split, strconv.Atoi, ServeMux on the patterns of the source, and its sorts, as insertion
-- sorts with the code's order; strings.TrimSpace is a parameter.
pub mod Base
pub mod Xordisk
pub mod Binpack
pub mod Toc
pub mod Os
pub mod Db
pub mod Burn
pub mod Retrieve
pub mod Webdav
pub mod Config
pub mod Main
pub mod Web
mod Tests
