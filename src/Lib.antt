-- ===== src/Lib.antt =====
-- ferrobucket: an S3-compatible object store that keeps its buckets in a directory tree.
--
-- The storage crate (crates/storage) turns bucket names and object keys into paths, writes bodies
-- and JSON sidecars by a temporary file and a rename, lists the keys of a bucket in pages, and
-- assembles multipart uploads. The server crate (crates/server) puts the S3 protocol in front.
--
-- Which file models what:
--   Error              crates/storage/src/lib.rs: `StorageError`, and results that carry it
--   Range              crates/storage/src/range.rs: `ByteRange::resolve`
--   Encode             crates/storage/src/encode.rs: `encode_key`, `decode_key`, the traversal guard
--   Bucket             crates/storage/src/fs.rs: `validate_bucket_name`
--   Layout             crates/storage/src/fs.rs: the paths below the data directory
--   Listing            crates/storage/src/list.rs: the grouping loop over the sorted keys
--   Listing/Page       crates/storage/src/list.rs: tokens, the cap, one page
--   Meta, Etag         crates/storage/src/{meta,multipart,etag}.rs: records and hashes
--   Persist            crates/storage/src/{fs,meta,multipart}.rs: writing by temporary file and
--                      rename, and reading sidecars
--   Storage/*          crates/storage/src/fs.rs: the operations of `FsStorage`, and the listing of
--                      crates/storage/src/list.rs over the files
--   Presign            crates/storage/src/presign.rs: dates, query strings and signatures
--   Storage/Refines/*  the map from bucket and key to content and type that the operations on
--                      objects implement
--   Server/*           crates/server/src/{s3_impl,error}.rs: the handlers of the S3 protocol
--   Server/Startup/*   crates/server/src/main.rs, crates/ui/src/app.rs: what `serve` puts together,
--                      what is mounted where, and `presign`
--   Console/*          crates/server/src/ui/{upload,download}.rs: the routes through which the web
--                      console sends and fetches files
--   Console/ServerFns  crates/ui/src/server_fns/*.rs: what the pages of the console ask the server
--   Ui/*               crates/ui/src/islands/{upload_zone,upload_panel}.rs: how the browser sends a
--                      file in parts, and the list of uploads; Ui/Links is the addresses of
--                      crates/ui/src/components/{pagination_bar,breadcrumb}.rs
--   Ui/Dialogs/*       crates/ui/src/islands/{create_bucket_modal,confirm_modal,slide_over}.rs: the
--                      dialogs, as the user acts and the server answers in any order
-- Base, FilePath, Disk and Act are what the code stands on: texts as lists of bytes, `std::path`,
-- the file system calls on a table of paths, and actions that pass the disk on.
--
-- How state is modelled. A `World` is the disk and the number of system calls made so far. An
-- operation is a function from a world to an outcome and a world: what was done before an error
-- stays done. Whether a call fails of itself is a parameter, `fails`, by the number of the call, so
-- a theorem without a hypothesis on it holds whichever calls fail. A write that is not atomic and
-- the removal of a whole directory can fail half done (Persist/Partial): how much of the content a
-- failing write leaves, and which entries a failing removal leaves, are parameters too, `short` and
-- `survives`. A file is its bytes; a body is the list of chunks that its stream delivers, one of
-- which may be an error. Operations run one at a time: calls of other tasks between two calls of an
-- operation are not modelled. Lengths and counts in u64 wrap as written; a disk path is a list of
-- names, without symbolic links, and `..` in it is taken back by name, which the removals of
-- uploads do only where `.uploads` is there.
--
-- What comes from other crates is a parameter with its documented laws (Host, Encode, Listing/Page):
-- percent encoding, base64, JSON, MD5, the names of temporary files and uploads, and the clock; for
-- the server the router, which looks at a literal first part, and the digests; for the console
-- the routing of its requests, the reading of bodies, what a header may hold, and the browser's
-- `fetch` and `Blob.slice`. How the browser and the server are connected is a parameter too: requests
-- and answers may be lost, but what the server is handed is what was asked.
-- Fuel stands in two places: the requests of a client that follows continuation tokens, where one
-- more than the number of keys is enough, and the digits of a number, where the number itself and
-- one more is, since every digit divides what is left by ten.
--
-- Not modelled: the rendering of the web console, the parsing of the command line, listening and
-- serving, logging, and the check of signatures. The routes and server functions of the console are
-- mounted without a check of keys.
pub mod Base
pub mod Error
pub mod Range
pub mod Encode
pub mod Listing
pub mod FilePath
pub mod Bucket
pub mod Disk
pub mod Act
pub mod Meta
pub mod Host
pub mod Layout
pub mod Etag
pub mod Persist
pub mod Storage
pub mod Examples
pub mod Server
pub mod Presign
pub mod Console
pub mod Ui
