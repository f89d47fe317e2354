-- ===== src/Lib.antt =====
-- Verification of los-cara, an S3-compatible object store in Rust that keeps its data in plain files.
--
-- The program's parts and the files that model them:
--   * src/error.rs, in Error.antt: the error value with its code, status and message, the constructors,
--     and the XML document that reports one. `Result` is Rust's.
--   * src/xml.rs, in Xml.antt (the builder), Xml/Tree.antt (`XmlNode` and its searches) and
--     Xml/Parse.antt (`parse`). quick-xml's `escape` is a parameter, and so is its reader: `parse` takes
--     the events that the reader yields, with `failure` where it reports an error.
--   * src/storage.rs, below Storage. Fs.antt is the file system: a path is the list of its components,
--     the innermost first. Io.antt runs the code: a computation takes a `World` (the files, what will
--     befall the coming system calls, and how many uuids and clock readings there were) to an outcome,
--     which is a value, an error or a kill. Each system call goes through, fails or is cut short by a
--     kill, as the list in the world says; a failed or cut write leaves a part of its bytes. Calls.antt
--     has the calls of `std::fs` and `tokio::fs`, Types.antt the records and what is taken from crates
--     (`Env`: uuid, chrono's clock, md-5, sha2, hex, serde_json). Names.antt has the bucket names and
--     the layout, Json.antt the JSON files, Buckets.antt, Objects.antt, Copy.antt, Cleanup.antt, Listing.antt,
--     Multipart.antt and Multipart/Uploads.antt the operations of `Storage`, with its names.
--     Storage/Atomic has the reasoning about `put_object`: Hoare.antt is a logic of three
--     postconditions, for a return, an error and a kill, and the other files climb from the single
--     calls to the whole operation, which PutObject.antt states; GetObject.antt reads back.
--     Storage/Live is about runs in which no call is made to fail.
--   * src/s3.rs, below S3: Request.antt (how the query, the path and the `host` header are read),
--     Dispatch.antt (`dispatch`, with the handler that it calls as a value), Range.antt
--     (`parse_range`), Conditions.antt (`evaluate_conditions`), Http.antt (responses and headers, and
--     `Http`, what is taken from crates), Payload.antt (the observing body and `check_body_state`),
--     Document.antt (how documents are written), Handlers (the handlers, by their names), and
--     Server.antt (`authenticate`, `entry`, `request_id_and_log`, and the call of the handler that
--     `dispatch` picked). A body is the list of the chunks that arrive, with the error that ends it.
--   * src/auth.rs, below Auth: Crypto.antt (the primitives, with the crates as parameters), Keys.antt
--     (`CredentialStore`, `add_key` and `remove_key`), Request.antt (the canonical requests and
--     `parse_authorization`), Verify.antt (`verify_request` and what it calls) and Chunked.antt
--     (`parse_chunk_header` and `ChunkDecoder`). Headers, percent-encoding and the parsing of dates
--     are parameters.
--   * src/config.rs and src/main.rs, below Config: Cors.antt (`parse_cors_origin`), KeyStore.antt (the
--     commands for keys as runs over the file system), Start.antt (`serve_with_cors` up to where the
--     server listens, and `main` for each command).
-- Base holds what they share: texts as lists of bytes with the functions of `str` that the program
-- calls, lists, ordered maps, and the parsing of numbers with the limit of their type. Tests has runs
-- at concrete inputs.
--
-- The parts meet as the code's parts do: Server.antt verifies a request with Auth, observes its body
-- with Auth's decoder, and runs the handler, which calls the operations of Storage; every failure is
-- an `S3Error`, which becomes a response.
--
-- Bounds and fuel. A size is a natural number; the sums that the code makes in `u64` keep their
-- wrap-around where nothing bounds them. `receive` stops at 5 GiB, which is far below 2 ^ 64. A walk
-- over directories has as fuel the length of the longest path, which no directory is deeper than. The
-- loop of the decoder has two turns for each byte of the buffer and two more: a turn takes a byte, or
-- leaves a chunk that has none left. A part number in decimal has at most 20 digits.
--
-- Not modelled: the parsing of the command line, the sockets, TLS and the CORS layer, which set up
-- third-party servers; the log; the text of an error about an origin. A header value that the code
-- unwraps is taken as valid: digits, hexadecimal digits, dates and valid bucket names. A panic of the
-- commands for keys is an error of their run. What a handler reads of the state of its body is what
-- the stream leaves at its end or at its error. The lock of an object keeps its writers apart, so an
-- operation is one run of the model; symbolic links, permissions and open handles to removed files
-- are left out.
pub mod Base
pub mod Error
pub mod Xml
pub mod Storage
pub mod Auth
pub mod S3
pub mod Config
pub mod Tests
