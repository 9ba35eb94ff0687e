-- ===== src/Lib.antt =====
-- Rivid: ULIDs, their codec and their JavaScript API, and what is built on them.
--
-- The program is a Rust engine (crates/core), a native binding (src/lib.rs) that hands the engine's
-- functions to Node, a JavaScript API over the binding (src/*.ts), packages for database clients
-- (packages/*) and a command-line tool (cli/*.mjs).
--
-- The engine. Paths here are below crates/core/src.
--   Engine/Error: Error and Result of error.rs. A function that returns a Result in Rust returns
--     one here.
--   Engine/Alphabet: positional numerals over an alphabet, the description that the text codecs are
--     measured by. It models no code.
--   Engine/Crockford: crockford.rs, with its tables, the encoder by groups of ten bits, the decoder
--     that joins shifted digits, and the timestamp codec. Integers are natural numbers with the
--     width of u64 and u128 written out as a remainder. Its children hold the proofs.
--   Engine/Bytes: the big-endian conversions of Rust's integers.
--   Engine/Ulid: ulid.rs.
--   Engine/Uuidv7: uuidv7.rs, and the text form of convert.rs.
--   Engine/Convert: the UUID parser and the ULID conversions of convert.rs.
--   Engine/Batch: the blocks of batch.rs.
--   Engine/Alphabet/Table: the decode tables that ksuid.rs, sortable.rs, base64url.rs and base58.rs
--     each build from their alphabet.
--   Engine/Sortable: sortable.rs.
--   Engine/Base64url: base64url.rs.
--   Engine/Radix: changing the base of digits, the description that base58.rs is measured by. It
--     models no code.
--   Engine/Base58: base58.rs. A loop on a carry takes as many rounds as the carry, which is enough
--     since each round divides it.
--   Engine/Ksuid: ksuid.rs. The 160 bits are a list of five limbs as there, and the loops over them
--     run over the list. The random payload is an argument.
--   Engine/Monotonic: monotonic.rs. Clock and random numbers are the record World. The loop that
--     waits for the clock is bounded by a number of readings; it returns where one of these
--     readings is late enough, whatever the bound.
--
-- The layers in JavaScript.
--   Js: numbers, thrown errors, the host that hands strings to native code, and
--     Array.prototype.sort. The language leaves the sorting algorithm open, so an insertion sort
--     stands for it; what is proved of a sorted list (ascending, and stable) determines it.
--   Binding: src/lib.rs. The conversion of a string to UTF-8 is a field of the record Host with the
--     two facts that are used.
--   Binding/Encodings: the codecs and conversions of src/lib.rs.
--   Binding/Ksuids: the KSUID functions of src/lib.rs.
--   Binding/Buffers: the functions of src/lib.rs that read or fill buffers of several identifiers.
--   Binding/Batches: generate_many of src/lib.rs, from the modelled engine.
--   Engine/Rng: rng.rs, the seeded generator and the pool of random words; System adds the source
--     that fills the pool to World.
--   Binding/Generators: ulid, encode_time and the class UlidGenerator of src/lib.rs, for the calls
--     of one thread.
--   Binding/Source: the identifier generators of src/lib.rs as an interface: clock and random
--     numbers are its state, and its laws are the documented limits of each call.
--   Binding/Native: the same interface, Source, implemented by the model of src/lib.rs, for a clock
--     that
--   passes every millisecond at some reading; so monotonicUlid always returns.
--   Prisma: packages/prisma/src/index.ts. Rows are objects that caller and extension share, so they
--     live in a heap and a batch is a list of references.
--   Api/Uuidv7: src/uuidv7.ts.
--   Drizzle: packages/drizzle/src/index.ts.
--   Cli/Generate: the generating commands of cli/rivid.mjs, up to what they print.
--   Cli/Inspect: the commands decode and validate of cli/rivid.mjs.
--   Cli/Dispatch: the choice of the command and the help texts of cli/rivid.mjs.
--   Scripts/PostBuild: scripts/post-build.mjs, with a directory as a data type of entries.
--   Cli/Main: cli/rivid.mjs as a whole, from the loading of the native module and the arguments to
--     the exit code.
--   Js/Text, Js/Regex, Js/Pattern: string methods and regular expressions as cli/check.mjs uses
--     them. Matching backtracks as the language prescribes; the rounds of a star are bounded by the
--     length of the text, which is enough since a round that consumes nothing is refused.
--     Js/Regex/Endings says what the engine makes of a text at the end of the input.
--   Cli/Columns, Cli/Check, Cli/RunCheck: cli/check.mjs, from the extracted columns and the policy
--     to the exit code. Findings are without their texts. What is read from the disk, and
--     toLowerCase, are parameters; policy entries are strings.
--   Cli/Extract: the extractors of cli/check.mjs for SQL, Prisma and Drizzle, on the text of a
--     file.
--   Cli/Files: walk and extractAll of cli/check.mjs. A file system is a record of functions by
--     path, and a walk is bounded by a depth, since directories can contain themselves by links;
--     the bound is enough where it exceeds the depth of the directories.
--   Cli/PolicyFile: parsePolicyYaml of cli/check.mjs. The parser's objects live in a heap, since
--     its stack shares them.
--   Cli/LoadPolicy: loadPolicy of cli/check.mjs.
--   Cli/Audit: runCheck of cli/check.mjs over a file system, from the policy file, the walk and the
--     extractors to the exit code. Cli/RunCheck has the same command over an interface, Disk, that
--     hides the files.
--   Api/Encodings: src/encodings.ts, as a record of its exports.
--   Api/Ksuid: src/ksuid.ts, its constants and sortKsuid.
--   Api/Ulid: src/ulid.ts. A JavaScript string is the list of its UTF-16 code units. sort_in_place
--     returns what the caller's array holds afterwards along with the outcome.
--
-- Every other loop of the modelled code runs over a list or a fixed number of rounds and is
-- structural recursion.
--
-- Not modelled: the secure random generator and the clock, which are third-party code or the
-- system's; the printing of findings; bindings for Python and WebAssembly; benchmarks, examples and
-- the other build scripts.
--
-- Runs holds concrete inputs at which the theorems' hypotheses hold.
pub mod Common
pub mod Engine
pub mod Js
pub mod Binding
pub mod Api
pub mod Prisma
pub mod Drizzle
pub mod Cli
pub mod Scripts
pub mod Runs
