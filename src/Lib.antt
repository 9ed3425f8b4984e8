-- ===== src/Lib.antt =====
-- A verification library for the Rust crates of the passport prover. The prover takes an identity
-- document (its data group 1 and its security object, the SOD) and a request, and finds the
-- zero-knowledge circuits that prove the request: those that disclose what the request asks for,
-- those that check the signatures over the document, and an outer circuit that aggregates their
-- proofs.
--
-- How the parts work together. A fixture is a document with a request. Planning reads the
-- request's query and lists the disclosure circuits and the outer circuit. Analysis reads the
-- document: the machine-readable zone (MRZ) from data group 1, and from the SOD, in DER, the
-- certificate of the document signer (DSC), the object identifiers of the algorithms and the key.
-- The certificate registry gives the country's certificate (CSCA) that signed the DSC. From the
-- analysis and the CSCA follow the names of the circuits, which are looked up in the manifest of
-- the circuit registry. The pipeline joins these steps. A registry snapshot fixes circuits by
-- their hashes, and materializing it writes them to disk, where the artifact store finds them
-- again. The witness solver turns a circuit and its inputs into a witness, and the proving code
-- starts Barretenberg's command `bb` on it. The command line solves and proves the circuits of a
-- fixture one after the other, aggregates a request into an outer proof, and reads the nullifier
-- from that proof's public inputs. On a telephone the witness is solved by a bridge of its own,
-- through JNI or through a C interface.
--
-- Which file models which code:
--
--   Prelude.antt and Prelude/: shared helpers. Fallible: what a call ends in (`Outcome`: a result,
--     an `anyhow` error, a panic, or fuel that ran out). Words: `usize` with 64 bits, whose sums
--     panic in a build with overflow checks and wrap round in one without. Select: `filter`, `find`
--     and the stable `sort_by_key`. Text/: `str` and `String` as lists of UTF-8 bytes, with
--     trimming, cutting, case, decimal and hexadecimal digits.
--   Json.antt: `serde_json::Value`. Web.antt: answers of the HTTP client, and `decode_json_bytes`
--     and `is_gzip`, which crates/prover-core/src/registry.rs and
--     crates/prover-core/src/certificates.rs both declare.
--   Types.antt: crates/prover-types/src/lib.rs, the records of a fixture and their `validate`.
--   Planning.antt: crates/prover-core/src/planning.rs, `build_proof_plan` and its helpers; the
--     pushes are `disclosure_circuits`, what follows them is `finish_plan`.
--   Resolution.antt: crates/prover-core/src/resolution.rs, the tokens of circuit names and
--     `resolve_document_circuits`.
--   Der.antt: `parse_tlv`, `parse_oid_raw` and `parse_oid_bytes` of
--     crates/prover-core/src/analysis.rs. Sod.antt: `parse_sod_envelope` and the functions below it.
--     Mrz.antt: `extract_mrz_from_dg1` and `parse_mrz`. Analysis.antt: `analyze_document` and the
--     tables that it reads.
--   Certificates.antt: crates/prover-core/src/certificates.rs, the registry client, `resolve_csca`
--     and `derive_document_circuit_context`.
--   Registry.antt: crates/prover-core/src/registry.rs, the registry client, `snapshot_circuits`
--     and `materialize_snapshot`.
--   Pipeline.antt and Pipeline/Summary.antt: crates/prover-core/src/pipeline.rs, the steps of
--     `ProverPipeline`.
--   Artifacts.antt: crates/prover-core/src/artifacts.rs, the store that reads a local directory
--     first and the registry second.
--   Witness.antt: crates/prover-core/src/witness.rs and crates/prover-core/src/circuit.rs.
--     Witness/Jni.antt: crates/acvm-witness-jni/src/lib.rs, `solve_inner` and the JNI function, and
--     src/bin/acvm_witness_cli.rs beside it.
--   Ffi.antt: crates/acvm-witness-jni/src/ffi.rs, over a heap of allocations. Ffi/Sessions.antt: a
--     caller that solves and frees in any order, as a step relation.
--   Io.antt: files, directories, environment variables, temporary names and commands, as a world
--     that each action takes and returns.
--   Config.antt: crates/prover-core/src/config.rs and crates/prover-core/src/fixture.rs, and
--     `from_matrix` of the two registry clients.
--   Proving.antt: crates/prover-core/src/proving.rs with the feature `native-prover`.
--     Proving/Binary.antt: `ensure_bb_binary` and what it calls. Proving/Fetching.antt,
--     Proving/Cache.antt and Proving/Downloads.antt: a second call of it.
--   Cli.antt and Cli/: crates/prover-cli/src/main.rs. Scripts: the Node scripts and their
--     temporary files. Jobs: `solve_fixture_jobs`. Outer: `ProveFixtureOuter` and
--     `AggregateRequest`. Commands and Fixtures: the other commands, each a function of its
--     arguments that returns what it prints.
--   PublicInputs.antt: `split_hex_fields`, `bytes_to_hex` and `outer_nullifier` of
--     crates/prover-cli/src/main.rs.
--
-- The state. The analysis and the planner keep none. The loops of the SOD reader carry their
-- position and the fields found so far (`SignedData`). `materialize_snapshot` carries the disk, as
-- the list of the files written, the last one first, so that what an error leaves behind shows.
-- The command line and the proving code carry the `World` of Io.antt: that disk, the directories,
-- the environment variable `NOIR_SERIALIZATION_FORMAT`, the number of temporary names used, and
-- the commands started. A temporary directory is dropped however its body ends, and what is in it
-- goes away as far as `Os.removes` lets it: `Drop` passes over what cannot be removed. The C
-- interface carries a heap, in which every allocation has an address of its own, so that a second
-- free of a block is a fault.
--
-- Fuel. Each loop over the children of a DER value in Sod.antt runs on fuel, as many rounds as the
-- SOD has bytes and one more. With overflow checks that is enough, since every child takes two
-- bytes or more and has to begin in the buffer; without them a stated length may wrap round, and
-- no fuel is enough. `chunks` in PublicInputs.antt has one round for each byte, more than the
-- chunks it cuts.
--
-- What is a parameter: the base64 decoder, the X.509 parser and the table of countries
-- (`Libraries`); the HTTP client and the decoder of gzip (`Http`); the readers and writers of JSON
-- types and the clock (`CertificateJson`, `RegistryJson`, `ConfigJson`, `CliJson`); paths, and
-- whether a file can be written (`FileSystem`); Noir's parser, executor and serializer (`Noir`);
-- the Java virtual machine (`JniEnv`); the environment, and what a command does to the files and
-- how it ends, and what can be removed of a temporary directory (`Os`). The parser gives a key's
-- parameters as `Any::data` of x509-parser does: the content octets, without tag and length.
-- Nothing is assumed of `bb`, of the scripts or of the downloads.
--
-- What is not modelled: the parsing of arguments and the printing; the debug output;
-- `prove_circuit_with_witness` and `verify_circuit_proof` without the feature `native-prover`,
-- which only fail; the Go server and the Solidity verifiers, which are other programs. An error
-- keeps its outermost message and the values in it, without its chain of causes. A file that
-- cannot be written is left as it was.
pub mod Prelude
pub mod Json
pub mod Types
pub mod Planning
pub mod Resolution
pub mod Der
pub mod Sod
pub mod Mrz
pub mod Analysis
pub mod Web
pub mod Certificates
pub mod Pipeline
pub mod Registry
pub mod PublicInputs
pub mod Artifacts
pub mod Witness
pub mod Ffi
pub mod Io
pub mod Config
pub mod Proving
pub mod Cli
