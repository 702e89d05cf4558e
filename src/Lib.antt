-- ===== src/Lib.antt =====
-- TrustGrant: authorities grant others the recognition and the minting of their resources. This
-- library models the part of the repository that decides: which documents are valid, what of them is
-- signed, who owns the resources, which grants are verified, what a verified grant allows, and what
-- the in-memory executor does with it.
--
-- The parts and their code:
--   * Errors (crates/trustgrant-error/src): `TrustGrantError` and the limits on sizes.
--   * Domain (crates/trustgrant-domain/src): Ids (ids.rs), Names (names.rs), Authority (authority.rs),
--     Lineage (lineage.rs), Expression (selector_expression.rs), Ownership (ownership.rs) and
--     Canonicalization (canonicalization.rs): the values that all parts share, each with the
--     constructor that validates it (`T::new` is `new_t`). Canonicalization/Order describes the order
--     of `Utf16Key` on code points, Keys the maps with such keys.
--   * Revocation (crates/trustgrant-revocation/src): the record of a grant's status (status.rs), and in
--     Proof the proofs that give one (proof.rs); Windows says how long it is fresh.
--   * Discovery (crates/trustgrant-discovery/src): keys and bindings (document.rs); Source and Read are
--     the documents that publish keys (source_document.rs), Published what holds of them.
--   * Document (crates/trustgrant-document/src): Raw (raw.rs) and Model (validated.rs) are the documents
--     before and after validation; Selectors and Validate are the functions of validated.rs from one
--     to the other, up to `TryFrom<RawTrustGrantDocument>` (`try_from`); SelectorShape, Shape, Validity and
--     Validated say what holds of every validated document. Transition is the same for transitions of
--     ownership (ownership_transition.rs).
--   * Canonical: the writers that verify/src/canonicalize.rs and ownership/src/canonicalize.rs both have,
--     in Writer, Fields and Lists, and when two outputs agree (Unique, Values, Determined).
--   * Ports (crates/trustgrant-ports/src): a trait that the verification calls is a record of functions.
--   * Ownership (crates/trustgrant-ownership/src): Chain is `verify_document_ownership` (chain.rs), its
--     loop a fold of `accept` over the transitions with the loop's variables as `Progress`; Coverage,
--     Validity and Verdict state which chains pass. Canonicalize is canonicalize.rs; Verify is verify.rs,
--     whose `verify_raw_document` is `verify_transition`; Signed states which transitions are verified.
--   * Verify (crates/trustgrant-verify/src): Grant (verified_grant.rs) is the verified grant that the
--     engine reads, Canonicalize the canonical bytes of a raw document (canonicalize.rs), Policy and
--     Consistency the checks of policy.rs and consistency.rs with Agreement and Freshness about them,
--     Pipeline the verification (pipeline.rs) with Accepted about it, and Bundle a bundle of proofs
--     (bundle.rs), whose look-ups are the sources of a verification. Raw goes from a verified grant
--     back to a raw document, with its types in order (Keys), and Record is what is persisted of it (record.rs): Model has the
--     records, Write the way there, Read and Rehydrate the way back, Consistent what comes back.
--   * Issue (crates/trustgrant-issue/src/draft.rs): Draft is a draft and the documents that it becomes.
--   * Evaluate (crates/trustgrant-evaluate/src): Context and Request (request.rs), Decision
--     (decision.rs), Engine and Engine/Inner (engine.rs, from `selector_matches_context` up to
--     `evaluate`), Mutation and Execution (execution.rs). A check that ends in a deny reason is an
--     `Evaluation`: `ok tt` for allowed, `err reason` for denied. Authorization states what a grant
--     must say for a request to be allowed.
-- Tests holds data, runs of the code and the theorems at concrete inputs.
--
-- An issuer signs the canonical bytes of a draft (Issue). A verifier validates the raw document
-- (Document), has its transitions verified and checks the chain that they make (Ownership), checks the
-- revocation and the signature over the canonical bytes (Verify/Pipeline), with what its sources supply
-- (Ports, Verify/Bundle). The verified grant is asked about requests (Evaluate/Engine), and the executor
-- (Evaluate/Execution/Run) asks it with its own counters before it commits a caller's mutation.
--
-- How the code is modelled:
--   * A `str` is the list of its code points (Prelude/Text), and `len` counts bytes of UTF-8. Where the
--     code compares or sorts strings by their bytes the model does so by code points, which is the
--     same order.
--   * A `u64` is a natural number; sums are checked or saturated against `u64_max` where the code
--     does so. A `Uuid` is its number. A `DateTime<Utc>` is a number of nanoseconds: the code only
--     compares instants and adds seconds to them.
--   * A map is an association list with one entry for a key (Prelude/Assoc). The code goes through a
--     map only to test every entry for one error, to count, and to write the raw resource types, which
--     stand in the order of their keys; where the code sorts by UTF-16, so does the model
--     (`collect_keys`).
--   * Code outside the repository is a parameter: `to_lowercase` (`str::to_lowercase`) and `parse_str`
--     (`Uuid::parse_str`) of the validation, `uuid_text` (the `Display` of `Uuid`), `from_str` (serde's
--     reading of JSON), `add_seconds` (chrono's `checked_add_signed` of `Duration::seconds`, which
--     panics beyond `i64::MAX / 1000` seconds; policies as long as that are outside of the model),
--     `Formats` (the texts that serde_json, itoa and chrono write for strings, numbers and dates), the
--     verifier of signatures and the sources, and the caller's `apply` of the executor. `IsFaithful`
--     is what the theorems on canonical bytes ask of `Formats`: different values have different
--     texts, and where a text ends can be seen. In the code `apply` can only read the transaction,
--     whose fields are private, or put another in its place; theorems that need it to leave counters
--     or versions alone say so.
--   * A writer appends to a buffer that it does not read, so it is modelled by the bytes it appends.
--   * The executor is a function from a state to a `Run`: a result with the state afterwards, or a
--     panic, of its `unwrap` or of the caller's `apply`, which changes nothing, since `apply` gets a
--     copy of the state. One call holds the executor by `&mut`, so calls do not
--     interleave; `Reaches` are the sequences of calls.
--   * Every loop is structural recursion. Only `decimal`, which writes a length in decimal digits,
--     recurs on fuel: a number has fewer digits than itself plus one, which is the fuel it gets.
--
-- Where the code does not do what the documents say, the theorems state what the code does; runs that
-- show it stand in Tests/Divergences.
--
-- Not modelled: how serde reads and writes JSON; the ports for fetching and storage, which no code of
-- the repository calls; the `Display` of errors, logging, the convenience constructors of raw
-- documents, the facade crate, the harnesses of Kani, benchmarks and fuzzing.
mod Prelude
pub mod Errors
pub mod Domain
pub mod Revocation
pub mod Discovery
pub mod Document
pub mod Canonical
pub mod Ports
pub mod Verify
pub mod Ownership
pub mod Issue
pub mod Evaluate
mod Tests
