-- ===== src/Lib.antt =====
-- Verification library for NEST AuthZ, an authorization kernel for autonomous agents: a request is
-- allowed only behind a validated chain of delegated authority, a policy bundle, and, where the
-- policy asks for it, recorded approvals that are revalidated before execution.
--
-- The parts of the program and the modules that model them (paths from the repository's root):
--   Prelude       Python's ==, in, any, all, sorted and exceptions, and exact integers; the lemmas on
--                 lists that the parts share.
--   Domain        src/nest_authz/domain.py: enumerations as data types, dataclasses as records with
--                 the source's field names. A class that checks its arguments has a function for
--                 that: `X.__post_init__` is x_post_init, `X._from_…` is x_from_…, and both return
--                 the record with its fields in canonical order, or the error that is raised.
--   Digests       the interface to canonical.py: `sha256_digest` at each type that is hashed, a record
--                 of functions that every operation takes.
--   Delegation    delegation.py: validate_authority and its helpers, one definition for each helper
--                 and loop. Spec says what a valid chain is.
--   Applicability applicability.py: check_authority_applicability.
--   Binding       binding.py: check_subject_authority_binding.
--   Evaluator     evaluator.py: conditions, rules, and in Decide the function evaluate; Rules
--                 and Combining say what it evaluates and how it decides.
--   Approver      approver.py: check_approver_authorization.
--   Receipt       receipt.py: create_decision_receipt.
--   Approval      approval.py: the transitions of a PendingApproval; Reach has a step for each call
--                 that returns and runs of such steps.
--   Execution     execution.py: revalidate_for_execution.
--   Canonical     canonical.py: Bytes has UTF-8 and big-endian integers, Encode the encoders that every
--                 schema is made of, Schema the branches of `_encode_domain`, one encoder for each
--                 type, Digest canonical_bytes and sha256_digest. Frames, Join, Maps, Records,
--                 Primitives and Containers show how bytes are read back, ReadBack has this for each
--                 type, and Binding what it gives for digests.
--   Attestation   attestation.py: signing messages, sign_artifact, verify_artifact, verify_policy_bundle;
--                 the Ed25519 operations are a parameter.
--   ExecutionStore execution_enforcement.py and sqlite_execution_store.py: reserve, get, mark_succeeded
--                 and mark_failed. Sqlite is the interface to the database, Schema has the constraints
--                 of the table, and SingleUse sequences of calls.
--   Examples, Tests   a concrete world, runs of the operations in it, and the theorems at it.
-- validate_authority makes the VerifiedAuthority that evaluate checks a request against; evaluate
-- calls the checks of applicability and binding before the rules; its decision becomes a receipt, the
-- receipt a PendingApproval, and revalidate_for_execution runs validation and evaluation again
-- before it issues the ExecutionPermit that consumes the approval.
--
-- How code is modelled. An exception is a value of Result, with the class and the message of the
-- source. Tests by `type(x) is T` are the types of the arguments, and so are the private tokens of the
-- `_from_…` constructors. A Scalar's constructor is Python's type of the value, so that True and 1
-- differ where the source compares types. A str is a String without lone surrogates, and its order
-- is that of its code points, which is the order of its UTF-8 bytes. Integers are unbounded, as in
-- Python. The while loop of `_reference_cycle` runs on fuel, one more than the number of grants: each
-- round adds an identifier of the chain to a path without repetition, so the fuel is enough.
--
-- The database is a parameter: a World with the rows of the table, and statements that may raise a
-- DatabaseError, with SQLite's documented effect on the rows as the hypothesis IsLawful. A transaction
-- that raises is rolled back: it leaves the rows as they were at its start, in a world where the same
-- statement may succeed, so that sequences of calls include retries. The constraints of the table are
-- in ExecutionStore.Schema. SHA-256 is a parameter of
-- Canonical.Digest, and so is the result of Digests, the interface that the other parts take; the
-- theorems of Canonical.Binding say what they mean of digests. The bit length of an integer runs on
-- fuel, the integer itself, which halves in each round.
--
-- Not modelled: authenticated_delegation.py and trusted.py with the schemas of their
-- types in canonical.py; the constructor of the SQLite store, which creates the table; the NANDA Town
-- integration, scripts and benchmarks, which are glue.
pub mod Prelude
pub mod Domain
pub mod Digests
pub mod Delegation
pub mod Applicability
pub mod Binding
pub mod Evaluator
pub mod Approver
pub mod Receipt
pub mod Approval
pub mod Execution
pub mod Canonical
pub mod Attestation
pub mod ExecutionStore
pub mod Examples
pub mod Tests
