-- ===== src/Domain.antt =====
-- domain.py: the immutable records and enumerations. A Python `str` is a native `String`: text
-- with a lone surrogate, which `_valid_string` refuses, is not represented. `X_post_init` is the
-- `__post_init__` of the class X, or the body of its private factory: it takes the record of the
-- given fields and returns the canonical one, or raises. The checks `type(x) is T` are the
-- model's types.
pub mod Hex
pub mod Status
pub mod Value
pub mod Identity
pub mod Authority
pub mod Policy
pub mod Request
pub mod Evidence
pub mod Decision
pub mod Receipt
pub mod Approval
pub mod Execution
pub mod Attestation
