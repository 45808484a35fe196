-- ===== src/ExecutionStore/RoundTrip.antt =====
-- A record that the store writes is the record that it reads.
use nest_authz.Prelude.{◌≡◌, refl, ok, arith, string_eq, nat_eq}
use nest_authz.Domain.Value.{Sha256Digest}
use nest_authz.Domain.Hex.{
  hex_value, digest_str, execution_id_str, IsDigest, from_hex-hex_value, strip_prefix-append,
}
use nest_authz.Domain.Execution.{ExecutionRecord, execution_record_post_init}
use nest_authz.ExecutionStore.Sqlite.{Row}
use nest_authz.ExecutionStore.{status_value, digest_after_prefix, digest_from_text, record_from_row}
use nest_authz.ExecutionStore.Terminal.{status_from_value-status_value}

-- The row that shows a record.
abbrev pub row_for : ExecutionRecord → Row
row_for r = record {
  execution_id = execution_id_str r.execution_id;
  execution_permit_digest = digest_str r.execution_permit_digest;
  status = status_value r.status;
  result_reference = r.result_reference;
  failure_reference = r.failure_reference;
}

digest_from_text-digest_str :
    (d : Sha256Digest) → IsDigest d → digest_from_text (digest_str d) ≡ ok d
unfolding digest_from_text digest_str
digest_from_text-digest_str d v =
    rw (strip_prefix-append "sha256:" (hex_value d), digest_after_prefix, from_hex-hex_value d v)
      refl

-- A record that its constructor accepts, with a digest of 32 bytes, is what the store reads from the
-- row that shows it.
pub record_from_row-row_for :
    (r : ExecutionRecord)
    → IsDigest r.execution_permit_digest
    → execution_record_post_init r ≡ ok r
    → record_from_row (row_for r) r.execution_id ≡ ok r
unfolding record_from_row
record_from_row-row_for r v accepted = ground (
  arith,
  status_from_value-status_value r.status,
  digest_from_text-digest_str r.execution_permit_digest v,
  accepted,
)
