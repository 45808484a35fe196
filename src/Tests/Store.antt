-- ===== src/Tests/Store.antt =====
-- The theorems on the execution store, on a database in memory.
use mathlib.Core.Logic.{◌≢◌}
use native.Mathlib.Decide.{ℕ_discrete}
use nest_authz.Prelude.{
  ℕ, err, nat_eq, string_discrete, arith, some, ◌≡◌, refl, ◌≤◌, ok, List, false, [], ◌∷◌, string_eq,
}
use nest_authz.Domain.Status.{ExecutionStatus, execution_status_eq}
use nest_authz.Domain.Value.{is_blank, sha256_digest_eq}
use nest_authz.Domain.Hex.{
  execution_id_str, digest_str, hex, strip_prefix, bytes_from_hex, sha256_digest_post_init,
  hex_value, from_hex, from_hex-hex_value,
}
use nest_authz.Domain.Execution.{
  ExecutionId, execution_id_eq, execution_record_post_init, execution_reservation_result_post_init,
}
use nest_authz.ExecutionStore.Sqlite.{change_row}
use nest_authz.ExecutionStore.{
  transaction_failed, write_transaction, reserve_body, digest_from_text, status_from_value,
  reservation_status, mark_terminal_body, terminal_change, terminal_references, reference,
  execution_id_for, get, reserve, mark_terminal, record_from_row,
}
use nest_authz.ExecutionStore.Preserves.{Preserves}
use nest_authz.ExecutionStore.Reserve.{new_result, Effect, reserve-Effect}
use nest_authz.ExecutionStore.Terminal.{TerminalEffect, mark_terminal_effect}
use nest_authz.ExecutionStore.SingleUse.{
  Call, reserving, marking, after_all, grant_count, grant_count_at_most_one, calls-Preserves,
}
use nest_authz.ExecutionStore.RoundTrip.{row_for, record_from_row-row_for}
use nest_authz.ExecutionStore.Available.{reserved_record, reserved_accepted, terminal_record}
use nest_authz.ExecutionStore.Liveness.{reserve_then_complete}
use nest_authz.Examples.{permit}
use nest_authz.Examples.Outages.{with_outages, with_outages-IsLawful}
use nest_authz.Examples.Memory.{
  Table, memory, memory-IsLawful, memory-IsAvailable, no_rows, store_digests,
  permit_digest-IsDigest,
}

abbrev execution : ExecutionId
execution = execution_id_for store_digests permit

abbrev calls : List Call
calls =
    reserving permit
    ∷ reserving permit
    ∷ marking execution permit ExecutionStatus.failed "timeout"
    ∷ reserving permit
    ∷ []

-- In this world the first transaction fails, and leaves one in which the next begins.
abbrev outage : Table × ℕ
outage = (no_rows, 1)

first_call_raises :
    reserve (with_outages memory) store_digests outage permit
    ≡ (err transaction_failed, (no_rows, 0))
unfolding reserve write_transaction nat_eq ℕ_discrete
first_call_raises = refl

-- The execution is granted once: to the second call, which tries the first again.
retry_is_granted :
    grant_count (with_outages memory) store_digests (execution_id_str execution) outage calls ≡ 1
unfolding reserve write_transaction reserve_body execution_id_for execution_id_str digest_str
    hex_value hex string_eq string_discrete nat_eq ℕ_discrete strip_prefix record_from_row
    digest_from_text from_hex bytes_from_hex status_from_value execution_record_post_init
    sha256_digest_post_init reservation_status execution_reservation_result_post_init mark_terminal
    mark_terminal_body terminal_change terminal_references sha256_digest_eq execution_status_eq
    reference is_blank execution_id_eq change_row
retry_is_granted = refl

grant_count_at_most_one_example :
    grant_count (with_outages memory) store_digests (execution_id_str execution) outage calls ≤ 1
grant_count_at_most_one_example =
    grant_count_at_most_one (with_outages memory) (with_outages-IsLawful memory memory-IsLawful)
      store_digests (execution_id_str execution) outage calls

calls-Preserves_example : Preserves memory no_rows (after_all memory store_digests no_rows calls)
calls-Preserves_example = calls-Preserves memory memory-IsLawful store_digests no_rows calls

reserve-Effect_example :
    let (m, w) = reserve memory store_digests no_rows permit in
    Effect memory store_digests permit no_rows m w
reserve-Effect_example = reserve-Effect memory memory-IsLawful store_digests permit no_rows

mark_terminal_effect_example :
    let (m, w) =
      mark_terminal memory store_digests no_rows execution permit ExecutionStatus.succeeded
        "receipt-7" in
    TerminalEffect memory store_digests execution permit ExecutionStatus.succeeded "receipt-7"
      no_rows m w
mark_terminal_effect_example =
    mark_terminal_effect memory memory-IsLawful store_digests execution permit
      ExecutionStatus.succeeded "receipt-7" no_rows

succeeded_is_terminal : ExecutionStatus.succeeded ≢ ExecutionStatus.reserved
succeeded_is_terminal e = cc

receipt_is_named : is_blank "receipt-7" ≡ false
unfolding is_blank
receipt_is_named = refl

receipt_has_text : memory.length "receipt-7" ≢ 0
unfolding nat_eq ℕ_discrete
receipt_has_text e = omega arith

reserve_then_complete_example :
    let (m, w) = reserve memory store_digests no_rows permit in
    let (m', w') =
      mark_terminal memory store_digests w execution permit ExecutionStatus.succeeded "receipt-7" in
    (m ≡ ok (new_result (reserved_record store_digests permit)))
    × (m' ≡ ok (terminal_record store_digests permit ExecutionStatus.succeeded "receipt-7"))
    × (get memory store_digests w' execution
        ≡ ok (some (terminal_record store_digests permit ExecutionStatus.succeeded "receipt-7")))
reserve_then_complete_example =
    reserve_then_complete memory memory-IsLawful memory-IsAvailable store_digests permit no_rows
      ExecutionStatus.succeeded "receipt-7" permit_digest-IsDigest refl (λ key r e. cc)
      succeeded_is_terminal receipt_is_named receipt_has_text

from_hex-hex_value_example :
    from_hex (hex_value (store_digests.permit_digest permit))
    ≡ ok (store_digests.permit_digest permit)
from_hex-hex_value_example =
    from_hex-hex_value (store_digests.permit_digest permit) permit_digest-IsDigest

record_from_row-row_for_example :
    record_from_row (row_for (reserved_record store_digests permit)) execution
    ≡ ok (reserved_record store_digests permit)
record_from_row-row_for_example =
    record_from_row-row_for (reserved_record store_digests permit) permit_digest-IsDigest
      (reserved_accepted store_digests permit)
