-- ===== src/Status.antt =====
-- The status vocabularies: include/sub0tieredcache/status.hpp, and sub0mempage's, which
-- row_cache.hpp translates case by case.
use sub0tiered_cache.Base.{◌≢◌, arith}

pub data Status : Type 0 where
  ok pending not_resident pool_exhausted batch_too_large ticket_exhausted out_of_range : Status
  empty_range invalid_argument busy short_read io_error cancelled timeout codec_failed : Status
  unsupported_conversion declined : Status

pub Status-discrete : Discrete Status
Status-discrete = hlevel

-- sub0mempage::Status, with the cases that the switch of `from_mempage` names.
pub data MempageStatus : Type 0 where
  ok pending not_resident pool_exhausted batch_too_large queue_exhausted : MempageStatus
  ticket_exhausted out_of_range empty_range invalid_argument busy short_read : MempageStatus
  io_error cancelled timeout declined : MempageStatus

unfoldable pub from_mempage : MempageStatus → Status
from_mempage MempageStatus.ok = Status.ok
from_mempage MempageStatus.pending = Status.pending
from_mempage MempageStatus.not_resident = Status.not_resident
from_mempage MempageStatus.pool_exhausted = Status.pool_exhausted
from_mempage MempageStatus.batch_too_large = Status.batch_too_large
from_mempage MempageStatus.queue_exhausted = Status.pool_exhausted
from_mempage MempageStatus.ticket_exhausted = Status.ticket_exhausted
from_mempage MempageStatus.out_of_range = Status.out_of_range
from_mempage MempageStatus.empty_range = Status.empty_range
from_mempage MempageStatus.invalid_argument = Status.invalid_argument
from_mempage MempageStatus.busy = Status.busy
from_mempage MempageStatus.short_read = Status.short_read
from_mempage MempageStatus.io_error = Status.io_error
from_mempage MempageStatus.cancelled = Status.cancelled
from_mempage MempageStatus.timeout = Status.timeout
from_mempage MempageStatus.declined = Status.declined

-- No failure of the transport is translated into success.
pub from_mempage-ne-ok : (m : MempageStatus) → m ≢ MempageStatus.ok → from_mempage m ≢ Status.ok
unfolding from_mempage
from_mempage-ne-ok m h = ground arith
