-- ===== src/Lib.antt =====
-- Sub0TieredCache: a bounded cache of rows in host memory, filled from slower tiers.
--
-- A Table (include/sub0tieredcache/row_cache.hpp) owns a fixed number of slots. A row is found by
-- an open-addressing index over (row, generation); a miss takes a victim slot from a CLOCK sweep,
-- asks the resolver where the row's bytes are and the transport to read them into the slot. The
-- fill is finished by a caller or by the completion worker, which publishes the row as Ready or
-- Failed. Callers hold leases, which pin slots, and prefetch tickets, which do not. `invalidate`
-- swaps the sources under a new generation, while fills of the old one drain.
--
-- Which file models which part (paths from the repository's root):
--  * Base, Base/: tests on numbers, lists, fixed-size vectors with their sums.
--  * Status: include/sub0tieredcache/status.hpp, and from_mempage of row_cache.hpp.
--  * RowCache/Config: TableConfig and its parts, and the transport, a parameter.
--  * RowCache/State: Table, Slot, Binding, RowLease, PrefetchTicket and the other structs.
--  * RowCache/Index: index_home and the loops of index_find, index_insert and index_erase;
--    RowCache/Index/ has their proofs, RowCache/Indexed what ties the index to the slots.
--  * RowCache/Lookup: index_find, index_insert, index_erase, unindex_locked, make_free.
--  * RowCache/Victim: claim_victim. RowCache/Fill: start_fill_locked, acquire_scratch.
--  * RowCache/Finish: finish_fill, release_scratch, find_unclaimed_filling_locked, worker_loop.
--  * RowCache/Lease: unpin_locked, release_lease, RowLease::reset, try_get, published_span.
--  * RowCache/Resolve: resolve_into. RowCache/Prefetch: prefetch, discard_ticket, wait.
--  * RowCache/Admin: create, make_binding, the constructor, invalidate, stats, drain.
--  * RowCache/Valid: the invariant of a Table. RowCache/Steps: the critical sections as steps of a
--    Table together with the leases that are out, in any order.
--  * RowCache/Registry: the class RowCache, tables by handle.
--  * FlatFile: include/sub0tieredcache/local_file_source.hpp.
--  * Sized: include/sub0tieredcache/size_classed_table.hpp; Sized/Calls has create and the calls.
--  * Codec: include/sub0tieredcache/codec.hpp.
--  * Remote: include/sub0tieredcache/remote/status.hpp, and the bounded retry of
--    Http1RangeTransport::fetch_range in include/sub0tieredcache/remote/http_client.hpp.
--  * Remote/Http: the parsers of that file; Remote/Http/Fetch: Http1RangeTransport::fetch_once.
--  * Remote/Checksum: include/sub0tieredcache/remote/checksum.hpp.
--  * Remote/Store: the chunk files of include/sub0tieredcache/remote/chunk_store.hpp and read_chunk;
--    Remote/Store/Publication: ChunkStore, its constructor and publish_chunk.
--  * Remote/Mirror: include/sub0tieredcache/remote/mirror.hpp.
--  * Remote/Backend: include/sub0tieredcache/remote/mirror_backend.hpp; Remote/Backend/Queue has the
--    bounded queue that its ring implements, Remote/Backend/Delivery its threads as steps.
--  * RowCache/Examples, Remote/Examples, Remote/Http/Examples, Remote/Mirror/Examples,
--    Sized/Examples, Examples: tests, and the theorems applied to small data.
--
-- A slot vector is a function of the index, so a slot past the budget is there but Free. Pointers to
-- bindings are numbers that are never reused. A claim is the number of the call that made it; the
-- number of calls is kept with the table, so that a transport may answer each call differently.
-- Offsets and lengths keep the wrap-around of uint64_t, epochs and ticket generations that of
-- uint32_t; counters, pins and totals are taken not to wrap.
--
-- Bounds: the probe loops run for as many rounds as the index has positions, which is enough because
-- an index with a budget of n rows has more than n positions, of which at most n are used. The
-- CLOCK sweep has the source's own bound, two rounds counted in uint32_t, so that from a budget of
-- 2 ^ 31 rows on it wraps, as it does in the source. The loop over chunks has the length of the
-- window as its fuel, and a chunk has at least one byte where it is entered.
--
-- The files of the chunk store are a function from names to bytes, and the answers of the file system
-- to a publication are an argument: how much each write wrote, whether the sync and the rename
-- succeed, and what is in the file where they do not. The transport of a mirror is a function of the request and of the
-- number of the call; other threads and processes are a parameter that may change the store at each
-- point where the mirror's locks are not held, and that says how a fetch in flight ends that a caller
-- joins. An attempt of the HTTP transport reads
-- the answers of a socket, a list. A read of a mirror is an argument of the backend. The sums of Mirror::read stay below the
-- total size of the source, and so are not wrapped; the casts to uint32_t are.
--
-- resolve_into, resolve_one and wait are modelled for the case that no other call comes between their
-- critical sections; the steps of RowCache/Steps take the sections one by one, in any order.
--
-- Not modelled: the bytes in the output storage, condition variables and the scheduling of threads,
-- the destructor of a Table, the shares that SizeClassedTable::create computes with doubles, its
-- resolve_into and drain, include/sub0tieredcache/remote/cache_dir.hpp, the sockets and the text of the request of
-- include/sub0tieredcache/remote/http_client.hpp, and the locks, the fsync and the memory of the chunk
-- store, whose answers alone count.
pub mod Base
pub mod Status
pub mod FlatFile
pub mod Sized
pub mod Remote
pub mod Codec
pub mod RowCache
pub mod Examples
