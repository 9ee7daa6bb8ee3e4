-- ===== src/Remote/Examples.antt =====
-- The theorems on include/sub0tieredcache/remote/mirror_backend.hpp at work on small data.
use sub0tiered_cache.Base.{ℕ, ◌*◌, ◌<◌, ◌≡◌, refl, true, List, [], ◌∷◌}
use sub0tiered_cache.Remote.Backend.{
  MirrorBackendConfig, FillRequest, MirrorBackend, create, idle_backend, submit, take_item,
}
use sub0tiered_cache.Remote.Backend.Queue.{Op, submits, takes, shuts_down, run, run_queue, queue_of}
use sub0tiered_cache.Remote.Backend.Queue.Refines.{run_refines}
use sub0tiered_cache.Remote.Backend.Delivery
use sub0tiered_cache.Remote.Backend.Delivery.{World, Step, Reach}
use sub0tiered_cache.Remote.Backend.Delivery.Ops.{after_take}
use sub0tiered_cache.Remote.Backend.Delivery.Exact.{
  IsExact, among, among_deliveries, started, Reach-IsExact, create-IsExact,
}
use sub0tiered_cache.Remote.Backend.Delivery.Ends.{
  outstanding, is_work, Step-outstanding, delivered_in_the_end,
}

abbrev two_at_a_time : MirrorBackendConfig
two_at_a_time = record { workers = 1; queue_capacity = 2; max_sources = 4 }

abbrev fresh : MirrorBackend
fresh = idle_backend two_at_a_time

abbrev asks : ℕ → FillRequest
asks token = record { token = token; source = 7; source_offset = 64 * token; size = 64 }

abbrev calls : List Op
calls =
    submits (asks 1)
    ∷ submits (asks 2)
    ∷ submits (asks 3)
    ∷ takes
    ∷ submits (asks 4)
    ∷ shuts_down
    ∷ takes
    ∷ []

fresh-IsExact : IsExact (started fresh)
unfolding create
fresh-IsExact = create-IsExact two_at_a_time fresh refl

run_refines_example : run fresh calls ≡ run_queue 2 [] (queue_of fresh) calls
run_refines_example = run_refines calls fresh fresh-IsExact.ring

abbrev one_waits : World
one_waits = record {
  backend = (submit fresh (asks 1)).0;
  working = [];
  cancelling = [];
  delivered = [];
  accepted = 1 ∷ [];
}

one_submitted : Reach (started fresh) one_waits
unfolding submit
one_submitted =
    Delivery.Reach.further (started fresh) one_waits Delivery.Reach.here
      (Delivery.Step.submits (started fresh) (asks 1))

Reach-IsExact_example : IsExact one_waits
Reach-IsExact_example = Reach-IsExact (started fresh) one_waits one_submitted fresh-IsExact

delivered_in_the_end_example :
    (u : World) × Reach one_waits u
    × (u.accepted ≡ 1 ∷ [])
    × ((token : ℕ) → among_deliveries token u.delivered ≡ among token (1 ∷ []))
delivered_in_the_end_example =
    delivered_in_the_end one_waits
      (Reach-IsExact (started fresh) one_waits one_submitted fresh-IsExact)

-- The worker takes the one request.
abbrev one_works : World
one_works = record {
  backend = after_take one_waits.backend;
  working = one_waits.backend.ring 0 ∷ [];
  cancelling = [];
  delivered = [];
  accepted = 1 ∷ [];
}

one_taken : Step one_waits one_works
unfolding submit take_item
one_taken = Delivery.Step.takes one_waits (one_waits.backend.ring 0) one_works.backend refl

one_taken_work : is_work one_taken ≡ true
unfolding one_taken
one_taken_work = refl

Step-outstanding_example : outstanding one_works < outstanding one_waits
Step-outstanding_example =
    Step-outstanding one_waits one_works one_taken
      (Reach-IsExact (started fresh) one_waits one_submitted fresh-IsExact) one_taken_work
