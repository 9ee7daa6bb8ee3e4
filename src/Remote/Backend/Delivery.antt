-- ===== src/Remote/Backend/Delivery.antt =====
-- The critical sections of include/sub0tieredcache/remote/mirror_backend.hpp in any order: a
-- backend with the items that its workers hold, those that a shutdown is cancelling, and the
-- deliveries made so far.
pub mod Ops
pub mod Exact
pub mod Ends
use sub0tiered_cache.Base.{ℕ, ◌≡◌, Bool, true, false, Option, none, some, List, [], ◌∷◌, ◌++◌}
use sub0tiered_cache.Remote.Backend.{
  FillRequest, WorkItem, MirrorBackend, Completion, ReadOutcome, register_mirror, submit, take_item,
  perform, shutdown, cancel,
}

pub record World : Type 0 where
  pub backend : MirrorBackend
  pub working : List WorkItem
  pub cancelling : List WorkItem
  pub delivered : List Completion
  -- The tokens of the requests that `submit` accepted.
  pub accepted : List ℕ

abbrev pub accept : Bool → ℕ → List ℕ → List ℕ
accept true token ts = token ∷ ts
accept false token ts = ts

-- The world with another backend.
abbrev pub with_backend : World → MirrorBackend → World
with_backend w b = record w { backend = b }

pub data Step : World → World → Type 0 where
  registers :
      (w : World) (source mirror : ℕ)
      → Step w (with_backend w (register_mirror w.backend source mirror).0)
  submits :
      (w : World) (r : FillRequest)
      → Step w (record w {
        backend = (submit w.backend r).0;
        accepted = accept (submit w.backend r).1 r.token w.accepted;
      })
  takes :
      (w : World) (item : WorkItem) (b : MirrorBackend)
      → take_item w.backend ≡ some (item, b)
      → Step w (record w { backend = b; working = item ∷ w.working })
  -- A worker's read ends in any way, and the worker delivers.
  performs :
      (w : World) (before : List WorkItem) (item : WorkItem) (after : List WorkItem)
      (outcome : ReadOutcome)
      → Step
          (record w { working = before ++ item ∷ after })
          (record w {
            backend = (perform w.backend item outcome).0;
            working = before ++ after;
            delivered = (perform w.backend item outcome).1 ∷ w.delivered;
          })
  shuts_down :
      (w : World)
      → Step w (record w {
        backend = (shutdown w.backend).0;
        cancelling = w.cancelling ++ (shutdown w.backend).1;
      })
  cancels :
      (w : World) (item : WorkItem) (rest : List WorkItem)
      → Step
          (record w { cancelling = item ∷ rest })
          (record w {
            backend = (cancel w.backend item).0;
            cancelling = rest;
            delivered = (cancel w.backend item).1 ∷ w.delivered;
          })

pub data Reach (w : World) : World → Type 0 where
  here : Reach w w
  further : (u x : World) → Reach w u → Step u x → Reach w x
