-- ===== src/Remote.antt =====
-- include/sub0tieredcache/remote/status.hpp, and the bounded retry of
-- Http1RangeTransport::fetch_range in include/sub0tieredcache/remote/http_client.hpp. An attempt
-- talks to a socket; `attempts` says how each of them ends.
pub mod Backend
pub mod Checksum
pub mod Store
pub mod Mirror
pub mod Http
mod Examples
use sub0tiered_cache.Base.{
  ℕ, zero, suc, ◌+◌, ◌≤◌, ◌<◌, ◌≡◌, ◌≢◌, refl, ap, subst, ◌∙◌, arith, ℕ_discrete, Bool, true, false,
  ◌||◌, if◌then◌else◌, ltb, ◌==◌, not,
}

pub data Status : Type 0 where
  ok invalid_argument out_of_range connect_failed send_failed timeout truncated server_error :
      Status
  unexpected_status bad_content_range unsupported_response source_changed size_mismatch : Status
  retries_exhausted not_found corrupt publish_failed io_error : Status

unfoldable pub is_transient : Status → Bool
is_transient Status.connect_failed = true
is_transient Status.send_failed = true
is_transient Status.timeout = true
is_transient Status.truncated = true
is_transient Status.server_error = true
is_transient _ = false

abbrev is_ok : Status → Bool
is_ok Status.ok = true
is_ok _ = false

-- What a fetch reports, but for the bytes and the validator that its last attempt observed.
pub record FetchOutcome : Type 0 where
  pub status : Status
  pub retries : ℕ

-- The loop, with the retries that are left and those that were made.
unfoldable pub fetch_from : (ℕ → Status) → ℕ → ℕ → FetchOutcome
fetch_from attempts zero retries =
    if is_ok (attempts retries) || not (is_transient (attempts retries))
    then record { status = attempts retries; retries = retries }
    else record {
      status = if ltb 0 retries then Status.retries_exhausted else attempts retries;
      retries = retries;
    }
fetch_from attempts (suc left) retries =
    let rest = fetch_from attempts left (retries + 1) in
    if is_ok (attempts retries) || not (is_transient (attempts retries))
    then record { status = attempts retries; retries = retries }
    else rest

-- `fetch_range` with the URL's validity and the sizes asked for, behind which the loop starts.
unfoldable pub fetch_range :
    (valid : Bool) (length destination_size max_retries : ℕ) → (ℕ → Status) → FetchOutcome
fetch_range valid length destination_size max_retries attempts =
    if not valid
    then record { status = Status.invalid_argument; retries = 0 }
    else if length == 0 || not (destination_size == length)
    then record { status = Status.invalid_argument; retries = 0 }
    else fetch_from attempts max_retries 0

-- Whether the loop ends at an attempt of which some are left to make.
abbrev settles : Status → Bool
settles s = is_ok s || not (is_transient s)

settles_of_transient : (s : Status) → is_transient s ≡ true → settles s ≡ false
unfolding is_transient
settles_of_transient s h = ground arith

settles_of_other : (s : Status) → is_transient s ≡ false → settles s ≡ true
settles_of_other s h = ground arith

fetch_from_here :
    (attempts : ℕ → Status) (left last : ℕ)
    → is_transient (attempts last) ≡ false
    → fetch_from attempts left last ≡ record { status = attempts last; retries = last }
unfolding fetch_from
fetch_from_here attempts zero last now = rw (settles_of_other (attempts last) now) refl
fetch_from_here attempts (suc left) last now = rw (settles_of_other (attempts last) now) refl

fetch_from_first :
    (attempts : ℕ → Status) (left retries last : ℕ)
    → retries ≤ last
    → last ≤ retries + left
    → ((j : ℕ) → j < last → is_transient (attempts j) ≡ true)
    → is_transient (attempts last) ≡ false
    → fetch_from attempts left retries ≡ record { status = attempts last; retries = last }
unfolding fetch_from
fetch_from_first attempts zero retries last low high before now =
    subst (λ (x : ℕ). fetch_from attempts 0 x ≡ record { status = attempts last; retries = last })
      (omega (arith, low, high)) (fetch_from_here attempts 0 last now)
fetch_from_first attempts (suc left) retries last low high before now =
    elim (ℕ_discrete last retries) [
      | yes same ↦
          subst
            (λ (x : ℕ).
              fetch_from attempts (suc left) x ≡ record { status = attempts last; retries = last })
            same (fetch_from_here attempts (suc left) last now)
      | no apart ↦
          rw (settles_of_transient (attempts retries) (before retries (omega (arith, low, apart))))
            (fetch_from_first attempts left (retries + 1) last (omega (arith, low, apart))
              (omega (arith, high)) before now)
    ]

fetch_from_exhausted :
    (attempts : ℕ → Status) (left retries : ℕ)
    → ((j : ℕ) → j ≤ retries + left → is_transient (attempts j) ≡ true)
    → 0 < retries + left
    → fetch_from attempts left retries
      ≡ record { status = Status.retries_exhausted; retries = retries + left }
unfolding fetch_from
fetch_from_exhausted attempts zero retries all some_retry =
    rw (settles_of_transient (attempts retries) (all retries (omega arith)))
      (ground (arith, some_retry))
fetch_from_exhausted attempts (suc left) retries all some_retry =
    rw (settles_of_transient (attempts retries) (all retries (omega arith))) (
      fetch_from_exhausted attempts left (retries + 1) (λ j h. all j (omega (arith, h)))
        (omega arith)
      ∙ ap (λ (x : ℕ). record { status = Status.retries_exhausted; retries = x }) (omega arith))

module _ (attempts : ℕ → Status) (length max_retries : ℕ) (some_bytes : length ≢ 0) where
  -- The first attempt that does not fail transiently decides the outcome of a well-formed request,
  -- a success as well as an error that no retry can mend, if the retries allowed reach it.
  pub fetch_range_first :
      (last : ℕ)
      → last ≤ max_retries
      → ((j : ℕ) → j < last → is_transient (attempts j) ≡ true)
      → is_transient (attempts last) ≡ false
      → fetch_range true length length max_retries attempts
        ≡ record { status = attempts last; retries = last }
  unfolding fetch_range
  fetch_range_first last high before now =
      let r =
        fetch_from_first attempts max_retries 0 last (omega arith) (omega (arith, high)) before
          now in
      ground (arith, r)

  -- Where every attempt allowed fails transiently, and a retry is allowed, a well-formed request
  -- fails as exhausted, with all of its retries made.
  pub fetch_range_exhausted :
      0 < max_retries
      → ((j : ℕ) → j ≤ max_retries → is_transient (attempts j) ≡ true)
      → fetch_range true length length max_retries attempts
        ≡ record { status = Status.retries_exhausted; retries = max_retries }
  unfolding fetch_range
  fetch_range_exhausted some_retry all =
      let r =
        fetch_from_exhausted attempts max_retries 0 (λ j h. all j (omega (arith, h)))
          (omega (arith, some_retry)) in
      ground (arith, r)
