-- ===== src/Remote/Mirror/Ensured.antt =====
-- What `ensure_chunk_local` leaves in the chunk buffer.
use sub0tiered_cache.Base.{
  ℕ, ◌+◌, ◌*◌, ◌^◌, ◌<◌, ◌≡◌, refl, ap, subst, ◌∙◌, arith, Bool, true, false, List, length, ◌==◌,
  ==_iff, if◌then◌else◌, Bool-cases, Option-cases, inl, inr,
}
use sub0tiered_cache.Remote.{Status}
use sub0tiered_cache.Remote.Store.{SourceIdentity, canonical_validator}
use sub0tiered_cache.Remote.Store.Publication.{ChunkStore, publish_chunk, read_chunk}
use sub0tiered_cache.Remote.Store.Atomic.{publish_chunk_atomic}
use sub0tiered_cache.Remote.Mirror.{
  RangeFetchRequest, Transport, Others, MirrorStats, Mirror, byte_at, is_ok, is_corrupt, with_stats,
  meanwhile, request_of, record_fetch, record_coalesced, record_corrupt, record_miss,
  publish_fetched, fetch_and_publish, fetch_unless_local, fetch_or_join, read_back,
  ensure_chunk_local,
}
use sub0tiered_cache.Remote.Mirror.Faithful.{
  length-read_chunk, tile, IsFaithful, KeepsChunks-IsFaithful, AddsChunk-IsFaithful,
}

pub is_ok-true : (s : Status) → is_ok s ≡ true → s ≡ Status.ok
is_ok-true s = elim s as (λ k. is_ok k ≡ true → k ≡ Status.ok) [
  | Status.ok ↦ λ h. refl
  | _ ↦ λ h. absurd (cc h)
]

-- The environment: the transport delivers the source's bytes where it reports ok for a source
-- with the validator, others keep the store faithful, and all sizes are those of their types.
pub record IsHonest (transport : Transport) (others : Others) (source : SourceIdentity)
    (content : ℕ → ℕ) (chunk_size : ℕ) : Type 0 where
  pub total : source.validator.total_size < 2 ^ 64
  pub chunk : chunk_size < 2 ^ 32
  pub validator_fits : length (canonical_validator source.validator) < 2 ^ 32
  pub fetched :
      (calls : ℕ) (r : RangeFetchRequest)
      → r.expected ≡ source.validator
      → (transport calls r).status ≡ Status.ok
      → (transport calls r).bytes ≡ r.length
      → (length (transport calls r).destination ≡ r.length)
        × ((k : ℕ)
            → k < r.length
            → byte_at (transport calls r).destination k ≡ content (r.offset + k))
  pub meddled :
      (time : ℕ) (s : ChunkStore)
      → IsFaithful source content chunk_size s
      → IsFaithful source content chunk_size (others.meddle time s)

module _ (transport : Transport) (others : Others) (source : SourceIdentity) (content : ℕ → ℕ)
    (chunk_size : ℕ) (honest : IsHonest transport others source content chunk_size) where
  -- A mirror of the source.
  pub record Mirrors (m : Mirror) : Type 0 where
    pub same : m.source ≡ source
    pub faithful : IsFaithful source content chunk_size m.store

  -- A chunk buffer that holds the chunk where the status is ok.
  pub record Holds (i : ℕ) (status : Status) (buffer : List ℕ) : Type 0 where
    pub size : length buffer ≡ chunk_size
    pub exact :
        status ≡ Status.ok
        → (k : ℕ) → k < tile source content chunk_size i
        → byte_at buffer k ≡ content (i * chunk_size + k)

  meanwhile-Mirrors : (m : Mirror) → Mirrors m → Mirrors (meanwhile transport others m)
  meanwhile-Mirrors m v = record {
    same = v.same;
    faithful = honest.meddled m.time m.store v.faithful;
  }

  with_stats-Mirrors : (m : Mirror) (s : MirrorStats) → Mirrors m → Mirrors (with_stats m s)
  with_stats-Mirrors m s v = record { same = v.same; faithful = v.faithful }

  read-Holds :
      (m : Mirror) (i : ℕ) (buffer : List ℕ)
      → Mirrors m
      → length buffer ≡ chunk_size
      → (let (local, held) = read_chunk m.store m.source i buffer in Holds i local.status held)
  read-Holds m i buffer v l = rw v.same (record {
    size = length-read_chunk m.store source i buffer ∙ l;
    exact = λ ok k inside. v.faithful.exact i k buffer l ok inside;
  })

  stored-IsFaithful :
      (s : ChunkStore) (i : ℕ) (payload : List ℕ) (time : ℕ)
      → i < 2 ^ 32
      → length payload ≡ tile source content chunk_size i
      → ((k : ℕ)
          → k < tile source content chunk_size i
          → byte_at payload k ≡ content (i * chunk_size + k))
      → IsFaithful source content chunk_size s
      → IsFaithful source content chunk_size
          (publish_chunk s source i payload (others.answers time)).0
  stored-IsFaithful s i payload time narrow l bytes v =
      elim (publish_chunk_atomic s source i payload (others.answers time)) [
        | inl h ↦
            AddsChunk-IsFaithful source content chunk_size s _ i payload
              (record {
                total = honest.total;
                index = narrow;
                payload_fits = omega (arith, l, honest.chunk);
                validator_fits = honest.validator_fits;
              })
              l bytes h.2 v
        | inr h ↦ KeepsChunks-IsFaithful source content chunk_size s _ h.1 v
      ]

  if-Mirrors :
      (b : Bool) (x y : Mirror × Status)
      → Mirrors x.0
      → Mirrors y.0
      → Mirrors (if b then x else y).0
  if-Mirrors true x y p q = p
  if-Mirrors false x y p q = q

  publish_fetched-Mirrors :
      (m : Mirror) (i : ℕ) (payload : List ℕ)
      → i < 2 ^ 32
      → length payload ≡ tile source content chunk_size i
      → ((k : ℕ)
          → k < tile source content chunk_size i
          → byte_at payload k ≡ content (i * chunk_size + k))
      → Mirrors m
      → Mirrors (publish_fetched transport others m i payload).0
  unfolding publish_fetched
  publish_fetched-Mirrors m i payload narrow l bytes v =
      let f : IsFaithful source content chunk_size
          (publish_chunk m.store m.source i payload (others.answers m.time)).0 =
        rw v.same (stored-IsFaithful m.store i payload m.time narrow l bytes v.faithful) in
      if-Mirrors (is_ok (publish_chunk m.store m.source i payload (others.answers m.time)).1) _ _
        (record { same = v.same; faithful = f }) (record { same = v.same; faithful = f })

  fetch-Mirrors :
      (m : Mirror) (i : ℕ)
      → i < 2 ^ 32
      → Mirrors m
      → Mirrors (fetch_and_publish transport others m i (tile source content chunk_size i)).0
  unfolding fetch_and_publish
  fetch-Mirrors m i narrow v =
      let r = request_of transport others m i (tile source content chunk_size i) in
      let result = transport m.time r in
      let n = meanwhile transport others (with_stats m (record_fetch result m.stats)) in
      let w =
        meanwhile-Mirrors (with_stats m (record_fetch result m.stats)) (with_stats-Mirrors m _ v) in
      elim (Bool-cases (is_ok result.status)) [
        | inr e ↦ rw e w
        | inl e ↦ elim (Bool-cases (result.bytes == tile source content chunk_size i)) [
          | inr f ↦ rw (e, f) w
          | inl f ↦
              let (l, bytes) =
                honest.fetched m.time r (ap (λ (x : SourceIdentity). x.validator) v.same)
                  (is_ok-true result.status e)
                  ((==_iff result.bytes (tile source content chunk_size i)).0 f) in
              rw (e, f)
                (publish_fetched-Mirrors n i result.destination narrow l
                  (subst
                    (λ (c : ℕ).
                      (k : ℕ)
                      → k < tile source content chunk_size i
                      → byte_at result.destination k ≡ content (i * c + k))
                    v.faithful.size bytes)
                  w)
        ]
      ]

  -- A mirror, a status and a buffer behind a step for chunk `i`.
  pub record Ensures (i : ℕ) (r : Mirror × Status × List ℕ) : Type 0 where
    pub mirror : Mirrors r.0
    pub buffer : Holds i r.1 r.2

  -- The buffer's size alone, as long as it is not read back.
  record Sized (r : Mirror × Status × List ℕ) : Type 0 where
    mirror : Mirrors r.0
    size : length r.2 ≡ chunk_size

  fetch_unless_local-Sized :
      (m : Mirror) (i : ℕ) (buffer : List ℕ)
      → i < 2 ^ 32
      → Mirrors m
      → length buffer ≡ chunk_size
      → Sized (fetch_unless_local transport others m i (tile source content chunk_size i) buffer)
  unfolding fetch_unless_local
  fetch_unless_local-Sized m i buffer narrow v l =
      let size = length-read_chunk m.store m.source i buffer ∙ l in
      elim (Bool-cases (is_ok (read_chunk m.store m.source i buffer).0.status)) [
        | inl e ↦ rw e (record { mirror = v; size = size })
        | inr e ↦ rw e (record { mirror = fetch-Mirrors m i narrow v; size = size })
      ]

  fetch_or_join-Sized :
      (m : Mirror) (i : ℕ) (buffer : List ℕ)
      → i < 2 ^ 32
      → Mirrors m
      → length buffer ≡ chunk_size
      → Sized (fetch_or_join transport others m i (tile source content chunk_size i) buffer)
  unfolding fetch_or_join
  fetch_or_join-Sized m i buffer narrow v l = elim (Option-cases (others.joined m.time i)) [
    | inl e ↦ rw (fetch_or_join, e) (fetch_unless_local-Sized m i buffer narrow v l)
    | inr e ↦
        rw (fetch_or_join, e.1)
          (record {
            mirror =
                meanwhile-Mirrors (with_stats m (record_coalesced m.stats))
                  (with_stats-Mirrors m _ v);
            size = l;
          })
  ]

  read_back-Ensures :
      (m : Mirror) (i : ℕ) (buffer : List ℕ)
      → Mirrors m
      → length buffer ≡ chunk_size
      → Ensures i (read_back transport others m i buffer)
  unfolding read_back
  read_back-Ensures m i buffer v l =
      let h = read-Holds m i buffer v l in
      elim (Bool-cases (is_ok (read_chunk m.store m.source i buffer).0.status)) [
        | inl e ↦ rw e (record {
          mirror = v;
          buffer = record { size = h.size; exact = λ _. h.exact (is_ok-true _ e) };
        })
        | inr e ↦ elim (Bool-cases (is_corrupt (read_chunk m.store m.source i buffer).0.status)) [
          | inl f ↦
              rw (e, f)
                (record {
                  mirror = v;
                  buffer = record { size = h.size; exact = λ ok. absurd (cc ok) };
                })
          | inr f ↦
              rw (e, f)
                (record {
                  mirror = v;
                  buffer = record { size = h.size; exact = λ ok. absurd (cc ok) };
                })
        ]
      ]

  -- However the fetch ends and whatever others do meanwhile, a mirror stays one of its source,
  -- and a chunk that is reported ok stands in the buffer as it does in the source.
  pub ensure-Ensures :
      (m : Mirror) (i : ℕ) (buffer : List ℕ)
      → i < 2 ^ 32
      → Mirrors m
      → length buffer ≡ chunk_size
      → Ensures i
          (ensure_chunk_local transport others m i (tile source content chunk_size i) buffer)
  unfolding ensure_chunk_local
  ensure-Ensures m i buffer narrow v l =
      let h = read-Holds m i buffer v l in
      let first = (read_chunk m.store m.source i buffer).0.status in
      let held = (read_chunk m.store m.source i buffer).1 in
      elim (Bool-cases (is_ok first)) [
        | inl e ↦ rw e (record {
          mirror = with_stats-Mirrors m _ v;
          buffer = record { size = h.size; exact = λ _. h.exact (is_ok-true _ e) };
        })
        | inr e ↦
            let counted =
              if is_corrupt first then record_corrupt m.stats else record_miss m.stats in
            let w = meanwhile-Mirrors (with_stats m counted) (with_stats-Mirrors m counted v) in
            let n = meanwhile transport others (with_stats m counted) in
            let f = fetch_or_join-Sized n i held narrow w h.size in
            let status =
              (fetch_or_join transport others n i (tile source content chunk_size i) held).1 in
            elim (Bool-cases (is_ok status)) [
              | inl g ↦ rw (e, g) (read_back-Ensures _ i _ (meanwhile-Mirrors _ f.mirror) f.size)
              | inr g ↦
                  rw (e, g)
                    (record {
                      mirror = f.mirror;
                      buffer = record { size = f.size; exact = λ ok. absurd (cc (ok, g)) };
                    })
            ]
      ]
