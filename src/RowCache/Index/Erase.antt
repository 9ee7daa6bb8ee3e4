-- ===== src/RowCache/Index/Erase.antt =====
-- Deletion from the index: the loop `shift_back` fills the hole that a deleted entry leaves.
use sub0tiered_cache.Base.{
  ℕ, zero, suc, ◌+◌, ◌≤◌, ◌<◌, ◌≡◌, ◌≢◌, inl, inr, arith, refl, sym, ◌∙◌, Bool, true, false, Option,
  none, some, Bool-cases, Option-cases, ℕ_discrete, ap, update, total, total-update, leb, dec_lt,
}
use sub0tiered_cache.RowCache.Index.{next, distance, shift_back}
use sub0tiered_cache.RowCache.Index.Shape.{IsIndex, occupied}
use sub0tiered_cache.RowCache.Index.Circle.{
  next-lt, distance-lt, distance_self, distance-next, distance_injective, step_ahead, behind,
  beyond, passes,
}

module _ (size : ℕ) (home : ℕ → ℕ) (members : ℕ → Bool) (victim gap : ℕ)
    (home-lt : (s : ℕ) → home s < size) (gap-lt : gap < size) where
  -- The loop's invariant. The position `hole` holds an entry that no longer counts; all entries up
  -- to `pos` are known not to be reached by way of the hole.
  pub record HasHole (hole pos : ℕ) (index : ℕ → Option ℕ) : Type 0 where
    pub hole-lt : hole < size
    pub pos-lt : pos < size
    pub ahead : 0 < distance size hole pos
    pub before_gap : distance size hole pos ≤ distance size hole gap
    pub vacant : index gap ≡ none
    pub stale : index hole ≢ none
    pub reach :
        (p q s : ℕ)
        → p < size
        → q < size
        → p ≢ hole
        → index p ≡ some s
        → distance size (home s) q < distance size (home s) p
        → index q ≢ none
    pub settled :
        (p s : ℕ)
        → p < size
        → p ≢ hole
        → index p ≡ some s
        → distance size hole p < distance size hole pos
        → distance size (home s) p ≤ distance size (home s) hole
    pub distinct :
        (p q s : ℕ)
        → p < size
        → q < size
        → p ≢ hole
        → q ≢ hole
        → index p ≡ some s
        → index q ≡ some s
        → p ≡ q
    pub sound :
        (p s : ℕ) → p < size → p ≢ hole → index p ≡ some s → (members s ≡ true) × (s ≢ victim)
    pub complete :
        (s : ℕ)
        → members s ≡ true
        → s ≢ victim
        → (p : ℕ) × (p < size) × (p ≢ hole) × (index p ≡ some s)

  not_here : {hole pos : ℕ} {index : ℕ → Option ℕ} → HasHole hole pos index → pos ≢ hole
  not_here {hole} {pos} v same =
      omega (arith, v.ahead, ap (distance size hole) same, distance_self size hole v.hole-lt)

  before_gap_lem :
      {hole pos slot : ℕ} {index : ℕ → Option ℕ}
      → HasHole hole pos index
      → index pos ≡ some slot
      → pos ≢ gap
  before_gap_lem {index = index} v e same = ground (arith, v.vacant, ap index same)

  -- An entry behind an empty position is not reached by way of the hole.
  past_empty :
      {hole pos : ℕ} {index : ℕ → Option ℕ}
      → HasHole hole pos index
      → index pos ≡ none
      → (p s : ℕ) → p < size
      → p ≢ hole
      → index p ≡ some s
      → distance size (home s) p ≤ distance size (home s) hole
  past_empty {hole} {pos} {index} v e p s h ne entry =
      elim (dec_lt (distance size hole p) (distance size hole pos)) [
        | yes near ↦ v.settled p s h ne entry near
        | no far ↦ elim (dec_lt (distance size (home s) hole) (distance size (home s) p)) [
          | no kept ↦ omega arith
          | yes via ↦ absurd (
              v.reach p pos s h v.pos-lt ne entry
                (passes size (home s) hole pos p (home-lt s) v.hole-lt v.pos-lt h via
                  (omega (arith, apart far)))
                e)
        ]
      ]
    where
      apart :
          ¬ (distance size hole p < distance size hole pos)
          → distance size hole p ≢ distance size hole pos
      apart far same =
          ground (arith, ap index (distance_injective size hole p pos v.hole-lt h v.pos-lt same))

  -- At an empty position the hole itself can be emptied.
  hole_closes :
      {hole pos : ℕ} {index : ℕ → Option ℕ}
      → HasHole hole pos index
      → index pos ≡ none
      → IsIndex size home (update members victim false) (update index hole none)
  hole_closes {hole} {pos} v e = record {
    reach = λ p q s h k entry near. ground (arith, v.reach p q s h k, past_empty v e p s h);
    distinct = λ p q s h k entry other. ground (arith, v.distinct p q s h k);
    sound = λ p s h entry. ground (arith, v.sound p s h);
    complete = λ s e'.
        let (p, h, ne, entry) = v.complete s (ground arith) (ground arith) in (p, h, ground arith);
  }

  -- The entry at `pos` stays: its home lies behind the hole.
  hole_stays :
      {hole pos slot : ℕ} {index : ℕ → Option ℕ}
      → HasHole hole pos index
      → index pos ≡ some slot
      → distance size (home slot) pos < distance size hole pos
      → HasHole hole (next size pos) index
  hole_stays {hole} {pos} {slot} {index} v e near =
      let (one, within) =
        step_ahead size hole pos gap v.hole-lt v.pos-lt gap-lt
          (λ same. ground (arith, v.vacant, ap index same)) v.before_gap in
      record {
        hole-lt = v.hole-lt;
        pos-lt = next-lt size pos v.pos-lt;
        ahead = omega arith;
        before_gap = within;
        vacant = v.vacant;
        stale = v.stale;
        reach = v.reach;
        settled = λ p s h ne entry before.
            elim (dec_lt (distance size hole p) (distance size hole pos)) [
              | yes earlier ↦ v.settled p s h ne entry earlier
              | no late ↦
                  let here =
                    distance_injective size hole p pos v.hole-lt h v.pos-lt (omega arith) in
                  ground (
                    arith,
                    ap index here,
                    behind size (home slot) hole pos (home-lt slot) v.hole-lt v.pos-lt near,
                  )
            ];
        distinct = v.distinct;
        sound = v.sound;
        complete = v.complete;
      }

  -- The entry at `pos` moves into the hole, and leaves a hole behind.
  hole_moves :
      {hole pos slot : ℕ} {index : ℕ → Option ℕ}
      → HasHole hole pos index
      → index pos ≡ some slot
      → distance size hole pos ≤ distance size (home slot) pos
      → HasHole pos (next size pos) (update index hole (some slot))
  hole_moves {hole} {pos} {slot} {index} v e far =
      let ne : pos ≢ hole = λ same. not_here v same in
      let (one, within) =
        step_ahead size pos pos gap v.pos-lt v.pos-lt gap-lt
          (λ same. ground (arith, v.vacant, ap index same))
          (omega (arith, distance_self size pos v.pos-lt)) in
      record {
        hole-lt = v.pos-lt;
        pos-lt = next-lt size pos v.pos-lt;
        ahead = omega arith;
        before_gap = within;
        vacant = ground arith;
        stale = ground arith;
        reach = λ p q s h k np entry d. ground (
          arith,
          v.reach p q s h k,
          v.reach pos q slot v.pos-lt k ne e,
          beyond size (home slot) hole pos (home-lt slot) v.hole-lt v.pos-lt far,
        );
        settled = λ p s h np entry d. absurd (
            np (
              distance_injective size pos p pos v.pos-lt h v.pos-lt
                (omega (arith, distance_self size pos v.pos-lt))));
        distinct = λ p q s h k np nq entry other. ground (
          arith,
          v.distinct p q s h k,
          v.distinct p pos s h v.pos-lt,
          v.distinct q pos s k v.pos-lt,
        );
        sound = λ p s h np entry. ground (arith, v.sound p s h, v.sound pos slot v.pos-lt ne e);
        complete = λ s member other.
            let (p, h, np, entry) = v.complete s member other in
            elim (ℕ_discrete p pos) [
              | yes moved ↦
                  (hole, v.hole-lt, (λ same. not_here v (sym same)), ground (arith, ap index moved))
              | no kept ↦ (p, h, kept, ground arith)
            ];
      }

  -- With fuel beyond the next empty position the loop ends, in an index without the victim.
  pub shift_back-IsIndex :
      (fuel hole pos : ℕ) (index : ℕ → Option ℕ)
      → HasHole hole pos index
      → distance size pos gap < fuel
      → (index' : ℕ → Option ℕ) × (shift_back size home fuel hole pos index ≡ some index')
        × IsIndex size home (update members victim false) index'
        × (total size occupied index' + 1 ≡ total size occupied index)
  unfolding shift_back
  shift_back-IsIndex zero hole pos index v d = absurd (omega arith)
  shift_back-IsIndex (suc fuel) hole pos index v d = elim (Option-cases (index pos)) [
    | inl e ↦
        rw (e, shift_back)
          (
            update index hole none,
            refl,
            hole_closes v e,
            ground (arith, v.stale, total-update size occupied index hole none v.hole-lt),
          )
    | inr (slot, e) ↦
        elim (Bool-cases (leb (distance size hole pos) (distance size (home slot) pos))) [
          | inl far ↦
              let (index', found, valid, count) =
                shift_back-IsIndex fuel pos (next size pos) (update index hole (some slot))
                  (hole_moves v e (ground arith))
                  (omega
                    (arith, distance-next size pos gap v.pos-lt gap-lt (before_gap_lem v e))) in
              rw (e, shift_back, far)
                (
                  index',
                  found,
                  valid,
                  ground (
                    arith,
                    count,
                    v.stale,
                    total-update size occupied index hole (some slot) v.hole-lt,
                  ),
                )
          | inr near ↦
              rw (e, shift_back, near)
                (shift_back-IsIndex fuel hole (next size pos) index (hole_stays v e (ground arith))
                  (omega (arith, distance-next size pos gap v.pos-lt gap-lt (before_gap_lem v e))))
        ]
  ]

  -- The member at `hole` can be deleted from a well-formed index.
  pub erase-IsIndex :
      (fuel hole : ℕ) (index : ℕ → Option ℕ)
      → IsIndex size home members index
      → hole < size
      → index hole ≡ some victim
      → index gap ≡ none
      → size ≤ fuel
      → (index' : ℕ → Option ℕ) × (shift_back size home fuel hole (next size hole) index
          ≡ some index')
        × IsIndex size home (update members victim false) index'
        × (total size occupied index' + 1 ≡ total size occupied index)
  erase-IsIndex fuel hole index v h e vacant enough =
      let apart : hole ≢ gap = λ same. ground (arith, ap index same) in
      let (one, within) =
        step_ahead size hole hole gap h h gap-lt apart (omega (arith, distance_self size hole h)) in
      let start = next-lt size hole h in
      shift_back-IsIndex fuel hole (next size hole) index
        (record {
          hole-lt = h;
          pos-lt = start;
          ahead = omega arith;
          before_gap = within;
          vacant = vacant;
          stale = ground arith;
          reach = λ p q s h' k np entry d. v.reach p q s h' k entry d;
          settled = λ p s h' np entry d. absurd (
              np (
                distance_injective size hole p hole h h' h
                  (omega (arith, distance_self size hole h))));
          distinct = λ p q s h' k np nq entry other. v.distinct p q s h' k entry other;
          sound = λ p s h' np entry. (
            v.sound p s h' entry,
            λ same. np (v.distinct p hole victim h' h (entry ∙ ap some same) e),
          );
          complete = λ s member other.
              let (p, h', entry) = v.complete s member in
              (p, h', (λ same. other (ground (arith, ap index same))), entry);
        })
        (omega (arith, distance-lt size (next size hole) gap start gap-lt))
