-- ===== src/RowCache/Victim/Found.antt =====
-- claim_victim of include/sub0tieredcache/row_cache.hpp finds a victim wherever there is one.
use mathlib.Core.Bool.{false≢true}
use sub0tiered_cache.Base.{
  ℕ, zero, suc, ◌+◌, ◌*◌, ◌%◌, ◌^◌, ◌-◌, ◌==◌, ◌≤◌, if◌then◌else◌, ◌<◌, ◌≡◌, ◌≢◌, ◌⊎◌, ◌↔◌, inl,
  inr, refl, sym, ap, subst, ◌∙◌, arith, true, false, none, some, Bool-cases, Option-cases, ltb,
  ℕ_discrete, update_self, update_ne,
}
use sub0tiered_cache.RowCache.Config.{u32_size}
use sub0tiered_cache.RowCache.State.{Table, Slot, is_filling}
use sub0tiered_cache.RowCache.Valid.{IsValid}
use sub0tiered_cache.RowCache.Victim.{Verdict, judge, advance_hand, spared, sweep, claim_victim}
use sub0tiered_cache.RowCache.Victim.Sound.{claim_victim-some}

-- A slot that the sweep may not take.
abbrev pub IsBusy : Slot → Type 0
IsBusy s = (is_filling s.state ≡ true) ⊎ (s.pins ≢ 0)

-- What the sweep does with the slot under its hand.
verdicts :
    (s : Slot)
    → (judge s.state s.pins s.referenced ≡ Verdict.take)
      ⊎ (judge s.state s.pins s.referenced ≡ Verdict.reclaim)
      ⊎ (judge s.state s.pins s.referenced ≡ Verdict.evict)
      ⊎ ((judge s.state s.pins s.referenced ≡ Verdict.skip) × IsBusy s)
      ⊎ ((judge s.state s.pins s.referenced ≡ Verdict.spare) × (s.referenced ≡ true))
unfolding judge
verdicts s = ground arith

-- The hand comes to slot `j` after `d` more slots.
abbrev IsAhead : (n hand j d : ℕ) → Type 0
IsAhead n hand j d = (hand < n) × (j < n) × (d < n) × ((hand + d ≡ j) ⊎ (hand + d ≡ j + n))

abbrev next_hand : (n hand : ℕ) → ℕ
next_hand n hand = if hand + 1 == n then 0 else hand + 1

nearer : (n hand j d : ℕ) → IsAhead n hand j (suc d) → IsAhead n (next_hand n hand) j d
nearer n hand j d a = ground (arith, a)

round_again : (n j : ℕ) → j < n → IsAhead n (next_hand n j) j (n - 1)
round_again n j h = ground (arith, h)

here_now : (n hand j : ℕ) → IsAhead n hand j 0 → hand ≡ j
here_now n hand j a = ground (arith, a)

elsewhere : (n hand j d : ℕ) → IsAhead n hand j (suc d) → j ≢ hand
elsewhere n hand j d a = ground (arith, a)

abbrev Finds : ℕ → Table → Type 0
Finds steps t = (i : ℕ) × ((sweep steps t).1 ≡ some i)

-- A slot that is not busy is found by the time the hand has come to it, or once more if it is
-- spared then.
finds :
    (steps : ℕ) (t : Table) (j d e : ℕ)
    → IsAhead t.config.budget_rows t.clock_hand j d
    → ¬ IsBusy (t.slots j)
    → ((t.slots j).referenced ≡ false) ⊎ (t.config.budget_rows ≤ e)
    → d + e < steps
    → Finds steps t
unfolding sweep advance_hand
finds zero t j d e a unused again enough = absurd (omega (arith, enough))
finds (suc steps) t j zero e a unused again enough =
    let same : t.clock_hand ≡ j = here_now _ _ _ a in
    elim (verdicts (t.slots t.clock_hand)) [
      | inl f ↦ rw (f, sweep) (t.clock_hand, refl)
      | inr (inl f) ↦ rw (f, sweep) (t.clock_hand, refl)
      | inr (inr (inl f)) ↦ rw (f, sweep) (t.clock_hand, refl)
      | inr (inr (inr (inl (f, busy)))) ↦
          absurd (unused (subst (λ (x : ℕ). IsBusy (t.slots x)) same busy))
      | inr (inr (inr (inr (f, referenced)))) ↦
          let wide : t.config.budget_rows ≤ e = elim again [
            | inl spent ↦
                let now = subst (λ (x : ℕ). (t.slots x).referenced ≡ true) same referenced in
                absurd (false≢true (sym spent ∙ now))
            | inr h ↦ h
          ] in
          let kept = update_self t.slots t.clock_hand (spared (t.slots t.clock_hand)) in
          rw (f, sweep)
            (finds steps _ t.clock_hand (t.config.budget_rows - 1) 0 (round_again _ _ a.0)
              (λ busy. unused (subst (λ (x : ℕ). IsBusy (t.slots x)) same (subst IsBusy kept busy)))
              (inl (ap (λ (s : Slot). s.referenced) kept)) (omega (arith, enough, wide, a.0)))
    ]
finds (suc steps) t j (suc d) e a unused again enough =
    let other : j ≢ t.clock_hand = elsewhere _ _ _ _ a in
    elim (verdicts (t.slots t.clock_hand)) [
      | inl f ↦ rw (f, sweep) (t.clock_hand, refl)
      | inr (inl f) ↦ rw (f, sweep) (t.clock_hand, refl)
      | inr (inr (inl f)) ↦ rw (f, sweep) (t.clock_hand, refl)
      | inr (inr (inr (inl (f, busy)))) ↦
          rw (f, sweep)
            (finds steps (advance_hand t) j d e (nearer _ _ _ _ a) unused again
              (omega (arith, enough)))
      | inr (inr (inr (inr (f, referenced)))) ↦
          let kept = update_ne t.slots t.clock_hand (spared (t.slots t.clock_hand)) j other in
          rw (f, sweep)
            (finds steps _ j d e (nearer _ _ _ _ a) (λ busy. unused (subst IsBusy kept busy))
              (subst (λ (s : Slot). (s.referenced ≡ false) ⊎ (t.config.budget_rows ≤ e)) (sym kept)
                again)
              (omega (arith, enough)))
    ]

decided : (s : Slot) → IsBusy s ⊎ ¬ IsBusy s
decided s = elim (Bool-cases (is_filling s.state)) [
  | inl e ↦ inl (inl e)
  | inr e ↦ elim (ℕ_discrete s.pins 0) [
    | no held ↦ inl (inr held)
    | yes unpinned ↦ inr (λ busy. elim busy [
      | inl filling ↦ absurd (false≢true (sym e ∙ filling))
      | inr held ↦ absurd (held unpinned)
    ])
  ]
]

some_distance : (n hand j : ℕ) → hand < n → j < n → (d : ℕ) × IsAhead n hand j d
some_distance n hand j h k = elim (Bool-cases (ltb j hand)) [
  | inl e ↦ (j + n - hand, ground (arith, h, k, e))
  | inr e ↦ (j - hand, ground (arith, h, k, e))
]

-- In a valid table whose two rounds do not wrap, a sweep answers no victim exactly if every slot
-- of the table is Filling or pinned.
pub claim_victim-eq-none_iff :
    (t : Table)
    → IsValid t
    → 2 * t.config.budget_rows < 2 ^ 32
    → ((claim_victim t).1 ≡ none) ↔ ((j : ℕ) → j < t.config.budget_rows → IsBusy (t.slots j))
unfolding claim_victim
claim_victim-eq-none_iff t v narrow = (all_busy, none_left)
  where
    all_busy : (claim_victim t).1 ≡ none → (j : ℕ) → j < t.config.budget_rows → IsBusy (t.slots j)
    all_busy e j h = elim (decided (t.slots j)) [
      | inl busy ↦ busy
      | inr idle ↦
          let (d, a) = some_distance t.config.budget_rows t.clock_hand j v.hand h in
          let rounds : 2 * t.config.budget_rows % u32_size ≡ 2 * t.config.budget_rows =
            omega (arith, narrow) in
          let (i, f) =
            finds (2 * t.config.budget_rows % u32_size) t j d t.config.budget_rows a idle
              (inr (omega arith)) (omega (arith, rounds, a)) in
          absurd (cc (e, f))
    ]

    none_left :
        ((j : ℕ) → j < t.config.budget_rows → IsBusy (t.slots j)) → (claim_victim t).1 ≡ none
    none_left busy = elim (Option-cases (claim_victim t).1) [
      | inl e ↦ e
      | inr (i, e) ↦
          let (h, idle, unpinned, _, _) = claim_victim-some t v i e in
          elim (busy i h) [
            | inl filling ↦ absurd (false≢true (sym idle ∙ filling))
            | inr held ↦ absurd (held unpinned)
          ]
    ]
