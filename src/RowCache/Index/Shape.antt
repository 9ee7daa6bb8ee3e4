-- ===== src/RowCache/Index/Shape.antt =====
-- What a well-formed index is.
use sub0tiered_cache.Base.{ℕ, sym, subst, ◌∙◌, ◌<◌, ◌≡◌, ◌≢◌, Bool, true, Option, none, some}
use sub0tiered_cache.RowCache.Index.{distance}

-- Every entry is reached from its home without passing an empty position, no slot is entered
-- twice, and the slots entered are exactly those that `members` names.
pub record IsIndex (size : ℕ) (home : ℕ → ℕ) (members : ℕ → Bool) (index : ℕ → Option ℕ)
    : Type 0 where
  pub reach :
      (p q s : ℕ)
      → p < size
      → q < size
      → index p ≡ some s
      → distance size (home s) q < distance size (home s) p
      → index q ≢ none
  pub distinct : (p q s : ℕ) → p < size → q < size → index p ≡ some s → index q ≡ some s → p ≡ q
  pub sound : (p s : ℕ) → p < size → index p ≡ some s → members s ≡ true
  pub complete : (s : ℕ) → members s ≡ true → (p : ℕ) × (p < size) × (index p ≡ some s)

-- Only the homes of the members count.
pub IsIndex-congr :
    {size : ℕ} {home home' : ℕ → ℕ} {members members' : ℕ → Bool} {index : ℕ → Option ℕ}
    → IsIndex size home members index
    → ((s : ℕ) → members s ≡ true → home s ≡ home' s)
    → ((s : ℕ) → members s ≡ members' s)
    → IsIndex size home' members' index
IsIndex-congr {size = size} v same agree = record {
  reach = λ p q s h k e near. v.reach p q s h k e (
      let eq = same s (v.sound p s h e) in
      subst (λ (x : ℕ). distance size x q < distance size x p) (sym eq) near);
  distinct = v.distinct;
  sound = λ p s h e. sym (agree s) ∙ v.sound p s h e;
  complete = λ s e. v.complete s (agree s ∙ e);
}

-- An entry weighs 1.
abbrev pub occupied : Option ℕ → ℕ
occupied none = 0
occupied (some s) = 1
