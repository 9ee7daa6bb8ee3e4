-- ===== src/RowCache/Steps/Leases.antt =====
-- The leases that are out, counted on the slots that they pin.
use sub0tiered_cache.Base.{
  ℕ, ◌+◌, ◌==◌, ◌≡◌, ◌≢◌, ◌∙◌, arith, true, List, [], ◌∷◌, ◌++◌, if◌then◌else◌,
}
use sub0tiered_cache.RowCache.State.{Table, Slot, RowLease, is_ready}
use sub0tiered_cache.RowCache.Valid.{IsValid}
use sub0tiered_cache.RowCache.Resolve.Leased.{Current}
use sub0tiered_cache.RowCache.Steps.{World}

-- How many of the leases are on the slot.
abbrev pub leases_on : List RowLease → ℕ → ℕ
leases_on [] i = 0
leases_on (l ∷ ls) i = (if i == l.slot then 1 else 0) + leases_on ls i

abbrev pub AllCurrent : (ℕ → Slot) → List RowLease → Type 0
AllCurrent slots [] = Unit {0}
AllCurrent slots (l ∷ ls) = Current slots l × AllCurrent slots ls

-- The table is valid, every lease is on its slot's present row, and a slot has a pin for each
-- lease on it.
pub record IsSound (w : World) : Type 0 where
  pub valid : IsValid w.table
  pub current : AllCurrent w.table.slots w.leases
  pub pins : (i : ℕ) → (w.table.slots i).pins ≡ leases_on w.leases i

-- The slot goes on with its row, its epoch and the range that it publishes, and if it was Ready it
-- is Ready.
pub record Keeps (s s' : Slot) : Type 0 where
  pub row : s'.row_index ≡ s.row_index
  pub generation : s'.row_generation ≡ s.row_generation
  pub epoch : s'.epoch ≡ s.epoch
  pub bytes : s'.published_bytes ≡ s.published_bytes
  pub offset : s'.published_offset ≡ s.published_offset
  pub ready : is_ready s.state ≡ true → is_ready s'.state ≡ true

abbrev pub PinnedKeep : Table → Table → Type 0
PinnedKeep t u = (j : ℕ) → (t.slots j).pins ≢ 0 → Keeps (t.slots j) (u.slots j)

pub leases_on-append :
    (ls ms : List RowLease) (i : ℕ) → leases_on (ls ++ ms) i ≡ leases_on ls i + leases_on ms i
leases_on-append [] ms i = omega arith
leases_on-append (l ∷ ls) ms i = omega (arith, leases_on-append ls ms i)

Current-kept :
    (f g : ℕ → Slot) (l : RowLease) → Keeps (f l.slot) (g l.slot) → Current f l → Current g l
Current-kept f g l k c = record {
  held = c.held;
  epoch = k.epoch ∙ c.epoch;
  row = k.row ∙ c.row;
  generation = k.generation ∙ c.generation;
}

-- Leases on slots that are kept are current as before.
pub AllCurrent-kept :
    (f g : ℕ → Slot) (ls : List RowLease)
    → ((j : ℕ) → leases_on ls j ≢ 0 → Keeps (f j) (g j))
    → AllCurrent f ls
    → AllCurrent g ls
AllCurrent-kept f g [] k c = tt
AllCurrent-kept f g (l ∷ ls) k c = (
  Current-kept f g l (k l.slot (ground arith)) c.0,
  AllCurrent-kept f g ls (λ j some_on. k j (ground arith)) c.1,
)

pub AllCurrent-append :
    (f : ℕ → Slot) (ls ms : List RowLease)
    → AllCurrent f ls
    → AllCurrent f ms
    → AllCurrent f (ls ++ ms)
AllCurrent-append f [] ms c d = d
AllCurrent-append f (l ∷ ls) ms c d = (c.0, AllCurrent-append f ls ms c.1 d)

pub AllCurrent-split :
    (f : ℕ → Slot) (ls ms : List RowLease)
    → AllCurrent f (ls ++ ms)
    → AllCurrent f ls × AllCurrent f ms
AllCurrent-split f [] ms c = (tt, c)
AllCurrent-split f (l ∷ ls) ms c = let (a, b) = AllCurrent-split f ls ms c.1 in ((c.0, a), b)
