-- ===== src/RowCache/Indexed.antt =====
-- The index of a Table agrees with its slots: what index_find answers, and that index_insert and
-- index_erase keep the agreement.
use native.Mathlib.Nat.{div-lt_iff_lt-mul, pow-suc, mod-lt, zero-add, suc-add}
use mathlib.Core.Bool.{false≢true}
use sub0tiered_cache.Base.{
  ℕ, zero, suc, ◌+◌, ◌-◌, ◌*◌, ◌/◌, ◌%◌, ◌^◌, ◌≤◌, ◌<◌, ◌≡◌, ◌≢◌, refl, sym, ap, subst, ◌∙◌, arith,
  Bool, true, false, Option, none, some, update, update_ne, update_self, total, total-update,
  total-le, total_gap, total_congr, if◌then◌else◌,
}
use sub0tiered_cache.RowCache.Config.{u64_size}
use sub0tiered_cache.RowCache.State.{Slot}
use sub0tiered_cache.RowCache.Index.{
  next, distance, find_from, empty_from, hole_from, shift_back, index_home,
}
use sub0tiered_cache.RowCache.Index.Shape.{IsIndex, IsIndex-congr, occupied}
use sub0tiered_cache.RowCache.Index.Circle.{distance-lt}
use sub0tiered_cache.RowCache.Index.Find.{find_from_absent, walk_to_entry}
use sub0tiered_cache.RowCache.Index.Insert.{empty_from_finds, insert-IsIndex}
use sub0tiered_cache.RowCache.Index.Erase.{erase-IsIndex}

pow-split : (a b : ℕ) → 2 ^ (a + b) ≡ 2 ^ a * 2 ^ b
pow-split zero b = rw zero-add (omega arith)
pow-split (suc a) b =
    rw suc-add (rw (pow-suc 2 (a + b), pow-suc 2 a) (grind (arith, pow-split a b)))

pow-pos : (a : ℕ) → 0 < 2 ^ a
pow-pos zero = omega arith
pow-pos (suc a) = omega (arith, pow-suc 2 a, pow-pos a)

-- A word of 64 bits, shifted so that `bits` of them are left.
shifted-lt : (x bits : ℕ) → bits ≤ 64 → x % u64_size / 2 ^ (64 - bits) < 2 ^ bits
shifted-lt x bits h = (div-lt_iff_lt-mul (pow-pos (64 - bits))).1 (
    rw (← pow-split bits (64 - bits))
      (let e : bits + (64 - bits) ≡ 64 = omega arith in rw e (mod-lt x (omega arith))))

-- The home of a key is a position.
pub index_home-lt :
    (bits row generation : ℕ) → bits ≤ 64 → index_home bits row generation < 2 ^ bits
unfolding index_home
index_home-lt bits row generation h = shifted-lt _ bits h

abbrev pub entered : Slot → ℕ
entered s = if s.indexed then 1 else 0

abbrev key_home : ℕ → Slot → ℕ
key_home bits s = index_home bits s.row_index s.row_generation

abbrev pub slot_home : ℕ → (ℕ → Slot) → ℕ → ℕ
slot_home bits slots s = index_home bits (slots s).row_index (slots s).row_generation

abbrev pub is_entered : (ℕ → Slot) → ℕ → Bool
is_entered slots s = (slots s).indexed

-- The index holds exactly the slots marked as indexed, no two of them with one key, and it has
-- more positions than there are slots.
pub record Agrees (bits n : ℕ) (slots : ℕ → Slot) (index : ℕ → Option ℕ) : Type 0 where
  pub bits-le : bits ≤ 64
  pub room : n < 2 ^ bits
  pub inside : (s : ℕ) → (slots s).indexed ≡ true → s < n
  pub shape : IsIndex (2 ^ bits) (slot_home bits slots) (is_entered slots) index
  pub load : total (2 ^ bits) occupied index ≡ total n entered slots
  pub unique :
      (i j : ℕ)
      → (slots i).indexed ≡ true
      → (slots j).indexed ≡ true
      → (slots i).row_index ≡ (slots j).row_index
      → (slots i).row_generation ≡ (slots j).row_generation
      → i ≡ j

occupied-le : (e : Option ℕ) → occupied e ≤ 1
occupied-le none = omega arith
occupied-le (some s) = omega arith

entered-le : (s : Slot) → entered s ≤ 1
entered-le s = ground arith

occupied-zero : (e : Option ℕ) → occupied e ≡ 0 → e ≡ none
occupied-zero none h = refl
occupied-zero (some s) h = absurd (omega arith)

-- The index has an empty position.
pub vacancy :
    {bits n : ℕ} {slots : ℕ → Slot} {index : ℕ → Option ℕ}
    → Agrees bits n slots index
    → (gap : ℕ) × (gap < 2 ^ bits) × (index gap ≡ none)
vacancy {bits} {n} {slots} {index} v =
    let (gap, h, e) =
      total_gap (2 ^ bits) occupied index
        (omega (arith, v.room, v.load, total-le n entered slots entered-le)) occupied-le in
    (gap, h, occupied-zero (index gap) e)

-- Only which slots are entered counts, and their keys.
pub Agrees-congr :
    {bits n : ℕ} {slots : ℕ → Slot} {index : ℕ → Option ℕ} (slots' : ℕ → Slot)
    → Agrees bits n slots index
    → ((j : ℕ) → (slots' j).indexed ≡ (slots j).indexed)
    → ((j : ℕ)
        → (slots j).indexed ≡ true
        → ((slots' j).row_index ≡ (slots j).row_index)
          × ((slots' j).row_generation ≡ (slots j).row_generation))
    → Agrees bits n slots' index
Agrees-congr {bits} {n} {slots} slots' v same key = record {
  bits-le = v.bits-le;
  room = v.room;
  inside = λ j e. v.inside j (sym (same j) ∙ e);
  shape = IsIndex-congr v.shape (λ j e. let (row, generation) = key j e in cc) (λ j. sym (same j));
  load = v.load ∙ total_congr n entered slots slots' (λ j. rw (same j));
  unique = λ j k e f r g.
      let (row, generation) = key j (sym (same j) ∙ e) in
      let (row', generation') = key k (sym (same k) ∙ f) in
      v.unique j k (sym (same j) ∙ e) (sym (same k) ∙ f) (sym row ∙ r ∙ row')
        (sym generation ∙ g ∙ generation');
}

-- A change of a slot that neither enters it, nor takes it out, nor gives a member another key.
pub touch-Agrees :
    {bits n : ℕ} {slots : ℕ → Slot} {index : ℕ → Option ℕ} (i : ℕ) (s : Slot)
    → Agrees bits n slots index
    → s.indexed ≡ (slots i).indexed
    → ((slots i).indexed ≡ true
        → (s.row_index ≡ (slots i).row_index) × (s.row_generation ≡ (slots i).row_generation))
    → Agrees bits n (update slots i s) index
touch-Agrees {slots = slots} i s v same key =
    Agrees-congr (update slots i s) v (λ j. ground arith) (λ j e. (ground arith, ground arith))

module _ {bits n : ℕ} {slots : ℕ → Slot} {index : ℕ → Option ℕ}
    (v : Agrees bits n slots index) where
  home-lt : (s : ℕ) → slot_home bits slots s < 2 ^ bits
  home-lt s = index_home-lt bits (slots s).row_index (slots s).row_generation v.bits-le

  -- The first loop of a lookup, for the key of a member.
  pub lookup_member :
      (s : ℕ) (test : ℕ → Bool)
      → (slots s).indexed ≡ true
      → test s ≡ true
      → ((j : ℕ) → (slots j).indexed ≡ true → test j ≡ true → j ≡ s)
      → (at : ℕ) × (at < 2 ^ bits)
        × (index at ≡ some s)
        × (find_from (2 ^ bits) test index (2 ^ bits) (slot_home bits slots s) ≡ some (some s))
        × (hole_from (2 ^ bits) test index (2 ^ bits) (slot_home bits slots s) ≡ some at)
  lookup_member s test member hit only =
      let (at, h, entry) = v.shape.complete s member in
      let (found, position) =
        walk_to_entry (2 ^ bits) test index at s h entry hit
          (λ p j k e passed.
            v.shape.distinct p at s k h (e ∙ ap some (only j (v.shape.sound p j k e) passed)) entry)
          (2 ^ bits) (slot_home bits slots s) (home-lt s)
          (λ q k near. v.shape.reach at q s h k entry near)
          (distance-lt (2 ^ bits) (slot_home bits slots s) at (home-lt s) h) in
      (at, h, entry, found, position)

  -- A lookup that no member passes ends at an empty position.
  pub lookup_absent :
      (home : ℕ) (test : ℕ → Bool)
      → home < 2 ^ bits
      → ((j : ℕ) → (slots j).indexed ≡ true → test j ≡ false)
      → find_from (2 ^ bits) test index (2 ^ bits) home ≡ some none
  lookup_absent home test h miss =
      let (gap, k, empty) = vacancy v in
      find_from_absent (2 ^ bits) test index (λ p s l e. miss s (v.shape.sound p s l e)) (2 ^ bits)
        home gap h k empty (distance-lt (2 ^ bits) home gap h k)

  entered-Agrees :
      (i : ℕ) (s : Slot)
      → i < n
      → (slots i).indexed ≡ false
      → s.indexed ≡ true
      → ((j : ℕ)
          → (slots j).indexed ≡ true
          → (slots j).row_index ≡ s.row_index
          → (slots j).row_generation ≡ s.row_generation
          → ⊥)
      → (at : ℕ) → at < 2 ^ bits
      → index at ≡ none
      → ((q : ℕ)
          → q < 2 ^ bits
          → distance (2 ^ bits) (index_home bits s.row_index s.row_generation) q
            < distance (2 ^ bits) (index_home bits s.row_index s.row_generation) at
          → index q ≢ none)
      → Agrees bits n (update slots i s) (update index at (some i))
  entered-Agrees i s h out in' new at within free dense =
      let homes = slot_home bits (update slots i s) in
      let moved : IsIndex (2 ^ bits) homes (is_entered slots) index =
        IsIndex-congr v.shape
          (λ j e. ap (key_home bits) (
            sym (
              update_ne slots i s j
                (λ same. false≢true (sym out ∙ ap (is_entered slots) (sym same) ∙ e)))))
          (λ j. refl) in
      let here : index_home bits s.row_index s.row_generation ≡ homes i =
        ap (key_home bits) (sym (update_self slots i s)) in
      let shape = insert-IsIndex moved i at out within free (
        subst
          (λ (x : ℕ).
            (q : ℕ)
            → q < 2 ^ bits
            → distance (2 ^ bits) x q < distance (2 ^ bits) x at
            → index q ≢ none)
          here dense) in
      record {
        bits-le = v.bits-le;
        room = v.room;
        inside = λ j e. ground (arith, v.inside j);
        shape = IsIndex-congr shape (λ j e. refl) (λ j. ground arith);
        load = ground (
          arith,
          v.load,
          total-update n entered slots i s h,
          total-update (2 ^ bits) occupied index at (some i) within,
        );
        unique = λ j k e f r g. ground (arith, v.unique j k, new j, new k);
      }

  -- A slot with a key of its own is entered.
  pub insert-Agrees :
      (i : ℕ) (s : Slot)
      → i < n
      → (slots i).indexed ≡ false
      → s.indexed ≡ true
      → ((j : ℕ)
          → (slots j).indexed ≡ true
          → (slots j).row_index ≡ s.row_index
          → (slots j).row_generation ≡ s.row_generation
          → ⊥)
      → (at : ℕ) × (empty_from
            (2 ^ bits)
            index
            (2 ^ bits)
            (index_home bits s.row_index s.row_generation)
          ≡ some at)
        × Agrees bits n (update slots i s) (update index at (some i))
  insert-Agrees i s h out in' new =
      let home = index_home bits s.row_index s.row_generation in
      let homes = index_home-lt bits s.row_index s.row_generation v.bits-le in
      let (gap, k, empty) = vacancy v in
      let (at, found, within, free, dense) =
        empty_from_finds (2 ^ bits) index (2 ^ bits) home gap homes k empty
          (distance-lt (2 ^ bits) home gap homes k) in
      (at, found, entered-Agrees i s h out in' new at within free dense)

  -- A member is taken out.
  pub erase-Agrees :
      (i at : ℕ) (s : Slot)
      → (slots i).indexed ≡ true
      → s.indexed ≡ false
      → at < 2 ^ bits
      → index at ≡ some i
      → (index' : ℕ → Option ℕ) × (shift_back
            (2 ^ bits)
            (slot_home bits slots)
            (2 ^ bits)
            at
            (next (2 ^ bits) at)
            index
          ≡ some index')
        × Agrees bits n (update slots i s) index'
  erase-Agrees i at s member out h entry =
      let (gap, k, empty) = vacancy v in
      let (index', done, shape, count) =
        erase-IsIndex (2 ^ bits) (slot_home bits slots) (is_entered slots) i gap home-lt k
          (2 ^ bits) at index v.shape h entry empty (omega arith) in
      (
        index',
        done,
        record {
          bits-le = v.bits-le;
          room = v.room;
          inside = λ j e. v.inside j (ground arith);
          shape =
              IsIndex-congr shape
                (λ j e. ap (key_home bits) (sym (update_ne slots i s j (λ same. ground arith))))
                (λ j. ground arith);
          load =
              ground (arith, v.load, count, total-update n entered slots i s (v.inside i member));
          unique = λ j k e f r g. ground (arith, v.unique j k);
        },
      )
