-- ===== src/Quest/Cache/Memory.antt =====
-- frontend/api/_lib/quest/cache.js: the driver in memory keeps what a cache has to.
use text.Mathlib.Text.{◌==◌}
use text.Mathlib.TextEquality.{eq_iff}
use perps_litvm.Base.{
  ℕ, zero, suc, ◌-◌, ◌≤◌, ◌≡◌, refl, ap, subst, String, true, false, some, [], ◌∷◌, ◌++◌, length,
  length-append, ok, Gives, arith, All, All-append, Bool-cases, some-injective, inl, inr,
}
use perps_litvm.Quest.Quests.{Verdict}
use perps_litvm.Quest.Cache.{
  Entries, max_entries, cached_entry, delete_entry, drop_oldest, set_entry, memory_cache_driver,
}

cached_entry-All :
    (P : String × Verdict → Type 0) (key : String) (entries : Entries) (v : Verdict)
    → All P entries
    → cached_entry key entries ≡ some v
    → P (key, v)
unfolding cached_entry
cached_entry-All P key [] v h e = cc
cached_entry-All P key ((k, w) ∷ entries) v (h, hs) e = elim (Bool-cases (k == key)) [
  | inl here ↦
      let same : w ≡ v = some-injective (rw here at e) in
      subst (λ x. P (key, x)) same (subst (λ x. P (x, w)) ((eq_iff k key).0 here) h)
  | inr later ↦ cached_entry-All P key entries v hs (rw later at e)
]

delete_entry-All :
    (P : String × Verdict → Type 0) (key : String) (entries : Entries)
    → All P entries
    → All P (delete_entry key entries)
unfolding delete_entry
delete_entry-All P key [] h = tt
delete_entry-All P key ((k, w) ∷ entries) (h, hs) = elim (Bool-cases (k == key)) [
  | inl here ↦ rw here (delete_entry-All P key entries hs)
  | inr other ↦ rw other (h, delete_entry-All P key entries hs)
]

delete_entry_gone :
    (key : String) (entries : Entries) → All (λ e. (e.0 == key) ≡ false) (delete_entry key entries)
unfolding delete_entry
delete_entry_gone key [] = tt
delete_entry_gone key ((k, w) ∷ entries) = elim (Bool-cases (k == key)) [
  | inl here ↦ rw here (delete_entry_gone key entries)
  | inr other ↦ rw other (other, delete_entry_gone key entries)
]

drop_oldest-All :
    (P : String × Verdict → Type 0) (n : ℕ) (entries : Entries)
    → All P entries
    → All P (drop_oldest n entries)
unfolding drop_oldest
drop_oldest-All P zero entries h = h
drop_oldest-All P (suc n) [] h = tt
drop_oldest-All P (suc n) (e ∷ entries) (h, hs) = drop_oldest-All P n entries hs

length-drop_oldest :
    (n : ℕ) (entries : Entries) → length (drop_oldest n entries) ≡ length entries - n
unfolding drop_oldest
length-drop_oldest zero entries = omega arith
length-drop_oldest (suc n) [] = omega arith
length-drop_oldest (suc n) (e ∷ entries) = let ih = length-drop_oldest n entries in omega arith

-- The last entry stays if no more than those before it are dropped.
cached_entry-drop_oldest :
    (key : String) (v : Verdict) (n : ℕ) (entries : Entries)
    → All (λ e. (e.0 == key) ≡ false) entries
    → n ≤ length entries
    → cached_entry key (drop_oldest n (entries ++ ((key, v) ∷ []))) ≡ some v
unfolding drop_oldest cached_entry
cached_entry-drop_oldest key v zero [] h le =
    let here : (key == key) ≡ true = (eq_iff key key).1 refl in rw here refl
cached_entry-drop_oldest key v zero ((k, w) ∷ entries) (h, hs) le =
    rw h (cached_entry-drop_oldest key v zero entries hs (omega arith))
cached_entry-drop_oldest key v (suc n) [] h le = absurd (omega arith)
cached_entry-drop_oldest key v (suc n) ((k, w) ∷ entries) (h, hs) le =
    cached_entry-drop_oldest key v n entries hs (omega arith)

-- Every entry is a completion that its key stands for, and there are not too many.
abbrev pub IsSoundStore : (String → Type 0) → Entries → Type 0
IsSoundStore Means entries =
    All (λ e. (e.1.completed ≡ true) × Means e.0) entries × (length entries ≤ max_entries)

set_entry-IsSoundStore :
    (Means : String → Type 0) (key : String) (v : Verdict) (entries : Entries)
    → IsSoundStore Means entries
    → v.completed ≡ true
    → Means key
    → IsSoundStore Means (set_entry key v entries)
unfolding set_entry
set_entry-IsSoundStore Means key v entries (h, few) done k =
    let set = delete_entry key entries ++ ((key, v) ∷ []) in
    let count = length-drop_oldest (length set - max_entries) set in
    (
      drop_oldest-All (λ e. (e.1.completed ≡ true) × Means e.0) (length set - max_entries) set
          (All-append (λ e. (e.1.completed ≡ true) × Means e.0) (delete_entry key entries)
            ((key, v) ∷ [])
            (delete_entry-All (λ e. (e.1.completed ≡ true) × Means e.0) key entries h)
            ((done, k), tt)),
      omega arith,
    )

cached_entry-set_entry :
    (key : String) (v : Verdict) (entries : Entries)
    → cached_entry key (set_entry key v entries) ≡ some v
unfolding set_entry
cached_entry-set_entry key v entries =
    let rest = delete_entry key entries in
    let count = length-append rest ((key, v) ∷ []) in
    cached_entry-drop_oldest key v (length (rest ++ ((key, v) ∷ [])) - max_entries) rest
      (delete_entry_gone key entries) (omega arith)

-- From a store of at most 50000 completions that their keys stand for, the driver in memory answers
-- with such a completion of the key or with none, a write of another one keeps the store so, and a
-- read of its key gives it back.
pub memory_cache_driver-Keeps :
    (Means : String → Type 0) (key : String) (v : Verdict) (entries : Entries)
    → IsSoundStore Means entries
    → v.completed ≡ true
    → Means key
    → Gives
        (λ hit. (w : Verdict) → hit ≡ some w → (w.completed ≡ true) × Means key)
        (IsSoundStore Means)
        (memory_cache_driver.get key entries)
      × IsSoundStore Means (memory_cache_driver.set key v entries).1
      × ((memory_cache_driver.get key (memory_cache_driver.set key v entries).1).0 ≡ ok (some v))
unfolding memory_cache_driver
memory_cache_driver-Keeps Means key v entries sound done k = (
  (
    (λ w e. cached_entry-All (λ x. (x.1.completed ≡ true) × Means x.0) key entries w sound.0 e),
    sound,
  ),
  set_entry-IsSoundStore Means key v entries sound done k,
  ap ok (cached_entry-set_entry key v entries),
)
