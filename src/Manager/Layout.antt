-- ===== src/Manager/Layout.antt =====
-- The order that addr::Manager of src/driver.h keeps the items of a context in.
use ventus_driver.Common.{
  ℕ, zero, suc, ◌+◌, ◌-◌, ◌*◌, ◌/◌, ◌%◌, ◌^◌, ◌≤◌, ◌<◌, ◌≡◌, refl, ◌⊎◌, List, [], ◌∷◌, some, arith,
  u64, All, get_elem?, insert_at, drop, ap, ◌∙◌,
}
use ventus_driver.Common.Bits.{bit_and_shift, bit_and_ones}
use ventus_driver.Manager.{
  Item, aligned_size, behind, ro_data_base, rw_data_base, buf_para_base, segment_room,
}

abbrev pub stop : Item → ℕ
stop it = it.vaddr + it.size

-- A buffer of whole blocks on a page, inside one segment.
pub record IsItem (it : Item) : Type 0 where
  pub aligned : it.vaddr % 4096 ≡ 0
  pub positive : 0 < it.size
  pub low : ro_data_base ≤ it.vaddr
  pub apart_rw : (stop it ≤ rw_data_base) ⊎ (rw_data_base ≤ it.vaddr)
  pub apart_para : (stop it ≤ buf_para_base) ⊎ (buf_para_base ≤ it.vaddr)
  pub high : stop it ≤ buf_para_base + segment_room

-- The items stand in ascending order and do not overlap.
abbrev pub Spaced : ℕ → List Item → Type 0
Spaced lo [] = Unit {0}
Spaced lo (it ∷ items) = (lo ≤ it.vaddr) × IsItem it × Spaced (stop it) items

pub aligned_size_block : (n : ℕ) → n < 2 ^ 63 → aligned_size n 64 ≡ (n + 63) / 64 * 64
unfolding aligned_size
aligned_size_block n h =
    bit_and_shift 6 (u64 (n + 64 - 1)) (2 ^ 58 - 1)
    ∙ ap (λ (x : ℕ). x * 64) (bit_and_ones 58 (u64 (n + 64 - 1) / 64))
    ∙ omega arith

pub aligned_size_page : (n : ℕ) → n < 2 ^ 63 → aligned_size n 4096 ≡ (n + 4095) / 4096 * 4096
unfolding aligned_size
aligned_size_page n h =
    bit_and_shift 12 (u64 (n + 4096 - 1)) (2 ^ 52 - 1)
    ∙ ap (λ (x : ℕ). x * 4096) (bit_and_ones 52 (u64 (n + 4096 - 1) / 4096))
    ∙ omega arith

-- The first page behind an item.
pub behind_lem : (it : Item) → IsItem it → behind it ≡ (stop it + 4095) / 4096 * 4096
unfolding behind
behind_lem it h =
    let whole : u64 (it.vaddr + it.size) ≡ stop it = omega (arith, h.high) in
    ap (λ n. aligned_size n 4096) whole ∙ aligned_size_page (stop it) (omega (arith, h.high))

pub Spaced-All : (lo : ℕ) (items : List Item) → Spaced lo items → All IsItem items
Spaced-All lo [] s = tt
Spaced-All lo (it ∷ items) s = (s.1, Spaced-All (stop it) items s.2)

pub All-at {ℓ} :
    (P : Item → Type ℓ) (items : List Item) (k : ℕ) {r : Item}
    → All P items
    → get_elem? items k ≡ some r
    → P r
All-at P [] k a e = absurd (cc)
All-at P (it ∷ items) zero a e = ground (arith, a.0)
All-at P (it ∷ items) (suc k) a e = All-at P items k a.1 e

pub All-map {ℓ κ} :
    (P : Item → Type ℓ) (Q : Item → Type κ) (items : List Item)
    → ((it : Item) → P it → Q it)
    → All P items
    → All Q items
All-map P Q [] f a = tt
All-map P Q (it ∷ items) f a = (f it a.0, All-map P Q items f a.1)

pub All-drop {ℓ} :
    (P : Item → Type ℓ) (k : ℕ) (items : List Item) → All P items → All P (drop k items)
All-drop P zero items a = a
All-drop P (suc k) [] a = tt
All-drop P (suc k) (it ∷ items) a = All-drop P k items a.1

pub get_elem-drop :
    (k m : ℕ) (items : List Item) → get_elem? (drop k items) m ≡ get_elem? items (k + m)
get_elem-drop zero m items = ground arith
get_elem-drop (suc k) m [] = refl
get_elem-drop (suc k) m (it ∷ items) = get_elem-drop k m items ∙ ground arith

-- A new item in the gap behind an old one.
pub Spaced-insert_at :
    (lo : ℕ) (items : List Item) (k : ℕ) (new : Item) {r : Item}
    → Spaced lo items
    → get_elem? items k ≡ some r
    → stop r ≤ new.vaddr
    → IsItem new
    → ((s : Item) → get_elem? items (suc k) ≡ some s → stop new ≤ s.vaddr)
    → Spaced lo (insert_at (suc k) new items)
Spaced-insert_at lo [] k new s e h i f = absurd (cc)
Spaced-insert_at lo (it ∷ []) zero new s e h i f = (s.0, s.1, (ground (arith, h), i, tt))
Spaced-insert_at lo (it ∷ c ∷ items) zero new s e h i f =
    (s.0, s.1, (ground (arith, h), i, (f c refl, s.2.1, s.2.2)))
Spaced-insert_at lo (it ∷ items) (suc k) new s e h i f =
    (s.0, s.1, Spaced-insert_at (stop it) items k new s.2 e h i f)

-- Items further on stand higher.
pub next_above :
    (lo : ℕ) (items : List Item) (k : ℕ) {r s : Item}
    → Spaced lo items
    → get_elem? items k ≡ some r
    → get_elem? items (suc k) ≡ some s
    → stop r ≤ s.vaddr
next_above lo [] k a e f = absurd (cc)
next_above lo (it ∷ []) zero a e f = absurd (cc)
next_above lo (it ∷ []) (suc k) a e f = absurd (cc)
next_above lo (it ∷ c ∷ items) zero a e f = ground (arith, a.2.0)
next_above lo (it ∷ c ∷ items) (suc k) a e f = next_above (stop it) (c ∷ items) k a.2 e f

above_lo :
    (lo : ℕ) (items : List Item) (k : ℕ) {r : Item}
    → Spaced lo items
    → get_elem? items k ≡ some r
    → lo ≤ r.vaddr
above_lo lo [] k a e = absurd (cc)
above_lo lo (it ∷ items) zero a e = ground (arith, a.0)
above_lo lo (it ∷ items) (suc k) a e = omega (arith, a.0, above_lo (stop it) items k a.2 e)

pub later_above :
    (lo : ℕ) (items : List Item) (k j : ℕ) {r s : Item}
    → Spaced lo items
    → k ≤ j
    → get_elem? items k ≡ some r
    → get_elem? items j ≡ some s
    → r.vaddr ≤ s.vaddr
later_above lo [] k j a h e f = absurd (cc)
later_above lo (it ∷ items) zero zero a h e f = ground (arith, e, f)
later_above lo (it ∷ items) zero (suc j) a h e f = ground (arith, above_lo (stop it) items j a.2 f)
later_above lo (it ∷ items) (suc k) zero a h e f = absurd (omega arith)
later_above lo (it ∷ items) (suc k) (suc j) a h e f =
    later_above (stop it) items k j a.2 (omega arith) e f
