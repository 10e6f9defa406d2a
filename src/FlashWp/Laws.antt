-- ===== src/FlashWp/Laws.antt =====
-- Which entry of the table is chosen.
use fw_bootloader.Common.{
  ℕ, ◌*◌, ◌^◌, ◌<◌, ◌≡◌, ◌≢◌, ◌⊎◌, inl, inr, refl, List, [], ◌∷◌, false, Bool-cases, Option, none,
  some, ◌==◌, arith, All,
}
use fw_bootloader.FlashWp.{FlashWpArg, wp, find_wp, flash_set_wp}

-- An entry of the table.
pub data Entry (a : FlashWpArg) : List FlashWpArg → Type 0 where
  here : {args : List FlashWpArg} → Entry a (a ∷ args)
  there : {b : FlashWpArg} {args : List FlashWpArg} → Entry a args → Entry a (b ∷ args)

other : {flash_id : ℕ} (id : ℕ) → (flash_id == id) ≡ false → id ≢ flash_id
other id t e = ground arith

-- What was found before stays, no entry having the id, or an entry with the id is found.
find_wp_lem :
    (args : List FlashWpArg) (flash_id : ℕ) (p : Option FlashWpArg)
    → ((find_wp args flash_id p ≡ p) × All (λ a. a.id ≢ flash_id) args)
      ⊎ ((a : FlashWpArg) × (find_wp args flash_id p ≡ some a) × (a.id ≡ flash_id) × Entry a args)
find_wp_lem [] flash_id p = inl (refl, tt)
find_wp_lem (arg ∷ args) flash_id p = elim (Bool-cases (flash_id == arg.id)) [
  | inl t ↦ rw t (elim (find_wp_lem args flash_id (some arg)) [
    | inl (e, rest) ↦ inr (arg, e, ground arith, here)
    | inr (a, e, i, m) ↦ inr (a, e, i, there m)
  ])
  | inr t ↦ rw t (elim (find_wp_lem args flash_id p) [
    | inl (e, rest) ↦ inl (e, (other arg.id t, rest))
    | inr (a, e, i, m) ↦ inr (a, e, i, there m)
  ])
]

-- For an address below 2 ^ 22, in kilobytes, `flash_set_wp` hands on the address in bytes, and an entry
-- of the table with the id of the flash, or NULL when no entry has that id.
pub flash_set_wp_lem :
    (flash_id addr : ℕ)
    → addr < 2 ^ 22
    → ((flash_set_wp flash_id addr).0 ≡ addr * 1024)
      × ((((flash_set_wp flash_id addr).1 ≡ none) × All (λ a. a.id ≢ flash_id) wp)
          ⊎ ((a : FlashWpArg) × ((flash_set_wp flash_id addr).1 ≡ some a)
              × (a.id ≡ flash_id)
              × Entry a wp))
unfolding flash_set_wp
flash_set_wp_lem flash_id addr h = (omega arith, find_wp_lem wp flash_id none)
