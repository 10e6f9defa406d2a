-- ===== src/Magic/Laws.antt =====
-- The upgrade flag is taken at most once, and the success flag is not taken for it.
use fw_bootloader.Common.{
  ℕ, ◌≤◌, ◌≡◌, ◌≢◌, refl, subst, ◌⊎◌, inl, inr, List, [], ◌∷◌, ◌++◌, true, false, ==_refl,
  Bool-cases, length, take, drop, replicate, arith, length-take, take-append-drop,
}
use fw_bootloader.Common.Memory.{Result, ok, slice-append, splice-append, splice_front}
use fw_bootloader.Magic.{
  uart_upgrade_mode_magic, uart_upgrade_succ_magic, same_bytes, uboot_check_upgrade_magic,
  uboot_set_uart_upgrade_succ,
}

same_bytes_refl : (xs : List ℕ) → same_bytes xs xs ≡ true
unfolding same_bytes
same_bytes_refl [] = refl
same_bytes_refl (x ∷ xs) = rw (==_refl, same_bytes_refl xs)

same_bytes-eq : (xs ys : List ℕ) → same_bytes xs ys ≡ true → xs ≡ ys
unfolding same_bytes
same_bytes-eq [] [] h = refl
same_bytes-eq [] (y ∷ ys) h = cc
same_bytes-eq (x ∷ xs) [] h = cc
same_bytes-eq (x ∷ xs) (y ∷ ys) h = ground (arith, same_bytes-eq xs ys)

same_bytes-ne : {xs ys : List ℕ} → same_bytes xs ys ≡ false → xs ≢ ys
same_bytes-ne {xs} {ys} t e = let s : same_bytes xs ys ≡ true = rw e (same_bytes_refl ys) in cc

-- The flag is seen exactly when the first eight bytes are the magic; then they are set to 0, and
-- otherwise nothing changes.
pub uboot_check_upgrade_magic_lem :
    (block rest : List ℕ)
    → length block ≡ 8
    → ((block ≡ uart_upgrade_mode_magic)
        × (uboot_check_upgrade_magic (block ++ rest) ≡ ok (1, replicate 8 0 ++ rest)))
      ⊎ ((block ≢ uart_upgrade_mode_magic)
          × (uboot_check_upgrade_magic (block ++ rest) ≡ ok (0, block ++ rest)))
unfolding uboot_check_upgrade_magic
uboot_check_upgrade_magic_lem block rest size =
    elim (Bool-cases (same_bytes block uart_upgrade_mode_magic)) [
      | inl t ↦ inl (
        same_bytes-eq block _ t,
        rw (
          slice-append block rest 8 (omega arith),
          t,
          splice-append [] block rest (replicate 8 0) 0 refl size,
        ),
      )
      | inr t ↦ inr (same_bytes-ne t, rw (slice-append block rest 8 (omega arith), t))
    ]

-- A block that is not the magic is left alone.
no_magic :
    (block rest : List ℕ)
    → length block ≡ 8
    → same_bytes block uart_upgrade_mode_magic ≡ false
    → uboot_check_upgrade_magic (block ++ rest) ≡ ok (0, block ++ rest)
unfolding uboot_check_upgrade_magic
no_magic block rest size t = rw (slice-append block rest 8 (omega arith), t)

same_after :
    (m : Result (ℕ × List ℕ)) {r r' : ℕ} {x y : List ℕ} → m ≡ ok (r, x) → m ≡ ok (r', y) → y ≡ x
same_after m e f = cc

checked_again :
    (block rest : List ℕ) (r : ℕ) (after : List ℕ)
    → length block ≡ 8
    → uboot_check_upgrade_magic (block ++ rest) ≡ ok (r, after)
    → uboot_check_upgrade_magic after ≡ ok (0, after)
checked_again block rest r after size h = elim (uboot_check_upgrade_magic_lem block rest size) [
  | inl (e, taken) ↦
      subst (λ l. uboot_check_upgrade_magic l ≡ ok (0, l))
        (same_after (uboot_check_upgrade_magic (block ++ rest)) h taken)
        (no_magic (replicate 8 0) rest refl (unfold same_bytes in refl))
  | inr (ne, kept) ↦
      subst (λ l. uboot_check_upgrade_magic l ≡ ok (0, l))
        (same_after (uboot_check_upgrade_magic (block ++ rest)) h kept) kept
]

-- The upgrade flag is taken at most once: whatever the first check of a memory of at least eight
-- bytes returns, a second check of the memory that it leaves returns 0 and changes nothing.
pub uboot_check_upgrade_magic_once :
    (nvram after : List ℕ) (r : ℕ)
    → 8 ≤ length nvram
    → uboot_check_upgrade_magic nvram ≡ ok (r, after)
    → uboot_check_upgrade_magic after ≡ ok (0, after)
uboot_check_upgrade_magic_once nvram after r room h =
    checked_again (take 8 nvram) (drop 8 nvram) r after (omega (arith, length-take 8 nvram))
      (rw (take-append-drop 8 nvram) h)

-- On a memory of at least eight bytes the success flag is set without a fault, and is never taken
-- for the upgrade flag.
pub uboot_set_uart_upgrade_succ_lem :
    (nvram : List ℕ)
    → 8 ≤ length nvram
    → (after : List ℕ) × (uboot_set_uart_upgrade_succ nvram ≡ ok after)
      × (uboot_check_upgrade_magic after ≡ ok (0, after))
unfolding uboot_set_uart_upgrade_succ
uboot_set_uart_upgrade_succ_lem nvram room = (
  uart_upgrade_succ_magic ++ drop 8 nvram,
  splice_front nvram uart_upgrade_succ_magic room,
  no_magic uart_upgrade_succ_magic (drop 8 nvram) refl (unfold same_bytes in refl),
)
