-- ===== src/Host/Serial/Heads.antt =====
-- The search of the port for the head of a packet.
use fw_bootloader.Common.{
  ℕ, ◌≤◌, ◌≡◌, refl, ap, sym, ◌∙◌, List, [], ◌∷◌, ◌++◌, length, true, false, ◌&&◌, ◌==◌, Bool-cases,
  inl, inr, append-nil, arith,
}
use fw_bootloader.Host.Serial.{remove_until_find_head}

module _ (x y z : ℕ) (buf : List ℕ) where
  pub remove_at :
      (x == 0xAA && y == 0x55) ≡ true → remove_until_find_head (x ∷ y ∷ z ∷ buf) ≡ x ∷ y ∷ z ∷ buf
  unfolding remove_until_find_head
  remove_at t = rw t refl

  pub remove_next :
      (x == 0xAA && y == 0x55) ≡ false
      → remove_until_find_head (x ∷ y ∷ z ∷ buf) ≡ remove_until_find_head (y ∷ z ∷ buf)
  unfolding remove_until_find_head
  remove_next t = rw t refl

-- Two bytes are too few for a head.
remove_short : (buf : List ℕ) → length buf ≤ 2 → remove_until_find_head buf ≡ buf
unfolding remove_until_find_head
remove_short [] h = refl
remove_short (x ∷ []) h = refl
remove_short (x ∷ y ∷ []) h = refl
remove_short (x ∷ y ∷ z ∷ buf) h = absurd (omega arith)

-- What has been removed would be removed again.
pub remove-append :
    (buf more : List ℕ)
    → remove_until_find_head (buf ++ more)
      ≡ remove_until_find_head (remove_until_find_head buf ++ more)
remove-append [] more =
    ap (λ b. remove_until_find_head (b ++ more)) (sym (remove_short [] (omega arith)))
remove-append (x ∷ []) more =
    ap (λ b. remove_until_find_head (b ++ more)) (sym (remove_short (x ∷ []) (omega arith)))
remove-append (x ∷ y ∷ []) more =
    ap (λ b. remove_until_find_head (b ++ more)) (sym (remove_short (x ∷ y ∷ []) (omega arith)))
remove-append (x ∷ y ∷ z ∷ buf) more = elim (Bool-cases (x == 0xAA && y == 0x55)) [
  | inl t ↦ ap (λ b. remove_until_find_head (b ++ more)) (sym (remove_at x y z buf t))
  | inr t ↦
      remove_next x y z (buf ++ more) t
      ∙ remove-append (y ∷ z ∷ buf) more
      ∙ ap (λ b. remove_until_find_head (b ++ more)) (sym (remove_next x y z buf t))
]

pub length-remove : (buf : List ℕ) → length (remove_until_find_head buf) ≤ length buf
length-remove [] = rw (remove_short [] (omega arith)) (omega arith)
length-remove (x ∷ []) = rw (remove_short (x ∷ []) (omega arith)) (omega arith)
length-remove (x ∷ y ∷ []) = rw (remove_short (x ∷ y ∷ []) (omega arith)) (omega arith)
length-remove (x ∷ y ∷ z ∷ buf) = elim (Bool-cases (x == 0xAA && y == 0x55)) [
  | inl t ↦ rw (remove_at x y z buf t) (omega arith)
  | inr t ↦ rw (remove_next x y z buf t) (omega (arith, length-remove (y ∷ z ∷ buf)))
]

pub remove_twice :
    (left : List ℕ)
    → remove_until_find_head (remove_until_find_head left) ≡ remove_until_find_head left
remove_twice left =
    sym (rw (append-nil left, append-nil (remove_until_find_head left)) at (remove-append left []))
