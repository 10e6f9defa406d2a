-- ===== src/Hal/Poll.antt =====
-- How long the waits of Hal last.
use fw_bootloader.Common.{
  ℕ, zero, suc, ◌≡◌, ◌≤◌, ◌<◌, ◌∙◌, subst, refl, sym, ap, List, [], ◌++◌, true, ◌==◌, inl, inr,
  Bool-cases, bit_and, replicate, arith, append_assoc, append-nil,
}
use fw_bootloader.Hal.{Sfr, Access, read_sfr, Port, any, poll_down, poll}

-- `s` after accesses `more`, its variables as they are.
abbrev pub after : Port → List Access → Port
after s more = record s { accesses = s.accesses ++ more }

pub after-after : (s : Port) (xs ys : List Access) → after (after s xs) ys ≡ after s (xs ++ ys)
after-after s xs ys = ap (λ l. record s { accesses = l }) (append_assoc s.accesses xs ys)

pub after-nil : (s : Port) → s ≡ after s []
after-nil s = ap (λ l. record s { accesses = l }) (sym (append-nil s.accesses))

abbrev pub reads : ℕ → Sfr → List Access
reads k r = replicate k (read_sfr r)

-- The countdown reads its register at least once and at most once more than its count.
pub poll_down_lem :
    (r : Sfr) (m n : ℕ) (s : Port)
    → (k : ℕ) × (k ≤ n) × ((poll_down r m n s).1 ≡ after s (reads (suc k) r))
unfolding poll_down
poll_down_lem r m zero s = (0, omega arith, refl)
poll_down_lem r m (suc n) s =
    elim (Bool-cases (bit_and (s.answer (read_sfr r) s.accesses) m == 0)) [
      | inl t ↦ rw t (
          let (k, le, e) = poll_down_lem r m n (after s (reads 1 r)) in
          (suc k, omega arith, e ∙ after-after s (reads 1 r) (reads (suc k) r)))
      | inr t ↦ rw t (0, omega arith, refl)
    ]

-- When the bit is seen set in a round, the wait ends within the rounds up to that one.
pub poll_ends :
    (r : Sfr) (m k n : ℕ) (s : Port)
    → k < n
    → any (s.answer (read_sfr r) (s.accesses ++ reads k r)) m ≡ true
    → (poll r m n s).0 ≡ true
unfolding poll
poll_ends r m k zero s lt h = absurd (omega arith)
poll_ends r m zero (suc n) s lt h =
    rw (subst (λ l. any (s.answer (read_sfr r) l) m ≡ true) (append-nil s.accesses) h) refl
poll_ends r m (suc k) (suc n) s lt h =
    elim (Bool-cases (any (s.answer (read_sfr r) s.accesses) m)) [
      | inl t ↦ rw t refl
      | inr t ↦ rw t (
          poll_ends r m k n (after s (reads 1 r)) (omega arith) (
            subst (λ l. any (s.answer (read_sfr r) l) m ≡ true)
              (sym (append_assoc s.accesses (reads 1 r) (reads k r))) h))
    ]
