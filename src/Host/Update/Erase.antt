-- ===== src/Host/Update/Erase.antt =====
-- `eraseFlash` on a length that is neither a page nor whole sectors.
use fw_bootloader.Common.{
  ℕ, zero, suc, ◌+◌, ◌-◌, ◌%◌, ◌^◌, ◌≡◌, ◌≢◌, refl, ◌<◌, List, Option, false, Bool-cases, inl, inr,
  ◌==◌, ==_iff, u32, arith, sym, ◌∙◌,
}
use fw_bootloader.Host.Update.Thread.{
  Outcome, faulted, running, failed, done, go_on, Host, ◌>>◌, out_of_rounds, go_on-eq-done,
}
use fw_bootloader.Host.Update.{do_erase_flash, erase_sectors, erase_flash}

module _ {D : Type 0} (answer : List ℕ → D → Option (List ℕ) × D) (key : ℕ) where
  pub erase_sectors_next :
      (rounds address len : ℕ) (d : D)
      → (len == 0) ≡ false
      → erase_sectors answer key (suc rounds) address len d
        ≡ go_on (do_erase_flash answer key address 4096 d) (λ a.
          erase_sectors answer key rounds (u32 (address + 4096)) (u32 (len + 2 ^ 32 - 4096)))
  unfolding erase_sectors
  erase_sectors_next rounds address len d t = rw (t, erase_sectors) refl

  -- Sectors that are erased one after the other until an erase fails, wrapping around at 2 ^ 32: the loop has
  -- no end of its own, and only the rounds run out.
  pub erase_on : ℕ → ℕ → Host D (Unit {0})
  erase_on zero address = out_of_rounds
  erase_on (suc rounds) address = do
    do_erase_flash answer key address 4096
    erase_on rounds (u32 (address + 4096))

  go_on-same :
      (r : Outcome D (Unit {0})) (f g : Unit {0} → Host D (Unit {0}))
      → ((a : Unit {0}) (d : D) → f a d ≡ g a d)
      → go_on r f ≡ go_on r g
  go_on-same faulted f g same = refl
  go_on-same running f g same = refl
  go_on-same (failed d) f g same = refl
  go_on-same (done a d) f g same = same a d

  erase_on_next :
      (n address : ℕ) (d : D)
      → go_on (do_erase_flash answer key address 4096 d) (λ a. erase_on n (u32 (address + 4096)))
        ≡ erase_on (suc n) address d
  unfolding erase_on
  erase_on_next n address d = refl

  erase_sectors-on :
      (rounds address len : ℕ) (d : D)
      → len < 2 ^ 32
      → len % 4096 ≢ 0
      → erase_sectors answer key rounds address len d ≡ erase_on rounds address d
  erase_sectors-on zero address len d small part = unfold erase_sectors in (unfold erase_on in refl)
  erase_sectors-on (suc rounds) address len d small part =
      let some_left : (len == 0) ≡ false = elim (Bool-cases (len == 0)) [
        | inl t ↦ absurd (part (let none_left : len ≡ 0 = (==_iff len 0).0 t in omega arith))
        | inr t ↦ t
      ] in
      let later : u32 (len + 2 ^ 32 - 4096) % 4096 ≡ len % 4096 = omega arith in
      erase_sectors_next rounds address len d some_left
      ∙ go_on-same (do_erase_flash answer key address 4096 d) _
          (λ a. erase_on rounds (u32 (address + 4096)))
          (λ a d'.
            erase_sectors-on rounds (u32 (address + 4096)) (u32 (len + 2 ^ 32 - 4096)) d'
              (omega arith) (λ whole. part (sym later ∙ whole)))
      ∙ erase_on_next rounds address d

  erase_on-not_done :
      (rounds address : ℕ) (d : D) (a : Unit {0}) (d' : D) → erase_on rounds address d ≢ done a d'
  unfolding erase_on
  erase_on-not_done zero address d a d' e = cc
  erase_on-not_done (suc rounds) address d a d' e =
      let (b, d1, erased, more) = go_on-eq-done (do_erase_flash answer key address 4096 d) _ e in
      erase_on-not_done rounds (u32 (address + 4096)) d1 a d' more

  -- On a length below 2 ^ 32 that is neither 256 nor a multiple of 4096, `eraseFlash` erases one sector of
  -- 4096 bytes after the other from the address on, around the end of the 32-bit addresses and without an
  -- end of its own: within any number of rounds it is the loop that stops only where an erase fails. It
  -- never returns true.
  pub erase_flash_endless :
      (rounds address len : ℕ) (d : D)
      → len < 2 ^ 32
      → len ≢ 256
      → len % 4096 ≢ 0
      → (erase_flash answer key rounds address len d ≡ erase_on rounds address d)
        × ((a : Unit {0}) (d' : D) → erase_flash answer key rounds address len d ≢ done a d')
  unfolding erase_flash
  erase_flash_endless rounds address len d small page part =
      let on : erase_flash answer key rounds address len d ≡ erase_on rounds address d =
        elim (Bool-cases (len == 256)) [
          | inl t ↦ absurd (page ((==_iff len 256).0 t))
          | inr t ↦ rw t (erase_sectors-on rounds address len d small part)
        ] in
      (on, λ a d' e. erase_on-not_done rounds address d a d' (sym on ∙ e))
