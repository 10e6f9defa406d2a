-- ===== src/Usb/Config/Rates.antt =====
-- How often the start-of-frame interrupt logs, and when the device is suspended.
use fw_bootloader.Common.{
  ℕ, zero, suc, ◌+◌, ◌/◌, ◌-◌, ◌%◌, ◌^◌, ◌<◌, ◌≡◌, ◌∙◌, refl, List, [], ◌∷◌, ◌++◌, true, false,
  Bool-cases, inl, inr, ◌==◌, u16, u32, arith,
}
use fw_bootloader.Common.Memory.{ok}
use fw_bootloader.Usb.{Usb, UsbCall, log_frame, usb_sof_clr_pnd}
use fw_bootloader.Usb.Config.{usb_sof_isr, usb_suspend_check}
use fw_bootloader.Usb.Config.Tables.{Wired, Returns}

-- The interrupt `n` times.
abbrev pub sofs : ℕ → Usb → Usb
sofs zero u = u
sofs (suc n) u = sofs n (usb_sof_isr u)

-- The lines of the log.
abbrev pub logged : List UsbCall → ℕ
logged [] = 0
logged (log_frame ∷ cs) = suc (logged cs)
logged (c ∷ cs) = logged cs

logged-append : (cs ds : List UsbCall) → logged (cs ++ ds) ≡ logged cs + logged ds
logged-append [] ds = omega arith
logged-append (log_frame ∷ cs) ds = omega (arith, logged-append cs ds)
logged-append (c ∷ cs) ds = logged-append cs ds

counts_one :
    (lines c : ℕ)
    → (c % 1000 == 0) ≡ true
    → (lines + 0) + 1 ≡ lines + ((c + 1 + 999) / 1000 - (c + 999) / 1000)
counts_one lines c t = ground arith

counts_none :
    (lines c : ℕ)
    → (c % 1000 == 0) ≡ false
    → lines + 0 ≡ lines + ((c + 1 + 999) / 1000 - (c + 999) / 1000)
counts_none lines c t = ground arith

passes :
    (lines c n : ℕ) {total : ℕ}
    → total
      ≡ lines
        + ((c + 1 + 999) / 1000 - (c + 999) / 1000)
        + ((c + 1 + n + 999) / 1000 - (c + 1 + 999) / 1000)
    → total ≡ lines + ((c + suc n + 999) / 1000 - (c + 999) / 1000)
passes lines c n e = omega (arith, e)

-- One start of frame: the counter, and one line at each multiple of 1000.
usb_sof_isr-logged :
    (u : Usb)
    → u.sof_count < 2 ^ 32
    → ((usb_sof_isr u).sof_count ≡ u32 (u.sof_count + 1))
      × (logged (usb_sof_isr u).calls
          ≡ logged u.calls + ((u.sof_count + 1 + 999) / 1000 - (u.sof_count + 999) / 1000))
unfolding usb_sof_isr
usb_sof_isr-logged u small = elim (Bool-cases (u.sof_count % 1000 == 0)) [
  | inl t ↦ (
    rw t refl,
    rw
        (
          t,
          logged-append (u.calls ++ usb_sof_clr_pnd ∷ []) (log_frame ∷ []),
          logged-append u.calls (usb_sof_clr_pnd ∷ []),
        )
        (counts_one (logged u.calls) u.sof_count t),
  )
  | inr t ↦ (
    rw t refl,
    rw (t, logged-append u.calls (usb_sof_clr_pnd ∷ []))
        (counts_none (logged u.calls) u.sof_count t),
  )
]

-- While the counter does not wrap around, `n` starts of frame log one line for each multiple of 1000 that
-- the counter passes: the frame number is told once in 1000 frames.
pub sofs-logged :
    (n : ℕ) (u : Usb)
    → u.sof_count + n < 2 ^ 32
    → logged (sofs n u).calls
      ≡ logged u.calls + ((u.sof_count + n + 999) / 1000 - (u.sof_count + 999) / 1000)
sofs-logged zero u small = omega arith
sofs-logged (suc n) u small =
    let (count, lines) = usb_sof_isr-logged u (omega (arith, small)) in
    let step : (usb_sof_isr u).sof_count ≡ u.sof_count + 1 = omega (arith, count, small) in
    let rest = sofs-logged n (usb_sof_isr u) (rw step (omega (arith, small))) in
    passes (logged u.calls) u.sof_count n (rest ∙ rw (lines, step) refl)

-- Neither function touches the tables or the flag.
pub usb_sof_isr-Returns : (u : Usb) → Wired u → Returns u (ok (usb_sof_isr u))
unfolding usb_sof_isr
usb_sof_isr-Returns u wired = elim (Bool-cases (u.sof_count % 1000 == 0)) [
  | inl t ↦ (usb_sof_isr u, refl, rw t (wired, refl))
  | inr t ↦ (usb_sof_isr u, refl, rw t (wired, refl))
]

pub usb_suspend_check-Returns :
    (frame : ℕ) (u : Usb) → Wired u → Returns u (ok (usb_suspend_check frame u))
unfolding usb_suspend_check
usb_suspend_check-Returns frame u wired = elim (Bool-cases (u16 frame == u.sof_frame)) [
  | inl t ↦ (usb_suspend_check frame u, refl, rw t (wired, refl))
  | inr t ↦ (usb_suspend_check frame u, refl, rw t (wired, refl))
]
