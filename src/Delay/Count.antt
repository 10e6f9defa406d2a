-- ===== src/Delay/Count.antt =====
-- How often the loops of Delay run.
use fw_bootloader.Common.{ℕ, zero, suc, ◌≡◌, ◌∙◌, [], ◌∷◌, replicate}
use fw_bootloader.Hal.{nop, Port}
use fw_bootloader.Hal.Poll.{after, after-after, after-nil}
use fw_bootloader.Delay.{nops}

pub nops_lem : (t : ℕ) (s : Port) → (nops t s).1 ≡ after s (replicate t nop)
unfolding nops
nops_lem zero s = after-nil s
nops_lem (suc t) s = nops_lem t (after s (nop ∷ [])) ∙ after-after s (nop ∷ []) (replicate t nop)
