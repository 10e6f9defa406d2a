-- ===== src/Debug/Tests.antt =====
-- The report of a division by zero.
use fw_bootloader.Common.{◌≡◌, refl, [], ◌∷◌, ◌++◌, replicate}
use fw_bootloader.Common.Memory.{ok}
use fw_bootloader.Debug.{
  entered, reti, rets, ssp, usp, emu_con, emu_msg_value, chip_reset, exception_analyze,
}
use fw_bootloader.Debug.Laws.{numbered, causes, exception_analyze_lem}

exception_analyze_lem_example :
    exception_analyze (replicate 16 9 ++ (1 ∷ 2 ∷ 3 ∷ 4 ∷ 5 ∷ 6 ∷ 7 ∷ 8 ∷ [])) 1 (λ k. 4)
    ≡ ok (
        entered
        ∷ reti 1
        ∷ rets 4
        ∷ ssp 8
        ∷ usp 7
        ∷ (numbered 0 (replicate 16 9)
            ++ (emu_con 1 ∷ emu_msg_value 4 ∷ (causes (λ k. 4) 32 0 ++ chip_reset ∷ []))))
exception_analyze_lem_example =
    exception_analyze_lem (replicate 16 9) [] 1 2 3 4 5 6 7 8 1 (λ k. 4) refl
