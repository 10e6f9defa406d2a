-- ===== src/Uart/Interrupt.antt =====
-- The interrupt of the upgrade's UART: what it takes and how it leaves the receiver.
use fw_bootloader.Common.{
  ℕ, ◌+◌, ◌≡◌, refl, List, [], ◌∷◌, ◌++◌, Bool, true, false, ◌&&◌, ◌⊎◌, inl, inr, if◌then◌else◌,
  Bool-cases, leb, u32, append_assoc,
}
use fw_bootloader.Hal.{
  ut_con0, ut_hrxcnt, ut_rxsadr, ut_rxeadr, ut_rxcnt, Access, read_sfr, write_sfr, Port, bit, any,
}
use fw_bootloader.Hal.Poll.{after, after-after}
use fw_bootloader.Uart.{Board, ut_up_buf_size, ack_rx, store_rx, irq_on}

module _ (board : Board) (n : ℕ) where
  -- The interrupt is that of a reception: BIT(5) in the first read of CON0, BIT(11) in the second.
  abbrev pub pending : Port → Bool
  pending s =
      any (s.answer (read_sfr (ut_con0 n)) s.accesses) (bit 5)
      && any (s.answer (read_sfr (ut_con0 n)) (s.accesses ++ read_sfr (ut_con0 n) ∷ [])) (bit 11)

  -- The buffer is set up for the next reception.
  abbrev pub armed : List Access
  armed =
      write_sfr (ut_rxsadr n) board.ut_up_buf
      ∷ write_sfr (ut_rxeadr n) (u32 (board.ut_up_buf + ut_up_buf_size))
      ∷ write_sfr (ut_rxcnt n) ut_up_buf_size
      ∷ []

  -- A reception was taken: its length is what HRXCNT then read, the flag is raised when it is at least
  -- 4 and is left otherwise, and the last that was done is to set up the buffer.
  abbrev pub Taken : Port → Port → Type 0
  Taken s s' =
      (before : List Access) × (s'.ut_up_rxlen ≡ s.answer (read_sfr (ut_hrxcnt n)) before)
      × (s'.new_data ≡ (if leb 4 s'.ut_up_rxlen then 1 else s.new_data))
      × (s'.accesses ≡ before ++ (read_sfr (ut_hrxcnt n) ∷ armed))

  -- Nothing was done but to read CON0.
  abbrev pub Passed : Port → Port → Type 0
  Passed s s' =
      (s' ≡ after s (read_sfr (ut_con0 n) ∷ []))
      ⊎ (s' ≡ after s (read_sfr (ut_con0 n) ∷ read_sfr (ut_con0 n) ∷ []))

  then_armed :
      (xs : List Access)
      → (((xs ++ read_sfr (ut_hrxcnt n) ∷ []) ++ write_sfr (ut_rxsadr n) board.ut_up_buf ∷ [])
            ++ write_sfr (ut_rxeadr n) (u32 (board.ut_up_buf + ut_up_buf_size)) ∷ [])
          ++ write_sfr (ut_rxcnt n) ut_up_buf_size ∷ []
        ≡ xs ++ (read_sfr (ut_hrxcnt n) ∷ armed)
  then_armed xs = simp (append_assoc)

  store_rx_lem : (s : Port) → Taken s (store_rx board n s).1
  unfolding store_rx
  store_rx_lem s = elim (Bool-cases (leb 4 (s.answer (read_sfr (ut_hrxcnt n)) s.accesses))) [
    | inl t ↦ rw t (s.accesses, refl, rw t refl, then_armed s.accesses)
    | inr t ↦ rw t (s.accesses, refl, rw t refl, then_armed s.accesses)
  ]

  ack_store_lem : (s : Port) → Taken s (store_rx board n (ack_rx board n s).1).1
  unfolding ack_rx
  ack_store_lem s = store_rx_lem (ack_rx board n s).1

  pub irq_on_lem :
      (s : Port)
      → ((pending s ≡ true) × Taken s (irq_on board n s).1)
        ⊎ ((pending s ≡ false) × Passed s (irq_on board n s).1)
  unfolding irq_on
  irq_on_lem s = elim (Bool-cases (any (s.answer (read_sfr (ut_con0 n)) s.accesses) (bit 5))) [
    | inl t ↦
        rw t
          (elim (Bool-cases (
            any (s.answer (read_sfr (ut_con0 n)) (s.accesses ++ read_sfr (ut_con0 n) ∷ []))
              (bit 11))) [
                | inl t' ↦ rw t' (
                    inl (
                      refl,
                      ack_store_lem
                          (after (after s (read_sfr (ut_con0 n) ∷ [])) (read_sfr (ut_con0 n) ∷ [])),
                    ))
                | inr t' ↦ rw t' (
                    inr (
                      refl,
                      inr (after-after s (read_sfr (ut_con0 n) ∷ []) (read_sfr (ut_con0 n) ∷ [])),
                    ))
              ])
    | inr t ↦ rw t (inr (refl, inl refl))
  ]
