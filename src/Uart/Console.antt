-- ===== src/Uart/Console.antt =====
-- Output on a UART: `putchar` never waits without end, and a packet is sent once the UART is idle.
use fw_bootloader.Common.{
  ℕ, suc, ◌≡◌, ◌≤◌, ◌<◌, ◌∙◌, refl, sym, subst, ap, List, [], ◌∷◌, ◌++◌, true, false, ◌⊎◌, inl, inr,
  Bool-cases, bit_or, arith, append_assoc,
}
use fw_bootloader.Hal.{
  Sfr, ut_con0, ut_txadr, ut_txcnt, Access, read_sfr, write_sfr, csync, Port, bit, any, turn_on,
  set, access,
}
use fw_bootloader.Hal.Poll.{after, reads, after-after, poll_down_lem, poll_ends}
use fw_bootloader.Uart.{putchar_on, tx_data_on}

module _ (con buf : Sfr) (a : ℕ) where
  -- One character, after at most 65538 reads of the control register.
  abbrev pub Printed : Port → Port → Type 0
  Printed s s' =
      (k : ℕ) × (v : ℕ) × (k ≤ 65538)
      × (s'
          ≡ after s (
              reads k con
              ++ (read_sfr con ∷ write_sfr con (bit_or v (bit 13)) ∷ write_sfr buf a ∷ csync ∷ [])))

  print_after :
      (s t : Port) (k : ℕ)
      → k ≤ 65538
      → t ≡ after s (reads k con)
      → Printed s (access csync (set buf a (turn_on con (bit 13) t).1).1).1
  print_after s t k le e =
      subst (λ t. Printed s (access csync (set buf a (turn_on con (bit 13) t).1).1).1) (sym e)
        (
          k,
          s.answer (read_sfr con) (s.accesses ++ reads k con),
          le,
          ap (λ l. record s { accesses = l }) (simp (append_assoc)),
        )

  pub putchar_on_lem :
      (s : Port)
      → ((any (s.answer (read_sfr con) s.accesses) (bit 0) ≡ true)
          × Printed s (putchar_on con buf a s).1)
        ⊎ ((any (s.answer (read_sfr con) s.accesses) (bit 0) ≡ false)
            × ((putchar_on con buf a s).1 ≡ after s (reads 1 con)))
  unfolding putchar_on
  putchar_on_lem s = elim (Bool-cases (any (s.answer (read_sfr con) s.accesses) (bit 0))) [
    | inl t ↦ rw t (
        let (k, le, e) = poll_down_lem con (bit 15) 65536 (after s (reads 1 con)) in
        inl (
          refl,
          print_after s _ (suc (suc k)) (omega arith)
              (e ∙ after-after s (reads 1 con) (reads (suc k) con)),
        ))
    | inr t ↦ rw t (inr (refl, refl))
  ]

abbrev pub tx_started : ℕ → ℕ → ℕ → List Access
tx_started n buf len = write_sfr (ut_txadr n) buf ∷ write_sfr (ut_txcnt n) len ∷ csync ∷ []

pub tx_data_on_ends :
    (n rounds buf len k : ℕ) (s : Port)
    → k < rounds
    → any
        (s.answer
          (read_sfr (ut_con0 n))
          ((s.accesses ++ tx_started n buf len) ++ reads k (ut_con0 n)))
        (bit 15)
      ≡ true
    → (tx_data_on n rounds buf len s).0 ≡ true
unfolding tx_data_on
tx_data_on_ends n rounds buf len k s lt h =
    poll_ends (ut_con0 n) (bit 15) k rounds
      (after (after (after s (write_sfr (ut_txadr n) buf ∷ [])) (write_sfr (ut_txcnt n) len ∷ []))
        (csync ∷ []))
      lt
      (subst (λ l. any (s.answer (read_sfr (ut_con0 n)) (l ++ reads k (ut_con0 n))) (bit 15) ≡ true)
        regroup h)
  where
    regroup :
        s.accesses ++ tx_started n buf len
        ≡ ((s.accesses ++ write_sfr (ut_txadr n) buf ∷ []) ++ write_sfr (ut_txcnt n) len ∷ [])
          ++ csync ∷ []
    regroup = simp (append_assoc)
