-- ===== src/Chips/Wl82/Receive/Interrupt.antt =====
-- What the two interrupts of wl82 take, and how they leave the receive buffers.
use fw_bootloader.Common.{
  ℕ, ◌+◌, ◌≡◌, ◌<◌, ◌∙◌, refl, ap, List, [], ◌∷◌, Bool, true, false, ◌⊎◌, inl, inr, Bool-cases, ltb,
  leb, if◌then◌else◌, length, take, drop, arith, length-append, length-take, length-drop,
}
use fw_bootloader.Hal.{ut_con0, ut_hrxcnt, read_sfr, Access, Port, any, bits}
use fw_bootloader.Hal.Poll.{after}
use fw_bootloader.Uart.{ut_up_buf_size}
use fw_bootloader.Chips.Wl82.{Board82}
use fw_bootloader.Chips.Wl82.Receive.{
  UpUart, uart0, uart1, number, rxlen, bytes, ended_at, clear_sent, take_length, keep_received,
  uart_irq,
}

-- The buffer ends with a zero behind what was received, if there is room.
abbrev pub kept : ℕ → List ℕ → List ℕ
kept len b = if ltb len ut_up_buf_size then ended_at len b else b

ended-size :
    (len : ℕ) (b : List ℕ)
    → length b ≡ ut_up_buf_size
    → len < ut_up_buf_size
    → length (ended_at len b) ≡ ut_up_buf_size
ended-size len b size lt = omega (
  arith,
  size,
  lt,
  length-append (take len b) (0 ∷ drop (len + 1) b),
  length-take len b,
  length-drop (len + 1) b,
)

kept-size :
    (len : ℕ) (b : List ℕ) → length b ≡ ut_up_buf_size → length (kept len b) ≡ ut_up_buf_size
kept-size len b size = elim (Bool-cases (ltb len ut_up_buf_size)) [
  | inl t ↦ rw t (ended-size len b size (ground arith))
  | inr t ↦ rw t size
]

module _ (board : Board82) (u : UpUart) where
  -- What the second read of the control register gives.
  abbrev pub received : Port → Bool
  received s =
      let s1 = (clear_sent u s).1 in
      any (s1.answer (read_sfr (ut_con0 (number u))) s1.accesses) (bits (11 ∷ 15 ∷ []))

  -- A reception of `len` bytes, which is what the length register then read.
  abbrev pub Received : Port → Port → Type 0
  Received s s' =
      (before : List Access) × (rxlen u s' ≡ s.answer (read_sfr (ut_hrxcnt (number u))) before)
      × (s'.new_data ≡ (if leb 1 (rxlen u s') then 1 else s.new_data))
      × (bytes u s' ≡ kept (rxlen u s') (bytes u s))

  abbrev pub Unchanged : Port → Port → Type 0
  Unchanged s s' = (rxlen u s' ≡ rxlen u s) × (s'.new_data ≡ s.new_data) × (bytes u s' ≡ bytes u s)

-- The first part of the interrupt touches registers only.
clear_sent-Unchanged :
    (board : Board82) (u : UpUart) (s : Port)
    → Unchanged board u s (clear_sent u s).1 × ((clear_sent u s).1.answer ≡ s.answer)
unfolding clear_sent
clear_sent-Unchanged board uart0 s =
    elim (Bool-cases (any (s.answer (read_sfr (ut_con0 0)) s.accesses) (bits (15 ∷ 2 ∷ [])))) [
      | inl t ↦ rw t ((refl, refl, refl), refl)
      | inr t ↦ rw t ((refl, refl, refl), refl)
    ]
clear_sent-Unchanged board uart1 s =
    elim (Bool-cases (any (s.answer (read_sfr (ut_con0 1)) s.accesses) (bits (15 ∷ 2 ∷ [])))) [
      | inl t ↦ rw t ((refl, refl, refl), refl)
      | inr t ↦ rw t ((refl, refl, refl), refl)
    ]

-- What is done with a length that has been read.
abbrev Kept : Board82 → UpUart → Port → Type 0
Kept board u s =
    let s' = (keep_received board u s).1 in
    (rxlen u s' ≡ rxlen u s)
    × (s'.new_data ≡ (if leb 1 (rxlen u s) then 1 else s.new_data))
    × (bytes u s' ≡ kept (rxlen u s) (bytes u s))

keep_received-Kept : (board : Board82) (u : UpUart) (s : Port) → Kept board u s
unfolding keep_received
keep_received-Kept board uart0 s = elim (Bool-cases (leb 1 s.ut_up_rxlen)) [
  | inl t ↦ elim (Bool-cases (ltb s.ut_up_rxlen ut_up_buf_size)) [
    | inl t' ↦ rw (t, t') (refl, refl, refl)
    | inr t' ↦ rw (t, t') (refl, refl, refl)
  ]
  | inr t ↦ elim (Bool-cases (ltb s.ut_up_rxlen ut_up_buf_size)) [
    | inl t' ↦ rw (t, t') (refl, refl, refl)
    | inr t' ↦ rw (t, t') (refl, refl, refl)
  ]
]
keep_received-Kept board uart1 s = elim (Bool-cases (leb 1 s.ut1_up_rxlen)) [
  | inl t ↦ elim (Bool-cases (ltb s.ut1_up_rxlen ut_up_buf_size)) [
    | inl t' ↦ rw (t, t') (refl, refl, refl)
    | inr t' ↦ rw (t, t') (refl, refl, refl)
  ]
  | inr t ↦ elim (Bool-cases (ltb s.ut1_up_rxlen ut_up_buf_size)) [
    | inl t' ↦ rw (t, t') (refl, refl, refl)
    | inr t' ↦ rw (t, t') (refl, refl, refl)
  ]
]

take_length-Received :
    (board : Board82) (u : UpUart) (s : Port)
    → let s' = (take_length u s).1 in
      (before : List Access) × (rxlen u s' ≡ s.answer (read_sfr (ut_hrxcnt (number u))) before)
      × (s'.new_data ≡ s.new_data)
      × (bytes u s' ≡ bytes u s)
unfolding take_length
take_length-Received board uart0 s = (_, refl, refl, refl)
take_length-Received board uart1 s = (_, refl, refl, refl)

-- The second part, on the state that the first part leaves.
then_kept :
    (board : Board82) (u : UpUart) (s s1 : Port)
    → Unchanged board u s s1
    → s1.answer ≡ s.answer
    → Received board u s (keep_received board u (take_length u s1).1).1
then_kept board u s s1 (same_len, same_flag, same_bytes) same =
    let (before, len, flag, old) = take_length-Received board u s1 in
    let (len', flag', new) = keep_received-Kept board u (take_length u s1).1 in
    (
      before,
      len' ∙ len ∙ ap (λ f. f (read_sfr (ut_hrxcnt (number u))) before) same,
      rw len' (
          flag'
          ∙ ap (λ x. if leb 1 (rxlen u (take_length u s1).1) then 1 else x) (flag ∙ same_flag)),
      rw len' (new ∙ ap (kept (rxlen u (take_length u s1).1)) (old ∙ same_bytes)),
    )

abbrev Cases : Board82 → UpUart → Port → Type 0
Cases board u s =
    ((received board u s ≡ true) × Received board u s (uart_irq board u s).1)
    ⊎ ((received board u s ≡ false) × Unchanged board u s (uart_irq board u s).1)

uart_irq-Cases : (board : Board82) (u : UpUart) (s : Port) → Cases board u s
unfolding uart_irq
uart_irq-Cases board uart0 s =
    let s1 = (clear_sent uart0 s).1 in
    let (same, answers) = clear_sent-Unchanged board uart0 s in
    elim (Bool-cases (received board uart0 s)) [
      | inl t ↦
          rw t (
            inl (refl, then_kept board uart0 s (after s1 (read_sfr (ut_con0 0) ∷ [])) same answers))
      | inr t ↦ rw t (inr (refl, same))
    ]
uart_irq-Cases board uart1 s =
    let s1 = (clear_sent uart1 s).1 in
    let (same, answers) = clear_sent-Unchanged board uart1 s in
    elim (Bool-cases (received board uart1 s)) [
      | inl t ↦
          rw t (
            inl (refl, then_kept board uart1 s (after s1 (read_sfr (ut_con0 1) ∷ [])) same answers))
      | inr t ↦ rw t (inr (refl, same))
    ]

-- On both receiving UARTs of wl82, with a receive buffer of 4128 bytes, the interrupt either takes a
-- reception, and then stores the length that the hardware reports, raises the flag when that is not 0
-- and leaves it otherwise, and ends the buffer with a zero behind what was received if there is room;
-- or leaves length, flag and buffer as they were. In both cases the buffer has 4128 bytes again: no
-- length that the hardware may report makes it write outside.
pub uart_irq_lem :
    (board : Board82) (u : UpUart) (s : Port)
    → length (bytes u s) ≡ ut_up_buf_size
    → let s' = (uart_irq board u s).1 in
      (((received board u s ≡ true) × Received board u s s')
        ⊎ ((received board u s ≡ false) × Unchanged board u s s'))
      × (length (bytes u s') ≡ ut_up_buf_size)
uart_irq_lem board u s size = elim (uart_irq-Cases board u s) [
  | inl (t, taken) ↦
      let (before, len, flag, new) = taken in
      (inl (t, taken), ap length new ∙ kept-size (rxlen u (uart_irq board u s).1) (bytes u s) size)
  | inr (t, same) ↦ (inr (t, same), ap length same.2 ∙ size)
]
