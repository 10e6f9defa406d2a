-- ===== src/Debug/Laws.antt =====
-- What the exception report tells.
use fw_bootloader.Common.{
  get_elem?-drop_head, drop_next, ℕ, zero, suc, ◌+◌, ◌-◌, ◌≡◌, ◌<◌, refl, subst, List, [], ◌∷◌,
  ◌++◌, Bool-cases, inl, inr, some, if◌then◌else◌, ◌==◌, length, get_elem?, get_elem?-append_right,
  drop, arith,
}
use fw_bootloader.Common.Memory.{ok}
use fw_bootloader.Hal.{any, bit}
use fw_bootloader.Debug.{
  Emu, system_excption, icache_excption, dcache_excption, reserved, fpu_inv_err, fpu_inf_err,
  fpu_tiny_err, fpu_huge_err, fpu_ine_err, etm_check_point_0_err, pc_limit, stack_overflow_err,
  div0_err, illegal_err, misalign_err, emu_msg, Line, entered, reti, rets, ssp, usp, general,
  emu_con, emu_msg_value, message, chip_reset, dump, messages, exception_analyze,
}

-- What each bit of EMU_MSG stands for.
abbrev pub cause : ℕ → Emu
cause i =
    if i == 0
    then misalign_err
    else if i == 1
    then illegal_err
    else if i == 2
    then div0_err
    else if i == 3
    then stack_overflow_err
    else if i == 4
    then pc_limit
    else if i == 8
    then etm_check_point_0_err
    else if i == 16
    then fpu_ine_err
    else if i == 17
    then fpu_huge_err
    else if i == 18
    then fpu_tiny_err
    else if i == 19
    then fpu_inf_err
    else if i == 20
    then fpu_inv_err
    else if i == 29
    then dcache_excption
    else if i == 30
    then icache_excption
    else if i == 31
    then system_excption
    else reserved

-- The causes of the bits that are set, from bit `i` on.
abbrev pub causes : (ℕ → ℕ) → ℕ → ℕ → List Line
causes emu zero i = []
causes emu (suc left) i =
    let rest = causes emu left (i + 1) in
    if any (emu (i + 1)) (bit i) then message (cause i) ∷ rest else rest

abbrev pub numbered : ℕ → List ℕ → List Line
numbered i [] = []
numbered i (v ∷ vs) = general i v ∷ numbered (i + 1) vs

-- A property of the first numbers, one after the other.
abbrev AllBelow : ℕ → (ℕ → Type 0) → Type 0
AllBelow zero P = Unit
AllBelow (suc n) P = P zero × AllBelow n (λ k. P (suc k))

below : (n : ℕ) (P : ℕ → Type 0) → AllBelow n P → (k : ℕ) → k < n → P k
below zero P all k lt = absurd (omega arith)
below (suc n) P all zero lt = all.0
below (suc n) P all (suc k) lt = below n (λ j. P (suc j)) all.1 k (omega arith)

-- The table is in the reverse order of the bits.
emu_msg-cause : (i : ℕ) → i < 32 → get_elem? emu_msg (31 - i) ≡ some (cause i)
emu_msg-cause =
    below 32 (λ i. get_elem? emu_msg (31 - i) ≡ some (cause i))
      (
        refl,
        (
          refl,
          (
            refl,
            (
              refl,
              (
                refl,
                (
                  refl,
                  (
                    refl,
                    (
                      refl,
                      (
                        refl,
                        (
                          refl,
                          (
                            refl,
                            (
                              refl,
                              (
                                refl,
                                (
                                  refl,
                                  (
                                    refl,
                                    (
                                      refl,
                                      (
                                        refl,
                                        (
                                          refl,
                                          (
                                            refl,
                                            (
                                              refl,
                                              (
                                                refl,
                                                (
                                                  refl,
                                                  (
                                                    refl,
                                                    (
                                                      refl,
                                                      (
                                                        refl,
                                                        (
                                                          refl,
                                                          (
                                                            refl,
                                                            (
                                                            refl,
                                                            (refl, (refl, (refl, (refl, tt)))),
                                                            ),
                                                          ),
                                                        ),
                                                      ),
                                                    ),
                                                  ),
                                                ),
                                              ),
                                            ),
                                          ),
                                        ),
                                      ),
                                    ),
                                  ),
                                ),
                              ),
                            ),
                          ),
                        ),
                      ),
                    ),
                  ),
                ),
              ),
            ),
          ),
        ),
      )

messages_lem :
    (emu : ℕ → ℕ) (left i : ℕ) → i + left ≡ 32 → messages emu left i ≡ ok (causes emu left i)
unfolding messages
messages_lem emu zero i e = refl
messages_lem emu (suc left) i e = elim (Bool-cases (any (emu (i + 1)) (bit i))) [
  | inl t ↦
      rw (messages_lem emu left (i + 1) (omega (arith, e)), t, emu_msg-cause i (omega (arith, e)))
        refl
  | inr t ↦ rw (messages_lem emu left (i + 1) (omega (arith, e)), t) refl
]

dump_lem :
    (vs rest sp : List ℕ) (i : ℕ)
    → drop i sp ≡ vs ++ rest
    → dump sp (length vs) i ≡ ok (numbered i vs)
unfolding dump
dump_lem [] rest sp i e = refl
dump_lem (v ∷ vs) rest sp i e =
    let here : get_elem? sp i ≡ some v = get_elem?-drop_head i sp e in
    rw (here, dump_lem vs rest sp (i + 1) (drop_next i sp e)) refl

saved_at :
    (r rest : List ℕ) (j k : ℕ)
    → length r ≡ 16
    → j ≡ 16 + k
    → get_elem? (r ++ rest) j ≡ get_elem? rest k
saved_at r rest j k size at =
    let place : j ≡ length r + k = omega (arith, size, at) in
    rw place (get_elem?-append_right r rest k)

-- With 16 general registers and the eight others saved on the stack, the report does not fault. It tells
-- the four special registers and the general ones under their numbers, then the two registers of the
-- exception unit, then the cause of exactly those of the 32 bits that are set when it reads them, from
-- the lowest on, and resets the chip at last.
pub exception_analyze_lem :
    (r rest : List ℕ)
    (reti_value rete_value retx_value rets_value psr_value icfg_value usp_value ssp_value con : ℕ)
    (emu : ℕ → ℕ)
    → length r ≡ 16
    → exception_analyze
        (r
          ++ (reti_value ∷ rete_value ∷ retx_value ∷ rets_value ∷ psr_value ∷ icfg_value ∷ usp_value
              ∷ ssp_value ∷ rest))
        con
        emu
      ≡ ok (
          entered
          ∷ reti reti_value
          ∷ rets rets_value
          ∷ ssp ssp_value
          ∷ usp usp_value
          ∷ (numbered 0 r
              ++ (emu_con con ∷ emu_msg_value (emu 0) ∷ (causes emu 32 0 ++ chip_reset ∷ []))))
unfolding exception_analyze
exception_analyze_lem r rest reti_value rete_value retx_value rets_value psr_value icfg_value
      usp_value ssp_value con emu size =
    let saved =
      reti_value ∷ rete_value ∷ retx_value ∷ rets_value ∷ psr_value ∷ icfg_value ∷ usp_value
      ∷ ssp_value ∷ rest in
    rw
      (
        saved_at r saved 16 0 size refl,
        saved_at r saved 17 1 size refl,
        saved_at r saved 18 2 size refl,
        saved_at r saved 19 3 size refl,
        saved_at r saved 20 4 size refl,
        saved_at r saved 21 5 size refl,
        saved_at r saved 22 6 size refl,
        saved_at r saved 23 7 size refl,
        subst (λ n. dump (r ++ saved) n 0 ≡ ok (numbered 0 r)) size
            (dump_lem r saved (r ++ saved) 0 refl),
        messages_lem emu 32 0 refl,
      )
      refl
