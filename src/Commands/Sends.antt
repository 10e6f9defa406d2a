-- ===== src/Commands/Sends.antt =====
-- Every handler, on every request: if it returns, it has sent one packet and kept the size of the
-- reply buffer.
use fw_bootloader.Common.{
  ℕ, zero, suc, ◌+◌, ◌*◌, ◌≡◌, ◌∙◌, ap, sym, subst, List, ◌==◌, inl, inr, Bool-cases, length, u32,
}
use fw_bootloader.Common.Memory.{ok-injective, ok, load, load16, load32, slice, divide, >>=-eq-ok}
use fw_bootloader.Platform.{Platform, Build}
use fw_bootloader.Device.{Device, poke, suss, sdk_id_error}
use fw_bootloader.Device.Sends.{Sends, Sends-bind, Sends-poke, set_remain-Sends, poke-keeps}
use fw_bootloader.Commands.{
  finish, init_reply, jl_su_device_init, crc_loop, jl_su_flash_crc, jl_su_erase, jl_su_write_flash,
  check_reply, jl_su_devcie_check, jl_su_updata_dual_bank_crc, sdk_id, cmd_flash_crc,
}

module _ {Fs : Type 0} (p : Platform Fs) (build : Build) (size : ℕ) where
  finish-Sends :
      (cmd status cmd_len : ℕ) (dev : Device Fs)
      → length dev.dev_g_buf ≡ size
      → Sends dev.events size (finish p build cmd status cmd_len dev)
  unfolding finish
  finish-Sends cmd status cmd_len dev same = Sends-poke dev.events size 5 _ dev _ same λ buf1 s1.
      Sends-poke dev.events size 2 _ (record dev { dev_g_buf = buf1 }) _ s1
        λ buf2 s2. set_remain-Sends p build size cmd (record dev { dev_g_buf = buf2 }) s2

  init_reply-Sends :
      (err : ℕ) (dev : Device Fs)
      → length dev.dev_g_buf ≡ size
      → Sends dev.events size (init_reply p build err dev)
  unfolding init_reply
  init_reply-Sends err dev same = elim (Bool-cases (err == 0)) [
    | inl t ↦ rw t (
        Sends-poke dev.events size 6 _ dev _ same λ buf1 s1.
          Sends-poke dev.events size 10 _ (record dev { dev_g_buf = buf1 }) _ s1
            λ buf2 s2.
              Sends-poke dev.events size 14 _ (record dev { dev_g_buf = buf2 }) _ s2
                λ buf3 s3.
                  Sends-poke dev.events size 18 _ (record dev { dev_g_buf = buf3 }) _ s3
                    λ buf4 s4. finish-Sends _ _ _ (record dev { dev_g_buf = buf4 }) s4)
    | inr t ↦ rw t (
        Sends-poke dev.events size 6 _ dev _ same
          λ buf1 s1. finish-Sends _ _ _ (record dev { dev_g_buf = buf1 }) s1)
  ]

  module _ (ops : List ℕ) (dev : Device Fs) (same : length dev.dev_g_buf ≡ size) where
    pub jl_su_device_init-Sends : Sends dev.events size (jl_su_device_init p build ops dev)
    unfolding jl_su_device_init
    jl_su_device_init-Sends =
        Sends-bind dev.events size (load ops 22) _
          λ mode e. init_reply-Sends _ (record dev { upgrade_file = _; fs = _ }) same

    pub jl_su_erase-Sends : Sends dev.events size (jl_su_erase p build ops dev)
    unfolding jl_su_erase
    jl_su_erase-Sends = Sends-bind dev.events size (load32 ops 6) _ λ address e1.
        Sends-bind dev.events size (load32 ops 10) _
          λ type e2. finish-Sends _ _ _ (record dev { upgrade_file = _; fs = _ }) same

    pub jl_su_write_flash-Sends : Sends dev.events size (jl_su_write_flash p build ops dev)
    unfolding jl_su_write_flash
    jl_su_write_flash-Sends = Sends-bind dev.events size (load32 ops 6) _ λ address e1.
        Sends-bind dev.events size (load32 ops 10) _
          λ data_length e2. finish-Sends _ _ _ (record dev { upgrade_file = _; fs = _ }) same

    pub jl_su_updata_dual_bank_crc-Sends :
        Sends dev.events size (jl_su_updata_dual_bank_crc p build ops dev)
    unfolding jl_su_updata_dual_bank_crc
    jl_su_updata_dual_bank_crc-Sends =
        Sends-bind dev.events size (load16 ops 6) _
          λ crc e1. finish-Sends _ _ _ (record dev { upgrade_file = _; fs = _ }) same

    check_reply-Sends :
        (status : ℕ) (buf : List ℕ)
        → length buf ≡ size
        → Sends dev.events size (check_reply p build status (record dev { dev_g_buf = buf }))
    unfolding check_reply
    check_reply-Sends status buf s =
        Sends-poke dev.events size 26 _ (record dev { dev_g_buf = buf }) _ s
          λ buf1 s1. finish-Sends _ _ _ (record dev { dev_g_buf = buf1 }) s1

    pub jl_su_devcie_check-Sends : Sends dev.events size (jl_su_devcie_check p build ops dev)
    unfolding jl_su_devcie_check
    jl_su_devcie_check-Sends = Sends-bind dev.events size (load32 ops 6) _ λ id e.
        elim (Bool-cases (id == sdk_id)) [
          | inl t ↦ rw t (
              Sends-poke dev.events size 10 _ dev _ same λ buf1 s1.
                Sends-poke dev.events size 6 _ (record dev { dev_g_buf = buf1 }) _ s1
                  λ buf2 s2. check_reply-Sends suss buf2 s2)
          | inr t ↦ rw t (check_reply-Sends sdk_id_error dev.dev_g_buf same)
        ]

  crc_loop-keeps :
      (l left i : ℕ) (mem : List ℕ) (dev after : Device Fs)
      → crc_loop p build l left i mem dev ≡ ok after
      → (after.events ≡ dev.events) × (length after.dev_g_buf ≡ length dev.dev_g_buf)
  unfolding crc_loop
  crc_loop-keeps l zero i mem dev after h = (
    ap (λ d. d.events) (sym (ok-injective h)),
    ap (λ d. length d.dev_g_buf) (sym (ok-injective h)),
  )
  crc_loop-keeps l (suc left) i mem dev after h =
      let (block, e1, h1) = >>=-eq-ok (slice (p.fread dev.upgrade_file mem l dev.fs).1 0 l) _ h in
      let (dev1, e2, h2) = >>=-eq-ok (poke (6 + i * 2) _ _) _ h1 in
      let (k1, k2) = poke-keeps _ _ _ dev1 e2 in
      let (k3, k4) = crc_loop-keeps l left (i + 1) _ dev1 after h2 in (k3 ∙ k1, k4 ∙ k2)

  pub jl_su_flash_crc-Sends :
      (ops : List ℕ) (dev : Device Fs)
      → length dev.dev_g_buf ≡ size
      → Sends dev.events size (jl_su_flash_crc p build ops dev)
  unfolding jl_su_flash_crc
  jl_su_flash_crc-Sends ops dev same = Sends-bind dev.events size (load32 ops 10) _ λ len e1.
      Sends-bind dev.events size (load32 ops 14) _ λ block_size e2.
        Sends-bind dev.events size (divide len block_size) _ λ block_count e3.
          Sends-bind dev.events size (load32 ops 6) _ λ address e4.
            Sends-bind dev.events size (crc_loop p build _ block_count 0 _ _) _ λ dev1 e5.
              let (k1, k2) = crc_loop-keeps _ block_count 0 _ _ dev1 e5 in
              subst
                (λ es.
                  Sends es size
                    (finish p build cmd_flash_crc suss (u32 (1 + 1 + block_count * 2)) dev1))
                k1 (finish-Sends _ _ _ dev1 (k2 ∙ same))
