-- ===== src/Session/Ends.antt =====
-- A whole upgrade: requests, and the reboot that ends the session.
use fw_bootloader.Common.{
  true-false, ℕ, ◌+◌, ◌^◌, ◌≡◌, ◌≤◌, ◌<◌, ◌∙◌, refl, sym, ap, List, [], ◌∷◌, ◌++◌, Bool, true,
  false, Bool-cases, inl, inr, Option, some, if◌then◌else◌, length, arith, append_assoc, append-nil,
}
use fw_bootloader.Common.Memory.{Result, ok, >>=-eq-ok}
use fw_bootloader.Protocol.{communication_key, enc_cmd_data}
use fw_bootloader.Protocol.Scan.{seal, opened}
use fw_bootloader.Protocol.RoundTrip.{NoMark, length-seal, enc_cmd_data-seal}
use fw_bootloader.Platform.{ut_close, usb_disable, reset, Platform, Build}
use fw_bootloader.Magic.{uboot_check_upgrade_magic}
use fw_bootloader.Magic.Laws.{uboot_set_uart_upgrade_succ_lem}
use fw_bootloader.Device.{Device, log_event}
use fw_bootloader.Session.{
  set_new_data_flag, receive, reboot, dispatch, handle, upgrade_round, upgrade_loop,
}
use fw_bootloader.Session.Trace.{reboot_events}
use fw_bootloader.Session.Request.{opened_round}
use fw_bootloader.Session.Spec.{Request, Library}
use fw_bootloader.Session.Serve.{store}
use fw_bootloader.Session.Inputs.{Asked}
use fw_bootloader.Session.Round.{idle}
use fw_bootloader.Session.Refine.{Refined, upgrade_loop_refines}

module _ {Fs : Type 0} (p : Platform Fs) (build : Build) where
  -- The reboot request as it is received.
  pub record FramedReboot (mem : List ℕ) (len : ℕ) : Type 0 where
    pub pad : ℕ
    pub pre : List ℕ
    pub rest : List ℕ
    pub at : mem ≡ pre ++ (seal communication_key p.chip_crc16 (0xCA ∷ pad ∷ []) ++ rest)
    pub clean : NoMark pre
    pub inside : length pre + 8 ≤ len
    pub small : len < 2 ^ 31

  -- What the next start finds: in the build with the upgrade flag, that it does not ask for an upgrade.
  abbrev pub next_check : Device Fs → Device Fs → Result (ℕ × List ℕ)
  next_check dev last =
      if build.use_upgrade_magic then ok (0, last.nvram) else uboot_check_upgrade_magic dev.nvram

  -- The device after the reboot command: the link is closed, and the flag is set for the next start.
  pub record Rebooted (dev last : Device Fs) : Type 0 where
    pub events : last.events ≡ dev.events ++ reboot_events p build
    pub kept : store last ≡ store dev
    pub checks : uboot_check_upgrade_magic last.nvram ≡ next_check dev last

  abbrev last_step : Device Fs → Device Fs
  last_step d = if build.dual_bank_mode then log_event reset d else d

  last_step_lem :
      (d : Device Fs)
      → ((last_step d).events ≡ d.events ++ (if build.dual_bank_mode then reset ∷ [] else []))
        × (store (last_step d) ≡ store d)
        × ((last_step d).nvram ≡ d.nvram)
  last_step_lem d = elim (Bool-cases build.dual_bank_mode) [
    | inl t ↦ rw t (refl, refl, refl)
    | inr t ↦ rw t (sym (append-nil d.events), refl, refl)
  ]

  -- The link is closed, and the retention RAM is as given.
  abbrev closed : Device Fs → List ℕ → Device Fs
  closed dev ram = record (log_event usb_disable (log_event ut_close dev)) { nvram = ram }

  closed-Rebooted :
      (dev : Device Fs) (ram : List ℕ)
      → uboot_check_upgrade_magic ram ≡ next_check dev (closed dev ram)
      → Rebooted dev (last_step (closed dev ram))
  closed-Rebooted dev ram checks =
      let (events, kept, nvram) = last_step_lem (closed dev ram) in
      record {
        events =
            events
            ∙ append_assoc (dev.events ++ ut_close ∷ []) (usb_disable ∷ []) _
            ∙ append_assoc dev.events (ut_close ∷ []) _;
        kept = kept;
        checks = rw nvram checks;
      }

  reboot-Rebooted :
      (dev : Device Fs)
      → 8 ≤ length dev.nvram
      → (last : Device Fs) × (reboot p build dev ≡ ok last) × Rebooted dev last
  unfolding reboot
  reboot-Rebooted dev room = elim (Bool-cases build.use_upgrade_magic) [
    | inl t ↦
        let (ram, set, none_found) = uboot_set_uart_upgrade_succ_lem dev.nvram room in
        (last_step (closed dev ram), rw (t, set) refl, closed-Rebooted dev ram (rw t none_found))
    | inr t ↦
        (last_step (closed dev dev.nvram), rw t refl, closed-Rebooted dev dev.nvram (rw t refl))
  ]

  -- One round on the reboot request.
  reboot_round :
      (lib : Library p) (dev : Device Fs) (mem : List ℕ) (len : ℕ)
      → length dev.dev_g_buf ≡ 64
      → 8 ≤ length dev.nvram
      → FramedReboot mem len
      → (last : Device Fs) × (upgrade_round p build (receive (some (mem, len)) dev)
          ≡ ok (true, last))
        × Rebooted dev last
  unfolding receive set_new_data_flag handle dispatch
  reboot_round lib dev mem len buffer room f =
      let body = 0xCA ∷ f.pad ∷ [] in
      let found =
        enc_cmd_data-seal communication_key p.chip_crc16 f.pre body f.rest len f.clean (omega arith)
          (omega arith) (omega (arith, length-seal communication_key p.chip_crc16 body, f.inside))
          f.small in
      let decoded : enc_cmd_data communication_key p.chip_crc16 mem len
          ≡ ok (some (opened communication_key p.chip_crc16 body ++ f.rest)) =
        ap (λ m. enc_cmd_data communication_key p.chip_crc16 m len) f.at ∙ found in
      let opens =
        opened_round p build (receive (some (mem, len)) dev) (lib.stack_size dev.events) buffer
          (opened communication_key p.chip_crc16 body ++ f.rest) refl decoded in
      let (last, runs, after) = reboot-Rebooted (idle p build dev mem len) room in
      (
        last,
        opens ∙ rw runs refl,
        record { events = after.events; kept = after.kept; checks = after.checks },
      )

  pair-injective :
      {b c : Bool} {x y : Device Fs}
      → ◌≡◌ {A = Result (Bool × Device Fs)} (ok (b, x)) (ok (c, y))
      → (b ≡ c) × (x ≡ y)
  pair-injective e = (cc, cc)

  -- A loop that still runs goes on with what is received next.
  upgrade_loop-append :
      (is js : List (Option (List ℕ × ℕ))) (dev mid : Device Fs)
      → upgrade_loop p build is dev ≡ ok (false, mid)
      → upgrade_loop p build (is ++ js) dev ≡ upgrade_loop p build js mid
  unfolding upgrade_loop
  upgrade_loop-append [] js dev mid e = ap (upgrade_loop p build js) (pair-injective e).1
  upgrade_loop-append (i ∷ is) js dev mid e =
      let (got, f, g) = >>=-eq-ok (upgrade_round p build (receive i dev)) _ e in
      rw f (goes_on got.0 got.1 g (λ next. upgrade_loop-append is js got.1 mid next))
    where
      goes_on :
          (done : Bool) (next : Device Fs)
          → (if done then ok (true, next) else upgrade_loop p build is next) ≡ ok (false, mid)
          → (upgrade_loop p build is next ≡ ok (false, mid)
              → upgrade_loop p build (is ++ js) next ≡ upgrade_loop p build js mid)
          → (if done then ok (true, next) else upgrade_loop p build (is ++ js) next)
            ≡ upgrade_loop p build js mid
      goes_on true next g later = absurd (true-false (pair-injective g).0)
      goes_on false next g later = later g

  -- A whole upgrade ends: on a library as described, with a reply buffer of 64 bytes, no new data at the
  -- start and at least eight bytes of retention RAM, legal sealed requests followed by a sealed reboot
  -- request are served as the specification says, and then `upgrade_loop` ends. What leaves after the
  -- replies is the closing of the link and, in the build with two banks, the reset; the flash is as the
  -- last request left it; and in the build with the upgrade flag, the flag that the next start checks does
  -- not ask for an upgrade again.
  pub upgrade_loop_reboots :
      (lib : Library p) (qs : List Request) (is : List (Option (List ℕ × ℕ))) (mem : List ℕ)
      (len : ℕ) (dev : Device Fs)
      → length dev.dev_g_buf ≡ 64
      → dev.new_data ≡ 0
      → 8 ≤ length dev.nvram
      → Asked p build qs is
      → FramedReboot mem len
      → (r : Refined p build qs is dev) × (last : Device Fs) × (upgrade_loop p build
            (is ++ some (mem, len) ∷ [])
            dev
          ≡ ok (true, last))
        × Rebooted r.after last
  unfolding upgrade_loop
  upgrade_loop_reboots lib qs is mem len dev buffer waits room requests framed =
      let r = upgrade_loop_refines p build lib qs is dev buffer waits requests in
      let (last, runs, after) =
        reboot_round lib r.after mem len r.buffer (rw r.nvram_after room) framed in
      (
        r,
        last,
        upgrade_loop-append is (some (mem, len) ∷ []) dev r.after r.returns ∙ rw runs refl,
        after,
      )
