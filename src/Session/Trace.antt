-- ===== src/Session/Trace.antt =====
-- A session seen from outside: what each round of the loop adds to the events.
use fw_bootloader.Common.{
  ℕ, ◌≡◌, ◌∙◌, refl, sym, subst, List, [], ◌∷◌, ◌++◌, Bool, true, false, ◌==◌, if◌then◌else◌, inl,
  inr, Bool-cases, Option, none, some, length, append_assoc, append-nil,
}
use fw_bootloader.Common.Memory.{
  ok-injective, Result, ok, fault, ◌>>=◌, load, >>=-eq-ok, Result-cases,
}
use fw_bootloader.Protocol.{communication_key, enc_cmd_data}
use fw_bootloader.Magic.{uboot_set_uart_upgrade_succ}
use fw_bootloader.Platform.{Event, send, ut_close, usb_disable, reset, Platform, Build}
use fw_bootloader.Device.{Device, log_event}
use fw_bootloader.Device.Sends.{Sends}
use fw_bootloader.Commands.Sends.{
  jl_su_device_init-Sends, jl_su_flash_crc-Sends, jl_su_write_flash-Sends, jl_su_erase-Sends,
  jl_su_devcie_check-Sends, jl_su_updata_dual_bank_crc-Sends,
}
use fw_bootloader.Session.{recv_new_data, reboot, dispatch, handle, upgrade_round}

module _ {Fs : Type 0} (e : Event) where
  log_event_if-events :
      (b : Bool) (d : Device Fs)
      → (if b then log_event e d else d).events ≡ d.events ++ (if b then e ∷ [] else [])
  log_event_if-events true d = refl
  log_event_if-events false d = sym (append-nil d.events)

  log_event_if-buffer :
      (b : Bool) (d : Device Fs)
      → length (if b then log_event e d else d).dev_g_buf ≡ length d.dev_g_buf
  log_event_if-buffer true d = refl
  log_event_if-buffer false d = refl

module _ {Fs : Type 0} (p : Platform Fs) (build : Build) where
  -- The events of the reboot command.
  abbrev pub reboot_events : List Event
  reboot_events = ut_close ∷ usb_disable ∷ (if build.dual_bank_mode then reset ∷ [] else [])

  -- What a round adds: nothing, one reply, or the reboot, with which the loop returns.
  pub data Round (before : List Event) : Bool → List Event → Type 0 where
    quiet : {after : List Event} → after ≡ before → Round before false after
    replied :
        {after : List Event} (packet : List ℕ)
        → after ≡ before ++ send packet ∷ []
        → Round before false after
    rebooted : {after : List Event} → after ≡ before ++ reboot_events → Round before true after

  abbrev Rounds : Device Fs → Result (Bool × Device Fs) → Type 0
  Rounds dev r =
      (done : Bool) (after : Device Fs)
      → r ≡ ok (done, after)
      → Round dev.events done after.events × (length after.dev_g_buf ≡ length dev.dev_g_buf)

  Rounds-ok :
      (dev : Device Fs) (done : Bool) (after : Device Fs)
      → Round dev.events done after.events × (length after.dev_g_buf ≡ length dev.dev_g_buf)
      → Rounds dev (ok (done, after))
  Rounds-ok dev done after r done' after' e =
      subst
        (λ (q : Bool × Device Fs).
          Round dev.events q.0 q.1.events × (length q.1.dev_g_buf ≡ length dev.dev_g_buf))
        (ok-injective e) r

  Rounds-fault : (dev : Device Fs) → Rounds dev fault
  Rounds-fault dev done after e = absurd (cc)

  Rounds-if :
      (dev : Device Fs) (b : Bool) (x y : Result (Bool × Device Fs))
      → Rounds dev x
      → Rounds dev y
      → Rounds dev (if b then x else y)
  Rounds-if dev true x y hx hy = hx
  Rounds-if dev false x y hx hy = hy

  again-Rounds :
      (dev : Device Fs) (m : Result (Device Fs))
      → Sends dev.events (length dev.dev_g_buf) m
      → Rounds dev (m >>= λ dev'. ok (false, dev'))
  again-Rounds dev m sends = elim (Result-cases m) [
    | inl f ↦ rw f (Rounds-fault dev)
    | inr (d, f) ↦
        rw f (Rounds-ok dev false d (let (packet, ev, sz) = sends d f in (replied packet ev, sz)))
  ]

  reboot-Rounds : (dev : Device Fs) → Rounds dev (reboot p build dev >>= λ dev'. ok (true, dev'))
  unfolding reboot
  reboot-Rounds dev =
      elim (Result-cases
        (if build.use_upgrade_magic then uboot_set_uart_upgrade_succ dev.nvram else ok dev.nvram)) [
          | inl f ↦ rw f (Rounds-fault dev)
          | inr (nvram, f) ↦ rw f (
              Rounds-ok dev true (closed nvram)
                (rebooted (last-events (bare nvram) ∙ regroup), last-buffer (bare nvram)))
        ]
    where
      bare : List ℕ → Device Fs
      bare nvram = record dev {
        events = (dev.events ++ ut_close ∷ []) ++ usb_disable ∷ [];
        nvram = nvram;
      }

      closed : List ℕ → Device Fs
      closed nvram = if build.dual_bank_mode then log_event reset (bare nvram) else bare nvram

      regroup :
          ((dev.events ++ ut_close ∷ []) ++ usb_disable ∷ [])
            ++ (if build.dual_bank_mode then reset ∷ [] else [])
          ≡ dev.events ++ reboot_events
      regroup =
          append_assoc (dev.events ++ ut_close ∷ []) (usb_disable ∷ []) _
          ∙ append_assoc dev.events (ut_close ∷ []) _

      last-events :
          (d : Device Fs)
          → (if build.dual_bank_mode then log_event reset d else d).events
            ≡ d.events ++ (if build.dual_bank_mode then reset ∷ [] else [])
      last-events d = log_event_if-events reset build.dual_bank_mode d

      last-buffer :
          (d : Device Fs)
          → length (if build.dual_bank_mode then log_event reset d else d).dev_g_buf
            ≡ length d.dev_g_buf
      last-buffer d = log_event_if-buffer reset build.dual_bank_mode d

  dispatch-Rounds :
      (cmd : ℕ) (ops : List ℕ) (dev : Device Fs) → Rounds dev (dispatch p build cmd ops dev)
  unfolding dispatch
  dispatch-Rounds cmd ops dev =
      Rounds-if dev _ _ _ (again-Rounds dev _ (jl_su_device_init-Sends p build _ ops dev refl)) (
        Rounds-if dev _ _ _ (again-Rounds dev _ (jl_su_flash_crc-Sends p build _ ops dev refl)) (
          Rounds-if dev _ _ _ (again-Rounds dev _ (jl_su_write_flash-Sends p build _ ops dev refl))
            (Rounds-if dev _ _ _ (again-Rounds dev _ (jl_su_erase-Sends p build _ ops dev refl)) (
              Rounds-if dev _ _ _
                (again-Rounds dev _ (jl_su_devcie_check-Sends p build _ ops dev refl))
                (Rounds-if dev _ _ _
                  (again-Rounds dev _ (jl_su_updata_dual_bank_crc-Sends p build _ ops dev refl))
                  (Rounds-if dev _ _ _ (reboot-Rounds dev)
                    (Rounds-ok dev false dev (quiet refl, refl))))))))

  -- Every round that returns adds nothing to the events, or one reply, or, when the loop is left,
  -- the events of the reboot; and it keeps the size of the reply buffer.
  pub upgrade_round_events :
      (dev after : Device Fs) (done : Bool)
      → upgrade_round p build dev ≡ ok (done, after)
      → Round dev.events done after.events × (length after.dev_g_buf ≡ length dev.dev_g_buf)
  unfolding upgrade_round recv_new_data
  upgrade_round_events dev after done h = elim (Bool-cases (dev.new_data == 0)) [
    | inl t ↦ Rounds-ok dev false dev (quiet refl, refl) done after (rw t at h)
    | inr t ↦ taken (enc_cmd_data communication_key p.chip_crc16 dev.rx_buf dev.rx_len) (rw t at h)
  ]
    where
      read : Result (Option (List ℕ)) → Result (Option (List ℕ) × Device Fs)
      read m = m >>= λ ops. ok (ops, record dev { new_data = 0 })

      taken :
          (m : Result (Option (List ℕ)))
          → (◌>>=◌ {B = Bool × Device Fs} (read m) (λ x. handle p build x.0 x.1)) ≡ ok (done, after)
          → Round dev.events done after.events × (length after.dev_g_buf ≡ length dev.dev_g_buf)
      taken fault e = absurd (cc)
      taken (ok none) e =
          Rounds-ok dev false (record dev { new_data = 0 }) (quiet refl, refl) done after e
      taken (ok (some ops)) e =
          let (cmd, f, g) = >>=-eq-ok (load ops 4) _ e in
          dispatch-Rounds cmd ops (record dev { new_data = 0 }) done after g
