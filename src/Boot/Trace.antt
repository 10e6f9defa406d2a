-- ===== src/Boot/Trace.antt =====
-- What `user_check_upgrade` does to the outside.
use fw_bootloader.Common.{
  ℕ, ◌≡◌, ◌≤◌, ◌∙◌, refl, ap, sym, subst, List, [], ◌∷◌, ◌++◌, Bool, Option, none, some, ◌==◌,
  if◌then◌else◌, ◌⊎◌, inl, inr, Bool-cases, u8, length, append_assoc,
}
use fw_bootloader.Common.Memory.{ok-injective, Result, ok, >>=-eq-ok}
use fw_bootloader.Platform.{Event, Platform, Build}
use fw_bootloader.Device.{Device, log_event}
use fw_bootloader.Session.{upgrade_loop}
use fw_bootloader.Session.Loop.{sends, ending, upgrade_loop_events}
use fw_bootloader.Boot.{
  Outcome, returned, copying, app_dir_head, link, left, serve, open_and_serve, after_copy,
  copy_uboot, user_check_upgrade,
}

module _ {Fs : Type 0} (p : Platform Fs) (build : Build) where
  -- The link was started and served: packets, then the reboot when the loop has ended.
  abbrev pub Served : ℕ → List Event → Outcome → List Event → Type 0
  Served n before o after =
      (packets : List (List ℕ)) × (done : Bool) × (o ≡ left p build done)
      × (after ≡ before ++ (link p build ∷ (sends packets ++ ending p build done)))
      × (length packets ≤ n)

  -- The call gave up, or is still copying, and the outside has seen nothing.
  abbrev pub Silent : List Event → Outcome → List Event → Type 0
  Silent before o after = ((o ≡ returned 1) ⊎ (o ≡ copying)) × (after ≡ before)

  serve_events :
      (inputs : List (Option (List ℕ × ℕ))) (dev after : Device Fs) (o : Outcome)
      → serve p build inputs dev ≡ ok (o, after)
      → Served (length inputs) dev.events o after.events
  unfolding serve
  serve_events inputs dev after o h =
      let (r, f, g) = >>=-eq-ok (upgrade_loop p build inputs (log_event (link p build) dev)) _ h in
      let (packets, e, le, sz) =
        upgrade_loop_events p build inputs (log_event (link p build) dev) r.1 r.0 f in
      (
        packets,
        r.0,
        sym (ap (λ (q : Outcome × Device Fs). q.0) (ok-injective g)),
        sym (ap (λ (q : Outcome × Device Fs). q.1.events) (ok-injective g))
            ∙ e
            ∙ append_assoc dev.events (link p build ∷ []) _,
        le,
      )

  silent :
      (dev d after : Device Fs) (a o : Outcome)
      → d.events ≡ dev.events
      → (a ≡ returned 1) ⊎ (a ≡ copying)
      → ◌≡◌ {A = Result (Outcome × Device Fs)} (ok (a, d)) (ok (o, after))
      → Silent dev.events o after.events
  silent dev d after a o e k h =
      subst (λ (q : Outcome × Device Fs). Silent dev.events q.0 q.1.events) (ok-injective h) (k, e)

  open_events :
      (inputs : List (Option (List ℕ × ℕ))) (dev after : Device Fs) (fs : Fs) (o : Outcome)
      → open_and_serve p build inputs dev fs ≡ ok (o, after)
      → Silent dev.events o after.events ⊎ Served (length inputs) dev.events o after.events
  unfolding open_and_serve
  open_events inputs dev after fs o h =
      elim (Bool-cases (u8 (p.fopen_by_name dev.upgrade_file app_dir_head 0 fs).0 == 0)) [
        | inl t ↦ inr (serve_events inputs _ after o (rw t at h))
        | inr t ↦ inl (silent dev _ after _ o refl (inl refl) (rw t at h))
      ]

  -- Whatever the flash and the link do, a call of `user_check_upgrade` that meets no fault either
  -- returns 1 or is still copying, and has sent nothing and not started the link; or it has started the
  -- link first, then sent at most one packet for each round, and after them done the reboot exactly
  -- when it is left: it then returns 0, or has reset the chip in the build with two banks.
  pub user_check_upgrade_events :
      (rounds : ℕ) (inputs : List (Option (List ℕ × ℕ))) (dev after : Device Fs) (o : Outcome)
      → user_check_upgrade p build rounds inputs dev ≡ ok (o, after)
      → Silent dev.events o after.events ⊎ Served (length inputs) dev.events o after.events
  unfolding user_check_upgrade
  user_check_upgrade_events rounds inputs dev after o h =
      copied
        (if p.get_uboot_offset dev.fs == 65536
          then copy_uboot p rounds (p.get_flash_align_size dev.fs) dev.fs
          else some dev.fs)
        h
    where
      copied :
          (c : Option Fs)
          → after_copy p build inputs
              (record dev { flash_alignsize = p.get_flash_align_size dev.fs })
              c
            ≡ ok (o, after)
          → Silent dev.events o after.events ⊎ Served (length inputs) dev.events o after.events
      copied none e = inl (silent dev _ after _ o refl (inr refl) e)
      copied (some fs) e =
          open_events inputs (record dev { flash_alignsize = p.get_flash_align_size dev.fs }) after
            fs o e
