-- ===== src/Session/Loop.antt =====
-- The whole of `upgrade_loop`: all that it does to the outside, whatever it receives.
use fw_bootloader.Common.{
  ℕ, suc, ◌≡◌, ◌≤◌, ◌∙◌, refl, ap, sym, List, [], ◌∷◌, ◌++◌, Bool, true, false, if◌then◌else◌,
  subst, Option, none, some, length, arith, append_assoc, append-nil,
}
use fw_bootloader.Common.Memory.{ok-injective, Result, ok, >>=-eq-ok}
use fw_bootloader.Platform.{Event, send, Platform, Build}
use fw_bootloader.Device.{Device}
use fw_bootloader.Session.{set_new_data_flag, receive, upgrade_round, upgrade_loop}
use fw_bootloader.Session.Trace.{
  Round, quiet, replied, rebooted, reboot_events, upgrade_round_events,
}

-- The events of packets that leave.
abbrev pub sends : List (List ℕ) → List Event
sends [] = []
sends (packet ∷ packets) = send packet ∷ sends packets

module _ {Fs : Type 0} (p : Platform Fs) (build : Build) where
  -- The events of the reboot, when the loop has ended.
  abbrev pub ending : Bool → List Event
  ending true = reboot_events p build
  ending false = []

  abbrev pub Ran : ℕ → Device Fs → Bool → Device Fs → Type 0
  Ran n dev done after =
      (packets : List (List ℕ)) × (after.events ≡ dev.events ++ (sends packets ++ ending done))
      × (length packets ≤ n)
      × (length after.dev_g_buf ≡ length dev.dev_g_buf)

  receive-events : (i : Option (List ℕ × ℕ)) (dev : Device Fs) → (receive i dev).events ≡ dev.events
  unfolding receive set_new_data_flag
  receive-events none dev = refl
  receive-events (some (mem, len)) dev = refl

  receive-buffer :
      (i : Option (List ℕ × ℕ)) (dev : Device Fs) → (receive i dev).dev_g_buf ≡ dev.dev_g_buf
  unfolding receive set_new_data_flag
  receive-buffer none dev = refl
  receive-buffer (some (mem, len)) dev = refl

  left :
      (n : ℕ) (before : List Event) (size : ℕ) (after : Device Fs)
      → Round p build before true after.events
      → length after.dev_g_buf ≡ size
      → (packets : List (List ℕ)) × (after.events ≡ before ++ (sends packets ++ ending true))
        × (length packets ≤ suc n)
        × (length after.dev_g_buf ≡ size)
  left n before size after (rebooted e) sz = ([], e, omega arith, sz)

  goes_on :
      (n : ℕ) (before : List Event) (size : ℕ) (mid : Device Fs) (done : Bool) (after : Device Fs)
      → Round p build before false mid.events
      → length mid.dev_g_buf ≡ size
      → Ran n mid done after
      → (packets : List (List ℕ)) × (after.events ≡ before ++ (sends packets ++ ending done))
        × (length packets ≤ suc n)
        × (length after.dev_g_buf ≡ size)
  goes_on n before size mid done after (quiet e) sz (packets, f, le, sz') =
      (packets, f ∙ ap (λ x. x ++ (sends packets ++ ending done)) e, omega arith, sz' ∙ sz)
  goes_on n before size mid done after (replied packet e) sz (packets, f, le, sz') = (
    packet ∷ packets,
    f ∙ ap (λ x. x ++ (sends packets ++ ending done)) e ∙ append_assoc before (send packet ∷ []) _,
    omega arith,
    sz' ∙ sz,
  )

  -- Whatever is received, when `upgrade_loop` runs on it without a fault, its events are packets, at
  -- most one for each round, then those of the reboot if it has ended and nothing if it still
  -- runs; and the reply buffer keeps its size.
  pub upgrade_loop_events :
      (inputs : List (Option (List ℕ × ℕ))) (dev after : Device Fs) (done : Bool)
      → upgrade_loop p build inputs dev ≡ ok (done, after)
      → Ran (length inputs) dev done after
  unfolding upgrade_loop
  upgrade_loop_events [] dev after done h = stop dev after done h
    where
      stop :
          (dev after : Device Fs) (done : Bool)
          → ◌≡◌ {A = Result (Bool × Device Fs)} (ok (false, dev)) (ok (done, after))
          → Ran 0 dev done after
      stop dev after done h =
          subst (λ (q : Bool × Device Fs). Ran 0 dev q.0 q.1) (ok-injective h)
            ([], sym (append-nil dev.events), omega arith, refl)
  upgrade_loop_events (i ∷ is) dev after done h =
      let (r, f, g) = >>=-eq-ok (upgrade_round p build (receive i dev)) _ h in
      next r.0 r.1 f g (λ mid g'. upgrade_loop_events is mid after done g')
    where
      next :
          (d : Bool) (mid : Device Fs)
          → upgrade_round p build (receive i dev) ≡ ok (d, mid)
          → (if d then ok (true, mid) else upgrade_loop p build is mid) ≡ ok (done, after)
          → ((mid : Device Fs)
              → upgrade_loop p build is mid ≡ ok (done, after)
              → Ran (length is) mid done after)
          → Ran (suc (length is)) dev done after
      next true mid f g later =
          let (round, sz) = upgrade_round_events p build (receive i dev) mid true f in
          subst (λ (q : Bool × Device Fs). Ran (suc (length is)) dev q.0 q.1) (ok-injective g)
            (left (length is) dev.events (length dev.dev_g_buf) mid
              (subst (λ x. Round p build x true mid.events) (receive-events i dev) round)
              (sz ∙ ap length (receive-buffer i dev)))
      next false mid f g later =
          let (round, sz) = upgrade_round_events p build (receive i dev) mid false f in
          goes_on (length is) dev.events (length dev.dev_g_buf) mid done after
            (subst (λ x. Round p build x false mid.events) (receive-events i dev) round)
            (sz ∙ ap length (receive-buffer i dev)) (later mid g)
