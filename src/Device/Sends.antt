-- ===== src/Device/Sends.antt =====
-- What a handler shows to the outside, whatever the request: one packet, or no result at all.
use fw_bootloader.Common.{
  ℕ, ◌≡◌, ◌∙◌, List, [], ◌∷◌, ◌++◌, if◌then◌else◌, inl, inr, length, take, drop, arith,
  length-append, length-take, length-drop, ap, sym,
}
use fw_bootloader.Common.Memory.{
  ok-injective, Result, ok, ◌>>=◌, load16, slice, splice, >>=-eq-ok, length-splice, Result-cases,
}
use fw_bootloader.Protocol.{communication_key, enc_dec_data}
use fw_bootloader.Protocol.Cipher.{length-enc_dec_data}
use fw_bootloader.Platform.{Event, send, Platform, Build}
use fw_bootloader.Device.{Device, poke, upgrade_rsp, set_remain_and_upgrade_rsp}

module _ {Fs : Type 0} where
  -- If there is a result, then one packet has been sent since `before`, and the reply buffer has
  -- `size` bytes.
  abbrev pub Sends : List Event → ℕ → Result (Device Fs) → Type 0
  Sends before size r =
      (dev : Device Fs)
      → r ≡ ok dev
      → (packet : List ℕ) × (dev.events ≡ before ++ send packet ∷ [])
        × (length dev.dev_g_buf ≡ size)

module _ {Fs : Type 0} (before : List Event) (size : ℕ) where
  pub Sends-bind {ℓ} :
      {A : Type ℓ} (m : Result A) (k : A → Result (Device Fs))
      → ((a : A) → m ≡ ok a → Sends before size (k a))
      → Sends before size (m >>= k)
  Sends-bind m k next dev e = let (a, f, g) = >>=-eq-ok m k e in next a f dev g

  pub Sends-poke :
      (at : ℕ) (bytes : List ℕ) (dev : Device Fs) (k : Device Fs → Result (Device Fs))
      → length dev.dev_g_buf ≡ size
      → ((buf : List ℕ)
          → length buf ≡ size
          → Sends before size (k (record dev { dev_g_buf = buf })))
      → Sends before size (poke at bytes dev >>= k)
  unfolding poke
  Sends-poke at bytes dev k same next = elim (Result-cases (splice dev.dev_g_buf at bytes)) [
    | inl e ↦ rw e (λ dev' f. absurd (cc))
    | inr (buf, e) ↦ rw e (next buf (length-splice dev.dev_g_buf at bytes e ∙ same))
  ]

module _ {Fs : Type 0} (p : Platform Fs) (build : Build) (size : ℕ) where
  upgrade_rsp-Sends :
      (mem : List ℕ) (len : ℕ) (dev : Device Fs)
      → length dev.dev_g_buf ≡ size
      → Sends dev.events size (upgrade_rsp p build mem len dev)
  unfolding upgrade_rsp
  upgrade_rsp-Sends mem len dev same = Sends-bind dev.events size (slice mem 0 len) _ λ bytes e.
      Sends-bind dev.events size (splice (take 64 (p.stack dev.events)) 0 bytes) _ λ tx f dev' g. (
        if build.usb_mode then tx else take len tx,
        cc,
        ap (λ d. length d.dev_g_buf) (sym (ok-injective g)) ∙ same,
      )

  pub set_remain-Sends :
      (cmd : ℕ) (dev : Device Fs)
      → length dev.dev_g_buf ≡ size
      → Sends dev.events size (set_remain_and_upgrade_rsp p build cmd dev)
  unfolding set_remain_and_upgrade_rsp
  set_remain-Sends cmd dev same = Sends-poke dev.events size 0 _ dev _ same λ buf1 s1.
      Sends-bind dev.events size (load16 buf1 2) _ λ cmd_len e1.
        Sends-poke dev.events size 4 _ (record dev { dev_g_buf = buf1 }) _ s1
          λ buf2 s2.
            Sends-bind dev.events size (enc_dec_data communication_key (drop 4 buf2) cmd_len) _
              λ body e2. Sends-bind dev.events size (slice (take 4 buf2 ++ body) 0 _) _ λ head e3.
                Sends-bind dev.events size (splice (take 4 buf2 ++ body) _ _) _ λ buf3 e4.
                  Sends-bind dev.events size (splice buf3 _ _) _ λ buf4 e5.
                    upgrade_rsp-Sends buf4 _ (record dev { dev_g_buf = buf4 })
                      (omega (
                        arith,
                        length-splice _ _ _ e5,
                        length-splice _ _ _ e4,
                        length-append (take 4 buf2) body,
                        length-take 4 buf2,
                        length-drop 4 buf2,
                        length-enc_dec_data communication_key (drop 4 buf2) body cmd_len e2,
                        s2,
                      ))

pub poke-keeps :
    {Fs : Type 0} (at : ℕ) (bytes : List ℕ) (dev after : Device Fs)
    → poke at bytes dev ≡ ok after
    → (after.events ≡ dev.events) × (length after.dev_g_buf ≡ length dev.dev_g_buf)
unfolding poke
poke-keeps at bytes dev after h = elim (Result-cases (splice dev.dev_g_buf at bytes)) [
  | inl e ↦ absurd (cc (e))
  | inr (buf, e) ↦
      let same : ok (record dev { dev_g_buf = buf }) ≡ ok after = rw e at h in
      (
        ap (λ d. d.events) (sym (ok-injective same)),
        ap (λ d. length d.dev_g_buf) (sym (ok-injective same))
            ∙ length-splice dev.dev_g_buf at bytes e,
      )
]
