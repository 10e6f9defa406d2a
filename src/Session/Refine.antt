-- ===== src/Session/Refine.antt =====
-- The session implements its specification.
use fw_bootloader.Common.{
  ℕ, ◌≡◌, ◌≤◌, ◌∙◌, refl, sym, ap, List, [], ◌∷◌, ◌++◌, false, true-false, Option, none, some,
  Bool-cases, inl, inr, length, take, drop, arith, append_assoc, append-nil, length-append,
  length-take, length-drop,
}
use fw_bootloader.Common.Memory.{ok}
use fw_bootloader.Protocol.{communication_key}
use fw_bootloader.Protocol.RoundTrip.{length-seal, enc_cmd_data-seal}
use fw_bootloader.Platform.{Event, send, Platform, Build}
use fw_bootloader.Device.{Device}
use fw_bootloader.Device.Reply.{reply_frame, on_link}
use fw_bootloader.Session.{receive, recv_new_data, handle, upgrade_round, upgrade_loop}
use fw_bootloader.Session.Spec.{Request, Legal, Library, Serves-size}
use fw_bootloader.Session.Serve.{store, Done}
use fw_bootloader.Session.Inputs.{
  Asked, quiet_end, waiting, asked, ServesAll, none_left, one_more, Heard, Carry, no_packet, packet,
}
use fw_bootloader.Session.Round.{idle, round-Done}

module _ {Fs : Type 0} (p : Platform Fs) (build : Build) where
  -- What the loop has done when its input ends.
  pub record Refined (qs : List Request) (is : List (Option (List ℕ × ℕ))) (dev : Device Fs)
      : Type 0 where
    pub after : Device Fs
    pub replies : List (List ℕ)
    pub packets : List Event
    pub returns : upgrade_loop p build is dev ≡ ok (false, after)
    pub serves : ServesAll p build dev.flash_alignsize qs (store dev) replies (store after)
    pub events : after.events ≡ dev.events ++ packets
    pub carry : Carry p build packets replies
    pub buffer : length after.dev_g_buf ≡ 64
    pub waits : after.new_data ≡ 0
    pub nvram_after : after.nvram ≡ dev.nvram

  padding-size : (n : ℕ) (stack : List ℕ) → length (drop n (take 64 stack)) ≤ 64
  padding-size n stack = omega (arith, length-drop n (take 64 stack), length-take 64 stack)

  -- A reply of at most 58 bytes is heard.
  reply-Heard :
      (reply padding : List ℕ)
      → (2 ≤ length reply) × (length reply ≤ 58)
      → length padding ≤ 64
      → Heard p build reply padding
  reply-Heard reply padding (two, fits) short =
      let frame = reply_frame p build reply in
      let size = length-seal communication_key p.chip_crc16 reply in
      enc_cmd_data-seal communication_key p.chip_crc16 [] reply padding (length (frame ++ padding))
        tt two (omega (arith, fits)) (omega (arith, length-append frame padding))
        (omega (arith, length-append frame padding, size, fits, short))

  on_link-padding :
      (before : List Event) (frame : List ℕ)
      → (padding : List ℕ) × (on_link p build before frame ≡ frame ++ padding)
        × (length padding ≤ 64)
        × (build.usb_mode ≡ false → padding ≡ [])
  on_link-padding before frame = elim (Bool-cases build.usb_mode) [
    | inl t ↦ (
      drop (length frame) (take 64 (p.stack before)),
      rw t refl,
      padding-size (length frame) (p.stack before),
      λ uart. absurd (true-false (sym t ∙ uart)),
    )
    | inr t ↦ ([], rw (t, append-nil frame) refl, omega arith, λ uart. refl)
  ]

  quiet_round :
      (dev : Device Fs)
      → dev.new_data ≡ 0
      → upgrade_round p build (receive none dev) ≡ ok (false, dev)
  unfolding upgrade_round recv_new_data handle receive
  quiet_round dev waits = rw waits refl

  -- A round and what comes after it.
  served_first :
      (lib : Library p) (q : Request) (qs : List Request) (mem : List ℕ) (len : ℕ)
      (is : List (Option (List ℕ × ℕ))) (dev : Device Fs)
      → Legal q
      → (d : Done p build
          (idle p build dev mem len)
          q
          (upgrade_round p build (receive (some (mem, len)) dev)))
      → Refined qs is d.after
      → Refined (q ∷ qs) (some (mem, len) ∷ is) dev
  unfolding upgrade_loop
  served_first lib q qs mem len is dev legal d r =
      let (padding, e, short, bare) = on_link-padding dev.events (reply_frame p build d.reply) in
      let sent : d.after.events ≡ dev.events ++ send (reply_frame p build d.reply ++ padding) ∷ [] =
        d.sent ∙ ap (λ x. dev.events ++ send x ∷ []) e in
      record {
        after = r.after;
        replies = d.reply ∷ r.replies;
        packets = send (reply_frame p build d.reply ++ padding) ∷ r.packets;
        returns = rw d.returns r.returns;
        serves =
            one_more q qs (store dev) (store d.after) (store r.after) d.reply r.replies d.serves
              (rw d.align_after at r.serves);
        events =
            r.events
            ∙ ap (λ x. x ++ r.packets) sent
            ∙ append_assoc dev.events (send (reply_frame p build d.reply ++ padding) ∷ [])
                r.packets;
        carry =
            packet d.reply padding r.packets r.replies
              (reply-Heard d.reply padding (Serves-size p lib d.serves legal) short)
              (Serves-size p lib d.serves legal) bare r.carry;
        buffer = r.buffer;
        waits = r.waits;
        nvram_after = r.nvram_after ∙ d.nvram_after;
      }

  skipped_round :
      (qs : List Request) (is : List (Option (List ℕ × ℕ))) (dev : Device Fs)
      → dev.new_data ≡ 0
      → Refined qs is dev
      → Refined qs (none ∷ is) dev
  unfolding upgrade_loop
  skipped_round qs is dev waits r = record {
    after = r.after;
    replies = r.replies;
    packets = r.packets;
    returns = rw (quiet_round dev waits) r.returns;
    serves = r.serves;
    events = r.events;
    carry = r.carry;
    buffer = r.buffer;
    waits = r.waits;
    nvram_after = r.nvram_after;
  }

  -- `upgrade_loop` implements the specification `ServesAll`. On a library as described, with a reply
  -- buffer of 64 bytes and no new data at the start, whatever legal requests are received, each sealed
  -- and behind bytes none of which is the sync mark, with rounds in which nothing is received in between:
  -- the loop runs without a fault and still runs when the input ends, the requests have been served one
  -- after the other on the flash as the specification says, and exactly one packet per request has left,
  -- in their order, which is the sealed reply of the specification and padding, over the UART none. A host that searches the
  -- packet the way the device searches its own input finds just that reply.
  pub upgrade_loop_refines :
      (lib : Library p) (qs : List Request) (is : List (Option (List ℕ × ℕ))) (dev : Device Fs)
      → length dev.dev_g_buf ≡ 64
      → dev.new_data ≡ 0
      → Asked p build qs is
      → Refined qs is dev
  unfolding upgrade_loop
  upgrade_loop_refines lib qs is dev buffer waits quiet_end = record {
    after = dev;
    replies = [];
    packets = [];
    returns = refl;
    serves = none_left (store dev);
    events = sym (append-nil dev.events);
    carry = no_packet;
    buffer = buffer;
    waits = waits;
    nvram_after = refl;
  }
  upgrade_loop_refines lib qs is dev buffer waits (waiting qs' is' more) =
      skipped_round qs' is' dev waits (upgrade_loop_refines lib qs' is' dev buffer waits more)
  upgrade_loop_refines lib qs is dev buffer waits (asked q mem len qs' is' legal framed more) =
      let d = round-Done p build lib dev buffer q mem len legal framed in
      served_first lib q qs' mem len is' dev legal d
        (upgrade_loop_refines lib qs' is' d.after d.buffer d.new_data_after more)
