-- ===== src/Host/Exchange.antt =====
-- The host and the device together: commands of update_tools/win-uart, through `upgrade_loop` of
-- user_boot/app/src/user.c over the UART, to the replies that `waitCommand` hands out.
use fw_bootloader.Common.{
  ℕ, suc, ◌≡◌, refl, ap, sym, ◌∙◌, List, [], ◌∷◌, ◌++◌, length, Option, none, some, false, All,
  append-nil, arith, u16, le16,
}
use fw_bootloader.Common.Memory.{Result, ok, ok-injective, ◌>>=◌}
use fw_bootloader.Protocol.{communication_key}
use fw_bootloader.Protocol.Scan.{seal, sealed_head}
use fw_bootloader.Protocol.RoundTrip.{length-seal}
use fw_bootloader.Platform.{Event, send, Platform, Build}
use fw_bootloader.Device.{Device}
use fw_bootloader.Session.{upgrade_loop}
use fw_bootloader.Session.Spec.{Request, Library, payload}
use fw_bootloader.Session.Serve.{store}
use fw_bootloader.Session.Inputs.{
  Framed, Asked, quiet_end, waiting, asked, ServesAll, Carry, no_packet, packet,
}
use fw_bootloader.Session.Refine.{upgrade_loop_refines}
use fw_bootloader.Session.Round.{payload-size}
use fw_bootloader.Host.Crc.{crc16}
use fw_bootloader.Host.Crc.Laws.{crc16-lt}
use fw_bootloader.Host.Command.{decode_command}
use fw_bootloader.Host.Command.Frames.{decode_command-encode}
use fw_bootloader.Host.Command.Requests.{HostCall, make, request, InRange, make_lem}
use fw_bootloader.Host.Serial.{reads}
use fw_bootloader.Host.Serial.Reads.{closed_port, joined}
use fw_bootloader.Host.Serial.Frames.{stream, Sendable, encoded, reads-stream}

-- The requests of the calls.
abbrev pub requests : List HostCall → List Request
requests [] = []
requests (call ∷ calls) = request call ∷ requests calls

-- `decodeCommand` on each command of the queue.
abbrev pub decode_all : ℕ → List (List ℕ) → Result (List (List ℕ))
decode_all key [] = ok []
decode_all key (cmd ∷ cmds) = do
  reply ← decode_command key cmd
  replies ← decode_all key cmds
  ok (reply ∷ replies)

-- What the device receives before its rounds: the frames that the host has made, each in the receive
-- buffer in front of whatever it held, and nothing in between.
pub data Sends : List HostCall → List (Option (List ℕ × ℕ)) → Type 0 where
  all_sent : Sends [] []
  pause :
      (calls : List HostCall) (is : List (Option (List ℕ × ℕ)))
      → Sends calls is
      → Sends calls (none ∷ is)
  sent :
      (call : HostCall) (frame stale : List ℕ) (calls : List HostCall)
      (is : List (Option (List ℕ × ℕ)))
      → InRange call
      → make communication_key call ≡ ok frame
      → Sends calls is
      → Sends (call ∷ calls) (some (frame ++ stale, length frame) ∷ is)

-- The packets that the device has sent.
abbrev pub on_uart : List (List ℕ) → List Event
on_uart [] = []
on_uart (bytes ∷ more) = send bytes ∷ on_uart more

-- The replies in a stream, with nothing between their frames.
abbrev plain : List (List ℕ) → List (List ℕ × List ℕ)
plain [] = []
plain (reply ∷ replies) = ([], reply) ∷ plain replies

decode_all-encoded :
    (key : ℕ) (replies : List (List ℕ)) → decode_all key (encoded key (plain replies)) ≡ ok replies
decode_all-encoded key [] = refl
decode_all-encoded key (reply ∷ replies) =
    rw (decode_command-encode key reply, decode_all-encoded key replies) refl

module _ {Fs : Type 0} (p : Platform Fs) (build : Build)
    (same_crc : (bytes : List ℕ) → u16 (p.chip_crc16 bytes) ≡ crc16 bytes) where
  seal-crc :
      (body : List ℕ) → seal communication_key p.chip_crc16 body ≡ seal communication_key crc16 body
  seal-crc body =
      let head = sealed_head communication_key crc16 body in
      let word : u16 (crc16 head) ≡ crc16 head = omega (arith, crc16-lt head) in
      ap (λ w. head ++ le16 w) (same_crc head ∙ sym word)

  -- A command of the host is a framed request.
  command-Framed :
      (call : HostCall) (frame stale : List ℕ)
      → InRange call
      → make communication_key call ≡ ok frame
      → Framed p build (request call) (frame ++ stale) (length frame)
  command-Framed call frame stale range made =
      let (legal, made') = make_lem communication_key call range in
      let body = payload 0 (request call) in
      let (two, fits) = payload-size p build 0 (request call) legal in
      let size = length-seal communication_key p.chip_crc16 body in
      let e : frame ≡ seal communication_key p.chip_crc16 body =
        ok-injective (sym made ∙ made') ∙ sym (seal-crc body) in
      record {
        pad = 0;
        pre = [];
        rest = stale;
        at = ap (λ f. f ++ stale) e;
        clean = tt;
        inside = omega (arith, size, ap length e);
        small = omega (arith, size, ap length e, fits);
      }

  Sends-Asked :
      (calls : List HostCall) (is : List (Option (List ℕ × ℕ)))
      → Sends calls is
      → Asked p build (requests calls) is
  Sends-Asked calls is all_sent = quiet_end
  Sends-Asked calls is (pause calls' is' more) =
      waiting (requests calls) is' (Sends-Asked calls' is' more)
  Sends-Asked calls is (sent call frame stale calls' is' range made more) =
      let (legal, made') = make_lem communication_key call range in
      asked (request call) (frame ++ stale) (length frame) (requests calls') is' legal
        (command-Framed call frame stale range made) (Sends-Asked calls' is' more)

  -- What stands on the UART for the packets of the replies.
  record Heard (es : List Event) (replies : List (List ℕ)) : Type 0 where
    bytes : List (List ℕ)
    events : es ≡ on_uart bytes
    one_each : length bytes ≡ length replies
    frames : joined bytes ≡ stream communication_key (plain replies)
    sendable : All Sendable (plain replies)

  Carry-Heard :
      (es : List Event) (replies : List (List ℕ))
      → build.usb_mode ≡ false
      → Carry p build es replies
      → Heard es replies
  Carry-Heard es replies uart no_packet = record {
    bytes = [];
    events = refl;
    one_each = refl;
    frames = refl;
    sendable = tt;
  }
  Carry-Heard es replies uart (packet reply padding es' replies' heard (two, fits) bare more) =
      let h = Carry-Heard es' replies' uart more in
      let frame = seal communication_key p.chip_crc16 reply in
      let whole : frame ++ padding ≡ seal communication_key crc16 reply =
        ap (λ x. frame ++ x) (bare uart) ∙ append-nil frame ∙ seal-crc reply in
      record {
        bytes = (frame ++ padding) ∷ h.bytes;
        events = ap (λ x. send (frame ++ padding) ∷ x) h.events;
        one_each = ap suc h.one_each;
        frames =
            ap (λ x. x ++ joined h.bytes) whole
            ∙ ap (λ x. seal communication_key crc16 reply ++ x) h.frames;
        sendable = ((tt, omega arith, omega arith), h.sendable);
      }

  -- What the host and the device have done when the calls are through.
  pub record Exchanged (calls : List HostCall) (is : List (Option (List ℕ × ℕ))) (dev : Device Fs)
      : Type 0 where
    pub after : Device Fs
    pub replies : List (List ℕ)
    pub bytes : List (List ℕ)
    pub returns : upgrade_loop p build is dev ≡ ok (false, after)
    pub serves :
        ServesAll p build dev.flash_alignsize (requests calls) (store dev) replies (store after)
    pub events : after.events ≡ dev.events ++ on_uart bytes
    pub one_each : length bytes ≡ length replies
    pub heard :
        (curs : List (List ℕ))
        → joined curs ≡ joined bytes
        → decode_all communication_key (reads curs closed_port).remote_cmds ≡ ok replies

  -- Host and device agree. Over the UART, on a library as described whose CRC is that of the host, with a
  -- reply buffer of 64 bytes and no new data: when the device receives the commands that the host has made
  -- for calls in range, each in front of anything, `upgrade_loop` runs without a fault, serves the requests
  -- of the calls one after the other as the specification says, and sends one packet for each. However the
  -- port cuts these bytes into deliveries, what `on_readReady` queues decodes to just the replies of the
  -- specification, in their order.
  pub host_and_device :
      (lib : Library p) (calls : List HostCall) (is : List (Option (List ℕ × ℕ))) (dev : Device Fs)
      → build.usb_mode ≡ false
      → length dev.dev_g_buf ≡ 64
      → dev.new_data ≡ 0
      → Sends calls is
      → Exchanged calls is dev
  host_and_device lib calls is dev uart buffer waits sends =
      let r =
        upgrade_loop_refines p build lib (requests calls) is dev buffer waits
          (Sends-Asked calls is sends) in
      let h = Carry-Heard r.packets r.replies uart r.carry in
      record {
        after = r.after;
        replies = r.replies;
        bytes = h.bytes;
        returns = r.returns;
        serves = r.serves;
        events = r.events ∙ ap (λ x. dev.events ++ x) h.events;
        one_each = h.one_each;
        heard = λ curs e.
            ap (decode_all communication_key)
              (reads-stream communication_key (plain r.replies) curs h.sendable (e ∙ h.frames))
            ∙ decode_all-encoded communication_key r.replies;
      }
