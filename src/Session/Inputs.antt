-- ===== src/Session/Inputs.antt =====
-- Sessions as a host sees them: the requests that it sends, and the packets that it gets.
use fw_bootloader.Common.{
  ℕ, ◌+◌, ◌^◌, ◌≡◌, ◌≤◌, ◌<◌, List, [], ◌∷◌, ◌++◌, Option, none, some, false, length,
}
use fw_bootloader.Common.Memory.{ok}
use fw_bootloader.Protocol.{communication_key, enc_cmd_data}
use fw_bootloader.Protocol.Scan.{seal, opened}
use fw_bootloader.Protocol.RoundTrip.{NoMark}
use fw_bootloader.Platform.{Event, send, Platform, Build}
use fw_bootloader.Device.Reply.{reply_frame}
use fw_bootloader.Session.Spec.{Request, payload, Legal, Store, Serves}

module _ {Fs : Type 0} (p : Platform Fs) (build : Build) where
  -- A request as it is received: sealed, behind bytes none of which is the sync mark 0xAA.
  pub record Framed (q : Request) (mem : List ℕ) (len : ℕ) : Type 0 where
    pub pad : ℕ
    pub pre : List ℕ
    pub rest : List ℕ
    pub at : mem ≡ pre ++ (seal communication_key p.chip_crc16 (payload pad q) ++ rest)
    pub clean : NoMark pre
    pub inside : length pre + (length (payload pad q) + 6) ≤ len
    pub small : len < 2 ^ 31

  -- What is received before the rounds: requests, and nothing in between.
  pub data Asked : List Request → List (Option (List ℕ × ℕ)) → Type 0 where
    quiet_end : Asked [] []
    waiting :
        (qs : List Request) (is : List (Option (List ℕ × ℕ))) → Asked qs is → Asked qs (none ∷ is)
    asked :
        (q : Request) (mem : List ℕ) (len : ℕ) (qs : List Request) (is : List (Option (List ℕ × ℕ)))
        → Legal q
        → Framed q mem len
        → Asked qs is
        → Asked (q ∷ qs) (some (mem, len) ∷ is)

  -- The requests one after the other.
  pub data ServesAll (l : ℕ) : List Request → Store Fs → List (List ℕ) → Store Fs → Type 0 where
    none_left : (s : Store Fs) → ServesAll l [] s [] s
    one_more :
        (q : Request) (qs : List Request) (s t u : Store Fs) (reply : List ℕ)
        (replies : List (List ℕ))
        → Serves p l q s reply t
        → ServesAll l qs t replies u
        → ServesAll l (q ∷ qs) s (reply ∷ replies) u

  abbrev pub Heard : List ℕ → List ℕ → Type 0
  Heard reply padding =
      let tx = reply_frame p build reply ++ padding in
      enc_cmd_data communication_key p.chip_crc16 tx (length tx)
      ≡ ok (some (opened communication_key p.chip_crc16 reply ++ padding))

  -- A packet for each reply of 2 to 58 bytes: its frame, and padding, which the UART has not. A host that looks for a frame in the packet the way
  -- the device does finds the reply.
  pub data Carry : List Event → List (List ℕ) → Type 0 where
    no_packet : Carry [] []
    packet :
        (reply padding : List ℕ) (es : List Event) (replies : List (List ℕ))
        → Heard reply padding
        → (2 ≤ length reply) × (length reply ≤ 58)
        → (build.usb_mode ≡ false → padding ≡ [])
        → Carry es replies
        → Carry (send (reply_frame p build reply ++ padding) ∷ es) (reply ∷ replies)
