-- ===== src/Commands/Fill.antt =====
-- The reply buffer as it fills: six bytes of header, the parameters written so far, and the rest.
use fw_bootloader.Common.{
  ℕ, ◌+◌, ◌/◌, ◌%◌, ◌≤◌, ◌<◌, ◌≡◌, refl, sym, ◌∙◌, List, [], ◌∷◌, ◌++◌, length, take, drop, arith,
  length-append, length-drop, length-take, take-append-drop, append_assoc, append-nil, subst, u8,
  u16, le16,
}
use fw_bootloader.Common.Memory.{Result, ok, fault, ◌>>=◌, splice, splice-append}
use fw_bootloader.Protocol.{communication_key}
use fw_bootloader.Protocol.RoundTrip.{length-seal}
use fw_bootloader.Platform.{send, JlfsFile, Platform, Build}
use fw_bootloader.Device.{Device, log_event, poke, set_remain_and_upgrade_rsp}
use fw_bootloader.Device.Reply.{reply_frame, on_link, respond, respond-fault}
use fw_bootloader.Commands.{finish}

pub record Filled (params buf : List ℕ) : Type 0 where
  pub b0 : ℕ
  pub b1 : ℕ
  pub b2 : ℕ
  pub b3 : ℕ
  pub b4 : ℕ
  pub b5 : ℕ
  pub rest : List ℕ
  pub at : buf ≡ b0 ∷ b1 ∷ b2 ∷ b3 ∷ b4 ∷ b5 ∷ (params ++ rest)
  pub size : length params + length rest ≡ 58

pub fill_start : (buf : List ℕ) → length buf ≡ 64 → Filled [] buf
fill_start (b0 ∷ b1 ∷ b2 ∷ b3 ∷ b4 ∷ b5 ∷ rest) h = record {
  b0 = b0;
  b1 = b1;
  b2 = b2;
  b3 = b3;
  b4 = b4;
  b5 = b5;
  rest = rest;
  at = refl;
  size = omega arith;
}
fill_start _ h = absurd (omega arith)

pub fill_start-rest : (buf : List ℕ) (h : length buf ≡ 64) → (fill_start buf h).rest ≡ drop 6 buf
unfolding fill_start
fill_start-rest (b0 ∷ b1 ∷ b2 ∷ b3 ∷ b4 ∷ b5 ∷ rest) h = refl
fill_start-rest _ h = absurd (omega arith)

-- A block of the rest counted as written.
pub fill_skip :
    (n : ℕ) {params buf : List ℕ}
    → (f : Filled params buf) → length params + n ≤ 58
    → Filled (params ++ take n f.rest) buf
fill_skip n {params} f h = record {
  b0 = f.b0;
  b1 = f.b1;
  b2 = f.b2;
  b3 = f.b3;
  b4 = f.b4;
  b5 = f.b5;
  rest = drop n f.rest;
  at = cc (f.at, append_assoc params (take n f.rest) (drop n f.rest), take-append-drop n f.rest);
  size = omega (
    arith,
    f.size,
    length-append params (take n f.rest),
    length-take n f.rest,
    length-drop n f.rest,
  );
}

-- A write over parameters that stand between two blocks.
pub fill_over :
    (before old params bytes : List ℕ) {buf : List ℕ} (i : ℕ)
    → Filled (before ++ (old ++ params)) buf
    → i ≡ 6 + length before
    → length old ≡ length bytes
    → (buf' : List ℕ) × (splice buf i bytes ≡ ok buf') × Filled (before ++ (bytes ++ params)) buf'
fill_over before old params bytes i f at same = (
  head ++ (bytes ++ (params ++ f.rest)),
  rw (f.at, append_assoc before (old ++ params) f.rest, append_assoc old params f.rest)
      (splice-append head old (params ++ f.rest) bytes i (omega arith) same),
  record {
    b0 = f.b0;
    b1 = f.b1;
    b2 = f.b2;
    b3 = f.b3;
    b4 = f.b4;
    b5 = f.b5;
    rest = f.rest;
    at = cc (append_assoc before (bytes ++ params) f.rest, append_assoc bytes params f.rest);
    size = omega (
      arith,
      f.size,
      length-append before (old ++ params),
      length-append before (bytes ++ params),
      length-append old params,
      length-append bytes params,
    );
  },
)
  where
    head : List ℕ
    head = f.b0 ∷ f.b1 ∷ f.b2 ∷ f.b3 ∷ f.b4 ∷ f.b5 ∷ before

-- A write behind the parameters.
pub fill_next :
    (params bytes : List ℕ) {buf : List ℕ} (i : ℕ)
    → Filled params buf
    → i ≡ 6 + length params
    → length params + length bytes ≤ 58
    → (buf' : List ℕ) × (splice buf i bytes ≡ ok buf') × Filled (params ++ bytes) buf'
fill_next params bytes {buf} i f at fits = (out.0, out.1, subst (λ l. Filled l out.0) same out.2)
  where
    skipped : Filled (params ++ take (length bytes) f.rest) buf
    skipped = fill_skip (length bytes) f fits

    old_size : length (take (length bytes) f.rest) ≡ length bytes
    old_size = omega (arith, f.size, length-take (length bytes) f.rest)

    out : (buf' : List ℕ) × (splice buf i bytes ≡ ok buf') × Filled (params ++ (bytes ++ [])) buf'
    out =
        fill_over params (take (length bytes) f.rest) [] bytes i
          (subst (λ l. Filled (params ++ l) buf) (sym (append-nil _)) skipped) at old_size

    same : params ++ (bytes ++ []) ≡ params ++ bytes
    same = rw append-nil

-- A store through `dev_g_ops`, whatever comes after it.
module _ {Fs : Type 0} (X : Result (Device Fs) → Type 0) (dev : Device Fs) where
  pub poke_next :
      (params bytes : List ℕ) (i : ℕ) (k : Device Fs → Result (Device Fs))
      → Filled params dev.dev_g_buf
      → i ≡ 6 + length params
      → length params + length bytes ≤ 58
      → ((buf' : List ℕ) → Filled (params ++ bytes) buf' → X (k (record dev { dev_g_buf = buf' })))
      → X (poke i bytes dev >>= k)
  unfolding poke
  poke_next params bytes i k f at fits next =
      let (buf', e, f') = fill_next params bytes i f at fits in rw e (next buf' f')

  pub poke_over :
      (before old params bytes : List ℕ) (i : ℕ) (k : Device Fs → Result (Device Fs))
      → Filled (before ++ (old ++ params)) dev.dev_g_buf
      → i ≡ 6 + length before
      → length old ≡ length bytes
      → ((buf' : List ℕ)
          → Filled (before ++ (bytes ++ params)) buf'
          → X (k (record dev { dev_g_buf = buf' })))
      → X (poke i bytes dev >>= k)
  unfolding poke
  poke_over before old params bytes i k f at same next =
      let (buf', e, f') = fill_over before old params bytes i f at same in rw e (next buf' f')

module _ {Fs : Type 0} (p : Platform Fs) (build : Build) where
  -- The result of a handler that answers: `frame` leaves as one packet, the file system and the
  -- open file are as given, and all else but the reply buffer is unchanged.
  pub record Answered (dev : Device Fs) (frame : List ℕ) (fs : Fs) (file : JlfsFile)
      (r : Result (Device Fs)) : Type 0 where
    pub after : Device Fs
    pub returns : r ≡ ok after
    pub sent : after.events ≡ dev.events ++ send (on_link p build dev.events frame) ∷ []
    pub buffer : length after.dev_g_buf ≡ 64
    pub fs_after : after.fs ≡ fs
    pub file_after : after.upgrade_file ≡ file
    pub align_after : after.flash_alignsize ≡ dev.flash_alignsize
    pub new_data_after : after.new_data ≡ dev.new_data
    pub nvram_after : after.nvram ≡ dev.nvram

  -- The buffer that `finish` hands on.
  abbrev stamped : ℕ → ℕ → {params buf : List ℕ} → Filled params buf → List ℕ
  stamped status cmd_len {params} f =
      f.b0 ∷ f.b1 ∷ u16 cmd_len % 256 ∷ u16 cmd_len / 256 % 256 ∷ f.b4 ∷ status ∷ (params ++ f.rest)

  finish-stamped :
      (cmd status cmd_len : ℕ) (params : List ℕ) (dev : Device Fs) (f : Filled params dev.dev_g_buf)
      → finish p build cmd status cmd_len dev
        ≡ set_remain_and_upgrade_rsp p build cmd
            (record dev { dev_g_buf = stamped status cmd_len f })
  unfolding finish poke
  finish-stamped cmd status cmd_len params dev f = rw (
    f.at,
    splice-append (f.b0 ∷ f.b1 ∷ f.b2 ∷ f.b3 ∷ f.b4 ∷ []) (f.b5 ∷ []) (params ++ f.rest)
        (status ∷ []) 5 refl refl,
    splice-append (f.b0 ∷ f.b1 ∷ []) (f.b2 ∷ f.b3 ∷ []) (f.b4 ∷ status ∷ (params ++ f.rest))
        (le16 (u16 cmd_len)) 2 refl refl,
  )

  module _ (dev : Device Fs) (stack : 64 ≤ length (p.stack dev.events)) (fs : Fs) (file : JlfsFile)
      (cmd status cmd_len : ℕ) (params : List ℕ) where
    -- The device after the handler's own work.
    abbrev at_work : List ℕ → Device Fs
    at_work buf = record dev { fs = fs; upgrade_file = file; dev_g_buf = buf }

    abbrev frame : List ℕ
    frame = reply_frame p build (u8 cmd ∷ status ∷ params)

    answered :
        (b0 b1 b4 : ℕ) (rest : List ℕ)
        → 2 ≤ length rest
        → length params + length rest ≡ 58
        → cmd_len ≡ length params + 2
        → Answered dev frame fs file (
            set_remain_and_upgrade_rsp p build cmd (
              at_work (
                b0
                ∷ b1
                ∷ u16 cmd_len % 256
                ∷ u16 cmd_len / 256 % 256
                ∷ b4
                ∷ status
                ∷ (params ++ rest))))
    answered b0 b1 b4 (r0 ∷ r1 ∷ rest) two size len = record {
      after = log_event (send (on_link p build dev.events frame)) (at_work (frame ++ rest));
      returns =
          respond p build (at_work _) stack (status ∷ params) rest r0 r1 cmd refl (omega arith)
            (omega arith) (omega arith);
      sent = refl;
      buffer = omega (
        arith,
        length-append frame rest,
        length-seal communication_key p.chip_crc16 (u8 cmd ∷ status ∷ params),
      );
      fs_after = refl;
      file_after = refl;
      align_after = refl;
      new_data_after = refl;
      nvram_after = refl;
    }
    answered b0 b1 b4 _ two size len = absurd (omega arith)

    pub finish_lem :
        {buf : List ℕ}
        → Filled params buf
        → cmd_len ≡ length params + 2
        → length params ≤ 56
        → Answered dev frame fs file (finish p build cmd status cmd_len (at_work buf))
    finish_lem {buf} f size fits =
        rw (finish-stamped cmd status cmd_len params (at_work buf) f)
          (answered f.b0 f.b1 f.b4 f.rest (omega (arith, f.size)) f.size size)

  pub finish-fault :
      (cmd status cmd_len : ℕ) (params : List ℕ) (dev : Device Fs)
      → Filled params dev.dev_g_buf
      → 58 < u16 cmd_len
      → finish p build cmd status cmd_len dev ≡ fault
  finish-fault cmd status cmd_len params dev f over =
      finish-stamped cmd status cmd_len params dev f
      ∙ respond-fault p build (record dev { dev_g_buf = stamped status cmd_len f })
          (status ∷ (params ++ f.rest)) refl (omega (arith, f.size, length-append params f.rest))
          (omega arith) cmd
