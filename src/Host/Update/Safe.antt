-- ===== src/Host/Update/Safe.antt =====
-- What the functions of the thread keep: every frame is that of a legal request, no memory is accessed
-- out of bounds, and enough rounds are given.
use fw_bootloader.Common.{
  ℕ, zero, suc, ◌+◌, ◌-◌, ◌*◌, ◌^◌, ◌≤◌, ◌<◌, ◌≡◌, refl, List, length, drop, Bool, true, false,
  Bool-cases, ◌⊎◌, inl, inr, Option, none, some, ltb, ◌==◌, if◌then◌else◌, length-drop, arith, u32,
}
use fw_bootloader.Common.Memory.{Result, ok}
use fw_bootloader.Protocol.Scan.{seal}
use fw_bootloader.Session.Spec.{Request, Legal, payload}
use fw_bootloader.Host.Crc.{crc16}
use fw_bootloader.Host.Command.{rsp_succ, is_reply_erase_cmd, is_reply_write_cmd}
use fw_bootloader.Host.Command.Frames.{decode_command_lem}
use fw_bootloader.Host.Command.Replies.{is_reply_erase_cmd-ok, is_reply_write_cmd-ok}
use fw_bootloader.Host.Command.Requests.{HostCall, erase, write, make, request, InRange, make_lem}
use fw_bootloader.Host.Update.Thread.{
  Outcome, faulted, running, failed, done, go_on, Host, ◌>>=◌, require, guard,
}
use fw_bootloader.Host.Update.{
  take_answer, query, erase_type, do_erase_flash, erase_sectors, erase_flash, do_write_flash,
  write_flash,
}
use fw_bootloader.Host.Update.Erase.{erase_sectors_next}

-- The function returns, in a state with `P`, and a result has `Q`.
abbrev pub Safe : {D A : Type 0} → (D → Type 0) → (A → Type 0) → Outcome D A → Type 0
Safe P Q faulted = ⊥
Safe P Q running = ⊥
Safe P Q (failed d) = P d
Safe P Q (done a d) = P d × Q a

abbrev pub Any : {A : Type 0} → A → Type 0
Any a = Unit {0}

-- One function after the other.
pub Safe-go_on :
    {D A B : Type 0} (P : D → Type 0) (Q : A → Type 0) (R : B → Type 0) (r : Outcome D A)
    (next : A → Host D B)
    → Safe P Q r
    → ((a : A) (d : D) → P d → Q a → Safe P R (next a d))
    → Safe P R (go_on r next)
Safe-go_on P Q R faulted next s more = absurd s
Safe-go_on P Q R running next s more = absurd s
Safe-go_on P Q R (failed d) next s more = s
Safe-go_on P Q R (done a d) next s more = more a d s.0 s.1

module _ {D : Type 0} (answer : List ℕ → D → Option (List ℕ) × D) (key : ℕ) (P : D → Type 0)
    (keeps : (q : Request) (d : D)
      → Legal q
      → P d
      → P (answer (seal key crc16 (payload 0 q)) d).1) where
  take_answer-Safe : (got : Option (List ℕ) × D) → P got.1 → Safe P Any (take_answer answer key got)
  unfolding take_answer
  take_answer-Safe (none, d) p = p
  take_answer-Safe (some cmd, d) p = rw (decode_command_lem key cmd) (p, tt)

  pub query-Safe :
      (call : HostCall) (d : D)
      → InRange call
      → P d
      → Safe P Any (query answer key (make key call) d)
  unfolding query
  query-Safe call d range p =
      let (legal, made) = make_lem key call range in
      rw made (
        take_answer-Safe (answer (seal key crc16 (payload 0 (request call))) d)
          (keeps (request call) d legal p))

  pub guard-Safe : (b : Bool) (d : D) → P d → Safe {A = Unit {0}} P Any (guard b d)
  guard-Safe true d p = (p, tt)
  guard-Safe false d p = p

  status-Safe :
      (r : Result (Option ℕ)) (got : Option ℕ) (d : D)
      → r ≡ ok got
      → P d
      → Safe {A = Unit {0}} P Any ((require r >>= λ s. guard (s == rsp_succ)) d)
  status-Safe r none d e p = rw e p
  status-Safe r (some s) d e p = rw e (guard-Safe (s == rsp_succ) d p)

  erase_type-lt : (len : ℕ) → erase_type len < 2 ^ 32
  unfolding erase_type
  erase_type-lt len = ground arith

  do_erase_flash-Safe :
      (address len : ℕ) (d : D)
      → address < 2 ^ 32
      → P d
      → Safe P Any (do_erase_flash answer key address len d)
  unfolding do_erase_flash
  do_erase_flash-Safe address len d word p =
      let call = erase address (erase_type len) in
      Safe-go_on P Any Any (query answer key (make key call) d) _
        (query-Safe call d (word, erase_type-lt len) p)
        (λ cmd d' p' q.
          let (got, e) = is_reply_erase_cmd-ok cmd in
          status-Safe (is_reply_erase_cmd cmd) got d' e p')

  -- The sectors of a length that is a multiple of 4096.
  erase_sectors-Safe :
      (rounds count address : ℕ) (d : D)
      → count < rounds
      → count * 4096 < 2 ^ 32
      → address < 2 ^ 32
      → P d
      → Safe P Any (erase_sectors answer key rounds address (count * 4096) d)
  erase_sectors-Safe zero count address d enough small word p = absurd (omega arith)
  erase_sectors-Safe (suc rounds) zero address d enough small word p =
      unfold erase_sectors in (p, tt)
  erase_sectors-Safe (suc rounds) (suc count) address d enough small word p =
      let more : (suc count * 4096 == 0) ≡ false = ground arith in
      let left : u32 (suc count * 4096 + 2 ^ 32 - 4096) ≡ count * 4096 = omega arith in
      rw (erase_sectors_next answer key rounds address (suc count * 4096) d more) (
        Safe-go_on P Any Any (do_erase_flash answer key address 4096 d) _
          (do_erase_flash-Safe address 4096 d word p)
          (λ a d' p' q. rw left (
            erase_sectors-Safe rounds count (u32 (address + 4096)) d' (omega arith) (omega arith)
              (omega arith) p')))

  pub erase_flash-Safe :
      (rounds address len : ℕ) (d : D)
      → (len ≡ 256) ⊎ ((count : ℕ) × (len ≡ count * 4096) × (count < rounds))
      → len < 2 ^ 32
      → address < 2 ^ 32
      → P d
      → Safe P Any (erase_flash answer key rounds address len d)
  unfolding erase_flash
  erase_flash-Safe rounds address len d (inl page) small word p =
      rw page (do_erase_flash-Safe address 256 d word p)
  erase_flash-Safe rounds address len d (inr (count, e, enough)) small word p =
      elim (Bool-cases (len == 256)) [
        | inl t ↦ rw t (do_erase_flash-Safe address len d word p)
        | inr t ↦ rw (t, e) (erase_sectors-Safe rounds count address d enough (omega arith) word p)
      ]

  do_write_flash-Safe :
      (buffer : List ℕ) (address len : ℕ) (d : D)
      → address < 2 ^ 32
      → len ≤ 65525
      → len ≤ length buffer
      → P d
      → Safe P Any (do_write_flash answer key buffer address len d)
  unfolding do_write_flash
  do_write_flash-Safe buffer address len d word fits inside p =
      let call = write address len buffer in
      Safe-go_on P Any Any (query answer key (make key call) d) _
        (query-Safe call d (word, fits, inside) p)
        (λ cmd d' p' q.
          let (got, e) = is_reply_write_cmd-ok cmd in
          status-Safe (is_reply_write_cmd cmd) got d' e p')

  abbrev portion : ℕ → ℕ → ℕ
  portion len unit = if ltb unit len then unit else len

  write_flash_next :
      (rounds : ℕ) (buffer : List ℕ) (address len unit : ℕ) (d : D)
      → (len == 0) ≡ false
      → write_flash answer key (suc rounds) buffer address len unit d
        ≡ go_on (do_write_flash answer key buffer address (portion len unit) d) (λ a.
          write_flash answer key rounds
            (drop (portion len unit) buffer)
            (u32 (address + portion len unit))
            (len - portion len unit)
            unit)
  unfolding write_flash
  write_flash_next rounds buffer address len unit d t = rw (t, write_flash) refl

  write_flash_stops :
      (rounds : ℕ) (buffer : List ℕ) (address len unit : ℕ) (d : D)
      → (len == 0) ≡ true
      → write_flash answer key (suc rounds) buffer address len unit d ≡ done tt d
  unfolding write_flash
  write_flash_stops rounds buffer address len unit d t = rw (t, write_flash) refl

  -- Every portion is at least a byte, so that as many rounds as bytes are enough.
  pub write_flash-Safe :
      (rounds : ℕ) (buffer : List ℕ) (address len unit : ℕ) (d : D)
      → len < rounds
      → 0 < unit
      → unit ≤ 65525
      → len ≤ length buffer
      → address < 2 ^ 32
      → P d
      → Safe P Any (write_flash answer key rounds buffer address len unit d)
  write_flash-Safe zero buffer address len unit d enough pos fits inside word p =
      absurd (omega arith)
  write_flash-Safe (suc rounds) buffer address len unit d enough pos fits inside word p =
      elim (Bool-cases (len == 0)) [
        | inl t ↦ rw (write_flash_stops rounds buffer address len unit d t) (p, tt)
        | inr t ↦ rw (write_flash_next rounds buffer address len unit d t) (
            Safe-go_on P Any Any (do_write_flash answer key buffer address (portion len unit) d) _
              (do_write_flash-Safe buffer address (portion len unit) d word (ground arith)
                (ground arith) p)
              (λ a d' p' q.
                write_flash-Safe rounds (drop (portion len unit) buffer)
                  (u32 (address + portion len unit)) (len - portion len unit) unit d' (ground arith)
                  pos fits (ground (arith, length-drop (portion len unit) buffer)) (omega arith)
                  p'))
      ]
