-- ===== src/Host/Serial/Reads.antt =====
-- The loop of `on_readReady` over deliveries: what is queued depends on the bytes alone.
use fw_bootloader.Common.{
  ℕ, zero, suc, ◌≤◌, ◌<◌, ◌≡◌, refl, ap, sym, ◌∙◌, subst, List, [], ◌∷◌, ◌++◌, length, true, false,
  ◌&&◌, ltb, ◌==◌, Bool-cases, inl, inr, ltb→lt, le-ltb, none, some, Option-cases, append_assoc,
  append-nil, arith,
}
use fw_bootloader.Host.Serial.{
  SerialPort, parse_round, from_head, remove_until_find_head, parse_packets, settle, on_read_ready,
  reads,
}
use fw_bootloader.Host.Serial.Heads.{
  remove-append, length-remove, remove_twice, remove_at, remove_next,
}
use fw_bootloader.Host.Serial.Chunks.{Goes, parse_round-Goes, with_more}

stops : (f : ℕ) (port : SerialPort) → parse_round port ≡ none → parse_packets f port ≡ port
unfolding parse_packets
stops zero port e = refl
stops (suc f) port e = rw (e, parse_packets) refl

no_rounds : (port : SerialPort) → parse_packets zero port ≡ port
unfolding parse_packets
no_rounds port = refl

goes_on :
    (f : ℕ) (port : SerialPort) {next : SerialPort}
    → parse_round port ≡ some next
    → parse_packets (suc f) port ≡ parse_packets f next
unfolding parse_packets
goes_on f port e = rw (e, parse_packets) refl

-- A number of rounds above the number of bytes is enough.
enough :
    (f g : ℕ) (port : SerialPort)
    → length port.already_read ≤ f
    → length port.already_read ≤ g
    → parse_packets f port ≡ parse_packets g port
enough zero g port hf hg = elim (Option-cases (parse_round port)) [
  | inl e ↦ stops zero port e ∙ sym (stops g port e)
  | inr (next, e) ↦ absurd (omega (arith, (parse_round-Goes port e).size))
]
enough (suc f) zero port hf hg = elim (Option-cases (parse_round port)) [
  | inl e ↦ stops (suc f) port e ∙ sym (stops zero port e)
  | inr (next, e) ↦ absurd (omega (arith, (parse_round-Goes port e).size))
]
enough (suc f) (suc g) port hf hg = elim (Option-cases (parse_round port)) [
  | inl e ↦ stops (suc f) port e ∙ sym (stops (suc g) port e)
  | inr (next, e) ↦
      let fewer = (parse_round-Goes port e).fewer in
      goes_on f port e ∙ enough f g next (omega arith) (omega arith) ∙ sym (goes_on g port e)
]

-- The loop with as many rounds as there are bytes.
abbrev pub run_out : SerialPort → SerialPort
run_out port = parse_packets (length port.already_read) port

pub run_round :
    (port next : SerialPort) → parse_round port ≡ some next → run_out port ≡ run_out next
run_round port next e =
    let g = parse_round-Goes port e in
    enough (length port.already_read) (suc (length port.already_read)) port (omega arith)
      (omega arith)
    ∙ goes_on (length port.already_read) port e
    ∙ enough (length port.already_read) (length next.already_read) next (omega (arith, g.fewer))
        (omega arith)

-- A buffer that begins at a head of a packet still does with more bytes behind.
aligned-append :
    (buf more : List ℕ)
    → 2 < length buf
    → remove_until_find_head buf ≡ buf
    → remove_until_find_head (buf ++ more) ≡ buf ++ more
aligned-append [] more h e = absurd (omega arith)
aligned-append (x ∷ []) more h e = absurd (omega arith)
aligned-append (x ∷ y ∷ []) more h e = absurd (omega arith)
aligned-append (x ∷ y ∷ z ∷ buf) more h e = elim (Bool-cases (x == 0xAA && y == 0x55)) [
  | inl t ↦ remove_at x y z (buf ++ more) t
  | inr t ↦
      absurd
        (omega (arith, length-remove (y ∷ z ∷ buf), ap length (sym (remove_next x y z buf t) ∙ e)))
]

-- More bytes go on where the loop has ended.
run_out-append :
    (f : ℕ) (port : SerialPort) (more : List ℕ)
    → length port.already_read ≤ f
    → remove_until_find_head port.already_read ≡ port.already_read
    → run_out (from_head (with_more port more))
      ≡ run_out (from_head (with_more (parse_packets f port) more))
unfolding from_head
run_out-append zero port more h aligned =
    ap (λ p. run_out (from_head (with_more p more))) (sym (no_rounds port))
run_out-append (suc f) port more h aligned = elim (Option-cases (parse_round port)) [
  | inl e ↦ ap (λ p. run_out (from_head (with_more p more))) (sym (stops (suc f) port e))
  | inr (next, e) ↦
      let g = parse_round-Goes port e in
      (ap run_out (whole g)
        ∙ run_round (with_more port more) (from_head (with_more next more)) (g.longer more)
        ∙ run_out-append f next more (omega (arith, g.fewer)) g.aligned
        ∙ ap (λ p. run_out (from_head (with_more p more))) (sym (goes_on f port e)))
]
  where
    whole :
        {next : SerialPort} → Goes port next → from_head (with_more port more) ≡ with_more port more
    whole g =
        ap (λ b. record port { already_read = b })
          (aligned-append port.already_read more (omega (arith, g.size)) aligned)

pub settle-run_out : (port : SerialPort) → settle port ≡ run_out (from_head port)
unfolding settle from_head
settle-run_out port =
    enough (length port.already_read) (length (remove_until_find_head port.already_read))
      (from_head port) (length-remove port.already_read) (omega arith)

-- What has been settled may wait for more bytes as it is.
pub settle-append :
    (port : SerialPort) (more : List ℕ)
    → settle (with_more port more) ≡ settle (with_more (settle port) more)
unfolding from_head
settle-append port more =
    settle-run_out (with_more port more)
    ∙ ap (λ b. run_out (record port { already_read = b })) (remove-append port.already_read more)
    ∙ run_out-append (length (remove_until_find_head port.already_read)) (from_head port) more
        (omega arith) (remove_twice port.already_read)
    ∙ ap (λ p. run_out (from_head (with_more p more))) (sym (settle-run_out port))
    ∙ sym (settle-run_out (with_more (settle port) more))

with_more-nil : (port : SerialPort) → with_more port [] ≡ port
with_more-nil port = ap (λ b. record port { already_read = b }) (append-nil port.already_read)

settle_twice : (port : SerialPort) → settle (settle port) ≡ settle port
settle_twice port =
    sym (rw (with_more-nil port, with_more-nil (settle port)) at (settle-append port []))

too_few : (port : SerialPort) → length port.already_read ≤ 6 → parse_round port ≡ none
unfolding parse_round
too_few port few = rw (le-ltb 6 (length port.already_read) few) refl

-- Too few bytes for a packet add none to the queue.
pub settle_few :
    (port : SerialPort)
    → length port.already_read ≤ 6
    → (settle port).remote_cmds ≡ port.remote_cmds
unfolding from_head
settle_few port few =
    let n = length (remove_until_find_head port.already_read) in
    let none_yet = too_few (from_head port) (omega (arith, length-remove port.already_read)) in
    ap (λ p. p.remote_cmds) (settle-run_out port ∙ stops n (from_head port) none_yet)

-- No bytes and no packets.
abbrev pub closed_port : SerialPort
closed_port = record { already_read = []; remote_cmds = [] }

-- The packets that a stream of bytes holds.
abbrev pub packets : List ℕ → List (List ℕ)
packets bytes = (settle (with_more closed_port bytes)).remote_cmds

abbrev pub joined : List (List ℕ) → List ℕ
joined [] = []
joined (cur ∷ more) = cur ++ joined more

-- The port after the bytes of a stream, in any cut.
record After (bytes : List ℕ) (port : SerialPort) : Type 0 where
  same : settle port ≡ settle (with_more closed_port bytes)
  queued : port.remote_cmds ≡ packets bytes

on_read_ready-After :
    (bytes cur : List ℕ) (port : SerialPort)
    → After bytes port
    → After (bytes ++ cur) (on_read_ready cur port)
unfolding on_read_ready
on_read_ready-After bytes cur port after =
    elim (Bool-cases (ltb (length (port.already_read ++ cur)) 4)) [
      | inl t ↦ subst (After (bytes ++ cur)) (sym (waits t)) (record {
        same = joint;
        queued =
            sym (
              settle_few (with_more port cur)
                (omega (arith, ltb→lt (length (port.already_read ++ cur)) 4 t)))
            ∙ ap (λ p. p.remote_cmds) joint;
      })
      | inr t ↦ subst (After (bytes ++ cur)) (sym (parses t)) (record {
        same = settle_twice (with_more port cur) ∙ joint;
        queued = ap (λ p. p.remote_cmds) joint;
      })
    ]
  where
    joint : settle (with_more port cur) ≡ settle (with_more closed_port (bytes ++ cur))
    joint =
        settle-append port cur
        ∙ ap (λ p. settle (with_more p cur)) after.same
        ∙ sym (settle-append (with_more closed_port bytes) cur)

    waits :
        ltb (length (port.already_read ++ cur)) 4 ≡ true
        → on_read_ready cur port ≡ with_more port cur
    waits t = rw t refl

    parses :
        ltb (length (port.already_read ++ cur)) 4 ≡ false
        → on_read_ready cur port ≡ settle (with_more port cur)
    parses t = rw t refl

reads-After :
    (curs : List (List ℕ)) (bytes : List ℕ) (port : SerialPort)
    → After bytes port
    → After (bytes ++ joined curs) (reads curs port)
unfolding reads
reads-After [] bytes port after = rw (append-nil bytes) after
reads-After (cur ∷ curs) bytes port after = rw (← append_assoc bytes cur (joined curs)) (
    reads-After curs (bytes ++ cur) (on_read_ready cur port)
      (on_read_ready-After bytes cur port after))

pub reads-packets :
    (curs : List (List ℕ)) → (reads curs closed_port).remote_cmds ≡ packets (joined curs)
reads-packets curs =
    (reads-After curs [] closed_port
      (record { same = refl; queued = sym (settle_few closed_port (omega arith)) })).queued

-- How the port cuts the bytes into deliveries makes no difference: the packets that are queued after all
-- of them are those that one delivery of all the bytes queues.
pub reads-joined :
    (curs : List (List ℕ))
    → (reads curs closed_port).remote_cmds ≡ (reads (joined curs ∷ []) closed_port).remote_cmds
reads-joined curs =
    reads-packets curs ∙ sym (rw (append-nil (joined curs)) at (reads-packets (joined curs ∷ [])))
